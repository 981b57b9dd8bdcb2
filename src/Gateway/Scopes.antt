-- ===== src/Gateway/Scopes.antt =====
-- Standing-scope tool policies: standing_scopes.py (propose_standing_scope_fn,
-- promote_tool_policy_fn, demote_tool_policy_fn, disable_tool_policy_fn) and
-- tool_policy_reliability_guard of behaviors.py. A ValueError, and an exception of the graph that
-- nothing catches, is `raised`, beside the state that it leaves.
pub mod Accuracy
pub mod Operations
pub mod Outcomes
pub mod Policies
pub mod Sound
pub mod Steps
pub mod Promoted
pub mod Patched
pub mod Ended
pub mod Earns
use Prim.Native.Char.{code}
use activegraph_packs.Base.{
  ℕ, ◌+◌, String, Bool, true, false, ◌&&◌, ◌||◌, Option, none, some, List, [], ◌∷◌, ◌++◌,
  append_text, length, find?, any, str_eq, leb, ltb, ◌==◌, get_or, is_empty, if◌then◌else◌,
}
use activegraph_packs.Graph.{Graph, EventLog}
use activegraph_packs.Gateway.Types.{
  ActionClass, PolicyStatus, DemotionReason, PredictionPair, Evidence, Promotion, ToolPolicy, Obj,
  tool_policy,
}
use activegraph_packs.Gateway.Policy.Scope.{tool_policies, find_tool_policy, scope_key_of}
use activegraph_packs.Gateway.Approval.{
  Identity, Reason, ApproverVerdict, verify_approver, default_roles,
}
use activegraph_packs.Gateway.Scopes.Accuracy.{
  can_stand, accuracy_percent, validate_pairs, PairError, rule_id, rule_version, min_predictions,
  min_accuracy_percent,
}

pub record ProposedEvent : Type 0 where
  pub policy_id : String
  pub policy_version : ℕ
  pub scope_key : String
  pub capability_key : String
  pub action_class : ActionClass
  pub prediction_count : ℕ
  pub accuracy_percent : ℕ
  pub rule_id : String
  pub rule_version : ℕ
  pub proposed_by : String
  pub is_fixture : Bool

pub record PromotedEvent : Type 0 where
  pub policy_id : String
  pub policy_version : ℕ
  pub scope_key : String
  pub capability_key : String
  pub action_class : ActionClass
  pub prediction_count : ℕ
  pub accuracy_percent : ℕ
  pub approver : String
  pub approver_verification : String
  pub note : String
  pub rule_id : String
  pub rule_version : ℕ
  pub is_fixture : Bool

pub record DemotedEvent : Type 0 where
  pub policy_id : String
  pub policy_version : ℕ
  pub scope_key : String
  pub capability_key : String
  pub action_class : ActionClass
  pub missed_prediction_refs : List String
  pub observed_accuracy_percent : ℕ
  pub demote_below_accuracy_percent : ℕ
  pub actor : String
  pub reason : DemotionReason
  pub is_fixture : Bool

pub record DisabledEvent : Type 0 where
  pub policy_id : String
  pub policy_version : ℕ
  pub scope_key : String
  pub actor : String
  pub reason : String
  pub is_fixture : Bool

pub data ScopeEvent : Type 0 where
  proposed : ProposedEvent → ScopeEvent
  promoted : PromotedEvent → ScopeEvent
  demoted : DemotedEvent → ScopeEvent
  disabled : DisabledEvent → ScopeEvent

pub data ScopeError : Type 0 where
  never_standing : ActionClass → ScopeError
  too_few_predictions : ℕ → ScopeError
  bad_pair : PairError → ScopeError
  low_accuracy : ℕ → ScopeError
  empty_approver : ScopeError
  unknown_policy : String → ScopeError
  needs_fresh_proposal : ScopeError
  approver_refused : Reason → ScopeError
  stale_evidence : ScopeError
  unnamed_misses : ScopeError
  graph_error : ScopeError

-- Whether the policy was created or changed, and the id of its object.
pub data Tried : Type 0 where
  returned : Bool → Option ℕ → Tried
  raised : ScopeError → Tried

-- A patch of a policy's object.
abbrev pub with_policy : (ToolPolicy → ToolPolicy) → Obj → Obj
with_policy f (tool_policy p) = tool_policy (f p)
with_policy f o = o

-- The whitespace of `str.strip`.
abbrev is_space : ℕ → Bool
is_space c =
    (leb 9 c && leb c 13)
    || (leb 28 c && leb c 32)
    || (c == 133)
    || (c == 160)
    || (c == 5760)
    || (leb 8192 c && leb c 8202)
    || (c == 8232)
    || (c == 8233)
    || (c == 8239)
    || (c == 8287)
    || (c == 12288)

-- `not text.strip()`
unfoldable pub is_blank : String → Bool
is_blank String.[] = true
is_blank (String.◌∷◌ c s) = is_space (code c) && is_blank s

unfoldable pub find_policy_id : String → List (ℕ × Obj) → Option (ℕ × ToolPolicy)
find_policy_id id m = find? (λ e. str_eq e.1.policy_id id) (tool_policies m)

-- The arguments of a proposal.
pub record Proposal : Type 0 where
  pub capability_key : String
  pub action_class : ActionClass
  pub prediction_pairs : List PredictionPair
  pub proposed_by : String
  pub is_fixture : Bool

abbrev pub policy_id_of : String → String
policy_id_of scope_key = append_text "tool_policy_" scope_key

abbrev pub evidence_of : Proposal → Evidence
evidence_of q = record {
  prediction_count = length q.prediction_pairs;
  accuracy_percent = accuracy_percent q.prediction_pairs;
  pairs = q.prediction_pairs;
  thresholds = record {
    rule_id = rule_id;
    rule_version = rule_version;
    min_predictions = min_predictions;
    min_accuracy_percent = min_accuracy_percent;
  };
}

abbrev pub key_of_proposal : Proposal → String
key_of_proposal q = scope_key_of q.action_class q.capability_key

abbrev pub proposed_event : Proposal → String → ℕ → ProposedEvent
proposed_event q id version = record {
  policy_id = id;
  policy_version = version;
  scope_key = key_of_proposal q;
  capability_key = q.capability_key;
  action_class = q.action_class;
  prediction_count = length q.prediction_pairs;
  accuracy_percent = accuracy_percent q.prediction_pairs;
  rule_id = rule_id;
  rule_version = rule_version;
  proposed_by = q.proposed_by;
  is_fixture = q.is_fixture;
}

-- The policy of a first proposal.
abbrev pub new_policy : Proposal → ToolPolicy
new_policy q = record {
  policy_id = policy_id_of (key_of_proposal q);
  policy_version = 1;
  scope_key = key_of_proposal q;
  capability_key = q.capability_key;
  action_class = q.action_class;
  status = PolicyStatus.candidate;
  rule_id = rule_id;
  rule_version = rule_version;
  evidence = evidence_of q;
  proposed_by = q.proposed_by;
  approved_by = "";
  promotion_history = [];
  demotion_reason = DemotionReason.given "";
  missed_prediction_refs = [];
  is_fixture = q.is_fixture;
}

-- The patch of a proposal after a demotion or a disabling.
abbrev pub reproposed : Proposal → ℕ → ToolPolicy → ToolPolicy
reproposed q version p = record p {
  status = PolicyStatus.candidate;
  policy_version = version;
  evidence = evidence_of q;
  proposed_by = q.proposed_by;
  approved_by = "";
  demotion_reason = DemotionReason.given "";
  missed_prediction_refs = [];
  rule_id = rule_id;
  rule_version = rule_version;
}

-- The patch of a promotion.
abbrev pub promoted_by : String → String → ToolPolicy → ToolPolicy → ToolPolicy
promoted_by approver event_id read p = record p {
  status = PolicyStatus.promoted;
  approved_by = approver;
  promotion_history =
      read.promotion_history
      ++ record {
        event_id = event_id;
        policy_version = read.policy_version;
        approver = approver;
        prior_status = read.status;
        new_status = PolicyStatus.promoted;
      }
        ∷ [];
  demotion_reason = DemotionReason.given "";
  missed_prediction_refs = [];
}

abbrev pub demoted_for : DemotionReason → List String → ToolPolicy → ToolPolicy
demoted_for reason misses p = record p {
  status = PolicyStatus.demoted;
  demotion_reason = reason;
  missed_prediction_refs = misses;
}

abbrev pub disabled_for : String → ToolPolicy → ToolPolicy
disabled_for reason p = record p {
  status = PolicyStatus.disabled;
  demotion_reason = DemotionReason.given reason;
}
