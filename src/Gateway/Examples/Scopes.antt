-- ===== src/Gateway/Examples/Scopes.antt =====
-- The life of a standing scope at concrete inputs.
use activegraph_packs.Base.{
  String, true, false, none, some, List, [], ◌∷◌, ◌≡◌, refl, inl, All, arith,
}
use activegraph_packs.Graph.{EventLog, LogEvent}
use activegraph_packs.Graph.Listed.{Listed}
use activegraph_packs.Gateway.Types.{
  RiskClass, ActionClass, DemotionReason, PredictionPair, ToolPolicy, Obj,
}
use activegraph_packs.Gateway.Policy.{hold, CallQuery, evaluate_call_policy, legacy_grants}
use activegraph_packs.Gateway.Policy.Scope.{
  tool_policies, find_tool_policy, promoted_standing_scope_for, scope_of_policy,
}
use activegraph_packs.Gateway.Approval.{Identity, verify_approver}
use activegraph_packs.Gateway.Scopes.Accuracy.{
  pair_matched, matches, accuracy_percent, event_index_of_ref, check_refs, check_pair,
  validate_pairs, IsForesight,
}
use activegraph_packs.Gateway.Scopes.{
  ScopeEvent, returned, is_blank, find_policy_id, Proposal, new_policy, promoted_by,
}
use activegraph_packs.Gateway.Scopes.Operations.{
  evidence_holds, patch_policy, propose_version, propose_existing, propose_new, propose_checked,
  propose_standing_scope, promote_now, promote_verified, promote_found, promote_tool_policy,
  demote_now, demote_found, demote_tool_policy, disable_found, disable_tool_policy,
}
use activegraph_packs.Gateway.Scopes.Policies.{AllSound}
use activegraph_packs.Gateway.Scopes.Outcomes.{IsEarned, changed}
use activegraph_packs.Gateway.Scopes.Sound.{policies}
use activegraph_packs.Gateway.Scopes.Steps.{
  ScopeReach, start, then_step, propose, promote, Earned, AllSound-ScopeReach,
  promoted_standing_scope_for-Earned,
}
use activegraph_packs.Gateway.Scopes.Ended.{disable_tool_policy_ends, demote_tool_policy_holds}
use activegraph_packs.Gateway.Scopes.Earns.{
  propose_standing_scope-IsEarned, promote_tool_policy_succeeds, ReadsPromotion,
}
use activegraph_packs.Gateway.Examples.{objects, rule, raised_runtime, settings}

abbrev predicted : String → LogEvent
predicted id = record { id = id; created = none }

abbrev decided : String → LogEvent
decided approval = record { id = approval; created = some approval }

-- A log that holds eight predictions and then a decision for each.
abbrev log : EventLog objects ScopeEvent
log = record {
  events = λ m.
      predicted "p1"
      ∷ predicted "p2"
      ∷ predicted "p3"
      ∷ predicted "p4"
      ∷ predicted "p5"
      ∷ predicted "p6"
      ∷ predicted "p7"
      ∷ predicted "p8"
      ∷ decided "a1"
      ∷ decided "a2"
      ∷ decided "a3"
      ∷ decided "a4"
      ∷ decided "a5"
      ∷ decided "a6"
      ∷ decided "a7"
      ∷ decided "a8"
      ∷ [];
  emit = λ m e. ("emitted", m);
  objects-emit = λ m e. refl;
}

abbrev pair : String → String → PredictionPair
pair prediction decision = record {
  prediction_ref = prediction;
  decided_ref = decision;
  predicted_verdict = "approve";
  actual_verdict = "approved";
}

abbrev eight_pairs : List PredictionPair
eight_pairs =
    pair "p1" "a1"
    ∷ pair "p2" "a2"
    ∷ pair "p3" "a3"
    ∷ pair "p4" "a4"
    ∷ pair "p5" "a5"
    ∷ pair "p6" "a6"
    ∷ pair "p7" "a7"
    ∷ pair "p8" "a8"
    ∷ []

abbrev one_pair : PredictionPair
one_pair = pair "p1" "a1"

abbrev proposal : Proposal
proposal = record {
  capability_key = "crm.lookup";
  action_class = ActionClass.r2;
  prediction_pairs = eight_pairs;
  proposed_by = "model";
  is_fixture = false;
}

program : Unit {0}
unfolding propose_standing_scope propose_checked propose_new propose_existing propose_version
    promote_tool_policy promote_found promote_verified promote_now demote_tool_policy demote_found
    demote_now disable_tool_policy disable_found patch_policy evidence_holds is_blank find_policy_id
    tool_policies find_tool_policy promoted_standing_scope_for scope_of_policy verify_approver
    pair_matched matches accuracy_percent event_index_of_ref check_refs check_pair validate_pairs
program = tt

abbrev proposed_graph : Listed Obj
proposed_graph = (propose_standing_scope objects log proposal []).1

abbrev policy_id : String
policy_id = "tool_policy_R2|crm.lookup"

abbrev promoted_graph : Listed Obj
promoted_graph =
    (promote_tool_policy objects log Identity.not_installed none policy_id "yohei" ""
      proposed_graph).1

proposed_reach : ScopeReach objects log Identity.not_installed [] proposed_graph
proposed_reach = then_step start (propose proposal)

promoted_reach : ScopeReach objects log Identity.not_installed [] promoted_graph
promoted_reach = then_step proposed_reach (promote none policy_id "yohei" "")

proposed_sound : AllSound (policies objects log proposed_graph)
unfolding program
proposed_sound = AllSound-ScopeReach objects log proposed_reach tt

promoted_sound : AllSound (policies objects log promoted_graph)
unfolding program
promoted_sound = AllSound-ScopeReach objects log promoted_reach tt

created : changed (propose_standing_scope objects log proposal []).0 ≡ true
unfolding program
created = refl

-- One pair that is listed eight times is accepted as well.
abbrev repeated : Proposal
repeated = record proposal {
  prediction_pairs =
      one_pair ∷ one_pair ∷ one_pair ∷ one_pair ∷ one_pair ∷ one_pair ∷ one_pair ∷ one_pair ∷ [];
}

repeated_accepted : changed (propose_standing_scope objects log repeated []).0 ≡ true
unfolding program
repeated_accepted = refl

candidate_found : find_policy_id policy_id proposed_graph ≡ some (1, new_policy proposal)
unfolding program
candidate_found = refl

abbrev policy : ToolPolicy
policy = promoted_by "yohei" "emitted" (new_policy proposal) (new_policy proposal)

policy_found : find_policy_id policy_id promoted_graph ≡ some (1, policy)
unfolding program
policy_found = refl

found_scope :
    promoted_standing_scope_for promoted_graph "crm.lookup" ActionClass.r2
    ≡ some (record {
      policy_object_id = 1;
      policy_id = policy_id;
      policy_version = 1;
      scope_key = "R2|crm.lookup";
      prediction_count = 8;
      accuracy_percent = 100;
      approved_by = "yohei";
    })
unfolding program
found_scope = refl

propose_standing_scope-IsEarned_example :
    IsEarned proposal × All (IsForesight (log.events [])) proposal.prediction_pairs
propose_standing_scope-IsEarned_example =
    propose_standing_scope-IsEarned objects log proposal [] created

promoted_standing_scope_for-Earned_example : Earned promoted_graph "R2|crm.lookup" (record {
  policy_object_id = 1;
  policy_id = policy_id;
  policy_version = 1;
  scope_key = "R2|crm.lookup";
  prediction_count = 8;
  accuracy_percent = 100;
  approved_by = "yohei";
})
unfolding program
promoted_standing_scope_for-Earned_example =
    promoted_standing_scope_for-Earned objects log "crm.lookup" ActionClass.r2
      (record {
        policy_object_id = 1;
        policy_id = policy_id;
        policy_version = 1;
        scope_key = "R2|crm.lookup";
        prediction_count = 8;
        accuracy_percent = 100;
        approved_by = "yohei";
      })
      refl promoted_reach found_scope

owner_allowed :
    (verify_approver Identity.not_installed proposed_graph "yohei" ("owner" ∷ "admin" ∷ [])).allowed
    ≡ true
unfolding program
owner_allowed = refl

yohei_named : is_blank "yohei" ≡ false
unfolding program
yohei_named = refl

promote_tool_policy_succeeds_example :
    ((promote_tool_policy objects log Identity.not_installed none policy_id "yohei" ""
        proposed_graph).0
      ≡ returned true (some 1))
    × ReadsPromotion (new_policy proposal) "yohei" promoted_graph
promote_tool_policy_succeeds_example =
    promote_tool_policy_succeeds objects log Identity.not_installed none policy_id "yohei" ""
      proposed_graph 1 (new_policy proposal) proposed_sound yohei_named candidate_found (inl refl)
      owner_allowed

abbrev demoted_graph : Listed Obj
demoted_graph =
    (demote_tool_policy objects log none policy_id ("missed" ∷ []) 80 "guard"
      (DemotionReason.given "") promoted_graph).1

disable_tool_policy_ends_example :
    ((disable_tool_policy objects log policy_id "yohei" "incident" promoted_graph).0
      ≡ returned true (some 1))
    × (promoted_standing_scope_for
          (disable_tool_policy objects log policy_id "yohei" "incident" promoted_graph).1
          "crm.lookup"
          ActionClass.r2
        ≡ none)
disable_tool_policy_ends_example =
    disable_tool_policy_ends objects log policy_id "yohei" "incident" promoted_graph 1 policy
      promoted_sound policy_found (λ e. ground arith)

abbrev next_call : CallQuery
next_call = record {
  capability_key = "crm.lookup";
  risk_class = RiskClass.high;
  action_class = ActionClass.r2;
  reader = some demoted_graph;
  caused_by = none;
  actor = "policy_enforcer";
  requires_explicit_approval = false;
}

risk_does_not_grant : legacy_grants RiskClass.high settings ≡ false
unfolding legacy_grants
risk_does_not_grant = refl

demote_tool_policy_holds_example :
    (evaluate_call_policy rule (some raised_runtime) settings next_call).decision ≡ hold
demote_tool_policy_holds_example =
    demote_tool_policy_holds objects log rule (some raised_runtime) settings next_call policy_id
      ("missed" ∷ []) 80 "guard" (DemotionReason.given "") promoted_graph 1 policy promoted_sound
      policy_found refl refl refl refl refl refl risk_does_not_grant
