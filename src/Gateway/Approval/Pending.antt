-- ===== src/Gateway/Approval/Pending.antt =====
-- pending_approvals_fn of packs/tool_gateway/tools.py: the calls that wait for an approver.
use activegraph_packs.Base.{
  ℕ, String, Bool, true, false, ◌&&◌, Option, none, some, List, [], ◌∷◌, ◌≡◌, get_or, ◌==◌,
  if◌then◌else◌, text_leb, sort_by,
}
use activegraph_packs.Gateway.Types.{RiskClass, ActionClass, Call, Obj, call, Ceiling}
use activegraph_packs.Gateway.Approval.{is_held}

-- Why the action-class dimension did not approve the call.
pub record Declined : Type 0 where
  pub matched_policy : String
  pub reason : String
  pub ceiling : Option Ceiling
  pub capability_ceiling : Option Ceiling

pub record PendingApproval : Type 0 where
  pub call_id : ℕ
  pub provider_name : String
  pub capability_name : String
  pub risk_class : RiskClass
  pub action_class : ActionClass
  pub auto_approve_declined_because : Option Declined
  pub input_data : String
  pub proposed_by : Option String
  pub proposed_at : Option String
  pub frame_id : Option String

abbrev missing_class : Declined
missing_class = record {
  matched_policy = "fail_closed_missing_action_class";
  reason =
      "no canonical action_class is declared for this capability; it is ineligible for action-class auto-approval (ADR 0016)";
  ceiling = none;
  capability_ceiling = none;
}

-- The recorded reasoning, or the one that a call without a class has.
unfoldable pub declined_because : Call → Option Declined
declined_because c = elim c.metadata.action_authority [
  | some a ↦ some record {
    matched_policy = a.matched_policy;
    reason = a.reason;
    ceiling = some a.ceiling;
    capability_ceiling = a.capability_ceiling;
  }
  | none ↦ elim c.action_class [ ActionClass.unclassified ↦ some missing_class | _ ↦ none ]
]

abbrev pub pending_of : ℕ → Call → PendingApproval
pending_of k c = record {
  call_id = k;
  provider_name = c.provider_name;
  capability_name = c.capability_name;
  risk_class = c.risk_class;
  action_class = c.action_class;
  auto_approve_declined_because = declined_because c;
  input_data = c.input_data;
  proposed_by = c.proposed_by;
  proposed_at = c.proposed_at;
  frame_id = c.frame_id;
}

unfoldable pub pending_calls : List (ℕ × Obj) → List PendingApproval
pending_calls [] = []
pending_calls ((k, call c) ∷ m) =
    let rest = pending_calls m in if is_held c.status then pending_of k c ∷ rest else rest
pending_calls ((k, _) ∷ m) = pending_calls m

-- `p.get("proposed_at") or ""`
abbrev pub proposed : PendingApproval → String
proposed p = get_or "" p.proposed_at

unfoldable pub pending_approvals : List (ℕ × Obj) → List PendingApproval
pending_approvals m = sort_by (λ a b. text_leb (proposed a) (proposed b)) (pending_calls m)

-- A call that is held, with this id.
abbrev pub is_held_call : ℕ → ℕ × Obj → Bool
is_held_call k (j, call c) = is_held c.status && j == k
is_held_call k (j, _) = false

-- The first was proposed no later than the second.
abbrev pub NoLater : PendingApproval → PendingApproval → Type 0
NoLater a b = text_leb (proposed a) (proposed b) ≡ true
