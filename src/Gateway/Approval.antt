-- ===== src/Gateway/Approval.antt =====
-- The resolution of held calls: tools.py (_verify_approver, approve_capability_fn,
-- deny_capability_fn) and lookup_principal_fn of packs/identity_auth/tools.py.
-- A reason is a value of `Reason` where the source formats a text from the same parts.
pub mod Outcomes
pub mod Pending
use activegraph_packs.Base.{
  ℕ, String, Bool, true, false, Option, none, some, List, [], ◌∷◌, str_eq, any, get_or, is_some,
  if◌then◌else◌,
}
use activegraph_packs.Graph.{Graph, try_relate}
use activegraph_packs.Gateway.Types.{
  RiskClass, ActionClass, CallStatus, Call, Approval, Denial, Principal, Obj, call, approval,
  denial, principal, with_status, PolicyDecision, CallMetadata, ActionRecord, Ceiling,
}

-- Whether packs/identity_auth can be imported, and whether its object type is registered.
pub data Identity : Type 0 where
  not_installed not_loaded loaded : Identity

pub data Reason : Type 0 where
  identity_not_installed identity_not_loaded no_principals role_allows : Reason
  unknown_approver : String → Reason
  role_not_allowed : String → List String → Reason
  no_capability_call : ℕ → Reason
  not_held : CallStatus → Reason
  approved denied : Reason

pub record ApproverVerdict : Type 0 where
  pub allowed : Bool
  pub verification : String
  pub role : Option String
  pub reason : Reason

-- `graph.objects(type="principal")`
unfoldable pub principals : List (ℕ × Obj) → List Principal
principals [] = []
principals ((k, principal p) ∷ m) = p ∷ principals m
principals ((k, _) ∷ m) = principals m

abbrev pub has_ref : String → Principal → Bool
has_ref ref p = elim p.ref [ none ↦ false | some r ↦ str_eq r ref ]

-- The first principal whose `identifiers.ref` is the given one.
unfoldable pub lookup_principal : List Principal → String → Option Principal
lookup_principal [] ref = none
lookup_principal (p ∷ ps) ref = if has_ref ref p then some p else lookup_principal ps ref

abbrev pub unverified : Reason → ApproverVerdict
unverified r = record {
  allowed = true;
  verification = "identity_unverified";
  role = none;
  reason = r;
}

-- The verdict on the approver's principal.
unfoldable pub verify_role : String → List String → Option Principal → ApproverVerdict
verify_role approver roles none = record {
  allowed = false;
  verification = "identity_verified";
  role = none;
  reason = unknown_approver approver;
}
verify_role approver roles (some p) =
    let role = get_or "unknown" p.role in
    if any (λ r. str_eq r role) roles
    then record {
      allowed = true;
      verification = "identity_verified";
      role = some role;
      reason = role_allows;
    }
    else record {
      allowed = false;
      verification = "identity_verified";
      role = some role;
      reason = role_not_allowed role roles;
    }

unfoldable pub verify_loaded : String → List String → List Principal → ApproverVerdict
verify_loaded approver roles [] = unverified no_principals
verify_loaded approver roles (p ∷ ps) =
    verify_role approver roles (lookup_principal (p ∷ ps) approver)

unfoldable pub verify_approver : Identity → List (ℕ × Obj) → String → List String → ApproverVerdict
verify_approver Identity.not_installed m approver roles = unverified identity_not_installed
verify_approver Identity.not_loaded m approver roles = unverified identity_not_loaded
verify_approver Identity.loaded m approver roles = verify_loaded approver roles (principals m)

-- The answer of an approval or a denial: `ok`, the new record's id, and the reason.
pub record Reply : Type 0 where
  pub ok : Bool
  pub record_id : Option ℕ
  pub reason : Reason

abbrev pub refuse : Reason → Reply
refuse r = record { ok = false; record_id = none; reason = r }

-- `ToolGatewaySettings().approver_roles`, where a caller passes no roles.
abbrev pub default_roles : List String
default_roles = "owner" ∷ "admin" ∷ []

abbrev pub is_held : CallStatus → Bool
is_held CallStatus.policy_checking = true
is_held _ = false

-- The record of a manual approval.
abbrev pub manual_approval : ℕ → Call → ApproverVerdict → String → String → String → Approval
manual_approval k c verdict approver note now = record {
  call_id = k;
  provider_id = c.provider_id;
  provider_name = c.provider_name;
  capability_name = c.capability_name;
  action_class = c.action_class;
  input_data = c.input_data;
  credential_ref_name = c.credential_ref_name;
  credential_ref_id = c.credential_ref_id;
  frame_id = c.frame_id;
  policy_decision = PolicyDecision.manual;
  approver = approver;
  approved_at = now;
  metadata = record {
    risk_class = c.risk_class;
    granted_by = none;
    action_authority = none;
    note = note;
    verification = verdict.verification;
    approver_role = verdict.role;
  };
}

abbrev pub denial_record : ℕ → Call → ApproverVerdict → String → String → String → Denial
denial_record k c verdict denier reason now = record {
  call_id = k;
  provider_name = c.provider_name;
  capability_name = c.capability_name;
  action_class = c.action_class;
  denier = denier;
  reason = reason;
  denied_at = now;
  frame_id = c.frame_id;
  risk_class = c.risk_class;
  verification = verdict.verification;
  denier_role = verdict.role;
}

module _ {G : Type 0} (graph : Graph Obj G) where
  -- The status patch is not in a `try`: where it raises, so does the operation, and the result is
  -- `none`. Otherwise the record is added and related.
  unfoldable pub resolve : ℕ → CallStatus → Obj → String → Reason → G → Option (Reply × G)
  resolve k st record_obj relation reason g = elim (graph.patch_object g k (with_status st)) [
    | none ↦ none
    | some g1 ↦
        let (id, g2) = graph.add_object g1 record_obj in
        some (
          record { ok = true; record_id = some id; reason = reason },
          try_relate graph g2 k id relation,
        )
  ]

  unfoldable pub approve_object :
      Identity → List String → ℕ → String → String → String → G → Option Obj → Option (Reply × G)
  approve_object identity roles k approver note now g (some (call c)) =
      let verdict = verify_approver identity (graph.objects g) approver roles in
      if is_held c.status
      then if verdict.allowed
        then resolve k CallStatus.approved
            (approval (manual_approval k c verdict approver note now)) "approved_by" Reason.approved
            g
        else some (refuse verdict.reason, g)
      else some (refuse (not_held c.status), g)
  approve_object identity roles k approver note now g _ = some (refuse (no_capability_call k), g)

  -- approve_capability_fn
  unfoldable pub approve_capability :
      Identity → Option (List String) → ℕ → String → String → String → G → Option (Reply × G)
  approve_capability identity roles k approver note now g =
      approve_object identity (get_or default_roles roles) k approver note now g
        (graph.get_object g k)

  unfoldable pub deny_object :
      Identity → List String → ℕ → String → String → String → G → Option Obj → Option (Reply × G)
  deny_object identity roles k denier reason now g (some (call c)) =
      let verdict = verify_approver identity (graph.objects g) denier roles in
      if is_held c.status
      then if verdict.allowed
        then resolve k CallStatus.rejected (denial (denial_record k c verdict denier reason now))
            "denied_by" Reason.denied g
        else some (refuse verdict.reason, g)
      else some (refuse (not_held c.status), g)
  deny_object identity roles k denier reason now g _ = some (refuse (no_capability_call k), g)

  -- deny_capability_fn
  unfoldable pub deny_capability :
      Identity → Option (List String) → ℕ → String → String → String → G → Option (Reply × G)
  deny_capability identity roles k denier reason now g =
      deny_object identity (get_or default_roles roles) k denier reason now g (graph.get_object g k)
