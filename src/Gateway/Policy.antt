-- ===== src/Gateway/Policy.antt =====
-- The policy decision: gateway.py (decide_policy, decide_policy_detail) and behaviors.py
-- (_stricter_ceiling, evaluate_call_policy). The evaluator of the action-class dimension and the
-- runtime that audits it are the ActiveGraph runtime's: parameters.
pub mod Authority
pub mod Scope
pub mod Grants
pub mod Audit
use activegraph_packs.Base.{
  ℕ, String, Bool, true, false, ◌&&◌, not, Option, none, some, List, [], ◌∷◌, append_text, is_some,
  leb, any, get_text, if◌then◌else◌,
}
use activegraph_packs.Graph.{Graph}
use activegraph_packs.Gateway.Types.{
  RiskClass, ActionClass, Ceiling, AuthorityDecision, auto_approve, require_approval, StandingScope,
  ActionRecord, Settings, Obj,
}
use activegraph_packs.Gateway.Policy.Authority.{Verdict, Evaluator, Runtime, Audited, AuditRequest}
use activegraph_packs.Gateway.Policy.Scope.{promoted_standing_scope_for}

pub data Decision : Type 0 where
  approve hold : Decision

pub record PolicyDetail : Type 0 where
  pub decision : Decision
  pub risk_class : RiskClass
  pub legacy_auto_approve : Bool
  pub action_authority : ActionRecord
  pub granted_by : String

abbrev risk_eq : RiskClass → RiskClass → Bool
risk_eq RiskClass.low RiskClass.low = true
risk_eq RiskClass.medium RiskClass.medium = true
risk_eq RiskClass.high RiskClass.high = true
risk_eq RiskClass.critical RiskClass.critical = true
risk_eq _ _ = false

abbrev pub is_r2 : ActionClass → Bool
is_r2 ActionClass.r2 = true
is_r2 _ = false

abbrev pub is_auto : AuthorityDecision → Bool
is_auto auto_approve = true
is_auto _ = false

-- `risk_class in settings.auto_approve_risk_classes`
unfoldable pub legacy_grants : RiskClass → Settings → Bool
legacy_grants risk s = any (λ r. risk_eq r risk) s.auto_approve_risk_classes

-- `"+".join(granted)` of the dimensions that grant.
unfoldable pub granted_names : Bool → Bool → String
granted_names true true = "legacy_risk+action_authority"
granted_names true false = "legacy_risk"
granted_names false true = "action_authority"
granted_names false false = ""

-- An R2 grant also needs a promoted standing scope.
unfoldable pub require_scope : ActionClass → Option StandingScope → ActionRecord → ActionRecord
require_scope action scope r =
    if is_r2 action && is_auto r.decision && not (is_some scope)
    then record r {
      decision = require_approval;
      matched_policy = "r2_requires_promoted_standing_scope";
      reason =
          "R2 is within the ceiling but auto-approval of a bounded reversible capability requires a PROMOTED standing scope (tool_policy) covering it; none is promoted for this capability (ADR 0018)";
    }
    else r

-- The verdict of the evaluator as the gateway records it.
unfoldable pub action_record : Verdict → Option StandingScope → ActionRecord
action_record v scope = record {
  capability = "";
  action_class = v.action_class;
  decision = v.decision;
  matched_policy = v.matched_policy;
  reason = v.reason;
  ceiling = v.ceiling;
  capability_ceiling = v.capability_ceiling;
  effective_ceiling = v.effective_ceiling;
  standing_scope = scope;
  audit_event_id = none;
}

-- What decide_policy_detail returns for the two dimensions' answers.
unfoldable pub combine : RiskClass → Bool → ActionRecord → PolicyDetail
combine risk legacy r = record {
  decision = if legacy then approve else if is_auto r.decision then approve else hold;
  risk_class = risk;
  legacy_auto_approve = legacy;
  action_authority = r;
  granted_by = granted_names legacy (is_auto r.decision);
}

module _ (evaluator : Evaluator) where
  unfoldable pub decide_policy_detail :
      RiskClass
      → Settings
      → ActionClass
      → Ceiling
      → Option Ceiling
      → Option StandingScope
      → PolicyDetail
  decide_policy_detail risk s action ceiling local scope = combine risk (legacy_grants risk s) (
      require_scope action scope (action_record (evaluator.evaluate "" action ceiling local) scope))

  unfoldable pub decide_policy :
      RiskClass
      → Settings
      → ActionClass
      → Ceiling
      → Option Ceiling
      → Option StandingScope
      → Decision
  decide_policy risk s action ceiling local scope =
      (decide_policy_detail risk s action ceiling local scope).decision

-- The order ("none", "R0", "R1", "R2").
abbrev pub ceiling_rank : Ceiling → ℕ
ceiling_rank Ceiling.nothing = 0
ceiling_rank Ceiling.r0 = 1
ceiling_rank Ceiling.r1 = 2
ceiling_rank Ceiling.r2 = 3

-- `_stricter_ceiling`: the lower of two, where none is unconstrained.
unfoldable pub stricter_ceiling : Option Ceiling → Option Ceiling → Option Ceiling
stricter_ceiling none b = b
stricter_ceiling (some a) none = some a
stricter_ceiling (some a) (some b) =
    if leb (ceiling_rank a) (ceiling_rank b) then some a else some b

-- The ceiling of the audited evaluation.
unfoldable pub audit_ceiling :
    Option Ceiling → ActionClass → Option StandingScope → Bool → Option Ceiling
unfolding stricter_ceiling
audit_ceiling local action scope explicit =
    let capped =
      if is_r2 action && not (is_some scope)
      then stricter_ceiling local (some Ceiling.r1)
      else local in
    if explicit then stricter_ceiling capped (some Ceiling.nothing) else capped

abbrev pub ceiling_of : {evaluator : Evaluator} → Option (Runtime evaluator) → Ceiling
ceiling_of none = Ceiling.nothing
ceiling_of (some rt) = rt.authority_ceiling

abbrev pub is_classified : ActionClass → Bool
is_classified ActionClass.unclassified = false
is_classified _ = true

-- The audit of a call with a class, where there is a runtime.
abbrev pub audit_of :
    {evaluator : Evaluator} → Option (Runtime evaluator) → AuditRequest → Option Audited
audit_of none q = none
audit_of (some rt) q =
    if is_classified q.action_class then some (rt.evaluate_capability_authority q) else none

abbrev record_audit : String → Option Audited → PolicyDetail → PolicyDetail
record_audit key audited d = record d {
  action_authority = record d.action_authority {
    capability = key;
    audit_event_id = elim audited [ none ↦ none | some a ↦ some a.event_id ];
  };
}

-- A stricter requirement of the call itself overrides both dimensions.
abbrev explicit_hold : PolicyDetail → PolicyDetail
explicit_hold d = record d {
  decision = hold;
  granted_by = "";
  action_authority = record d.action_authority {
    decision = require_approval;
    matched_policy = "call_requires_explicit_approval";
    reason =
        "this call carries a stricter per-call approval requirement; neither legacy risk configuration nor a standing scope may bypass it";
  };
}

-- The arguments of evaluate_call_policy; `reader` is the objects that the scope lookup sees.
pub record CallQuery : Type 0 where
  pub capability_key : String
  pub risk_class : RiskClass
  pub action_class : ActionClass
  pub reader : Option (List (ℕ × Obj))
  pub caused_by : Option ℕ
  pub actor : String
  pub requires_explicit_approval : Bool

-- The standing scope is looked up for R2 only.
unfoldable pub scope_for : CallQuery → Option StandingScope
scope_for q = elim q.reader [
  | none ↦ none
  | some m ↦
      if is_r2 q.action_class
      then promoted_standing_scope_for m q.capability_key ActionClass.r2
      else none
]

module _ (evaluator : Evaluator) (runtime : Option (Runtime evaluator)) (s : Settings) where
  -- The audited evaluation, if one is made.
  unfoldable pub audit_call : CallQuery → Option Audited
  audit_call q = audit_of runtime (record {
    capability = q.capability_key;
    action_class = q.action_class;
    capability_ceiling =
        audit_ceiling (get_text q.capability_key s.capability_action_ceilings) q.action_class
          (scope_for q) q.requires_explicit_approval;
    actor = q.actor;
    caused_by = q.caused_by;
  })

  unfoldable pub evaluate_call_policy : CallQuery → PolicyDetail
  evaluate_call_policy q =
      let detail =
        decide_policy_detail evaluator q.risk_class s q.action_class (ceiling_of runtime)
          (get_text q.capability_key s.capability_action_ceilings) (scope_for q) in
      let recorded = record_audit q.capability_key (audit_call q) detail in
      if q.requires_explicit_approval then explicit_hold recorded else recorded
