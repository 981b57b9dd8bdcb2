-- ===== src/Gateway/Policy/Audit.antt =====
-- The audited evaluation of evaluate_call_policy against the decision that the gateway takes.
use activegraph_packs.Base.{true, false, Option, none, some, ◌≡◌, ◌≢◌, ◌↔◌, arith, get_text}
use activegraph_packs.Gateway.Types.{ActionClass, Ceiling, auto_approve, Settings, StandingScope}
use activegraph_packs.Gateway.Policy.Authority.{
  Evaluator, Runtime, Audited, AuditRequest, documented_decision, within_option,
}
use activegraph_packs.Gateway.Policy.{
  CallQuery, audit_call, audit_ceiling, stricter_ceiling, evaluate_call_policy,
  decide_policy_detail, scope_for, require_scope, action_record, combine,
}

-- A class lies within the stricter of two ceilings exactly if it lies within both.
pub within-stricter_ceiling :
    (action : ActionClass) (a b : Option Ceiling)
    → (within_option action (stricter_ceiling a b) ≡ true)
      ↔ ((within_option action a ≡ true) × (within_option action b ≡ true))
unfolding stricter_ceiling
within-stricter_ceiling action none b = ground arith
within-stricter_ceiling action (some a) none = ground arith
within-stricter_ceiling action (some a) (some b) = ground arith

-- The audited ceiling leads the documented rule to the decision of the gateway.
decision-audit_ceiling :
    (action : ActionClass) (ceiling : Ceiling) (local : Option Ceiling)
    (scope : Option StandingScope) (evaluator : Evaluator)
    → documented_decision action ceiling (audit_ceiling local action scope false)
      ≡ (require_scope action scope
          (action_record (evaluator.evaluate "" action ceiling local) scope)).decision
unfolding audit_ceiling require_scope action_record
decision-audit_ceiling action ceiling local scope evaluator =
    ground (arith, evaluator.decision-evaluate "" action ceiling local)

-- Under an explicit requirement the audited rule never grants.
decision-audit_ceiling_explicit :
    (action : ActionClass) (ceiling : Ceiling) (local : Option Ceiling)
    (scope : Option StandingScope)
    → documented_decision action ceiling (audit_ceiling local action scope true) ≢ auto_approve
unfolding audit_ceiling
decision-audit_ceiling_explicit action ceiling local scope = ground arith

-- An audit event carries the documented decision at the audited ceiling.
decision-audit_call :
    (evaluator : Evaluator) (rt : Runtime evaluator) (s : Settings) (q : CallQuery) (a : Audited)
    → audit_call evaluator (some rt) s q ≡ some a
    → a.verdict.decision
      ≡ documented_decision q.action_class rt.authority_ceiling (
          audit_ceiling
            (get_text q.capability_key s.capability_action_ceilings)
            q.action_class
            (scope_for q)
            q.requires_explicit_approval)
unfolding audit_call
decision-audit_call evaluator rt s q a h =
    let local =
      audit_ceiling (get_text q.capability_key s.capability_action_ceilings) q.action_class
        (scope_for q) q.requires_explicit_approval in
    let request : AuditRequest = record {
      capability = q.capability_key;
      action_class = q.action_class;
      capability_ceiling = local;
      actor = q.actor;
      caused_by = q.caused_by;
    } in
    ground (
      arith,
      rt.audited_verdict request,
      evaluator.decision-evaluate q.capability_key q.action_class rt.authority_ceiling local,
    )

-- Whatever the call, an audit event that the runtime writes agrees with the gateway: without an
-- explicit requirement the audited decision is the recorded one of the action-class dimension, and
-- with one neither grants.
pub audit_call-agrees :
    (evaluator : Evaluator) (rt : Runtime evaluator) (s : Settings) (q : CallQuery) (a : Audited)
    → audit_call evaluator (some rt) s q ≡ some a
    → (q.requires_explicit_approval ≡ false
        → a.verdict.decision
          ≡ (evaluate_call_policy evaluator (some rt) s q).action_authority.decision)
      × (q.requires_explicit_approval ≡ true
          → (a.verdict.decision ≢ auto_approve)
            × ((evaluate_call_policy evaluator (some rt) s q).action_authority.decision
                ≢ auto_approve))
unfolding evaluate_call_policy decide_policy_detail combine
audit_call-agrees evaluator rt s q a h =
    let local = get_text q.capability_key s.capability_action_ceilings in
    let same = decision-audit_call evaluator rt s q a h in
    (
      λ e. ground (
        arith,
        same,
        decision-audit_ceiling q.action_class rt.authority_ceiling local (scope_for q) evaluator,
      ),
      λ e. (
        ground (
          arith,
          same,
          decision-audit_ceiling_explicit q.action_class rt.authority_ceiling local (scope_for q),
        ),
        ground arith,
      ),
    )
