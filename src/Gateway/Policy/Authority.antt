-- ===== src/Gateway/Policy/Authority.antt =====
-- The parts of the ActiveGraph runtime that the policy calls: `evaluate_action_authority` and the
-- audited evaluation of `Runtime`. Both are outside the repository; the laws are what the docstrings
-- of gateway.py say of them.
use activegraph_packs.Base.{
  ℕ, String, Bool, true, false, ◌&&◌, Option, none, some, ◌≡◌, if◌then◌else◌,
}
use activegraph_packs.Gateway.Types.{
  ActionClass, Ceiling, AuthorityDecision, auto_approve, require_approval, governance_gate,
}

pub record Verdict : Type 0 where
  pub action_class : ActionClass
  pub decision : AuthorityDecision
  pub matched_policy : String
  pub reason : String
  pub ceiling : Ceiling
  pub capability_ceiling : Option Ceiling
  pub effective_ceiling : Ceiling

-- Whether a class lies within a ceiling.
abbrev pub within : ActionClass → Ceiling → Bool
within ActionClass.r0 Ceiling.nothing = false
within ActionClass.r0 _ = true
within ActionClass.r1 Ceiling.r1 = true
within ActionClass.r1 Ceiling.r2 = true
within ActionClass.r2 Ceiling.r2 = true
within _ _ = false

abbrev pub within_option : ActionClass → Option Ceiling → Bool
within_option action none = true
within_option action (some c) = within action c

-- R4 goes to the governance gate, R3 always needs approval, a missing class fails closed, and
-- R0 to R2 are automatic up to the instance ceiling and any stricter capability ceiling.
abbrev pub documented_decision : ActionClass → Ceiling → Option Ceiling → AuthorityDecision
documented_decision ActionClass.r4 ceiling local = governance_gate
documented_decision action ceiling local =
    if within action ceiling && within_option action local then auto_approve else require_approval

pub record Evaluator : Type 0 where
  pub evaluate : String → ActionClass → Ceiling → Option Ceiling → Verdict
  pub decision-evaluate :
      (capability : String) (action : ActionClass) (ceiling : Ceiling) (local : Option Ceiling)
      → (evaluate capability action ceiling local).decision
        ≡ documented_decision action ceiling local

-- One call of `Runtime.evaluate_capability_authority`.
pub record AuditRequest : Type 0 where
  pub capability : String
  pub action_class : ActionClass
  pub capability_ceiling : Option Ceiling
  pub actor : String
  pub caused_by : Option ℕ

pub record Audited : Type 0 where
  pub verdict : Verdict
  pub event_id : ℕ

-- A runtime handle: its instance ceiling, and the evaluation that it records as an event.
pub record Runtime (evaluator : Evaluator) : Type 0 where
  pub authority_ceiling : Ceiling
  pub evaluate_capability_authority : AuditRequest → Audited
  pub audited_verdict :
      (q : AuditRequest)
      → (evaluate_capability_authority q).verdict
        ≡ evaluator.evaluate q.capability q.action_class authority_ceiling q.capability_ceiling
