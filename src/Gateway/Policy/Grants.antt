-- ===== src/Gateway/Policy/Grants.antt =====
-- What can grant an unattended run, and what cannot.
use activegraph_packs.Base.{
  ℕ, Bool, true, false, ◌&&◌, Option, none, some, List, ◌≡◌, ◌⊎◌, ◌↔◌, refl, arith, get_text,
  Bool-cases, Option-cases, inl, inr, is_some, Exists,
}
use activegraph_packs.Gateway.Types.{RiskClass, ActionClass, Ceiling, Settings, StandingScope, Obj}
use activegraph_packs.Gateway.Policy.Authority.{Evaluator, Runtime, within, within_option}
use activegraph_packs.Gateway.Policy.Scope.{
  scope_key_of, IsPromotedFor, promoted_standing_scope_for, promoted_standing_scope_for-Exists,
}
use activegraph_packs.Gateway.Policy.{
  Decision, approve, hold, is_r2, is_auto, legacy_grants, require_scope, action_record, combine,
  decide_policy_detail, evaluate_call_policy, scope_for, CallQuery, ceiling_of, granted_names,
}

-- The action-class dimension grants: the documented rule and, for R2, a promoted scope.
abbrev pub action_grants : ActionClass → Ceiling → Option Ceiling → Option StandingScope → Bool
action_grants ActionClass.unclassified ceiling local scope = false
action_grants ActionClass.r3 ceiling local scope = false
action_grants ActionClass.r4 ceiling local scope = false
action_grants ActionClass.r2 ceiling local scope =
    within ActionClass.r2 ceiling && within_option ActionClass.r2 local && is_some scope
action_grants action ceiling local scope = within action ceiling && within_option action local

module _ (evaluator : Evaluator) where
  -- The action record grants exactly by that rule.
  pub require_scope-action_grants :
      (action : ActionClass) (ceiling : Ceiling) (local : Option Ceiling)
      (scope : Option StandingScope)
      → is_auto
          (require_scope action scope
            (action_record (evaluator.evaluate "" action ceiling local) scope)).decision
        ≡ action_grants action ceiling local scope
  unfolding require_scope action_record
  require_scope-action_grants ActionClass.unclassified ceiling local scope =
      ground (arith, evaluator.decision-evaluate "" ActionClass.unclassified ceiling local)
  require_scope-action_grants ActionClass.r0 ceiling local scope =
      ground (arith, evaluator.decision-evaluate "" ActionClass.r0 ceiling local)
  require_scope-action_grants ActionClass.r1 ceiling local scope =
      ground (arith, evaluator.decision-evaluate "" ActionClass.r1 ceiling local)
  require_scope-action_grants ActionClass.r2 ceiling local scope =
      ground (arith, evaluator.decision-evaluate "" ActionClass.r2 ceiling local)
  require_scope-action_grants ActionClass.r3 ceiling local scope =
      ground (arith, evaluator.decision-evaluate "" ActionClass.r3 ceiling local)
  require_scope-action_grants ActionClass.r4 ceiling local scope =
      ground (arith, evaluator.decision-evaluate "" ActionClass.r4 ceiling local)

  -- A call runs unattended exactly if the risk dimension or the action-class dimension grants it,
  -- each by its own rule, and the record names exactly the dimensions that granted.
  pub decide_policy_detail_grants :
      (risk : RiskClass) (s : Settings) (action : ActionClass) (ceiling : Ceiling)
      (local : Option Ceiling) (scope : Option StandingScope)
      → ((decide_policy_detail evaluator risk s action ceiling local scope).decision ≡ approve
          ↔ ((legacy_grants risk s ≡ true) ⊎ (action_grants action ceiling local scope ≡ true)))
        × ((decide_policy_detail evaluator risk s action ceiling local scope).granted_by
            ≡ granted_names (legacy_grants risk s) (action_grants action ceiling local scope))
  unfolding decide_policy_detail combine
  decide_policy_detail_grants risk s action ceiling local scope =
      ground (arith, require_scope-action_grants action ceiling local scope)

pub scope_for-none :
    (q : CallQuery) (m : List (ℕ × Obj))
    → q.reader ≡ some m
    → promoted_standing_scope_for m q.capability_key ActionClass.r2 ≡ none
    → scope_for q ≡ none
unfolding scope_for
scope_for-none q m r h = elim (Bool-cases (is_r2 q.action_class)) [
  | inl e ↦ rw (r, scope_for, e) h
  | inr e ↦ rw (r, scope_for, e) refl
]

Decision-cases : (d : Decision) → (d ≡ approve) ⊎ (d ≡ hold)
Decision-cases approve = inl refl
Decision-cases hold = inr refl

module _ (evaluator : Evaluator) (runtime : Option (Runtime evaluator)) (s : Settings) where
  pub evaluate_call_policy_approves :
      (q : CallQuery)
      → (evaluate_call_policy evaluator runtime s q).decision ≡ approve
      → (q.requires_explicit_approval ≡ false)
        × ((legacy_grants q.risk_class s ≡ true)
            ⊎ (action_grants q.action_class
                  (ceiling_of runtime)
                  (get_text q.capability_key s.capability_action_ceilings)
                  (scope_for q)
                ≡ true))
  unfolding evaluate_call_policy scope_for
  evaluate_call_policy_approves q h =
      let grants =
        decide_policy_detail_grants evaluator q.risk_class s q.action_class (ceiling_of runtime)
          (get_text q.capability_key s.capability_action_ceilings) (scope_for q) in
      elim (Bool-cases q.requires_explicit_approval) [
        | inl e ↦ ground arith
        | inr e ↦ (e, grants.0.0 (rw (e, evaluate_call_policy) at h))
      ]

  scope_for-Exists :
      (q : CallQuery)
      → is_some (scope_for q) ≡ true
      → (m : List (ℕ × Obj)) × (q.reader ≡ some m)
        × Exists (λ e. IsPromotedFor (scope_key_of ActionClass.r2 q.capability_key) e.1) m
  unfolding scope_for
  scope_for-Exists q h = elim (Option-cases q.reader) [
    | inl e ↦ ground arith
    | inr (m, e) ↦ (
      m,
      e,
      elim (Option-cases (promoted_standing_scope_for m q.capability_key ActionClass.r2)) [
        | inl f ↦ ground arith
        | inr (scope, f) ↦ promoted_standing_scope_for-Exists m q.capability_key ActionClass.r2 f
      ],
    )
  ]

  -- An R2 call that the risk dimension does not cover runs unattended only if the graph that is
  -- read holds a promoted tool policy for its capability, R2 lies within both ceilings, and the
  -- call does not ask for explicit approval.
  pub evaluate_call_policy_r2 :
      (q : CallQuery)
      → q.action_class ≡ ActionClass.r2
      → legacy_grants q.risk_class s ≡ false
      → (evaluate_call_policy evaluator runtime s q).decision ≡ approve
      → ((m : List (ℕ × Obj)) × (q.reader ≡ some m)
          × Exists (λ e. IsPromotedFor (scope_key_of ActionClass.r2 q.capability_key) e.1) m)
        × (within ActionClass.r2 (ceiling_of runtime) ≡ true)
        × (within_option ActionClass.r2 (get_text q.capability_key s.capability_action_ceilings)
            ≡ true)
        × (q.requires_explicit_approval ≡ false)
  evaluate_call_policy_r2 q class legacy h =
      let (calm, granted) = evaluate_call_policy_approves q h in
      let grants : (within ActionClass.r2 (ceiling_of runtime) ≡ true)
          × (within_option ActionClass.r2 (get_text q.capability_key s.capability_action_ceilings)
              ≡ true)
          × (is_some (scope_for q) ≡ true) =
        ground arith in
      (scope_for-Exists q grants.2, grants.0, grants.1, calm)

  pub evaluate_call_policy_no_scope :
      (q : CallQuery)
      → q.action_class ≡ ActionClass.r2
      → legacy_grants q.risk_class s ≡ false
      → scope_for q ≡ none
      → (evaluate_call_policy evaluator runtime s q).decision ≡ hold
  evaluate_call_policy_no_scope q class legacy none_found =
      elim (Decision-cases (evaluate_call_policy evaluator runtime s q).decision) [
        | inl h ↦ let granted = evaluate_call_policy_approves q h in ground arith
        | inr h ↦ h
      ]
