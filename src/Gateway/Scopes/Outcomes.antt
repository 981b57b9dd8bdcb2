-- ===== src/Gateway/Scopes/Outcomes.antt =====
-- The two ends of each operation on standing scopes: refused, or its event and its patch.
use activegraph_packs.Base.{
  ℕ, ◌≤◌, String, Bool, true, false, ◌&&◌, ◌||◌, Option, none, some, List, [], ◌∷◌, ◌≡◌, refl, ◌⊎◌,
  inl, inr, length, leb, leb→le, get_or, str_eq, is_empty, Bool-cases, Option-cases,
}
use activegraph_packs.Graph.{Graph, EventLog}
use activegraph_packs.Gateway.Types.{PolicyStatus, DemotionReason, ToolPolicy, Obj}
use activegraph_packs.Gateway.Policy.Scope.{is_promoted}
use activegraph_packs.Gateway.Approval.{Identity, ApproverVerdict, verify_approver, default_roles}
use activegraph_packs.Gateway.Scopes.Accuracy.{
  can_stand, accuracy_percent, validate_pairs, min_predictions, min_accuracy_percent,
}
use activegraph_packs.Gateway.Scopes.{
  ScopeEvent, Tried, returned, raised, is_blank, find_policy_id, Proposal, disabled_for,
}
use activegraph_packs.Gateway.Scopes.Operations.{
  disabling_event, ReliabilityChanged, guarded_policy, evidence_holds, patch_policy,
  propose_checked, propose_standing_scope, promote_now, promote_verified, promote_found,
  promote_tool_policy, demote_now, demote_found, demote_tool_policy, disable_found,
  disable_tool_policy, guard_found, tool_policy_reliability_guard,
}

-- The proposal meets the earning rule.
pub record IsEarned (q : Proposal) : Type 0 where
  pub stands : can_stand q.action_class ≡ true
  pub enough : min_predictions ≤ length q.prediction_pairs
  pub accurate : min_accuracy_percent ≤ accuracy_percent q.prediction_pairs

-- Whether an operation answers that it changed something.
abbrev pub changed : Tried → Bool
changed (returned b id) = b
changed (raised e) = false

module _ {G : Type 0} (graph : Graph Obj G) (log : EventLog graph ScopeEvent) where
  -- A proposal is refused, or meets the earning rule with predictions that all precede their
  -- decisions, and goes on.
  pub propose_standing_scope_cases :
      (q : Proposal) (g : G)
      → ((changed (propose_standing_scope graph log q g).0 ≡ false)
          × ((propose_standing_scope graph log q g).1 ≡ g))
        ⊎ (IsEarned q
            × (validate_pairs (log.events g) q.prediction_pairs ≡ none)
            × (propose_standing_scope graph log q g ≡ propose_checked graph log q g))
  unfolding propose_standing_scope
  propose_standing_scope_cases q g = elim (Bool-cases (can_stand q.action_class)) [
    | inr a ↦ inl (rw (a, propose_standing_scope) (refl, refl))
    | inl a ↦ elim (Bool-cases (leb min_predictions (length q.prediction_pairs))) [
      | inr b ↦ inl (rw (a, b, propose_standing_scope) (refl, refl))
      | inl b ↦ elim (Option-cases (validate_pairs (log.events g) q.prediction_pairs)) [
        | inr (err, c) ↦ inl (rw (a, b, c, propose_standing_scope) (refl, refl))
        | inl c ↦
            elim (Bool-cases (leb min_accuracy_percent (accuracy_percent q.prediction_pairs))) [
              | inr d ↦ inl (rw (a, b, c, d, propose_standing_scope) (refl, refl))
              | inl d ↦ inr (
                record {
                  stands = a;
                  enough = leb→le min_predictions (length q.prediction_pairs) b;
                  accurate = leb→le min_accuracy_percent (accuracy_percent q.prediction_pairs) d;
                },
                c,
                rw (a, b, c, d, propose_standing_scope) refl,
              )
            ]
      ]
    ]
  ]

  -- All guards of a promotion hold, and the operation is its event and its patch.
  pub record Promotable (identity : Identity) (roles : Option (List String))
      (id approver note : String) (g : G) : Type 0 where
    pub key : ℕ
    pub policy : ToolPolicy
    pub verdict : ApproverVerdict
    pub named : is_blank approver ≡ false
    pub found : find_policy_id id (graph.objects g) ≡ some (key, policy)
    pub promotable :
        (policy.status ≡ PolicyStatus.candidate) ⊎ (policy.status ≡ PolicyStatus.demoted)
    pub verified :
        verify_approver identity (graph.objects g) approver (get_or default_roles roles) ≡ verdict
    pub allowed : verdict.allowed ≡ true
    pub holds : evidence_holds policy ≡ true
    pub outcome :
        promote_tool_policy graph log identity roles id approver note g
        ≡ promote_now graph log id approver note verdict key policy g

  promote_verified_cases :
      (id approver note : String) (v : ApproverVerdict) (k : ℕ) (p : ToolPolicy) (g : G)
      → ((promote_verified graph log id approver note v k p g).1 ≡ g)
        ⊎ ((v.allowed ≡ true)
            × (evidence_holds p ≡ true)
            × (promote_verified graph log id approver note v k p g
                ≡ promote_now graph log id approver note v k p g))
  unfolding promote_verified
  promote_verified_cases id approver note v k p g = elim (Bool-cases v.allowed) [
    | inr a ↦ inl (rw (a, promote_verified) refl)
    | inl a ↦ elim (Bool-cases (evidence_holds p)) [
      | inr b ↦ inl (rw (a, b, promote_verified) refl)
      | inl b ↦ inr (a, b, rw (a, b, promote_verified) refl)
    ]
  ]

  promote_found_cases :
      (id approver note : String) (v : ApproverVerdict) (k : ℕ) (p : ToolPolicy) (st : PolicyStatus)
      (g : G)
      → ((promote_found graph log id approver note v k p st g).1 ≡ g)
        ⊎ (((st ≡ PolicyStatus.candidate) ⊎ (st ≡ PolicyStatus.demoted))
            × (v.allowed ≡ true)
            × (evidence_holds p ≡ true)
            × (promote_found graph log id approver note v k p st g
                ≡ promote_now graph log id approver note v k p g))
  unfolding promote_found
  promote_found_cases id approver note v k p PolicyStatus.promoted g = inl refl
  promote_found_cases id approver note v k p PolicyStatus.disabled g = inl refl
  promote_found_cases id approver note v k p PolicyStatus.candidate g =
      elim (promote_verified_cases id approver note v k p g) [
        | inl same ↦ inl same
        | inr (a, b, same) ↦ inr (inl refl, a, b, same)
      ]
  promote_found_cases id approver note v k p PolicyStatus.demoted g =
      elim (promote_verified_cases id approver note v k p g) [
        | inl same ↦ inl same
        | inr (a, b, same) ↦ inr (inr refl, a, b, same)
      ]

  pub promote_tool_policy_cases :
      (identity : Identity) (roles : Option (List String)) (id approver note : String) (g : G)
      → ((promote_tool_policy graph log identity roles id approver note g).1 ≡ g)
        ⊎ Promotable identity roles id approver note g
  unfolding promote_tool_policy
  promote_tool_policy_cases identity roles id approver note g =
      let v = verify_approver identity (graph.objects g) approver (get_or default_roles roles) in
      elim (Bool-cases (is_blank approver)) [
        | inl a ↦ inl (rw (a, promote_tool_policy) refl)
        | inr a ↦ elim (Option-cases (find_policy_id id (graph.objects g))) [
          | inl b ↦ inl (rw (a, b, promote_tool_policy) refl)
          | inr ((k, p), b) ↦ elim (promote_found_cases id approver note v k p p.status g) [
            | inl same ↦ inl (rw (a, b, promote_tool_policy) same)
            | inr (promotable, allowed, holds, same) ↦ inr (record {
              key = k;
              policy = p;
              verdict = v;
              named = a;
              found = b;
              promotable = promotable;
              verified = refl;
              allowed = allowed;
              holds = holds;
              outcome = rw (a, b, promote_tool_policy) same;
            })
          ]
        ]
      ]

  pub demote_tool_policy_cases :
      (reader : Option (List (ℕ × Obj))) (id : String) (misses : List String) (observed : ℕ)
      (actor : String) (reason : DemotionReason) (g : G)
      → ((demote_tool_policy graph log reader id misses observed actor reason g).1 ≡ g)
        ⊎ ((k : ℕ) × (p : ToolPolicy) × (find_policy_id id (get_or (graph.objects g) reader)
              ≡ some (k, p))
            × (is_promoted p.status ≡ true)
            × (demote_tool_policy graph log reader id misses observed actor reason g
                ≡ demote_now graph log id misses observed actor reason k p g))
  unfolding demote_tool_policy demote_found
  demote_tool_policy_cases reader id misses observed actor reason g =
      elim (Option-cases (find_policy_id id (get_or (graph.objects g) reader))) [
        | inl a ↦ inl (rw (a, demote_tool_policy) refl)
        | inr ((k, p), a) ↦ elim (Bool-cases (is_promoted p.status)) [
          | inr b ↦ inl (rw (a, demote_tool_policy, b) refl)
          | inl b ↦ elim (Bool-cases (is_empty misses)) [
            | inl c ↦ inl (rw (a, demote_tool_policy, b, c) refl)
            | inr c ↦ inr (k, p, a, b, rw (a, demote_tool_policy, b, c) refl)
          ]
        ]
      ]

  disable_found_cases :
      (id actor reason : String) (k : ℕ) (p : ToolPolicy) (st : PolicyStatus) (g : G)
      → ((disable_found graph log id actor reason k p st g).1 ≡ g)
        ⊎ (disable_found graph log id actor reason k p st g
            ≡ patch_policy graph log k
                (disabled_for reason)
                (log.emit g (disabling_event id actor reason p)).1)
  unfolding disable_found
  disable_found_cases id actor reason k p PolicyStatus.disabled g = inl refl
  disable_found_cases id actor reason k p PolicyStatus.candidate g = inr refl
  disable_found_cases id actor reason k p PolicyStatus.promoted g = inr refl
  disable_found_cases id actor reason k p PolicyStatus.demoted g = inr refl

  pub disable_tool_policy_cases :
      (id actor reason : String) (g : G)
      → ((disable_tool_policy graph log id actor reason g).1 ≡ g)
        ⊎ ((k : ℕ) × (p : ToolPolicy) × (find_policy_id id (graph.objects g) ≡ some (k, p))
            × (disable_tool_policy graph log id actor reason g
                ≡ patch_policy graph log k
                    (disabled_for reason)
                    (log.emit g (disabling_event id actor reason p)).1))
  unfolding disable_tool_policy
  disable_tool_policy_cases id actor reason g =
      elim (Option-cases (find_policy_id id (graph.objects g))) [
        | inl a ↦ inl (rw (a, disable_tool_policy) refl)
        | inr ((k, p), a) ↦ elim (disable_found_cases id actor reason k p p.status g) [
          | inl same ↦ inl (rw (a, disable_tool_policy) same)
          | inr same ↦ inr (k, p, a, rw (a, disable_tool_policy) same)
        ]
      ]

  guard_found_cases :
      (view : List (ℕ × Obj)) (e : ReliabilityChanged) (found : Option ToolPolicy) (g : G)
      → ((guard_found graph log view e found g).1 ≡ g)
        ⊎ ((p : ToolPolicy) × (is_promoted p.status ≡ true)
            × (guard_found graph log view e found g
                ≡ demote_tool_policy graph log
                    (some view)
                    p.policy_id
                    (e.event_id ∷ [])
                    p.evidence.accuracy_percent
                    "tool_policy_reliability_guard"
                    (DemotionReason.reliability_fell e.verdict e.latest_outcome_event_id)
                    g))
  unfolding guard_found
  guard_found_cases view e none g = inl refl
  guard_found_cases view e (some p) g = elim (Bool-cases (is_promoted p.status)) [
    | inr a ↦ inl (rw (guard_found, a) refl)
    | inl a ↦ inr (p, a, rw (guard_found, a) refl)
  ]

  pub guard_cases :
      (view : List (ℕ × Obj)) (e : ReliabilityChanged) (g : G)
      → ((tool_policy_reliability_guard graph log view e g).1 ≡ g)
        ⊎ ((p : ToolPolicy) × (is_promoted p.status ≡ true)
            × (tool_policy_reliability_guard graph log view e g
                ≡ demote_tool_policy graph log
                    (some view)
                    p.policy_id
                    (e.event_id ∷ [])
                    p.evidence.accuracy_percent
                    "tool_policy_reliability_guard"
                    (DemotionReason.reliability_fell e.verdict e.latest_outcome_event_id)
                    g))
  unfolding tool_policy_reliability_guard
  guard_cases view e g =
      let found =
        guarded_policy e (elim e.object_id [ none ↦ none | some k ↦ graph.get_object g k ]) view in
      elim (Bool-cases (
        str_eq e.artifact_type "tool_policy"
        && (str_eq e.verdict "harmful" || str_eq e.verdict "stale"))) [
          | inr a ↦ inl (rw (tool_policy_reliability_guard, a) refl)
          | inl a ↦ elim (guard_found_cases view e found g) [
            | inl same ↦ inl (rw (tool_policy_reliability_guard, a) same)
            | inr (p, b, same) ↦ inr (p, b, rw (tool_policy_reliability_guard, a) same)
          ]
        ]
