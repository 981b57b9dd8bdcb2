-- ===== src/Gateway/Lifecycle/Held.antt =====
-- A held call, and what each operation does to it.
use activegraph_packs.Base.{
  ℕ, String, true, Option, some, List, ◌≡◌, ◌≢◌, refl, sym, ap, ◌∙◌, arith, ◌==◌, ==_iff,
  Bool-cases, Option-cases, inl, inr, ◌⊎◌, subst,
}
use activegraph_packs.Graph.{Graph, try_patch}
use activegraph_packs.Graph.Laws.{objects-try_patch}
use activegraph_packs.Gateway.Types.{
  CallStatus, Call, Obj, call, approval, Settings, status_of, with_status,
}
use activegraph_packs.Gateway.Policy.Authority.{Evaluator, Runtime}
use activegraph_packs.Gateway.Policy.{is_classified}
use activegraph_packs.Gateway.Views.{status_at, status_at-with_status_self}
use activegraph_packs.Gateway.Approval.{Identity, Reply, Reason, resolve}
use activegraph_packs.Gateway.Approval.Outcomes.{Resolved, approver_verdict}
use activegraph_packs.Gateway.Behaviors.{
  policy_enforcer, enforce_approve, enforce_hold, is_proposed, approves, call_policy, auto_approval,
  held_metadata,
}
use activegraph_packs.Gateway.Lifecycle.Quiet.{Quiet, IsNoResult, Quiet-add-relate}
use activegraph_packs.Gateway.Lifecycle.Ran.{status_at-other}
use activegraph_packs.Gateway.Lifecycle.Writes.{Quiet-try_patch, Keeps-with_metadata}
use activegraph_packs.Gateway.Lifecycle.Decisions.{status_at-get_object}

abbrev pub Held : ℕ → List (ℕ × Obj) → Type 0
Held k m = status_at k m ≡ some CallStatus.policy_checking

pub Held-Quiet : {m n : List (ℕ × Obj)} (k : ℕ) → Held k m → Quiet m n → Held k n
Held-Quiet k h q = q.keeps_status k CallStatus.policy_checking h

module _ {G : Type 0} (graph : Graph Obj G) where
  -- A patch of another object's status.
  Held-try_patch :
      (g : G) (k j : ℕ) (st : CallStatus)
      → k ≢ j
      → Held k (graph.objects g)
      → Held k (graph.objects (try_patch graph g j (with_status st)))
  Held-try_patch g k j st ne h =
      rw (objects-try_patch graph g j (with_status st))
        (status_at-other k j st (graph.objects g) ne ∙ h)

  -- Two calls of different status are two objects.
  pub other_call :
      (g : G) (k j : ℕ) (o : Obj)
      → Held k (graph.objects g)
      → graph.get_object g j ≡ some o
      → status_of o ≢ some CallStatus.policy_checking
      → k ≢ j
  other_call g k j o h found differs same =
      differs (sym (status_at-get_object graph g j o found) ∙ (rw same at h))

  -- policy_enforcer moves only the proposed call that it is told of.
  pub Held-policy_enforcer :
      (evaluator : Evaluator) (runtime : Option (Runtime evaluator)) (s : Settings)
      (view : List (ℕ × Obj)) (event : Option ℕ) (j : ℕ) (c : Call) (now : String) (g : G) (k : ℕ)
      → graph.get_object g j ≡ some (call c)
      → Held k (graph.objects g)
      → Held k (graph.objects (policy_enforcer graph evaluator runtime s view event j c now g))
  unfolding policy_enforcer enforce_approve enforce_hold
  Held-policy_enforcer evaluator runtime s view event j c now g k found h =
      let d = call_policy graph evaluator runtime s view event c in
      elim (Bool-cases (is_proposed c.status)) [
        | inl e ↦
            let ne : k ≢ j = other_call g k j (call c) h found (ground arith) in
            elim (Bool-cases (approves d.decision)) [
              | inl f ↦
                  rw (e, f)
                    (Held-Quiet k (Held-try_patch g k j CallStatus.approved ne h) (
                      Quiet-add-relate graph (try_patch graph g j (with_status CallStatus.approved))
                        (approval (auto_approval "policy_enforcer" d j c now)) j
                        (graph.add_object (try_patch graph g j (with_status CallStatus.approved))
                          (approval (auto_approval "policy_enforcer" d j c now))).0
                        "approved_by" (λ i. refl)))
              | inr f ↦
                  let held = Held-try_patch g k j CallStatus.policy_checking ne h in
                  elim (Bool-cases (is_classified c.action_class)) [
                    | inl i ↦
                        rw (e, f, i)
                          (Held-Quiet k held (
                            Quiet-try_patch graph _ j
                              (Keeps-with_metadata (held_metadata d c.metadata))))
                    | inr i ↦ rw (e, f, i) held
                  ]
            ]
        | inr e ↦ rw e h
      ]

  -- After its status patch, `resolve` only adds its record.
  pub Quiet-resolve :
      (k : ℕ) (st : CallStatus) (o : Obj) (t : String) (reason : Reason) (g : G) (r : Reply)
      (g' : G)
      → resolve graph k st o t reason g ≡ some (r, g')
      → IsNoResult o
      → Quiet (graph.objects (try_patch graph g k (with_status st))) (graph.objects g')
  unfolding resolve
  Quiet-resolve k st o t reason g r g' e plain =
      let g1 = try_patch graph g k (with_status st) in
      let full = Quiet-add-relate graph g1 o k (graph.add_object g1 o).0 t plain in
      elim (Option-cases (graph.patch_object g k (with_status st))) [
        | inl f ↦ ground arith
        | inr (g2, f) ↦
            rw f (
              subst (λ x. Quiet (graph.objects g2) (graph.objects x)) (ground arith) (rw f at full))
      ]

  module _ (identity : Identity) where
    -- A held call was resolved: an approver was allowed, and its status says how.
    pub record MovedBy (k : ℕ) (g g' : G) : Type 0 where
      pub roles : Option (List String)
      pub approver : String
      pub allowed : (approver_verdict graph identity roles approver g).allowed ≡ true
      pub moved :
          (status_at k (graph.objects g') ≡ some CallStatus.approved)
          ⊎ (status_at k (graph.objects g') ≡ some CallStatus.rejected)

    pub Held-Resolved :
        (roles : Option (List String)) (j : ℕ) (approver : String) (st : CallStatus)
        (entry : Call → Obj) (t : String) (reason : Reason) (g : G) (r : Reply) (g' : G) (k : ℕ)
        → Resolved graph identity roles j approver st entry t reason g r g'
        → ((c : Call) → IsNoResult (entry c))
        → ((st ≡ CallStatus.approved) ⊎ (st ≡ CallStatus.rejected))
        → Held k (graph.objects g)
        → Held k (graph.objects g') ⊎ MovedBy k g g'
    Held-Resolved roles j approver st entry t reason g r g' k res plain which h =
        let q = Quiet-resolve j st (entry res.held) t reason g r g' res.outcome (plain res.held) in
        elim (Bool-cases (k == j)) [
          | inl e ↦
              let same = (==_iff k j).0 e in
              let now : status_at k (graph.objects g') ≡ some st = rw same (
                q.keeps_status j st (
                  rw (objects-try_patch graph g j (with_status st)) (
                    status_at-with_status_self j st CallStatus.policy_checking (graph.objects g)
                      (rw same at h)))) in
              inr (record {
                roles = roles;
                approver = approver;
                allowed = res.allowed;
                moved = elim which [
                  | inl a ↦ inl (now ∙ ap some a)
                  | inr a ↦ inr (now ∙ ap some a)
                ];
              })
          | inr e ↦
              inl (Held-Quiet k (Held-try_patch g k j st (λ p. ground (arith, e, ==_iff k j)) h) q)
        ]
