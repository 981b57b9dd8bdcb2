-- ===== src/Gateway/Lifecycle/Decisions.antt =====
-- The operations that move a call without running it: approve, deny, enforce.
use activegraph_packs.Base.{
  ℕ, ◌≤◌, String, Option, some, List, ◌≡◌, refl, arith, Bool-cases, Option-cases, inl, inr, subst,
}
use activegraph_packs.Graph.{Graph, try_patch}
use activegraph_packs.Graph.Laws.{objects-try_patch}
use activegraph_packs.Gateway.Types.{
  CallStatus, Call, Obj, call, approval, Settings, with_status, status_of,
}
use activegraph_packs.Gateway.Policy.Authority.{Evaluator, Runtime}
use activegraph_packs.Gateway.Policy.{PolicyDetail, is_classified}
use activegraph_packs.Gateway.Views.{status_at}
use activegraph_packs.Gateway.Approval.{
  Identity, Reply, Reason, resolve, approve_capability, deny_capability,
}
use activegraph_packs.Gateway.Approval.Outcomes.{
  Resolved, approve_capability_cases, deny_capability_cases,
}
use activegraph_packs.Gateway.Behaviors.{
  enforce_approve, enforce_hold, policy_enforcer, call_policy, is_proposed, approves, auto_approval,
  held_metadata,
}
use activegraph_packs.Gateway.Lifecycle.Quiet.{IsNoResult}
use activegraph_packs.Gateway.Lifecycle.Once.{spent}
use activegraph_packs.Gateway.Lifecycle.Writes.{
  IsSound, IsSound-Quiet, IsSound-with_status, IsSound-resolve, Quiet-try_patch,
  Keeps-with_metadata,
}

module _ {G : Type 0} (graph : Graph Obj G) where
  -- An object that is found has its status in the graph.
  pub status_at-get_object :
      (g : G) (k : ℕ) (o : Obj)
      → graph.get_object g k ≡ some o
      → status_at k (graph.objects g) ≡ status_of o
  unfolding status_at
  status_at-get_object g k o e = ground (arith, graph.get_object-objects g k)

  -- Where it does not raise, `resolve` patches the status and adds its record.
  IsSound-resolve_op :
      (k : ℕ) (st : CallStatus) (o : Obj) (t : String) (reason : Reason) (g : G) (r : Reply)
      (g' : G)
      → resolve graph k st o t reason g ≡ some (r, g')
      → IsSound (graph.objects g)
      → spent (status_at k (graph.objects g)) ≤ spent (some st)
      → IsNoResult o
      → IsSound (graph.objects g')
  unfolding resolve
  IsSound-resolve_op k st o t reason g r g' e h le plain =
      let full = IsSound-resolve graph g k st o t h le plain in
      elim (Option-cases (graph.patch_object g k (with_status st))) [
        | inl f ↦ ground arith
        | inr (g1, f) ↦ subst (λ x. IsSound (graph.objects x)) (ground arith) (rw f at full)
      ]

  -- A resolution of a held call keeps the invariants.
  IsSound-Resolved :
      (identity : Identity) (roles : Option (List String)) (k : ℕ) (approver : String)
      (st : CallStatus) (entry : Call → Obj) (t : String) (reason : Reason) (g : G) (r : Reply)
      (g' : G)
      → Resolved graph identity roles k approver st entry t reason g r g'
      → ((c : Call) → IsNoResult (entry c))
      → IsSound (graph.objects g)
      → IsSound (graph.objects g')
  IsSound-Resolved identity roles k approver st entry t reason g r g' res plain h =
      IsSound-resolve_op k st (entry res.held) t reason g r g' res.outcome h
        (ground (arith, status_at-get_object g k (call res.held) res.found, res.was_held))
        (plain res.held)

  pub IsSound-approve_capability :
      (identity : Identity) (roles : Option (List String)) (k : ℕ) (approver note now : String)
      (g : G) (r : Reply) (g' : G)
      → approve_capability graph identity roles k approver note now g ≡ some (r, g')
      → IsSound (graph.objects g)
      → IsSound (graph.objects g')
  IsSound-approve_capability identity roles k approver note now g r g' e h =
      elim (approve_capability_cases graph identity roles k approver note now g r g' e) [
        | inl (refused, same) ↦ rw same h
        | inr res ↦
            IsSound-Resolved identity roles k approver CallStatus.approved _ "approved_by"
              Reason.approved g r g' res (λ c j. refl) h
      ]

  pub IsSound-deny_capability :
      (identity : Identity) (roles : Option (List String)) (k : ℕ) (denier reason now : String)
      (g : G) (r : Reply) (g' : G)
      → deny_capability graph identity roles k denier reason now g ≡ some (r, g')
      → IsSound (graph.objects g)
      → IsSound (graph.objects g')
  IsSound-deny_capability identity roles k denier reason now g r g' e h =
      elim (deny_capability_cases graph identity roles k denier reason now g r g' e) [
        | inl (refused, same) ↦ rw same h
        | inr res ↦
            IsSound-Resolved identity roles k denier CallStatus.rejected _ "denied_by" Reason.denied
              g r g' res (λ c j. refl) h
      ]

  -- The branch that holds, of a call that has not run.
  IsSound-enforce_hold :
      (d : PolicyDetail) (k : ℕ) (c : Call) (g : G)
      → IsSound (graph.objects g)
      → spent (status_at k (graph.objects g)) ≤ 0
      → IsSound (graph.objects (enforce_hold graph d k c g))
  unfolding enforce_hold
  IsSound-enforce_hold d k c g h le =
      let g1 = try_patch graph g k (with_status CallStatus.policy_checking) in
      let held : IsSound (graph.objects g1) =
        rw (objects-try_patch graph g k (with_status CallStatus.policy_checking))
          (IsSound-with_status k CallStatus.policy_checking h le) in
      elim (Bool-cases (is_classified c.action_class)) [
        | inl e ↦ rw e (
            IsSound-Quiet held
              (Quiet-try_patch graph g1 k (Keeps-with_metadata (held_metadata d c.metadata))))
        | inr e ↦ rw e held
      ]

  -- policy_enforcer keeps the invariants where the call is as the event shows it.
  pub IsSound-policy_enforcer :
      (evaluator : Evaluator) (runtime : Option (Runtime evaluator)) (s : Settings)
      (view : List (ℕ × Obj)) (event : Option ℕ) (k : ℕ) (c : Call) (now : String) (g : G)
      → graph.get_object g k ≡ some (call c)
      → IsSound (graph.objects g)
      → IsSound (graph.objects (policy_enforcer graph evaluator runtime s view event k c now g))
  unfolding policy_enforcer enforce_approve
  IsSound-policy_enforcer evaluator runtime s view event k c now g found h =
      let d = call_policy graph evaluator runtime s view event c in
      elim (Bool-cases (is_proposed c.status)) [
        | inl e ↦
            let idle : spent (status_at k (graph.objects g)) ≤ 0 =
              ground (arith, status_at-get_object g k (call c) found) in
            elim (Bool-cases (approves d.decision)) [
              | inl f ↦
                  rw (e, f)
                    (IsSound-resolve graph g k CallStatus.approved
                      (approval (auto_approval "policy_enforcer" d k c now)) "approved_by" h idle
                      (λ j. refl))
              | inr f ↦ rw (e, f) (IsSound-enforce_hold d k c g h idle)
            ]
        | inr e ↦ rw e h
      ]
