-- ===== src/Gateway/Lifecycle/Sound.antt =====
-- The invariants along the gateway's steps.
use activegraph_packs.Base.{
  ℕ, ◌≤◌, String, true, Option, some, List, [], ◌∷◌, ◌≡◌, refl, sym, ap, ◌∙◌, arith, lookup, ◌==◌,
  ==_iff, ==_refl, Bool-cases, inl, inr, str_eq,
}
use activegraph_packs.Graph.{Graph}
use activegraph_packs.Gateway.Types.{
  CallStatus, Call, Obj, call, approval, Approval, Settings, bind_status, status_of,
}
use activegraph_packs.Gateway.Policy.Authority.{Evaluator, Runtime}
use activegraph_packs.Gateway.Policy.{PolicyDetail}
use activegraph_packs.Gateway.Views.{
  status_at, results_of, approvals_of, approvals_of-append, status_at-append,
}
use activegraph_packs.Gateway.Approval.{Identity}
use activegraph_packs.Gateway.Execution.{Host, Chars, execute_approved_call}
use activegraph_packs.Gateway.Behaviors.{call_executor, call_data_of, is_approved}
use activegraph_packs.Gateway.LlmTools.{
  CapabilitySpec, Invocation, proxy, proxy_call, proxy_data, proxy_approval, run_inline,
  proxy_policy, is_hold, status-proxy_call,
}
use activegraph_packs.Gateway.Lifecycle.Quiet.{Quiet-add_object, Quiet-try_relate}
use activegraph_packs.Gateway.Lifecycle.Once.{results_of-le}
use activegraph_packs.Gateway.Lifecycle.Ran.{Ran, Ran-Quiet}
use activegraph_packs.Gateway.Lifecycle.Runs.{HostQuiet, Ran-execute_approved_call}
use activegraph_packs.Gateway.Lifecycle.Steps.{
  Step, Reach, add, outside, recorder, enforcer, approve, deny, executor, sourcer, model, here,
  next,
}
use activegraph_packs.Gateway.Lifecycle.Writes.{
  IsSound, IsSound-Quiet, Quiet-call_recorder, Quiet-result_sourcer,
}
use activegraph_packs.Gateway.Lifecycle.Decisions.{
  IsSound-approve_capability, IsSound-deny_capability, IsSound-policy_enforcer,
}

-- An approval in the graph counts for its call.
approvals_of-lookup :
    (id : ℕ) (a : Approval) (m : List (ℕ × Obj))
    → lookup id m ≡ some (approval a)
    → 1 ≤ approvals_of a.call_id m
unfolding approvals_of
approvals_of-lookup id a [] h = ground arith
approvals_of-lookup id a ((j, o) ∷ m) h =
    ground (arith, approvals_of-lookup id a m, ==_refl a.call_id)

-- After a run, the run's own call is covered once it has an approval.
IsSound-Ran :
    {k : ℕ} {st : CallStatus} {m n : List (ℕ × Obj)}
    → IsSound m
    → Ran k st m n
    → 1 ≤ approvals_of k n
    → IsSound n
IsSound-Ran {k} {st} {m} {n} h r covered = record {
  once = r.once;
  covered = λ j. elim (Bool-cases (j == k)) [
    | inl e ↦ rw ((==_iff j k).0 e) (omega (arith, results_of-le k r.once))
    | inr e ↦
        omega (
          arith,
          h.covered j,
          r.approvals j,
          r.other_results j (λ p. ground (arith, e, ==_iff j k)),
        )
  ];
}

module _ {G : Type 0} (graph : Graph Obj G) where
  pub is_approved_inv :
      (st : Option CallStatus) → is_approved st ≡ true → st ≡ some CallStatus.approved
  is_approved_inv st h = ground arith

  pub status_at-bind_status :
      (g : G) (k : ℕ) → status_at k (graph.objects g) ≡ bind_status (graph.get_object g k)
  unfolding status_at
  status_at-bind_status g k = rw (graph.get_object-objects g k)

  -- call_executor keeps the invariants, for any approval in the graph and however often it fires.
  IsSound-call_executor :
      (host : Host G) (s : Settings) (id : ℕ) (a : Approval) (g : G)
      → HostQuiet graph host
      → graph.get_object g id ≡ some (approval a)
      → IsSound (graph.objects g)
      → IsSound (graph.objects (call_executor graph host s a g))
  unfolding call_executor
  IsSound-call_executor host s id a g quiet found h =
      elim (Bool-cases (str_eq a.capability_name "")) [
        | inl e ↦ rw e h
        | inr e ↦ elim (Bool-cases (is_approved (bind_status (graph.get_object g a.call_id)))) [
          | inl f ↦
              let ready = status_at-bind_status g a.call_id ∙ is_approved_inv _ f in
              let ran =
                Ran-execute_approved_call graph host s "call_executor" a.call_id (call_data_of a) g
                  quiet h.once ready in
              let backed =
                approvals_of-lookup id a (graph.objects g)
                  (sym (graph.get_object-objects g id) ∙ found) in
              rw (e, f) (IsSound-Ran h ran (omega (arith, backed, ran.approvals a.call_id)))
          | inr f ↦ rw (e, f) h
        ]
      ]

  -- A new object has its status in the graph.
  pub status_at-add_object :
      (g : G) (o : Obj)
      → status_at (graph.add_object g o).0 (graph.objects (graph.add_object g o).1) ≡ status_of o
  status_at-add_object g o = rw (graph.objects-add_object g o) (
      ground (
        arith,
        status_at-append (graph.add_object g o).0 (graph.add_object g o).0 o (graph.objects g)
            (graph.add_object_fresh g o),
        ==_refl (graph.add_object g o).0,
      ))

  -- A new approval counts for its call.
  approvals_of-add_object :
      (g : G) (a : Approval)
      → 1 ≤ approvals_of a.call_id (graph.objects (graph.add_object g (approval a)).1)
  unfolding approvals_of
  approvals_of-add_object g a = rw (graph.objects-add_object g (approval a)) (
      ground (
        arith,
        approvals_of-append a.call_id (graph.objects g)
            (((graph.add_object g (approval a)).0, approval a) ∷ []),
        ==_refl a.call_id,
      ))

  module _ (evaluator : Evaluator) (runtime : Option (Runtime evaluator)) (host : Host G)
      (wrap : Chars → List String → Chars) (s : Settings) (quiet : HostQuiet graph host) where
    -- The inline run of a proxy, whose approval comes after it.
    IsSound-run_inline :
        (spec : CapabilitySpec) (provider_id : Option ℕ) (v : Invocation) (d : PolicyDetail) (k : ℕ)
        (c : Call) (g : G)
        → status_at k (graph.objects g) ≡ some CallStatus.approved
        → IsSound (graph.objects g)
        → IsSound (
            graph.objects
              (run_inline graph evaluator runtime host wrap s spec provider_id v d k c g).1)
    unfolding run_inline
    IsSound-run_inline spec provider_id v d k c g ready h =
        let (e, g1) = execute_approved_call graph host s v.behavior_name k (proxy_data c) g in
        let entry = proxy_approval spec provider_id v d k host.now in
        let (id, g2) = graph.add_object g1 (approval entry) in
        let related = Quiet-try_relate graph g2 k id "approved_by" in
        let ran =
          Ran-execute_approved_call graph host s v.behavior_name k (proxy_data c) g quiet h.once
            ready in
        IsSound-Ran h
          (Ran-Quiet (Ran-Quiet ran (Quiet-add_object graph g1 (approval entry) (λ j. refl)))
            related)
          (omega (arith, approvals_of-add_object g1 entry, related.keeps_approvals k))

    -- A model's tool call keeps the invariants.
    IsSound-proxy :
        (spec : CapabilitySpec) (provider_id : Option ℕ) (v : Invocation) (g : G)
        → IsSound (graph.objects g)
        → IsSound (graph.objects (proxy graph evaluator runtime host wrap s spec provider_id v g).1)
    unfolding proxy
    IsSound-proxy spec provider_id v g h =
        let d = proxy_policy graph evaluator runtime host wrap s spec v g in
        let c = proxy_call spec provider_id v d host.now in
        let (k, g1) = graph.add_object g (call c) in
        let added = IsSound-Quiet h (Quiet-add_object graph g (call c) (λ j. refl)) in
        elim (Bool-cases (is_hold d.decision)) [
          | inl e ↦ rw e added
          | inr e ↦ rw e (
              IsSound-run_inline spec provider_id v d k c g1
                (status_at-add_object g (call c)
                  ∙ ap some (status-proxy_call spec provider_id v d host.now e))
                added)
        ]

    IsSound-Step :
        (identity : Identity) {g g' : G}
        → Step graph evaluator runtime host wrap s identity g g'
        → IsSound (graph.objects g)
        → IsSound (graph.objects g')
    IsSound-Step identity {g} (add o plain) h = IsSound-Quiet h (Quiet-add_object graph g o plain)
    IsSound-Step identity (outside g' q) h = IsSound-Quiet h q
    IsSound-Step identity {g} (recorder k c) h = IsSound-Quiet h (Quiet-call_recorder graph k c g)
    IsSound-Step identity {g} (enforcer view event k c now found) h =
        IsSound-policy_enforcer graph evaluator runtime s view event k c now g found h
    IsSound-Step identity {g} (approve roles k approver note now r g' e) h =
        IsSound-approve_capability graph identity roles k approver note now g r g' e h
    IsSound-Step identity {g} (deny roles k denier reason now r g' e) h =
        IsSound-deny_capability graph identity roles k denier reason now g r g' e h
    IsSound-Step identity {g} (executor id a found) h =
        IsSound-call_executor host s id a g quiet found h
    IsSound-Step identity {g} (sourcer k r) h = IsSound-Quiet h (Quiet-result_sourcer graph s k r g)
    IsSound-Step identity {g} (model spec provider_id v) h = IsSound-proxy spec provider_id v g h

    IsSound-Reach :
        (identity : Identity) {g g' : G}
        → IsSound (graph.objects g)
        → Reach graph evaluator runtime host wrap s identity g g'
        → IsSound (graph.objects g')
    IsSound-Reach identity h here = h
    IsSound-Reach identity h (next r st) = IsSound-Step identity st (IsSound-Reach identity h r)

    -- Where no handler changes a status or a result or takes an approval away, and other packs do not
    -- either, and the creation of a call is delivered while it is as created: from a graph that keeps
    -- the invariants, the empty one for instance, in whatever order clients' additions of anything but
    -- results, deliveries (repeated ones of an approval included), decisions and tool calls of models
    -- come, no call ever has two results, and every result is of a call that an approval in the graph
    -- names.
    pub executes_once :
        (identity : Identity) {g g' : G} (k : ℕ)
        → IsSound (graph.objects g)
        → Reach graph evaluator runtime host wrap s identity g g'
        → (results_of k (graph.objects g') ≤ 1)
          × (results_of k (graph.objects g') ≤ approvals_of k (graph.objects g'))
    executes_once identity k h r =
        let sound = IsSound-Reach identity h r in (results_of-le k sound.once, sound.covered k)
