-- ===== src/Gateway/Lifecycle/Progress.antt =====
-- What call_executor does with an approved call, and with one that is not.
use activegraph_packs.Base.{
  ℕ, String, false, some, ◌≡◌, ◌≢◌, sym, ap, ◌∙◌, arith, Bool-cases, inl, inr, ◌⊎◌, str_eq, eq_iff,
}
use activegraph_packs.Graph.{Graph}
use activegraph_packs.Gateway.Types.{CallStatus, Obj, Approval, Settings}
use activegraph_packs.Gateway.Views.{status_at, results_of}
use activegraph_packs.Gateway.Execution.{Host, CallData, execute_approved_call, record_result}
use activegraph_packs.Gateway.Behaviors.{call_executor, call_data_of, is_approved}
use activegraph_packs.Gateway.Lifecycle.Once.{IsOnce, spent}
use activegraph_packs.Gateway.Lifecycle.Runs.{HostQuiet, Ran-execute_approved_call}
use activegraph_packs.Gateway.Lifecycle.Sound.{status_at-bind_status}

module _ {G : Type 0} (graph : Graph Obj G) (host : Host G) (s : Settings) where
  status-execute_approved_call :
      (by : String) (k : ℕ) (d : CallData) (g : G)
      → ((execute_approved_call graph host s by k d g).0.status ≡ CallStatus.done)
        ⊎ ((execute_approved_call graph host s by k d g).0.status ≡ CallStatus.failed)
  unfolding execute_approved_call record_result
  status-execute_approved_call by k d g = ground arith

  -- At an approved call it executes.
  call_executor_fires :
      (a : Approval) (g : G)
      → status_at a.call_id (graph.objects g) ≡ some CallStatus.approved
      → a.capability_name ≢ ""
      → call_executor graph host s a g
        ≡ (execute_approved_call graph host s "call_executor" a.call_id (call_data_of a) g).1
  unfolding call_executor
  call_executor_fires a g ready named = elim (Bool-cases (str_eq a.capability_name "")) [
    | inl f ↦ absurd (named ((eq_iff a.capability_name "").0 f))
    | inr f ↦ rw (f, sym (status_at-bind_status graph g a.call_id) ∙ ready)
  ]

  is_approved_not : (st : CallStatus) → st ≢ CallStatus.approved → is_approved (some st) ≡ false
  is_approved_not st ne = ground arith

  -- A call that is not approved is left alone.
  call_executor_idle :
      (a : Approval) (g : G) (st : CallStatus)
      → status_at a.call_id (graph.objects g) ≡ some st
      → st ≢ CallStatus.approved
      → call_executor graph host s a g ≡ g
  unfolding call_executor
  call_executor_idle a g st e ne = elim (Bool-cases (str_eq a.capability_name "")) [
    | inl f ↦ rw f
    | inr f ↦ rw (f, sym (status_at-bind_status graph g a.call_id) ∙ e) (rw (is_approved_not st ne))
  ]

  -- For an approval that names a capability, of a call at `approved`, in a graph in which no call has
  -- more results than its status allows, where no handler changes a status or a result or takes an
  -- approval away: call_executor ends the call at `done` or `failed` with exactly one result, changes
  -- the results of no other call, and does nothing when the same approval is delivered again.
  pub call_executor_runs :
      (a : Approval) (g : G)
      → HostQuiet graph host
      → IsOnce (graph.objects g)
      → status_at a.call_id (graph.objects g) ≡ some CallStatus.approved
      → a.capability_name ≢ ""
      → (results_of a.call_id (graph.objects (call_executor graph host s a g)) ≡ 1)
        × ((status_at a.call_id (graph.objects (call_executor graph host s a g))
              ≡ some CallStatus.done)
            ⊎ (status_at a.call_id (graph.objects (call_executor graph host s a g))
                ≡ some CallStatus.failed))
        × ((j : ℕ)
            → j ≢ a.call_id
            → results_of j (graph.objects (call_executor graph host s a g))
              ≡ results_of j (graph.objects g))
        × (call_executor graph host s a (call_executor graph host s a g)
            ≡ call_executor graph host s a g)
  call_executor_runs a g quiet once ready named =
      let ran =
        Ran-execute_approved_call graph host s "call_executor" a.call_id (call_data_of a) g quiet
          once ready in
      let fires : call_executor graph host s a g
          ≡ (execute_approved_call graph host s "call_executor" a.call_id (call_data_of a) g).1 =
        call_executor_fires a g ready named in
      rw fires (
        omega (arith, ran.one_more, once.bound a.call_id, ap spent ready),
        elim (status-execute_approved_call "call_executor" a.call_id (call_data_of a) g) [
          | inl e ↦ inl (ran.status ∙ ap some e)
          | inr e ↦ inr (ran.status ∙ ap some e)
        ],
        ran.other_results,
        elim (status-execute_approved_call "call_executor" a.call_id (call_data_of a) g) [
          | inl e ↦
              call_executor_idle a _ CallStatus.done (ran.status ∙ ap some e) (λ p. ground arith)
          | inr e ↦
              call_executor_idle a _ CallStatus.failed (ran.status ∙ ap some e) (λ p. ground arith)
        ],
      )
