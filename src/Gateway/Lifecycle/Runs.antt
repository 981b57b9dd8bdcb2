-- ===== src/Gateway/Lifecycle/Runs.antt =====
-- The execution of one call against the invariants.
use activegraph_packs.Base.{
  ℕ, ◌≤◌, String, ◌&&◌, Option, none, some, List, [], ◌∷◌, ◌≡◌, refl, ◌∙◌, arith, get_text,
  Bool-cases, inl, inr, Option-cases,
}
use activegraph_packs.Graph.{Graph, try_patch}
use activegraph_packs.Graph.Laws.{objects-try_patch}
use activegraph_packs.Gateway.Types.{
  CallStatus, Obj, result, injection_flag, secret_usage, with_status, Settings,
}
use activegraph_packs.Gateway.Views.{
  status_at, results_of, results_of-with_status, status_at-with_status_self,
}
use activegraph_packs.Gateway.Execution.{
  Chars, Outcome, returned, type_error, Context, Handler, Host, Executed, CallData, key_of,
  run_handler, execute_capability, inject_credential, resolve_and_audit, usage_record,
  call_capability, record_result, add_flag, flag_record, result_record, final_status,
  execute_approved_call, clean_output, scan_output,
}
use activegraph_packs.Gateway.Lifecycle.Quiet.{
  Quiet, Quiet-refl, Quiet-trans, Quiet-try_relate, Quiet-add-relate,
}
use activegraph_packs.Gateway.Lifecycle.Once.{IsOnce, IsOnce-Quiet, IsOnce-with_status, spent}
use activegraph_packs.Gateway.Lifecycle.Ran.{
  Ran, Ran-result, Ran-Quiet, Ran-after-Quiet, Ran-with_status, Ran-after-with_status,
}

module _ {G : Type 0} (graph : Graph Obj G) where
  -- A handler that leaves the gateway's own records alone.
  abbrev pub HandlerQuiet : Handler G → Type 0
  HandlerQuiet handler =
      (input : String) (ctx : Option Context) (g : G)
      → Quiet (graph.objects g) (graph.objects (handler input ctx g).1)

  abbrev pub HostQuiet : Host G → Type 0
  HostQuiet host =
      (key : String) (handler : Handler G)
      → get_text key host.registry ≡ some handler
      → HandlerQuiet handler

  Quiet-run_handler :
      (handler : Handler G) (input : String) (ctx : Context) (g : G)
      → HandlerQuiet handler
      → Quiet (graph.objects g) (graph.objects (run_handler handler input ctx g).1)
  unfolding run_handler
  Quiet-run_handler handler input ctx g q = go (handler input (some ctx) g).0
    where
      go :
          (first : Outcome)
          → Quiet (graph.objects g) (
              graph.objects
                (elim first as (λ _. Outcome × G) [
                  | type_error message ↦ handler input none (handler input (some ctx) g).1
                  | other ↦ (other, (handler input (some ctx) g).1)
                ]).1)
      go (type_error message) =
          Quiet-trans (q input (some ctx) g) (q input none (handler input (some ctx) g).1)
      go (returned out) = q input (some ctx) g
      go _ = q input (some ctx) g

  Quiet-execute_capability :
      (host : Host G) (provider capability input : String) (ctx : Context) (g : G)
      → HostQuiet host
      → Quiet
          (graph.objects g)
          (graph.objects (execute_capability host provider capability input ctx g).1)
  unfolding execute_capability
  Quiet-execute_capability host provider capability input ctx g quiet =
      elim (Option-cases (get_text (key_of provider capability) host.registry)) [
        | inl e ↦ rw (e, execute_capability) (Quiet-refl (graph.objects g))
        | inr (handler, e) ↦
            rw (e, execute_capability)
              (Quiet-run_handler handler input ctx g (quiet (key_of provider capability) handler e))
      ]

  Quiet-inject_credential :
      (host : Host G) (s : Settings) (by : String) (k : ℕ) (d : CallData) (g : G)
      → Quiet (graph.objects g) (graph.objects (inject_credential graph host s by k d g).1)
  unfolding inject_credential resolve_and_audit usage_record
  Quiet-inject_credential host s by k d g = elim (Option-cases d.credential_ref_name) [
    | inl e ↦ rw e (Quiet-refl (graph.objects g))
    | inr (name, e) ↦ elim (Bool-cases (s.inject_credentials && host.secrets_installed)) [
      | inl f ↦
          rw (e, f)
            (Quiet-add-relate graph g
              (secret_usage (usage_record graph host name by d (host.resolve_credential name)))
              (graph.add_object g
                (secret_usage (usage_record graph host name by d (host.resolve_credential name)))).0
              k "credential_used_in" (λ j. refl))
      | inr f ↦ rw (e, f) (Quiet-refl (graph.objects g))
    ]
  ]

  pub Quiet-call_capability :
      (host : Host G) (s : Settings) (by : String) (k : ℕ) (d : CallData) (g : G)
      → HostQuiet host
      → Quiet (graph.objects g) (graph.objects (call_capability graph host s by k d g).1)
  unfolding call_capability
  Quiet-call_capability host s by k d g quiet =
      let (credential, g1) = inject_credential graph host s by k d g in
      Quiet-trans (Quiet-inject_credential host s by k d g) (
        Quiet-execute_capability host d.provider_name d.capability_name d.input_data
          (record { call_id = k; credential = credential }) g1 quiet)

  Quiet-add_flag :
      (host : Host G) (k id : ℕ) (d : CallData) (text : Chars) (flags : List String) (g : G)
      → Quiet (graph.objects g) (graph.objects (add_flag graph host k id d text flags g))
  unfolding add_flag
  Quiet-add_flag host k id d text [] g = Quiet-refl (graph.objects g)
  Quiet-add_flag host k id d text (label ∷ labels) g =
      Quiet-add-relate graph g
        (injection_flag (flag_record graph host k id d text (label ∷ labels)))
        (graph.add_object g
          (injection_flag (flag_record graph host k id d text (label ∷ labels)))).0
        id "flags" (λ j. refl)

  final_spent :
      (host : Host G) (e : Executed)
      → spent (some CallStatus.executing) ≤ spent (some (final_status graph host e))
  final_spent host e = ground arith

  -- The writes after the capability has answered, from a call that is executing.
  Ran-record_result :
      (host : Host G) (s : Settings) (k : ℕ) (d : CallData) (e : Executed) (g : G)
      → IsOnce (graph.objects g)
      → status_at k (graph.objects g) ≡ some CallStatus.executing
      → results_of k (graph.objects g) ≡ 0
      → Ran k
          (final_status graph host e)
          (graph.objects g)
          (graph.objects (record_result graph host s k d e g).1)
  unfolding record_result result_record
  Ran-record_result host s k d e g once status empty =
      let cleaned = clean_output graph host s e.output_data in
      let flags = scan_output graph host s cleaned.0 in
      let res = result_record graph host s k d e cleaned flags in
      let (id, g1) = graph.add_object g (result res) in
      let g2 = add_flag graph host k id d cleaned.0 flags g1 in
      Ran-Quiet
        (rw (objects-try_patch graph g2 k (with_status (final_status graph host e))) (
          Ran-with_status CallStatus.executing (final_status graph host e)
            (Ran-Quiet
              (rw (graph.objects-add_object g (result res))
                (Ran-result id res once (graph.add_object_fresh g (result res)) status empty))
              (Quiet-add_flag host k id d cleaned.0 flags g1))
            (final_spent host e)))
        (Quiet-try_relate graph _ k id "produces_result")

  -- An approved call with no result runs once: one result, the status that the outcome gives, and
  -- nothing of any other call changes.
  pub Ran-execute_approved_call :
      (host : Host G) (s : Settings) (by : String) (k : ℕ) (d : CallData) (g : G)
      → HostQuiet host
      → IsOnce (graph.objects g)
      → status_at k (graph.objects g) ≡ some CallStatus.approved
      → Ran k
          (execute_approved_call graph host s by k d g).0.status
          (graph.objects g)
          (graph.objects (execute_approved_call graph host s by k d g).1)
  unfolding execute_approved_call record_result
  Ran-execute_approved_call host s by k d g quiet once status =
      let g1 = try_patch graph g k (with_status CallStatus.executing) in
      let (e, g2) = call_capability graph host s by k d g1 in
      let patched = objects-try_patch graph g k (with_status CallStatus.executing) in
      let started : IsOnce (graph.objects g1) =
        rw patched (IsOnce-with_status k CallStatus.executing once (ground (arith, status))) in
      let executing : status_at k (graph.objects g1) ≡ some CallStatus.executing =
        rw patched
          (status_at-with_status_self k CallStatus.executing CallStatus.approved _ status) in
      let empty : results_of k (graph.objects g1) ≡ 0 = rw patched (
        ground (
          arith,
          once.bound k,
          status,
          results_of-with_status k k CallStatus.executing (graph.objects g),
        )) in
      let q = Quiet-call_capability host s by k d g1 quiet in
      Ran-after-with_status CallStatus.executing (final_status graph host e) (
        rw patched at (
          Ran-after-Quiet q (
            Ran-record_result host s k d e g2 (IsOnce-Quiet started q)
              (q.keeps_status k CallStatus.executing executing) (q.keeps_results k ∙ empty))))
