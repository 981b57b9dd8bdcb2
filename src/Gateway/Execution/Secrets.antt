-- ===== src/Gateway/Execution/Secrets.antt =====
-- What an execution writes against the value of the credential that it resolves.
use activegraph_packs.Base.{
  ℕ, String, ◌&&◌, Option, none, some, get_text, is_some, ◌≡◌, refl, ap, ◌∙◌, Bool-cases,
  Option-cases, inl, inr,
}
use activegraph_packs.Graph.{Graph, try_patch}
use activegraph_packs.Gateway.Types.{Settings, Obj, CallStatus, with_status}
use activegraph_packs.Gateway.Execution.{
  Handler, Host, Context, CallData, Executed, Outcome, type_error, key_of, executed_of, run_handler,
  execute_capability, usage_record, resolve_and_audit, inject_credential, clean_output, scan_output,
  result_record, flag_record, add_flag, record_result, call_capability, execute_approved_call,
}

-- What the environment holds for a name, and where.
abbrev pub Environment : Type 0
Environment = String → Option String × String

-- The same names are found in the same places; the values may differ.
pub record SameNames (r r' : Environment) : Type 0 where
  pub found : (name : String) → is_some (r name).0 ≡ is_some (r' name).0
  pub label : (name : String) → (r name).1 ≡ (r' name).1

module _ {G : Type 0} where
  abbrev pub with_secrets : Host G → Environment → Host G
  with_secrets host r = record host { resolve_credential = r }

  -- The handlers' outcomes and writes do not depend on the value of the credential.
  abbrev pub Blind : Host G → Type 0
  Blind host =
      (key : String) (handler : Handler G)
      → get_text key host.registry ≡ some handler
      → (input : String) (k : ℕ) (c c' : Option String) (g : G) → is_some c ≡ is_some c'
      → handler input (some (record { call_id = k; credential = c })) g
        ≡ handler input (some (record { call_id = k; credential = c' })) g

  run_handler-same :
      (handler : Handler G) (input : String) (x x' : Context) (g : G)
      → handler input (some x) g ≡ handler input (some x') g
      → run_handler handler input x g ≡ run_handler handler input x' g
  unfolding run_handler
  run_handler-same handler input x x' g same =
      ap
        (λ (p : Outcome × G). elim p.0 [
          | type_error message ↦ handler input none p.1
          | other ↦ (other, p.1)
        ])
        same

  execute_capability-Blind :
      (host : Host G) (r r' : Environment) (provider capability input : String) (k : ℕ)
      (c c' : Option String) (g : G)
      → Blind host
      → is_some c ≡ is_some c'
      → execute_capability
          (with_secrets host r)
          provider
          capability
          input
          (record { call_id = k; credential = c })
          g
        ≡ execute_capability
            (with_secrets host r')
            provider
            capability
            input
            (record { call_id = k; credential = c' })
            g
  unfolding execute_capability
  execute_capability-Blind host r r' provider capability input k c c' g blind same =
      elim (Option-cases (get_text (key_of provider capability) host.registry)) [
        | inl e ↦ rw (e, execute_capability, same) refl
        | inr (handler, e) ↦
            let ran =
              run_handler-same handler input (record { call_id = k; credential = c })
                (record { call_id = k; credential = c' }) g
                (blind (key_of provider capability) handler e input k c c' g same) in
            rw (e, execute_capability, same)
              (ap (λ (p : Outcome × G). (executed_of host.now (is_some c') p.0, p.1)) ran)
      ]

module _ {G : Type 0} (graph : Graph Obj G) (host : Host G) (r r' : Environment) where
  resolve_and_audit-SameNames :
      (name executed_by : String) (k : ℕ) (d : CallData) (g : G)
      → SameNames r r'
      → (is_some (resolve_and_audit graph (with_secrets host r) name executed_by k d g).0
          ≡ is_some (resolve_and_audit graph (with_secrets host r') name executed_by k d g).0)
        × ((resolve_and_audit graph (with_secrets host r) name executed_by k d g).1
            ≡ (resolve_and_audit graph (with_secrets host r') name executed_by k d g).1)
  unfolding resolve_and_audit usage_record
  resolve_and_audit-SameNames name executed_by k d g same =
      (same.found name, rw (same.found name, same.label name) refl)

  inject_credential-SameNames :
      (s : Settings) (executed_by : String) (k : ℕ) (d : CallData) (g : G)
      → SameNames r r'
      → (is_some (inject_credential graph (with_secrets host r) s executed_by k d g).0
          ≡ is_some (inject_credential graph (with_secrets host r') s executed_by k d g).0)
        × ((inject_credential graph (with_secrets host r) s executed_by k d g).1
            ≡ (inject_credential graph (with_secrets host r') s executed_by k d g).1)
  unfolding inject_credential
  inject_credential-SameNames s executed_by k d g same = elim (Option-cases d.credential_ref_name) [
    | inl e ↦ rw (e, inject_credential) (refl, refl)
    | inr (name, e) ↦ elim (Bool-cases (s.inject_credentials && host.secrets_installed)) [
      | inl f ↦
          rw (e, inject_credential, f) (resolve_and_audit-SameNames name executed_by k d g same)
      | inr f ↦ rw (e, inject_credential, f) (refl, refl)
    ]
  ]

  record_result-with_secrets :
      (s : Settings) (k : ℕ) (d : CallData) (e : Executed) (g : G)
      → record_result graph (with_secrets host r) s k d e g
        ≡ record_result graph (with_secrets host r') s k d e g
  unfolding record_result clean_output scan_output result_record flag_record add_flag
  record_result-with_secrets s k d e g = refl

  call_capability-SameNames :
      (s : Settings) (executed_by : String) (k : ℕ) (d : CallData) (g : G)
      → SameNames r r'
      → Blind host
      → call_capability graph (with_secrets host r) s executed_by k d g
        ≡ call_capability graph (with_secrets host r') s executed_by k d g
  unfolding call_capability
  call_capability-SameNames s executed_by k d g same blind =
      let one = inject_credential graph (with_secrets host r) s executed_by k d g in
      let two = inject_credential graph (with_secrets host r') s executed_by k d g in
      let (found, graphs) = inject_credential-SameNames s executed_by k d g same in
      execute_capability-Blind host r r' d.provider_name d.capability_name d.input_data k one.0
        two.0 one.1 blind found
      ∙ ap
          (λ x.
            execute_capability (with_secrets host r') d.provider_name d.capability_name d.input_data
              (record { call_id = k; credential = two.0 }) x)
          graphs

  -- Where the handlers' outcomes and writes do not depend on the value of a credential, what an
  -- execution returns and what it writes do not either: two environments that hold the same names in
  -- the same places give the same record and the same graph.
  pub execute_approved_call-SameNames :
      (s : Settings) (executed_by : String) (k : ℕ) (d : CallData) (g : G)
      → SameNames r r'
      → Blind host
      → execute_approved_call graph (with_secrets host r) s executed_by k d g
        ≡ execute_approved_call graph (with_secrets host r') s executed_by k d g
  unfolding execute_approved_call
  execute_approved_call-SameNames s executed_by k d g same blind =
      let g1 = try_patch graph g k (with_status CallStatus.executing) in
      ap (λ (p : Executed × G). record_result graph (with_secrets host r) s k d p.0 p.1)
        (call_capability-SameNames s executed_by k d g1 same blind)
      ∙ record_result-with_secrets s k d
          (call_capability graph (with_secrets host r') s executed_by k d g1).0
          (call_capability graph (with_secrets host r') s executed_by k d g1).1
