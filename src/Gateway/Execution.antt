-- ===== src/Gateway/Execution.antt =====
-- The execution of an approved call: execute_approved_call of gateway.py, execute_capability_fn of
-- tools.py, sanitize_output of sanitizer.py, scan_for_injection of untrusted.py and
-- resolve_and_audit_fn of packs/secrets/tools.py. Output is a list of characters' codes. The regular
-- expressions are given by what they do: a substitution or a search. Registered handlers and the
-- environment's secrets are the host's, and parameters.
pub mod Secrets
use activegraph_packs.Base.{
  ℕ, String, Bool, true, false, not, ◌&&◌, Option, none, some, List, [], ◌∷◌, append_text, take,
  get_or, get_text, is_some, is_empty, codes_eq, if◌then◌else◌,
}
use activegraph_packs.Graph.{Graph, try_patch, try_relate}
use activegraph_packs.Gateway.Types.{
  CallStatus, Obj, result, injection_flag, secret_usage, with_status, Settings, SecretUsage,
  CapabilityResult, InjectionFlag,
}

abbrev pub Chars : Type 0
Chars = List ℕ

-- What a handler's call ends with: the JSON text of its value, a value that `json.dumps` refuses,
-- a TypeError, or another exception; the last three carry `type: message`.
pub data Outcome : Type 0 where
  returned : Chars → Outcome
  unserializable type_error raised : String → Outcome

-- What a handler may be given as `execution_context`: the credential, if one was resolved.
pub record Context : Type 0 where
  pub call_id : ℕ
  pub credential : Option String

module _ (G : Type 0) where
  -- A registered function: its keyword input, the context if it is passed, the graph.
  abbrev pub Handler : Type 0
  Handler = String → Option Context → G → Outcome × G

  -- The host's side of an execution.
  pub record Host : Type 0 where
    -- `_LOCAL_REGISTRY`
    pub registry : List (String × Handler)
    -- the JSON text of the mock answer
    pub mock : String → String → String → Chars
    -- `resolve_credential_with_source_fn`: the value, and the label of where it was found
    pub resolve_credential : String → Option String × String
    -- `from packs.secrets.tools import …` succeeds
    pub secrets_installed : Bool
    -- `datetime.now(timezone.utc).isoformat()`
    pub now : String
    -- the substitutions of `_PATTERNS` and the searches of `INJECTION_PATTERNS`
    pub redactions : List (Chars → Chars)
    pub injection_patterns : List (String × (Chars → Bool))

-- The dict that execute_capability_fn returns.
pub record Executed : Type 0 where
  pub output_data : Chars
  pub error : Option String
  pub success : Bool
  pub executed_at : String
  pub credential_injected : Bool

-- The fields of an approval, or of a call, that an execution reads.
pub record CallData : Type 0 where
  pub provider_name : String
  pub capability_name : String
  pub input_data : String
  pub credential_ref_name : Option String
  pub credential_ref_id : Option String
  pub frame_id : Option String

pub record Execution : Type 0 where
  pub executed : Executed
  pub output_data : Chars
  pub sanitized : Bool
  pub injection_flags : List String
  pub result_id : ℕ
  pub status : CallStatus

-- `f"{provider}.{capability}"`
abbrev pub key_of : String → String → String
key_of provider capability = append_text provider (append_text "." capability)

unfoldable pub redact_all : List (Chars → Chars) → Chars → Chars
redact_all [] text = text
redact_all (sub ∷ rest) text = redact_all rest (sub text)

unfoldable pub sanitize_output : List (Chars → Chars) → Chars → Chars × Bool
unfolding redact_all
sanitize_output redactions text =
    let cleaned = redact_all redactions text in (cleaned, not (codes_eq cleaned text))

unfoldable pub matched_labels : List (String × (Chars → Bool)) → Chars → List String
matched_labels [] text = []
matched_labels ((label, search) ∷ rest) text =
    let labels = matched_labels rest text in if search text then label ∷ labels else labels

unfoldable pub scan_for_injection : List (String × (Chars → Bool)) → Chars → List String
unfolding matched_labels
scan_for_injection patterns text = if is_empty text then [] else matched_labels patterns text

-- The answer of execute_capability_fn for a handler's outcome.
unfoldable pub executed_of : String → Bool → Outcome → Executed
executed_of now injected (returned out) = record {
  output_data = out;
  error = none;
  success = true;
  executed_at = now;
  credential_injected = injected;
}
executed_of now injected (unserializable message) = record {
  output_data = [];
  error = some message;
  success = false;
  executed_at = now;
  credential_injected = injected;
}
executed_of now injected (type_error message) = record {
  output_data = [];
  error = some message;
  success = false;
  executed_at = now;
  credential_injected = injected;
}
executed_of now injected (raised message) = record {
  output_data = [];
  error = some message;
  success = false;
  executed_at = now;
  credential_injected = injected;
}

module _ {G : Type 0} where
  -- A TypeError is taken for a handler that has no `execution_context` parameter: it is called
  -- again without one.
  unfoldable pub run_handler : Handler G → String → Context → G → Outcome × G
  run_handler handler input ctx g =
      let (first, g1) = handler input (some ctx) g in
      elim first [ type_error message ↦ handler input none g1 | other ↦ (other, g1) ]

  -- execute_capability_fn: the registered handler, or the mock answer.
  unfoldable pub execute_capability : Host G → String → String → String → Context → G → Executed × G
  execute_capability host provider capability input ctx g =
      elim (get_text (key_of provider capability) host.registry) [
        | none ↦ (
          executed_of host.now (is_some ctx.credential)
              (returned (host.mock provider capability input)),
          g,
        )
        | some handler ↦
            let (outcome, g1) = run_handler handler input ctx g in
            (executed_of host.now (is_some ctx.credential) outcome, g1)
      ]

module _ {G : Type 0} (graph : Graph Obj G) (host : Host G) where
  -- The audit object of a resolution.
  unfoldable pub usage_record : String → String → CallData → Option String × String → SecretUsage
  usage_record name executed_by d found = record {
    credential_ref_name = name;
    behavior_name = executed_by;
    resolved = is_some found.0;
    frame_id = d.frame_id;
    timestamp = host.now;
    source_label = found.1;
    credential_ref_id = get_or "" d.credential_ref_id;
  }

  -- resolve_and_audit_fn: the value, and the graph with the audit object related to the call.
  unfoldable pub resolve_and_audit : String → String → ℕ → CallData → G → Option String × G
  resolve_and_audit name executed_by k d g =
      let found = host.resolve_credential name in
      let (id, g1) = graph.add_object g (secret_usage (usage_record name executed_by d found)) in
      (found.0, try_relate graph g1 id k "credential_used_in")

  -- The credential of a call that names one, where the settings inject and the pack is there.
  unfoldable pub inject_credential : Settings → String → ℕ → CallData → G → Option String × G
  inject_credential s executed_by k d g = elim d.credential_ref_name [
    | none ↦ (none, g)
    | some name ↦
        if s.inject_credentials && host.secrets_installed
        then resolve_and_audit name executed_by k d g
        else (none, g)
  ]

  -- The output that is stored, and whether it was changed: cut, then redacted.
  unfoldable pub clean_output : Settings → Chars → Chars × Bool
  clean_output s text =
      let cut = take s.max_output_chars text in
      if s.sanitize_output && not (is_empty cut)
      then sanitize_output host.redactions cut
      else (cut, false)

  unfoldable pub scan_output : Settings → Chars → List String
  scan_output s text =
      if s.injection_scan && not (is_empty text)
      then scan_for_injection host.injection_patterns text
      else []

  abbrev pub final_status : Executed → CallStatus
  final_status e = if e.success then CallStatus.done else CallStatus.failed

  unfoldable pub result_record :
      Settings → ℕ → CallData → Executed → Chars × Bool → List String → CapabilityResult
  result_record s k d e cleaned flags = record {
    call_id = k;
    provider_name = d.provider_name;
    capability_name = d.capability_name;
    output_data = if s.record_output_data then cleaned.0 else [];
    error = e.error;
    success = e.success;
    executed_at = e.executed_at;
    sanitized = cleaned.1;
    untrusted = true;
    injection_flags = flags;
    source_id = none;
    frame_id = d.frame_id;
  }

  unfoldable pub flag_record : ℕ → ℕ → CallData → Chars → List String → InjectionFlag
  flag_record k result_id d text flags = record {
    call_id = k;
    result_id = result_id;
    provider_name = d.provider_name;
    capability_name = d.capability_name;
    patterns = flags;
    excerpt = take 300 text;
    flagged_at = host.now;
    frame_id = d.frame_id;
  }

  -- The flag object of a result that matched a pattern.
  unfoldable pub add_flag : ℕ → ℕ → CallData → Chars → List String → G → G
  add_flag k result_id d text [] g = g
  add_flag k result_id d text (label ∷ labels) g =
      let flag = flag_record k result_id d text (label ∷ labels) in
      let (id, g1) = graph.add_object g (injection_flag flag) in
      try_relate graph g1 id result_id "flags"

  -- What is written once the capability has answered.
  unfoldable pub record_result : Settings → ℕ → CallData → Executed → G → Execution × G
  record_result s k d e g =
      let cleaned = clean_output s e.output_data in
      let flags = scan_output s cleaned.0 in
      let res = result_record s k d e cleaned flags in
      let (id, g1) = graph.add_object g (result res) in
      let g2 = add_flag k id d cleaned.0 flags g1 in
      let g3 = try_patch graph g2 k (with_status (final_status e)) in
      (
        record {
          executed = e;
          output_data = res.output_data;
          sanitized = cleaned.1;
          injection_flags = flags;
          result_id = id;
          status = final_status e;
        },
        try_relate graph g3 k id "produces_result",
      )

  -- The call of the capability, from the credential on.
  unfoldable pub call_capability : Settings → String → ℕ → CallData → G → Executed × G
  call_capability s executed_by k d g =
      let (credential, g1) = inject_credential s executed_by k d g in
      execute_capability host d.provider_name d.capability_name d.input_data
        (record { call_id = k; credential = credential }) g1

  -- execute_approved_call
  unfoldable pub execute_approved_call : Settings → String → ℕ → CallData → G → Execution × G
  execute_approved_call s executed_by k d g =
      let g1 = try_patch graph g k (with_status CallStatus.executing) in
      let (e, g2) = call_capability s executed_by k d g1 in record_result s k d e g2
