-- ===== src/Gateway/Examples.antt =====
-- Concrete inputs of the gateway: the theorems at inputs that meet their hypotheses, and tests.
mod Calls
mod Policies
mod Scopes
mod Registrations
mod Secrets
mod Handlers
use activegraph_packs.Base.{
  ℕ, ◌≤◌, String, Bool, true, false, Option, none, some, List, [], ◌∷◌, ◌≡◌, ◌≢◌, refl, arith,
  get_text, str_eq, Bool-cases, inl, inr, subst, Exists, ◌⊎◌, eq_iff,
}
use activegraph_packs.Graph.{Graph}
use activegraph_packs.Graph.Listed.{Listed, listed}
use activegraph_packs.Gateway.Types.{
  RiskClass, ActionClass, Ceiling, CallStatus, PolicyStatus, Call, CallMetadata, Obj, call,
  tool_policy, principal, Settings, ToolPolicy, Evidence, Approval, approval, auto_approve,
}
use activegraph_packs.Gateway.Policy.Authority.{
  Evaluator, Runtime, Audited, documented_decision, within, within_option,
}
use activegraph_packs.Gateway.Policy.{Decision, CallQuery, evaluate_call_policy, legacy_grants}
use activegraph_packs.Gateway.Execution.{Host, Chars, Handler, Outcome, returned, Context}
use activegraph_packs.Gateway.Lifecycle.Quiet.{Quiet-refl}
use activegraph_packs.Gateway.Lifecycle.Runs.{HandlerQuiet, HostQuiet}

-- An evaluator that is the documented rule.
abbrev pub rule : Evaluator
rule = record {
  evaluate = λ capability action ceiling local. record {
    action_class = action;
    decision = documented_decision action ceiling local;
    matched_policy = "";
    reason = "";
    ceiling = ceiling;
    capability_ceiling = local;
    effective_ceiling = ceiling;
  };
  decision-evaluate = λ capability action ceiling local. refl;
}

-- A runtime under the highest ceiling.
abbrev pub raised_runtime : Runtime rule
raised_runtime = record {
  authority_ceiling = Ceiling.r2;
  evaluate_capability_authority = λ q. record {
    verdict = rule.evaluate q.capability q.action_class Ceiling.r2 q.capability_ceiling;
    event_id = 7;
  };
  audited_verdict = λ q. refl;
}

abbrev pub objects : Graph Obj (Listed Obj)
objects = listed Obj

abbrev pub settings : Settings
settings = record {
  auto_approve_risk_classes = RiskClass.low ∷ [];
  capability_action_ceilings = [];
  record_output_data = true;
  max_output_chars = 10000;
  create_source_from_result = true;
  sanitize_output = true;
  approver_roles = "owner" ∷ "admin" ∷ [];
  injection_scan = true;
  envelope_llm_output = true;
  inject_credentials = true;
}

abbrev pub answer : Handler (Listed Obj)
answer input ctx g = (returned (111 ∷ 107 ∷ []), g)

abbrev pub host : Host (Listed Obj)
host = record {
  registry = ("crm.lookup", answer) ∷ [];
  mock = λ provider capability input. [];
  resolve_credential = λ name. (none, "missing");
  secrets_installed = true;
  now = "2026-01-01T00:00:00+00:00";
  redactions = [];
  injection_patterns = [];
}

abbrev QuietIfSome : Option (Handler (Listed Obj)) → Type 0
QuietIfSome none = Unit
QuietIfSome (some handler) = HandlerQuiet objects handler

registered : (key : String) → QuietIfSome (get_text key host.registry)
registered key = elim (Bool-cases (str_eq "crm.lookup" key)) [
  | inl e ↦ rw e (λ input ctx g. Quiet-refl g)
  | inr e ↦ rw e tt
]

pub host_quiet : HostQuiet objects host
host_quiet key handler e = subst QuietIfSome e (registered key)

abbrev pub plain_metadata : CallMetadata
plain_metadata = record {
  requires_explicit_approval = false;
  action_authority = none;
  granted_by = "";
}

abbrev pub call_of : RiskClass → ActionClass → CallStatus → Call
call_of risk action st = record {
  provider_id = none;
  provider_name = "crm";
  capability_name = "lookup";
  input_data = "{}";
  credential_ref_name = none;
  credential_ref_id = none;
  risk_class = risk;
  action_class = action;
  status = st;
  proposed_by = none;
  frame_id = none;
  proposed_at = none;
  metadata = plain_metadata;
}

-- A held call and a registered owner.
abbrev pub held_graph : Listed Obj
held_graph =
    (1, call (call_of RiskClass.high ActionClass.r3 CallStatus.policy_checking))
    ∷ (2, principal (record { ref = some "yohei"; role = some "owner" }))
    ∷ []
