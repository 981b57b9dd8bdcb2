-- ===== src/Gateway/LlmTools.antt =====
-- The tools that a model is offered: llm_tools.py (as_llm_tool, its _proxy, llm_tools_for),
-- and NEVER_LLM_CALLABLE of untrusted.py. The envelope is an argument, which is wrap_untrusted of the
-- module Envelope in the code.
use activegraph_packs.Base.{
  ℕ, String, Bool, true, false, not, ◌&&◌, Option, none, some, List, [], ◌∷◌, get_text, any, str_eq,
  is_empty, ◌≡◌, arith, if◌then◌else◌,
}
use activegraph_packs.Graph.{Graph, try_relate}
use activegraph_packs.Gateway.Types.{
  RiskClass, ActionClass, CallStatus, Call, Approval, Obj, call, approval, Settings, PolicyDecision,
}
use activegraph_packs.Gateway.Policy.Authority.{Evaluator, Runtime}
use activegraph_packs.Gateway.Policy.{Decision, PolicyDetail, evaluate_call_policy, is_classified}
use activegraph_packs.Gateway.Execution.{
  Host, CallData, Chars, Execution, execute_approved_call, key_of,
}

-- A registered capability; whether it has an input schema is what the proxy asks of it.
pub record CapabilitySpec : Type 0 where
  pub provider_name : String
  pub capability_name : String
  pub has_input_schema : Bool
  pub risk_class : RiskClass
  pub credential_ref_name : Option String
  pub action_class : ActionClass

abbrev pub never_llm_callable : List String
never_llm_callable = "approve_capability" ∷ "deny_capability" ∷ []

pub data ToolError : Type 0 where
  never_offered no_input_schema not_registered : String → ToolError

-- A tool for the model, or the ValueError of as_llm_tool.
pub data Offer : Type 0 where
  offered : CapabilitySpec → Offer
  refused : ToolError → Offer

unfoldable pub as_llm_tool : CapabilitySpec → Offer
as_llm_tool spec =
    if any (str_eq spec.capability_name) never_llm_callable
    then refused (never_offered (key_of spec.provider_name spec.capability_name))
    else if spec.has_input_schema
    then offered spec
    else refused (no_input_schema (key_of spec.provider_name spec.capability_name))

-- The tools of an allow-list, or the first error.
pub data Offers : Type 0 where
  tools : List CapabilitySpec → Offers
  failed : ToolError → Offers

unfoldable pub add_offer : Offer → Offers → Offers
add_offer (refused e) rest = failed e
add_offer (offered spec) (tools l) = tools (spec ∷ l)
add_offer (offered spec) (failed e) = failed e

unfoldable pub llm_tools_for : List (String × CapabilitySpec) → List String → Offers
llm_tools_for registry [] = tools []
llm_tools_for registry (key ∷ keys) =
    let rest = llm_tools_for registry keys in
    elim (get_text key registry) [
      | none ↦ failed (not_registered key)
      | some spec ↦ add_offer (as_llm_tool spec) rest
    ]

-- What the model is answered.
pub data ProxyReply : Type 0 where
  held : ℕ → RiskClass → Option String → ProxyReply
  ran : CallStatus → ℕ → Chars → Option String → ProxyReply

-- The invocation: the input, the behavior in whose loop the model runs, the frame.
pub record Invocation : Type 0 where
  pub input_data : String
  pub behavior_name : String
  pub frame_id : Option String

abbrev pub is_hold : Decision → Bool
is_hold Decision.hold = true
is_hold Decision.approve = false

unfoldable pub proxy_call : CapabilitySpec → Option ℕ → Invocation → PolicyDetail → String → Call
proxy_call spec provider_id v d now = record {
  provider_id = provider_id;
  provider_name = spec.provider_name;
  capability_name = spec.capability_name;
  input_data = v.input_data;
  credential_ref_name = spec.credential_ref_name;
  credential_ref_id = none;
  risk_class = spec.risk_class;
  action_class = spec.action_class;
  status = if is_hold d.decision then CallStatus.policy_checking else CallStatus.approved;
  proposed_by = some v.behavior_name;
  frame_id = v.frame_id;
  proposed_at = some now;
  metadata = record {
    requires_explicit_approval = false;
    action_authority = if is_classified spec.action_class then some d.action_authority else none;
    granted_by = if is_classified spec.action_class then d.granted_by else "";
  };
}

-- A call that the policy does not hold is created at `approved`.
pub status-proxy_call :
    (spec : CapabilitySpec) (provider_id : Option ℕ) (v : Invocation) (d : PolicyDetail)
    (now : String)
    → is_hold d.decision ≡ false
    → (proxy_call spec provider_id v d now).status ≡ CallStatus.approved
unfolding proxy_call
status-proxy_call spec provider_id v d now h = ground arith

abbrev pub proxy_approval :
    CapabilitySpec → Option ℕ → Invocation → PolicyDetail → ℕ → String → Approval
proxy_approval spec provider_id v d k now = record {
  call_id = k;
  provider_id = provider_id;
  provider_name = spec.provider_name;
  capability_name = spec.capability_name;
  action_class = spec.action_class;
  input_data = v.input_data;
  credential_ref_name = spec.credential_ref_name;
  credential_ref_id = none;
  frame_id = v.frame_id;
  policy_decision = PolicyDecision.auto_approved;
  approver = "gateway_llm_proxy";
  approved_at = now;
  metadata = record {
    risk_class = spec.risk_class;
    granted_by = if is_classified spec.action_class then some d.granted_by else none;
    action_authority = if is_classified spec.action_class then some d.action_authority else none;
    note = "";
    verification = "";
    approver_role = none;
  };
}

abbrev pub proxy_data : Call → CallData
proxy_data c = record {
  provider_name = c.provider_name;
  capability_name = c.capability_name;
  input_data = c.input_data;
  credential_ref_name = c.credential_ref_name;
  credential_ref_id = c.credential_ref_id;
  frame_id = c.frame_id;
}

module _ {G : Type 0} (graph : Graph Obj G) (evaluator : Evaluator)
    (runtime : Option (Runtime evaluator)) (host : Host G) (wrap : Chars → List String → Chars)
    (s : Settings) where
  unfoldable pub proxy_policy : CapabilitySpec → Invocation → G → PolicyDetail
  proxy_policy spec v g = evaluate_call_policy evaluator runtime s (record {
    capability_key = key_of spec.provider_name spec.capability_name;
    risk_class = spec.risk_class;
    action_class = spec.action_class;
    reader = some (graph.objects g);
    caused_by = none;
    actor = if str_eq v.behavior_name "" then "gateway_llm_proxy" else v.behavior_name;
    requires_explicit_approval = false;
  })

  -- The output that the model sees.
  unfoldable pub enveloped : Execution → Chars
  enveloped e =
      if s.envelope_llm_output && not (is_empty e.output_data)
      then wrap e.output_data e.injection_flags
      else e.output_data

  -- The auto-approved branch: the call runs inline, and its approval is recorded after it.
  unfoldable pub run_inline :
      CapabilitySpec → Option ℕ → Invocation → PolicyDetail → ℕ → Call → G → ProxyReply × G
  run_inline spec provider_id v d k c g =
      let (e, g1) = execute_approved_call graph host s v.behavior_name k (proxy_data c) g in
      let (id, g2) =
        graph.add_object g1 (approval (proxy_approval spec provider_id v d k host.now)) in
      (ran e.status k (enveloped e) e.executed.error, try_relate graph g2 k id "approved_by")

  -- The held branch: the reason is told only for a classified capability.
  abbrev pub held_reply : CapabilitySpec → PolicyDetail → ℕ → ProxyReply
  held_reply spec d k =
      held k spec.risk_class
        (if is_classified spec.action_class then some d.action_authority.reason else none)

  -- _proxy
  unfoldable pub proxy : CapabilitySpec → Option ℕ → Invocation → G → ProxyReply × G
  proxy spec provider_id v g =
      let d = proxy_policy spec v g in
      let c = proxy_call spec provider_id v d host.now in
      let (k, g1) = graph.add_object g (call c) in
      if is_hold d.decision
      then (held_reply spec d k, g1)
      else run_inline spec provider_id v d k c g1
