-- ===== src/Gateway/Behaviors.antt =====
-- The reactive behaviors of packs/tool_gateway/behaviors.py. Each takes the id and the data of the
-- object whose creation it reacts to, and the graph at the time it runs; `view` is the objects that
-- `ctx.view` shows it. A body that returns early leaves the graph as it is.
use activegraph_packs.Base.{
  ℕ, String, Bool, true, false, Option, none, some, List, take, is_empty, str_eq, if◌then◌else◌,
}
use activegraph_packs.Graph.{Graph, try_patch, try_relate}
use activegraph_packs.Gateway.Types.{
  CallStatus, Call, Approval, CapabilityResult, Source, Obj, approval, source, PolicyDecision,
  Settings, CallMetadata, with_status, with_metadata, with_source, bind_status,
}
use activegraph_packs.Gateway.Policy.Authority.{Evaluator, Runtime}
use activegraph_packs.Gateway.Policy.{Decision, PolicyDetail, evaluate_call_policy, is_classified}
use activegraph_packs.Gateway.Execution.{Host, CallData, execute_approved_call, key_of}

abbrev pub is_proposed : CallStatus → Bool
is_proposed CallStatus.proposed = true
is_proposed _ = false

abbrev pub is_approved : Option CallStatus → Bool
is_approved (some CallStatus.approved) = true
is_approved _ = false

abbrev pub approves : Decision → Bool
approves Decision.approve = true
approves Decision.hold = false

-- The record of an automatic approval; the two dimensions are named only for a classified call.
abbrev pub auto_approval : String → PolicyDetail → ℕ → Call → String → Approval
auto_approval approver d k c now = record {
  call_id = k;
  provider_id = c.provider_id;
  provider_name = c.provider_name;
  capability_name = c.capability_name;
  action_class = c.action_class;
  input_data = c.input_data;
  credential_ref_name = c.credential_ref_name;
  credential_ref_id = c.credential_ref_id;
  frame_id = c.frame_id;
  policy_decision = PolicyDecision.auto_approved;
  approver = approver;
  approved_at = now;
  metadata = record {
    risk_class = c.risk_class;
    granted_by = if is_classified c.action_class then some d.granted_by else none;
    action_authority = if is_classified c.action_class then some d.action_authority else none;
    note = "";
    verification = "";
    approver_role = none;
  };
}

-- The metadata of a held call: why the action-class dimension declined it.
abbrev pub held_metadata : PolicyDetail → CallMetadata → CallMetadata
held_metadata d md = record md {
  action_authority = some d.action_authority;
  granted_by = d.granted_by;
}

abbrev pub call_data_of : Approval → CallData
call_data_of a = record {
  provider_name = a.provider_name;
  capability_name = a.capability_name;
  input_data = a.input_data;
  credential_ref_name = a.credential_ref_name;
  credential_ref_id = a.credential_ref_id;
  frame_id = a.frame_id;
}

abbrev pub source_record : ℕ → Settings → CapabilityResult → Source
source_record k s r = record {
  kind = "tool_result";
  content = take s.max_output_chars r.output_data;
  channel = "tool_gateway";
  sender_ref = key_of r.provider_name r.capability_name;
  frame_id = r.frame_id;
  call_id = r.call_id;
  provider = r.provider_name;
  capability = r.capability_name;
}

module _ {G : Type 0} (graph : Graph Obj G) where
  -- call_recorder, for the id of an object and the provider that its data names
  unfoldable pub call_recorder : ℕ → Call → G → G
  call_recorder k c g = elim c.provider_id [
    | none ↦ g
    | some provider ↦ try_relate graph g k provider "calls"
  ]

  -- The branch of policy_enforcer that approves.
  unfoldable pub enforce_approve : PolicyDetail → ℕ → Call → String → G → G
  enforce_approve d k c now g =
      let g1 = try_patch graph g k (with_status CallStatus.approved) in
      let (id, g2) = graph.add_object g1 (approval (auto_approval "policy_enforcer" d k c now)) in
      try_relate graph g2 k id "approved_by"

  -- The branch of policy_enforcer that holds.
  unfoldable pub enforce_hold : PolicyDetail → ℕ → Call → G → G
  enforce_hold d k c g =
      let g1 = try_patch graph g k (with_status CallStatus.policy_checking) in
      if is_classified c.action_class
      then try_patch graph g1 k (with_metadata (held_metadata d c.metadata))
      else g1

  module _ (evaluator : Evaluator) (runtime : Option (Runtime evaluator)) (s : Settings) where
    -- The policy of a proposed call: its own metadata may ask for explicit approval.
    unfoldable pub call_policy : List (ℕ × Obj) → Option ℕ → Call → PolicyDetail
    call_policy view event c = evaluate_call_policy evaluator runtime s (record {
      capability_key = key_of c.provider_name c.capability_name;
      risk_class = c.risk_class;
      action_class = c.action_class;
      reader = some view;
      caused_by = event;
      actor = "policy_enforcer";
      requires_explicit_approval = c.metadata.requires_explicit_approval;
    })

    -- policy_enforcer
    unfoldable pub policy_enforcer : List (ℕ × Obj) → Option ℕ → ℕ → Call → String → G → G
    policy_enforcer view event k c now g =
        let d = call_policy view event c in
        if is_proposed c.status
        then if approves d.decision then enforce_approve d k c now g else enforce_hold d k c g
        else g

  -- call_executor: only a call that sits at `approved` is executed.
  unfoldable pub call_executor : Host G → Settings → Approval → G → G
  call_executor host s a g =
      if str_eq a.capability_name ""
      then g
      else if is_approved (bind_status (graph.get_object g a.call_id))
      then (execute_approved_call graph host s "call_executor" a.call_id (call_data_of a) g).1
      else g

  -- result_sourcer
  unfoldable pub result_sourcer : Settings → ℕ → CapabilityResult → G → G
  result_sourcer s k r g =
      if s.create_source_from_result
      then if is_empty r.output_data
        then g
        else (let (id, g1) = graph.add_object g (source (source_record k s r)) in
            try_relate graph (try_patch graph g1 k (with_source id)) k id "sourced_as")
      else g
