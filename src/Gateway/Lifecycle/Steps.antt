-- ===== src/Gateway/Lifecycle/Steps.antt =====
-- The steps by which the gateway's graph changes, and what every reachable graph satisfies. The
-- runtime delivers events in any order and may deliver an approval again; it delivers the creation
-- of a call once, while the call is still as it was created.
use activegraph_packs.Base.{ℕ, String, Option, some, List, ◌≡◌}
use activegraph_packs.Graph.{Graph}
use activegraph_packs.Gateway.Types.{
  Call, Obj, call, approval, Approval, CapabilityResult, Settings,
}
use activegraph_packs.Gateway.Policy.Authority.{Evaluator, Runtime}
use activegraph_packs.Gateway.Approval.{Identity, Reply, approve_capability, deny_capability}
use activegraph_packs.Gateway.Execution.{Host, Chars}
use activegraph_packs.Gateway.Behaviors.{
  call_recorder, policy_enforcer, call_executor, result_sourcer,
}
use activegraph_packs.Gateway.LlmTools.{CapabilitySpec, Invocation, proxy}
use activegraph_packs.Gateway.Lifecycle.Quiet.{Quiet, IsNoResult}

module _ {G : Type 0} (graph : Graph Obj G) (evaluator : Evaluator)
    (runtime : Option (Runtime evaluator)) (host : Host G) (wrap : Chars → List String → Chars)
    (s : Settings) (identity : Identity) where
  pub data Step (g : G) : G → Type 0 where
    -- a client adds any object that is no result
    add : (o : Obj) → IsNoResult o → Step g (graph.add_object g o).1
    -- another pack, a handler or the host changes what is not the gateway's
    outside : (g' : G) → Quiet (graph.objects g) (graph.objects g') → Step g g'
    recorder : (k : ℕ) (c : Call) → Step g (call_recorder graph k c g)
    enforcer :
        (view : List (ℕ × Obj)) (event : Option ℕ) (k : ℕ) (c : Call) (now : String)
        → graph.get_object g k ≡ some (call c)
        → Step g (policy_enforcer graph evaluator runtime s view event k c now g)
    approve :
        (roles : Option (List String)) (k : ℕ) (approver note now : String) (r : Reply) (g' : G)
        → approve_capability graph identity roles k approver note now g ≡ some (r, g')
        → Step g g'
    deny :
        (roles : Option (List String)) (k : ℕ) (denier reason now : String) (r : Reply) (g' : G)
        → deny_capability graph identity roles k denier reason now g ≡ some (r, g')
        → Step g g'
    executor :
        (id : ℕ) (a : Approval)
        → graph.get_object g id ≡ some (approval a)
        → Step g (call_executor graph host s a g)
    sourcer : (k : ℕ) (r : CapabilityResult) → Step g (result_sourcer graph s k r g)
    model :
        (spec : CapabilitySpec) (provider_id : Option ℕ) (v : Invocation)
        → Step g (proxy graph evaluator runtime host wrap s spec provider_id v g).1

  pub data Reach (g : G) : G → Type 0 where
    here : Reach g g
    next : {h k : G} → Reach g h → Step h k → Reach g k
