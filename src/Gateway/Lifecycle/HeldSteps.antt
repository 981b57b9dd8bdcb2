-- ===== src/Gateway/Lifecycle/HeldSteps.antt =====
-- A held call along the steps of the gateway, the model's tool calls included.
use activegraph_packs.Graph.{Graph}
use activegraph_packs.Gateway.Types.{Approval}
use activegraph_packs.Gateway.Lifecycle.Held.{Held}
