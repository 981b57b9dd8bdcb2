-- ===== src/Gateway/Scopes/Promoted.antt =====
-- Which step makes a policy promoted.
use activegraph_packs.Base.{ℕ, String, Bool, false, Option, none, some, List, ◌≡◌, lookup}
use activegraph_packs.Graph.{Graph, EventLog}
use activegraph_packs.Gateway.Types.{ToolPolicy, Obj}
use activegraph_packs.Gateway.Policy.Scope.{is_promoted}
use activegraph_packs.Gateway.Approval.{Identity}
use activegraph_packs.Gateway.Scopes.{ScopeEvent}
use activegraph_packs.Gateway.Scopes.Operations.{promote_tool_policy}
use activegraph_packs.Gateway.Scopes.Outcomes.{Promotable}

-- The object is a promoted policy.
abbrev pub promoted_at : ℕ → List (ℕ × ToolPolicy) → Bool
promoted_at k m = elim (lookup k m) [ none ↦ false | some p ↦ is_promoted p.status ]

module _ {G : Type 0} (graph : Graph Obj G) (log : EventLog graph ScopeEvent) where
  -- A promotion took place, and all its guards held.
  pub record PromotedBy (identity : Identity) (g g' : G) : Type 0 where
    pub roles : Option (List String)
    pub id : String
    pub approver : String
    pub note : String
    pub guards : Promotable graph log identity roles id approver note g
    pub outcome : g' ≡ (promote_tool_policy graph log identity roles id approver note g).1
