-- ===== src/Gateway/Scopes/Steps.antt =====
-- The steps by which the tool policies of a graph change, and the standing scopes that the gateway
-- reads in the graphs that they reach.
use activegraph_packs.Base.{
  ℕ, ◌≤◌, ◌*◌, String, true, false, Option, none, some, List, [], ◌≡◌, refl, sym, subst, ◌∙◌, arith,
  str_eq, length,
}
use activegraph_packs.Graph.{Graph, EventLog}
use activegraph_packs.Gateway.Types.{
  ActionClass, PolicyStatus, DemotionReason, StandingScope, ToolPolicy, Obj,
}
use activegraph_packs.Gateway.Policy.Scope.{
  tool_policies, find_tool_policy, scope_key_of, promoted_standing_scope_for, scope_of_policy,
}
use activegraph_packs.Gateway.Approval.{Identity}
use activegraph_packs.Gateway.Scopes.Accuracy.{
  can_stand, accuracy_percent, matches, matches-accuracy_percent, min_predictions,
  min_accuracy_percent,
}
use activegraph_packs.Gateway.Scopes.{ScopeEvent, is_blank, Proposal}
use activegraph_packs.Gateway.Scopes.Operations.{
  ReliabilityChanged, propose_standing_scope, promote_tool_policy, demote_tool_policy,
  disable_tool_policy, tool_policy_reliability_guard,
}
use activegraph_packs.Gateway.Scopes.Policies.{AllSound, AllSound-find?}
use activegraph_packs.Gateway.Scopes.Sound.{
  policies, propose_standing_scope-AllSound, promote_tool_policy-AllSound,
  demote_tool_policy-AllSound, disable_tool_policy-AllSound, tool_policy_reliability_guard-AllSound,
}

-- What the policy behind a standing scope stores: enough predictions, nine in ten of which
-- matched, for a class that may stand, and the approver who promoted it.
pub record Earned (m : List (ℕ × Obj)) (key : String) (scope : StandingScope) : Type 0 where
  pub object_id : ℕ
  pub policy : ToolPolicy
  pub found : find_tool_policy key m ≡ some (object_id, policy)
  pub stands : can_stand policy.action_class ≡ true
  pub enough : min_predictions ≤ length policy.evidence.pairs
  pub accurate :
      min_accuracy_percent * length policy.evidence.pairs ≤ matches policy.evidence.pairs * 100
  pub named : is_blank policy.approved_by ≡ false
  pub counted : scope.prediction_count ≡ length policy.evidence.pairs
  pub measured : scope.accuracy_percent ≡ accuracy_percent policy.evidence.pairs

scope_of_policy_read :
    (key : String) (k : ℕ) (p : ToolPolicy) (scope : StandingScope)
    → scope_of_policy key (some (k, p)) ≡ some scope
    → (p.status ≡ PolicyStatus.promoted)
      × (scope.prediction_count ≡ p.evidence.prediction_count)
      × (scope.accuracy_percent ≡ p.evidence.accuracy_percent)
unfolding scope_of_policy
scope_of_policy_read key k p scope e = (ground arith, ground arith, ground arith)

scope_of_policy-Earned :
    (key : String) (m : List (ℕ × Obj)) (found : Option (ℕ × ToolPolicy)) (scope : StandingScope)
    → find_tool_policy key m ≡ found
    → AllSound (tool_policies m)
    → scope_of_policy key found ≡ some scope
    → Earned m key scope
unfolding scope_of_policy find_tool_policy
scope_of_policy-Earned key m none scope f h e = ground arith
scope_of_policy-Earned key m (some (k, p)) scope f h e =
    let s = AllSound-find? (λ x. str_eq x.1.scope_key key) (tool_policies m) k p h f in
    let (status, count, accuracy) = scope_of_policy_read key k p scope e in
    record {
      object_id = k;
      policy = p;
      found = f;
      stands = s.stands;
      enough = s.enough;
      accurate = matches-accuracy_percent p.evidence.pairs s.accurate;
      named = s.approved status;
      counted = count ∙ s.counted;
      measured = accuracy ∙ s.measured;
    }

module _ {G : Type 0} (graph : Graph Obj G) (log : EventLog graph ScopeEvent) where
  pub data ScopeStep (identity : Identity) (g : G) : G → Type 0 where
    propose : (q : Proposal) → ScopeStep identity g (propose_standing_scope graph log q g).1
    promote :
        (roles : Option (List String)) (id approver note : String)
        → ScopeStep identity g (promote_tool_policy graph log identity roles id approver note g).1
    demote :
        (reader : Option (List (ℕ × Obj))) (id : String) (misses : List String) (observed : ℕ)
        (actor : String) (reason : DemotionReason)
        → ScopeStep identity g
            (demote_tool_policy graph log reader id misses observed actor reason g).1
    disable :
        (id actor reason : String)
        → ScopeStep identity g (disable_tool_policy graph log id actor reason g).1
    guard :
        (view : List (ℕ × Obj)) (e : ReliabilityChanged)
        → ScopeStep identity g (tool_policy_reliability_guard graph log view e g).1
    -- any other change of the graph, which leaves the tool policies
    elsewhere : (g' : G) → policies graph log g' ≡ policies graph log g → ScopeStep identity g g'

  pub data ScopeReach (identity : Identity) (g : G) : G → Type 0 where
    start : ScopeReach identity g g
    then_step :
        {h k : G} → ScopeReach identity g h → ScopeStep identity h k → ScopeReach identity g k

  pub AllSound-ScopeStep :
      {identity : Identity} {g g' : G}
      → ScopeStep identity g g'
      → AllSound (policies graph log g)
      → AllSound (policies graph log g')
  AllSound-ScopeStep {identity} {g} (propose q) h = propose_standing_scope-AllSound graph log q g h
  AllSound-ScopeStep {identity} {g} (promote roles id approver note) h =
      promote_tool_policy-AllSound graph log identity roles id approver note g h
  AllSound-ScopeStep {identity} {g} (demote reader id misses observed actor reason) h =
      demote_tool_policy-AllSound graph log reader id misses observed actor reason g h
  AllSound-ScopeStep {identity} {g} (disable id actor reason) h =
      disable_tool_policy-AllSound graph log id actor reason g h
  AllSound-ScopeStep {identity} {g} (guard view e) h =
      tool_policy_reliability_guard-AllSound graph log view e g h
  AllSound-ScopeStep (elsewhere g' same) h = subst AllSound (sym same) h

  pub AllSound-ScopeReach :
      {identity : Identity} {g g' : G}
      → ScopeReach identity g g'
      → AllSound (policies graph log g)
      → AllSound (policies graph log g')
  AllSound-ScopeReach start h = h
  AllSound-ScopeReach (then_step r s) h = AllSound-ScopeStep s (AllSound-ScopeReach r h)

  -- From a graph without tool policies, in whatever order policies are proposed, promoted, demoted
  -- and disabled, where nothing else changes a policy: a standing scope that the gateway finds is of
  -- a class that may stand and names who approved it, and its policy stores at least eight prediction
  -- pairs, of which nine in ten matched. Pairs are counted as they are listed: the same one may stand
  -- several times.
  pub promoted_standing_scope_for-Earned :
      {identity : Identity} {g g' : G} (capability_key : String) (action : ActionClass)
      (scope : StandingScope)
      → policies graph log g ≡ []
      → ScopeReach identity g g'
      → promoted_standing_scope_for (graph.objects g') capability_key action ≡ some scope
      → Earned (graph.objects g') (scope_key_of action capability_key) scope
  unfolding promoted_standing_scope_for
  promoted_standing_scope_for-Earned {identity} {g} {g'} capability action scope none_yet r e =
      let key = scope_key_of action capability in
      scope_of_policy-Earned key (graph.objects g') (find_tool_policy key (graph.objects g')) scope
        refl (AllSound-ScopeReach r (subst AllSound (sym none_yet) tt)) e
