-- ===== src/Gateway/Scopes/Ended.antt =====
-- The end of a standing scope: demotion and disabling, and what the gateway reads and decides then.
use activegraph_packs.Base.{
  ℕ, String, true, false, Option, none, some, List, ◌≡◌, ◌≢◌, refl, sym, ap, arith, ◌∙◌, is_empty,
  get_or,
}
use activegraph_packs.Graph.{Graph, EventLog}
use activegraph_packs.Gateway.Types.{
  ActionClass, PolicyStatus, DemotionReason, ToolPolicy, Obj, Settings,
}
use activegraph_packs.Gateway.Policy.Authority.{Evaluator, Runtime}
use activegraph_packs.Gateway.Policy.Scope.{
  find_tool_policy, scope_key_of, is_promoted, promoted_standing_scope_for, scope_of_policy,
}
use activegraph_packs.Gateway.Policy.{hold, CallQuery, evaluate_call_policy, legacy_grants}
use activegraph_packs.Gateway.Policy.Grants.{evaluate_call_policy_no_scope, scope_for-none}
use activegraph_packs.Gateway.Scopes.{
  ScopeEvent, returned, find_policy_id, demoted_for, disabled_for,
}
use activegraph_packs.Gateway.Scopes.Operations.{
  or_reason, demotion_event, disabling_event, patch_policy, demote_now, demote_found,
  demote_tool_policy, disable_found, disable_tool_policy,
}
use activegraph_packs.Gateway.Scopes.Policies.{AllSound}
use activegraph_packs.Gateway.Scopes.Patched.{patch_policy-found, found-IsSound}
use activegraph_packs.Gateway.Scopes.Sound.{policies}

not_promoted-scope :
    (key : String) (k : ℕ) (p : ToolPolicy)
    → is_promoted p.status ≡ false
    → scope_of_policy key (some (k, p)) ≡ none
unfolding scope_of_policy
not_promoted-scope key k p h = rw (scope_of_policy, h) refl

not_promoted-lookup :
    (m : List (ℕ × Obj)) (action : ActionClass) (capability_key key : String) (k : ℕ)
    (p : ToolPolicy)
    → key ≡ scope_key_of action capability_key
    → find_tool_policy key m ≡ some (k, p)
    → is_promoted p.status ≡ false
    → promoted_standing_scope_for m capability_key action ≡ none
unfolding promoted_standing_scope_for
not_promoted-lookup m action capability key k p same found h =
    let full = scope_key_of action capability in
    let there : find_tool_policy full m ≡ some (k, p) =
      ap (λ x. find_tool_policy x m) (sym same) ∙ found in
    ap (scope_of_policy full) there ∙ not_promoted-scope full k p h

module _ {G : Type 0} (graph : Graph Obj G) (log : EventLog graph ScopeEvent) where
  -- The patch takes the promotion away, so the scope is gone.
  patch_policy-ends :
      (id : String) (k : ℕ) (p : ToolPolicy) (f : ToolPolicy → ToolPolicy) (g : G) (e : ScopeEvent)
      → AllSound (policies graph log g)
      → find_policy_id id (graph.objects g) ≡ some (k, p)
      → ((q : ToolPolicy) → (f q).scope_key ≡ q.scope_key)
      → ((q : ToolPolicy) → is_promoted (f q).status ≡ false)
      → ((patch_policy graph log k f (log.emit g e).1).0 ≡ returned true (some k))
        × (promoted_standing_scope_for
              (graph.objects (patch_policy graph log k f (log.emit g e).1).1)
              p.capability_key
              p.action_class
            ≡ none)
  patch_policy-ends id k p f g e sound found same ends =
      let (answer, there) = patch_policy-found graph log id k p f g e sound found same in
      (
        answer,
        not_promoted-lookup (graph.objects (patch_policy graph log k f (log.emit g e).1).1)
            p.action_class p.capability_key p.scope_key k (f p)
            (found-IsSound graph log id k p g sound found).key there (ends p),
      )

  demote_tool_policy-eq :
      (reader : Option (List (ℕ × Obj))) (id : String) (misses : List String) (observed : ℕ)
      (actor : String) (reason : DemotionReason) (g : G) (k : ℕ) (p : ToolPolicy)
      → find_policy_id id (get_or (graph.objects g) reader) ≡ some (k, p)
      → is_promoted p.status ≡ true
      → is_empty misses ≡ false
      → demote_tool_policy graph log reader id misses observed actor reason g
        ≡ demote_now graph log id misses observed actor reason k p g
  unfolding demote_tool_policy demote_found
  demote_tool_policy-eq reader id misses observed actor reason g k p found status named =
      rw (found, demote_tool_policy, status, named) refl

  -- In a sound graph, a demotion of a promoted policy that names its misses succeeds, and the next
  -- lookup for its capability and class finds no promoted scope.
  pub demote_tool_policy_ends :
      (id : String) (misses : List String) (observed : ℕ) (actor : String) (reason : DemotionReason)
      (g : G) (k : ℕ) (p : ToolPolicy)
      → AllSound (policies graph log g)
      → find_policy_id id (graph.objects g) ≡ some (k, p)
      → p.status ≡ PolicyStatus.promoted
      → is_empty misses ≡ false
      → ((demote_tool_policy graph log none id misses observed actor reason g).0
          ≡ returned true (some k))
        × (promoted_standing_scope_for
              (graph.objects
                (demote_tool_policy graph log none id misses observed actor reason g).1)
              p.capability_key
              p.action_class
            ≡ none)
  unfolding demote_now
  demote_tool_policy_ends id misses observed actor reason g k p sound found status named =
      rw
        (demote_tool_policy-eq none id misses observed actor reason g k p found
          (ap is_promoted status) named)
        (patch_policy-ends id k p
          (demoted_for (or_reason reason (DemotionReason.accuracy_degraded observed)) misses) g
          (demotion_event id misses observed actor reason p) sound found (λ q. refl) (λ q. refl))

  disable_found-eq :
      (id actor reason : String) (k : ℕ) (p : ToolPolicy) (st : PolicyStatus) (g : G)
      → st ≢ PolicyStatus.disabled
      → disable_found graph log id actor reason k p st g
        ≡ patch_policy graph log k
            (disabled_for reason)
            (log.emit g (disabling_event id actor reason p)).1
  unfolding disable_found
  disable_found-eq id actor reason k p PolicyStatus.candidate g h = refl
  disable_found-eq id actor reason k p PolicyStatus.promoted g h = refl
  disable_found-eq id actor reason k p PolicyStatus.demoted g h = refl
  disable_found-eq id actor reason k p PolicyStatus.disabled g h = ground arith

  disable_tool_policy-eq :
      (id actor reason : String) (g : G) (k : ℕ) (p : ToolPolicy)
      → find_policy_id id (graph.objects g) ≡ some (k, p)
      → p.status ≢ PolicyStatus.disabled
      → disable_tool_policy graph log id actor reason g
        ≡ patch_policy graph log k
            (disabled_for reason)
            (log.emit g (disabling_event id actor reason p)).1
  unfolding disable_tool_policy
  disable_tool_policy-eq id actor reason g k p found status =
      rw (found, disable_tool_policy) (disable_found-eq id actor reason k p p.status g status)

  -- In a sound graph, disabling a policy that is not disabled succeeds, whatever else its status is,
  -- and the next lookup for its capability and class finds no promoted scope.
  pub disable_tool_policy_ends :
      (id actor reason : String) (g : G) (k : ℕ) (p : ToolPolicy)
      → AllSound (policies graph log g)
      → find_policy_id id (graph.objects g) ≡ some (k, p)
      → p.status ≢ PolicyStatus.disabled
      → ((disable_tool_policy graph log id actor reason g).0 ≡ returned true (some k))
        × (promoted_standing_scope_for
              (graph.objects (disable_tool_policy graph log id actor reason g).1)
              p.capability_key
              p.action_class
            ≡ none)
  disable_tool_policy_ends id actor reason g k p sound found status =
      rw (disable_tool_policy-eq id actor reason g k p found status) (
        patch_policy-ends id k p (disabled_for reason) g (disabling_event id actor reason p) sound
          found (λ q. refl) (λ q. refl))

  -- In a sound graph, a promoted R2 policy is demoted. Where the risk class alone does not grant it,
  -- the gateway then holds the next R2 call of the policy's capability.
  pub demote_tool_policy_holds :
      (evaluator : Evaluator) (runtime : Option (Runtime evaluator)) (s : Settings) (q : CallQuery)
      (id : String) (misses : List String) (observed : ℕ) (actor : String) (reason : DemotionReason)
      (g : G) (k : ℕ) (p : ToolPolicy)
      → AllSound (policies graph log g)
      → find_policy_id id (graph.objects g) ≡ some (k, p)
      → p.status ≡ PolicyStatus.promoted
      → is_empty misses ≡ false
      → p.action_class ≡ ActionClass.r2
      → q.action_class ≡ ActionClass.r2
      → q.capability_key ≡ p.capability_key
      → q.reader
        ≡ some
            (graph.objects (demote_tool_policy graph log none id misses observed actor reason g).1)
      → legacy_grants q.risk_class s ≡ false
      → (evaluate_call_policy evaluator runtime s q).decision ≡ hold
  demote_tool_policy_holds evaluator runtime s q id misses observed actor reason g k p sound found
        status named policy_class call_class key reader legacy =
      let after =
        graph.objects (demote_tool_policy graph log none id misses observed actor reason g).1 in
      let gone =
        (demote_tool_policy_ends id misses observed actor reason g k p sound found status
          named).1 in
      let gone_r2 : promoted_standing_scope_for after p.capability_key ActionClass.r2 ≡ none =
        rw policy_class at gone in
      let no_scope =
        scope_for-none q after reader
          (ap (λ c. promoted_standing_scope_for after c ActionClass.r2) key ∙ gone_r2) in
      evaluate_call_policy_no_scope evaluator runtime s q call_class legacy no_scope
