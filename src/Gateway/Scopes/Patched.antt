-- ===== src/Gateway/Scopes/Patched.antt =====
-- What a patch after an event does to the policy that an id finds.
use activegraph_packs.Base.{
  ℕ, String, Bool, true, Option, some, List, [], ◌∷◌, ◌≡◌, refl, sym, ap, subst, arith, ◌∙◌, inl,
  inr, find?, lookup, is_some, str_eq, eq_iff, ◌==◌, Bool-cases, Option-cases,
}
use activegraph_packs.Graph.{Graph, EventLog}
use activegraph_packs.Gateway.Types.{ToolPolicy, Obj, tool_policy}
use activegraph_packs.Gateway.Policy.Scope.{tool_policies, find_tool_policy}
use activegraph_packs.Gateway.Scopes.{
  ScopeEvent, returned, with_policy, find_policy_id, policy_id_of,
}
use activegraph_packs.Gateway.Scopes.Operations.{patch_policy}
use activegraph_packs.Gateway.Scopes.Policies.{
  IsSound, AllSound, AllSound-find?, tool_policies-update, find?-update,
  find_policy_id-policy_id_of,
}
use activegraph_packs.Gateway.Scopes.Sound.{policies}

find?-passes :
    (test : ℕ × ToolPolicy → Bool) (m : List (ℕ × ToolPolicy)) (x : ℕ × ToolPolicy)
    → find? test m ≡ some x
    → test x ≡ true
find?-passes test [] x h = ground arith
find?-passes test (e ∷ m) x h = elim (Bool-cases (test e)) [
  | inl t ↦ ground arith
  | inr t ↦ find?-passes test m x (rw t at h)
]

-- A policy that is found is an object.
is_some-lookup :
    (test : ℕ × ToolPolicy → Bool) (m : List (ℕ × Obj)) (k : ℕ) (p : ToolPolicy)
    → find? test (tool_policies m) ≡ some (k, p)
    → is_some (lookup k m) ≡ true
unfolding tool_policies
is_some-lookup test [] k p h = ground arith
is_some-lookup test ((j, tool_policy q) ∷ m) k p h = elim (Bool-cases (j == k)) [
  | inl e ↦ rw e refl
  | inr e ↦ elim (Bool-cases (test (j, q))) [
    | inl t ↦ ground arith
    | inr t ↦ rw e (is_some-lookup test m k p (rw t at h))
  ]
]
is_some-lookup test ((j, o) ∷ m) k p h = elim (Bool-cases (j == k)) [
  | inl e ↦ rw e refl
  | inr e ↦ rw e (is_some-lookup test m k p h)
]

-- In a sound graph, a policy is the one of its scope.
found_by_scope :
    (id : String) (m : List (ℕ × Obj)) (k : ℕ) (p : ToolPolicy)
    → AllSound (tool_policies m)
    → find_policy_id id m ≡ some (k, p)
    → find_tool_policy p.scope_key m ≡ some (k, p)
unfolding find_policy_id find_tool_policy
found_by_scope id m k p sound h =
    let s = AllSound-find? (λ e. str_eq e.1.policy_id id) (tool_policies m) k p sound h in
    let same : p.policy_id ≡ id =
      (eq_iff p.policy_id id).0
        (find?-passes (λ e. str_eq e.1.policy_id id) (tool_policies m) (k, p) h) in
    let full : policy_id_of p.scope_key ≡ id = sym s.id ∙ same in
    sym (find_policy_id-policy_id_of p.scope_key (tool_policies m) sound)
    ∙ subst
        (λ i.
          ◌≡◌ {A = Option (ℕ × ToolPolicy)} (find? (λ e. str_eq e.1.policy_id i) (tool_policies m))
            (some (k, p)))
        (sym full) h

module _ {G : Type 0} (graph : Graph Obj G) (log : EventLog graph ScopeEvent) where
  -- In a sound graph, the patch of a policy that is found succeeds, and its scope then has the
  -- patched policy.
  pub patch_policy-found :
      (id : String) (k : ℕ) (p : ToolPolicy) (f : ToolPolicy → ToolPolicy) (g : G) (e : ScopeEvent)
      → AllSound (policies graph log g)
      → find_policy_id id (graph.objects g) ≡ some (k, p)
      → ((q : ToolPolicy) → (f q).scope_key ≡ q.scope_key)
      → ((patch_policy graph log k f (log.emit g e).1).0 ≡ returned true (some k))
        × (find_tool_policy p.scope_key
              (graph.objects (patch_policy graph log k f (log.emit g e).1).1)
            ≡ some (k, f p))
  unfolding patch_policy find_tool_policy find_policy_id
  patch_policy-found id k p f g e sound found same =
      let m = graph.objects g in
      let g1 = (log.emit g e).1 in
      let scope = found_by_scope id m k p sound found in
      let stands = is_some-lookup (λ x. str_eq x.1.policy_id id) m k p found in
      elim (Option-cases (graph.patch_object g1 k (with_policy f))) [
        | inl n ↦
            let gone = graph.patch_object-eq-none g1 k (with_policy f) n in
            ground (arith, log.objects-emit g e)
        | inr (g2, n) ↦ (
          rw (n, patch_policy) refl,
          rw
              (
                n,
                patch_policy,
                graph.objects-patch_object g1 g2 k (with_policy f) n,
                log.objects-emit g e,
                tool_policies-update k f m,
              )
              (find?-update (λ q. str_eq q.scope_key p.scope_key) k f (tool_policies m) p
                (λ q. ap (λ x. str_eq x p.scope_key) (same q)) scope),
        )
      ]

  pub found-IsSound :
      (id : String) (k : ℕ) (p : ToolPolicy) (g : G)
      → AllSound (policies graph log g)
      → find_policy_id id (graph.objects g) ≡ some (k, p)
      → IsSound p
  unfolding find_policy_id
  found-IsSound id k p g sound found =
      AllSound-find? (λ x. str_eq x.1.policy_id id) (policies graph log g) k p sound found
