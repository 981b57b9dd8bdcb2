-- ===== src/Graph/Laws.antt =====
-- What the calls of the packs do to the objects, also where a raised exception is swallowed.
use activegraph_packs.Base.{
  ℕ, String, none, List, [], ◌∷◌, ◌≡◌, refl, sym, arith, lookup, update, Option-cases, inl, inr,
}
use activegraph_packs.Graph.{Graph, try_patch, try_relate}

module _ {O : Type 0} where
  -- A patch at a missing key changes nothing.
  pub update_missing : (k : ℕ) (f : O → O) (m : List (ℕ × O)) → lookup k m ≡ none → update k f m ≡ m
  update_missing k f [] h = refl
  update_missing k f ((j, v) ∷ m) h = ground (arith, update_missing k f m)

module _ {O G : Type 0} (graph : Graph O G) where
  pub objects-try_patch :
      (g : G) (k : ℕ) (f : O → O)
      → graph.objects (try_patch graph g k f) ≡ update k f (graph.objects g)
  objects-try_patch g k f = elim (Option-cases (graph.patch_object g k f)) [
    | inl e ↦ rw e (sym (update_missing k f (graph.objects g) (graph.patch_object-eq-none g k f e)))
    | inr (g', e) ↦ rw e (graph.objects-patch_object g g' k f e)
  ]

  pub objects-try_relate :
      (g : G) (a b : ℕ) (t : String) → graph.objects (try_relate graph g a b t) ≡ graph.objects g
  objects-try_relate g a b t = elim (Option-cases (graph.add_relation g a b t)) [
    | inl e ↦ rw e
    | inr (g', e) ↦ rw e (graph.objects-add_relation g g' a b t e)
  ]
