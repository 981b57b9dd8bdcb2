-- ===== src/Graph/Listed.antt =====
-- A graph that is a list of its objects: it shows that the laws of `Graph` can hold, and runs the
-- packs' code on small inputs.
use activegraph_packs.Base.{
  ℕ, suc, ◌≤◌, Option, none, some, List, [], ◌∷◌, ◌++◌, ◌≡◌, refl, arith, lookup, update, ltb,
  is_some, if◌then◌else◌,
}
use activegraph_packs.Graph.{Graph}

module _ {O : Type 0} where
  -- An id above all that are taken.
  abbrev pub next_id : List (ℕ × O) → ℕ
  next_id [] = 1
  next_id ((j, o) ∷ m) = let n = next_id m in if ltb j n then n else suc j

  abbrev pub patch : List (ℕ × O) → ℕ → (O → O) → Option (List (ℕ × O))
  patch m k f = if is_some (lookup k m) then some (update k f m) else none

  lookup-above : (m : List (ℕ × O)) (k : ℕ) → next_id m ≤ k → lookup k m ≡ none
  lookup-above [] k h = refl
  lookup-above ((j, o) ∷ m) k h = ground (arith, lookup-above m k)

  pub lookup-next_id : (m : List (ℕ × O)) → lookup (next_id m) m ≡ none
  lookup-next_id m = lookup-above m (next_id m) (omega arith)

  pub patch-eq-some :
      (m n : List (ℕ × O)) (k : ℕ) (f : O → O) → patch m k f ≡ some n → n ≡ update k f m
  patch-eq-some m n k f h = ground arith

  pub patch-eq-none :
      (m : List (ℕ × O)) (k : ℕ) (f : O → O) → patch m k f ≡ none → lookup k m ≡ none
  patch-eq-none m k f h = ground arith

abbrev pub Listed : Type 0 → Type 0
Listed O = List (ℕ × O)

pub some_same : {A : Type 0} (a b : A) → some a ≡ some b → b ≡ a
some_same a b h = ground arith

abbrev pub listed : (O : Type 0) → Graph O (Listed O)
listed O = record {
  objects = λ m. m;
  get_object = λ m k. lookup k m;
  add_object = λ m o. (next_id m, m ++ (next_id m, o) ∷ []);
  patch_object = patch;
  add_relation = λ m a b t. some m;
  get_object-objects = λ m k. refl;
  objects-add_object = λ m o. refl;
  add_object_fresh = λ m o. lookup-next_id m;
  objects-patch_object = patch-eq-some;
  patch_object-eq-none = patch-eq-none;
  objects-add_relation = λ m n a b t h. some_same m n h;
}
