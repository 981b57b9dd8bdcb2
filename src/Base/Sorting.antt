-- ===== src/Base/Sorting.antt =====
-- `list.sort`, which is stable, as insertion; and the order of texts.
use Prim.Native.String.{String, compare, [] as end, ◌∷◌ as next}
use Prim.Native.String.compare
use Prim.Native.Nat.{Ordering}
use mathlib.Core.Path.{◌≡◌, refl, sym, ◌∙◌}
use mathlib.Core.Logic.{inl, inr}
use mathlib.Core.Bool.{Bool, true, false}
use mathlib.Core.List.{List, [], ◌∷◌}
use native.Mathlib.Omega.{arith}
use activegraph_packs.Base.Tests.{if◌then◌else◌, Bool-cases}
use activegraph_packs.Base.Lists.{All, All-map, count, length}

abbrev pub text_leb : String → String → Bool
text_leb a b = elim (compare a b) [ Ordering.gt ↦ false | _ ↦ true ]

pub text_leb_total : (a b : String) → text_leb a b ≡ false → text_leb b a ≡ true
text_leb_total end end h = ground (arith, h, compare.nil-nil)
text_leb_total end (next d t) h = ground (arith, h, compare.nil-cons d t)
text_leb_total (next c s) end h = ground (arith, compare.nil-cons c s)
text_leb_total (next c s) (next d t) h =
    ground (arith, h, text_leb_total s t, compare.cons-cons c d s t, compare.cons-cons d c t s)

pub text_leb_trans :
    (a b c : String) → text_leb a b ≡ true → text_leb b c ≡ true → text_leb a c ≡ true
text_leb_trans end b end h k = ground (arith, compare.nil-nil)
text_leb_trans end b (next d t) h k = ground (arith, compare.nil-cons d t)
text_leb_trans (next c s) end d h k = ground (arith, h, compare.cons-nil c s)
text_leb_trans (next c s) (next d t) end h k = ground (arith, k, compare.cons-nil d t)
text_leb_trans (next c s) (next d t) (next e u) h k = ground (
  arith,
  h,
  k,
  text_leb_trans s t u,
  compare.cons-cons c d s t,
  compare.cons-cons d e t u,
  compare.cons-cons c e s u,
)

module _ {A : Type 0} where
  abbrev pub insert_by : (A → A → Bool) → A → List A → List A
  insert_by before x [] = x ∷ []
  insert_by before x (y ∷ ys) =
      let rest = insert_by before x ys in if before x y then x ∷ y ∷ ys else y ∷ rest

  abbrev pub sort_by : (A → A → Bool) → List A → List A
  sort_by before [] = []
  sort_by before (x ∷ xs) = insert_by before x (sort_by before xs)

  -- Each item is related to all that follow.
  abbrev pub Ordered : (A → A → Type 0) → List A → Type 0
  Ordered R [] = Unit
  Ordered R (x ∷ xs) = All (R x) xs × Ordered R xs

  All-insert_by :
      (P : A → Type 0) (f : A → A → Bool) (x : A) (ys : List A)
      → P x
      → All P ys
      → All P (insert_by f x ys)
  All-insert_by P f x [] h a = (h, tt)
  All-insert_by P f x (y ∷ ys) h a =
      let rest = All-insert_by P f x ys h a.1 in
      elim (Bool-cases (f x y)) [ inl e ↦ rw e (h, a) | inr e ↦ rw e (a.0, rest) ]

  count-insert_by :
      (p : A → Bool) (f : A → A → Bool) (x : A) (ys : List A)
      → count p (insert_by f x ys) ≡ count p (x ∷ ys)
  count-insert_by p f x [] = refl
  count-insert_by p f x (y ∷ ys) =
      let rest = count-insert_by p f x ys in
      elim (Bool-cases (f x y)) [ inl e ↦ rw e refl | inr e ↦ rw e (omega (arith, rest)) ]

  -- A sort keeps the items.
  pub count-sort_by :
      (p : A → Bool) (f : A → A → Bool) (xs : List A) → count p (sort_by f xs) ≡ count p xs
  count-sort_by p f [] = refl
  count-sort_by p f (x ∷ xs) =
      omega (arith, count-insert_by p f x (sort_by f xs), count-sort_by p f xs)

  count_every : (xs : List A) → count (λ x. true) xs ≡ length xs
  count_every [] = refl
  count_every (x ∷ xs) = omega (arith, count_every xs)

  pub length-sort_by : (f : A → A → Bool) (xs : List A) → length (sort_by f xs) ≡ length xs
  length-sort_by f xs =
      sym (count_every (sort_by f xs)) ∙ count-sort_by (λ x. true) f xs ∙ count_every xs

  -- A test that decides a transitive relation one way or the other sorts by it.
  module _ (R : A → A → Type 0) (f : A → A → Bool) (before : (x y : A) → f x y ≡ true → R x y)
      (after : (x y : A) → f x y ≡ false → R y x)
      (trans : (x y z : A) → R x y → R y z → R x z) where
    Ordered-insert_by : (x : A) (ys : List A) → Ordered R ys → Ordered R (insert_by f x ys)
    Ordered-insert_by x [] o = (tt, tt)
    Ordered-insert_by x (y ∷ ys) o =
        let rest = Ordered-insert_by x ys o.1 in
        elim (Bool-cases (f x y)) [
          | inl e ↦
              let first = before x y e in
              rw e ((first, All-map (λ z h. trans x y z first h) ys o.0), o)
          | inr e ↦ rw e (All-insert_by (R y) f x ys (after x y e) o.0, rest)
        ]

    pub Ordered-sort_by : (xs : List A) → Ordered R (sort_by f xs)
    Ordered-sort_by [] = tt
    Ordered-sort_by (x ∷ xs) = Ordered-insert_by x (sort_by f xs) (Ordered-sort_by xs)
