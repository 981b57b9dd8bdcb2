-- ===== src/Base/Lists.antt =====
-- Lists measured by the native numbers, Boolean searches, and association lists keyed by ids.
use Prim.Native.Nat.{ℕ, zero, suc, ◌+◌, ◌≤◌}
use mathlib.Core.Path.{◌≡◌, refl, ap, subst}
use mathlib.Core.Logic.{◌⊎◌, inl, inr}
use mathlib.Core.Bool.{Bool, true, false, ◌&&◌, ◌||◌}
use mathlib.Core.Option.{Option, none, some}
use mathlib.Core.List.{List, [], ◌∷◌, ◌++◌}
use native.Mathlib.Omega.{arith}
use Prim.Native.String.{String}
use activegraph_packs.Base.Tests.{◌==◌, str_eq, if◌then◌else◌, Bool-cases}

module _ {ℓ} {A : Type ℓ} where
  abbrev pub length : List A → ℕ
  length [] = 0
  length (x ∷ xs) = suc (length xs)

  abbrev pub any : (A → Bool) → List A → Bool
  any p [] = false
  any p (x ∷ xs) = p x || any p xs

  abbrev pub all : (A → Bool) → List A → Bool
  all p [] = true
  all p (x ∷ xs) = p x && all p xs

  -- How many items pass the test.
  abbrev pub count : (A → Bool) → List A → ℕ
  count p [] = 0
  count p (x ∷ xs) = (if p x then 1 else 0) + count p xs

  -- The first item that passes the test.
  abbrev pub find? : (A → Bool) → List A → Option A
  find? p [] = none
  find? p (x ∷ xs) = if p x then some x else find? p xs

  abbrev pub All {κ} : (A → Type κ) → List A → Type κ
  All P [] = Unit
  All P (x ∷ xs) = P x × All P xs

  -- Some item satisfies the predicate, with the place kept.
  abbrev pub Exists : (A → Type 0) → List A → Type 0
  Exists P [] = ⊥
  Exists P (x ∷ xs) = P x ⊎ Exists P xs

  pub All-map {κ μ} :
      {P : A → Type κ} {Q : A → Type μ}
      → ((x : A) → P x → Q x)
      → (xs : List A) → All P xs
      → All Q xs
  All-map f [] h = tt
  All-map f (x ∷ xs) h = (f x h.0, All-map f xs h.1)

  pub append-nil : (xs : List A) → xs ++ [] ≡ xs
  append-nil [] = refl
  append-nil (x ∷ xs) = ap (λ l. x ∷ l) (append-nil xs)

  pub find?-All {κ} :
      (P : A → Type κ) (p : A → Bool) (xs : List A) (x : A) → All P xs → find? p xs ≡ some x → P x
  find?-All P p [] x h f = ground (arith, f)
  find?-All P p (y ∷ ys) x h f = elim (Bool-cases (p y)) [
    | inl e ↦ subst P {x = y} (ground (arith, e, f)) h.0
    | inr e ↦ find?-All P p ys x h.1 (ground (arith, e, f))
  ]

  pub length-append : (xs ys : List A) → length (xs ++ ys) ≡ length xs + length ys
  length-append [] ys = omega arith
  length-append (x ∷ xs) ys = omega (arith, length-append xs ys)

  pub count-append : (p : A → Bool) (xs ys : List A) → count p (xs ++ ys) ≡ count p xs + count p ys
  count-append p [] ys = omega arith
  count-append p (x ∷ xs) ys = omega (arith, count-append p xs ys)

  pub count-find? : (p : A → Bool) (xs : List A) → find? p xs ≡ none → count p xs ≡ 0
  count-find? p [] h = refl
  count-find? p (x ∷ xs) h = ground (arith, h, count-find? p xs)

  pub count-found : (p : A → Bool) (xs : List A) (x : A) → find? p xs ≡ some x → 1 ≤ count p xs
  count-found p [] x h = ground (arith, h)
  count-found p (y ∷ ys) x h = elim (Bool-cases (p y)) [
    | inl e ↦ rw e (omega arith)
    | inr e ↦ let later = count-found p ys x (ground (arith, e, h)) in rw e (omega (arith, later))
  ]

  pub find?-count : (p : A → Bool) (xs : List A) → count p xs ≡ 0 → find? p xs ≡ none
  find?-count p [] h = refl
  find?-count p (x ∷ xs) h = ground (arith, h, find?-count p xs)

  pub find?-append :
      (p : A → Bool) (xs : List A) (y : A)
      → find? p xs ≡ none
      → p y ≡ true
      → find? p (xs ++ y ∷ []) ≡ some y
  find?-append p [] y h k = ground (arith, k)
  find?-append p (x ∷ xs) y h k = ground (arith, h, k, find?-append p xs y)

  -- Two tests that agree on each item.
  pub count-agree :
      (p q : A → Bool) (xs : List A) → All (λ x. p x ≡ q x) xs → count p xs ≡ count q xs
  count-agree p q [] h = refl
  count-agree p q (x ∷ xs) h = ground (arith, h.0, count-agree p q xs h.1)

  pub All-append {κ} : (P : A → Type κ) (xs ys : List A) → All P xs → All P ys → All P (xs ++ ys)
  All-append P [] ys h k = k
  All-append P (x ∷ xs) ys h k = (h.0, All-append P xs ys h.1 k)

  pub count-le-length : (p : A → Bool) (xs : List A) → count p xs ≤ length xs
  count-le-length p [] = omega arith
  count-le-length p (x ∷ xs) = ground (arith, count-le-length p xs)

module _ {ℓ} {V : Type ℓ} where
  abbrev pub lookup : ℕ → List (ℕ × V) → Option V
  lookup k [] = none
  lookup k ((j, v) ∷ m) = if j == k then some v else lookup k m

  -- The value at one key is rewritten in place.
  abbrev pub update : ℕ → (V → V) → List (ℕ × V) → List (ℕ × V)
  update k f [] = []
  update k f ((j, v) ∷ m) = (j, if j == k then f v else v) ∷ update k f m

  abbrev pub map_option : (V → V) → Option V → Option V
  map_option f none = none
  map_option f (some v) = some (f v)

  pub lookup-append :
      (k : ℕ) (m n : List (ℕ × V))
      → lookup k (m ++ n) ≡ (elim (lookup k m) [ none ↦ lookup k n | some v ↦ some v ])
  lookup-append k [] n = refl
  lookup-append k ((j, v) ∷ m) n = ground (arith, lookup-append k m n)

  pub lookup-update :
      (k j : ℕ) (f : V → V) (m : List (ℕ × V))
      → lookup j (update k f m) ≡ (if k == j then map_option f (lookup j m) else lookup j m)
  lookup-update k j f [] = ground arith
  lookup-update k j f ((i, v) ∷ m) = ground (arith, lookup-update k j f m)

module _ {ℓ} {V : Type ℓ} where
  -- `mapping.get(key)` on a dict with text keys.
  abbrev pub get_text : String → List (String × V) → Option V
  get_text k [] = none
  get_text k ((j, v) ∷ m) = if str_eq j k then some v else get_text k m

module _ {ℓ} {A : Type ℓ} where
  abbrev pub take : ℕ → List A → List A
  take zero xs = []
  take (suc n) [] = []
  take (suc n) (x ∷ xs) = x ∷ take n xs

  abbrev pub drop : ℕ → List A → List A
  drop zero xs = xs
  drop (suc n) [] = []
  drop (suc n) (x ∷ xs) = drop n xs

  pub take-drop : (n : ℕ) (xs : List A) → take n xs ++ drop n xs ≡ xs
  take-drop zero xs = refl
  take-drop (suc n) [] = refl
  take-drop (suc n) (x ∷ xs) = ap (λ l. x ∷ l) (take-drop n xs)

  pub length-take :
      (n : ℕ) (xs : List A)
      → (length (take n xs) ≤ n)
        × (length (take n xs) ≤ length xs)
        × ((length (take n xs) ≡ n) ⊎ (length (take n xs) ≡ length xs))
  length-take zero xs = (omega arith, omega arith, inl refl)
  length-take (suc n) [] = (omega arith, omega arith, inr refl)
  length-take (suc n) (x ∷ xs) =
      let (low, short, exact) = length-take n xs in
      (
        omega (arith, low),
        omega (arith, short),
        elim exact [ inl e ↦ inl (ap suc e) | inr e ↦ inr (ap suc e) ],
      )

  abbrev pub is_empty : List A → Bool
  is_empty [] = true
  is_empty (x ∷ xs) = false

-- Equality of texts that are lists of characters' codes.
abbrev pub codes_eq : List ℕ → List ℕ → Bool
codes_eq [] [] = true
codes_eq (x ∷ xs) (y ∷ ys) = x == y && codes_eq xs ys
codes_eq _ _ = false
