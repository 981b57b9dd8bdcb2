-- ===== src/Outcome/Reliability.antt =====
-- The reliabilities of a graph, and what artifact_reliability_projector does to them.
use activegraph_packs.Base.{
  ℕ, ◌≤◌, Bool, false, none, some, List, [], ◌∷◌, ◌++◌, ◌≡◌, refl, ap, ◌∙◌, subst, arith, find?,
  count, count-append, count-find?, find?-count, lookup, update, if◌then◌else◌, ◌==◌, ==_refl,
  ==_iff, Bool-cases, Option-cases, inl, inr,
}
use activegraph_packs.Graph.{Graph}
use activegraph_packs.Outcome.{
  ArtifactReliability, Item, evaluation, outcome_record, artifact_reliability, skill_usage, other,
  reliabilities, last_reliability,
}
use activegraph_packs.Outcome.Projector.{first_reliability, set_reliability}

abbrev pub Reliabilities : Type 0
Reliabilities = List (ℕ × ArtifactReliability)

-- No id and no artifact stands for two reliabilities.
pub record OneEach (rs : Reliabilities) : Type 0 where
  pub ids : (k : ℕ) → count (λ e. e.0 == k) rs ≤ 1
  pub artifacts : (a : ℕ) → count (λ e. e.1.artifact_id == a) rs ≤ 1

pub reliabilities-append :
    (m : List (ℕ × Item)) (k : ℕ) (r : ArtifactReliability)
    → reliabilities (m ++ (k, artifact_reliability r) ∷ []) ≡ reliabilities m ++ (k, r) ∷ []
unfolding reliabilities
reliabilities-append [] k r = refl
reliabilities-append ((j, evaluation e) ∷ m) k r = reliabilities-append m k r
reliabilities-append ((j, outcome_record e) ∷ m) k r = reliabilities-append m k r
reliabilities-append ((j, artifact_reliability e) ∷ m) k r =
    ap (λ rs. (j, e) ∷ rs) (reliabilities-append m k r)
reliabilities-append ((j, skill_usage u) ∷ m) k r = reliabilities-append m k r
reliabilities-append ((j, other) ∷ m) k r = reliabilities-append m k r

pub reliabilities-update :
    (k : ℕ) (r : ArtifactReliability) (m : List (ℕ × Item))
    → reliabilities (update k (set_reliability r) m) ≡ update k (λ old. r) (reliabilities m)
unfolding reliabilities
reliabilities-update k r [] = refl
reliabilities-update k r ((j, evaluation e) ∷ m) = ground (arith, reliabilities-update k r m)
reliabilities-update k r ((j, outcome_record e) ∷ m) = ground (arith, reliabilities-update k r m)
reliabilities-update k r ((j, artifact_reliability e) ∷ m) =
    ground (arith, reliabilities-update k r m)
reliabilities-update k r ((j, skill_usage u) ∷ m) = ground (arith, reliabilities-update k r m)
reliabilities-update k r ((j, other) ∷ m) = ground (arith, reliabilities-update k r m)

-- An id that no object has.
pub count-lookup :
    (m : List (ℕ × Item)) (k : ℕ) → lookup k m ≡ none → count (λ e. e.0 == k) (reliabilities m) ≡ 0
unfolding reliabilities
count-lookup [] k h = refl
count-lookup ((j, evaluation e) ∷ m) k h = ground (arith, h, count-lookup m k)
count-lookup ((j, outcome_record e) ∷ m) k h = ground (arith, h, count-lookup m k)
count-lookup ((j, artifact_reliability e) ∷ m) k h = ground (arith, h, count-lookup m k)
count-lookup ((j, skill_usage u) ∷ m) k h = ground (arith, h, count-lookup m k)
count-lookup ((j, other) ∷ m) k h = ground (arith, h, count-lookup m k)

-- A reliability that stands has its object.
pub lookup-found :
    (m : List (ℕ × Item)) (p : ℕ × ArtifactReliability → Bool) (e : ℕ × ArtifactReliability)
    → find? p (reliabilities m) ≡ some e
    → lookup e.0 m ≡ none
    → ⊥
unfolding reliabilities
lookup-found [] p e h n = ground (arith, h)
lookup-found ((j, evaluation x) ∷ m) p e h n = ground (arith, h, n, lookup-found m p e)
lookup-found ((j, outcome_record x) ∷ m) p e h n = ground (arith, h, n, lookup-found m p e)
lookup-found ((j, artifact_reliability x) ∷ m) p e h n = ground (arith, h, n, lookup-found m p e)
lookup-found ((j, skill_usage x) ∷ m) p e h n = ground (arith, h, n, lookup-found m p e)
lookup-found ((j, other) ∷ m) p e h n = ground (arith, h, n, lookup-found m p e)

find?-id :
    (p : ℕ × ArtifactReliability → Bool) (rs : Reliabilities) (e : ℕ × ArtifactReliability)
    → find? p rs ≡ some e
    → 1 ≤ count (λ x. x.0 == e.0) rs
find?-id p [] e h = ground (arith, h)
find?-id p (x ∷ rs) e h = ground (arith, h, find?-id p rs e, ==_refl e.0)

update-id :
    (k : ℕ) (r : ArtifactReliability) (rs : Reliabilities)
    → count (λ e. e.0 == k) rs ≡ 0
    → update k (λ old. r) rs ≡ rs
update-id k r [] h = refl
update-id k r ((j, o) ∷ rs) h = ground (arith, h, update-id k r rs)

-- The reliability that an artifact has after one is added or rewritten.
pub first-add :
    (a k : ℕ) (r : ArtifactReliability) (rs : Reliabilities)
    → first_reliability r.artifact_id rs ≡ none
    → first_reliability a (rs ++ (k, r) ∷ [])
      ≡ (if r.artifact_id == a then some (k, r) else first_reliability a rs)
unfolding first_reliability
first-add a k r [] h = refl
first-add a k r (x ∷ rs) h = ground (arith, h, first-add a k r rs)

pub first-update :
    (a k : ℕ) (r old : ArtifactReliability) (rs : Reliabilities)
    → OneEach rs
    → first_reliability r.artifact_id rs ≡ some (k, old)
    → (first_reliability a (update k (λ o. r) rs)
        ≡ (if r.artifact_id == a then some (k, r) else first_reliability a rs))
      × (count (λ e. e.1.artifact_id == a) (update k (λ o. r) rs)
          ≡ count (λ e. e.1.artifact_id == a) rs)
unfolding first_reliability
first-update a k r old [] one h = ground (arith, h)
first-update a k r old ((j, o) ∷ rs) one h =
    let tail : OneEach rs = record {
      ids = λ i. omega (arith, one.ids i);
      artifacts = λ i. omega (arith, one.artifacts i);
    } in
    elim (Bool-cases (o.artifact_id == r.artifact_id)) [
      | inl e ↦
          let same : j ≡ k = ground (arith, h, e) in
          let rest : count (λ e. e.0 == k) rs ≡ 0 = ground (arith, same, one.ids k, ==_refl k) in
          rw (update-id k r rs rest) (ground (arith, same, e, h), ground (arith, same, e))
      | inr e ↦
          let later : first_reliability r.artifact_id rs ≡ some (k, old) = ground (arith, h, e) in
          let below = find?-id (λ x. x.1.artifact_id == r.artifact_id) rs (k, old) later in
          let other_id : (j == k) ≡ false = ground (arith, below, one.ids k) in
          let (first, number) = first-update a k r old rs tail later in
          (ground (arith, other_id, e, first), ground (arith, other_id, number))
    ]

pub OneEach-add :
    (k : ℕ) (r : ArtifactReliability) (rs : Reliabilities)
    → OneEach rs
    → count (λ e. e.0 == k) rs ≡ 0
    → first_reliability r.artifact_id rs ≡ none
    → OneEach (rs ++ (k, r) ∷ [])
unfolding first_reliability
OneEach-add k r rs one fresh none_yet = record {
  ids = λ i. elim (Bool-cases (k == i)) [
    | inl e ↦
        rw (count-append (λ x. x.0 == i) rs ((k, r) ∷ []), e)
          (omega (arith, subst (λ x. count (λ y. y.0 == x) rs ≡ 0) ((==_iff k i).0 e) fresh))
    | inr e ↦ rw (count-append (λ x. x.0 == i) rs ((k, r) ∷ []), e) (omega (arith, one.ids i))
  ];
  artifacts = λ i. elim (Bool-cases (r.artifact_id == i)) [
    | inl e ↦
        rw (count-append (λ x. x.1.artifact_id == i) rs ((k, r) ∷ []), e)
          (omega (
            arith,
            subst (λ x. count (λ y. y.1.artifact_id == x) rs ≡ 0) ((==_iff r.artifact_id i).0 e)
                (count-find? (λ y. y.1.artifact_id == r.artifact_id) rs none_yet),
          ))
    | inr e ↦
        rw (count-append (λ x. x.1.artifact_id == i) rs ((k, r) ∷ []), e)
          (omega (arith, one.artifacts i))
  ];
}

count-keys :
    (i k : ℕ) (r : ArtifactReliability) (rs : Reliabilities)
    → count (λ e. e.0 == i) (update k (λ o. r) rs) ≡ count (λ e. e.0 == i) rs
count-keys i k r [] = refl
count-keys i k r ((j, o) ∷ rs) = ground (arith, count-keys i k r rs)

pub OneEach-update :
    (k : ℕ) (r old : ArtifactReliability) (rs : Reliabilities)
    → OneEach rs
    → first_reliability r.artifact_id rs ≡ some (k, old)
    → OneEach (update k (λ o. r) rs)
OneEach-update k r old rs one h = record {
  ids = λ i. omega (arith, count-keys i k r rs, one.ids i);
  artifacts = λ a. omega (arith, (first-update a k r old rs one h).1, one.artifacts a);
}

-- Where an artifact has one reliability at most, the first is the last.
pub last-first :
    (a : ℕ) (rs : Reliabilities)
    → count (λ e. e.1.artifact_id == a) rs ≤ 1
    → last_reliability a rs ≡ first_reliability a rs
unfolding last_reliability first_reliability
last-first a [] h = refl
last-first a (e ∷ rs) h =
    let rest = last-first a rs (omega (arith, h)) in
    elim (Bool-cases (e.1.artifact_id == a)) [
      | inl m ↦
          let gone : find? (λ x. x.1.artifact_id == a) rs ≡ none =
            find?-count (λ x. x.1.artifact_id == a) rs (ground (arith, h, m)) in
          rw (rest ∙ gone, m) refl
      | inr m ↦ elim (Option-cases (first_reliability a rs)) [
        | inl n ↦ rw (rest ∙ n, n, m) refl
        | inr (x, n) ↦ rw (rest ∙ n, n, m) refl
      ]
    ]

-- The reliabilities of a graph.
abbrev pub rels : {G : Type 0} → Graph Item G → G → Reliabilities
rels graph g = reliabilities (graph.objects g)
