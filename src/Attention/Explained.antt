-- ===== src/Attention/Explained.antt =====
-- What the vectors of a graph say, through importance_vector_projector and
-- source_trust_vector_projector.
use activegraph_packs.Base.{
  ℕ, ◌+◌, ◌≤◌, String, Bool, false, ◌||◌, Option, none, some, List, [], ◌∷◌, ◌++◌, ◌≡◌, refl, subst,
  arith, count, find?, All, All-append, find?-All, count-append, update, str_eq, eq_iff, Bool-cases,
  Option-cases, inl, inr, ◌==◌,
}
use activegraph_packs.Graph.{Graph}
use activegraph_packs.Outcome.{OutcomeKind}
use activegraph_packs.Attention.{
  AttentionObservation, ImportanceVector, SourceTrustVector, AttentionItem, attention_observation,
  interaction_batch, importance_vector, source_trust_vector, other, Weight, plus, minus,
  importance_weight, outcome_weight, importance_score, trust_score, add_feature,
}
use activegraph_packs.Attention.Projectors.{
  importance_vectors, trust_vectors, key_eq, trust_key_eq, key_of_observation, key_of_source,
  contribution_of, magnitude, Evidence, no_evidence, vector_evidence, trust_evidence, add_evidence,
  vector_of, observed, has_text, TrustSource, TrustContext, trust_sources, trust_of, set_item,
  id_of, store_vector, importance_vector_projector, project_source, project_sources,
  source_trust_vector_projector,
}

-- The sum of the features.
abbrev pub total : List (String × ℕ) → ℕ
total [] = 0
total (f ∷ fs) = f.1 + total fs

-- The features account for both sums, and no id counts twice.
pub record Accounted (support oppose : ℕ) (features : List (String × ℕ)) (ids : List String)
    : Type 0 where
  pub sums : total features ≡ support + oppose
  pub once : (t : String) → count (λ u. str_eq u t) ids ≤ 1

abbrev pub AccountedFor : Evidence → Type 0
AccountedFor e = Accounted e.support e.oppose e.features e.ids

-- A vector whose sums are accounted for and whose scores are computed from them.
abbrev pub IsExplained : AttentionItem → Type 0
IsExplained (importance_vector v) =
    Accounted v.support_milli v.oppose_milli v.features v.observation_ids
    × ((v.score_milli, v.confidence_milli, v.priority_band)
        ≡ importance_score v.support_milli v.oppose_milli)
IsExplained (source_trust_vector v) =
    Accounted v.support_milli v.challenge_milli v.features v.outcome_event_ids
    × ((v.score_milli, v.confidence_milli, v.verdict)
        ≡ trust_score v.support_milli v.challenge_milli)
IsExplained _ = Unit

total-add_feature :
    (f : String) (n : ℕ) (fs : List (String × ℕ)) → total (add_feature f n fs) ≡ total fs + n
unfolding add_feature
total-add_feature f n [] = omega arith
total-add_feature f n ((g, k) ∷ fs) = elim (Bool-cases (str_eq g f)) [
  | inl e ↦ rw e (omega arith)
  | inr e ↦ rw e (omega (arith, total-add_feature f n fs))
]

-- An id that is not in the list.
count-has_text :
    (t : String) (ts : List String) → has_text t ts ≡ false → count (λ u. str_eq u t) ts ≡ 0
count-has_text t [] h = refl
count-has_text t (u ∷ ts) h = ground (arith, h, count-has_text t ts)

ids-append :
    (id : String) (ids : List String)
    → has_text id ids ≡ false
    → ((t : String) → count (λ u. str_eq u t) ids ≤ 1)
    → (t : String) → count (λ u. str_eq u t) (ids ++ id ∷ []) ≤ 1
ids-append id ids new once t = elim (Bool-cases (str_eq id t)) [
  | inl e ↦
      rw (count-append (λ u. str_eq u t) ids (id ∷ []), e)
        (omega (
          arith,
          subst (λ x. count (λ u. str_eq u x) ids ≡ 0) ((eq_iff id t).0 e)
              (count-has_text id ids new),
        ))
  | inr e ↦ rw (count-append (λ u. str_eq u t) ids (id ∷ []), e) (omega (arith, once t))
]

add_evidence-Accounted :
    (id f : String) (w : Weight) (c : ℕ) (e : Evidence)
    → has_text id e.ids ≡ false
    → AccountedFor e
    → AccountedFor (add_evidence id f w c e)
unfolding add_evidence
add_evidence-Accounted id f (plus n) c e new a = record {
  sums = omega (arith, total-add_feature f c e.features, a.sums);
  once = ids-append id e.ids new a.once;
}
add_evidence-Accounted id f (minus n) c e new a = record {
  sums = omega (arith, total-add_feature f c e.features, a.sums);
  once = ids-append id e.ids new a.once;
}

-- The vectors that are read are explained where the objects are.
importance_vectors-All :
    (m : List (ℕ × AttentionItem))
    → All (λ e. IsExplained e.1) m
    → All (λ e. IsExplained (importance_vector e.1)) (importance_vectors m)
unfolding importance_vectors
importance_vectors-All [] h = tt
importance_vectors-All ((k, attention_observation o) ∷ m) h = importance_vectors-All m h.1
importance_vectors-All ((k, interaction_batch b) ∷ m) h = importance_vectors-All m h.1
importance_vectors-All ((k, importance_vector v) ∷ m) h = (h.0, importance_vectors-All m h.1)
importance_vectors-All ((k, source_trust_vector v) ∷ m) h = importance_vectors-All m h.1
importance_vectors-All ((k, other) ∷ m) h = importance_vectors-All m h.1

trust_vectors-All :
    (m : List (ℕ × AttentionItem))
    → All (λ e. IsExplained e.1) m
    → All (λ e. IsExplained (source_trust_vector e.1)) (trust_vectors m)
unfolding trust_vectors
trust_vectors-All [] h = tt
trust_vectors-All ((k, attention_observation o) ∷ m) h = trust_vectors-All m h.1
trust_vectors-All ((k, interaction_batch b) ∷ m) h = trust_vectors-All m h.1
trust_vectors-All ((k, importance_vector v) ∷ m) h = trust_vectors-All m h.1
trust_vectors-All ((k, source_trust_vector v) ∷ m) h = (h.0, trust_vectors-All m h.1)
trust_vectors-All ((k, other) ∷ m) h = trust_vectors-All m h.1

no_evidence-Accounted : AccountedFor no_evidence
no_evidence-Accounted = record { sums = omega arith; once = λ t. omega arith }

vector_evidence-Accounted :
    (p : ℕ × ImportanceVector → Bool) (m : List (ℕ × AttentionItem))
    → All (λ e. IsExplained e.1) m
    → AccountedFor (vector_evidence (find? p (importance_vectors m)))
vector_evidence-Accounted p m h = elim (Option-cases (find? p (importance_vectors m))) [
  | inl n ↦ rw n no_evidence-Accounted
  | inr ((k, v), n) ↦
      let found =
        find?-All (λ e. IsExplained (importance_vector e.1)) p (importance_vectors m) (k, v)
          (importance_vectors-All m h) n in
      rw n found.0
]

trust_evidence-Accounted :
    (p : ℕ × SourceTrustVector → Bool) (m : List (ℕ × AttentionItem))
    → All (λ e. IsExplained e.1) m
    → AccountedFor (trust_evidence (find? p (trust_vectors m)))
trust_evidence-Accounted p m h = elim (Option-cases (find? p (trust_vectors m))) [
  | inl n ↦ rw n no_evidence-Accounted
  | inr ((k, v), n) ↦
      let found =
        find?-All (λ e. IsExplained (source_trust_vector e.1)) p (trust_vectors m) (k, v)
          (trust_vectors-All m h) n in
      rw n found.0
]

All-set_item :
    (k : ℕ) (o : AttentionItem) (m : List (ℕ × AttentionItem))
    → IsExplained o
    → All (λ e. IsExplained e.1) m
    → All (λ e. IsExplained e.1) (update k (set_item o) m)
All-set_item k o [] h a = tt
All-set_item k o ((j, x) ∷ m) h a = elim (Bool-cases (j == k)) [
  | inl e ↦ (rw e h, All-set_item k o m h a.1)
  | inr e ↦ (rw e a.0, All-set_item k o m h a.1)
]

module _ {G : Type 0} (graph : Graph AttentionItem G) where
  -- Each vector of the graph is explained.
  abbrev pub AllExplained : G → Type 0
  AllExplained g = All (λ e. IsExplained e.1) (graph.objects g)

  pub AllExplained-add :
      (o : AttentionItem) (g : G)
      → IsExplained o
      → AllExplained g
      → AllExplained (graph.add_object g o).1
  AllExplained-add o g h a = rw (graph.objects-add_object g o) (
      All-append (λ e. IsExplained e.1) (graph.objects g) (((graph.add_object g o).0, o) ∷ []) a
        (h, tt))

  AllExplained-store :
      (o : AttentionItem) (at : Option ℕ) (g g' : G)
      → IsExplained o
      → AllExplained g
      → store_vector graph o at g ≡ some g'
      → AllExplained g'
  unfolding store_vector
  AllExplained-store o none g g' h a e =
      subst (λ x. AllExplained x) (ground (arith, e)) (AllExplained-add o g h a)
  AllExplained-store o (some k) g g' h a e =
      rw (graph.objects-patch_object g g' k (set_item o) e) (All-set_item k o (graph.objects g) h a)

  pub AllExplained-importance :
      (o : AttentionObservation) (g g' : G)
      → AllExplained g
      → importance_vector_projector graph o (graph.objects g) g ≡ some g'
      → AllExplained g'
  unfolding importance_vector_projector observed vector_of
  AllExplained-importance o g g' a =
      let p : ℕ × ImportanceVector → Bool = λ e. key_eq e.1.vector_key (key_of_observation o) in
      let existing = find? p (importance_vectors (graph.objects g)) in
      let e = vector_evidence existing in
      let old = vector_evidence-Accounted p (graph.objects g) a in
      let (feature, c) = contribution_of o in
      elim (Bool-cases (
        str_eq o.observation_id ""
        || (str_eq o.subject_ref "" || has_text o.observation_id e.ids))) [
          | inl n ↦ rw n (λ h. subst (λ x. AllExplained x) (ground (arith, h)) a)
          | inr n ↦
              let new : has_text o.observation_id e.ids ≡ false = ground (arith, n) in
              rw n (
                AllExplained-store (importance_vector (vector_of o (observed o e))) (id_of existing)
                  g g'
                  (
                    add_evidence-Accounted o.observation_id feature
                        (importance_weight o.signal_type).1 c e new old,
                    refl,
                  )
                  a)
        ]

  AllExplained-source :
      (kind : OutcomeKind) (id : String) (s : TrustSource) (g g' : G)
      → AllExplained g
      → project_source graph kind id s (graph.objects g) g ≡ some g'
      → AllExplained g'
  unfolding project_source trust_of
  AllExplained-source kind id s g g' a =
      let p : ℕ × SourceTrustVector → Bool = λ e. trust_key_eq e.1.vector_key (key_of_source s) in
      let existing = find? p (trust_vectors (graph.objects g)) in
      let e = trust_evidence existing in
      let old = trust_evidence-Accounted p (graph.objects g) a in
      let (feature, weight) = outcome_weight kind in
      let after = add_evidence id feature weight (magnitude weight) e in
      elim (Bool-cases (has_text id e.ids)) [
        | inl n ↦ rw n (λ h. subst (λ x. AllExplained x) (ground (arith, h)) a)
        | inr n ↦ rw n (
            AllExplained-store (source_trust_vector (trust_of id s after)) (id_of existing) g g'
              (add_evidence-Accounted id feature weight (magnitude weight) e n old, refl) a)
      ]

module _ {G : Type 0} (graph : Graph AttentionItem G) (reads : G → List (ℕ × AttentionItem)) where
  AllExplained-sources :
      (kind : OutcomeKind) (id : String) (ss : List TrustSource) (g g' : G)
      → ((x : G) → reads x ≡ graph.objects x)
      → AllExplained graph g
      → project_sources graph reads kind id ss g ≡ some g'
      → AllExplained graph g'
  unfolding project_sources
  AllExplained-sources kind id [] g g' live a =
      λ h. subst (λ x. AllExplained graph x) (ground (arith, h)) a
  AllExplained-sources kind id (s ∷ ss) g g' live a =
      elim (Option-cases (project_source graph kind id s (reads g) g)) [
        | inl n ↦ rw (project_sources, n) (λ h. ground (arith, h))
        | inr (g1, n) ↦
            let first : project_source graph kind id s (graph.objects g) g ≡ some g1 =
              subst (λ m. project_source graph kind id s m g ≡ some g1) (live g) n in
            rw (project_sources, n)
              (AllExplained-sources kind id ss g1 g' live
                (AllExplained-source graph kind id s g g1 a first))
      ]

  pub AllExplained-trust :
      (kind : OutcomeKind) (id : String) (c : TrustContext) (g g' : G)
      → ((x : G) → reads x ≡ graph.objects x)
      → AllExplained graph g
      → source_trust_vector_projector graph reads kind id c g ≡ some g'
      → AllExplained graph g'
  unfolding source_trust_vector_projector
  AllExplained-trust kind id c g g' = AllExplained-sources kind id (trust_sources c) g g'
