-- ===== src/Attention/Vectors.antt =====
-- What the vectors' projectors leave of the observations.
use activegraph_packs.Base.{
  ℕ, ◌≤◌, ◌+◌, String, Bool, true, false, ◌||◌, Option, none, some, List, [], ◌∷◌, ◌++◌, ◌≡◌, refl,
  ap, ◌∙◌, subst, arith, find?, count, update, append-nil, str_eq, if◌then◌else◌, Bool-cases, inl,
  inr, ◌==◌,
}
use activegraph_packs.Graph.{Graph}
use activegraph_packs.Outcome.{OutcomeKind}
use activegraph_packs.Attention.{
  AttentionObservation, AttentionItem, attention_observation, interaction_batch, importance_vector,
  source_trust_vector, other, outcome_weight,
}
use activegraph_packs.Attention.Observations.{observations}
use activegraph_packs.Attention.Projectors.{
  importance_vectors, trust_vectors, key_eq, trust_key_eq, key_of_observation, key_of_source,
  vector_evidence, trust_evidence, add_evidence, vector_of, observed, has_text, magnitude,
  TrustSource, trust_of, set_item, id_of, store_vector, importance_vector_projector, project_source,
}
use activegraph_packs.Attention.Recorded.{with_id, IsUniqueIds, observations-append}

abbrev pub is_observation : AttentionItem → Bool
is_observation (attention_observation o) = true
is_observation _ = false

abbrev pub is_vector : AttentionItem → Bool
is_vector (importance_vector v) = true
is_vector (source_trust_vector v) = true
is_vector _ = false

-- What one object adds to the number of the observations that have the id.
abbrev own : String → AttentionItem → ℕ
own t (attention_observation o) = if str_eq o.observation_id t then 1 else 0
own t _ = 0

with_id-cons :
    (t : String) (k : ℕ) (o : AttentionItem) (m : List (ℕ × AttentionItem))
    → with_id t ((k, o) ∷ m) ≡ own t o + with_id t m
unfolding observations
with_id-cons t k (attention_observation o) m = refl
with_id-cons t k (interaction_batch b) m = omega arith
with_id-cons t k (importance_vector v) m = omega arith
with_id-cons t k (source_trust_vector v) m = omega arith
with_id-cons t k other m = omega arith

own-vector : (t : String) (o : AttentionItem) → is_vector o ≡ true → own t o ≡ 0
own-vector t o h = ground (arith, h)

with_id-set_item :
    (t : String) (k : ℕ) (o : AttentionItem) (m : List (ℕ × AttentionItem))
    → is_vector o ≡ true
    → with_id t (update k (set_item o) m) ≤ with_id t m
with_id-set_item t k o [] h = omega arith
with_id-set_item t k o ((j, x) ∷ m) h =
    let rest = with_id-set_item t k o m h in
    let old = with_id-cons t j x m in
    elim (Bool-cases (j == k)) [
      | inl e ↦
          let new = with_id-cons t j o (update k (set_item o) m) in
          rw e (omega (arith, rest, old, new, own-vector t o h))
      | inr e ↦
          let new = with_id-cons t j x (update k (set_item o) m) in
          rw e (omega (arith, rest, old, new))
    ]

observations-no_observation :
    (k : ℕ) (o : AttentionItem) → is_observation o ≡ false → observations ((k, o) ∷ []) ≡ []
unfolding observations
observations-no_observation k (attention_observation o) h = ground (arith, h)
observations-no_observation k (interaction_batch b) h = refl
observations-no_observation k (importance_vector v) h = refl
observations-no_observation k (source_trust_vector v) h = refl
observations-no_observation k other h = refl

module _ {G : Type 0} (graph : Graph AttentionItem G) where
  pub with_id-other :
      (t : String) (o : AttentionItem) (g : G)
      → is_observation o ≡ false
      → with_id t (graph.objects (graph.add_object g o).1) ≡ with_id t (graph.objects g)
  with_id-other t o g h =
      let k = (graph.add_object g o).0 in
      ap (with_id t) (graph.objects-add_object g o)
      ∙ ap (count (λ e. str_eq e.1.observation_id t)) (
          observations-append (graph.objects g) k o
          ∙ ap (λ os. observations (graph.objects g) ++ os) (observations-no_observation k o h)
          ∙ append-nil (observations (graph.objects g)))

  IsUniqueIds-store :
      (o : AttentionItem) (place : Option ℕ) (g g' : G)
      → is_vector o ≡ true
      → is_observation o ≡ false
      → IsUniqueIds (graph.objects g)
      → store_vector graph o place g ≡ some g'
      → IsUniqueIds (graph.objects g')
  unfolding store_vector
  IsUniqueIds-store o none g g' v n unique h t =
      subst (λ (x : G). with_id t (graph.objects x) ≤ 1) {x = (graph.add_object g o).1}
        (ground (arith, h)) (rw (with_id-other t o g n) (unique t))
  IsUniqueIds-store o (some k) g g' v n unique h t =
      let fewer = with_id-set_item t k o (graph.objects g) v in
      rw (graph.objects-patch_object g g' k (set_item o) h) (omega (arith, fewer, unique t))

  pub IsUniqueIds-importance :
      (o : AttentionObservation) (g g' : G)
      → IsUniqueIds (graph.objects g)
      → importance_vector_projector graph o (graph.objects g) g ≡ some g'
      → IsUniqueIds (graph.objects g')
  unfolding importance_vector_projector
  IsUniqueIds-importance o g g' unique =
      let existing =
        find? (λ e. key_eq e.1.vector_key (key_of_observation o))
          (importance_vectors (graph.objects g)) in
      let e = vector_evidence existing in
      elim (Bool-cases (
        str_eq o.observation_id ""
        || (str_eq o.subject_ref "" || has_text o.observation_id e.ids))) [
          | inl n ↦
              rw n
                (λ h. subst (λ (x : G). IsUniqueIds (graph.objects x)) (ground (arith, h)) unique)
          | inr n ↦ rw n (
              IsUniqueIds-store (importance_vector (vector_of o (observed o e))) (id_of existing) g
                g' refl refl unique)
        ]

  pub IsUniqueIds-source :
      (kind : OutcomeKind) (id : String) (s : TrustSource) (g g' : G)
      → IsUniqueIds (graph.objects g)
      → project_source graph kind id s (graph.objects g) g ≡ some g'
      → IsUniqueIds (graph.objects g')
  unfolding project_source
  IsUniqueIds-source kind id s g g' unique =
      let existing =
        find? (λ e. trust_key_eq e.1.vector_key (key_of_source s))
          (trust_vectors (graph.objects g)) in
      let e = trust_evidence existing in
      let (feature, weight) = outcome_weight kind in
      let new = trust_of id s (add_evidence id feature weight (magnitude weight) e) in
      elim (Bool-cases (has_text id e.ids)) [
        | inl n ↦
            rw n (λ h. subst (λ (x : G). IsUniqueIds (graph.objects x)) (ground (arith, h)) unique)
        | inr n ↦
            rw n
              (IsUniqueIds-store (source_trust_vector new) (id_of existing) g g' refl refl unique)
      ]
