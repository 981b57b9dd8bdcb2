-- ===== src/Attention/Recorded.antt =====
-- The observations of a graph, through record_attention_observation_fn,
-- record_interaction_batch_fn and semantic_attention_signal_capture.
use activegraph_packs.Base.{
  ℕ, ◌+◌, ◌≤◌, String, Bool, none, List, [], ◌∷◌, ◌++◌, ◌≡◌, ◌⊎◌, refl, ap, ◌∙◌, subst, arith,
  count, count-append, count-find?, count-found, All, append-nil, length, ltb, str_eq, eq_iff,
  eq_refl, if◌then◌else◌, Bool-cases, Option-cases, inl, inr,
}
use activegraph_packs.Graph.{Graph}
use activegraph_packs.Attention.{
  AttentionObservation, InteractionBatch, AttentionItem, attention_observation, interaction_batch,
  importance_vector, source_trust_vector, other,
}
use activegraph_packs.Attention.Observations.{
  observations, observation_by_id, batch_by_id, AttentionError, Observed, answered, raised,
}
use activegraph_packs.Attention.Interaction.{
  BatchArgs, ids_of, batch_of, same_batch, prepare, add_observations, write_batch,
  record_interaction_batch, is_valid_batch,
}

-- How many observations have this id.
abbrev pub with_id : String → List (ℕ × AttentionItem) → ℕ
with_id t m = count (λ e. str_eq e.1.observation_id t) (observations m)

-- No id stands for two observations.
abbrev pub IsUniqueIds : List (ℕ × AttentionItem) → Type 0
IsUniqueIds m = (t : String) → with_id t m ≤ 1

pub observations-append :
    (m : List (ℕ × AttentionItem)) (k : ℕ) (o : AttentionItem)
    → observations (m ++ (k, o) ∷ []) ≡ observations m ++ observations ((k, o) ∷ [])
unfolding observations
observations-append [] k o = refl
observations-append ((j, attention_observation x) ∷ m) k o =
    ap (λ os. (j, x) ∷ os) (observations-append m k o)
observations-append ((j, interaction_batch x) ∷ m) k o = observations-append m k o
observations-append ((j, importance_vector x) ∷ m) k o = observations-append m k o
observations-append ((j, source_trust_vector x) ∷ m) k o = observations-append m k o
observations-append ((j, other) ∷ m) k o = observations-append m k o

pub Observed-cases :
    {A : Type 0} (x : Observed A)
    → ((e : AttentionError) × (x ≡ raised e)) ⊎ ((a : A) × (x ≡ answered a))
Observed-cases (raised e) = inl (e, refl)
Observed-cases (answered a) = inr (a, refl)

module _ {G : Type 0} (graph : Graph AttentionItem G) where
  -- Adding an observation, and adding a batch.
  with_id-observation :
      (t : String) (o : AttentionObservation) (g : G)
      → with_id t (graph.objects (graph.add_object g (attention_observation o)).1)
        ≡ with_id t (graph.objects g) + (if str_eq o.observation_id t then 1 else 0)
  unfolding observations
  with_id-observation t o g =
      let k = (graph.add_object g (attention_observation o)).0 in
      ap (with_id t) (graph.objects-add_object g (attention_observation o))
      ∙ ap (count (λ e. str_eq e.1.observation_id t))
          (observations-append (graph.objects g) k (attention_observation o))
      ∙ count-append (λ e. str_eq e.1.observation_id t) (observations (graph.objects g))
          ((k, o) ∷ [])
      ∙ omega arith

  pub with_id-batch :
      (t : String) (b : InteractionBatch) (g : G)
      → with_id t (graph.objects (graph.add_object g (interaction_batch b)).1)
        ≡ with_id t (graph.objects g)
  unfolding observations
  with_id-batch t b g =
      let k = (graph.add_object g (interaction_batch b)).0 in
      ap (with_id t) (graph.objects-add_object g (interaction_batch b))
      ∙ ap (count (λ e. str_eq e.1.observation_id t)) (
          observations-append (graph.objects g) k (interaction_batch b)
          ∙ append-nil (observations (graph.objects g)))

  -- A new observation whose id no observation has.
  pub IsUniqueIds-add :
      (o : AttentionObservation) (g : G)
      → IsUniqueIds (graph.objects g)
      → observation_by_id (graph.objects g) o.observation_id ≡ none
      → IsUniqueIds (graph.objects (graph.add_object g (attention_observation o)).1)
  unfolding observation_by_id
  IsUniqueIds-add o g unique n t =
      let added = with_id-observation t o g in
      let fresh =
        count-find? (λ e. str_eq e.1.observation_id o.observation_id)
          (observations (graph.objects g)) n in
      elim (Bool-cases (str_eq o.observation_id t)) [
        | inl e ↦
            let here : with_id t (graph.objects g) ≡ 0 =
              subst (λ x. with_id x (graph.objects g) ≡ 0) ((eq_iff o.observation_id t).0 e)
                fresh in
            rw added (ground (arith, e, here))
        | inr e ↦ rw added (ground (arith, e, unique t))
      ]

  -- The loop that adds a batch's observations: unique ids stay so, no observation goes away, and
  -- each of the batch is there.
  pub record Added (os : List AttentionObservation) (g g' : G) : Type 0 where
    pub unique : IsUniqueIds (graph.objects g')
    pub kept : (t : String) → with_id t (graph.objects g) ≤ with_id t (graph.objects g')
    pub there : All (λ t. with_id t (graph.objects g') ≡ 1) (ids_of os)

  pub add_observations-Added :
      (os : List AttentionObservation) (g : G)
      → IsUniqueIds (graph.objects g)
      → Added os g (add_observations graph os g).1
  unfolding add_observations observation_by_id
  add_observations-Added [] g unique = record {
    unique = unique;
    kept = λ t. omega arith;
    there = tt;
  }
  add_observations-Added (o ∷ os) g unique =
      let p : ℕ × AttentionObservation → Bool = λ e. str_eq e.1.observation_id o.observation_id in
      elim (Option-cases (observation_by_id (graph.objects g) o.observation_id)) [
        | inr (e, n) ↦
            let rest = add_observations-Added os g unique in
            let one = count-found p (observations (graph.objects g)) e n in
            let own : with_id o.observation_id (graph.objects (add_observations graph os g).1) ≡ 1 =
              omega (arith, one, rest.kept o.observation_id, rest.unique o.observation_id) in
            rw (add_observations, n)
              (record { unique = rest.unique; kept = rest.kept; there = (own, rest.there) })
        | inl n ↦
            let g1 = (graph.add_object g (attention_observation o)).1 in
            let rest = add_observations-Added os g1 (IsUniqueIds-add o g unique n) in
            let more : (t : String) → with_id t (graph.objects g) ≤ with_id t (graph.objects g1) =
              λ t. omega (arith, with_id-observation t o g) in
            let one : 1 ≤ with_id o.observation_id (graph.objects g1) =
              rw (with_id-observation o.observation_id o g, eq_refl o.observation_id)
                (omega arith) in
            let own : with_id o.observation_id (graph.objects (add_observations graph os g1).1)
                ≡ 1 =
              omega (arith, one, rest.kept o.observation_id, rest.unique o.observation_id) in
            rw (add_observations, n)
              (record {
                unique = rest.unique;
                kept = λ t. omega (arith, more t, rest.kept t);
                there = (own, rest.there);
              })
      ]

  pub IsUniqueIds-batch :
      (stable_id : String → ℕ → ℕ → String) (n : ℕ) (a : BatchArgs) (g : G)
      → IsUniqueIds (graph.objects g)
      → IsUniqueIds (graph.objects (record_interaction_batch graph stable_id n a g).1)
  unfolding record_interaction_batch write_batch
  IsUniqueIds-batch stable_id n a g unique =
      let found = batch_by_id (graph.objects g) a.batch_id in
      elim (Bool-cases (ltb n (length a.observations))) [
        | inl b ↦ rw b unique
        | inr b ↦ elim (Option-cases found) [
          | inr ((k, x), f) ↦ elim (Bool-cases (same_batch x a)) [
            | inl s ↦ rw (b, f, s) unique
            | inr s ↦ rw (b, f, s) unique
          ]
          | inl f ↦ elim (Observed-cases (prepare stable_id a (graph.objects g) 0 a.observations)) [
            | inl (x, s) ↦ rw (b, f, s) unique
            | inr (os, s) ↦
                let rest = add_observations-Added os g unique in
                let g1 = (add_observations graph os g).1 in
                elim (Bool-cases (is_valid_batch a)) [
                  | inl v ↦
                      rw (b, f, s, v) (λ t. rw (with_id-batch t (batch_of a os) g1) (rest.unique t))
                  | inr v ↦ rw (b, f, s, v) rest.unique
                ]
          ]
        ]
      ]
