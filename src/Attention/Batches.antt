-- ===== src/Attention/Batches.antt =====
-- What a batch of observations leaves: record_interaction_batch_fn.
use activegraph_packs.Base.{
  ℕ, suc, ◌≤◌, String, Bool, true, false, some, List, [], ◌∷◌, ◌≡◌, refl, ap, ◌∙◌, subst, arith,
  All, All-map, length, ltb, lookup, lookup-append, ==_refl, Bool-cases, Option-cases, inl, inr,
}
use activegraph_packs.Graph.{Graph}
use activegraph_packs.Attention.{
  AttentionObservation, InteractionBatch, AttentionItem, interaction_batch, text_or,
}
use activegraph_packs.Attention.Observations.{
  is_censored, observation_of, batch_by_id, Observed, answered, raised, batch_refused,
  ObservationRow,
}
use activegraph_packs.Attention.Interaction.{
  collides, BatchArgs, BatchAnswer, ids_of, batch_of, same_batch, prepare, add_observations,
  write_batch, record_interaction_batch, is_valid_batch,
}
use activegraph_packs.Attention.Recorded.{
  with_id, IsUniqueIds, Observed-cases, add_observations-Added, with_id-batch,
}

same_prepared :
    (a b : List AttentionObservation)
    → ◌≡◌ {A = Observed (List AttentionObservation)} (answered a) (answered b)
    → a ≡ b
same_prepared a b h = ground (arith, h)

-- Each row has one observation.
length-prepare :
    (stable_id : String → ℕ → ℕ → String) (a : BatchArgs) (m : List (ℕ × AttentionItem)) (i : ℕ)
    (rows : List ObservationRow) (os : List AttentionObservation)
    → prepare stable_id a m i rows ≡ answered os
    → length (ids_of os) ≡ length rows
unfolding prepare
length-prepare stable_id a m i [] os =
    λ h. subst (λ x. length (ids_of x) ≡ 0) (same_prepared [] os h) refl
length-prepare stable_id a m i (r ∷ rows) os =
    let id = text_or r.observation_id (stable_id a.session_id a.batch_sequence i) in
    elim (Option-cases (observation_of r id (some a.session_id) "client")) [
      | inl n ↦ rw (prepare, n) (λ h. ground (arith, h))
      | inr (o, n) ↦ elim (Bool-cases (is_censored o)) [
        | inl c ↦ rw (prepare, n, c) (λ h. ground (arith, h))
        | inr c ↦ elim (Bool-cases (collides m o)) [
          | inl d ↦ rw (prepare, n, c, d) (λ h. ground (arith, h))
          | inr d ↦ elim (Observed-cases (prepare stable_id a m (suc i) rows)) [
            | inl (x, e) ↦ rw (prepare, n, c, d, e) (λ h. ground (arith, h))
            | inr (ps, e) ↦
                let rest = length-prepare stable_id a m (suc i) rows ps e in
                rw (prepare, n, c, d, e)
                  (λ h.
                    subst (λ x. length (ids_of x) ≡ suc (length rows)) (same_prepared (o ∷ ps) os h)
                      (ap suc rest))
          ]
        ]
      ]
    ]

-- The batch that an answer names.
abbrev id_answered : Observed BatchAnswer → ℕ
id_answered (answered r) = r.batch_id
id_answered (raised x) = 0

-- If something is written: the batch is recorded, or its object is refused after the observations.
abbrev pub writes : Observed BatchAnswer → Bool
writes (answered r) = r.created
writes (raised batch_refused) = true
writes (raised _) = false

module _ {G : Type 0} (graph : Graph AttentionItem G) where
  -- A batch that is refused, for its size, a row or an id that is taken, or that was recorded
  -- before, leaves the graph alone: the rows are checked before the first is written. Only a refusal
  -- of the batch object itself, for an empty id of the batch, session or client, comes later.
  pub batch_atomic :
      (stable_id : String → ℕ → ℕ → String) (n : ℕ) (a : BatchArgs) (g : G)
      → writes (record_interaction_batch graph stable_id n a g).0 ≡ false
      → (record_interaction_batch graph stable_id n a g).1 ≡ g
  unfolding record_interaction_batch write_batch
  batch_atomic stable_id n a g = elim (Bool-cases (ltb n (length a.observations))) [
    | inl b ↦ rw b (λ h. refl)
    | inr b ↦ elim (Option-cases (batch_by_id (graph.objects g) a.batch_id)) [
      | inr ((k, x), f) ↦ elim (Bool-cases (same_batch x a)) [
        | inl s ↦ rw (b, f, s) (λ h. refl)
        | inr s ↦ rw (b, f, s) (λ h. refl)
      ]
      | inl f ↦ elim (Observed-cases (prepare stable_id a (graph.objects g) 0 a.observations)) [
        | inl (x, s) ↦ rw (b, f, s) (λ h. refl)
        | inr (os, s) ↦ elim (Bool-cases (is_valid_batch a)) [
          | inl v ↦ rw (b, f, s, v) (λ h. ground (arith, h))
          | inr v ↦ rw (b, f, s, v) (λ h. ground (arith, h))
        ]
      ]
    ]
  ]

  -- What a recorded batch says, in the graph after it.
  pub record Kept (a : BatchArgs) (n k : ℕ) (g' : G) : Type 0 where
    pub batch : InteractionBatch
    pub there : graph.get_object g' k ≡ some (interaction_batch batch)
    pub same_id : batch.batch_id ≡ a.batch_id
    pub each_row : length batch.observation_ids ≡ length a.observations
    pub bounded : length batch.observation_ids ≤ n
    pub once : All (λ t. with_id t (graph.objects g') ≡ 1) batch.observation_ids

  Kept-write :
      (a : BatchArgs) (n : ℕ) (os : List AttentionObservation) (g : G)
      → IsUniqueIds (graph.objects g)
      → length (ids_of os) ≡ length a.observations
      → length a.observations ≤ n
      → is_valid_batch a ≡ true
      → Kept a n (id_answered (write_batch graph a os g).0) (write_batch graph a os g).1
  unfolding write_batch
  Kept-write a n os g unique same small valid =
      let rest = add_observations-Added graph os g unique in
      let g1 = (add_observations graph os g).1 in
      let o = interaction_batch (batch_of a os) in
      let (k, g2) = graph.add_object g1 o in
      rw (write_batch, valid)
        record {
          batch = batch_of a os;
          there =
              graph.get_object-objects g2 k
              ∙ ap (lookup k) (graph.objects-add_object g1 o)
              ∙ lookup-append k (graph.objects g1) ((k, o) ∷ [])
              ∙ rw (graph.add_object_fresh g1 o, ==_refl k) refl;
          same_id = refl;
          each_row = same;
          bounded = omega (arith, same, small);
          once =
              All-map (λ t h. with_id-batch graph t (batch_of a os) g1 ∙ h) (ids_of os) rest.there;
        }

  -- From a graph in which no observation's id stands twice: where a batch is recorded, its answer
  -- names an object that is the batch, which lists one id for each row of the arguments, at most as
  -- many as allowed, and each of the ids names exactly one observation of the graph.
  pub batch_recorded :
      (stable_id : String → ℕ → ℕ → String) (n : ℕ) (a : BatchArgs) (r : BatchAnswer) (g g' : G)
      → IsUniqueIds (graph.objects g)
      → record_interaction_batch graph stable_id n a g ≡ (answered r, g')
      → r.created ≡ true
      → Kept a n r.batch_id g'
  unfolding record_interaction_batch write_batch
  batch_recorded stable_id n a r g g' unique = elim (Bool-cases (ltb n (length a.observations))) [
    | inl b ↦ rw b (λ h c. ground (arith, h))
    | inr b ↦ elim (Option-cases (batch_by_id (graph.objects g) a.batch_id)) [
      | inr ((k, x), f) ↦ elim (Bool-cases (same_batch x a)) [
        | inl s ↦ rw (b, f, s) (λ h c. ground (arith, h, c))
        | inr s ↦ rw (b, f, s) (λ h c. ground (arith, h))
      ]
      | inl f ↦ elim (Observed-cases (prepare stable_id a (graph.objects g) 0 a.observations)) [
        | inl (x, s) ↦ rw (b, f, s) (λ h c. ground (arith, h))
        | inr (os, s) ↦
            let rows = length-prepare stable_id a (graph.objects g) 0 a.observations os s in
            let small : length a.observations ≤ n = ground (arith, b) in
            elim (Bool-cases (is_valid_batch a)) [
              | inl v ↦
                  rw (b, f, s)
                    (λ h c.
                      subst (λ (x : Observed BatchAnswer × G). Kept a n (id_answered x.0) x.1) h
                        (Kept-write a n os g unique rows small v))
              | inr v ↦ rw (b, f, s, write_batch, v) (λ h c. ground (arith, h))
            ]
      ]
    ]
  ]
