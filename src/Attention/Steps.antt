-- ===== src/Attention/Steps.antt =====
-- The steps by which the graph of observations, batches and vectors changes.
use activegraph_packs.Base.{
  ℕ, String, Option, none, some, List, [], ◌∷◌, ◌≡◌, refl, subst, arith, length, ltb, Bool-cases,
  Option-cases, inl, inr,
}
use activegraph_packs.Graph.{Graph}
use activegraph_packs.Outcome.{OutcomeKind}
use activegraph_packs.Attention.{
  AttentionObservation, AttentionItem, attention_observation, interaction_batch, other,
}
use activegraph_packs.Attention.Observations.{
  observation_by_id, batch_by_id, observation_eq, is_valid, is_censored, ObservationRow,
  record_attention_observation, capture_observation, signal_observation,
  semantic_attention_signal_capture,
}
use activegraph_packs.Attention.Interaction.{
  BatchArgs, same_batch, batch_of, prepare, add_observations, write_batch, record_interaction_batch,
  is_valid_batch,
}
use activegraph_packs.Attention.Projectors.{
  TrustSource, TrustContext, trust_sources, importance_vector_projector, project_source,
  project_sources, source_trust_vector_projector,
}
use activegraph_packs.Attention.Recorded.{
  IsUniqueIds, IsUniqueIds-add, IsUniqueIds-batch, Observed-cases,
}
use activegraph_packs.Attention.Explained.{
  AllExplained, AllExplained-add, AllExplained-importance, AllExplained-trust,
}
use activegraph_packs.Attention.Vectors.{with_id-other, IsUniqueIds-importance, IsUniqueIds-source}

module _ {G : Type 0} (graph : Graph AttentionItem G) where
  -- Every vector is explained and no observation's id stands twice.
  pub record IsSound (g : G) : Type 0 where
    pub explained : AllExplained graph g
    pub unique : IsUniqueIds (graph.objects g)

  -- An observation or a batch takes nothing from the vectors.
  IsSound-observation :
      (o : AttentionObservation) (g : G)
      → IsSound g
      → observation_by_id (graph.objects g) o.observation_id ≡ none
      → IsSound (graph.add_object g (attention_observation o)).1
  IsSound-observation o g sound n = record {
    explained = AllExplained-add graph (attention_observation o) g tt sound.explained;
    unique = IsUniqueIds-add graph o g sound.unique n;
  }

  AllExplained-observations :
      (os : List AttentionObservation) (g : G)
      → AllExplained graph g
      → AllExplained graph (add_observations graph os g).1
  unfolding add_observations
  AllExplained-observations [] g a = a
  AllExplained-observations (o ∷ os) g a =
      let g1 = (graph.add_object g (attention_observation o)).1 in
      elim (Option-cases (observation_by_id (graph.objects g) o.observation_id)) [
        | inr (e, n) ↦ rw (add_observations, n) (AllExplained-observations os g a)
        | inl n ↦
            rw (add_observations, n)
              (AllExplained-observations os g1
                (AllExplained-add graph (attention_observation o) g tt a))
      ]

  IsSound-record :
      (o : AttentionObservation) (g : G)
      → IsSound g
      → IsSound (record_attention_observation graph o g).1
  unfolding record_attention_observation
  IsSound-record o g sound = elim (Bool-cases (is_censored o)) [
    | inl c ↦ rw c sound
    | inr c ↦ elim (Bool-cases (is_valid o)) [
      | inr v ↦ rw (c, v) sound
      | inl v ↦ elim (Option-cases (observation_by_id (graph.objects g) o.observation_id)) [
        | inl n ↦ rw (c, v, n) (IsSound-observation o g sound n)
        | inr ((k, x), n) ↦ elim (Bool-cases (observation_eq x o)) [
          | inl e ↦ rw (c, v, n, e) sound
          | inr e ↦ rw (c, v, n, e) sound
        ]
      ]
    ]
  ]

  AllExplained-batch :
      (stable_id : String → ℕ → ℕ → String) (n : ℕ) (a : BatchArgs) (g : G)
      → AllExplained graph g
      → AllExplained graph (record_interaction_batch graph stable_id n a g).1
  unfolding record_interaction_batch write_batch
  AllExplained-batch stable_id n a g all = elim (Bool-cases (ltb n (length a.observations))) [
    | inl b ↦ rw b all
    | inr b ↦ elim (Option-cases (batch_by_id (graph.objects g) a.batch_id)) [
      | inr ((k, x), f) ↦ elim (Bool-cases (same_batch x a)) [
        | inl s ↦ rw (b, f, s) all
        | inr s ↦ rw (b, f, s) all
      ]
      | inl f ↦ elim (Observed-cases (prepare stable_id a (graph.objects g) 0 a.observations)) [
        | inl (x, s) ↦ rw (b, f, s) all
        | inr (os, s) ↦
            let rest = AllExplained-observations os g all in
            elim (Bool-cases (is_valid_batch a)) [
              | inl v ↦
                  rw (b, f, s, v)
                    (AllExplained-add graph (interaction_batch (batch_of a os))
                      (add_observations graph os g).1 tt rest)
              | inr v ↦ rw (b, f, s, v) rest
            ]
      ]
    ]
  ]

  IsSound-batch :
      (stable_id : String → ℕ → ℕ → String) (n : ℕ) (a : BatchArgs) (g : G)
      → IsSound g
      → IsSound (record_interaction_batch graph stable_id n a g).1
  IsSound-batch stable_id n a g sound = record {
    explained = AllExplained-batch stable_id n a g sound.explained;
    unique = IsUniqueIds-batch graph stable_id n a g sound.unique;
  }

module _ {G : Type 0} (graph : Graph AttentionItem G) (reads : G → List (ℕ × AttentionItem)) where
  IsSound-capture_observation :
      (o : Option AttentionObservation) (g : G)
      → ((x : G) → reads x ≡ graph.objects x)
      → IsSound graph g
      → IsSound graph (capture_observation graph reads o g).1
  unfolding capture_observation
  IsSound-capture_observation none g live sound = sound
  IsSound-capture_observation (some o) g live sound = elim (Bool-cases (is_censored o)) [
    | inl c ↦ rw c sound
    | inr c ↦ elim (Option-cases (observation_by_id (reads g) o.observation_id)) [
      | inl n ↦
          let absent : observation_by_id (graph.objects g) o.observation_id ≡ none =
            subst (λ m. observation_by_id m o.observation_id ≡ none) (live g) n in
          rw (c, n) (IsSound-observation graph o g sound absent)
      | inr ((k, x), n) ↦ elim (Bool-cases (observation_eq x o)) [
        | inl e ↦ rw (c, n, e) sound
        | inr e ↦ rw (c, n, e) sound
      ]
    ]
  ]

  IsSound-capture :
      (rows : List ObservationRow) (g : G)
      → ((x : G) → reads x ≡ graph.objects x)
      → IsSound graph g
      → IsSound graph (semantic_attention_signal_capture graph reads rows g).1
  unfolding semantic_attention_signal_capture
  IsSound-capture [] g live sound = sound
  IsSound-capture (r ∷ rows) g live sound =
      let run = capture_observation graph reads (signal_observation r) g in
      let next = IsSound-capture_observation (signal_observation r) g live sound in
      elim (Option-cases run.0) [
        | inl n ↦ rw (semantic_attention_signal_capture, n) (IsSound-capture rows run.1 live next)
        | inr (x, n) ↦ rw (semantic_attention_signal_capture, n) next
      ]

  IsUniqueIds-sources :
      (kind : OutcomeKind) (id : String) (ss : List TrustSource) (g g' : G)
      → ((x : G) → reads x ≡ graph.objects x)
      → IsUniqueIds (graph.objects g)
      → project_sources graph reads kind id ss g ≡ some g'
      → IsUniqueIds (graph.objects g')
  unfolding project_sources
  IsUniqueIds-sources kind id [] g g' live unique =
      λ h. subst (λ (x : G). IsUniqueIds (graph.objects x)) (ground (arith, h)) unique
  IsUniqueIds-sources kind id (s ∷ ss) g g' live unique =
      elim (Option-cases (project_source graph kind id s (reads g) g)) [
        | inl n ↦ rw (project_sources, n) (λ h. ground (arith, h))
        | inr (g1, n) ↦
            let first : project_source graph kind id s (graph.objects g) g ≡ some g1 =
              subst (λ m. project_source graph kind id s m g ≡ some g1) (live g) n in
            rw (project_sources, n)
              (IsUniqueIds-sources kind id ss g1 g' live
                (IsUniqueIds-source graph kind id s g g1 unique first))
      ]

  pub data AttentionStep (g : G) : G → Type 0 where
    record_one :
        (o : AttentionObservation) → AttentionStep g (record_attention_observation graph o g).1
    record_batch :
        (stable_id : String → ℕ → ℕ → String) (n : ℕ) (a : BatchArgs)
        → AttentionStep g (record_interaction_batch graph stable_id n a g).1
    capture :
        (rows : List ObservationRow)
        → AttentionStep g (semantic_attention_signal_capture graph reads rows g).1
    project_importance :
        (o : AttentionObservation) (g' : G)
        → importance_vector_projector graph o (graph.objects g) g ≡ some g'
        → AttentionStep g g'
    project_trust :
        (kind : OutcomeKind) (id : String) (c : TrustContext) (g' : G)
        → source_trust_vector_projector graph reads kind id c g ≡ some g'
        → AttentionStep g g'
    -- another pack adds an object
    add_other : AttentionStep g (graph.add_object g other).1

  pub data AttentionReach (g : G) : G → Type 0 where
    start : AttentionReach g g
    then_step : {h k : G} → AttentionReach g h → AttentionStep h k → AttentionReach g k

  IsSound-step :
      {g h : G}
      → ((x : G) → reads x ≡ graph.objects x)
      → IsSound graph g
      → AttentionStep g h
      → IsSound graph h
  unfolding source_trust_vector_projector
  IsSound-step live sound (record_one o) = IsSound-record graph o _ sound
  IsSound-step live sound (record_batch stable_id n a) = IsSound-batch graph stable_id n a _ sound
  IsSound-step live sound (capture rows) = IsSound-capture rows _ live sound
  IsSound-step live sound (project_importance o g' h) = record {
    explained = AllExplained-importance graph o _ g' sound.explained h;
    unique = IsUniqueIds-importance graph o _ g' sound.unique h;
  }
  IsSound-step live sound (project_trust kind id c g' h) = record {
    explained = AllExplained-trust graph reads kind id c _ g' live sound.explained h;
    unique = IsUniqueIds-sources kind id (trust_sources c) _ g' live sound.unique h;
  }
  IsSound-step live sound add_other = record {
    explained = AllExplained-add graph other _ tt sound.explained;
    unique = λ t. rw (with_id-other graph t other _ refl) (sound.unique t);
  }

  -- Where the behaviors' reader shows the graph: from a graph that is sound, whatever sequence of
  -- observations, batches, signals and projections follows, every vector's features sum to its two
  -- sums, no observation or outcome counts twice in a vector, its score, confidence and verdict are
  -- those computed from the sums, and no observation's id stands twice.
  pub vectors_explained :
      (g h : G)
      → ((x : G) → reads x ≡ graph.objects x)
      → IsSound graph g
      → AttentionReach g h
      → IsSound graph h
  vectors_explained g h live sound start = sound
  vectors_explained g h live sound (then_step r s) =
      IsSound-step live (vectors_explained g _ live sound r) s
