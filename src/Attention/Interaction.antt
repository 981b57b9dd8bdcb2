-- ===== src/Attention/Interaction.antt =====
-- record_interaction_batch_fn of packs/attention/tools.py.
use activegraph_packs.Base.{
  ℕ, suc, String, Bool, true, false, ◌&&◌, not, Option, none, some, List, [], ◌∷◌, length, ltb,
  ◌==◌, str_eq, if◌then◌else◌,
}
use activegraph_packs.Graph.{Graph}
use activegraph_packs.Attention.{
  AttentionObservation, InteractionBatch, AttentionItem, attention_observation, interaction_batch,
  text_or,
}
use activegraph_packs.Attention.Observations.{
  observation_by_id, batch_by_id, observation_eq, is_censored, Observed, ObservationRow,
  observation_of, answered, raised, id_collision, too_many, batch_mismatch, needs_opportunity,
  not_valid, batch_refused,
}

pub record BatchArgs : Type 0 where
  pub batch_id : String
  pub session_id : String
  pub batch_sequence : ℕ
  pub client_id : String
  pub observations : List ObservationRow
  pub client_version : String
  pub started_at : Option String
  pub ended_at : Option String
  pub active_duration_ms : ℕ
  pub raw_event_count : ℕ
  pub flush_reason : String
  pub metadata : String

pub record BatchAnswer : Type 0 where
  pub created : Bool
  pub batch_id : ℕ
  pub observations : List ℕ

abbrev pub ids_of : List AttentionObservation → List String
ids_of [] = []
ids_of (o ∷ os) = o.observation_id ∷ ids_of os

abbrev pub batch_of : BatchArgs → List AttentionObservation → InteractionBatch
batch_of a prepared = record {
  batch_id = a.batch_id;
  session_id = a.session_id;
  batch_sequence = a.batch_sequence;
  client_id = a.client_id;
  client_version = a.client_version;
  started_at = a.started_at;
  ended_at = a.ended_at;
  active_duration_ms = a.active_duration_ms;
  observation_ids = ids_of prepared;
  raw_event_count = a.raw_event_count;
  flush_reason = a.flush_reason;
  metadata = a.metadata;
}

-- The validation of the type InteractionBatch, which the runtime makes when the batch is added.
unfoldable pub is_valid_batch : BatchArgs → Bool
is_valid_batch a =
    not (str_eq a.batch_id "") && (not (str_eq a.session_id "") && not (str_eq a.client_id ""))

-- The batch that stands belongs to the same session, sequence number and client.
abbrev pub same_batch : InteractionBatch → BatchArgs → Bool
same_batch b a =
    str_eq b.session_id a.session_id
    && (b.batch_sequence == a.batch_sequence && str_eq b.client_id a.client_id)

-- An observation's id is taken by other data.
unfoldable pub collides : List (ℕ × AttentionItem) → AttentionObservation → Bool
collides m o = elim (observation_by_id m o.observation_id) [
  | none ↦ false
  | some (k, x) ↦ not (observation_eq x o)
]

-- The validation of the rows, before anything is written. `stable_id` is the digest of the session,
-- the batch's sequence number and the row's index.
unfoldable pub prepare :
    (String → ℕ → ℕ → String)
    → BatchArgs
    → List (ℕ × AttentionItem)
    → ℕ
    → List ObservationRow
    → Observed (List AttentionObservation)
prepare stable_id a m index [] = answered []
prepare stable_id a m index (r ∷ rows) =
    let rest = prepare stable_id a m (suc index) rows in
    let id = text_or r.observation_id (stable_id a.session_id a.batch_sequence index) in
    elim (observation_of r id (some a.session_id) "client") [
      | none ↦ raised not_valid
      | some o ↦
          if is_censored o
          then raised needs_opportunity
          else if collides m o
          then raised id_collision
          else elim rest [ raised x ↦ raised x | answered os ↦ answered (o ∷ os) ]
    ]

module _ {G : Type 0} (graph : Graph AttentionItem G) where
  -- The observations of a batch that are not there yet.
  unfoldable pub add_observations : List AttentionObservation → G → List ℕ × G
  add_observations [] g = ([], g)
  add_observations (o ∷ os) g = elim (observation_by_id (graph.objects g) o.observation_id) [
    | some e ↦ add_observations os g
    | none ↦
        let (k, g1) = graph.add_object g (attention_observation o) in
        let (ks, g2) = add_observations os g1 in (k ∷ ks, g2)
  ]

  -- The observations are written first: a batch object that is refused leaves them.
  unfoldable pub write_batch : BatchArgs → List AttentionObservation → G → Observed BatchAnswer × G
  write_batch a prepared g =
      let (ks, g1) = add_observations prepared g in
      let (k, g2) = graph.add_object g1 (interaction_batch (batch_of a prepared)) in
      if is_valid_batch a
      then (answered record { created = true; batch_id = k; observations = ks }, g2)
      else (raised batch_refused, g1)

  -- record_interaction_batch_fn, where a batch may have at most so many observations.
  unfoldable pub record_interaction_batch :
      (String → ℕ → ℕ → String) → ℕ → BatchArgs → G → Observed BatchAnswer × G
  record_interaction_batch stable_id max_observations a g =
      if ltb max_observations (length a.observations)
      then (raised too_many, g)
      else elim (batch_by_id (graph.objects g) a.batch_id) [
        | some (k, b) ↦
            if same_batch b a
            then (answered record { created = false; batch_id = k; observations = [] }, g)
            else (raised batch_mismatch, g)
        | none ↦ elim (prepare stable_id a (graph.objects g) 0 a.observations) [
          | raised x ↦ (raised x, g)
          | answered prepared ↦ write_batch a prepared g
        ]
      ]
