-- ===== src/Attention/Examples.antt =====
-- Observations, batches, vectors and rankings at concrete inputs.
use activegraph_packs.Base.{
  ℕ, ◌≤◌, String, true, false, none, some, List, [], ◌∷◌, ◌≡◌, refl, inl, arith, length,
}
use activegraph_packs.Graph.{Graph}
use activegraph_packs.Graph.Listed.{Listed, listed}
use activegraph_packs.Attention.{
  completed, replied, llm_judgment, AttentionObservation, ImportanceVector, AttentionItem,
  attention_observation, importance_vector, importance_weight, importance_score, trust_score,
  add_feature, outcome_weight,
}
use activegraph_packs.Attention.Observations.{
  observations, batches, observation_by_id, batch_by_id, observation_eq, is_valid, ObservationRow,
  observation_of, Observed, answered, raised, batch_refused, record_attention_observation,
}
use activegraph_packs.Attention.Interaction.{
  BatchArgs, BatchAnswer, collides, prepare, add_observations, write_batch,
  record_interaction_batch, is_valid_batch,
}
use activegraph_packs.Attention.Projectors.{
  importance_vectors, trust_vectors, contribution_of, Evidence, add_evidence, vector_of, observed,
  named_sources, trust_sources, TrustContext, trust_of, store_vector, importance_vector_projector,
  project_source, project_sources, source_trust_vector_projector,
}
use activegraph_packs.Attention.Ranking.{
  RankContext, RankAnswer, get_importance, distinct_refs, rank_importance,
}
use activegraph_packs.Attention.Scores.{scores_monotone}
use activegraph_packs.Attention.Influence.{assertion_ignored}
use activegraph_packs.Attention.Recorded.{IsUniqueIds}
use activegraph_packs.Attention.Batches.{Kept, batch_atomic, batch_recorded}
use activegraph_packs.Attention.Ranked.{Selected, asked, rank_importance_selects}
use activegraph_packs.Attention.Steps.{
  IsSound, AttentionReach, start, then_step, record_one, project_importance, vectors_explained,
}

abbrev store : Graph AttentionItem (Listed AttentionItem)
store = listed AttentionItem

program : Unit {0}
unfolding importance_weight importance_score trust_score add_feature outcome_weight observations
    batches observation_by_id batch_by_id observation_eq is_valid observation_of collides prepare
    is_valid_batch add_observations write_batch record_interaction_batch
    record_attention_observation importance_vectors trust_vectors contribution_of add_evidence
    vector_of observed named_sources trust_sources trust_of store_vector importance_vector_projector
    project_source project_sources source_trust_vector_projector get_importance distinct_refs
    rank_importance
program = tt

abbrev done : AttentionObservation
done = record {
  observation_id = "obs_1";
  subject_ref = "task_1";
  subject_kind = "task";
  signal_type = completed;
  strength_milli = 1000;
  context_key = "global";
  objective_ref = none;
  horizon_key = "current";
  session_id = none;
  opportunity_id = none;
  active_ms = none;
  occurred_at = none;
  source = "client";
  explicit = false;
  evidence_refs = [];
  metadata = "";
}

abbrev trusted : TrustContext
trusted = record {
  trust_sources = none;
  source_ref = some "mail";
  source_surface_id = none;
  source_kind = none;
  domain = none;
  source_category = none;
  query_scope = none;
}

abbrev evidence : Evidence
evidence = record {
  support = 700;
  oppose = 0;
  features = ("outcome", 700) ∷ [];
  ids = "obs_1" ∷ [];
}

abbrev vector : ImportanceVector
vector = vector_of done evidence

abbrev observed_graph : Listed AttentionItem
observed_graph = (1, attention_observation done) ∷ []

abbrev scored_graph : Listed AttentionItem
scored_graph = (1, attention_observation done) ∷ (2, importance_vector vector) ∷ []

projected_once :
    importance_vector_projector store done observed_graph observed_graph ≡ some scored_graph
unfolding program
projected_once = refl

-- The reader shows the graph.
abbrev live : Listed AttentionItem → List (ℕ × AttentionItem)
live m = m

empty-IsUniqueIds : IsUniqueIds []
unfolding program
empty-IsUniqueIds t = omega arith

empty-IsSound : IsSound store []
empty-IsSound = record { explained = tt; unique = empty-IsUniqueIds }

recorded-reach : AttentionReach store live [] observed_graph
unfolding program
recorded-reach = then_step start (record_one done)

scored-reach : AttentionReach store live [] scored_graph
scored-reach = then_step recorded-reach (project_importance done scored_graph projected_once)

vectors_explained_example : IsSound store scored_graph
vectors_explained_example =
    vectors_explained store live [] scored_graph (λ m. refl) empty-IsSound scored-reach

abbrev row : ObservationRow
row = record {
  observation_id = some "obs_2";
  subject_ref = some "task_1";
  signal_type = some replied;
  subject_kind = none;
  strength_milli = none;
  context_key = none;
  objective_ref = none;
  horizon_key = none;
  opportunity_id = none;
  active_ms = none;
  occurred_at = none;
  source = none;
  explicit = false;
  evidence_refs = [];
  metadata = "";
}

abbrev batch : List ObservationRow → BatchArgs
batch rows = record {
  batch_id = "batch_1";
  session_id = "session_1";
  batch_sequence = 0;
  client_id = "client";
  observations = rows;
  client_version = "";
  started_at = none;
  ended_at = none;
  active_duration_ms = 0;
  raw_event_count = 2;
  flush_reason = "manual";
  metadata = "";
}

abbrev digest : String → ℕ → ℕ → String
digest session sequence index = "digest"

abbrev batch_answer : BatchAnswer
batch_answer = record { created = true; batch_id = 2; observations = 1 ∷ [] }

abbrev batch_run : Observed BatchAnswer × Listed AttentionItem
batch_run = record_interaction_batch store digest 100 (batch (row ∷ [])) []

batch_answered : batch_run ≡ (answered batch_answer, batch_run.1)
unfolding program
batch_answered = refl

batch_recorded_example : Kept store (batch (row ∷ [])) 100 2 batch_run.1
batch_recorded_example =
    batch_recorded store digest 100 (batch (row ∷ [])) batch_answer [] batch_run.1 empty-IsUniqueIds
      batch_answered refl

-- The second row has no subject: the first is not written either.
abbrev broken : BatchArgs
broken = batch (row ∷ record row { observation_id = some "obs_3"; subject_ref = none } ∷ [])

batch_atomic_example : (record_interaction_batch store digest 100 broken []).1 ≡ []
unfolding program
batch_atomic_example = batch_atomic store digest 100 broken [] refl

-- Two rows with one id and different data: the second is dropped, and the batch lists both.
abbrev twice : BatchArgs
twice = batch (row ∷ record row { subject_ref = some "task_2" } ∷ [])

second_row_dropped : (record_interaction_batch store digest 100 twice []).0 ≡ answered batch_answer
unfolding program
second_row_dropped = refl

-- A batch without a session, the default of the tool: its observation is written, then it is refused.
abbrev no_session : BatchArgs
no_session = record (batch (row ∷ [])) { session_id = "" }

row_kept_without_batch :
    ((record_interaction_batch store digest 100 no_session []).0 ≡ raised batch_refused)
    × (length (observations (record_interaction_batch store digest 100 no_session []).1) ≡ 1)
    × (length (batches (record_interaction_batch store digest 100 no_session []).1) ≡ 0)
unfolding program
row_kept_without_batch = (refl, refl, refl)

scores_monotone_example :
    ((importance_score 700 300).0 ≤ (importance_score 900 100).0)
    × ((trust_score 700 300).0 ≤ (trust_score 900 100).0)
    × ((importance_score 900 100).0 ≤ 1000)
    × ((importance_score 900 100).1 ≤ 1000)
    × ((trust_score 900 100).0 ≤ 1000)
    × ((trust_score 900 100).1 ≤ 1000)
scores_monotone_example = scores_monotone 700 900 300 100 (omega arith) (omega arith)

-- A model's judgment on the same task.
abbrev judged : AttentionObservation
judged = record done { observation_id = "obs_9"; signal_type = llm_judgment }

assertion_ignored_example :
    ((observed judged evidence).support ≡ 700) × ((observed judged evidence).oppose ≡ 0)
assertion_ignored_example = assertion_ignored judged evidence (inl refl)

abbrev context : RankContext
context = record { context_key = "global"; objective_ref = none; horizon_key = "current" }

abbrev by_name : RankContext → String → String
by_name c ref = ref

abbrev rank_answer : RankAnswer
rank_answer = record {
  importance = get_importance scored_graph context "task_1" ∷ [];
  exploration = get_importance scored_graph context "task_2" ∷ [];
  considered = 3;
}

ranked_run :
    rank_importance by_name scored_graph
      ("task_3" ∷ "task_1" ∷ "task_2" ∷ "task_1" ∷ [])
      context
      2
      1
    ≡ some rank_answer
unfolding program
ranked_run = refl

rank_importance_selects_example :
    Selected
      (asked scored_graph context ("task_3" ∷ "task_1" ∷ "task_2" ∷ "task_1" ∷ []))
      2
      1
      rank_answer
rank_importance_selects_example =
    rank_importance_selects by_name scored_graph ("task_3" ∷ "task_1" ∷ "task_2" ∷ "task_1" ∷ [])
      context 2 1 rank_answer ranked_run
