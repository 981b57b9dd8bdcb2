-- ===== src/Attention.antt =====
-- The attention pack: packs/attention (object_types.py, settings.py, tools.py, behaviors.py). This
-- file has the records and the scores; the operations are in the children. A number in thousandths is
-- a number. A vector key is the parts that its digest joins, and the metadata of an observation the
-- text of their canonical form. Fields that are constants (the policy's id and version, the privacy
-- mode, the vectors' metadata) are left out.
pub mod Observations
pub mod Interaction
pub mod Projectors
pub mod Scores
pub mod Explained
pub mod Recorded
pub mod Batches
pub mod Vectors
pub mod Steps
pub mod Influence
pub mod Ranked
mod Examples
pub mod Ranking
use activegraph_packs.Base.{
  ℕ, ◌+◌, ◌*◌, ◌/◌, String, Bool, true, false, ◌&&◌, not, Option, none, some, List, [], ◌∷◌, leb,
  ◌==◌, str_eq, if◌then◌else◌,
}
use activegraph_packs.Outcome.{
  OutcomeKind, terminal, maintenance, helped, hurt, neutral, contradicted, stale, superseded,
}

pub data SignalType : Type 0 where
  impression opened active_dwell revisited created edited replied completed : SignalType
  dismissed archived explicit_important explicit_not_important : SignalType
  nonresponse_window llm_judgment : SignalType

pub record AttentionObservation : Type 0 where
  pub observation_id : String
  pub subject_ref : String
  pub subject_kind : String
  pub signal_type : SignalType
  pub strength_milli : ℕ
  pub context_key : String
  pub objective_ref : Option String
  pub horizon_key : String
  pub session_id : Option String
  pub opportunity_id : Option String
  pub active_ms : Option ℕ
  pub occurred_at : Option String
  pub source : String
  pub explicit : Bool
  pub evidence_refs : List String
  pub metadata : String

pub record InteractionBatch : Type 0 where
  pub batch_id : String
  pub session_id : String
  pub batch_sequence : ℕ
  pub client_id : String
  pub client_version : String
  pub started_at : Option String
  pub ended_at : Option String
  pub active_duration_ms : ℕ
  pub observation_ids : List String
  pub raw_event_count : ℕ
  pub flush_reason : String
  pub metadata : String

pub data PriorityBand : Type 0 where
  unranked low medium high : PriorityBand

pub record VectorKey : Type 0 where
  pub subject_ref : String
  pub context_key : String
  pub objective_ref : String
  pub horizon_key : String

pub record ImportanceVector : Type 0 where
  pub vector_key : VectorKey
  pub subject_ref : String
  pub subject_kind : String
  pub context_key : String
  pub objective_ref : Option String
  pub horizon_key : String
  pub score_milli : ℕ
  pub confidence_milli : ℕ
  pub priority_band : PriorityBand
  pub support_milli : ℕ
  pub oppose_milli : ℕ
  pub features : List (String × ℕ)
  pub observation_ids : List String
  pub latest_observation_id : String

pub data TrustVerdict : Type 0 where
  unproven weak supported harmful : TrustVerdict

pub record TrustKey : Type 0 where
  pub source_ref : String
  pub domain : String
  pub query_scope : String

pub record SourceTrustVector : Type 0 where
  pub vector_key : TrustKey
  pub source_kind : String
  pub score_milli : ℕ
  pub confidence_milli : ℕ
  pub verdict : TrustVerdict
  pub support_milli : ℕ
  pub challenge_milli : ℕ
  pub features : List (String × ℕ)
  pub outcome_event_ids : List String
  pub latest_outcome_event_id : String

pub data AttentionItem : Type 0 where
  attention_observation : AttentionObservation → AttentionItem
  interaction_batch : InteractionBatch → AttentionItem
  importance_vector : ImportanceVector → AttentionItem
  source_trust_vector : SourceTrustVector → AttentionItem
  other : AttentionItem

-- A weight with its sign; 0 is `plus 0`.
pub data Weight : Type 0 where
  plus minus : ℕ → Weight

-- _IMPORTANCE_WEIGHTS
unfoldable pub importance_weight : SignalType → String × Weight
importance_weight impression = ("opportunity", plus 0)
importance_weight opened = ("engagement", plus 120)
importance_weight active_dwell = ("engagement", plus 300)
importance_weight revisited = ("recurrence", plus 220)
importance_weight created = ("outcome", plus 350)
importance_weight edited = ("outcome", plus 400)
importance_weight replied = ("outcome", plus 650)
importance_weight completed = ("outcome", plus 700)
importance_weight dismissed = ("negative", minus 700)
importance_weight archived = ("negative", minus 250)
importance_weight explicit_important = ("explicit", plus 1000)
importance_weight explicit_not_important = ("explicit", minus 1000)
importance_weight nonresponse_window = ("negative", minus 180)
importance_weight llm_judgment = ("model_only", plus 0)

-- _OUTCOME_WEIGHTS
unfoldable pub outcome_weight : OutcomeKind → String × Weight
outcome_weight (terminal helped) = ("helped", plus 1000)
outcome_weight (terminal hurt) = ("hurt", minus 1000)
outcome_weight (maintenance contradicted) = ("contradicted", minus 1000)
outcome_weight (maintenance stale) = ("stale", minus 600)
outcome_weight (terminal neutral) = ("neutral", plus 0)
outcome_weight (maintenance superseded) = ("superseded", plus 0)

-- `min(1_000, n)`
abbrev pub at_most_1000 : ℕ → ℕ
at_most_1000 n = if leb n 1000 then n else 1000

-- The expected value of the two sums beside the prior of 1000 each.
abbrev pub beta_score : ℕ → ℕ → ℕ
beta_score support oppose = (1000 + support) * 1000 / (2000 + (support + oppose))

abbrev pub band_of : ℕ → ℕ → PriorityBand
band_of effective score =
    if effective == 0
    then unranked
    else if leb 650 score
    then high
    else if leb score 350
    then low
    else medium

-- _importance_score
unfoldable pub importance_score : ℕ → ℕ → ℕ × ℕ × PriorityBand
importance_score support oppose =
    let effective = support + oppose in
    let score = beta_score support oppose in
    (score, at_most_1000 (effective * 1000 / 4000), band_of effective score)

abbrev pub verdict_of : ℕ → ℕ → TrustVerdict
verdict_of effective score =
    if effective == 0
    then unproven
    else if leb 650 score
    then supported
    else if leb score 350
    then harmful
    else weak

-- _trust_score
unfoldable pub trust_score : ℕ → ℕ → ℕ × ℕ × TrustVerdict
trust_score support challenge =
    let effective = support + challenge in
    let score = beta_score support challenge in
    (score, at_most_1000 (effective * 1000 / 3000), verdict_of effective score)

-- `features[name] = int(features.get(name, 0)) + n`
unfoldable pub add_feature : String → ℕ → List (String × ℕ) → List (String × ℕ)
add_feature name n [] = (name, n) ∷ []
add_feature name n ((f, k) ∷ fs) =
    let rest = add_feature name n fs in if str_eq f name then (f, k + n) ∷ fs else (f, k) ∷ rest

-- `x or default`, on texts.
abbrev pub text_or : Option String → String → String
text_or none d = d
text_or (some t) d = if str_eq t "" then d else t
