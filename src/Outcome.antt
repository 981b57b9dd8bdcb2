-- ===== src/Outcome.antt =====
-- The evaluation and outcome pack: packs/eval_outcome (object_types.py, settings.py, tools.py,
-- behaviors.py). This file has the records and the searches; the operations are in the children.
-- The ids of artifacts, usages, revisions and versions are numbers as those of the graph's objects
-- are: texts are taken by their numbers, and 0 is the empty text. A contribution key is the data
-- that its text joins. A multiplier is a number of hundredths.
pub mod Operations
pub mod Verdicts
pub mod Capture
pub mod Supersession
pub mod Projector
pub mod Records
pub mod Kept
pub mod Corrections
pub mod Steps
pub mod Standing
pub mod Explicit
pub mod Reliability
pub mod Projected
pub mod Tallied
pub mod Multipliers
mod Examples
use activegraph_packs.Base.{
  ℕ, zero, suc, String, Bool, true, false, ◌&&◌, Option, none, some, List, [], ◌∷◌, find?, ◌==◌,
  str_eq, if◌then◌else◌, lookup, any,
}

pub data TerminalKind : Type 0 where
  helped hurt neutral : TerminalKind

pub data MaintenanceKind : Type 0 where
  contradicted stale superseded : MaintenanceKind

pub data OutcomeKind : Type 0 where
  terminal : TerminalKind → OutcomeKind
  maintenance : MaintenanceKind → OutcomeKind

pub data ContributionKey : Type 0 where
  -- f"terminal:{evaluation_id}"
  terminal_key : ℕ → ContributionKey
  -- f"{artifact_id}:{subject_key}:{event_type}"
  maintenance_key : ℕ → ℕ → MaintenanceKind → ContributionKey

-- What the code reads of a source context.
pub record SourceContext : Type 0 where
  pub source_surface_id : Option String
  pub source_category : Option String

-- The fields that the payload of an outcome's event and its record have in common.
pub record Contribution : Type 0 where
  pub outcome_type : OutcomeKind
  pub evaluation_id : Option ℕ
  pub usage_id : Option ℕ
  pub artifact_id : ℕ
  pub artifact_type : String
  pub artifact_version : Option ℕ
  pub evidence_revision_id : Option ℕ
  pub superseding_version : Option ℕ
  pub contribution_key : ContributionKey
  pub rationale : String
  pub actor : String
  pub source_context : SourceContext
  pub is_fixture : Bool

pub record OutcomeRecord : Type 0 where
  pub outcome_event_id : String
  pub contribution : Contribution

pub record Tallies : Type 0 where
  pub helped : ℕ
  pub hurt : ℕ
  pub neutral : ℕ
  pub contradicted : ℕ
  pub stale : ℕ
  pub superseded : ℕ

pub data ReliabilityVerdict : Type 0 where
  supported weak harmful stale_verdict : ReliabilityVerdict

pub record ArtifactReliability : Type 0 where
  pub artifact_id : ℕ
  pub artifact_type : String
  pub artifact_version : Option ℕ
  pub tallies : Tallies
  pub verdict : ReliabilityVerdict
  pub eligible : Bool
  pub retrieval_multiplier : ℕ
  pub latest_outcome_type : OutcomeKind
  pub latest_outcome_event_id : String
  pub latest_evaluation_id : Option ℕ
  pub latest_usage_id : Option ℕ
  pub evidence_event_ids : List String
  pub latest_rationale : String
  pub latest_actor : String

pub record OutcomeSettings : Type 0 where
  pub enabled : Bool
  pub supported_retrieval_multiplier : ℕ
  pub weak_retrieval_multiplier : ℕ
  pub harmful_retrieval_multiplier : ℕ
  pub stale_retrieval_multiplier : ℕ

-- What the pack reads of a skill's usage.
pub record SkillUsage : Type 0 where
  pub usage_id : ℕ
  pub skill_version : ℕ
  pub skill_version_id : ℕ
  pub is_fixture : Bool

pub record EvaluationMetadata : Type 0 where
  pub usage_id : Option ℕ
  pub artifact_id : Option ℕ
  pub artifact_type : Option String
  pub artifact_version : Option ℕ
  pub evidence_revision_id : Option ℕ
  pub supersedes_evaluation_id : Option ℕ
  pub source_context : SourceContext
  pub capture_outcome : Bool
  pub is_fixture : Bool

-- The Core pack's evaluation.
pub record Evaluation : Type 0 where
  pub subject_id : ℕ
  pub subject_type : String
  pub judgment : String
  pub rationale : String
  pub evaluator : String
  pub metadata : EvaluationMetadata

pub data Item : Type 0 where
  evaluation : Evaluation → Item
  outcome_record : OutcomeRecord → Item
  artifact_reliability : ArtifactReliability → Item
  skill_usage : SkillUsage → Item
  other : Item

pub data OutcomeEvent : Type 0 where
  outcome : Contribution → OutcomeEvent
  reliability_changed : ArtifactReliability → String → Option ℕ → OutcomeEvent

pub data OutcomeError : Type 0 where
  not_terminal not_evaluation has_terminal no_subject_trace unknown_verdict : OutcomeError
  not_maintenance no_artifact no_evidence no_superseding no_terminal : OutcomeError

abbrev pub no_context : SourceContext
no_context = record { source_surface_id = none; source_category = none }

-- `a or b` on ids, and on texts.
abbrev pub or_id : Option ℕ → Option ℕ → Option ℕ
or_id (some (suc n)) b = some (suc n)
or_id _ b = b

abbrev pub or_text : Option String → Option String → Option String
or_text none b = b
or_text (some t) b = if str_eq t "" then b else some t

-- The id, unless it is empty.
abbrev pub truthy : Option ℕ → Option ℕ
truthy a = or_id a none

abbrev pub id_eq : Option ℕ → ℕ → Bool
id_eq none k = false
id_eq (some j) k = j == k

abbrev pub terminal_eq : TerminalKind → TerminalKind → Bool
terminal_eq helped helped = true
terminal_eq hurt hurt = true
terminal_eq neutral neutral = true
terminal_eq _ _ = false

abbrev pub maintenance_eq : MaintenanceKind → MaintenanceKind → Bool
maintenance_eq contradicted contradicted = true
maintenance_eq stale stale = true
maintenance_eq superseded superseded = true
maintenance_eq _ _ = false

abbrev pub contribution_eq : ContributionKey → ContributionKey → Bool
contribution_eq (terminal_key a) (terminal_key b) = a == b
contribution_eq (maintenance_key a s k) (maintenance_key b t j) =
    a == b && (s == t && maintenance_eq k j)
contribution_eq _ _ = false

-- The event types that the terminal and the maintenance operation accept, with the prefix or
-- without it.
unfoldable pub terminal_kind : String → Option TerminalKind
terminal_kind t =
    if str_eq t "outcome.helped"
    then some helped
    else if str_eq t "helped"
    then some helped
    else if str_eq t "outcome.hurt"
    then some hurt
    else if str_eq t "hurt"
    then some hurt
    else if str_eq t "outcome.neutral"
    then some neutral
    else if str_eq t "neutral"
    then some neutral
    else none

unfoldable pub maintenance_kind : String → Option MaintenanceKind
maintenance_kind t =
    if str_eq t "outcome.contradicted"
    then some contradicted
    else if str_eq t "contradicted"
    then some contradicted
    else if str_eq t "outcome.stale"
    then some stale
    else if str_eq t "stale"
    then some stale
    else if str_eq t "outcome.superseded"
    then some superseded
    else if str_eq t "superseded"
    then some superseded
    else none

-- `_objects(reader, type)` for the types that the pack searches.
unfoldable pub records : List (ℕ × Item) → List (ℕ × OutcomeRecord)
records [] = []
records ((k, outcome_record r) ∷ m) = (k, r) ∷ records m
records ((k, _) ∷ m) = records m

unfoldable pub reliabilities : List (ℕ × Item) → List (ℕ × ArtifactReliability)
reliabilities [] = []
reliabilities ((k, artifact_reliability r) ∷ m) = (k, r) ∷ reliabilities m
reliabilities ((k, _) ∷ m) = reliabilities m

unfoldable pub usages : List (ℕ × Item) → List (ℕ × SkillUsage)
usages [] = []
usages ((k, skill_usage u) ∷ m) = (k, u) ∷ usages m
usages ((k, _) ∷ m) = usages m

unfoldable pub find_usage : List (ℕ × Item) → ℕ → Option (ℕ × SkillUsage)
find_usage m usage_id = find? (λ e. e.1.usage_id == usage_id) (usages m)

abbrev pub is_terminal : OutcomeKind → Bool
is_terminal (terminal k) = true
is_terminal (maintenance k) = false

abbrev pub is_terminal_of : ℕ → OutcomeRecord → Bool
is_terminal_of k r = id_eq r.contribution.evaluation_id k && is_terminal r.contribution.outcome_type

-- _terminal_record
unfoldable pub terminal_record : List (ℕ × Item) → ℕ → Option (ℕ × OutcomeRecord)
terminal_record m k = find? (λ e. is_terminal_of k e.1) (records m)

-- The record that has this contribution key.
unfoldable pub contribution_record : List (ℕ × Item) → ContributionKey → Option (ℕ × OutcomeRecord)
contribution_record m key =
    find? (λ e. contribution_eq e.1.contribution.contribution_key key) (records m)

-- get_reliability_fn: the last one, as `reversed` reads them.
unfoldable pub last_reliability :
    ℕ → List (ℕ × ArtifactReliability) → Option (ℕ × ArtifactReliability)
last_reliability a [] = none
last_reliability a (e ∷ es) = elim (last_reliability a es) [
  | none ↦ if e.1.artifact_id == a then some e else none
  | some r ↦ some r
]

unfoldable pub get_reliability : List (ℕ × Item) → ℕ → Option (ℕ × ArtifactReliability)
get_reliability m a = last_reliability a (reliabilities m)
