-- ===== src/Outcome/Examples.antt =====
-- Evaluations, outcomes and reliabilities at concrete inputs.
use activegraph_packs.Base.{ℕ, ◌≤◌, ◌+◌, true, false, none, some, [], ◌∷◌, ◌≡◌, refl, arith, count}
use activegraph_packs.Graph.{Graph, EventLog}
use activegraph_packs.Graph.Listed.{Listed, listed}
use activegraph_packs.Outcome.{
  helped, hurt, terminal, ContributionKey, terminal_key, Contribution, OutcomeSettings, Evaluation,
  ArtifactReliability, Item, evaluation, outcome_record, OutcomeEvent, has_terminal, no_context,
  terminal_kind, records, reliabilities, usages, find_usage, terminal_record, contribution_record,
  last_reliability, get_reliability, maintenance_kind,
}
use activegraph_packs.Outcome.Operations.{
  Subject, Answer, answered, raised, Recorded, TerminalArgs, subject_usage, named_trace,
  subject_trace, maintenance_error, verdict_mapping, existing_answer, record_contribution,
  record_trace, record_once, record_kind, record_terminal_outcome, maintain,
  record_maintenance_outcome,
}
use activegraph_packs.Outcome.Verdicts.{
  VerdictArgs, artifact_subject, verdict_subject, verdict_evaluation, record_explicit_verdict,
}
use activegraph_packs.Outcome.Capture.{terminal_judgment, evaluation_outcome_capture}
use activegraph_packs.Outcome.Supersession.{
  replace_terminal, supersede_by, supersede_terminal, supersede_evaluation,
}
use activegraph_packs.Outcome.Projector.{
  OutcomeNotice, verdict_and_multiplier, tally, add_once, projected, first_reliability,
  record_of_event, store_reliability, artifact_reliability_projector,
}
use activegraph_packs.Outcome.Records.{IsSound, key_records, terminal_records}
use activegraph_packs.Outcome.Kept.{kept}
use activegraph_packs.Outcome.Steps.{
  OutcomeReach, start, then_step, give_verdict, supersede, one_terminal_record,
}
use activegraph_packs.Outcome.Standing.{terminal_outcome_stands}
use activegraph_packs.Outcome.Explicit.{event_of, explicit_verdict_counted_once}
use activegraph_packs.Outcome.Reliability.{OneEach, rels}
use activegraph_packs.Outcome.Tallied.{
  tallied, is_about, project_all, reliability_counts, get_reliability_latest,
}
use activegraph_packs.Outcome.Multipliers.{multiplier_at, multiplier_latest}

abbrev store : Graph Item (Listed Item)
store = listed Item

-- Each event has the same id.
abbrev log : EventLog store OutcomeEvent
log = record { events = λ m. []; emit = λ m e. ("evt_1", m); objects-emit = λ m e. refl }

program : Unit {0}
unfolding terminal_kind maintenance_kind records reliabilities usages find_usage terminal_record
    contribution_record last_reliability get_reliability subject_usage named_trace subject_trace
    maintenance_error verdict_mapping existing_answer record_contribution record_trace record_once
    record_kind record_terminal_outcome maintain record_maintenance_outcome artifact_subject
    verdict_subject terminal_judgment record_explicit_verdict replace_terminal supersede_by
    supersede_terminal supersede_evaluation evaluation_outcome_capture verdict_and_multiplier tally
    add_once projected first_reliability record_of_event store_reliability
    artifact_reliability_projector
program = tt

abbrev memory : Subject
memory = record {
  usage_id = none;
  artifact_id = some 7;
  artifact_type = some "memory_item";
  artifact_version = none;
}

-- The owner accepts memory 7.
abbrev accept : VerdictArgs
accept = record {
  verdict = "accept";
  rationale = "right";
  actor = "owner";
  evaluation_id = none;
  subject = memory;
  source_context = none;
  is_fixture = false;
}

abbrev accepted : Answer (ℕ × Recorded) × Listed Item
accepted = record_explicit_verdict store log accept []

abbrev accepted_graph : Listed Item
accepted_graph = accepted.1

abbrev contribution : Contribution
contribution = record {
  outcome_type = terminal helped;
  evaluation_id = some 1;
  usage_id = none;
  artifact_id = 7;
  artifact_type = "memory_item";
  artifact_version = none;
  evidence_revision_id = none;
  superseding_version = none;
  contribution_key = terminal_key 1;
  rationale = "right";
  actor = "owner";
  source_context = no_context;
  is_fixture = false;
}

abbrev accepted_record : Recorded
accepted_record = record {
  created = true;
  record_id = 2;
  kept = record { outcome_event_id = "evt_1"; contribution = contribution };
}

abbrev accepted_evaluation : Evaluation
accepted_evaluation =
    verdict_evaluation accept "accepted"
      record { subject_id = 7; subject_type = "memory_item"; subject = memory; is_fixture = false }

accept_run :
    record_explicit_verdict store log accept [] ≡ (answered (1, accepted_record), accepted_graph)
unfolding program
accept_run = refl

explicit_verdict_counted_once_example :
    (evaluation_outcome_capture store log true 1 accepted_evaluation accepted_graph accepted_graph
      ≡ accepted_graph)
    × (terminal_judgment "accepted" ≡ event_of (verdict_mapping "accept"))
unfolding program
explicit_verdict_counted_once_example =
    explicit_verdict_counted_once store log true accept 1 accepted_evaluation accepted_graph
      accepted_record [] accepted_graph refl accept_run refl refl refl

empty-IsSound : IsSound (kept store [])
unfolding program
empty-IsSound = record { fit = tt; once = λ key. omega arith }

-- The acceptance is corrected by a rejection.
abbrev corrected_graph : Listed Item
corrected_graph = (supersede_evaluation store log 1 "reject" "wrong" "owner" accepted_graph).1

corrected-reach : OutcomeReach store log [] corrected_graph
corrected-reach =
    then_step (then_step start (give_verdict accept)) (supersede 1 "reject" "wrong" "owner")

one_terminal_record_example :
    ((k : ℕ) → terminal_records k (kept store corrected_graph) ≤ 1)
    × ((key : ContributionKey) → key_records key (kept store corrected_graph) ≤ 1)
one_terminal_record_example =
    one_terminal_record store log [] corrected_graph empty-IsSound corrected-reach

abbrev evaluated : Listed Item
evaluated = (1, evaluation accepted_evaluation) ∷ []

abbrev terminal_args : TerminalArgs
terminal_args = record {
  evaluation_id = 1;
  rationale = "right";
  actor = "owner";
  subject = memory;
  source_context = none;
  is_fixture = false;
}

abbrev recorded : Listed Item
recorded = (1, evaluation accepted_evaluation) ∷ (2, outcome_record accepted_record.kept) ∷ []

first_run :
    record_terminal_outcome store log "helped" terminal_args evaluated evaluated
    ≡ (answered accepted_record, recorded)
unfolding program
first_run = refl

terminal_outcome_stands_example :
    record_terminal_outcome store log "outcome.hurt" terminal_args recorded recorded
    ≡ (raised has_terminal, recorded)
unfolding program
terminal_outcome_stands_example =
    terminal_outcome_stands store log "helped" "outcome.hurt" helped hurt terminal_args
      terminal_args recorded accepted_evaluation accepted_record evaluated recorded refl refl refl
      first_run refl refl

abbrev settings : OutcomeSettings
settings = record {
  enabled = true;
  supported_retrieval_multiplier = 100;
  weak_retrieval_multiplier = 75;
  harmful_retrieval_multiplier = 10;
  stale_retrieval_multiplier = 25;
}

abbrev help : OutcomeNotice
help = record { event_id = "evt_1"; payload = contribution }

abbrev harm : OutcomeNotice
harm = record { event_id = "evt_2"; payload = record contribution { outcome_type = terminal hurt } }

empty-OneEach : OneEach (rels store [])
unfolding program
empty-OneEach = record { ids = λ k. omega arith; artifacts = λ a. omega arith }

reliability_counts_example :
    (tallied store log (terminal helped) 7 (project_all store log settings (help ∷ harm ∷ []) [])
      ≡ tallied store log (terminal helped) 7 []
        + count (is_about 7 (terminal helped)) (help ∷ harm ∷ []))
    × OneEach (rels store (project_all store log settings (help ∷ harm ∷ []) []))
reliability_counts_example =
    reliability_counts store log settings (help ∷ harm ∷ []) (terminal helped) 7 [] refl
      (refl, (refl, tt)) empty-OneEach

abbrev harmed : Listed Item
harmed = artifact_reliability_projector store log settings harm [] []

get_reliability_latest_example :
    (k : ℕ) × (r : ArtifactReliability) × (get_reliability harmed 7 ≡ some (k, r))
    × (r.artifact_id ≡ 7)
    × (r.latest_outcome_event_id ≡ "evt_2")
    × (r.latest_outcome_type ≡ terminal hurt)
    × (r.latest_evaluation_id ≡ some 1)
    × (r.latest_usage_id ≡ none)
    × (r.eligible ≡ false)
get_reliability_latest_example =
    get_reliability_latest store log settings harm [] refl refl empty-OneEach

-- Helped and then hurt: the multiplier is the one for harm.
multiplier_latest_example :
    multiplier_at store log 7 (project_all store log settings (help ∷ harm ∷ []) [])
    ≡ settings.harmful_retrieval_multiplier
multiplier_latest_example =
    multiplier_latest store log settings (help ∷ harm ∷ []) 7 [] refl (refl, (refl, tt))
      empty-OneEach
