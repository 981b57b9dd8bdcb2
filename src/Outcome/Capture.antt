-- ===== src/Outcome/Capture.antt =====
-- evaluation_outcome_capture of packs/eval_outcome/behaviors.py.
use activegraph_packs.Base.{
  ℕ, String, Bool, false, not, ◌&&◌, ◌||◌, Option, none, some, List, str_eq, if◌then◌else◌,
}
use activegraph_packs.Graph.{Graph, EventLog}
use activegraph_packs.Outcome.{Evaluation, Item, OutcomeEvent, truthy}
use activegraph_packs.Outcome.Operations.{
  TerminalArgs, MaintenanceArgs, record_terminal_outcome, record_maintenance_outcome,
}

-- _TERMINAL_JUDGMENTS
unfoldable pub terminal_judgment : String → Option String
terminal_judgment j =
    if str_eq j "accepted"
    then some "outcome.helped"
    else if str_eq j "completed_successfully"
    then some "outcome.helped"
    else if str_eq j "done"
    then some "outcome.helped"
    else if str_eq j "rejected"
    then some "outcome.hurt"
    else if str_eq j "failed"
    then some "outcome.hurt"
    else if str_eq j "completed_neutrally"
    then some "outcome.neutral"
    else if str_eq j "neutral"
    then some "outcome.neutral"
    else if str_eq j "not_relevant"
    then some "outcome.neutral"
    else none

abbrev pub or_default : String → String → String
or_default t d = if str_eq t "" then d else t

abbrev pub contradiction_args : ℕ → Evaluation → ℕ → MaintenanceArgs
contradiction_args k e revision = record {
  artifact_id = e.subject_id;
  artifact_type = e.subject_type;
  rationale = or_default e.rationale "contradiction finding";
  actor = or_default e.evaluator "memory_layer";
  artifact_version = e.metadata.artifact_version;
  evidence_revision_id = some revision;
  superseding_version = none;
  evaluation_id = some k;
  usage_id = none;
  source_context = some e.metadata.source_context;
  is_fixture = false;
}

abbrev pub capture_args : ℕ → Evaluation → TerminalArgs
capture_args k e = record {
  evaluation_id = k;
  rationale = or_default e.rationale e.judgment;
  actor = or_default e.evaluator "evaluation_capture";
  subject = record {
    usage_id = e.metadata.usage_id;
    artifact_id = e.metadata.artifact_id;
    artifact_type = e.metadata.artifact_type;
    artifact_version = e.metadata.artifact_version;
  };
  source_context = some e.metadata.source_context;
  is_fixture = e.metadata.is_fixture;
}

-- `judgment == "contradicted" and subject_type in {"memory_item", "memory_claim"}`
abbrev pub is_contradiction : Evaluation → Bool
is_contradiction e =
    str_eq e.judgment "contradicted"
    && (str_eq e.subject_type "memory_item" || str_eq e.subject_type "memory_claim")

abbrev pub allowed_subject : Evaluation → Bool
allowed_subject e =
    str_eq e.subject_type "task"
    || str_eq e.subject_type "capability_result"
    || (str_eq e.subject_type "skill_usage" && e.metadata.capture_outcome)

module _ {G : Type 0} (graph : Graph Item G) (log : EventLog graph OutcomeEvent) where
  -- The revision that a contradiction names, if it names one.
  abbrev pub capture_contradiction : ℕ → Evaluation → Option ℕ → List (ℕ × Item) → G → G
  capture_contradiction k e none view g = g
  capture_contradiction k e (some revision) view g =
      (record_maintenance_outcome graph log "outcome.contradicted" (contradiction_args k e revision)
        view g).1

  abbrev pub capture_terminal : ℕ → Evaluation → Option String → List (ℕ × Item) → G → G
  capture_terminal k e none view g = g
  capture_terminal k e (some event_type) view g =
      if allowed_subject e
      then (record_terminal_outcome graph log event_type (capture_args k e) view g).1
      else g

  -- evaluation_outcome_capture, on the creation of the evaluation; an error that a tool raises ends
  -- the behavior.
  unfoldable pub evaluation_outcome_capture : Bool → ℕ → Evaluation → List (ℕ × Item) → G → G
  evaluation_outcome_capture enabled k e view g =
      if not enabled
      then g
      else if is_contradiction e
      then capture_contradiction k e (truthy e.metadata.evidence_revision_id) view g
      else capture_terminal k e (terminal_judgment e.judgment) view g
