-- ===== src/Outcome/Operations.antt =====
-- The operations of packs/eval_outcome/tools.py. Each returns what it answers or the error that it
-- raises, beside the graph that it leaves.
use activegraph_packs.Base.{
  ℕ, suc, String, Bool, true, false, ◌||◌, Option, none, some, List, get_or, str_eq, lookup,
  if◌then◌else◌, is_some, ◌==◌,
}
use activegraph_packs.Graph.{Graph, EventLog, try_relate}
use activegraph_packs.Outcome.{
  TerminalKind, MaintenanceKind, superseded, terminal, maintenance, ContributionKey, terminal_key,
  maintenance_key, SourceContext, Contribution, OutcomeRecord, SkillUsage, Evaluation, Item,
  evaluation, outcome_record, skill_usage, OutcomeEvent, outcome, OutcomeError, not_terminal,
  not_evaluation, has_terminal, no_subject_trace, not_maintenance, no_artifact, no_evidence,
  no_superseding, no_context, or_id, or_text, truthy, terminal_eq, terminal_kind, maintenance_kind,
  find_usage, terminal_record, contribution_record,
}

-- The keyword arguments that say which artifact an outcome is about.
pub record Subject : Type 0 where
  pub usage_id : Option ℕ
  pub artifact_id : Option ℕ
  pub artifact_type : Option String
  pub artifact_version : Option ℕ

pub record Trace : Type 0 where
  pub usage_id : Option ℕ
  pub artifact_id : ℕ
  pub artifact_type : String
  pub artifact_version : Option ℕ

abbrev usage_of : Option Item → Option SkillUsage
usage_of (some (skill_usage u)) = some u
usage_of _ = none

abbrev known_usage : List (ℕ × Item) → Option ℕ → Option SkillUsage
known_usage view none = none
known_usage view (some u) = elim (find_usage view u) [ none ↦ none | some found ↦ some found.1 ]

-- The usage by the id that is known, or else the evaluation's subject.
unfoldable pub subject_usage :
    List (ℕ × Item) → Evaluation → Option ℕ → Option ℕ × Option SkillUsage
subject_usage view e known = elim (known_usage view (truthy known)) [
  | some u ↦ (known, some u)
  | none ↦
      if str_eq e.subject_type "skill_usage"
      then elim (usage_of (lookup e.subject_id view)) [
        | none ↦ (known, none)
        | some u ↦ (some u.usage_id, some u)
      ]
      else (known, none)
]

-- The trace of an artifact that has an id and a type.
unfoldable pub named_trace : Option ℕ → Option ℕ → Option String → Option ℕ → Option Trace
named_trace usage_id (some (suc a)) (some t) version =
    if str_eq t ""
    then none
    else some record {
      usage_id = truthy usage_id;
      artifact_id = suc a;
      artifact_type = t;
      artifact_version = version;
    }
named_trace usage_id artifact_id artifact_type version = none

-- _subject_trace; `none` where it raises.
unfoldable pub subject_trace : List (ℕ × Item) → Evaluation → Subject → Option Trace
subject_trace view e a =
    let artifact_id = or_id a.artifact_id e.metadata.artifact_id in
    let artifact_type = or_text a.artifact_type e.metadata.artifact_type in
    let artifact_version = or_id a.artifact_version e.metadata.artifact_version in
    let (usage_id, usage) = subject_usage view e (or_id a.usage_id e.metadata.usage_id) in
    elim usage [
      | none ↦
          named_trace usage_id (or_id artifact_id (some e.subject_id))
            (or_text artifact_type (some e.subject_type)) artifact_version
      | some u ↦
          named_trace usage_id
            (or_id (or_id artifact_id (some u.skill_version_id)) (some e.subject_id))
            (or_text artifact_type (some "skill_version"))
            (or_id artifact_version (some u.skill_version))
    ]

pub data Answer (A : Type 0) : Type 0 where
  answered : A → Answer A
  raised : OutcomeError → Answer A

-- What a recording answers: if the record is new, and the record with its id.
pub record Recorded : Type 0 where
  pub created : Bool
  pub record_id : ℕ
  pub kept : OutcomeRecord

pub record TerminalArgs : Type 0 where
  pub evaluation_id : ℕ
  pub rationale : String
  pub actor : String
  pub subject : Subject
  pub source_context : Option SourceContext
  pub is_fixture : Bool

abbrev pub terminal_contribution : TerminalKind → TerminalArgs → Trace → Contribution
terminal_contribution kind a trace = record {
  outcome_type = terminal kind;
  evaluation_id = some a.evaluation_id;
  usage_id = trace.usage_id;
  artifact_id = trace.artifact_id;
  artifact_type = trace.artifact_type;
  artifact_version = trace.artifact_version;
  evidence_revision_id = none;
  superseding_version = none;
  contribution_key = terminal_key a.evaluation_id;
  rationale = a.rationale;
  actor = a.actor;
  source_context = get_or no_context a.source_context;
  is_fixture = a.is_fixture;
}

pub record MaintenanceArgs : Type 0 where
  pub artifact_id : ℕ
  pub artifact_type : String
  pub rationale : String
  pub actor : String
  pub artifact_version : Option ℕ
  pub evidence_revision_id : Option ℕ
  pub superseding_version : Option ℕ
  pub evaluation_id : Option ℕ
  pub usage_id : Option ℕ
  pub source_context : Option SourceContext
  pub is_fixture : Bool

-- `evidence_revision_id or superseding_version`, after the tests below a number above 0.
abbrev pub subject_key : MaintenanceArgs → ℕ
subject_key a = get_or 0 (or_id a.evidence_revision_id a.superseding_version)

abbrev pub maintenance_key_of : MaintenanceKind → MaintenanceArgs → ContributionKey
maintenance_key_of kind a = maintenance_key a.artifact_id (subject_key a) kind

abbrev pub maintenance_contribution : MaintenanceKind → MaintenanceArgs → Contribution
maintenance_contribution kind a = record {
  outcome_type = maintenance kind;
  evaluation_id = a.evaluation_id;
  usage_id = a.usage_id;
  artifact_id = a.artifact_id;
  artifact_type = a.artifact_type;
  artifact_version = a.artifact_version;
  evidence_revision_id = a.evidence_revision_id;
  superseding_version = a.superseding_version;
  contribution_key = maintenance_key_of kind a;
  rationale = a.rationale;
  actor = a.actor;
  source_context = get_or no_context a.source_context;
  is_fixture = a.is_fixture;
}

-- The error of arguments that do not name an artifact and what the kind needs.
unfoldable pub maintenance_error : MaintenanceKind → MaintenanceArgs → Option OutcomeError
maintenance_error kind a =
    if a.artifact_id == 0 || str_eq a.artifact_type "" then some no_artifact else elim kind [
      | superseded ↦ if is_some (truthy a.superseding_version) then none else some no_superseding
      | _ ↦ if is_some (truthy a.evidence_revision_id) then none else some no_evidence
    ]

-- An explicit verdict's event and judgment.
unfoldable pub verdict_mapping : String → Option (String × String)
verdict_mapping v =
    if str_eq v "accept"
    then some ("outcome.helped", "accepted")
    else if str_eq v "reject"
    then some ("outcome.hurt", "rejected")
    else if str_eq v "neutral"
    then some ("outcome.neutral", "completed_neutrally")
    else none

abbrev pub evaluation_of : Option Item → Option Evaluation
evaluation_of (some (evaluation e)) = some e
evaluation_of _ = none

-- `_get_object(read_view, id) or _get_object(graph, id)`
abbrev pub or_item : Option Item → Option Item → Option Item
or_item none b = b
or_item (some x) b = some x

-- What a terminal record that stands already answers: itself, if it has the same value.
unfoldable pub existing_answer : TerminalKind → ℕ → OutcomeRecord → Answer Recorded
existing_answer kind k r = elim r.contribution.outcome_type [
  | terminal old ↦
      if terminal_eq old kind
      then answered record { created = false; record_id = k; kept = r }
      else raised has_terminal
  | maintenance old ↦ raised has_terminal
]

module _ {G : Type 0} (graph : Graph Item G) where
  -- The evaluation that an id names, in what is read and then in the graph.
  abbrev pub read_evaluation : List (ℕ × Item) → ℕ → G → Option Evaluation
  read_evaluation view k g = evaluation_of (or_item (lookup k view) (graph.get_object g k))

  abbrev pub evaluation_missing : Option ℕ → List (ℕ × Item) → G → Bool
  evaluation_missing none view g = false
  evaluation_missing (some k) view g = elim (read_evaluation view k g) [
    | none ↦ true
    | some e ↦ false
  ]

module _ {G : Type 0} (graph : Graph Item G) (log : EventLog graph OutcomeEvent) where
  -- The event, the record of it and its relation to the evaluation.
  unfoldable pub record_contribution : Contribution → Option ℕ → G → Answer Recorded × G
  record_contribution c related g =
      let (event_id, g1) = log.emit g (outcome c) in
      let kept : OutcomeRecord = record {
        outcome_event_id = if str_eq event_id "" then "behavior-emitted" else event_id;
        contribution = c;
      } in
      let (k, g2) = graph.add_object g1 (outcome_record kept) in
      (
        answered record { created = true; record_id = k; kept = kept },
        elim related [ none ↦ g2 | some e ↦ try_relate graph g2 k e "records_evaluation" ],
      )

  unfoldable pub record_trace : TerminalKind → TerminalArgs → Option Trace → G → Answer Recorded × G
  record_trace kind a none g = (raised no_subject_trace, g)
  record_trace kind a (some trace) g =
      record_contribution (terminal_contribution kind a trace) (some a.evaluation_id) g

  -- The evaluation's terminal outcome that stands already, or else the new one.
  unfoldable pub record_once :
      TerminalKind → TerminalArgs → List (ℕ × Item) → Evaluation → G → Answer Recorded × G
  record_once kind a view e g = elim (terminal_record view a.evaluation_id) [
    | none ↦ record_trace kind a (subject_trace view e a.subject) g
    | some (k, r) ↦ (existing_answer kind k r, g)
  ]

  unfoldable pub record_kind :
      TerminalKind → TerminalArgs → List (ℕ × Item) → G → Answer Recorded × G
  record_kind kind a view g = elim (read_evaluation graph view a.evaluation_id g) [
    | none ↦ (raised not_evaluation, g)
    | some e ↦ record_once kind a view e g
  ]

  -- record_terminal_outcome_fn, where the reader shows the objects of the list.
  unfoldable pub record_terminal_outcome :
      String → TerminalArgs → List (ℕ × Item) → G → Answer Recorded × G
  record_terminal_outcome event_type a view g = elim (terminal_kind event_type) [
    | none ↦ (raised not_terminal, g)
    | some kind ↦ record_kind kind a view g
  ]

  unfoldable pub maintain :
      MaintenanceKind → MaintenanceArgs → List (ℕ × Item) → G → Answer Recorded × G
  maintain kind a view g = elim (contribution_record view (maintenance_key_of kind a)) [
    | some (k, r) ↦ (answered record { created = false; record_id = k; kept = r }, g)
    | none ↦
        if evaluation_missing graph (truthy a.evaluation_id) view g
        then (raised not_evaluation, g)
        else record_contribution (maintenance_contribution kind a) (truthy a.evaluation_id) g
  ]

  -- record_maintenance_outcome_fn
  unfoldable pub record_maintenance_outcome :
      String → MaintenanceArgs → List (ℕ × Item) → G → Answer Recorded × G
  record_maintenance_outcome event_type a view g = elim (maintenance_kind event_type) [
    | none ↦ (raised not_maintenance, g)
    | some kind ↦ elim (maintenance_error kind a) [
      | some e ↦ (raised e, g)
      | none ↦ maintain kind a view g
    ]
  ]
