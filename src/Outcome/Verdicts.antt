-- ===== src/Outcome/Verdicts.antt =====
-- record_explicit_verdict_fn of packs/eval_outcome/tools.py.
use activegraph_packs.Base.{
  ℕ, suc, String, Bool, true, false, ◌||◌, Option, none, some, List, str_eq, if◌then◌else◌,
}
use activegraph_packs.Graph.{Graph, EventLog}
use activegraph_packs.Outcome.{
  SourceContext, SkillUsage, Evaluation, Item, evaluation, OutcomeEvent, unknown_verdict,
  no_subject_trace, no_context, or_id, or_text, truthy, find_usage,
}
use activegraph_packs.Outcome.Operations.{
  Subject, Answer, answered, raised, Recorded, TerminalArgs, verdict_mapping,
  record_terminal_outcome,
}

pub record VerdictArgs : Type 0 where
  pub verdict : String
  pub rationale : String
  pub actor : String
  pub evaluation_id : Option ℕ
  pub subject : Subject
  pub source_context : Option SourceContext
  pub is_fixture : Bool

-- What a new evaluation is about: its subject, and the arguments as they stand then.
pub record VerdictSubject : Type 0 where
  pub subject_id : ℕ
  pub subject_type : String
  pub subject : Subject
  pub is_fixture : Bool

abbrev pub known_usage_with_id : List (ℕ × Item) → Option ℕ → Option (ℕ × SkillUsage)
known_usage_with_id m none = none
known_usage_with_id m (some u) = find_usage m u

-- `elif artifact_id and artifact_type`
unfoldable pub artifact_subject : VerdictArgs → Option ℕ → Option String → Option VerdictSubject
artifact_subject a (some (suc k)) (some t) =
    if str_eq t ""
    then none
    else some record {
      subject_id = suc k;
      subject_type = t;
      subject = a.subject;
      is_fixture = a.is_fixture;
    }
artifact_subject a artifact_id artifact_type = none

unfoldable pub verdict_subject : VerdictArgs → List (ℕ × Item) → Option VerdictSubject
verdict_subject a m = elim (known_usage_with_id m (truthy a.subject.usage_id)) [
  | none ↦ artifact_subject a a.subject.artifact_id a.subject.artifact_type
  | some (k, u) ↦ some record {
    subject_id = k;
    subject_type = "skill_usage";
    subject = record {
      usage_id = a.subject.usage_id;
      artifact_id = or_id a.subject.artifact_id (some u.skill_version_id);
      artifact_type = or_text a.subject.artifact_type (some "skill_version");
      artifact_version = or_id a.subject.artifact_version (some u.skill_version);
    };
    is_fixture = a.is_fixture || u.is_fixture;
  }
]

abbrev pub verdict_evaluation : VerdictArgs → String → VerdictSubject → Evaluation
verdict_evaluation a judgment s = record {
  subject_id = s.subject_id;
  subject_type = s.subject_type;
  judgment = judgment;
  rationale = a.rationale;
  evaluator = a.actor;
  metadata = record {
    usage_id = s.subject.usage_id;
    artifact_id = s.subject.artifact_id;
    artifact_type = s.subject.artifact_type;
    artifact_version = s.subject.artifact_version;
    evidence_revision_id = none;
    supersedes_evaluation_id = none;
    source_context = no_context;
    capture_outcome = true;
    is_fixture = false;
  };
}

abbrev pub verdict_terminal : VerdictArgs → ℕ → Subject → Bool → TerminalArgs
verdict_terminal a k subject is_fixture = record {
  evaluation_id = k;
  rationale = a.rationale;
  actor = a.actor;
  subject = subject;
  source_context = a.source_context;
  is_fixture = is_fixture;
}

abbrev pub with_evaluation : ℕ → Answer Recorded → Answer (ℕ × Recorded)
with_evaluation k (answered r) = answered (k, r)
with_evaluation k (raised x) = raised x

module _ {G : Type 0} (graph : Graph Item G) (log : EventLog graph OutcomeEvent) where
  -- The terminal outcome, with the evaluation's id beside the answer.
  abbrev pub terminal_verdict : String → ℕ → TerminalArgs → G → Answer (ℕ × Recorded) × G
  terminal_verdict event_type k t g =
      let (answer, g1) = record_terminal_outcome graph log event_type t (graph.objects g) g in
      (with_evaluation k answer, g1)

  unfoldable pub record_explicit_verdict : VerdictArgs → G → Answer (ℕ × Recorded) × G
  record_explicit_verdict a g = elim (verdict_mapping a.verdict) [
    | none ↦ (raised unknown_verdict, g)
    | some (event_type, judgment) ↦ elim a.evaluation_id [
      | some k ↦ terminal_verdict event_type k (verdict_terminal a k a.subject a.is_fixture) g
      | none ↦ elim (verdict_subject a (graph.objects g)) [
        | none ↦ (raised no_subject_trace, g)
        | some s ↦
            let (k, g1) = graph.add_object g (evaluation (verdict_evaluation a judgment s)) in
            terminal_verdict event_type k (verdict_terminal a k s.subject s.is_fixture) g1
      ]
    ]
  ]
