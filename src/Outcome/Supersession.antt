-- ===== src/Outcome/Supersession.antt =====
-- supersede_evaluation_fn of packs/eval_outcome/tools.py.
use activegraph_packs.Base.{ℕ, String, false, Option, none, some}
use activegraph_packs.Graph.{Graph, EventLog}
use activegraph_packs.Outcome.{
  Contribution, OutcomeRecord, Evaluation, Item, evaluation, OutcomeEvent, not_evaluation,
  unknown_verdict, no_terminal, no_context, terminal_record,
}
use activegraph_packs.Outcome.Operations.{
  Answer, answered, raised, Recorded, TerminalArgs, MaintenanceArgs, verdict_mapping, evaluation_of,
  record_terminal_outcome, record_maintenance_outcome,
}

-- The replacement of an evaluation whose terminal outcome is known.
abbrev pub replacement_evaluation : ℕ → String → String → String → Contribution → Evaluation
replacement_evaluation prior judgment rationale actor c = record {
  subject_id = prior;
  subject_type = "evaluation";
  judgment = judgment;
  rationale = rationale;
  evaluator = actor;
  metadata = record {
    usage_id = none;
    artifact_id = some c.artifact_id;
    artifact_type = some c.artifact_type;
    artifact_version = c.artifact_version;
    evidence_revision_id = none;
    supersedes_evaluation_id = some prior;
    source_context = no_context;
    capture_outcome = false;
    is_fixture = false;
  };
}

abbrev pub supersession_args : ℕ → ℕ → String → String → Contribution → MaintenanceArgs
supersession_args prior replacement rationale actor c = record {
  artifact_id = c.artifact_id;
  artifact_type = c.artifact_type;
  rationale = rationale;
  actor = actor;
  artifact_version = c.artifact_version;
  evidence_revision_id = none;
  superseding_version = some replacement;
  evaluation_id = some prior;
  usage_id = c.usage_id;
  source_context = none;
  is_fixture = c.is_fixture;
}

abbrev pub replacement_args : ℕ → String → String → Contribution → TerminalArgs
replacement_args replacement rationale actor c = record {
  evaluation_id = replacement;
  rationale = rationale;
  actor = actor;
  subject = record {
    usage_id = none;
    artifact_id = some c.artifact_id;
    artifact_type = some c.artifact_type;
    artifact_version = c.artifact_version;
  };
  source_context = none;
  is_fixture = c.is_fixture;
}

-- The answer of supersede_evaluation_fn.
pub record Superseded : Type 0 where
  pub replacement : ℕ
  pub supersession : OutcomeRecord
  pub terminal : OutcomeRecord

abbrev pub with_terminal : ℕ → OutcomeRecord → Answer Recorded → Answer Superseded
with_terminal replacement supersession (answered t) =
    answered record { replacement = replacement; supersession = supersession; terminal = t.kept }
with_terminal replacement supersession (raised x) = raised x

module _ {G : Type 0} (graph : Graph Item G) (log : EventLog graph OutcomeEvent) where
  -- The new terminal value, after the supersession.
  unfoldable pub replace_terminal :
      ℕ → String → String → String → Contribution → Answer Recorded → G → Answer Superseded × G
  replace_terminal replacement event_type rationale actor c (raised x) g = (raised x, g)
  replace_terminal replacement event_type rationale actor c (answered s) g =
      let (answer, g1) =
        record_terminal_outcome graph log event_type
          (replacement_args replacement rationale actor c) (graph.objects g) g in
      (with_terminal replacement s.kept answer, g1)

  -- The two records that correct the prior evaluation.
  unfoldable pub supersede_by :
      ℕ → ℕ → String → String → String → Contribution → G → Answer Superseded × G
  supersede_by prior replacement event_type rationale actor c g =
      let (first, g1) =
        record_maintenance_outcome graph log "outcome.superseded"
          (supersession_args prior replacement rationale actor c) (graph.objects g) g in
      replace_terminal replacement event_type rationale actor c first g1

  unfoldable pub supersede_terminal :
      ℕ → String → String → String → Option (ℕ × OutcomeRecord) → G → Answer Superseded × G
  supersede_terminal prior verdict rationale actor none g = (raised no_terminal, g)
  supersede_terminal prior verdict rationale actor (some (j, r)) g =
      elim (verdict_mapping verdict) [
        | none ↦ (raised unknown_verdict, g)
        | some (event_type, judgment) ↦
            let c = r.contribution in
            let e = evaluation (replacement_evaluation prior judgment rationale actor c) in
            let (k, g1) = graph.add_object g e in
            supersede_by prior k event_type rationale actor c g1
      ]

  -- supersede_evaluation_fn
  unfoldable pub supersede_evaluation : ℕ → String → String → String → G → Answer Superseded × G
  supersede_evaluation prior verdict rationale actor g =
      elim (evaluation_of (graph.get_object g prior)) [
        | none ↦ (raised not_evaluation, g)
        | some e ↦
            supersede_terminal prior verdict rationale actor
              (terminal_record (graph.objects g) prior) g
      ]
