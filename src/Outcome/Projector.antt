-- ===== src/Outcome/Projector.antt =====
-- artifact_reliability_projector of packs/eval_outcome/behaviors.py.
use activegraph_packs.Base.{
  ℕ, suc, String, Bool, true, false, not, ◌||◌, Option, none, some, List, [], ◌∷◌, ◌++◌, any, find?,
  str_eq, if◌then◌else◌, ◌==◌,
}
use activegraph_packs.Graph.{Graph, EventLog, try_relate}
use activegraph_packs.Outcome.{
  helped, hurt, neutral, contradicted, stale, superseded, OutcomeKind, terminal, maintenance,
  Contribution, OutcomeRecord, Tallies, ReliabilityVerdict, supported, weak, harmful, stale_verdict,
  ArtifactReliability, OutcomeSettings, Item, artifact_reliability, OutcomeEvent,
  reliability_changed, records, reliabilities,
}

unfoldable pub verdict_and_multiplier : OutcomeKind → OutcomeSettings → ReliabilityVerdict × ℕ
verdict_and_multiplier (terminal helped) s = (supported, s.supported_retrieval_multiplier)
verdict_and_multiplier (terminal hurt) s = (harmful, s.harmful_retrieval_multiplier)
verdict_and_multiplier (maintenance contradicted) s = (harmful, s.harmful_retrieval_multiplier)
verdict_and_multiplier (maintenance stale) s = (stale_verdict, s.stale_retrieval_multiplier)
verdict_and_multiplier (maintenance superseded) s = (stale_verdict, s.stale_retrieval_multiplier)
verdict_and_multiplier (terminal neutral) s = (weak, s.weak_retrieval_multiplier)

abbrev pub no_tallies : Tallies
no_tallies = record {
  helped = 0;
  hurt = 0;
  neutral = 0;
  contradicted = 0;
  stale = 0;
  superseded = 0;
}

-- `tallies[kind] = int(tallies.get(kind, 0)) + 1`
unfoldable pub tally : OutcomeKind → Tallies → Tallies
tally (terminal helped) t = record t { helped = suc t.helped }
tally (terminal hurt) t = record t { hurt = suc t.hurt }
tally (terminal neutral) t = record t { neutral = suc t.neutral }
tally (maintenance contradicted) t = record t { contradicted = suc t.contradicted }
tally (maintenance stale) t = record t { stale = suc t.stale }
tally (maintenance superseded) t = record t { superseded = suc t.superseded }

-- `verdict not in {"harmful", "stale"}`
abbrev pub is_eligible : ReliabilityVerdict → Bool
is_eligible harmful = false
is_eligible stale_verdict = false
is_eligible _ = true

-- Add the id unless it stands in the list.
unfoldable pub add_once : String → List String → List String
add_once t ts = if any (λ u. str_eq u t) ts then ts else ts ++ t ∷ []

-- An outcome's event: its id and its payload.
pub record OutcomeNotice : Type 0 where
  pub event_id : String
  pub payload : Contribution

-- The tallies and the evidence that stand, none at first.
abbrev pub tallies_of : Option (ℕ × ArtifactReliability) → Tallies
tallies_of none = no_tallies
tallies_of (some e) = e.1.tallies

abbrev pub evidence_ids_of : Option (ℕ × ArtifactReliability) → List String
evidence_ids_of none = []
evidence_ids_of (some e) = e.1.evidence_event_ids

unfoldable pub projected :
    OutcomeSettings → OutcomeNotice → Option (ℕ × ArtifactReliability) → ArtifactReliability
projected s n existing =
    let c = n.payload in
    let (verdict, multiplier) = verdict_and_multiplier c.outcome_type s in
    record {
      artifact_id = c.artifact_id;
      artifact_type = c.artifact_type;
      artifact_version = c.artifact_version;
      tallies = tally c.outcome_type (tallies_of existing);
      verdict = verdict;
      eligible = is_eligible verdict;
      retrieval_multiplier = multiplier;
      latest_outcome_type = c.outcome_type;
      latest_outcome_event_id = n.event_id;
      latest_evaluation_id = c.evaluation_id;
      latest_usage_id = c.usage_id;
      evidence_event_ids = add_once n.event_id (evidence_ids_of existing);
      latest_rationale = c.rationale;
      latest_actor = c.actor;
    }

-- The first reliability of the artifact.
unfoldable pub first_reliability :
    ℕ → List (ℕ × ArtifactReliability) → Option (ℕ × ArtifactReliability)
first_reliability a es = find? (λ e. e.1.artifact_id == a) es

-- The record that this event was kept by.
unfoldable pub record_of_event : String → List (ℕ × Item) → Option (ℕ × OutcomeRecord)
record_of_event t m = find? (λ e. str_eq e.1.outcome_event_id t) (records m)

abbrev pub set_reliability : ArtifactReliability → Item → Item
set_reliability r (artifact_reliability old) = artifact_reliability r
set_reliability r o = o

module _ {G : Type 0} (graph : Graph Item G) (log : EventLog graph OutcomeEvent) where
  -- The new reliability, or the old one patched; `none` where the patch raises.
  unfoldable pub store_reliability :
      ArtifactReliability → Option (ℕ × ArtifactReliability) → G → Option (ℕ × G)
  store_reliability r none g = some (graph.add_object g (artifact_reliability r))
  store_reliability r (some (k, old)) g = elim (graph.patch_object g k (set_reliability r)) [
    | none ↦ none
    | some g1 ↦ some (k, g1)
  ]

  -- The relation from the outcome's record, whose failure is swallowed.
  abbrev pub relate_record : Option (ℕ × OutcomeRecord) → ℕ → G → G
  relate_record none k g = g
  relate_record (some (j, r)) k g = try_relate graph g j k "updates_reliability"

  -- artifact_reliability_projector; where the patch raises, it leaves the graph with the event
  -- emitted.
  unfoldable pub artifact_reliability_projector :
      OutcomeSettings → OutcomeNotice → List (ℕ × Item) → G → G
  artifact_reliability_projector s n view g =
      let c = n.payload in
      if not s.enabled || (c.artifact_id == 0 || str_eq c.artifact_type "")
      then g
      else let existing = first_reliability c.artifact_id (reliabilities view) in
        let r = projected s n existing in
        let g1 = (log.emit g (reliability_changed r n.event_id c.evidence_revision_id)).1 in
        elim (store_reliability r existing g1) [
          | none ↦ g1
          | some (k, g2) ↦ relate_record (record_of_event n.event_id view) k g2
        ]
