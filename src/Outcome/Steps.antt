-- ===== src/Outcome/Steps.antt =====
-- The steps by which the graph of evaluations, outcomes and reliabilities changes.
use activegraph_packs.Base.{
  ℕ, ◌≤◌, String, Bool, false, not, ◌||◌, Option, none, some, List, [], ◌∷◌, ◌≡◌, refl, sym, ap,
  ◌∙◌, subst, arith, str_eq, ◌==◌, update, Bool-cases, Option-cases, inl, inr,
}
use activegraph_packs.Graph.{Graph, EventLog}
use activegraph_packs.Graph.Laws.{objects-try_relate}
use activegraph_packs.Outcome.{
  ContributionKey, OutcomeRecord, ArtifactReliability, OutcomeSettings, Evaluation, Item,
  evaluation, outcome_record, artifact_reliability, skill_usage, other, OutcomeEvent,
  reliability_changed, records, reliabilities, terminal_key,
}
use activegraph_packs.Outcome.Operations.{MaintenanceArgs, record_maintenance_outcome}
use activegraph_packs.Outcome.Verdicts.{VerdictArgs, record_explicit_verdict}
use activegraph_packs.Outcome.Capture.{evaluation_outcome_capture}
use activegraph_packs.Outcome.Supersession.{supersede_evaluation}
use activegraph_packs.Outcome.Projector.{
  OutcomeNotice, projected, first_reliability, record_of_event, set_reliability, store_reliability,
  relate_record, artifact_reliability_projector,
}
use activegraph_packs.Outcome.Records.{IsSound, key_records, terminal_records, terminal_records-key}
use activegraph_packs.Outcome.Kept.{kept, IsSound-record_maintenance_outcome}
use activegraph_packs.Outcome.Corrections.{
  is_record, kept-add_object, IsSound-add_object, IsSound-record_explicit_verdict,
  IsSound-supersede_evaluation, IsSound-evaluation_outcome_capture,
}

records-set_reliability :
    (k : ℕ) (r : ArtifactReliability) (m : List (ℕ × Item))
    → records (update k (set_reliability r) m) ≡ records m
unfolding records
records-set_reliability k r [] = refl
records-set_reliability k r ((j, evaluation e) ∷ m) = ground (arith, records-set_reliability k r m)
records-set_reliability k r ((j, outcome_record e) ∷ m) =
    ground (arith, records-set_reliability k r m)
records-set_reliability k r ((j, artifact_reliability e) ∷ m) =
    ground (arith, records-set_reliability k r m)
records-set_reliability k r ((j, skill_usage e) ∷ m) = ground (arith, records-set_reliability k r m)
records-set_reliability k r ((j, other) ∷ m) = ground (arith, records-set_reliability k r m)

module _ {G : Type 0} (graph : Graph Item G) (log : EventLog graph OutcomeEvent) where
  -- A reader that shows the outcome records of the graph.
  pub data OutcomeStep (g : G) : G → Type 0 where
    give_verdict : (a : VerdictArgs) → OutcomeStep g (record_explicit_verdict graph log a g).1
    record_maintenance :
        (event_type : String) (a : MaintenanceArgs)
        → OutcomeStep g (record_maintenance_outcome graph log event_type a (graph.objects g) g).1
    supersede :
        (k : ℕ) (verdict rationale actor : String)
        → OutcomeStep g (supersede_evaluation graph log k verdict rationale actor g).1
    capture :
        (enabled : Bool) (k : ℕ) (e : Evaluation) (view : List (ℕ × Item))
        → records view ≡ kept graph g
        → OutcomeStep g (evaluation_outcome_capture graph log enabled k e view g)
    project :
        (s : OutcomeSettings) (n : OutcomeNotice) (view : List (ℕ × Item))
        → OutcomeStep g (artifact_reliability_projector graph log s n view g)
    -- another pack adds an object
    add : (o : Item) → is_record o ≡ false → OutcomeStep g (graph.add_object g o).1

  pub data OutcomeReach (g : G) : G → Type 0 where
    start : OutcomeReach g g
    then_step : {h k : G} → OutcomeReach g h → OutcomeStep h k → OutcomeReach g k

  -- The projector writes no record.
  kept-store_reliability :
      (r : ArtifactReliability) (existing : Option (ℕ × ArtifactReliability)) (g g' : G) (k : ℕ)
      → store_reliability graph log r existing g ≡ some (k, g')
      → kept graph g' ≡ kept graph g
  unfolding store_reliability
  kept-store_reliability r none g g' k h =
      subst (λ x. kept graph x ≡ kept graph g) (ground (arith, h))
        (kept-add_object graph g (artifact_reliability r) refl)
  kept-store_reliability r (some (j, old)) g g' k h =
      elim (Option-cases (graph.patch_object g j (set_reliability r))) [
        | inl n ↦ ground (arith, h, n)
        | inr (g1, n) ↦
            subst (λ x. kept graph x ≡ kept graph g) {x = g1} (ground (arith, h, n))
              (ap records (graph.objects-patch_object g g1 j (set_reliability r) n)
                ∙ records-set_reliability j r (graph.objects g))
      ]

  kept-relate_record :
      (found : Option (ℕ × OutcomeRecord)) (k : ℕ) (g : G)
      → kept graph (relate_record graph log found k g) ≡ kept graph g
  kept-relate_record none k g = refl
  kept-relate_record (some (j, r)) k g =
      ap records (objects-try_relate graph g j k "updates_reliability")

  kept-artifact_reliability_projector :
      (s : OutcomeSettings) (n : OutcomeNotice) (view : List (ℕ × Item)) (g : G)
      → kept graph (artifact_reliability_projector graph log s n view g) ≡ kept graph g
  unfolding artifact_reliability_projector
  kept-artifact_reliability_projector s n view g =
      let c = n.payload in
      let existing = first_reliability c.artifact_id (reliabilities view) in
      let r = projected s n existing in
      let event = reliability_changed r n.event_id c.evidence_revision_id in
      let g1 = (log.emit g event).1 in
      let same : kept graph g1 ≡ kept graph g = ap records (log.objects-emit g event) in
      elim (Bool-cases (not s.enabled || (c.artifact_id == 0 || str_eq c.artifact_type ""))) [
        | inl e ↦ rw (e, artifact_reliability_projector) refl
        | inr e ↦ elim (Option-cases (store_reliability graph log r existing g1)) [
          | inl m ↦ rw (e, m, artifact_reliability_projector) same
          | inr ((k, g2), m) ↦
              rw (e, m, artifact_reliability_projector)
                (kept-relate_record (record_of_event n.event_id view) k g2
                  ∙ kept-store_reliability r existing g1 g2 k m
                  ∙ same)
        ]
      ]

  IsSound-step : {g h : G} → IsSound (kept graph g) → OutcomeStep g h → IsSound (kept graph h)
  IsSound-step sound (give_verdict a) = IsSound-record_explicit_verdict graph log a _ sound
  IsSound-step sound (record_maintenance t a) =
      IsSound-record_maintenance_outcome graph log t a (graph.objects _) _ refl sound
  IsSound-step sound (supersede k v rationale actor) =
      IsSound-supersede_evaluation graph log k v rationale actor _ sound
  IsSound-step sound (capture enabled k e view shows) =
      IsSound-evaluation_outcome_capture graph log enabled k e view _ shows sound
  IsSound-step sound (project s n view) =
      subst (λ x. IsSound x) (sym (kept-artifact_reliability_projector s n view _)) sound
  IsSound-step sound (add o h) = IsSound-add_object graph log o _ h sound

  pub IsSound-reach : {g h : G} → IsSound (kept graph g) → OutcomeReach g h → IsSound (kept graph h)
  IsSound-reach sound start = sound
  IsSound-reach sound (then_step r s) = IsSound-step (IsSound-reach sound r) s

  -- From a graph in which no contribution key stands for two outcome records and each record's key
  -- fits it, whatever sequence of verdicts, maintenance outcomes, supersessions, captures and
  -- projections follows, an evaluation has at most one terminal record, and a contribution key
  -- stands for at most one record.
  pub one_terminal_record :
      (g h : G)
      → IsSound (kept graph g)
      → OutcomeReach g h
      → ((k : ℕ) → terminal_records k (kept graph h) ≤ 1)
        × ((key : ContributionKey) → key_records key (kept graph h) ≤ 1)
  one_terminal_record g h sound reach =
      let there = IsSound-reach sound reach in
      (
        λ k.
            subst (λ x. x ≤ 1) (sym (terminal_records-key k (kept graph h) there.fit))
              (there.once (terminal_key k)),
        there.once,
      )
