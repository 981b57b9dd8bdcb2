-- ===== src/Outcome/Corrections.antt =====
-- The invariant of the outcome records, through record_explicit_verdict_fn, supersede_evaluation_fn
-- and evaluation_outcome_capture.
use activegraph_packs.Base.{
  ℕ, String, Bool, true, false, Option, none, some, List, [], ◌∷◌, ◌++◌, ◌≡◌, refl, sym, ap, ◌∙◌,
  subst, arith, append-nil, Bool-cases, Option-cases, inl, inr,
}
use activegraph_packs.Graph.{Graph, EventLog}
use activegraph_packs.Outcome.{
  Contribution, OutcomeRecord, Evaluation, Item, evaluation, outcome_record, artifact_reliability,
  skill_usage, other, OutcomeEvent, records, truthy, terminal_record,
}
use activegraph_packs.Outcome.Operations.{
  Answer, answered, raised, Recorded, TerminalArgs, evaluation_of, verdict_mapping,
  record_maintenance_outcome,
}
use activegraph_packs.Outcome.Verdicts.{
  VerdictArgs, verdict_subject, verdict_evaluation, verdict_terminal, terminal_verdict,
  record_explicit_verdict,
}
use activegraph_packs.Outcome.Capture.{
  contradiction_args, capture_args, is_contradiction, allowed_subject, terminal_judgment,
  capture_contradiction, capture_terminal, evaluation_outcome_capture,
}
use activegraph_packs.Outcome.Supersession.{
  replacement_evaluation, supersession_args, replacement_args, replace_terminal, supersede_by,
  supersede_terminal, supersede_evaluation,
}
use activegraph_packs.Outcome.Records.{IsSound, records-add_object}
use activegraph_packs.Outcome.Kept.{
  kept, IsSound-record_terminal_outcome, IsSound-record_maintenance_outcome,
}

-- What is added beside the outcomes: an evaluation, a skill's usage, or an object of another type.
abbrev pub is_record : Item → Bool
is_record (outcome_record r) = true
is_record _ = false

records-no_record : (k : ℕ) (o : Item) → is_record o ≡ false → records ((k, o) ∷ []) ≡ []
unfolding records
records-no_record k (evaluation e) h = refl
records-no_record k (outcome_record r) h = ground arith
records-no_record k (artifact_reliability r) h = refl
records-no_record k (skill_usage u) h = refl
records-no_record k other h = refl

module _ {G : Type 0} (graph : Graph Item G) where
  pub kept-add_object :
      (g : G) (o : Item) → is_record o ≡ false → kept graph (graph.add_object g o).1 ≡ kept graph g
  kept-add_object g o h =
      records-add_object graph g o
      ∙ ap (λ rs. kept graph g ++ rs) (records-no_record (graph.add_object g o).0 o h)
      ∙ append-nil (kept graph g)

module _ {G : Type 0} (graph : Graph Item G) (log : EventLog graph OutcomeEvent) where
  IsSound-terminal_verdict :
      (event_type : String) (k : ℕ) (t : TerminalArgs) (g : G)
      → IsSound (kept graph g)
      → IsSound (kept graph (terminal_verdict graph log event_type k t g).1)
  IsSound-terminal_verdict event_type k t g sound =
      IsSound-record_terminal_outcome graph log event_type t (graph.objects g) g refl sound

  pub IsSound-add_object :
      (o : Item) (g : G)
      → is_record o ≡ false
      → IsSound (kept graph g)
      → IsSound (kept graph (graph.add_object g o).1)
  IsSound-add_object o g h sound = subst (λ x. IsSound x) (sym (kept-add_object graph g o h)) sound

  pub IsSound-record_explicit_verdict :
      (a : VerdictArgs) (g : G)
      → IsSound (kept graph g)
      → IsSound (kept graph (record_explicit_verdict graph log a g).1)
  unfolding record_explicit_verdict
  IsSound-record_explicit_verdict a g sound = elim (Option-cases (verdict_mapping a.verdict)) [
    | inl n ↦ rw (n, record_explicit_verdict) sound
    | inr ((event_type, judgment), n) ↦ elim (Option-cases a.evaluation_id) [
      | inr (k, m) ↦
          let t = verdict_terminal a k a.subject a.is_fixture in
          rw (n, m, record_explicit_verdict) (IsSound-terminal_verdict event_type k t g sound)
      | inl m ↦ elim (Option-cases (verdict_subject a (graph.objects g))) [
        | inl w ↦ rw (n, m, w, record_explicit_verdict) sound
        | inr (s, w) ↦
            let o = evaluation (verdict_evaluation a judgment s) in
            let (k, g1) = graph.add_object g o in
            rw (n, m, w, record_explicit_verdict)
              (IsSound-terminal_verdict event_type k (verdict_terminal a k s.subject s.is_fixture)
                g1 (IsSound-add_object o g refl sound))
      ]
    ]
  ]

  IsSound-replace_terminal :
      (k : ℕ) (event_type rationale actor : String) (c : Contribution) (first : Answer Recorded)
      (g : G)
      → IsSound (kept graph g)
      → IsSound (kept graph (replace_terminal graph log k event_type rationale actor c first g).1)
  unfolding replace_terminal
  IsSound-replace_terminal k event_type rationale actor c (raised x) g sound = sound
  IsSound-replace_terminal k event_type rationale actor c (answered s) g sound =
      IsSound-record_terminal_outcome graph log event_type (replacement_args k rationale actor c)
        (graph.objects g) g refl sound

  IsSound-supersede_terminal :
      (k : ℕ) (verdict rationale actor : String) (found : Option (ℕ × OutcomeRecord)) (g : G)
      → IsSound (kept graph g)
      → IsSound (kept graph (supersede_terminal graph log k verdict rationale actor found g).1)
  unfolding supersede_terminal supersede_by
  IsSound-supersede_terminal k verdict rationale actor none g sound = sound
  IsSound-supersede_terminal k verdict rationale actor (some (j, r)) g sound =
      elim (Option-cases (verdict_mapping verdict)) [
        | inl n ↦ rw (n, supersede_terminal) sound
        | inr ((event_type, judgment), n) ↦
            let c = r.contribution in
            let o = evaluation (replacement_evaluation k judgment rationale actor c) in
            let (i, g1) = graph.add_object g o in
            let args = supersession_args k i rationale actor c in
            let run =
              record_maintenance_outcome graph log "outcome.superseded" args (graph.objects g1)
                g1 in
            rw (n, supersede_terminal)
              (IsSound-replace_terminal i event_type rationale actor c run.0 run.1 (
                IsSound-record_maintenance_outcome graph log "outcome.superseded" args
                  (graph.objects g1) g1 refl (IsSound-add_object o g refl sound)))
      ]

  pub IsSound-supersede_evaluation :
      (k : ℕ) (verdict rationale actor : String) (g : G)
      → IsSound (kept graph g)
      → IsSound (kept graph (supersede_evaluation graph log k verdict rationale actor g).1)
  unfolding supersede_evaluation
  IsSound-supersede_evaluation k verdict rationale actor g sound =
      elim (Option-cases (evaluation_of (graph.get_object g k))) [
        | inl n ↦ rw (n, supersede_evaluation) sound
        | inr (e, n) ↦
            rw (n, supersede_evaluation)
              (IsSound-supersede_terminal k verdict rationale actor
                (terminal_record (graph.objects g) k) g sound)
      ]

  IsSound-capture_contradiction :
      (k : ℕ) (e : Evaluation) (revision : Option ℕ) (view : List (ℕ × Item)) (g : G)
      → records view ≡ kept graph g
      → IsSound (kept graph g)
      → IsSound (kept graph (capture_contradiction graph log k e revision view g))
  IsSound-capture_contradiction k e none view g shows sound = sound
  IsSound-capture_contradiction k e (some r) view g shows sound =
      IsSound-record_maintenance_outcome graph log "outcome.contradicted" (contradiction_args k e r)
        view g shows sound

  IsSound-capture_terminal :
      (k : ℕ) (e : Evaluation) (found : Option String) (view : List (ℕ × Item)) (g : G)
      → records view ≡ kept graph g
      → IsSound (kept graph g)
      → IsSound (kept graph (capture_terminal graph log k e found view g))
  IsSound-capture_terminal k e none view g shows sound = sound
  IsSound-capture_terminal k e (some t) view g shows sound =
      let h = IsSound-record_terminal_outcome graph log t (capture_args k e) view g shows sound in
      elim (Bool-cases (allowed_subject e)) [ inl n ↦ rw n h | inr n ↦ rw n sound ]

  pub IsSound-evaluation_outcome_capture :
      (enabled : Bool) (k : ℕ) (e : Evaluation) (view : List (ℕ × Item)) (g : G)
      → records view ≡ kept graph g
      → IsSound (kept graph g)
      → IsSound (kept graph (evaluation_outcome_capture graph log enabled k e view g))
  unfolding evaluation_outcome_capture
  IsSound-evaluation_outcome_capture false k e view g shows sound = sound
  IsSound-evaluation_outcome_capture true k e view g shows sound =
      let revision = truthy e.metadata.evidence_revision_id in
      let found = terminal_judgment e.judgment in
      elim (Bool-cases (is_contradiction e)) [
        | inl n ↦ rw n (IsSound-capture_contradiction k e revision view g shows sound)
        | inr n ↦ rw n (IsSound-capture_terminal k e found view g shows sound)
      ]
