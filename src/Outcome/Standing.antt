-- ===== src/Outcome/Standing.antt =====
-- The terminal record that an evaluation has after record_terminal_outcome_fn answered, and what a
-- later call of it does.
use activegraph_packs.Base.{
  ℕ, String, Bool, true, false, Option, none, some, List, ◌≡◌, refl, sym, ap, ◌∙◌, subst, arith,
  find?, find?-append, if◌then◌else◌, Option-cases, inl, inr, ==_refl,
}
use activegraph_packs.Graph.{Graph, EventLog}
use activegraph_packs.Outcome.{
  TerminalKind, terminal, Contribution, OutcomeRecord, Evaluation, Item, OutcomeEvent, has_terminal,
  terminal_eq, records, is_terminal_of, terminal_kind, terminal_record,
}
use activegraph_packs.Outcome.Operations.{
  Answer, answered, raised, Recorded, Trace, TerminalArgs, existing_answer, read_evaluation,
  subject_trace, terminal_contribution, record_contribution, record_trace, record_once, record_kind,
  record_terminal_outcome,
}
use activegraph_packs.Outcome.Records.{record_contribution-AddsRecord}
use activegraph_packs.Outcome.Kept.{kept}

-- The record that an answer names is the evaluation's terminal record, of this kind.
pub record Standing (kind : TerminalKind) (k : ℕ) (r : Recorded) (rs : List (ℕ × OutcomeRecord))
    : Type 0 where
  pub found : find? (λ e. is_terminal_of k e.1) rs ≡ some (r.record_id, r.kept)
  pub value : r.kept.contribution.outcome_type ≡ terminal kind

same_answer : (r s : Recorded) → ◌≡◌ {A = Answer Recorded} (answered r) (answered s) → s ≡ r
same_answer r s h = ground arith

existing_answer-same :
    (kind : TerminalKind) (j : ℕ) (x : OutcomeRecord) (r : Recorded)
    → existing_answer kind j x ≡ answered r
    → (◌≡◌ {A = ℕ × OutcomeRecord} (j, x) (r.record_id, r.kept))
      × (x.contribution.outcome_type ≡ terminal kind)
unfolding existing_answer
existing_answer-same kind j x r h = ground (arith, h)

existing_answer-Standing :
    (kind : TerminalKind) (k j : ℕ) (x : OutcomeRecord) (r : Recorded)
    (rs : List (ℕ × OutcomeRecord))
    → find? (λ e. is_terminal_of k e.1) rs ≡ some (j, x)
    → existing_answer kind j x ≡ answered r
    → Standing kind k r rs
existing_answer-Standing kind k j x r rs f h =
    let (same, value) = existing_answer-same kind j x r h in
    record {
      found = f ∙ ap some same;
      value =
          subst (λ (y : ℕ × OutcomeRecord). y.1.contribution.outcome_type ≡ terminal kind) same
            value;
    }

-- What a record that stands answers to a new value.
existing_answer-value :
    (kind old : TerminalKind) (k : ℕ) (x : OutcomeRecord)
    → x.contribution.outcome_type ≡ terminal old
    → existing_answer kind k x ≡ (
        if terminal_eq old kind
        then answered record { created = false; record_id = k; kept = x }
        else raised has_terminal)
unfolding existing_answer
existing_answer-value kind old k x h = rw h refl

module _ {G : Type 0} (graph : Graph Item G) (log : EventLog graph OutcomeEvent) where
  record_trace-Standing :
      (kind : TerminalKind) (a : TerminalArgs) (trace : Option Trace) (r : Recorded) (g : G)
      → find? (λ e. is_terminal_of a.evaluation_id e.1) (kept graph g) ≡ none
      → (record_trace graph log kind a trace g).0 ≡ answered r
      → Standing kind a.evaluation_id r (kept graph (record_trace graph log kind a trace g).1)
  unfolding record_trace
  record_trace-Standing kind a none r g f h = ground (arith, h)
  record_trace-Standing kind a (some trace) r g f h =
      let c = terminal_contribution kind a trace in
      let adds = record_contribution-AddsRecord graph log c (some a.evaluation_id) g in
      let same = same_answer _ _ (sym h ∙ adds.answer_is) in
      let r0 : Recorded = record { created = true; record_id = adds.id; kept = adds.kept } in
      let own : is_terminal_of a.evaluation_id adds.kept ≡ true =
        rw (adds.content, ==_refl a.evaluation_id) refl in
      let g' = (record_contribution graph log c (some a.evaluation_id) g).1 in
      let stands : Standing kind a.evaluation_id r0 (kept graph g') = record {
        found = rw adds.records_are (
            find?-append (λ e. is_terminal_of a.evaluation_id e.1) (kept graph g)
              (adds.id, adds.kept) f own);
        value = ap (λ (x : Contribution). x.outcome_type) adds.content;
      } in
      subst (λ x. Standing kind a.evaluation_id x (kept graph g')) same stands

  record_once-Standing :
      (kind : TerminalKind) (a : TerminalArgs) (view : List (ℕ × Item)) (e : Evaluation)
      (r : Recorded) (g : G)
      → records view ≡ kept graph g
      → (record_once graph log kind a view e g).0 ≡ answered r
      → Standing kind a.evaluation_id r (kept graph (record_once graph log kind a view e g).1)
  unfolding record_once terminal_record
  record_once-Standing kind a view e r g shows =
      let p : ℕ × OutcomeRecord → Bool = λ x. is_terminal_of a.evaluation_id x.1 in
      elim (Option-cases (terminal_record view a.evaluation_id)) [
        | inl n ↦
            rw (n, record_once)
              (λ h.
                record_trace-Standing kind a (subject_trace view e a.subject) r g
                  (subst (λ x. find? p x ≡ none) shows n) h)
        | inr ((k, x), n) ↦
            rw (n, record_once)
              (λ h.
                existing_answer-Standing kind a.evaluation_id k x r (kept graph g)
                  (subst (λ y. find? p y ≡ some (k, x)) shows n) h)
      ]

  record_kind-Standing :
      (kind : TerminalKind) (a : TerminalArgs) (view : List (ℕ × Item)) (r : Recorded) (g : G)
      → records view ≡ kept graph g
      → (record_kind graph log kind a view g).0 ≡ answered r
      → Standing kind a.evaluation_id r (kept graph (record_kind graph log kind a view g).1)
  unfolding record_kind
  record_kind-Standing kind a view r g shows =
      elim (Option-cases (read_evaluation graph view a.evaluation_id g)) [
        | inl n ↦ rw (n, record_kind) (λ h. ground (arith, h))
        | inr (e, n) ↦ rw (n, record_kind) (record_once-Standing kind a view e r g shows)
      ]

  pub record_terminal_outcome-Standing :
      (event_type : String) (kind : TerminalKind) (a : TerminalArgs) (view : List (ℕ × Item))
      (r : Recorded) (g : G)
      → terminal_kind event_type ≡ some kind
      → records view ≡ kept graph g
      → (record_terminal_outcome graph log event_type a view g).0 ≡ answered r
      → Standing kind a.evaluation_id r
          (kept graph (record_terminal_outcome graph log event_type a view g).1)
  unfolding record_terminal_outcome
  record_terminal_outcome-Standing event_type kind a view r g n shows =
      rw (n, record_terminal_outcome) (record_kind-Standing kind a view r g shows)

  -- A call for an evaluation that has a terminal record.
  pub record_terminal_outcome-stands :
      (event_type : String) (kind old : TerminalKind) (a : TerminalArgs) (view : List (ℕ × Item))
      (e : Evaluation) (r : Recorded) (g : G)
      → terminal_kind event_type ≡ some kind
      → records view ≡ kept graph g
      → read_evaluation graph view a.evaluation_id g ≡ some e
      → Standing old a.evaluation_id r (kept graph g)
      → record_terminal_outcome graph log event_type a view g ≡ (
        if terminal_eq old kind
            then answered record { created = false; record_id = r.record_id; kept = r.kept }
            else raised has_terminal,
        g,
      )
  unfolding record_terminal_outcome record_kind record_once terminal_record
  record_terminal_outcome-stands event_type kind old a view e r g n shows known stands =
      let p : ℕ × OutcomeRecord → Bool = λ x. is_terminal_of a.evaluation_id x.1 in
      let found : terminal_record view a.evaluation_id ≡ some (r.record_id, r.kept) =
        subst (λ x. find? p x ≡ some (r.record_id, r.kept)) (sym shows) stands.found in
      rw (n, record_terminal_outcome, known, record_kind, found, record_once)
        (ap (λ x. (x, g)) (existing_answer-value kind old r.record_id r.kept stands.value))

  -- Once recording an evaluation's terminal outcome has answered, the evaluation keeps that value:
  -- where the reader shows the graph's records and the evaluation, a later call for the same
  -- evaluation leaves the graph alone, and answers the same record for the same value and raises
  -- for another one.
  pub terminal_outcome_stands :
      (first then_type : String) (old kind : TerminalKind) (a b : TerminalArgs)
      (view : List (ℕ × Item)) (e : Evaluation) (r : Recorded) (g g' : G)
      → terminal_kind first ≡ some old
      → terminal_kind then_type ≡ some kind
      → b.evaluation_id ≡ a.evaluation_id
      → record_terminal_outcome graph log first a (graph.objects g) g ≡ (answered r, g')
      → records view ≡ kept graph g'
      → read_evaluation graph view b.evaluation_id g' ≡ some e
      → record_terminal_outcome graph log then_type b view g' ≡ (
        if terminal_eq old kind
            then answered record { created = false; record_id = r.record_id; kept = r.kept }
            else raised has_terminal,
        g',
      )
  terminal_outcome_stands first then_type old kind a b view e r g g' m n same answer shows known =
      let stands : Standing old a.evaluation_id r (kept graph g') =
        subst (λ (x : G). Standing old a.evaluation_id r (kept graph x)) (ap (λ x. x.1) answer)
          (record_terminal_outcome-Standing first old a (graph.objects g) r g m refl
            (ap (λ x. x.0) answer)) in
      record_terminal_outcome-stands then_type kind old b view e r g' n shows known
        (subst (λ k. Standing old k r (kept graph g')) (sym same) stands)
