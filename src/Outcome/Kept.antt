-- ===== src/Outcome/Kept.antt =====
-- The invariant of the outcome records, through record_terminal_outcome_fn and
-- record_maintenance_outcome_fn.
use activegraph_packs.Base.{
  ℕ, String, true, Option, none, some, List, ◌≡◌, refl, sym, ◌∙◌, subst, count-find?, Bool-cases,
  Option-cases, inl, inr, ==_refl,
}
use activegraph_packs.Graph.{Graph, EventLog}
use activegraph_packs.Outcome.{
  TerminalKind, MaintenanceKind, Contribution, OutcomeRecord, Evaluation, Item, OutcomeEvent,
  contribution_eq, records, truthy, is_terminal_of, terminal_kind, maintenance_kind,
  terminal_record, contribution_record,
}
use activegraph_packs.Outcome.Operations.{
  Trace, TerminalArgs, MaintenanceArgs, maintenance_key_of, record_contribution, record_trace,
  record_once, record_kind, record_terminal_outcome, maintain, record_maintenance_outcome,
  subject_trace, terminal_contribution, maintenance_contribution, maintenance_error,
  read_evaluation, evaluation_missing,
}
use activegraph_packs.Outcome.Records.{
  fits_key, key_records, terminal_records, IsSound, IsSound-add, maintenance_eq_refl,
  terminal_records-key, kept_records, record_contribution-AddsRecord,
}

module _ {G : Type 0} (graph : Graph Item G) where
  abbrev pub kept : G → List (ℕ × OutcomeRecord)
  kept = kept_records graph

module _ {G : Type 0} (graph : Graph Item G) (log : EventLog graph OutcomeEvent) where
  IsSound-record_contribution :
      (c : Contribution) (related : Option ℕ) (g : G)
      → IsSound (kept graph g)
      → fits_key c.outcome_type c.contribution_key c.evaluation_id c.artifact_id ≡ true
      → key_records c.contribution_key (kept graph g) ≡ 0
      → IsSound (kept graph (record_contribution graph log c related g).1)
  IsSound-record_contribution c related g sound fit fresh =
      let adds = record_contribution-AddsRecord graph log c related g in
      let r = adds.kept in
      let same = sym adds.content in
      subst (λ x. IsSound x) (sym adds.records_are)
        (IsSound-add (kept graph g) adds.id r sound
          (subst
            (λ x. fits_key x.outcome_type x.contribution_key x.evaluation_id x.artifact_id ≡ true)
            same fit)
          (subst (λ x. key_records x.contribution_key (kept graph g) ≡ 0) same fresh))

  IsSound-record_trace :
      (kind : TerminalKind) (a : TerminalArgs) (trace : Option Trace) (g : G)
      → IsSound (kept graph g)
      → terminal_records a.evaluation_id (kept graph g) ≡ 0
      → IsSound (kept graph (record_trace graph log kind a trace g).1)
  unfolding record_trace
  IsSound-record_trace kind a none g sound fresh = sound
  IsSound-record_trace kind a (some trace) g sound fresh =
      IsSound-record_contribution (terminal_contribution kind a trace) (some a.evaluation_id) g
        sound (==_refl a.evaluation_id)
        (sym (terminal_records-key a.evaluation_id (kept graph g) sound.fit) ∙ fresh)

  IsSound-record_once :
      (kind : TerminalKind) (a : TerminalArgs) (view : List (ℕ × Item)) (e : Evaluation) (g : G)
      → records view ≡ kept graph g
      → IsSound (kept graph g)
      → IsSound (kept graph (record_once graph log kind a view e g).1)
  unfolding record_once terminal_record
  IsSound-record_once kind a view e g shows sound =
      elim (Option-cases (terminal_record view a.evaluation_id)) [
        | inl n ↦
            rw (n, record_once)
              (IsSound-record_trace kind a (subject_trace view e a.subject) g sound (
                subst (λ x. terminal_records a.evaluation_id x ≡ 0) shows
                  (count-find? (λ x. is_terminal_of a.evaluation_id x.1) (records view) n)))
        | inr ((k, r), n) ↦ rw (n, record_once) sound
      ]

  IsSound-record_kind :
      (kind : TerminalKind) (a : TerminalArgs) (view : List (ℕ × Item)) (g : G)
      → records view ≡ kept graph g
      → IsSound (kept graph g)
      → IsSound (kept graph (record_kind graph log kind a view g).1)
  unfolding record_kind
  IsSound-record_kind kind a view g shows sound =
      elim (Option-cases (read_evaluation graph view a.evaluation_id g)) [
        | inl n ↦ rw (n, record_kind) sound
        | inr (e, n) ↦ rw (n, record_kind) (IsSound-record_once kind a view e g shows sound)
      ]

  pub IsSound-record_terminal_outcome :
      (event_type : String) (a : TerminalArgs) (view : List (ℕ × Item)) (g : G)
      → records view ≡ kept graph g
      → IsSound (kept graph g)
      → IsSound (kept graph (record_terminal_outcome graph log event_type a view g).1)
  unfolding record_terminal_outcome
  IsSound-record_terminal_outcome event_type a view g shows sound =
      elim (Option-cases (terminal_kind event_type)) [
        | inl n ↦ rw (n, record_terminal_outcome) sound
        | inr (kind, n) ↦
            rw (n, record_terminal_outcome) (IsSound-record_kind kind a view g shows sound)
      ]

  IsSound-maintain :
      (kind : MaintenanceKind) (a : MaintenanceArgs) (view : List (ℕ × Item)) (g : G)
      → records view ≡ kept graph g
      → IsSound (kept graph g)
      → IsSound (kept graph (maintain graph log kind a view g).1)
  unfolding maintain contribution_record
  IsSound-maintain kind a view g shows sound =
      let key = maintenance_key_of kind a in
      let missing = evaluation_missing graph (truthy a.evaluation_id) view g in
      elim (Option-cases (contribution_record view key)) [
        | inr (e, n) ↦ rw (n, maintain) sound
        | inl n ↦ elim (Bool-cases missing) [
          | inl b ↦ rw (n, b, maintain) sound
          | inr b ↦
              rw (n, b, maintain)
                (IsSound-record_contribution (maintenance_contribution kind a)
                  (truthy a.evaluation_id) g sound
                  (rw (==_refl a.artifact_id, maintenance_eq_refl kind) refl)
                  (subst (λ x. key_records key x ≡ 0) shows
                    (count-find? (λ x. contribution_eq x.1.contribution.contribution_key key)
                      (records view) n)))
        ]
      ]

  pub IsSound-record_maintenance_outcome :
      (event_type : String) (a : MaintenanceArgs) (view : List (ℕ × Item)) (g : G)
      → records view ≡ kept graph g
      → IsSound (kept graph g)
      → IsSound (kept graph (record_maintenance_outcome graph log event_type a view g).1)
  unfolding record_maintenance_outcome
  IsSound-record_maintenance_outcome event_type a view g shows sound =
      elim (Option-cases (maintenance_kind event_type)) [
        | inl n ↦ rw (n, record_maintenance_outcome) sound
        | inr (kind, n) ↦ elim (Option-cases (maintenance_error kind a)) [
          | inr (x, m) ↦ rw (n, m, record_maintenance_outcome) sound
          | inl m ↦
              rw (n, m, record_maintenance_outcome) (IsSound-maintain kind a view g shows sound)
        ]
      ]
