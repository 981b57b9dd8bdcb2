-- ===== src/Outcome/Explicit.antt =====
-- A verdict that record_explicit_verdict_fn recorded, when evaluation_outcome_capture sees the
-- evaluation that it created.
use activegraph_packs.Base.{
  ℕ, String, Bool, true, false, Option, none, some, List, [], ◌∷◌, ◌≡◌, refl, sym, ap, ◌∙◌, subst,
  arith, lookup, lookup-append, str_eq, Bool-cases, Option-cases, inl, inr, ==_refl,
}
use activegraph_packs.Graph.{Graph, EventLog}
use activegraph_packs.Graph.Laws.{objects-try_relate}
use activegraph_packs.Outcome.{
  TerminalKind, helped, hurt, neutral, Contribution, Evaluation, Item, evaluation, OutcomeEvent,
  outcome, records, terminal_kind, terminal_record,
}
use activegraph_packs.Outcome.Operations.{
  Answer, answered, raised, Recorded, Trace, TerminalArgs, read_evaluation, subject_trace,
  verdict_mapping, terminal_contribution, record_contribution, record_trace, record_once,
  record_kind, record_terminal_outcome,
}
use activegraph_packs.Outcome.Verdicts.{
  VerdictArgs, VerdictSubject, verdict_subject, verdict_evaluation, verdict_terminal,
  with_evaluation, terminal_verdict, record_explicit_verdict,
}
use activegraph_packs.Outcome.Capture.{
  terminal_judgment, allowed_subject, capture_args, evaluation_outcome_capture,
}
use activegraph_packs.Outcome.Kept.{kept}
use activegraph_packs.Outcome.Standing.{
  Standing, record_terminal_outcome-Standing, record_terminal_outcome-stands,
}

-- What the two tables say of the same verdict.
record AgreesWith (event_type judgment : String) : Type 0 where
  kind : TerminalKind
  event_kind : terminal_kind event_type ≡ some kind
  captured : terminal_judgment judgment ≡ some event_type
  no_contradiction : str_eq judgment "contradicted" ≡ false

agrees_accept : AgreesWith "outcome.helped" "accepted"
unfolding terminal_kind terminal_judgment
agrees_accept = record {
  kind = helped;
  event_kind = refl;
  captured = refl;
  no_contradiction = refl;
}

agrees_reject : AgreesWith "outcome.hurt" "rejected"
unfolding terminal_kind terminal_judgment
agrees_reject = record { kind = hurt; event_kind = refl; captured = refl; no_contradiction = refl }

agrees_neutral : AgreesWith "outcome.neutral" "completed_neutrally"
unfolding terminal_kind terminal_judgment
agrees_neutral = record {
  kind = neutral;
  event_kind = refl;
  captured = refl;
  no_contradiction = refl;
}

same_mapping :
    (a b : String × String) → ◌≡◌ {A = Option (String × String)} (some a) (some b) → a ≡ b
same_mapping a b h = ground (arith, h)

verdict_mapping-AgreesWith :
    (v : String) (p : String × String) → verdict_mapping v ≡ some p → AgreesWith p.0 p.1
unfolding verdict_mapping
verdict_mapping-AgreesWith v p = elim (Bool-cases (str_eq v "accept")) [
  | inl e ↦ rw e (λ h. subst (λ q. AgreesWith q.0 q.1) (same_mapping _ p h) agrees_accept)
  | inr e ↦ elim (Bool-cases (str_eq v "reject")) [
    | inl f ↦ rw (e, f) (λ h. subst (λ q. AgreesWith q.0 q.1) (same_mapping _ p h) agrees_reject)
    | inr f ↦ elim (Bool-cases (str_eq v "neutral")) [
      | inl n ↦
          rw (e, f, n) (λ h. subst (λ q. AgreesWith q.0 q.1) (same_mapping _ p h) agrees_neutral)
      | inr n ↦ rw (e, f, n) (λ h. ground (arith, h))
    ]
  ]
]

module _ {G : Type 0} (graph : Graph Item G) (log : EventLog graph OutcomeEvent) where
  -- Recording leaves what an id names.
  lookup-record_contribution :
      (k : ℕ) (o : Item) (c : Contribution) (related : Option ℕ) (g : G)
      → lookup k (graph.objects g) ≡ some o
      → lookup k (graph.objects (record_contribution graph log c related g).1) ≡ some o
  unfolding record_contribution
  lookup-record_contribution k o c none g h =
      let g1 = (log.emit g (outcome c)).1 in
      ap (λ m. lookup k m) (graph.objects-add_object g1 _)
      ∙ lookup-append k (graph.objects g1) _
      ∙ rw (log.objects-emit g (outcome c), h) refl
  lookup-record_contribution k o c (some e) g h =
      let g1 = (log.emit g (outcome c)).1 in
      ap (λ m. lookup k m) (objects-try_relate graph _ _ e "records_evaluation")
      ∙ ap (λ m. lookup k m) (graph.objects-add_object g1 _)
      ∙ lookup-append k (graph.objects g1) _
      ∙ rw (log.objects-emit g (outcome c), h) refl

  lookup-record_trace :
      (k : ℕ) (o : Item) (kind : TerminalKind) (a : TerminalArgs) (t : Option Trace) (g : G)
      → lookup k (graph.objects g) ≡ some o
      → lookup k (graph.objects (record_trace graph log kind a t g).1) ≡ some o
  unfolding record_trace
  lookup-record_trace k o kind a none g h = h
  lookup-record_trace k o kind a (some t) g h =
      lookup-record_contribution k o (terminal_contribution kind a t) (some a.evaluation_id) g h

  lookup-record_terminal_outcome :
      (k : ℕ) (o : Item) (event_type : String) (a : TerminalArgs) (view : List (ℕ × Item)) (g : G)
      → lookup k (graph.objects g) ≡ some o
      → lookup k (graph.objects (record_terminal_outcome graph log event_type a view g).1) ≡ some o
  unfolding record_terminal_outcome record_kind record_once
  lookup-record_terminal_outcome k o event_type a view g h =
      elim (Option-cases (terminal_kind event_type)) [
        | inl n ↦ rw (n, record_terminal_outcome) h
        | inr (kind, n) ↦ elim (Option-cases (read_evaluation graph view a.evaluation_id g)) [
          | inl m ↦ rw (n, record_terminal_outcome, m, record_kind) h
          | inr (e, m) ↦ elim (Option-cases (terminal_record view a.evaluation_id)) [
            | inr (x, f) ↦ rw (n, record_terminal_outcome, m, record_kind, f, record_once) h
            | inl f ↦
                rw (n, record_terminal_outcome, m, record_kind, f, record_once)
                  (lookup-record_trace k o kind a (subject_trace view e a.subject) g h)
          ]
        ]
      ]

-- The event type that a verdict stands for.
abbrev pub event_of : Option (String × String) → Option String
event_of none = none
event_of (some p) = some p.0

with_evaluation-answered :
    (j k : ℕ) (x : Answer Recorded) (r : Recorded)
    → with_evaluation j x ≡ answered (k, r)
    → (j ≡ k) × (x ≡ answered r)
with_evaluation-answered j k (answered y) r h = ground (arith, h)
with_evaluation-answered j k (raised y) r h = ground (arith, h)

same_evaluation :
    (a b : Evaluation) → ◌≡◌ {A = Option Item} (some (evaluation a)) (some (evaluation b)) → a ≡ b
same_evaluation a b h = ground (arith, h)

module _ {G : Type 0} (graph : Graph Item G) (log : EventLog graph OutcomeEvent) where
  -- The capture of an evaluation that has a terminal record.
  capture-stands :
      (enabled : Bool) (event_type : String) (kind : TerminalKind) (k : ℕ) (e : Evaluation)
      (view : List (ℕ × Item)) (r : Recorded) (g : G)
      → terminal_judgment e.judgment ≡ some event_type
      → terminal_kind event_type ≡ some kind
      → str_eq e.judgment "contradicted" ≡ false
      → records view ≡ kept graph g
      → read_evaluation graph view k g ≡ some e
      → Standing kind k r (kept graph g)
      → evaluation_outcome_capture graph log enabled k e view g ≡ g
  unfolding evaluation_outcome_capture
  capture-stands false t kind k e view r g j m c shows known stands = refl
  capture-stands true t kind k e view r g j m c shows known stands =
      let run =
        record_terminal_outcome-stands graph log t kind kind (capture_args k e) view e r g m shows
          known stands in
      elim (Bool-cases (allowed_subject e)) [
        | inl n ↦ rw (c, j, n) (ap (λ x. x.1) run)
        | inr n ↦ rw (c, j, n) refl
      ]

  explicit-captured :
      (enabled : Bool) (a : VerdictArgs) (p : String × String) (s : VerdictSubject) (k : ℕ)
      (e : Evaluation) (view : List (ℕ × Item)) (r : Recorded) (g g' : G)
      → AgreesWith p.0 p.1
      → (let (j, g1) = graph.add_object g (evaluation (verdict_evaluation a p.1 s)) in
          terminal_verdict graph log p.0 j (verdict_terminal a j s.subject s.is_fixture) g1
          ≡ (answered (k, r), g'))
      → records view ≡ kept graph g'
      → graph.get_object g' k ≡ some (evaluation e)
      → read_evaluation graph view k g' ≡ some e
      → (evaluation_outcome_capture graph log enabled k e view g' ≡ g')
        × (terminal_judgment e.judgment ≡ some p.0)
  explicit-captured enabled a p s k e view r g g' agrees h shows there known =
      let e0 = verdict_evaluation a p.1 s in
      let (j, g1) = graph.add_object g (evaluation e0) in
      let t = verdict_terminal a j s.subject s.is_fixture in
      let m1 = graph.objects g1 in
      let run = record_terminal_outcome graph log p.0 t m1 g1 in
      let (same, answer) = with_evaluation-answered j k run.0 r (ap (λ x. x.0) h) in
      let left : run.1 ≡ g' = ap (λ x. x.1) h in
      let stands : Standing agrees.kind k r (kept graph g') =
        subst (λ i. Standing agrees.kind i r (kept graph g')) same
          (subst (λ (x : G). Standing agrees.kind j r (kept graph x)) left
            (record_terminal_outcome-Standing graph log p.0 agrees.kind t m1 r g1 agrees.event_kind
              refl answer)) in
      let added : lookup j (graph.objects g1) ≡ some (evaluation e0) =
        ap (λ m. lookup j m) (graph.objects-add_object g (evaluation e0))
        ∙ lookup-append j (graph.objects g) ((j, evaluation e0) ∷ [])
        ∙ rw (graph.add_object_fresh g (evaluation e0), ==_refl j) refl in
      let stays : lookup j (graph.objects g') ≡ some (evaluation e0) =
        subst (λ (x : G). lookup j (graph.objects x) ≡ some (evaluation e0)) left
          (lookup-record_terminal_outcome graph log j (evaluation e0) p.0 t m1 g1 added) in
      let is_e0 : e0 ≡ e = same_evaluation e0 e (
        sym (subst (λ i. lookup i (graph.objects g') ≡ some (evaluation e0)) same stays)
        ∙ sym (graph.get_object-objects g' k)
        ∙ there) in
      let judgment : p.1 ≡ e.judgment = ap (λ (x : Evaluation). x.judgment) is_e0 in
      let captured = subst (λ x. terminal_judgment x ≡ some p.0) judgment agrees.captured in
      (
        capture-stands enabled p.0 agrees.kind k e view r g' captured agrees.event_kind
            (subst (λ x. str_eq x "contradicted" ≡ false) judgment agrees.no_contradiction) shows
            known stands,
        captured,
      )

  -- Where record_explicit_verdict_fn creates an evaluation and answers, the capture of that
  -- evaluation, which its creation starts, leaves the graph alone, whether it is enabled or not,
  -- and the judgment that the evaluation has stands for the event that the verdict stands for. The
  -- capture's reader shows the graph's records and the evaluation.
  pub explicit_verdict_counted_once :
      (enabled : Bool) (a : VerdictArgs) (k : ℕ) (e : Evaluation) (view : List (ℕ × Item))
      (r : Recorded) (g g' : G)
      → a.evaluation_id ≡ none
      → record_explicit_verdict graph log a g ≡ (answered (k, r), g')
      → records view ≡ kept graph g'
      → graph.get_object g' k ≡ some (evaluation e)
      → read_evaluation graph view k g' ≡ some e
      → (evaluation_outcome_capture graph log enabled k e view g' ≡ g')
        × (terminal_judgment e.judgment ≡ event_of (verdict_mapping a.verdict))
  unfolding record_explicit_verdict
  explicit_verdict_counted_once enabled a k e view r g g' new =
      elim (Option-cases (verdict_mapping a.verdict)) [
        | inl n ↦ rw (n, record_explicit_verdict) (λ h. ground (arith, h))
        | inr (p, n) ↦ elim (Option-cases (verdict_subject a (graph.objects g))) [
          | inl w ↦ rw (n, new, w, record_explicit_verdict) (λ h. ground (arith, h))
          | inr (s, w) ↦
              rw (n, new, w, record_explicit_verdict)
                (explicit-captured enabled a p s k e view r g g'
                  (verdict_mapping-AgreesWith a.verdict p n))
        ]
      ]
