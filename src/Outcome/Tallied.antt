-- ===== src/Outcome/Tallied.antt =====
-- What the reliability of an artifact says after any sequence of outcome events.
use activegraph_packs.Base.{
  ℕ, ◌+◌, Bool, true, false, not, ◌&&◌, Option, some, List, [], ◌∷◌, ◌≡◌, refl, ap, ◌∙◌, subst,
  arith, count, All, if◌then◌else◌, ◌==◌, ==_refl, ==_iff, Bool-cases, inl, inr,
}
use activegraph_packs.Graph.{Graph, EventLog}
use activegraph_packs.Outcome.{
  helped, hurt, neutral, contradicted, stale, superseded, OutcomeKind, terminal, maintenance,
  Tallies, ArtifactReliability, OutcomeSettings, Item, OutcomeEvent, terminal_eq, maintenance_eq,
  get_reliability,
}
use activegraph_packs.Outcome.Projector.{
  OutcomeNotice, projected, tally, tallies_of, first_reliability, artifact_reliability_projector,
  verdict_and_multiplier, is_eligible,
}
use activegraph_packs.Outcome.Reliability.{OneEach, rels, last-first}
use activegraph_packs.Outcome.Projected.{names_artifact, projector-Rewritten}

abbrev pub kind_eq : OutcomeKind → OutcomeKind → Bool
kind_eq (terminal a) (terminal b) = terminal_eq a b
kind_eq (maintenance a) (maintenance b) = maintenance_eq a b
kind_eq _ _ = false

-- The tally of one kind.
abbrev pub tally_of : OutcomeKind → Tallies → ℕ
tally_of (terminal helped) t = t.helped
tally_of (terminal hurt) t = t.hurt
tally_of (terminal neutral) t = t.neutral
tally_of (maintenance contradicted) t = t.contradicted
tally_of (maintenance stale) t = t.stale
tally_of (maintenance superseded) t = t.superseded

-- The events of this kind that are about the artifact.
abbrev pub is_about : ℕ → OutcomeKind → OutcomeNotice → Bool
is_about a kind n = n.payload.artifact_id == a && kind_eq n.payload.outcome_type kind

tally_of-tally :
    (k j : OutcomeKind) (t : Tallies)
    → tally_of j (tally k t) ≡ tally_of j t + (if kind_eq k j then 1 else 0)
unfolding tally
tally_of-tally (terminal helped) j t = ground arith
tally_of-tally (terminal hurt) j t = ground arith
tally_of-tally (terminal neutral) j t = ground arith
tally_of-tally (maintenance contradicted) j t = ground arith
tally_of-tally (maintenance stale) j t = ground arith
tally_of-tally (maintenance superseded) j t = ground arith

-- The projector's verdict on the kind of an outcome, and the reverse.
abbrev pub is_harmful : OutcomeKind → Bool
is_harmful (terminal hurt) = true
is_harmful (terminal k) = false
is_harmful (maintenance k) = true

eligible-verdict :
    (k : OutcomeKind) (s : OutcomeSettings)
    → is_eligible (verdict_and_multiplier k s).0 ≡ not (is_harmful k)
unfolding verdict_and_multiplier
eligible-verdict (terminal helped) s = refl
eligible-verdict (terminal hurt) s = refl
eligible-verdict (terminal neutral) s = refl
eligible-verdict (maintenance contradicted) s = refl
eligible-verdict (maintenance stale) s = refl
eligible-verdict (maintenance superseded) s = refl

projected-tallies :
    (s : OutcomeSettings) (n : OutcomeNotice) (o : Option (ℕ × ArtifactReliability))
    (j : OutcomeKind)
    → tally_of j (projected s n o).tallies
      ≡ tally_of j (tallies_of o) + (if kind_eq n.payload.outcome_type j then 1 else 0)
unfolding projected
projected-tallies s n o j = tally_of-tally n.payload.outcome_type j (tallies_of o)

projected-artifact :
    (s : OutcomeSettings) (n : OutcomeNotice) (o : Option (ℕ × ArtifactReliability))
    → (projected s n o).artifact_id ≡ n.payload.artifact_id
unfolding projected
projected-artifact s n o = refl

module _ {G : Type 0} (graph : Graph Item G) (log : EventLog graph OutcomeEvent) where
  -- The projector runs on each event, with a reader that shows the graph.
  abbrev pub project_all : OutcomeSettings → List OutcomeNotice → G → G
  project_all s [] g = g
  project_all s (n ∷ ns) g =
      project_all s ns (artifact_reliability_projector graph log s n (graph.objects g) g)

  abbrev pub tallied : OutcomeKind → ℕ → G → ℕ
  tallied j a g = tally_of j (tallies_of (first_reliability a (rels graph g)))

  -- What the step says of the artifact that the event is about.
  first-own :
      (s : OutcomeSettings) (n : OutcomeNotice) (g : G)
      → s.enabled ≡ true
      → names_artifact n ≡ true
      → OneEach (rels graph g)
      → (k : ℕ) × (first_reliability n.payload.artifact_id
            (rels graph (artifact_reliability_projector graph log s n (graph.objects g) g))
          ≡ some (k, projected s n (first_reliability n.payload.artifact_id (rels graph g))))
  first-own s n g enabled named one =
      let existing = first_reliability n.payload.artifact_id (rels graph g) in
      let w = projector-Rewritten graph log s n g enabled named one in
      (
        w.id,
        w.first n.payload.artifact_id
            ∙ rw (projected-artifact s n existing, ==_refl n.payload.artifact_id) refl,
      )

  tallied-step :
      (s : OutcomeSettings) (n : OutcomeNotice) (j : OutcomeKind) (a : ℕ) (g : G)
      → s.enabled ≡ true
      → names_artifact n ≡ true
      → OneEach (rels graph g)
      → tallied j a (artifact_reliability_projector graph log s n (graph.objects g) g)
        ≡ tallied j a g + (if is_about a j n then 1 else 0)
  tallied-step s n j a g enabled named one =
      let existing = first_reliability n.payload.artifact_id (rels graph g) in
      let g' = artifact_reliability_projector graph log s n (graph.objects g) g in
      elim (Bool-cases (n.payload.artifact_id == a)) [
        | inl e ↦
            let (k, own) = first-own s n g enabled named one in
            let same = (==_iff n.payload.artifact_id a).0 e in
            let counted : tallied j n.payload.artifact_id g'
                ≡ tallied j n.payload.artifact_id g
                  + (if kind_eq n.payload.outcome_type j then 1 else 0) =
              ap (λ o. tally_of j (tallies_of o)) own ∙ projected-tallies s n existing j in
            rw e (
              subst
                (λ b.
                  tallied j b g'
                  ≡ tallied j b g + (if kind_eq n.payload.outcome_type j then 1 else 0))
                same counted)
        | inr e ↦
            let w = projector-Rewritten graph log s n g enabled named one in
            let still : first_reliability a (rels graph g') ≡ first_reliability a (rels graph g) =
              w.first a ∙ rw (projected-artifact s n existing, e) refl in
            rw (still, e) (omega arith)
      ]

  -- The projector runs on events that name artifacts, from a graph in which no artifact and no id
  -- stands for two reliabilities: an artifact's tally of each kind grows by the number of the
  -- events of that kind that are about it, and no artifact comes to have two reliabilities.
  pub reliability_counts :
      (s : OutcomeSettings) (ns : List OutcomeNotice) (j : OutcomeKind) (a : ℕ) (g : G)
      → s.enabled ≡ true
      → All (λ n. names_artifact n ≡ true) ns
      → OneEach (rels graph g)
      → (tallied j a (project_all s ns g) ≡ tallied j a g + count (is_about a j) ns)
        × OneEach (rels graph (project_all s ns g))
  reliability_counts s [] j a g enabled named one = (omega arith, one)
  reliability_counts s (n ∷ ns) j a g enabled named one =
      let w = projector-Rewritten graph log s n g enabled named.0 one in
      let g' = artifact_reliability_projector graph log s n (graph.objects g) g in
      let (rest, still) = reliability_counts s ns j a g' enabled named.1 w.one in
      (omega (arith, tallied-step s n j a g enabled named.0 one, rest), still)

  -- What get_reliability_fn reads after the projector ran on an event that names an artifact, from
  -- a graph in which no artifact and no id stands for two reliabilities: the artifact's reliability,
  -- with the event's id, kind, evaluation and usage as the latest, and eligible unless the outcome
  -- is hurt, contradicted, stale or superseded, whatever went before.
  pub get_reliability_latest :
      (s : OutcomeSettings) (n : OutcomeNotice) (g : G)
      → s.enabled ≡ true
      → names_artifact n ≡ true
      → OneEach (rels graph g)
      → (k : ℕ) × (r : ArtifactReliability) × (get_reliability
            (graph.objects (artifact_reliability_projector graph log s n (graph.objects g) g))
            n.payload.artifact_id
          ≡ some (k, r))
        × (r.artifact_id ≡ n.payload.artifact_id)
        × (r.latest_outcome_event_id ≡ n.event_id)
        × (r.latest_outcome_type ≡ n.payload.outcome_type)
        × (r.latest_evaluation_id ≡ n.payload.evaluation_id)
        × (r.latest_usage_id ≡ n.payload.usage_id)
        × (r.eligible ≡ not (is_harmful n.payload.outcome_type))
  unfolding get_reliability projected
  get_reliability_latest s n g enabled named one =
      let a = n.payload.artifact_id in
      let w = projector-Rewritten graph log s n g enabled named one in
      let g' = artifact_reliability_projector graph log s n (graph.objects g) g in
      let (k, own) = first-own s n g enabled named one in
      (
        k,
        projected s n (first_reliability a (rels graph g)),
        last-first a (rels graph g') (w.one.artifacts a) ∙ own,
        refl,
        refl,
        refl,
        refl,
        refl,
        eligible-verdict n.payload.outcome_type s,
      )
