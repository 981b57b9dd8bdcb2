-- ===== src/Outcome/Multipliers.antt =====
-- The multipliers that artifact_reliability_projector writes.
use activegraph_packs.Base.{
  ℕ, true, false, Bool, Option, none, some, List, [], ◌∷◌, ◌≡◌, refl, sym, ap, ◌∙◌, All, ◌==◌,
  Bool-cases, Option-cases, inl, inr, if◌then◌else◌,
}
use activegraph_packs.Graph.{Graph, EventLog}
use activegraph_packs.Outcome.{
  helped, hurt, neutral, contradicted, stale, superseded, OutcomeKind, terminal, maintenance,
  ArtifactReliability, OutcomeSettings, Item, OutcomeEvent, get_reliability,
}
use activegraph_packs.Outcome.Projector.{
  OutcomeNotice, projected, first_reliability, artifact_reliability_projector,
  verdict_and_multiplier,
}
use activegraph_packs.Outcome.Reliability.{OneEach, rels, last-first}
use activegraph_packs.Outcome.Projected.{names_artifact, projector-Rewritten}
use activegraph_packs.Outcome.Tallied.{project_all, reliability_counts}

-- The kind of the last of the events that are about an artifact.
abbrev pub latest_kind : ℕ → List OutcomeNotice → Option OutcomeKind
latest_kind a [] = none
latest_kind a (n ∷ ns) =
    let later = latest_kind a ns in
    elim later [
      | some k ↦ some k
      | none ↦ if n.payload.artifact_id == a then some n.payload.outcome_type else none
    ]

abbrev is_contrary : OutcomeKind → Bool
is_contrary (terminal hurt) = true
is_contrary (maintenance contradicted) = true
is_contrary _ = false

abbrev is_helpful : OutcomeKind → Bool
is_helpful (terminal helped) = true
is_helpful _ = false

abbrev is_terminal : OutcomeKind → Bool
is_terminal (terminal k) = true
is_terminal (maintenance k) = false

-- The setting that fits a kind: help, harm, the other ends of an evaluation, the other maintenance.
abbrev pub setting_for : OutcomeSettings → OutcomeKind → ℕ
setting_for s k =
    if is_contrary k
    then s.harmful_retrieval_multiplier
    else if is_helpful k
    then s.supported_retrieval_multiplier
    else if is_terminal k
    then s.weak_retrieval_multiplier
    else s.stale_retrieval_multiplier

-- The setting for the last event, or what was there before where no event was about the artifact.
abbrev pub setting_or : OutcomeSettings → ℕ → Option OutcomeKind → ℕ
setting_or s before none = before
setting_or s before (some k) = setting_for s k

abbrev multiplier_of : Option (ℕ × ArtifactReliability) → ℕ
multiplier_of none = 0
multiplier_of (some e) = e.1.retrieval_multiplier

projected-setting_for :
    (s : OutcomeSettings) (n : OutcomeNotice) (o : Option (ℕ × ArtifactReliability))
    → (projected s n o).retrieval_multiplier ≡ setting_for s n.payload.outcome_type
unfolding projected verdict_and_multiplier
projected-setting_for s n o = by_kind n.payload.outcome_type
  where
    by_kind : (k : OutcomeKind) → (verdict_and_multiplier k s).1 ≡ setting_for s k
    by_kind (terminal helped) = refl
    by_kind (terminal hurt) = refl
    by_kind (terminal neutral) = refl
    by_kind (maintenance contradicted) = refl
    by_kind (maintenance stale) = refl
    by_kind (maintenance superseded) = refl

module _ {G : Type 0} (graph : Graph Item G) (log : EventLog graph OutcomeEvent) where
  -- The multiplier that get_reliability_fn reads; zero where there is no reliability.
  abbrev pub multiplier_at : ℕ → G → ℕ
  multiplier_at a g = multiplier_of (get_reliability (graph.objects g) a)

  abbrev first_multiplier : ℕ → G → ℕ
  first_multiplier a g = multiplier_of (first_reliability a (rels graph g))

  multiplier_at-first :
      (a : ℕ) (g : G) → OneEach (rels graph g) → multiplier_at a g ≡ first_multiplier a g
  unfolding get_reliability
  multiplier_at-first a g one = ap multiplier_of (last-first a (rels graph g) (one.artifacts a))

  first_multiplier-step :
      (s : OutcomeSettings) (n : OutcomeNotice) (a : ℕ) (g : G)
      → s.enabled ≡ true
      → names_artifact n ≡ true
      → OneEach (rels graph g)
      → first_multiplier a (artifact_reliability_projector graph log s n (graph.objects g) g)
        ≡ setting_or s (first_multiplier a g) (latest_kind a (n ∷ []))
  unfolding projected
  first_multiplier-step s n a g enabled named one =
      let existing = first_reliability n.payload.artifact_id (rels graph g) in
      let w = projector-Rewritten graph log s n g enabled named one in
      elim (Bool-cases (n.payload.artifact_id == a)) [
        | inl e ↦ rw (w.first a, e) (projected-setting_for s n existing)
        | inr e ↦ rw (w.first a, e) refl
      ]

  first_multiplier-project_all :
      (s : OutcomeSettings) (ns : List OutcomeNotice) (a : ℕ) (g : G)
      → s.enabled ≡ true
      → All (λ n. names_artifact n ≡ true) ns
      → OneEach (rels graph g)
      → first_multiplier a (project_all graph log s ns g)
        ≡ setting_or s (first_multiplier a g) (latest_kind a ns)
  first_multiplier-project_all s [] a g enabled named one = refl
  first_multiplier-project_all s (n ∷ ns) a g enabled named one =
      let w = projector-Rewritten graph log s n g enabled named.0 one in
      let g' = artifact_reliability_projector graph log s n (graph.objects g) g in
      let rest = first_multiplier-project_all s ns a g' enabled named.1 w.one in
      let own = first_multiplier-step s n a g enabled named.0 one in
      elim (Option-cases (latest_kind a ns)) [
        | inl e ↦ rest ∙ rw e own
        | inr (k, e) ↦ rest ∙ rw e refl
      ]

  -- The enabled projector runs on any list of events that name artifacts, from a graph in which no
  -- artifact and no id stands for two reliabilities: the multiplier that get_reliability_fn then
  -- reads for an artifact is the setting that fits the last event about it, whatever came before,
  -- and the one read before where no event was about it.
  pub multiplier_latest :
      (s : OutcomeSettings) (ns : List OutcomeNotice) (a : ℕ) (g : G)
      → s.enabled ≡ true
      → All (λ n. names_artifact n ≡ true) ns
      → OneEach (rels graph g)
      → multiplier_at a (project_all graph log s ns g)
        ≡ setting_or s (multiplier_at a g) (latest_kind a ns)
  multiplier_latest s ns a g enabled named one =
      let (counts, still) =
        reliability_counts graph log s ns (terminal helped) a g enabled named one in
      multiplier_at-first a (project_all graph log s ns g) still
      ∙ first_multiplier-project_all s ns a g enabled named one
      ∙ ap (λ m. setting_or s m (latest_kind a ns)) (sym (multiplier_at-first a g one))
