-- ===== src/Outcome/Projected.antt =====
-- artifact_reliability_projector, one event after another.
use activegraph_packs.Base.{
  ℕ, Bool, true, false, not, ◌||◌, Option, none, some, ◌≡◌, refl, sym, ap, ◌∙◌, subst, arith,
  str_eq, if◌then◌else◌, ◌==◌, Option-cases, inl, inr,
}
use activegraph_packs.Graph.{Graph, EventLog}
use activegraph_packs.Graph.Laws.{objects-try_relate}
use activegraph_packs.Outcome.{
  OutcomeRecord, ArtifactReliability, OutcomeSettings, Item, artifact_reliability, OutcomeEvent,
  reliability_changed, reliabilities,
}
use activegraph_packs.Outcome.Projector.{
  OutcomeNotice, projected, first_reliability, record_of_event, set_reliability, store_reliability,
  relate_record, artifact_reliability_projector,
}
use activegraph_packs.Outcome.Reliability.{
  OneEach, rels, reliabilities-append, reliabilities-update, count-lookup, lookup-found, first-add,
  first-update, OneEach-add, OneEach-update,
}

-- The payload names an artifact and its type.
abbrev pub names_artifact : OutcomeNotice → Bool
names_artifact n = not (n.payload.artifact_id == 0 || str_eq n.payload.artifact_type "")

artifact-projected :
    (s : OutcomeSettings) (n : OutcomeNotice) (o : Option (ℕ × ArtifactReliability))
    → (projected s n o).artifact_id ≡ n.payload.artifact_id
unfolding projected
artifact-projected s n o = refl

module _ {G : Type 0} (graph : Graph Item G) (log : EventLog graph OutcomeEvent) where
  -- The reliability of the artifact is the new one, and the others stay.
  pub record Rewritten (r : ArtifactReliability) (g g' : G) : Type 0 where
    pub id : ℕ
    pub first :
        (a : ℕ)
        → first_reliability a (rels graph g')
          ≡ (if r.artifact_id == a then some (id, r) else first_reliability a (rels graph g))
    pub one : OneEach (rels graph g')

  Rewritten-add :
      (r : ArtifactReliability) (g : G)
      → OneEach (rels graph g)
      → first_reliability r.artifact_id (rels graph g) ≡ none
      → Rewritten r g (graph.add_object g (artifact_reliability r)).1
  Rewritten-add r g one n =
      let k = (graph.add_object g (artifact_reliability r)).0 in
      let added =
        ap reliabilities (graph.objects-add_object g (artifact_reliability r))
        ∙ reliabilities-append (graph.objects g) k r in
      let fresh =
        count-lookup (graph.objects g) k (graph.add_object_fresh g (artifact_reliability r)) in
      record {
        id = k;
        first = λ a. rw added (first-add a k r (rels graph g) n);
        one = rw added (OneEach-add k r (rels graph g) one fresh n);
      }

  Rewritten-patch :
      (r old : ArtifactReliability) (k : ℕ) (g g' : G)
      → OneEach (rels graph g)
      → first_reliability r.artifact_id (rels graph g) ≡ some (k, old)
      → graph.patch_object g k (set_reliability r) ≡ some g'
      → Rewritten r g g'
  Rewritten-patch r old k g g' one n p =
      let patched =
        ap reliabilities (graph.objects-patch_object g g' k (set_reliability r) p)
        ∙ reliabilities-update k r (graph.objects g) in
      record {
        id = k;
        first = λ a. rw patched (first-update a k r old (rels graph g) one n).0;
        one = rw patched (OneEach-update k r old (rels graph g) one n);
      }

  -- A graph with the same objects.
  Rewritten-same :
      (r : ArtifactReliability) (g g0 g1 g2 : G)
      → graph.objects g0 ≡ graph.objects g
      → Rewritten r g0 g1
      → graph.objects g2 ≡ graph.objects g1
      → Rewritten r g g2
  Rewritten-same r g g0 g1 g2 before w after = record {
    id = w.id;
    first = λ a. rw (after, sym before) (w.first a);
    one = rw after w.one;
  }

  Rewritten-store :
      (r : ArtifactReliability) (g g' : G) (k : ℕ)
      → OneEach (rels graph g)
      → store_reliability graph log r (first_reliability r.artifact_id (rels graph g)) g
        ≡ some (k, g')
      → Rewritten r g g'
  unfolding store_reliability
  Rewritten-store r g g' k one =
      elim (Option-cases (first_reliability r.artifact_id (rels graph g))) [
        | inl n ↦
            rw (n, store_reliability)
              (λ h.
                subst (λ (x : G). Rewritten r g x) (ground (arith, h)) (Rewritten-add r g one n))
        | inr ((j, old), n) ↦ elim (Option-cases (graph.patch_object g j (set_reliability r))) [
          | inl p ↦ rw (n, store_reliability, p) (λ h. ground (arith, h))
          | inr (g1, p) ↦
              rw (n, store_reliability, p)
                (λ h.
                  subst (λ (x : G). Rewritten r g x) {x = g1} (ground (arith, h))
                    (Rewritten-patch r old j g g1 one n p))
        ]
      ]

  -- The store does not raise.
  store-total :
      (r : ArtifactReliability) (g : G)
      → store_reliability graph log r (first_reliability r.artifact_id (rels graph g)) g ≡ none
      → ⊥
  unfolding store_reliability first_reliability
  store-total r g = elim (Option-cases (first_reliability r.artifact_id (rels graph g))) [
    | inl n ↦ rw (n, store_reliability) (λ h. ground (arith, h))
    | inr ((j, old), n) ↦ elim (Option-cases (graph.patch_object g j (set_reliability r))) [
      | inl p ↦ λ h.
          lookup-found (graph.objects g) (λ x. x.1.artifact_id == r.artifact_id) (j, old) n
            (graph.patch_object-eq-none g j (set_reliability r) p)
      | inr (g1, p) ↦ rw (n, store_reliability, p) (λ h. ground (arith, h))
    ]
  ]

  objects-relate_record :
      (found : Option (ℕ × OutcomeRecord)) (k : ℕ) (g : G)
      → graph.objects (relate_record graph log found k g) ≡ graph.objects g
  objects-relate_record none k g = refl
  objects-relate_record (some (j, r)) k g = objects-try_relate graph g j k "updates_reliability"

  -- What the projector, where it is enabled, makes of an event that names an artifact.
  pub projector-Rewritten :
      (s : OutcomeSettings) (n : OutcomeNotice) (g : G)
      → s.enabled ≡ true
      → names_artifact n ≡ true
      → OneEach (rels graph g)
      → Rewritten
          (projected s n (first_reliability n.payload.artifact_id (rels graph g)))
          g
          (artifact_reliability_projector graph log s n (graph.objects g) g)
  unfolding artifact_reliability_projector
  projector-Rewritten s n g enabled named one =
      let existing = first_reliability n.payload.artifact_id (rels graph g) in
      let r = projected s n existing in
      let event = reliability_changed r n.event_id n.payload.evidence_revision_id in
      let g1 = (log.emit g event).1 in
      let same = log.objects-emit g event in
      let guard : (not s.enabled
            || (n.payload.artifact_id == 0 || str_eq n.payload.artifact_type ""))
          ≡ false =
        ground (arith, enabled, named) in
      let own : first_reliability r.artifact_id (rels graph g1) ≡ existing =
        ap (λ k. first_reliability k (rels graph g1)) (artifact-projected s n existing)
        ∙ ap (λ m. first_reliability n.payload.artifact_id (reliabilities m)) same in
      let one1 : OneEach (rels graph g1) = rw same one in
      elim (Option-cases (store_reliability graph log r existing g1)) [
        | inl e ↦ absurd (store-total r g1 (rw own e))
        | inr ((k, g2), e) ↦
            rw (guard, artifact_reliability_projector, e)
              (Rewritten-same r g g1 g2 _ same (Rewritten-store r g1 g2 k one1 (rw own e))
                (objects-relate_record (record_of_event n.event_id (graph.objects g)) k g2))
      ]
