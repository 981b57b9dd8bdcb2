-- ===== src/Schedule/Creation.antt =====
-- What create_schedule_fn leaves.
use activegraph_packs.Base.{
  ℕ, ◌<◌, Bool, true, ◌&&◌, Option, none, some, [], ◌∷◌, ◌≡◌, refl, ap, ◌∙◌, arith, lookup,
  lookup-append, is_some, ==_refl,
}
use activegraph_packs.Graph.{Graph}
use activegraph_packs.Schedule.{
  Kind, Obj, schedule, NewSchedule, schedule_of, first_due, compute_next_due, is_valid_period,
  create_schedule,
}
use activegraph_packs.Schedule.Due.{compute_next_due_later}
use activegraph_packs.Schedule.Bookkeeper.{
  NotDueBy, later-NotDueBy, valid_time, compute_next_due_valid,
}

-- The first due moment is the next one after now, for each kind.
pub first_due-compute_next_due :
    (a : NewSchedule) (now : ℕ)
    → first_due a now ≡ compute_next_due a.kind a.every_seconds a.at_time a.at now
unfolding first_due compute_next_due
first_due-compute_next_due a now = by_kind a.kind refl
  where
    by_kind :
        (kind : Kind)
        → a.kind ≡ kind
        → first_due a now ≡ compute_next_due a.kind a.every_seconds a.at_time a.at now
    by_kind Kind.interval e = rw e refl
    by_kind Kind.daily e = rw e refl
    by_kind Kind.once e = rw e refl

module _ {G : Type 0} (graph : Graph Obj G) where
  pub record Created (a : NewSchedule) (now : ℕ) (g : G) : Type 0 where
    pub id : ℕ
    pub state : G
    pub next_due : Option ℕ
    pub outcome : create_schedule graph a now g ≡ some (id, state)
    pub there : lookup id (graph.objects state) ≡ some (schedule (schedule_of a next_due))
    pub not_due : NotDueBy now (schedule_of a next_due)
    pub enabled_later :
        (schedule_of a next_due).enabled ≡ true → (d : ℕ) × (next_due ≡ some d) × (now < d)
    pub others :
        (j : ℕ) (o : Obj)
        → lookup j (graph.objects g) ≡ some o
        → lookup j (graph.objects state) ≡ some o

  enabled_inv :
      (enabled : Bool) (next_due : Option ℕ)
      → (enabled && is_some next_due) ≡ true
      → (d : ℕ) × (next_due ≡ some d)
  enabled_inv enabled none h = ground arith
  enabled_inv enabled (some d) h = (d, refl)

  -- A schedule whose daily time exists and whose period, where one is given, is at least a second is
  -- created: the graph then holds it under a new id beside all that it held, it is due at no moment up
  -- to now, and if it is enabled its next moment is a later one.
  pub create_schedule_later :
      (a : NewSchedule) (now : ℕ) (g : G)
      → valid_time a.kind a.at_time ≡ true
      → is_valid_period a.every_seconds ≡ true
      → Created a now g
  unfolding create_schedule
  create_schedule_later a now g valid period =
      let (due, e) = compute_next_due_valid a.kind a.every_seconds a.at_time a.at now valid in
      let s = schedule_of a due in
      let (id, g1) = graph.add_object g (schedule s) in
      let m = graph.objects g in
      let later : (d : ℕ) → due ≡ some d → now < d = λ d same.
        compute_next_due_later a.kind a.every_seconds a.at_time a.at now d (e ∙ ap some same) in
      record {
        id = id;
        state = g1;
        next_due = due;
        outcome = rw (first_due-compute_next_due a now ∙ e, create_schedule, period) refl;
        there =
            ap (lookup id) (graph.objects-add_object g (schedule s))
            ∙ lookup-append id m ((id, schedule s) ∷ [])
            ∙ rw (graph.add_object_fresh g (schedule s), ==_refl id) refl;
        not_due = later-NotDueBy now s later;
        enabled_later = λ h. let (d, same) = enabled_inv a.enabled due h in (d, same, later d same);
        others = λ j o found.
            ap (lookup j) (graph.objects-add_object g (schedule s))
            ∙ lookup-append j m ((id, schedule s) ∷ [])
            ∙ rw found refl;
      }
