-- ===== src/Schedule/Steps.antt =====
-- The steps by which the graph of schedules changes, and a schedule of kind once that has fired.
use activegraph_packs.Base.{
  ℕ, suc, Bool, true, false, Option, none, some, List, [], ◌∷◌, ◌++◌, ◌≡◌, refl, sym, ap, subst,
  ◌∙◌, arith, lookup, update, lookup-append, lookup-update, ◌==◌, ==_iff, Bool-cases, Option-cases,
  inl, inr,
}
use activegraph_packs.Graph.{Graph, try_patch}
use activegraph_packs.Graph.Laws.{objects-try_patch}
use activegraph_packs.Schedule.{
  Kind, Schedule, Tick, Obj, schedule, tick, other, NewSchedule, schedule_of, DueSchedule,
  with_schedule, advanced, has_key, key_of, tick_of, create_schedule, first_due, emit_tick,
  emit_ticks, emit_due_ticks, set_object_enabled, set_schedule_enabled, advance, advance_object,
  schedule_bookkeeper, compute_next_due, is_valid_period,
}
use activegraph_packs.Schedule.Ticks.{objects-emit_tick, emit_ticks-skip, emit_ticks-emit}

-- A schedule of kind once with no moment to come.
pub record IsOver (k : ℕ) (m : List (ℕ × Obj)) : Type 0 where
  pub it : Schedule
  pub there : lookup k m ≡ some (schedule it)
  pub once : it.kind ≡ Kind.once
  pub no_moment : it.next_due_at ≡ none

IsOver-append :
    (k : ℕ) (m : List (ℕ × Obj)) (j : ℕ) (o : Obj) → IsOver k m → IsOver k (m ++ (j, o) ∷ [])
IsOver-append k m j o h = record {
  it = h.it;
  there = lookup-append k m ((j, o) ∷ []) ∙ rw h.there refl;
  once = h.once;
  no_moment = h.no_moment;
}

IsOver-update :
    (k j : ℕ) (f : Schedule → Schedule) (m : List (ℕ × Obj)) (h : IsOver k m)
    → ((j ≡ k) → ((f h.it).kind ≡ Kind.once) × ((f h.it).next_due_at ≡ none))
    → IsOver k (update j (with_schedule f) m)
IsOver-update k j f m h keeps = elim (Bool-cases (j == k)) [
  | inl e ↦
      let (once, gone) = keeps ((==_iff j k).0 e) in
      record {
        it = f h.it;
        there = lookup-update j k (with_schedule f) m ∙ rw (e, h.there) refl;
        once = once;
        no_moment = gone;
      }
  | inr e ↦ record {
    it = h.it;
    there = lookup-update j k (with_schedule f) m ∙ rw e h.there;
    once = h.once;
    no_moment = h.no_moment;
  }
]

same_schedule :
    (a b : Schedule) → ◌≡◌ {A = Option Obj} (some (schedule a)) (some (schedule b)) → a ≡ b
same_schedule a b h = ground arith

module _ {G : Type 0} (graph : Graph Obj G) where
  pub data ScheduleStep (g : G) : G → Type 0 where
    create :
        (a : NewSchedule) (now k : ℕ) (g' : G)
        → create_schedule graph a now g ≡ some (k, g')
        → ScheduleStep g g'
    emit : (now : ℕ) → ScheduleStep g (emit_due_ticks graph now g).1
    enable :
        (k : ℕ) (enabled r : Bool) (g' : G)
        → set_schedule_enabled graph k enabled g ≡ some (r, g')
        → ScheduleStep g g'
    keep_books : (t : Tick) (g' : G) → schedule_bookkeeper graph t g ≡ some g' → ScheduleStep g g'
    -- another pack adds an object
    add_other : ScheduleStep g (graph.add_object g other).1

  pub data ScheduleReach (g : G) : G → Type 0 where
    start : ScheduleReach g g
    then_step : {h k : G} → ScheduleReach g h → ScheduleStep h k → ScheduleReach g k

  pub IsOver-add_object :
      (k : ℕ) (o : Obj) (g : G)
      → IsOver k (graph.objects g)
      → IsOver k (graph.objects (graph.add_object g o).1)
  IsOver-add_object k o g h =
      rw (graph.objects-add_object g o)
        (IsOver-append k (graph.objects g) (graph.add_object g o).0 o h)

  pub IsOver-emit_ticks :
      (k now : ℕ) (old : List (ℕ × ℕ)) (ds : List DueSchedule) (g : G)
      → IsOver k (graph.objects g)
      → IsOver k (graph.objects (emit_ticks graph now old ds g).1)
  unfolding emit_ticks
  IsOver-emit_ticks k now old [] g h = h
  IsOver-emit_ticks k now old (d ∷ ds) g h = elim (Bool-cases (has_key (key_of d) old)) [
    | inl e ↦ rw (emit_ticks-skip graph now old d ds g e) (IsOver-emit_ticks k now old ds g h)
    | inr e ↦ rw (emit_ticks-emit graph now old d ds g e) (
        IsOver-emit_ticks k now old ds (emit_tick graph now d g).1 (
          rw (objects-emit_tick graph now d g) (
            IsOver-append k (graph.objects g) (emit_tick graph now d g).0 (tick (tick_of now d))
              h)))
  ]

  pub IsOver-create_schedule :
      (k : ℕ) (a : NewSchedule) (now j : ℕ) (g g' : G)
      → IsOver k (graph.objects g)
      → create_schedule graph a now g ≡ some (j, g')
      → IsOver k (graph.objects g')
  unfolding create_schedule
  IsOver-create_schedule k a now j g g' h e = elim (Option-cases (first_due a now)) [
    | inl f ↦ ground (arith, f, e)
    | inr (due, f) ↦ elim (Bool-cases (is_valid_period a.every_seconds)) [
      | inl p ↦
          subst (λ x. IsOver k (graph.objects x)) (ground (arith, f, p, e))
            (IsOver-add_object k (schedule (schedule_of a due)) g h)
      | inr p ↦ ground (arith, f, p, e)
    ]
  ]

  pub IsOver-set_object_enabled :
      (k j : ℕ) (enabled r : Bool) (found : Option Obj) (g g' : G)
      → IsOver k (graph.objects g)
      → set_object_enabled graph j enabled found g ≡ some (r, g')
      → IsOver k (graph.objects g')
  unfolding set_object_enabled
  IsOver-set_object_enabled k j enabled r none g g' h e =
      subst (λ x. IsOver k (graph.objects x)) (ground (arith, e)) h
  IsOver-set_object_enabled k j enabled r (some (tick t)) g g' h e =
      subst (λ x. IsOver k (graph.objects x)) (ground (arith, e)) h
  IsOver-set_object_enabled k j enabled r (some other) g g' h e =
      subst (λ x. IsOver k (graph.objects x)) (ground (arith, e)) h
  IsOver-set_object_enabled k j enabled r (some (schedule s)) g g' h e =
      let f = with_schedule (λ x. record x { enabled = enabled }) in
      elim (Option-cases (graph.patch_object g j f)) [
        | inl n ↦ ground (arith, n, e)
        | inr (g1, n) ↦
            subst (λ x. IsOver k (graph.objects x)) {x = g1} (ground (arith, n, e))
              (rw (graph.objects-patch_object g g1 j f n) (
                IsOver-update k j (λ x. record x { enabled = enabled }) (graph.objects g) h
                  (λ same. (h.once, h.no_moment))))
      ]

  IsOver-try_patch :
      (k j : ℕ) (f : Schedule → Schedule) (g : G) (h : IsOver k (graph.objects g))
      → ((j ≡ k) → ((f h.it).kind ≡ Kind.once) × ((f h.it).next_due_at ≡ none))
      → IsOver k (graph.objects (try_patch graph g j (with_schedule f)))
  IsOver-try_patch k j f g h keeps =
      rw (objects-try_patch graph g j (with_schedule f))
        (IsOver-update k j f (graph.objects g) h keeps)

  -- The schedule that the tick names is the one that is over, or another one.
  IsOver-advance :
      (k j fired_at : ℕ) (s : Schedule) (kind : Kind) (g g' : G)
      → IsOver k (graph.objects g)
      → ((j ≡ k) → kind ≡ Kind.once)
      → advance graph j fired_at s kind g ≡ some g'
      → IsOver k (graph.objects g')
  unfolding advance
  IsOver-advance k j fired_at s Kind.once g g' h once e =
      subst (λ x. IsOver k (graph.objects x)) (ground (arith, e))
        (IsOver-try_patch k j (advanced fired_at true none (suc s.fire_count)) g h
          (λ same. (h.once, refl)))
  IsOver-advance k j fired_at s Kind.interval g g' h once e =
      elim (Option-cases (compute_next_due Kind.interval s.every_seconds s.at_time s.at fired_at)) [
        | inl n ↦ ground (arith, n, e)
        | inr (due, n) ↦
            subst (λ x. IsOver k (graph.objects x)) (ground (arith, n, e))
              (IsOver-try_patch k j (advanced fired_at false due (suc s.fire_count)) g h
                (λ same. ground (arith, once same)))
      ]
  IsOver-advance k j fired_at s Kind.daily g g' h once e =
      elim (Option-cases (compute_next_due Kind.daily s.every_seconds s.at_time s.at fired_at)) [
        | inl n ↦ ground (arith, n, e)
        | inr (due, n) ↦
            subst (λ x. IsOver k (graph.objects x)) (ground (arith, n, e))
              (IsOver-try_patch k j (advanced fired_at false due (suc s.fire_count)) g h
                (λ same. ground (arith, once same)))
      ]

  pub IsOver-advance_object :
      (k : ℕ) (t : Tick) (found : Option Obj) (g g' : G)
      → IsOver k (graph.objects g)
      → lookup t.schedule_id (graph.objects g) ≡ found
      → advance_object graph t found g ≡ some g'
      → IsOver k (graph.objects g')
  unfolding advance_object
  IsOver-advance_object k t none g g' h f e =
      subst (λ x. IsOver k (graph.objects x)) (ground (arith, e)) h
  IsOver-advance_object k t (some (tick u)) g g' h f e =
      subst (λ x. IsOver k (graph.objects x)) (ground (arith, e)) h
  IsOver-advance_object k t (some other) g g' h f e =
      subst (λ x. IsOver k (graph.objects x)) (ground (arith, e)) h
  IsOver-advance_object k t (some (schedule s)) g g' h f e =
      IsOver-advance k t.schedule_id t.fired_at s s.kind g g' h
        (λ same.
          let found = ap (λ x. lookup x (graph.objects g)) same in
          let both : ◌≡◌ {A = Option Obj} (some (schedule s)) (some (schedule h.it)) =
            sym f ∙ found ∙ h.there in
          ap (λ (x : Schedule). x.kind) (same_schedule s h.it both) ∙ h.once)
        e
