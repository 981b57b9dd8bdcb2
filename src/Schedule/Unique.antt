-- ===== src/Schedule/Unique.antt =====
-- The ids and the dedup keys along the steps by which the graph of schedules changes.
use activegraph_packs.Base.{
  ℕ, ◌≤◌, Bool, true, false, Option, none, some, List, [], ◌∷◌, ◌++◌, ◌≡◌, refl, subst, ap, arith,
  suc, All, count, count-append, lookup, update, ◌==◌, Bool-cases, Option-cases, inl, inr,
}
use activegraph_packs.Graph.{Graph, try_patch}
use activegraph_packs.Graph.Laws.{objects-try_patch}
use activegraph_packs.Schedule.{
  Kind, Schedule, Tick, Obj, schedule, tick, other, NewSchedule, schedule_of, DueSchedule,
  with_schedule, advanced, tick_keys, has_key, key_of, tick_of, first_due, is_valid_period,
  create_schedule, emit_tick, emit_ticks, emit_due_ticks, list_due, set_object_enabled,
  set_schedule_enabled, advance, advance_object, schedule_bookkeeper, compute_next_due,
}
use activegraph_packs.Schedule.Ticks.{
  key_count, keys, objects-emit_tick, emit_ticks-skip, emit_ticks-emit,
}
use activegraph_packs.Schedule.Once.{IsUnique, emit_due_ticks_once}
use activegraph_packs.Schedule.Steps.{
  ScheduleStep, ScheduleReach, create, emit, enable, keep_books, add_other, start, then_step,
}

-- How many objects have this id.
abbrev ids : ℕ → List (ℕ × Obj) → ℕ
ids k m = count (λ e. e.0 == k) m

ids-fresh : (j k : ℕ) (m : List (ℕ × Obj)) → lookup j m ≡ none → (j == k) ≡ true → ids k m ≡ 0
ids-fresh j k [] h e = refl
ids-fresh j k ((i, o) ∷ m) h e = ground (arith, ids-fresh j k m)

ids-append :
    (j k : ℕ) (o : Obj) (m : List (ℕ × Obj))
    → lookup j m ≡ none
    → ids k m ≤ 1
    → ids k (m ++ (j, o) ∷ []) ≤ 1
ids-append j k o m fresh one =
    let sum = count-append (λ e. e.0 == k) m ((j, o) ∷ []) in
    elim (Bool-cases (j == k)) [
      | inl e ↦ rw (sum, e) (omega (arith, ids-fresh j k m fresh e))
      | inr e ↦ rw (sum, e) (omega (arith, one))
    ]

ids-update : (j k : ℕ) (f : Obj → Obj) (m : List (ℕ × Obj)) → ids k (update j f m) ≡ ids k m
ids-update j k f [] = refl
ids-update j k f ((i, o) ∷ m) = ground (arith, ids-update j k f m)

tick_keys-update :
    (j : ℕ) (f : Schedule → Schedule) (m : List (ℕ × Obj))
    → tick_keys (update j (with_schedule f) m) ≡ tick_keys m
unfolding tick_keys
tick_keys-update j f [] = refl
tick_keys-update j f ((i, schedule s) ∷ m) = elim (Bool-cases (i == j)) [
  | inl e ↦ rw (e, tick_keys) (tick_keys-update j f m)
  | inr e ↦ rw (e, tick_keys) (tick_keys-update j f m)
]
tick_keys-update j f ((i, tick t) ∷ m) = elim (Bool-cases (i == j)) [
  | inl e ↦ rw (e, tick_keys) (ap (λ ks. t.dedup_key ∷ ks) (tick_keys-update j f m))
  | inr e ↦ rw (e, tick_keys) (ap (λ ks. t.dedup_key ∷ ks) (tick_keys-update j f m))
]
tick_keys-update j f ((i, other) ∷ m) = elim (Bool-cases (i == j)) [
  | inl e ↦ rw (e, tick_keys) (tick_keys-update j f m)
  | inr e ↦ rw (e, tick_keys) (tick_keys-update j f m)
]

abbrev is_tick : Obj → Bool
is_tick (tick t) = true
is_tick _ = false

tick_keys-plain :
    (j : ℕ) (o : Obj) (m : List (ℕ × Obj))
    → is_tick o ≡ false
    → tick_keys (m ++ (j, o) ∷ []) ≡ tick_keys m
unfolding tick_keys
tick_keys-plain j (schedule s) [] h = refl
tick_keys-plain j (tick t) [] h = ground arith
tick_keys-plain j other [] h = refl
tick_keys-plain j o ((i, schedule s) ∷ m) h = tick_keys-plain j o m h
tick_keys-plain j o ((i, tick t) ∷ m) h = ap (λ ks. t.dedup_key ∷ ks) (tick_keys-plain j o m h)
tick_keys-plain j o ((i, other) ∷ m) h = tick_keys-plain j o m h

IsUnique-update :
    (j : ℕ) (f : Schedule → Schedule) (m : List (ℕ × Obj))
    → IsUnique m
    → IsUnique (update j (with_schedule f) m)
IsUnique-update j f m h = record {
  ids = λ k. omega (arith, ids-update j k (with_schedule f) m, h.ids k);
  once = λ key. rw (tick_keys-update j f m) (h.once key);
}

-- A state of the objects that a patch of a schedule may leave.
data Patched (m : List (ℕ × Obj)) : List (ℕ × Obj) → Type 0 where
  unchanged : Patched m m
  patched : (j : ℕ) (f : Schedule → Schedule) → Patched m (update j (with_schedule f) m)

IsUnique-Patched : {m n : List (ℕ × Obj)} → IsUnique m → Patched m n → IsUnique n
IsUnique-Patched h unchanged = h
IsUnique-Patched {m} h (patched j f) = IsUnique-update j f m h

module _ {G : Type 0} (graph : Graph Obj G) where
  abbrev Patches : G → G → Type 0
  Patches g g' = Patched (graph.objects g) (graph.objects g')

  Patches-eq : (g a b : G) → a ≡ b → Patches g a → Patches g b
  Patches-eq g a b e = subst (Patches g) e

  Patches-try_patch :
      (j : ℕ) (f : Schedule → Schedule) (g : G) → Patches g (try_patch graph g j (with_schedule f))
  Patches-try_patch j f g = rw (objects-try_patch graph g j (with_schedule f)) (patched j f)

  Patches-set_object_enabled :
      (j : ℕ) (enabled r : Bool) (found : Option Obj) (g g' : G)
      → set_object_enabled graph j enabled found g ≡ some (r, g')
      → Patches g g'
  unfolding set_object_enabled
  Patches-set_object_enabled j enabled r none g g' e =
      Patches-eq g g g' (ground (arith, e)) unchanged
  Patches-set_object_enabled j enabled r (some (tick t)) g g' e =
      Patches-eq g g g' (ground (arith, e)) unchanged
  Patches-set_object_enabled j enabled r (some other) g g' e =
      Patches-eq g g g' (ground (arith, e)) unchanged
  Patches-set_object_enabled j enabled r (some (schedule s)) g g' e =
      let f = with_schedule (λ x. record x { enabled = enabled }) in
      elim (Option-cases (graph.patch_object g j f)) [
        | inl n ↦ ground (arith, n, e)
        | inr (g1, n) ↦ Patches-eq g g1 g' (ground (arith, n, e)) (
            rw (graph.objects-patch_object g g1 j f n)
              (patched j (λ x. record x { enabled = enabled })))
      ]

  Patches-advance :
      (j fired_at : ℕ) (s : Schedule) (kind : Kind) (g g' : G)
      → advance graph j fired_at s kind g ≡ some g'
      → Patches g g'
  unfolding advance
  Patches-advance j fired_at s Kind.once g g' e =
      let f = advanced fired_at true none (suc s.fire_count) in
      Patches-eq g (try_patch graph g j (with_schedule f)) g' (ground (arith, e))
        (Patches-try_patch j f g)
  Patches-advance j fired_at s Kind.interval g g' e =
      elim (Option-cases (compute_next_due Kind.interval s.every_seconds s.at_time s.at fired_at)) [
        | inl n ↦ ground (arith, n, e)
        | inr (due, n) ↦
            let f = advanced fired_at false due (suc s.fire_count) in
            Patches-eq g (try_patch graph g j (with_schedule f)) g' (ground (arith, n, e))
              (Patches-try_patch j f g)
      ]
  Patches-advance j fired_at s Kind.daily g g' e =
      elim (Option-cases (compute_next_due Kind.daily s.every_seconds s.at_time s.at fired_at)) [
        | inl n ↦ ground (arith, n, e)
        | inr (due, n) ↦
            let f = advanced fired_at false due (suc s.fire_count) in
            Patches-eq g (try_patch graph g j (with_schedule f)) g' (ground (arith, n, e))
              (Patches-try_patch j f g)
      ]

  Patches-advance_object :
      (t : Tick) (found : Option Obj) (g g' : G)
      → advance_object graph t found g ≡ some g'
      → Patches g g'
  unfolding advance_object
  Patches-advance_object t none g g' e = Patches-eq g g g' (ground (arith, e)) unchanged
  Patches-advance_object t (some (tick u)) g g' e = Patches-eq g g g' (ground (arith, e)) unchanged
  Patches-advance_object t (some other) g g' e = Patches-eq g g g' (ground (arith, e)) unchanged
  Patches-advance_object t (some (schedule s)) g g' e =
      Patches-advance t.schedule_id t.fired_at s s.kind g g' e

  IsUnique-add_object :
      (o : Obj) (g : G)
      → is_tick o ≡ false
      → IsUnique (graph.objects g)
      → IsUnique (graph.objects (graph.add_object g o).1)
  IsUnique-add_object o g plain h =
      let j = (graph.add_object g o).0 in
      rw (graph.objects-add_object g o) (record {
        ids = λ k. ids-append j k o (graph.objects g) (graph.add_object_fresh g o) (h.ids k);
        once = λ key. rw (tick_keys-plain j o (graph.objects g) plain) (h.once key);
      })

  IsUnique-create_schedule :
      (a : NewSchedule) (now j : ℕ) (g g' : G)
      → create_schedule graph a now g ≡ some (j, g')
      → IsUnique (graph.objects g)
      → IsUnique (graph.objects g')
  unfolding create_schedule
  IsUnique-create_schedule a now j g g' e h = elim (Option-cases (first_due a now)) [
    | inl f ↦ ground (arith, f, e)
    | inr (due, f) ↦ elim (Bool-cases (is_valid_period a.every_seconds)) [
      | inl p ↦
          subst (λ x. IsUnique (graph.objects x)) (ground (arith, f, p, e))
            (IsUnique-add_object (schedule (schedule_of a due)) g refl h)
      | inr p ↦ ground (arith, f, p, e)
    ]
  ]

  ids-emit_ticks :
      (now k : ℕ) (old : List (ℕ × ℕ)) (ds : List DueSchedule) (g : G)
      → ids k (graph.objects g) ≤ 1
      → ids k (graph.objects (emit_ticks graph now old ds g).1) ≤ 1
  unfolding emit_ticks emit_tick
  ids-emit_ticks now k old [] g h = h
  ids-emit_ticks now k old (d ∷ ds) g h = elim (Bool-cases (has_key (key_of d) old)) [
    | inl e ↦ rw (emit_ticks-skip graph now old d ds g e) (ids-emit_ticks now k old ds g h)
    | inr e ↦ rw (emit_ticks-emit graph now old d ds g e) (
        ids-emit_ticks now k old ds (emit_tick graph now d g).1 (
          rw (objects-emit_tick graph now d g) (
            ids-append (emit_tick graph now d g).0 k (tick (tick_of now d)) (graph.objects g)
              (graph.add_object_fresh g (tick (tick_of now d))) h)))
  ]

  IsUnique-ScheduleStep :
      {g g' : G}
      → IsUnique (graph.objects g)
      → ScheduleStep graph g g'
      → IsUnique (graph.objects g')
  unfolding emit_due_ticks set_schedule_enabled schedule_bookkeeper
  IsUnique-ScheduleStep {g} h (create a now j g' e) = IsUnique-create_schedule a now j g g' e h
  IsUnique-ScheduleStep {g} h (emit now) = record {
    ids = λ k.
        ids-emit_ticks now k (tick_keys (graph.objects g)) (list_due now (graph.objects g)) g
          (h.ids k);
    once = (emit_due_ticks_once graph now g h).1;
  }
  IsUnique-ScheduleStep {g} h (enable j enabled r g' e) =
      IsUnique-Patched h (Patches-set_object_enabled j enabled r (graph.get_object g j) g g' e)
  IsUnique-ScheduleStep {g} h (keep_books t g' e) =
      IsUnique-Patched h (Patches-advance_object t (graph.get_object g t.schedule_id) g g' e)
  IsUnique-ScheduleStep {g} h add_other = IsUnique-add_object other g refl h

  IsUnique-ScheduleReach :
      {g g' : G}
      → IsUnique (graph.objects g)
      → ScheduleReach graph g g'
      → IsUnique (graph.objects g')
  IsUnique-ScheduleReach h start = h
  IsUnique-ScheduleReach h (then_step r s) = IsUnique-ScheduleStep (IsUnique-ScheduleReach h r) s

  -- From a graph in which no id stands for two objects and no dedup key for two ticks, the empty one
  -- for instance, in whatever order schedules are created, enabled and disabled, ticks are emitted
  -- and booked, at whatever times, and other objects added: no due moment of a schedule ever has two
  -- ticks, and an emission at any time leaves every moment that is due with exactly one.
  pub one_tick_per_moment :
      {g g' : G} (now : ℕ)
      → IsUnique (graph.objects g)
      → ScheduleReach graph g g'
      → ((key : ℕ × ℕ) → key_count key (keys graph g') ≤ 1)
        × All
            (λ d. key_count (key_of d) (keys graph (emit_due_ticks graph now g').1) ≡ 1)
            (list_due now (graph.objects g'))
  one_tick_per_moment {g} {g'} now h r =
      let unique = IsUnique-ScheduleReach h r in
      (unique.once, (emit_due_ticks_once graph now g' unique).0)
