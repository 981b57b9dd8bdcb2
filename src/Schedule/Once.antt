-- ===== src/Schedule/Once.antt =====
-- How many ticks a due moment has after emit_due_ticks_fn.
use activegraph_packs.Base.{
  ℕ, ◌+◌, ◌≤◌, true, List, [], ◌∷◌, ◌≡◌, refl, ap, ◌∙◌, arith, count, All, All-map, ◌==◌,
  Bool-cases, Option-cases, inl, inr,
}
use activegraph_packs.Graph.{Graph}
use activegraph_packs.Schedule.{
  Obj, schedule, tick, other, DueSchedule, due_at_of, due_schedules, insert_due, sort_due, list_due,
  tick_keys, key_eq, has_key, key_of, emit_ticks, emit_due_ticks,
}
use activegraph_packs.Schedule.Ticks.{
  key_count, added, keys, key_count-emit_ticks, due_schedules-emit_ticks, emit_ticks-skip,
  has_key-count, has_key-of_count, count-has_key,
}

abbrev due_count : ℕ × ℕ → List DueSchedule → ℕ
due_count key ds = count (λ d. key_eq (key_of d) key) ds

key_eq_refl : (a : ℕ × ℕ) → key_eq a a ≡ true
key_eq_refl (a, b) = ground arith

due_count-insert_due :
    (key : ℕ × ℕ) (d : DueSchedule) (ds : List DueSchedule)
    → due_count key (insert_due d ds) ≡ due_count key (d ∷ ds)
unfolding insert_due
due_count-insert_due key d [] = refl
due_count-insert_due key d (e ∷ es) = ground (arith, due_count-insert_due key d es)

due_count-sort_due :
    (key : ℕ × ℕ) (ds : List DueSchedule) → due_count key (sort_due ds) ≡ due_count key ds
unfolding sort_due
due_count-sort_due key [] = refl
due_count-sort_due key (d ∷ ds) =
    omega (arith, due_count-insert_due key d (sort_due ds), due_count-sort_due key ds)

-- A schedule is due at most as often as its id stands in the graph.
due_count-due_schedules :
    (now : ℕ) (key : ℕ × ℕ) (m : List (ℕ × Obj))
    → due_count key (due_schedules now m) ≤ count (λ e. e.0 == key.0) m
unfolding due_schedules
due_count-due_schedules now key [] = omega arith
due_count-due_schedules now key ((k, schedule s) ∷ m) = elim (Option-cases (due_at_of now s)) [
  | inl e ↦ rw (e, due_schedules) (ground (arith, due_count-due_schedules now key m))
  | inr (d, e) ↦ rw (e, due_schedules) (ground (arith, due_count-due_schedules now key m))
]
due_count-due_schedules now key ((k, tick t) ∷ m) =
    ground (arith, due_count-due_schedules now key m)
due_count-due_schedules now key ((k, other) ∷ m) = ground (arith, due_count-due_schedules now key m)

-- Each due moment stands among the due moments.
due_count_self : (ds : List DueSchedule) → All (λ d. 1 ≤ due_count (key_of d) ds) ds
due_count_self [] = tt
due_count_self (d ∷ ds) = (
  rw (key_eq_refl (key_of d)) (omega arith),
  All-map (λ e h. ground arith) ds (due_count_self ds),
)

-- No id stands for two objects, and no dedup key for two ticks.
pub record IsUnique (m : List (ℕ × Obj)) : Type 0 where
  pub ids : (k : ℕ) → count (λ e. e.0 == k) m ≤ 1
  pub once : (key : ℕ × ℕ) → key_count key (tick_keys m) ≤ 1

-- What the loop adds of a key that no tick has is what is due of it.
added-le :
    (now : ℕ) (key : ℕ × ℕ) (m : List (ℕ × Obj))
    → IsUnique m
    → key_count key (tick_keys m) + added key (tick_keys m) (list_due now m) ≤ 1
unfolding list_due
added-le now key m unique =
    let ds = due_schedules now m in
    let due = due_count-due_schedules now key m in
    let sorted = due_count-sort_due key ds in
    let one = unique.ids key.0 in
    elim (Bool-cases (has_key key (tick_keys m))) [
      | inl e ↦ rw e (omega (arith, unique.once key))
      | inr e ↦ rw e (omega (arith, due, sorted, one, has_key-count key (tick_keys m) e))
    ]

added-ge :
    (key : ℕ × ℕ) (old : List (ℕ × ℕ)) (ds : List DueSchedule)
    → 1 ≤ due_count key ds
    → 1 ≤ key_count key old + added key old ds
added-ge key old ds h = elim (Bool-cases (has_key key old)) [
  | inl e ↦ rw e (omega (arith, count-has_key key old e))
  | inr e ↦ rw e (omega (arith, h))
]

module _ {G : Type 0} (graph : Graph Obj G) where
  key_count-emit_due_ticks :
      (now : ℕ) (key : ℕ × ℕ) (g : G)
      → key_count key (keys graph (emit_due_ticks graph now g).1)
        ≡ key_count key (keys graph g) + added key (keys graph g) (list_due now (graph.objects g))
  unfolding emit_due_ticks
  key_count-emit_due_ticks now key g =
      key_count-emit_ticks graph now key (keys graph g) (list_due now (graph.objects g)) g

  -- Where no id stands for two objects and no key for two ticks, the emission gives every schedule
  -- that is due exactly one tick for its due moment, makes no key stand for two ticks, and leaves
  -- what is due.
  pub emit_due_ticks_once :
      (now : ℕ) (g : G)
      → IsUnique (graph.objects g)
      → All
          (λ d. key_count (key_of d) (keys graph (emit_due_ticks graph now g).1) ≡ 1)
          (list_due now (graph.objects g))
        × ((key : ℕ × ℕ) → key_count key (keys graph (emit_due_ticks graph now g).1) ≤ 1)
        × (list_due now (graph.objects (emit_due_ticks graph now g).1)
            ≡ list_due now (graph.objects g))
  unfolding list_due emit_due_ticks
  emit_due_ticks_once now g unique =
      let m = graph.objects g in
      let due = list_due now m in
      let bound : (key : ℕ × ℕ) → key_count key (keys graph (emit_due_ticks graph now g).1) ≤ 1 =
        λ key. omega (arith, key_count-emit_due_ticks now key g, added-le now key m unique) in
      (
        All-map
            (λ d h. omega (
              arith,
              bound (key_of d),
              key_count-emit_due_ticks now (key_of d) g,
              added-ge (key_of d) (tick_keys m) due h,
            ))
            due (due_count_self due),
        bound,
        ap sort_due (due_schedules-emit_ticks graph now now (keys graph g) due g),
      )

  emit_ticks_none :
      (now : ℕ) (old : List (ℕ × ℕ)) (ds : List DueSchedule) (g : G)
      → All (λ d. has_key (key_of d) old ≡ true) ds
      → emit_ticks graph now old ds g ≡ ([], g)
  unfolding emit_ticks
  emit_ticks_none now old [] g h = refl
  emit_ticks_none now old (d ∷ ds) g h =
      emit_ticks-skip graph now old d ds g h.0 ∙ emit_ticks_none now old ds g h.1

  -- A second emission at the same time does nothing, whatever the graph.
  pub emit_due_ticks_idempotent :
      (now : ℕ) (g : G)
      → emit_due_ticks graph now (emit_due_ticks graph now g).1
        ≡ ([], (emit_due_ticks graph now g).1)
  unfolding emit_due_ticks list_due
  emit_due_ticks_idempotent now g =
      let m = graph.objects g in
      let due = list_due now m in
      let g1 = (emit_due_ticks graph now g).1 in
      let same : list_due now (graph.objects g1) ≡ due =
        ap sort_due (due_schedules-emit_ticks graph now now (keys graph g) due g) in
      let there : All (λ d. has_key (key_of d) (keys graph g1) ≡ true) due =
        All-map
          (λ d h. has_key-of_count (key_of d) (keys graph g1) (
            omega (
              arith,
              key_count-emit_due_ticks now (key_of d) g,
              added-ge (key_of d) (keys graph g) due h,
            )))
          due (due_count_self due) in
      ap (λ ds. emit_ticks graph now (keys graph g1) ds g1) same
      ∙ emit_ticks_none now (keys graph g1) due g1 there
