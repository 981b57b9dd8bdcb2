-- ===== src/Schedule/Ticks.antt =====
-- The loop of emit_due_ticks_fn: the schedules and the dedup keys that it leaves.
use activegraph_packs.Base.{
  ℕ, ◌+◌, ◌≤◌, true, false, List, [], ◌∷◌, ◌++◌, ◌≡◌, refl, sym, ap, ◌∙◌, arith, count,
  count-append, Bool-cases, Option-cases, inl, inr, if◌then◌else◌,
}
use activegraph_packs.Graph.{Graph}
use activegraph_packs.Graph.Laws.{objects-try_relate}
use activegraph_packs.Schedule.{
  Tick, Obj, schedule, tick, other, DueSchedule, due_at_of, due_schedules, tick_keys, key_eq,
  has_key, key_of, tick_of, emit_tick, emit_ticks,
}

-- How often a dedup key stands on a tick.
abbrev pub key_count : ℕ × ℕ → List (ℕ × ℕ) → ℕ
key_count key keys = count (λ x. key_eq x key) keys

tick_keys-append :
    (m : List (ℕ × Obj)) (k : ℕ) (t : Tick)
    → tick_keys (m ++ (k, tick t) ∷ []) ≡ tick_keys m ++ t.dedup_key ∷ []
unfolding tick_keys
tick_keys-append [] k t = refl
tick_keys-append ((j, tick u) ∷ m) k t = rw (tick_keys-append m k t)
tick_keys-append ((j, schedule s) ∷ m) k t = tick_keys-append m k t
tick_keys-append ((j, other) ∷ m) k t = tick_keys-append m k t

due_schedules-append :
    (now : ℕ) (m : List (ℕ × Obj)) (k : ℕ) (t : Tick)
    → due_schedules now (m ++ (k, tick t) ∷ []) ≡ due_schedules now m
unfolding due_schedules
due_schedules-append now [] k t = refl
due_schedules-append now ((j, tick u) ∷ m) k t = due_schedules-append now m k t
due_schedules-append now ((j, schedule s) ∷ m) k t = elim (Option-cases (due_at_of now s)) [
  | inl e ↦ rw (e, due_schedules) (due_schedules-append now m k t)
  | inr (d, e) ↦ rw (e, due_schedules, due_schedules-append now m k t)
]
due_schedules-append now ((j, other) ∷ m) k t = due_schedules-append now m k t

key_eq-eq : (a b : ℕ × ℕ) → key_eq a b ≡ true → a ≡ b
key_eq-eq (a, b) (c, d) h = ground arith

-- A key that is there, under a test that says so.
skipped_key :
    (d : DueSchedule) (key : ℕ × ℕ) (old : List (ℕ × ℕ))
    → has_key (key_of d) old ≡ true
    → has_key key old ≡ false
    → key_eq (key_of d) key ≡ false
skipped_key d key old there absent = elim (Bool-cases (key_eq (key_of d) key)) [
  | inl e ↦ ground (arith, ap (λ x. has_key x old) (key_eq-eq (key_of d) key e))
  | inr e ↦ e
]

pub has_key-count :
    (key : ℕ × ℕ) (keys : List (ℕ × ℕ)) → has_key key keys ≡ false → key_count key keys ≡ 0
unfolding has_key
has_key-count key [] h = refl
has_key-count key (x ∷ xs) h = ground (arith, has_key-count key xs)

pub count-has_key :
    (key : ℕ × ℕ) (keys : List (ℕ × ℕ)) → has_key key keys ≡ true → 1 ≤ key_count key keys
unfolding has_key
count-has_key key [] h = ground arith
count-has_key key (x ∷ xs) h = ground (arith, count-has_key key xs)

pub has_key-of_count :
    (key : ℕ × ℕ) (keys : List (ℕ × ℕ)) → 1 ≤ key_count key keys → has_key key keys ≡ true
unfolding has_key
has_key-of_count key [] h = ground arith
has_key-of_count key (x ∷ xs) h = ground (arith, has_key-of_count key xs)

-- How often the loop adds a key: as often as it stands among the due moments, unless it was there
-- before.
abbrev pub added : ℕ × ℕ → List (ℕ × ℕ) → List DueSchedule → ℕ
added key old ds = if has_key key old then 0 else count (λ d. key_eq (key_of d) key) ds

added-skip :
    (key : ℕ × ℕ) (old : List (ℕ × ℕ)) (d : DueSchedule) (ds : List DueSchedule)
    → has_key (key_of d) old ≡ true
    → added key old (d ∷ ds) ≡ added key old ds
added-skip key old d ds e = elim (Bool-cases (has_key key old)) [
  | inl f ↦ rw f refl
  | inr f ↦ rw (f, skipped_key d key old e f) (omega arith)
]

added-emit :
    (key : ℕ × ℕ) (old : List (ℕ × ℕ)) (d : DueSchedule) (ds : List DueSchedule)
    → has_key (key_of d) old ≡ false
    → added key old (d ∷ ds) ≡ key_count key (key_of d ∷ []) + added key old ds
added-emit key old d ds e = elim (Bool-cases (key_eq (key_of d) key)) [
  | inl f ↦
      let absent : has_key key old ≡ false =
        ap (λ x. has_key x old) (sym (key_eq-eq (key_of d) key f)) ∙ e in
      rw (absent, f) (omega arith)
  | inr f ↦ rw f (ground arith)
]

module _ {G : Type 0} (graph : Graph Obj G) where
  abbrev pub keys : G → List (ℕ × ℕ)
  keys g = tick_keys (graph.objects g)

  pub objects-emit_tick :
      (now : ℕ) (d : DueSchedule) (g : G)
      → graph.objects (emit_tick graph now d g).1
        ≡ graph.objects g ++ ((emit_tick graph now d g).0, tick (tick_of now d)) ∷ []
  unfolding emit_tick
  objects-emit_tick now d g =
      let (id, g1) = graph.add_object g (tick (tick_of now d)) in
      objects-try_relate graph g1 id d.schedule_id "tick_of"
      ∙ graph.objects-add_object g (tick (tick_of now d))

  keys-emit_tick :
      (now : ℕ) (d : DueSchedule) (g : G)
      → keys (emit_tick graph now d g).1 ≡ keys g ++ key_of d ∷ []
  keys-emit_tick now d g =
      ap tick_keys (objects-emit_tick now d g)
      ∙ tick_keys-append (graph.objects g) (emit_tick graph now d g).0 (tick_of now d)

  due_schedules-emit_tick :
      (at now : ℕ) (d : DueSchedule) (g : G)
      → due_schedules at (graph.objects (emit_tick graph now d g).1)
        ≡ due_schedules at (graph.objects g)
  due_schedules-emit_tick at now d g =
      ap (due_schedules at) (objects-emit_tick now d g)
      ∙ due_schedules-append at (graph.objects g) (emit_tick graph now d g).0 (tick_of now d)

  pub emit_ticks-skip :
      (now : ℕ) (old : List (ℕ × ℕ)) (d : DueSchedule) (ds : List DueSchedule) (g : G)
      → has_key (key_of d) old ≡ true
      → emit_ticks graph now old (d ∷ ds) g ≡ emit_ticks graph now old ds g
  unfolding emit_ticks
  emit_ticks-skip now old d ds g h = rw (h, emit_ticks) refl

  pub emit_ticks-emit :
      (now : ℕ) (old : List (ℕ × ℕ)) (d : DueSchedule) (ds : List DueSchedule) (g : G)
      → has_key (key_of d) old ≡ false
      → (emit_ticks graph now old (d ∷ ds) g).1
        ≡ (emit_ticks graph now old ds (emit_tick graph now d g).1).1
  unfolding emit_ticks
  emit_ticks-emit now old d ds g h = rw (h, emit_ticks) refl

  -- The loop leaves the schedules.
  pub due_schedules-emit_ticks :
      (at now : ℕ) (old : List (ℕ × ℕ)) (ds : List DueSchedule) (g : G)
      → due_schedules at (graph.objects (emit_ticks graph now old ds g).1)
        ≡ due_schedules at (graph.objects g)
  unfolding emit_ticks
  due_schedules-emit_ticks at now old [] g = refl
  due_schedules-emit_ticks at now old (d ∷ ds) g = elim (Bool-cases (has_key (key_of d) old)) [
    | inl e ↦ rw (emit_ticks-skip now old d ds g e) (due_schedules-emit_ticks at now old ds g)
    | inr e ↦ rw (emit_ticks-emit now old d ds g e) (
        due_schedules-emit_ticks at now old ds (emit_tick graph now d g).1
        ∙ due_schedules-emit_tick at now d g)
  ]

  pub key_count-emit_ticks :
      (now : ℕ) (key : ℕ × ℕ) (old : List (ℕ × ℕ)) (ds : List DueSchedule) (g : G)
      → key_count key (keys (emit_ticks graph now old ds g).1)
        ≡ key_count key (keys g) + added key old ds
  unfolding emit_ticks
  key_count-emit_ticks now key old [] g = ground arith
  key_count-emit_ticks now key old (d ∷ ds) g =
      let skipped = key_count-emit_ticks now key old ds g in
      let g1 = (emit_tick graph now d g).1 in
      let more = key_count-emit_ticks now key old ds g1 in
      let one =
        ap (key_count key) (keys-emit_tick now d g)
        ∙ count-append (λ x. key_eq x key) (keys g) (key_of d ∷ []) in
      elim (Bool-cases (has_key (key_of d) old)) [
        | inl e ↦
            rw (emit_ticks-skip now old d ds g e)
              (skipped ∙ ap (λ n. key_count key (keys g) + n) (sym (added-skip key old d ds e)))
        | inr e ↦
            rw (emit_ticks-emit now old d ds g e)
              (omega (arith, more, one, added-emit key old d ds e))
      ]
