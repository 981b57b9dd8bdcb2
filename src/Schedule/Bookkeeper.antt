-- ===== src/Schedule/Bookkeeper.antt =====
-- What schedule_bookkeeper leaves of a schedule.
use activegraph_packs.Base.{
  ℕ, suc, ◌≤◌, ◌<◌, Bool, true, false, ◌&&◌, Option, none, some, ◌≡◌, ◌≢◌, refl, ap, ◌∙◌, arith,
  lookup, lookup-update, ltb, ==_refl, Option-cases, ◌⊎◌, inl, inr,
}
use activegraph_packs.Graph.{Graph, try_patch}
use activegraph_packs.Graph.Laws.{objects-try_patch}
use activegraph_packs.Schedule.{
  Kind, Schedule, Tick, Obj, schedule, next_daily, compute_next_due, at_time_after, due_at_of,
  with_schedule, advanced, advance, advance_object, schedule_bookkeeper,
}
use activegraph_packs.Schedule.Due.{compute_next_due_later}

-- The schedule is due at no moment up to the given one.
abbrev pub NotDueBy : ℕ → Schedule → Type 0
NotDueBy now s = (t : ℕ) → t ≤ now → due_at_of t s ≡ none

pub later-NotDueBy :
    (now : ℕ) (s : Schedule) → ((d : ℕ) → s.next_due_at ≡ some d → now < d) → NotDueBy now s
unfolding due_at_of
later-NotDueBy now s later t h = elim (Option-cases s.next_due_at) [
  | inl e ↦ ground (arith, e)
  | inr (d, e) ↦ ground (arith, e, later d e)
]

-- A daily schedule has a time of day that exists.
unfoldable pub valid_time : Kind → Option (ℕ × ℕ) → Bool
valid_time Kind.daily (some (hh, mm)) = ltb hh 24 && ltb mm 60
valid_time _ _ = true

pub compute_next_due_valid :
    (kind : Kind) (every : Option ℕ) (at_time : Option (ℕ × ℕ)) (at : Option ℕ) (after : ℕ)
    → valid_time kind at_time ≡ true
    → (next_due : Option ℕ) × (compute_next_due kind every at_time at after ≡ some next_due)
unfolding compute_next_due next_daily valid_time
compute_next_due_valid Kind.interval every at_time at after h = (_, refl)
compute_next_due_valid Kind.daily every none at after h = (_, refl)
compute_next_due_valid Kind.daily every (some (hh, mm)) at after h =
    (some (at_time_after after hh mm), rw h refl)
compute_next_due_valid Kind.once every at_time at after h = (_, refl)

-- What the schedule is after a tick fired.
pub record Advanced (fired_at : ℕ) (s s' : Schedule) : Type 0 where
  pub counted : s'.fire_count ≡ suc s.fire_count
  pub fired : s'.last_fired_at ≡ some fired_at
  pub not_due : NotDueBy fired_at s'
  pub same_kind : s'.kind ≡ s.kind
  pub once_over : s.kind ≡ Kind.once → (s'.enabled ≡ false) × (s'.next_due_at ≡ none)
  pub still_enabled : s.kind ≢ Kind.once → s'.enabled ≡ s.enabled

advanced-once :
    (fired_at : ℕ) (s : Schedule)
    → s.kind ≡ Kind.once
    → Advanced fired_at s (advanced fired_at true none (suc s.fire_count) s)
advanced-once fired_at s kind = record {
  counted = refl;
  fired = refl;
  not_due =
      later-NotDueBy fired_at (advanced fired_at true none (suc s.fire_count) s)
        (λ d h. ground arith);
  same_kind = refl;
  once_over = λ k. (refl, refl);
  still_enabled = λ ne. ground (arith, ne, kind);
}

advanced-next :
    (fired_at : ℕ) (s : Schedule) (next_due : Option ℕ)
    → s.kind ≢ Kind.once
    → compute_next_due s.kind s.every_seconds s.at_time s.at fired_at ≡ some next_due
    → Advanced fired_at s (advanced fired_at false next_due (suc s.fire_count) s)
advanced-next fired_at s next_due kind h = record {
  counted = refl;
  fired = refl;
  not_due = later-NotDueBy fired_at (advanced fired_at false next_due (suc s.fire_count) s) (λ d e.
      compute_next_due_later s.kind s.every_seconds s.at_time s.at fired_at d (h ∙ ap some e));
  same_kind = refl;
  once_over = λ k. ground (arith, kind, k);
  still_enabled = λ ne. refl;
}

module _ {G : Type 0} (graph : Graph Obj G) where
  -- The state after the tick, with the schedule advanced and every other object as it was.
  pub record Kept (t : Tick) (s : Schedule) (g : G) : Type 0 where
    pub state : G
    pub outcome : schedule_bookkeeper graph t g ≡ some state
    pub now_is : Schedule
    pub there : lookup t.schedule_id (graph.objects state) ≡ some (schedule now_is)
    pub advanced_to : Advanced t.fired_at s now_is
    pub others :
        (j : ℕ) → j ≢ t.schedule_id → lookup j (graph.objects state) ≡ lookup j (graph.objects g)

  lookup-patched :
      (k j : ℕ) (f : Schedule → Schedule) (s : Schedule) (g : G)
      → lookup k (graph.objects g) ≡ some (schedule s)
      → (lookup k (graph.objects (try_patch graph g k (with_schedule f))) ≡ some (schedule (f s)))
        × (j ≢ k
            → lookup j (graph.objects (try_patch graph g k (with_schedule f)))
              ≡ lookup j (graph.objects g))
  lookup-patched k j f s g h =
      let m = graph.objects g in
      rw (objects-try_patch graph g k (with_schedule f)) (
        rw (lookup-update k k (with_schedule f) m, ==_refl k, h) refl,
        λ ne. ground (arith, lookup-update k j (with_schedule f) m),
      )

  Kept-patch :
      (t : Tick) (s : Schedule) (f : Schedule → Schedule) (g : G)
      → lookup t.schedule_id (graph.objects g) ≡ some (schedule s)
      → schedule_bookkeeper graph t g ≡ some (try_patch graph g t.schedule_id (with_schedule f))
      → Advanced t.fired_at s (f s)
      → Kept t s g
  Kept-patch t s f g found outcome adv = record {
    state = try_patch graph g t.schedule_id (with_schedule f);
    outcome = outcome;
    now_is = f s;
    there = (lookup-patched t.schedule_id t.schedule_id f s g found).0;
    advanced_to = adv;
    others = λ j ne. (lookup-patched t.schedule_id j f s g found).1 ne;
  }

  Kind-cases : (kind : Kind) → (kind ≡ Kind.once) ⊎ (kind ≢ Kind.once)
  Kind-cases Kind.interval = inr (λ e. ground arith)
  Kind-cases Kind.daily = inr (λ e. ground arith)
  Kind-cases Kind.once = inl refl

  advance-once :
      (k fired_at : ℕ) (s : Schedule) (kind : Kind) (g : G)
      → kind ≡ Kind.once
      → advance graph k fired_at s kind g
        ≡ some
            (try_patch graph g k (with_schedule (advanced fired_at true none (suc s.fire_count))))
  unfolding advance
  advance-once k fired_at s Kind.once g e = refl
  advance-once k fired_at s Kind.interval g e = ground arith
  advance-once k fired_at s Kind.daily g e = ground arith

  advance-next :
      (k fired_at : ℕ) (s : Schedule) (kind : Kind) (next_due : Option ℕ) (g : G)
      → kind ≢ Kind.once
      → compute_next_due kind s.every_seconds s.at_time s.at fired_at ≡ some next_due
      → advance graph k fired_at s kind g
        ≡ some (
            try_patch graph g k
              (with_schedule (advanced fired_at false next_due (suc s.fire_count))))
  unfolding advance
  advance-next k fired_at s Kind.interval next_due g ne e = rw (e, advance) refl
  advance-next k fired_at s Kind.daily next_due g ne e = rw (e, advance) refl
  advance-next k fired_at s Kind.once next_due g ne e = ground (arith, ne refl)

  -- For a tick of a schedule that the graph holds, whose daily time exists, the bookkeeper returns:
  -- it counts the firing, changes no other object, and leaves the schedule due at no moment up to
  -- the firing; a schedule of kind once is over, and any other stays as enabled as it was.
  pub schedule_bookkeeper_advances :
      (t : Tick) (s : Schedule) (g : G)
      → lookup t.schedule_id (graph.objects g) ≡ some (schedule s)
      → valid_time s.kind s.at_time ≡ true
      → Kept t s g
  unfolding schedule_bookkeeper advance_object
  schedule_bookkeeper_advances t s g found valid =
      let got = graph.get_object-objects g t.schedule_id ∙ found in
      elim (Kind-cases s.kind) [
        | inl e ↦
            Kept-patch t s (advanced t.fired_at true none (suc s.fire_count)) g found
              (rw (got, schedule_bookkeeper) (advance-once t.schedule_id t.fired_at s s.kind g e))
              (advanced-once t.fired_at s e)
        | inr ne ↦
            let (next_due, e) =
              compute_next_due_valid s.kind s.every_seconds s.at_time s.at t.fired_at valid in
            Kept-patch t s (advanced t.fired_at false next_due (suc s.fire_count)) g found
              (rw (got, schedule_bookkeeper)
                (advance-next t.schedule_id t.fired_at s s.kind next_due g ne e))
              (advanced-next t.fired_at s next_due ne e)
      ]
