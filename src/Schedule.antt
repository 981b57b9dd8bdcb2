-- ===== src/Schedule.antt =====
-- The schedule pack: packs/schedule (object_types.py, tools.py, schedule_bookkeeper of behaviors.py).
-- A moment is its microseconds since midnight UTC of 1 January of the year 1; the texts that the code
-- keeps are the ISO 8601 forms of such moments, and sort as they do. The end of the year 9999 is not
-- modelled. `at_time` is the two numbers of "HH:MM". A dedup key is the pair that its text joins.
pub mod Due
pub mod Ticks
pub mod Once
pub mod Bookkeeper
pub mod Creation
pub mod Steps
pub mod Over
pub mod Unique
mod Examples
use activegraph_packs.Base.{
  ℕ, zero, suc, ◌+◌, ◌*◌, ◌/◌, String, Bool, true, false, ◌&&◌, Option, none, some, List, [], ◌∷◌,
  any, leb, ltb, ◌==◌, is_some, if◌then◌else◌,
}
use activegraph_packs.Graph.{Graph, try_patch, try_relate}

pub data Kind : Type 0 where
  interval daily once : Kind

pub record Schedule : Type 0 where
  pub name : String
  pub kind : Kind
  pub every_seconds : Option ℕ
  pub at_time : Option (ℕ × ℕ)
  pub at : Option ℕ
  pub payload_emit_type : String
  pub enabled : Bool
  pub next_due_at : Option ℕ
  pub last_fired_at : Option ℕ
  pub fire_count : ℕ
  pub created_by : Option String
  pub frame_id : Option String

pub record Tick : Type 0 where
  pub schedule_id : ℕ
  pub fired_at : ℕ
  pub due_at : ℕ
  pub dedup_key : ℕ × ℕ

pub data Obj : Type 0 where
  schedule : Schedule → Obj
  tick : Tick → Obj
  other : Obj

abbrev pub second : ℕ
second = 1000000

abbrev pub day : ℕ
day = 86400000000

-- `timedelta(seconds=…)` after the reference; a period of zero is no period.
unfoldable pub next_interval : ℕ → Option ℕ → Option ℕ
next_interval after none = none
next_interval after (some zero) = none
next_interval after (some (suc n)) = some (after + suc n * second)

-- Today's moment of the time of day if it is still to come, or else tomorrow's.
unfoldable pub at_time_after : ℕ → ℕ → ℕ → ℕ
at_time_after after hh mm =
    let candidate = after / day * day + (hh * 3600 + mm * 60) * second in
    if leb candidate after then candidate + day else candidate

-- `none` where `replace` raises: an hour or a minute out of range.
unfoldable pub next_daily : ℕ → Option (ℕ × ℕ) → Option (Option ℕ)
next_daily after none = some none
next_daily after (some (hh, mm)) =
    if ltb hh 24 && ltb mm 60 then some (some (at_time_after after hh mm)) else none

unfoldable pub next_once : ℕ → Option ℕ → Option ℕ
next_once after none = none
next_once after (some moment) = if ltb after moment then some moment else none

-- compute_next_due; `none` where it raises.
unfoldable pub compute_next_due :
    Kind → Option ℕ → Option (ℕ × ℕ) → Option ℕ → ℕ → Option (Option ℕ)
compute_next_due Kind.interval every at_time at after = some (next_interval after every)
compute_next_due Kind.daily every at_time at after = next_daily after at_time
compute_next_due Kind.once every at_time at after = some (next_once after at)

-- The arguments of create_schedule_fn.
pub record NewSchedule : Type 0 where
  pub name : String
  pub kind : Kind
  pub payload_emit_type : String
  pub every_seconds : Option ℕ
  pub at_time : Option (ℕ × ℕ)
  pub at : Option ℕ
  pub enabled : Bool
  pub created_by : Option String
  pub frame_id : Option String

abbrev pub schedule_of : NewSchedule → Option ℕ → Schedule
schedule_of a next_due = record {
  name = a.name;
  kind = a.kind;
  every_seconds = a.every_seconds;
  at_time = a.at_time;
  at = a.at;
  payload_emit_type = a.payload_emit_type;
  enabled = a.enabled && is_some next_due;
  next_due_at = next_due;
  last_fired_at = none;
  fire_count = 0;
  created_by = a.created_by;
  frame_id = a.frame_id;
}

-- The first due moment.
unfoldable pub first_due : NewSchedule → ℕ → Option (Option ℕ)
first_due a now = elim a.kind [
  | Kind.once ↦ some (next_once now a.at)
  | k ↦ compute_next_due k a.every_seconds a.at_time a.at now
]

-- A schedule that is due: its id, and the moment.
pub record DueSchedule : Type 0 where
  pub schedule_id : ℕ
  pub due_at : ℕ

-- The moment at which a schedule is due, if it is enabled and that is at or before now.
unfoldable pub due_at_of : ℕ → Schedule → Option ℕ
due_at_of now s =
    if s.enabled
    then elim s.next_due_at [ none ↦ none | some d ↦ if leb d now then some d else none ]
    else none

-- The due schedules, in the order of creation.
unfoldable pub due_schedules : ℕ → List (ℕ × Obj) → List DueSchedule
due_schedules now [] = []
due_schedules now ((k, schedule s) ∷ m) =
    let rest = due_schedules now m in
    elim (due_at_of now s) [ none ↦ rest | some d ↦ record { schedule_id = k; due_at = d } ∷ rest ]
due_schedules now ((k, _) ∷ m) = due_schedules now m

-- `list.sort` by the due moment: stable.
unfoldable pub insert_due : DueSchedule → List DueSchedule → List DueSchedule
insert_due d [] = d ∷ []
insert_due d (e ∷ es) =
    let rest = insert_due d es in if leb d.due_at e.due_at then d ∷ e ∷ es else e ∷ rest

unfoldable pub sort_due : List DueSchedule → List DueSchedule
sort_due [] = []
sort_due (d ∷ ds) = insert_due d (sort_due ds)

-- list_due_fn
unfoldable pub list_due : ℕ → List (ℕ × Obj) → List DueSchedule
list_due now m = sort_due (due_schedules now m)

-- The dedup keys of the ticks.
unfoldable pub tick_keys : List (ℕ × Obj) → List (ℕ × ℕ)
tick_keys [] = []
tick_keys ((k, tick t) ∷ m) = t.dedup_key ∷ tick_keys m
tick_keys ((k, _) ∷ m) = tick_keys m

abbrev pub key_eq : ℕ × ℕ → ℕ × ℕ → Bool
key_eq (a, b) (c, d) = (a == c) && (b == d)

unfoldable pub has_key : ℕ × ℕ → List (ℕ × ℕ) → Bool
has_key key keys = any (λ x. key_eq x key) keys

abbrev pub key_of : DueSchedule → ℕ × ℕ
key_of d = (d.schedule_id, d.due_at)

abbrev pub tick_of : ℕ → DueSchedule → Tick
tick_of now d = record {
  schedule_id = d.schedule_id;
  fired_at = now;
  due_at = d.due_at;
  dedup_key = key_of d;
}

-- A patch of a schedule's object.
abbrev pub with_schedule : (Schedule → Schedule) → Obj → Obj
with_schedule f (schedule s) = schedule (f s)
with_schedule f o = o

-- The patch of schedule_bookkeeper.
abbrev pub advanced : ℕ → Bool → Option ℕ → ℕ → Schedule → Schedule
advanced fired_at is_once next_due count s = record s {
  last_fired_at = some fired_at;
  fire_count = count;
  next_due_at = next_due;
  enabled = if is_once then false else s.enabled;
}

-- The schema of Schedule at what create_schedule_fn passes on: `every_seconds` is at least 1 where it
-- is given.
abbrev pub is_valid_period : Option ℕ → Bool
is_valid_period none = true
is_valid_period (some zero) = false
is_valid_period (some (suc n)) = true

module _ {G : Type 0} (graph : Graph Obj G) where
  -- create_schedule_fn; `none` where it raises, also where the runtime refuses the object.
  unfoldable pub create_schedule : NewSchedule → ℕ → G → Option (ℕ × G)
  create_schedule a now g = elim (first_due a now) [
    | none ↦ none
    | some next_due ↦
        if is_valid_period a.every_seconds
        then some (graph.add_object g (schedule (schedule_of a next_due)))
        else none
  ]

  -- One tick, and its relation to the schedule.
  unfoldable pub emit_tick : ℕ → DueSchedule → G → ℕ × G
  emit_tick now d g =
      let (id, g1) = graph.add_object g (tick (tick_of now d)) in
      (id, try_relate graph g1 id d.schedule_id "tick_of")

  -- The loop over the due schedules, with the keys read before it.
  unfoldable pub emit_ticks : ℕ → List (ℕ × ℕ) → List DueSchedule → G → List ℕ × G
  emit_ticks now keys [] g = ([], g)
  emit_ticks now keys (d ∷ ds) g = elim (has_key (key_of d) keys) [
    | true ↦ emit_ticks now keys ds g
    | false ↦
        let (id, g1) = emit_tick now d g in
        let (ids, g2) = emit_ticks now keys ds g1 in (id ∷ ids, g2)
  ]

  -- emit_due_ticks_fn
  unfoldable pub emit_due_ticks : ℕ → G → List ℕ × G
  emit_due_ticks now g =
      emit_ticks now (tick_keys (graph.objects g)) (list_due now (graph.objects g)) g

  unfoldable pub set_object_enabled : ℕ → Bool → Option Obj → G → Option (Bool × G)
  set_object_enabled k enabled (some (schedule s)) g =
      elim (graph.patch_object g k (with_schedule (λ s. record s { enabled = enabled }))) [
        | none ↦ none
        | some g1 ↦ some (true, g1)
      ]
  set_object_enabled k enabled _ g = some (false, g)

  -- set_schedule_enabled_fn: `ok`; the patch is not in a `try`, so `none` where it raises.
  unfoldable pub set_schedule_enabled : ℕ → Bool → G → Option (Bool × G)
  set_schedule_enabled k enabled g = set_object_enabled k enabled (graph.get_object g k) g

  -- The patch for a schedule that was found; `none` where the next moment raises.
  unfoldable pub advance : ℕ → ℕ → Schedule → Kind → G → Option G
  advance k fired_at s Kind.once g =
      some (try_patch graph g k (with_schedule (advanced fired_at true none (suc s.fire_count))))
  advance k fired_at s kind g =
      elim (compute_next_due kind s.every_seconds s.at_time s.at fired_at) [
        | none ↦ none
        | some next_due ↦ some (
            try_patch graph g k
              (with_schedule (advanced fired_at false next_due (suc s.fire_count))))
      ]

  -- The object that the tick names is a schedule; the code, which does not test its type, is modelled
  -- for schedules only.
  unfoldable pub advance_object : Tick → Option Obj → G → Option G
  advance_object t (some (schedule s)) g = advance t.schedule_id t.fired_at s s.kind g
  advance_object t _ g = some g

  -- schedule_bookkeeper, for the tick of the event
  unfoldable pub schedule_bookkeeper : Tick → G → Option G
  schedule_bookkeeper t g = advance_object t (graph.get_object g t.schedule_id) g
