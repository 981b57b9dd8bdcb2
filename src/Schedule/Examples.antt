-- ===== src/Schedule/Examples.antt =====
-- Schedules at concrete inputs: the theorems where their hypotheses hold, and a day of a daily
-- schedule.
use activegraph_packs.Base.{
  false, ℕ, ◌+◌, ◌*◌, ◌≤◌, true, none, some, [], ◌∷◌, ◌≡◌, refl, arith, All,
}
use activegraph_packs.Graph.{Graph}
use activegraph_packs.Graph.Listed.{Listed, listed}
use activegraph_packs.Schedule.{
  Kind, Schedule, Tick, Obj, schedule, NewSchedule, second, day, at_time_after, next_daily,
  next_interval, next_once, compute_next_due, first_due, due_at_of, due_schedules, insert_due,
  sort_due, list_due, tick_keys, has_key, key_of, create_schedule, emit_tick, emit_ticks,
  emit_due_ticks, schedule_bookkeeper, schedule_of, advance, advance_object, set_object_enabled,
  set_schedule_enabled,
}
use activegraph_packs.Schedule.Due.{IsNext, time_of_day, compute_next_due-IsNext}
use activegraph_packs.Schedule.Ticks.{key_count, keys}
use activegraph_packs.Schedule.Once.{IsUnique, emit_due_ticks_once, emit_due_ticks_idempotent}
use activegraph_packs.Schedule.Bookkeeper.{valid_time, Kept, schedule_bookkeeper_advances}
use activegraph_packs.Schedule.Steps.{ScheduleReach, start, then_step, create, emit, enable}
use activegraph_packs.Schedule.Over.{NeverDue, once_fires_no_more}
use activegraph_packs.Schedule.Unique.{one_tick_per_moment}
use activegraph_packs.Schedule.Creation.{Created, create_schedule_later}

abbrev objects : Graph Obj (Listed Obj)
objects = listed Obj

program : Unit {0}
unfolding next_interval at_time_after next_daily next_once compute_next_due first_due due_at_of
    due_schedules insert_due sort_due list_due tick_keys has_key create_schedule emit_tick
    emit_ticks emit_due_ticks schedule_bookkeeper valid_time advance advance_object
    set_object_enabled set_schedule_enabled
program = tt

-- Half past eight, asked for at nine of day 3: tomorrow.
abbrev nine : ℕ
nine = 3 * day + 32400 * second

abbrev next_morning : ℕ
next_morning = 4 * day + 30600 * second

tomorrow : compute_next_due Kind.daily none (some (8, 30)) none nine ≡ some (some next_morning)
unfolding program
tomorrow = refl

compute_next_due-IsNext_example : IsNext nine (time_of_day 8 30) next_morning
compute_next_due-IsNext_example = compute_next_due-IsNext none 8 30 none nine next_morning tomorrow

abbrev asked : NewSchedule
asked = record {
  name = "digest";
  kind = Kind.daily;
  payload_emit_type = "task";
  every_seconds = none;
  at_time = some (8, 30);
  at = none;
  enabled = true;
  created_by = none;
  frame_id = none;
}

half_past_eight : valid_time Kind.daily (some (8, 30)) ≡ true
unfolding valid_time
half_past_eight = refl

create_schedule_later_example : Created objects asked nine []
create_schedule_later_example = create_schedule_later objects asked nine [] half_past_eight refl

abbrev digest : Schedule
digest = schedule_of asked (some next_morning)

abbrev scheduled : Listed Obj
scheduled = (1, schedule digest) ∷ []

created : create_schedule objects asked nine [] ≡ some (1, scheduled)
unfolding program
created = refl

scheduled-IsUnique : IsUnique scheduled
unfolding program
scheduled-IsUnique = record { ids = λ k. ground arith; once = λ key. omega arith }

due_now : list_due next_morning scheduled ≡ record { schedule_id = 1; due_at = next_morning } ∷ []
unfolding program
due_now = refl

emit_due_ticks_once_example :
    All
      (λ d.
        key_count (key_of d) (keys objects (emit_due_ticks objects next_morning scheduled).1) ≡ 1)
      (list_due next_morning scheduled)
    × ((key : ℕ × ℕ)
        → key_count key (keys objects (emit_due_ticks objects next_morning scheduled).1) ≤ 1)
    × (list_due next_morning (emit_due_ticks objects next_morning scheduled).1
        ≡ list_due next_morning scheduled)
emit_due_ticks_once_example = emit_due_ticks_once objects next_morning scheduled scheduled-IsUnique

emit_due_ticks_idempotent_example :
    emit_due_ticks objects next_morning (emit_due_ticks objects next_morning scheduled).1
    ≡ ([], (emit_due_ticks objects next_morning scheduled).1)
emit_due_ticks_idempotent_example = emit_due_ticks_idempotent objects next_morning scheduled

abbrev fired : Tick
fired = record {
  schedule_id = 1;
  fired_at = next_morning;
  due_at = next_morning;
  dedup_key = (1, next_morning);
}

schedule_bookkeeper_advances_example : Kept objects fired digest scheduled
schedule_bookkeeper_advances_example =
    schedule_bookkeeper_advances objects fired digest scheduled refl half_past_eight

-- A reminder for one moment, its tick, and a host that enables it again.
abbrev reminder : Schedule
reminder = record digest { kind = Kind.once; at_time = none; at = some next_morning }

abbrev reminded : Listed Obj
reminded = (1, schedule reminder) ∷ []

abbrev after_tick : Listed Obj
after_tick =
    (
      1,
      schedule (record reminder {
        last_fired_at = some next_morning;
        fire_count = 1;
        next_due_at = none;
        enabled = false;
      }),
    )
    ∷ []

booked : schedule_bookkeeper objects fired reminded ≡ some after_tick
unfolding program
booked = refl

abbrev enabled_again : Listed Obj
enabled_again =
    (
      1,
      schedule (record reminder {
        last_fired_at = some next_morning;
        fire_count = 1;
        next_due_at = none;
      }),
    )
    ∷ []

enabled_step : set_schedule_enabled objects 1 true after_tick ≡ some (true, enabled_again)
unfolding program
enabled_step = refl

once_fires_no_more_example :
    NeverDue 1 (emit_due_ticks objects (next_morning + day) enabled_again).1
once_fires_no_more_example =
    once_fires_no_more objects fired reminder reminded after_tick
      (emit_due_ticks objects (next_morning + day) enabled_again).1 refl refl booked
      (then_step (then_step start (enable 1 true true enabled_again enabled_step))
        (emit (next_morning + day)))

-- A period of zero is refused.
zero_refused :
    create_schedule objects (record asked { kind = Kind.interval; every_seconds = some 0 }) nine []
    ≡ none
unfolding program
zero_refused = refl

nothing-IsUnique : IsUnique []
unfolding program
nothing-IsUnique = record { ids = λ k. omega arith; once = λ key. omega arith }

-- The digest is created and its ticks are emitted twice.
abbrev ticked : Listed Obj
ticked = (emit_due_ticks objects next_morning scheduled).1

created_reach : ScheduleReach objects [] ticked
created_reach =
    then_step (then_step start (create asked nine 1 scheduled created)) (emit next_morning)

one_tick_per_moment_example :
    ((key : ℕ × ℕ)
      → key_count key (keys objects (emit_due_ticks objects next_morning ticked).1) ≤ 1)
    × All
        (λ d.
          key_count (key_of d) (
            keys objects
              (emit_due_ticks objects
                (next_morning + day)
                (emit_due_ticks objects next_morning ticked).1).1)
          ≡ 1)
        (list_due (next_morning + day) (emit_due_ticks objects next_morning ticked).1)
one_tick_per_moment_example =
    one_tick_per_moment objects (next_morning + day) nothing-IsUnique
      (then_step created_reach (emit next_morning))
