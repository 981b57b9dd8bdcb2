-- ===== src/Schedule/Due.antt =====
-- The next due moment: compute_next_due of packs/schedule/tools.py.
use activegraph_packs.Base.{
  ℕ, zero, suc, ◌+◌, ◌*◌, ◌%◌, ◌≤◌, ◌<◌, Option, none, some, ◌≡◌, arith, subst, sym,
}
use activegraph_packs.Schedule.{
  Kind, second, day, next_interval, at_time_after, next_daily, next_once, compute_next_due,
}

abbrev pub time_of_day : ℕ → ℕ → ℕ
time_of_day hh mm = (hh * 3600 + mm * 60) * second

-- The moment is the first after the reference at which it is that time of day.
pub record IsNext (after time d : ℕ) : Type 0 where
  pub later : after < d
  pub at_time : d % day ≡ time
  pub first : (e : ℕ) → after < e → e % day ≡ time → d ≤ e

at_time_after-IsNext :
    (after hh mm : ℕ)
    → hh < 24
    → mm < 60
    → IsNext after (time_of_day hh mm) (at_time_after after hh mm)
unfolding at_time_after
at_time_after-IsNext after hh mm h m = record {
  later = ground arith;
  at_time = ground arith;
  first = λ e lt same. ground arith;
}

next_interval_later :
    (after : ℕ) (every : Option ℕ) (d : ℕ) → next_interval after every ≡ some d → after < d
unfolding next_interval
next_interval_later after none d h = ground arith
next_interval_later after (some zero) d h = ground arith
next_interval_later after (some (suc n)) d h = ground arith

next_daily_inv :
    (after hh mm d : ℕ)
    → next_daily after (some (hh, mm)) ≡ some (some d)
    → (hh < 24) × (mm < 60) × (d ≡ at_time_after after hh mm)
unfolding next_daily
next_daily_inv after hh mm d h = ground arith

next_once_later : (after : ℕ) (at : Option ℕ) (d : ℕ) → next_once after at ≡ some d → after < d
unfolding next_once
next_once_later after none d h = ground arith
next_once_later after (some moment) d h = ground arith

next_daily_later :
    (after : ℕ) (at_time : Option (ℕ × ℕ)) (d : ℕ)
    → next_daily after at_time ≡ some (some d)
    → after < d
unfolding next_daily
next_daily_later after none d h = ground arith
next_daily_later after (some (hh, mm)) d h =
    let (a, b, e) = next_daily_inv after hh mm d h in
    let next = at_time_after-IsNext after hh mm a b in omega (arith, e, next.later)

-- Whatever the kind of the schedule, the next due moment lies strictly after the reference.
pub compute_next_due_later :
    (kind : Kind) (every : Option ℕ) (at_time : Option (ℕ × ℕ)) (at : Option ℕ) (after d : ℕ)
    → compute_next_due kind every at_time at after ≡ some (some d)
    → after < d
unfolding compute_next_due
compute_next_due_later Kind.interval every at_time at after d h =
    next_interval_later after every d (ground arith)
compute_next_due_later Kind.daily every at_time at after d h = next_daily_later after at_time d h
compute_next_due_later Kind.once every at_time at after d h =
    next_once_later after at d (ground arith)

-- A daily schedule is next due at the first moment after the reference at which it is its time of
-- day.
pub compute_next_due-IsNext :
    (every : Option ℕ) (hh mm : ℕ) (at : Option ℕ) (after d : ℕ)
    → compute_next_due Kind.daily every (some (hh, mm)) at after ≡ some (some d)
    → IsNext after (time_of_day hh mm) d
unfolding compute_next_due
compute_next_due-IsNext every hh mm at after d h =
    let (a, b, e) = next_daily_inv after hh mm d h in
    subst (IsNext after (time_of_day hh mm)) (sym e) (at_time_after-IsNext after hh mm a b)
