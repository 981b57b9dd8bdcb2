-- ===== src/Schedule/Over.antt =====
-- A schedule of kind once after the bookkeeper has handled a tick of it.
use activegraph_packs.Base.{
  ℕ, true, Option, none, some, List, ◌≡◌, refl, sym, ap, subst, ◌∙◌, arith, lookup,
}
use activegraph_packs.Graph.{Graph}
use activegraph_packs.Schedule.{
  Kind, Schedule, Tick, Obj, schedule, other, due_at_of, tick_keys, list_due, emit_due_ticks,
  set_schedule_enabled, schedule_bookkeeper,
}
use activegraph_packs.Schedule.Bookkeeper.{valid_time, schedule_bookkeeper_advances}
use activegraph_packs.Schedule.Steps.{
  IsOver, ScheduleStep, ScheduleReach, create, emit, enable, keep_books, add_other, start,
  then_step, IsOver-create_schedule, IsOver-set_object_enabled, IsOver-emit_ticks,
  IsOver-advance_object, IsOver-add_object,
}

some_eq : {A : Type 0} (a b : A) → some a ≡ some b → a ≡ b
some_eq a b h = ground arith

valid_once : (at_time : Option (ℕ × ℕ)) → valid_time Kind.once at_time ≡ true
unfolding valid_time
valid_once none = refl
valid_once (some hm) = refl

no_moment-due : (now : ℕ) (s : Schedule) → s.next_due_at ≡ none → due_at_of now s ≡ none
unfolding due_at_of
no_moment-due now s h = ground (arith, h)

-- The schedule is in the graph, and due at no moment at all.
pub record NeverDue (k : ℕ) (m : List (ℕ × Obj)) : Type 0 where
  pub it : Schedule
  pub there : lookup k m ≡ some (schedule it)
  pub at_no_moment : (now : ℕ) → due_at_of now it ≡ none

module _ {G : Type 0} (graph : Graph Obj G) where
  -- The bookkeeper ends a schedule of kind once.
  once_booked :
      (t : Tick) (s : Schedule) (g h : G)
      → lookup t.schedule_id (graph.objects g) ≡ some (schedule s)
      → s.kind ≡ Kind.once
      → schedule_bookkeeper graph t g ≡ some h
      → IsOver t.schedule_id (graph.objects h)
  once_booked t s g h found once booked =
      let kept =
        schedule_bookkeeper_advances graph t s g found
          (ap (λ x. valid_time x s.at_time) once ∙ valid_once s.at_time) in
      let same : kept.state ≡ h = some_eq kept.state h (sym kept.outcome ∙ booked) in
      subst (λ x. IsOver t.schedule_id (graph.objects x)) same
        (record {
          it = kept.now_is;
          there = kept.there;
          once = kept.advanced_to.same_kind ∙ once;
          no_moment = (kept.advanced_to.once_over once).1;
        })

  IsOver-ScheduleStep :
      (k : ℕ) {g g' : G}
      → IsOver k (graph.objects g)
      → ScheduleStep graph g g'
      → IsOver k (graph.objects g')
  unfolding emit_due_ticks set_schedule_enabled schedule_bookkeeper
  IsOver-ScheduleStep k {g} h (create a now j g' e) =
      IsOver-create_schedule graph k a now j g g' h e
  IsOver-ScheduleStep k {g} h (emit now) =
      IsOver-emit_ticks graph k now (tick_keys (graph.objects g)) (list_due now (graph.objects g)) g
        h
  IsOver-ScheduleStep k {g} h (enable j enabled r g' e) =
      IsOver-set_object_enabled graph k j enabled r (graph.get_object g j) g g' h e
  IsOver-ScheduleStep k {g} h (keep_books t g' e) =
      IsOver-advance_object graph k t (graph.get_object g t.schedule_id) g g' h
        (sym (graph.get_object-objects g t.schedule_id)) e
  IsOver-ScheduleStep k {g} h add_other = IsOver-add_object graph k other g h

  pub IsOver-ScheduleReach :
      (k : ℕ) {g g' : G}
      → IsOver k (graph.objects g)
      → ScheduleReach graph g g'
      → IsOver k (graph.objects g')
  IsOver-ScheduleReach k h start = h
  IsOver-ScheduleReach k h (then_step r s) = IsOver-ScheduleStep k (IsOver-ScheduleReach k h r) s

  -- After the bookkeeper has handled one tick of a schedule of kind once, the schedule is never due
  -- again, whatever follows: creations, emissions, further ticks, and enabling it again.
  pub once_fires_no_more :
      (t : Tick) (s : Schedule) (g h g' : G)
      → lookup t.schedule_id (graph.objects g) ≡ some (schedule s)
      → s.kind ≡ Kind.once
      → schedule_bookkeeper graph t g ≡ some h
      → ScheduleReach graph h g'
      → NeverDue t.schedule_id (graph.objects g')
  once_fires_no_more t s g h g' found once booked r =
      let over = IsOver-ScheduleReach t.schedule_id (once_booked t s g h found once booked) r in
      record {
        it = over.it;
        there = over.there;
        at_no_moment = λ now. no_moment-due now over.it over.no_moment;
      }
