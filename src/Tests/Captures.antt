-- ===== src/Tests/Captures.antt =====
-- The theorems on captures.
use memory_tracker.Base.{
  ℕ, List, ◌+◌, ◌≡◌, ◌≢◌, ◌⊎◌, inl, inr, true, some, none, arith, [], ◌∷◌, refl, inc, length, inc32,
}
use memory_tracker.Value.{Value}
use memory_tracker.Assoc.{Assoc, lookup}
use memory_tracker.Capture.Filter.{event_callback-drops, Queues, allocation, free}
use memory_tracker.Tests.Queues.{idle_events}
use memory_tracker.Events.{first, second, swap, Event, newobj}
use memory_tracker.Queue.{clear}
use memory_tracker.Table.Slots.{view}
use memory_tracker.Table.{delete}
use memory_tracker.Table.Store.{store}
use memory_tracker.Table.Delete.{delete-Deletes}
use memory_tracker.World.{crashed, Capture, World, ok}
use memory_tracker.Capture.Process.{process_newobj, process_freeobj}
use memory_tracker.Capture.Newobj.{process_newobj-ok}
use memory_tracker.Capture.Freeobj.{process_freeobj-tracked, process_freeobj-ignored}
use memory_tracker.Capture.Hook.{Trace, newobj_flag, trackable_p, t_string, t_class, event_callback}
use memory_tracker.Capture.Dispatch.{
  protect, process_queue, process_all, start_queue, process_loop, finish_queue,
}
use memory_tracker.Capture.Keeping.{in_process}
use memory_tracker.Capture.Rounds.{process_queue-ends}
use memory_tracker.Capture.Exception.{raised_stops_tracking}
use memory_tracker.Capture.Query.{yields, each_object}
use memory_tracker.Capture.Iteration.{length-yields, HaveOwn, times, wanted, each_object-times}
use memory_tracker.Tests.Worlds.{
  busy_capture, class_counters, busy_world, granted, calm, faulty, waiting_world, capture_here,
  class_tracked, counters_here, calm-IsQuiet,
}
use memory_tracker.Tests.Samples.{
  qnil, string-IsKey, one_string, one_string-IsValid, view-one_string,
}

process_newobj-ok_example :
    (datum : Value) × (w' : World) × (tracked : Assoc Value) × (process_newobj calm granted 64 16 32
        busy_world
      ≡ ok tt w')
    × (lookup 64 w'.captures
        ≡ some (record busy_capture {
          new_count = inc 1;
          tracked = tracked;
          states = some (store true one_string 32 16 datum);
        }))
    × (lookup 16 tracked ≡ some 72)
    × (lookup 72 w'.records ≡ some (record class_counters { new_count = inc 1 }))
    × ((v : World) × (lookup 64 v.captures
          ≡ some (record busy_capture { paused = inc32 0; new_count = inc 1; tracked = tracked }))
        × (lookup 72 v.records ≡ some (record class_counters { new_count = inc 1 }))
        × ((◌≡◌ {A = ℕ} 80 4 × (datum ≡ 4))
            ⊎ (◌≢◌ {A = ℕ} 80 4 × ((v' : World) × (calm 80 16 newobj 4 v ≡ ok datum v')))))
process_newobj-ok_example =
    process_newobj-ok calm granted 64 16 32 72 busy_capture class_counters busy_world capture_here
      (inl (class_tracked, counters_here)) calm-IsQuiet (omega arith) one_string refl

process_freeobj-tracked_example :
    (w' : World) × (process_freeobj calm 64 8 busy_world ≡ ok tt w')
    × (lookup 64 w'.captures
        ≡ some (record busy_capture { states = some (delete one_string 8); free_count = inc 0 }))
    × (lookup 72 w'.records ≡ some (record class_counters { free_count = inc 0 }))
process_freeobj-tracked_example =
    process_freeobj-tracked calm 64 8 busy_capture busy_world one_string capture_here refl
      (omega arith) one_string-IsValid string-IsKey calm-IsQuiet 16 24 72 class_counters
      view-one_string class_tracked counters_here

-- The class is not tracked any more.
abbrev untracking_world : World
untracking_world = record busy_world { captures = (64, record busy_capture { tracked = [] }) ∷ [] }

untracked_here : lookup 64 untracking_world.captures ≡ some (record busy_capture { tracked = [] })
unfolding lookup
untracked_here = refl

no_class : lookup 16 (record busy_capture { tracked = [] }).tracked ≡ none
unfolding lookup
no_class = refl

process_freeobj-ignored_example :
    (w' : World) × (process_freeobj calm 64 8 untracking_world ≡ ok tt w')
    × (lookup 64 w'.captures ≡ some (record busy_capture { tracked = [] }))
    × (w'.records ≡ untracking_world.records)
process_freeobj-ignored_example =
    process_freeobj-ignored calm 64 8 (record busy_capture { tracked = [] }) untracking_world
      one_string untracked_here refl (omega arith) one_string-IsValid string-IsKey
      (inr (16, 24, view-one_string, no_class))

-- The allocation of the object at 40, of the class at 16.
abbrev string_trace : Trace
string_trace = record {
  flag = newobj_flag;
  object = 40;
  object_type = t_string;
  klass = 16;
  klass_type = t_class;
}

raised_stops_tracking_example :
    (w' : World) × (protect (process_newobj faulty granted 64 16 32) busy_world ≡ ok tt w')
    × (event_callback true 64 string_trace w' ≡ ok tt w')
raised_stops_tracking_example =
    raised_stops_tracking faulty granted 64 16 32 72 busy_capture class_counters busy_world
      capture_here (inl (class_tracked, counters_here)) (omega arith) (λ v. (v, refl, refl)) refl
      true string_trace refl

length-yields_example :
    length (yields ((16, 72) ∷ []) 4 (delete one_string 8).entries)
    ≡ (delete one_string 8).count + (delete one_string 8).tombstones
length-yields_example =
    length-yields (delete one_string 8) ((16, 72) ∷ [])
      (delete-Deletes one_string-IsValid 8 string-IsKey).valid

abbrev pub quiet_world : World
quiet_world = record busy_world { events = idle_events }

abbrev pub processed_world : World
processed_world = record busy_world {
  events = record idle_events { available = second; processing = first };
}

pub nothing_waits : process_all calm (λ _. granted) true 1 quiet_world ≡ ok tt processed_world
unfolding process_queue start_queue process_loop finish_queue swap clear
nothing_waits = refl

own_counters : HaveOwn ((16, 72) ∷ [])
unfolding lookup
own_counters = record { apart = λ j k a e f. ground arith; ne_nil = λ k a e. ground arith }

each_object-times_example :
    (ys : List (Value × Value)) × (each_object calm (λ _. granted) true 1 64 16 quiet_world
      ≡ ok ys processed_world)
    × (times 8 ys ≡ wanted ((16, 72) ∷ []) 16 (view one_string.entries 8))
each_object-times_example =
    each_object-times calm (λ _. granted) true 1 64 16 8 quiet_world processed_world busy_capture
      one_string nothing_waits capture_here refl one_string-IsValid own_counters string-IsKey

string-trackable : trackable_p t_string ≡ true
unfolding trackable_p
string-trackable = refl

-- An allocation during a pause.
abbrev paused_capture : Capture
paused_capture = record busy_capture { paused = 1 }

abbrev paused_world : World
paused_world = record busy_world { captures = (64, paused_capture) ∷ [] }

paused_here : lookup 64 paused_world.captures ≡ some paused_capture
unfolding lookup
paused_here = refl

paused-unqueued : ¬ (
    (trackable_p t_string ≡ true)
    × ((ev : Event) × Queues 64 string_trace paused_capture paused_world paused_here ev))
paused-unqueued (t, (ev, allocation f running k)) = omega (arith, running)
paused-unqueued (t, (ev, free f)) = cc

event_callback-drops_example : event_callback true 64 string_trace paused_world ≡ ok tt paused_world
event_callback-drops_example =
    event_callback-drops 64 string_trace paused_capture paused_world paused_here true
      paused-unqueued

-- The object at 40 is freed while the capture is running.

process_queue-ends_example :
    (process_queue faulty (λ _. granted) 2 waiting_world ≡ crashed)
    ⊎ ((w' : World) × (process_queue faulty (λ _. granted) 2 waiting_world ≡ ok tt w')
        × (w'.events.processing ≡ first)
        × (in_process w'.events ≡ 0))
process_queue-ends_example =
    process_queue-ends faulty (λ _. granted) (λ callback klass type datum w. (refl, refl)) 2
      waiting_world (omega arith)
