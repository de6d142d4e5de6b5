-- ===== src/Tests/Nested.antt =====
-- A callback that flushes the queue while two events wait.
use memory_tracker.Base.{◌≡◌, refl, some, [], ◌∷◌, map, arith, true}
use memory_tracker.Value.{Value}
use memory_tracker.Assoc.{lookup, insert}
use memory_tracker.Queue.{Queue, clear}
use memory_tracker.Queue.Contents.{contents, IsValid}
use memory_tracker.Events.{Event, EventType, Events, newobj, freeobj, first, queue_of, swap}
use memory_tracker.World.{World, ok, out_of_fuel, M, ◌>>◌, pure}
use memory_tracker.Capture.Process.{
  process_event, process_newobj, pause, count_new, count_class, count_known, store_object,
  store_states, resume,
}
use memory_tracker.Capture.Dispatch.{
  protect, process_queue, process_all, start_queue, process_loop, finish_queue, cleared,
}
use memory_tracker.Capture.Nested.{IsFlushed}
use memory_tracker.Capture.Nested.Resumed.{process_queue-resumes}
use memory_tracker.Capture.Order.{process_events}
use memory_tracker.Capture.Nested.Endless.{twice, process_queue-twice}
use memory_tracker.Tests.Samples.{qnil}
use memory_tracker.Tests.Queues.{idle_events}
use memory_tracker.Tests.Worlds.{
  busy_world, busy_capture, class_counters, capture_here, class_tracked, counters_here, calm,
  calm-LeavesQueue, granted,
}

-- What a callback does that calls each_object.
abbrev flushing : Value → Value → EventType → Value → M Value
flushing callback klass type datum = process_all calm (λ _. granted) true 1 >> pure 88

abbrev made_event : Event
made_event = record { type = newobj; capture = 64; klass = 16; object = 32 }

abbrev gone_event : Event
gone_event = record { type = freeobj; capture = 64; klass = 4; object = 8 }

abbrev pair_queue : Queue Event
pair_queue = record {
  base = some made_event ∷ some gone_event ∷ [];
  capacity = 2;
  count = 2;
  element_size = 32;
}

abbrev pair_world : World
pair_world = record busy_world { events = record idle_events { queue0 = pair_queue } }

pair_queue-IsValid : IsValid pair_queue
pair_queue-IsValid = record {
  width = refl;
  within = omega arith;
  bytes = omega arith;
  sized = omega arith;
  size_fits = omega arith;
}

pair_queue-contents : contents pair_queue ≡ map some (made_event ∷ gone_event ∷ [])
unfolding contents
pair_queue-contents = refl

flushed :
    (w₁ : World) × (protect
        (process_event flushing granted newobj made_event)
        (record pair_world { events = swap pair_world.events })
      ≡ ok tt w₁)
    × IsFlushed first pair_queue w₁.events
unfolding process_event process_newobj pause count_new count_class count_known store_object
    store_states resume lookup insert process_queue start_queue process_loop finish_queue swap clear
flushed = (_, refl, record { available = refl; processing = refl; same = refl; empty = refl })

process_queue-resumes_example :
    (e : Events) × (process_queue flushing (λ _. granted) 2 pair_world
      ≡ ok tt (record flushed.0 { events = e }))
    × (contents (queue_of e.available e) ≡ map some (cleared ∷ gone_event ∷ []))
    × (process_queue calm (λ _. granted) 3 (record flushed.0 { events = e })
        ≡ (start_queue calm (λ _. granted)
              >> (process_events calm (λ _. granted) first 0 (cleared ∷ gone_event ∷ [])
                  >> finish_queue calm (λ _. granted)))
            (record flushed.0 { events = e }))
process_queue-resumes_example =
    process_queue-resumes flushing calm (λ _. granted) (λ _. granted) calm-LeavesQueue 0 3
      made_event (gone_event ∷ []) pair_world flushed.0 pair_queue-IsValid pair_queue-contents
      flushed.1 flushed.2 (omega arith)

process_queue-twice_example :
    process_queue (twice (λ _. granted) 2 3) (λ _. granted) 2 pair_world ≡ out_of_fuel
process_queue-twice_example =
    process_queue-twice (λ _. granted) 1 first pair_queue made_event (gone_event ∷ [])
      pair_queue-IsValid pair_queue-contents refl 3 pair_world
      (record { available = refl; processing = refl; same = refl; empty = refl })
      (record {
        capture = busy_capture;
        allocations = 72;
        counters = class_counters;
        here = capture_here;
        tracked = class_tracked;
        known = counters_here;
        set = ground arith;
      })
