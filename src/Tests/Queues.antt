-- ===== src/Tests/Queues.antt =====
-- The theorems on the growing queue and on the event queue.
use memory_tracker.Base.{
  ◌∷◌, ◌++◌, [], List, none, replicate, map, false, ℕ, ◌≡◌, ◌≢◌, true, false, some, none, arith, [],
  refl,
}
use memory_tracker.Queue.{Queue, grow, out_of_fuel, push}
use memory_tracker.Queue.Contents.{IsValid}
use memory_tracker.Queue.Doubling.{grow-ne_out_of_fuel}
use memory_tracker.Queue.Push.{Pushes, push-total}
use memory_tracker.Events.Instance.{
  Request, enqueue_use, lazily, eagerly, refused, served, made_of, lazily-eagerly,
}
use memory_tracker.Events
use memory_tracker.Events.{freeobj, Event, newobj, first, second, Events, enqueue}

grow-ne_out_of_fuel_example : grow 100 8 100 1 ≢ out_of_fuel
grow-ne_out_of_fuel_example =
    grow-ne_out_of_fuel 100 8 100 1 (omega arith) (omega arith) (omega arith) (omega arith)

abbrev empty_queue : Queue ℕ
empty_queue = record { base = []; capacity = 0; count = 0; element_size = 32 }

empty_queue-IsValid : IsValid empty_queue
empty_queue-IsValid = record {
  width = refl;
  within = omega arith;
  bytes = omega arith;
  sized = omega arith;
  size_fits = omega arith;
}

pushed : (p : Queue ℕ) × (push true empty_queue ≡ some (0, p)) × Pushes empty_queue-IsValid p
pushed = push-total empty_queue-IsValid (omega arith) (omega arith)

abbrev idle_queue : Queue Event
idle_queue = record { base = []; capacity = 0; count = 0; element_size = 32 }

abbrev pub idle_events : Events
idle_events = record {
  queue0 = idle_queue;
  queue1 = idle_queue;
  available = first;
  processing = second;
  triggered = false;
}

pub idle_queue-IsValid : IsValid idle_queue
idle_queue-IsValid = record {
  width = refl;
  within = omega arith;
  bytes = omega arith;
  sized = omega arith;
  size_fits = omega arith;
}

abbrev pub string_event : Event
string_event = record { type = newobj; capture = 64; klass = 16; object = 8 }

-- Ruby registers the job at the second call; the realloc of the third one fails, and is not needed.
abbrev three_requests : List Request
three_requests =
    record { registers = false; use_events = enqueue_use true newobj 64 16 8 }
    ∷ record { registers = true; use_events = enqueue_use true newobj 64 16 8 }
    ∷ record { registers = false; use_events = enqueue_use false freeobj 64 4 8 }
    ∷ []

lazily-eagerly_example : lazily three_requests none ≡ (
  replicate (refused three_requests) none
      ++ map some (eagerly (served three_requests) Events.new).0,
  made_of (served three_requests),
)
lazily-eagerly_example = lazily-eagerly three_requests
