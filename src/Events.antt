-- ===== src/Events.antt =====
-- ext/memory/profiler/events.h and events.c: the event queue that all captures share, as a value.
-- Its processing, which calls into the captures, is in Dispatch.
pub mod Gc
pub mod Instance
pub mod Laws
pub mod Collected
use memory_tracker.Base.{
  ℕ, ◌+◌, ◌*◌, Bool, true, false, Option, none, some, List, [], ◌∷◌, ◌++◌, if◌then◌else◌, map,
}
use memory_tracker.Value.{Value, Ruby}
use memory_tracker.Queue
use memory_tracker.Queue.{Queue}

pub data EventType : Type 0 where
  no_event newobj freeobj : EventType

pub record Event : Type 0 where
  pub type : EventType
  pub capture : Value
  pub klass : Value
  pub object : Value

-- sizeof(struct Memory_Profiler_Event): four 64-bit words, the enum padded.
abbrev pub event_size : ℕ
event_size = 32

-- Which of the two queues a pointer is to.
pub data Side : Type 0 where
  first second : Side

pub record Events : Type 0 where
  pub queue0 : Queue Event
  pub queue1 : Queue Event
  pub available : Side
  pub processing : Side
  -- Whether rb_postponed_job_trigger has been called since the last run of the job.
  pub triggered : Bool

abbrev pub queue_of : Side → Events → Queue Event
queue_of first e = e.queue0
queue_of second e = e.queue1

abbrev pub put_queue : Side → Queue Event → Events → Events
put_queue first q e = record e { queue0 = q }
put_queue second q e = record e { queue1 = q }

unfoldable pub new : Events
new = record {
  queue0 = Queue.initialize event_size;
  queue1 = Queue.initialize event_size;
  available = first;
  processing = second;
  triggered = false;
}

-- `none` where the queue cannot grow: the event is lost, and nothing has changed.
unfoldable pub enqueue : Bool → EventType → Value → Value → Value → Events → Option Events
enqueue fits type capture klass object e = elim (Queue.push fits (queue_of e.available e)) [
  | none ↦ none
  | some (index, q) ↦
      some
        (record (put_queue e.available
          (Queue.write q index
            (record { type = type; capture = capture; klass = klass; object = object }))
          e) { triggered = true })
]

-- The first step of process_queue.
unfoldable pub swap : Events → Events
swap e = record e { available = e.processing; processing = e.available }

unfoldable pub memsize : ℕ → Events → ℕ
memsize struct_size e =
    struct_size
    + e.queue0.capacity * e.queue0.element_size
    + e.queue1.capacity * e.queue1.element_size
