-- ===== src/Tests/Sessions.antt =====
-- A session of one capture: it is made and started, and a free is reported to it.
use memory_tracker.Base.{ℕ, ◌<◌, ◌+◌, ◌≤◌, ◌≡◌, refl, arith, true, some, [], ◌∷◌, replicate}
use memory_tracker.Value.{Value}
use memory_tracker.Assoc.{lookup, insert}
use memory_tracker.Queue
use memory_tracker.Queue.Contents.{IsValid, initialize-IsValid}
use memory_tracker.Events
use memory_tracker.Events.{Event, Events, freeobj, queue_of, event_size}
use memory_tracker.Events.Laws.{Enqueues}
use memory_tracker.Table
use memory_tracker.Table.{empty_entry}
use memory_tracker.World.{Capture, World, ok}
use memory_tracker.Capture.Control.{alloc, start, add_hook}
use memory_tracker.Capture.Dispatch.{process_queue}
use memory_tracker.Capture.Filter.{event_callback-queues, free}
use memory_tracker.Capture.Hook.{
  Trace, freeobj_flag, t_string, t_class, trackable_p, event_callback,
}
use memory_tracker.Capture.Query.{retained_count, object_table_size}
use memory_tracker.Capture.Balance.Runs.{granted}
use memory_tracker.Capture.Gc.{compact_capture}
use memory_tracker.Capture.Session.MovedEvents.{IsMove}
use memory_tracker.Capture.Each.{Vm, returns, Code, each_object_with}
use memory_tracker.Capture.Each.Collecting.{IsCollecting}
use memory_tracker.Capture.Session.Iteration.{
  Lands, InSession, nested, nested-Continues, each_object_with-Lands,
}
use memory_tracker.Capture.Session.Ready.{waiting_count}
use memory_tracker.Capture.Session.Methods.{allocates, starts, perform}
use memory_tracker.Capture.Session.Reach.{
  Session, begins, performs, reports, initial, Session-Ready, Session-retained_count,
}
use memory_tracker.Tests.Samples.{qnil, string-IsKey}
use memory_tracker.Tests.Worlds.{calm, calm-IsHarmless}

abbrev made_capture : Capture
made_capture = record {
  running = 0;
  paused = 0;
  tracked = [];
  states =
      some (record {
        capacity = 1024;
        count = 0;
        tombstones = 0;
        entries = replicate 1024 empty_entry;
      });
  new_count = 0;
  free_count = 0;
}

abbrev made_world : World
made_world = record initial { captures = (64, made_capture) ∷ [] }

makes : perform (allocates 64) initial ≡ ok tt made_world
unfolding perform alloc Table.new insert
makes = refl

abbrev started_capture : Capture
started_capture = record made_capture { running = 1 }

abbrev started_world : World
started_world = record made_world { captures = (64, started_capture) ∷ []; hooks = 64 ∷ [] }

runs : perform (starts 64) made_world ≡ ok tt started_world
unfolding perform start add_hook lookup insert
runs = refl

started_here : lookup 64 started_world.captures ≡ some started_capture
unfolding lookup
started_here = refl

abbrev free_trace : Trace
free_trace = record {
  flag = freeobj_flag;
  object = 8;
  object_type = t_string;
  klass = 16;
  klass_type = t_class;
}

string-trackable : trackable_p t_string ≡ true
unfolding trackable_p
string-trackable = refl

fresh_queue-IsValid :
    IsValid (queue_of started_world.events.available started_world.events)
    × ((queue_of started_world.events.available started_world.events).element_size ≡ event_size)
    × ((queue_of started_world.events.available started_world.events).count ≡ 0)
unfolding Events.new Queue.initialize
fresh_queue-IsValid = ((initialize-IsValid event_size (omega arith) (omega arith)).0, refl, refl)

reported :
    (e : Events) × (event_callback true 64 free_trace started_world
      ≡ ok tt (record started_world { events = e }))
    × Enqueues
        (record { type = freeobj; capture = 64; klass = 4; object = 8 })
        started_world.events
        e
reported =
    event_callback-queues 64 free_trace started_capture started_world started_here
      (record { type = freeobj; capture = 64; klass = 4; object = 8 }) string-trackable (free refl)
      fresh_queue-IsValid.0 fresh_queue-IsValid.1 (omega (arith, fresh_queue-IsValid.2))

abbrev reported_world : World
reported_world = record started_world { events = reported.0 }

session : Session calm 1 reported_world
session =
    reports 64 free_trace (performs (starts 64) (performs (allocates 64) begins makes) runs)
      string-IsKey reported.1

-- Every object moves up by 64 bytes.
abbrev pub shifted : Value → Value
shifted x = x + 64

pub shifted-IsMove : IsMove shifted
shifted-IsMove = record {
  apart = λ a b e. omega arith;
  lands = λ o key. record { ne_zero = omega arith; ne_nil = omega arith };
}

Session-retained_count_example :
    (object_table_size started_capture.states ≤ retained_count started_capture)
    × (retained_count started_capture + 0 ≡ 0)
    × ((w' : World) × (process_queue calm
            (granted (λ _. 96))
            ((queue_of reported_world.events.available reported_world.events).count + 1)
            reported_world
          ≡ ok tt w'))
    × ((c' : Capture) × (compact_capture shifted true started_capture ≡ some c'))
Session-retained_count_example =
    Session-retained_count calm calm-IsHarmless 64 started_capture (λ _. 96)
      ((queue_of reported_world.events.available reported_world.events).count + 1) shifted session
      (omega arith) started_here (omega arith) shifted-IsMove

-- A block that iterates over all objects for each array that it is given, and does nothing else.
abbrev silent : Value → Value → Code (Unit {0})
silent object allocations v = returns tt v

abbrev reported_vm : Vm
reported_vm = record { world = reported_world; collects = true }

abbrev wrapper_96 : ℕ → Value
wrapper_96 n = 96

few_wait : (queue_of reported_world.events.available reported_world.events).count < 5000
few_wait =
    let r = Session-Ready calm calm-IsHarmless session 0 (omega arith) in
    omega (arith, waiting_count r.es reported_world.events r.tidy, r.small)

each_object_with-Lands_example :
    Lands (InSession calm calm-IsHarmless 64) (
      each_object_with
        (nested calm calm-IsHarmless 64 silent wrapper_96 5000 9000 4)
        calm
        (granted wrapper_96)
        true
        5000
        9000
        64
        16
        reported_vm)
    × IsCollecting (
        each_object_with
          (nested calm calm-IsHarmless 64 silent wrapper_96 5000 9000 4)
          calm
          (granted wrapper_96)
          true
          5000
          9000
          64
          16
          reported_vm)
each_object_with-Lands_example =
    each_object_with-Lands calm calm-IsHarmless 64
      (nested calm calm-IsHarmless 64 silent wrapper_96 5000 9000 4)
      (nested-Continues calm calm-IsHarmless 64 silent wrapper_96 5000 9000 4 (λ o a v h. h)
        (omega arith) (omega arith))
      wrapper_96 5000 9000 16 reported_vm (1, omega arith, session, (started_capture, started_here))
      few_wait (omega arith)
