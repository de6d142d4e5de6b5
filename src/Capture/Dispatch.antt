-- ===== src/Capture/Dispatch.antt =====
-- events.c: the loop over the queued events, run as a postponed job or by stop and each_object.
use memory_tracker.Base.{ℕ, zero, suc, ◌+◌, Bool, true, false, Option, none, some, ltb}
use memory_tracker.Value.{Value, Ruby}
use memory_tracker.Queue
use memory_tracker.Queue.{Queue}
use memory_tracker.Events.{Event, EventType, no_event, Side, queue_of, put_queue, swap}
use memory_tracker.World.{Step, ok, raised, crashed, out_of_fuel, M, ◌>>◌, pure, raise, crash}
use memory_tracker.Capture.Process.{Chance, process_event}

-- rb_protect: an exception is dropped. rb_warning prints it only where $VERBOSE is true, which is
-- taken not to be so.
abbrev pub suppressed : Step (Unit {0}) → Step (Unit {0})
suppressed (ok u w) = ok u w
suppressed (raised w) = ok tt w
suppressed crashed = crashed
suppressed out_of_fuel = out_of_fuel

abbrev pub protect : M (Unit {0}) → M (Unit {0})
protect m w = suppressed (m w)

-- Memory_Profiler_Events_instance, by whether the events are there or can be made: else it raises.
abbrev pub events_instance : Bool → M (Unit {0})
events_instance true = pure tt
events_instance false = raise

module _ ⦃ruby : Ruby⦄ where
  -- What is left of a processed event.
  abbrev pub cleared : Event
  cleared = record { type = no_event; capture = ruby.nil; klass = ruby.nil; object = ruby.nil }

  -- The writes through the pointer to the event, in the queue that it was read from.
  unfoldable pub clear_event : Side → ℕ → M (Unit {0})
  clear_event side index w = ok tt (record w {
    events = put_queue side (Queue.write (queue_of side w.events) index cleared) w.events;
  })

  module _ (call : Value → Value → EventType → Value → M Value) (chance : ℕ → Chance) where
    unfoldable pub run_event : ℕ → Side → Event → M (Unit {0})
    unfolding clear_event
    run_event index side e = do
      protect (process_event call (chance index) e.type e)
      clear_event side index

    -- A cell that was never written would be read as garbage.
    unfoldable pub run_cell : ℕ → Side → Option (Option Event) → M (Unit {0})
    unfolding run_event
    run_cell index side (some (some e)) = run_event index side e
    run_cell index side (some none) = crash
    run_cell index side none = crash

    -- `events->processing` is read anew in each round.
    unfoldable pub process_loop : ℕ → ℕ → M (Unit {0})
    process_loop zero index w = out_of_fuel
    process_loop (suc fuel) index w =
        let side = w.events.processing in
        let q = queue_of side w.events in
        elim (ltb index q.count) [
          | true ↦ (run_cell index side (Queue.at q index) >> process_loop fuel (index + 1)) w
          | false ↦ ok tt w
        ]

    unfoldable pub finish_queue : M (Unit {0})
    finish_queue w =
        let side = w.events.processing in
        ok tt (record w { events = put_queue side (Queue.clear (queue_of side w.events)) w.events })

    unfoldable pub start_queue : M (Unit {0})
    start_queue w = ok tt (record w { events = swap w.events })

    unfoldable pub process_queue : ℕ → M (Unit {0})
    unfolding process_loop finish_queue start_queue run_cell
    process_queue fuel = do start_queue; process_loop fuel 0; finish_queue

    -- Memory_Profiler_Events_process_all, outside of the postponed job.
    abbrev pub process_all : Bool → ℕ → M (Unit {0})
    process_all made fuel = do events_instance made; process_queue fuel
