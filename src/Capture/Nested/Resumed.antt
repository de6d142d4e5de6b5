-- ===== src/Capture/Nested/Resumed.antt =====
-- The run of the queue after one that a callback has ended early.
use memory_tracker.Base.{ℕ, suc, ◌<◌, ◌≡◌, ap, ◌∙◌, List, ◌∷◌, length, map, some}
use memory_tracker.Value.{Value, Ruby}
use memory_tracker.Queue.Contents.{contents, IsValid}
use memory_tracker.Events.{Event, Events, EventType, Side, queue_of, swap}
use memory_tracker.World.{World, ok, M, ◌>>◌}
use memory_tracker.Capture.Process.{Chance, process_event}
use memory_tracker.Capture.Dispatch.{protect, cleared, start_queue, finish_queue, process_queue}
use memory_tracker.Capture.Order.{LeavesQueue, process_events, process_queue-all}
use memory_tracker.Capture.Nested.{IsFlushed, process_queue-nested}

module _ ⦃ruby : Ruby⦄ (call later : Value → Value → EventType → Value → M Value)
    (chance later_chance : ℕ → Chance) (leaves : LeavesQueue later) where
  -- process_queue on a valid available queue of at least one event, where the processing of the
  -- first event runs process_queue within it, so that this queue is the available one again with
  -- its events, and the other queue is empty: with fuel for two rounds it succeeds, the events
  -- after the first are not processed, and the available queue holds the cleared first event and
  -- those events in their order. A further process_queue, with callbacks that leave alone the queue
  -- that is processed and with fuel for more events than wait, then runs these, each once and in
  -- order, between the swap and the clearing of the queues.
  pub process_queue-resumes :
      (fuel later_fuel : ℕ) (x : Event) (rest : List Event) (w w₁ : World)
      → IsValid (queue_of w.events.available w.events)
      → contents (queue_of w.events.available w.events) ≡ map some (x ∷ rest)
      → protect (process_event call (chance 0) x.type x) (record w { events = swap w.events })
        ≡ ok tt w₁
      → IsFlushed w.events.available (queue_of w.events.available w.events) w₁.events
      → suc (length rest) < later_fuel
      → (e : Events) × (process_queue call chance (suc (suc fuel)) w
          ≡ ok tt (record w₁ { events = e }))
        × (contents (queue_of e.available e) ≡ map some (cleared ∷ rest))
        × (process_queue later later_chance later_fuel (record w₁ { events = e })
            ≡ (start_queue later later_chance
                  >> (process_events later later_chance w.events.available 0 (cleared ∷ rest)
                      >> finish_queue later later_chance))
                (record w₁ { events = e }))
  process_queue-resumes fuel later_fuel x rest w w₁ v h run f enough =
      let (e, ends, waits, same, valid) =
        process_queue-nested call chance fuel x rest w w₁ v h run f in
      (
        e,
        ends,
        waits,
        process_queue-all later later_chance leaves later_fuel (cleared ∷ rest)
              (record w₁ { events = e }) valid waits enough
            ∙ ap
                (λ (s : Side).
                  (start_queue later later_chance
                      >> (process_events later later_chance s 0 (cleared ∷ rest)
                          >> finish_queue later later_chance))
                    (record w₁ { events = e }))
                same,
      )
