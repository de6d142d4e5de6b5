-- ===== src/Capture/Order.antt =====
-- process_queue against the list of the events that wait.
use memory_tracker.Base.{
  ℕ, zero, suc, ◌+◌, ◌<◌, ◌≡◌, refl, ap, ◌∙◌, Option, none, some, List, [], ◌∷◌, map, arith, get_or,
  lt→ltb, length,
}
use memory_tracker.Value.{Value, Ruby}
use memory_tracker.Queue
use memory_tracker.Queue.{Queue}
use memory_tracker.Queue.Contents.{contents, IsValid}
use memory_tracker.Queue.Pending.{Pending, Pending-write, contents-Pending}
use memory_tracker.Events.{Event, EventType, Side, queue_of, swap}
use memory_tracker.World.{World, Step, M, bind, ◌>>◌, pure}
use memory_tracker.Capture.Process.{Chance, process_event}
use memory_tracker.Capture.Dispatch.{
  protect, cleared, clear_event, run_event, run_cell, process_loop, start_queue, finish_queue,
  process_queue,
}
use memory_tracker.Capture.Frame.{Frame, Keeps}
use memory_tracker.Capture.Frame.Events.{Keeps-process_event}
use memory_tracker.Capture.Finishes.{Finishes, suppressed-Finishes, bind-Finishes, bind-agree}
use memory_tracker.Capture.Rounds.{
  process_loop-more, process_loop-done, processing-put, queue_of-put, queue_of-swap,
}

-- The queue that is processed, and what it holds.
abbrev pub Holds : Side → Queue Event → World → Type 0
Holds side q w = (w.events.processing ≡ side) × (queue_of side w.events ≡ q)

Holds-Frame : (side : Side) (q : Queue Event) → Frame (Holds side q)
Holds-Frame side q = record { capture = λ w self c c' h r p. p; counters = λ w a r p. p }

at_some :
    (q : Queue Event) (index : ℕ)
    → index < q.count
    → Queue.at q index ≡ some (get_or q.base index none)
unfolding Queue.at
at_some q index m = rw (lt→ltb index q.count m) refl

-- Ruby code that queues events at most where they are not processed.
abbrev pub LeavesQueue : (Value → Value → EventType → Value → M Value) → Type 0
LeavesQueue call =
    (side : Side) (q : Queue Event) (callback klass : Value) (type : EventType) (datum : Value)
    → Keeps (Holds side q) (call callback klass type datum)

module _ ⦃ruby : Ruby⦄ (call : Value → Value → EventType → Value → M Value)
    (chance : ℕ → Chance) where
  -- The specification: each event of a list in turn, the next one also after an exception.
  abbrev pub process_events : Side → ℕ → List Event → M (Unit {0})
  process_events side index [] = pure tt
  process_events side index (e ∷ es) =
      run_event call chance index side e >> process_events side (suc index) es

  held :
      (side : Side) (q : Queue Event) (w : World)
      → Holds side q w
      → queue_of w.events.processing w.events ≡ q
  held side q w (s, r) = ap (λ (s : Side). queue_of s w.events) s ∙ r

  -- A round of the loop at an event that waits.
  pub process_loop-turn :
      (fuel index : ℕ) (side : Side) (q : Queue Event) (e : Event) (w : World)
      → Holds side q w
      → index < q.count
      → get_or q.base index none ≡ some e
      → process_loop call chance (suc fuel) index w
        ≡ bind
            (run_event call chance index side e w)
            (λ _. process_loop call chance fuel (index + 1))
  unfolding run_cell
  process_loop-turn fuel index side q e w h m g =
      let here = held side q w h in
      let more : index < (queue_of w.events.processing w.events).count =
        rw (ap (λ (q : Queue Event). q.count) here) m in
      let cell : Queue.at (queue_of w.events.processing w.events) index ≡ some (some e) =
        ap (λ (q : Queue Event). Queue.at q index) here ∙ at_some q index m ∙ ap some g in
      process_loop-more call chance fuel index w more
      ∙ ap
          (λ (c : Option (Option Event)).
            bind (run_cell call chance index w.events.processing c w)
              (λ _. process_loop call chance fuel (index + 1)))
          cell
      ∙ ap
          (λ (s : Side).
            bind (run_event call chance index s e w)
              (λ _. process_loop call chance fuel (index + 1)))
          h.0

  module _ (leaves : LeavesQueue call) where
    run_event-Holds :
        (index : ℕ) (side : Side) (q : Queue Event) (e : Event) (w : World)
        → Holds side q w
        → Finishes (Holds side (Queue.write q index cleared)) (run_event call chance index side e w)
    unfolding run_event clear_event
    run_event-Holds index side q e w h =
        bind-Finishes (Holds side q) (Holds side (Queue.write q index cleared))
          (protect (process_event call (chance index) e.type e) w) (λ _. clear_event side index)
          (suppressed-Finishes (Holds side q) _ (
            (Keeps-process_event (Holds-Frame side q) call (leaves side q) (chance index) e.type
                e).at
              w h))
          (λ v (s, p). (
            processing-put side _ v.events ∙ s,
            queue_of-put side _ v.events ∙ ap (λ (q : Queue Event). Queue.write q index cleared) p,
          ))

    process_loop-all :
        (fuel index : ℕ) (side : Side) (q : Queue Event) (es : List Event) (w : World)
        → Holds side q w
        → Pending q index es
        → length es < fuel
        → process_loop call chance fuel index w ≡ process_events side index es w
    process_loop-all zero index side q es w h p l = absurd (omega arith)
    process_loop-all (suc fuel) index side q [] w (s, r) p l =
        let count : (queue_of w.events.processing w.events).count ≡ index =
          ap (λ (q : Queue Event). q.count) (held side q w (s, r)) ∙ p in
        process_loop-done call chance fuel index w (omega arith)
    process_loop-all (suc fuel) index side q (e ∷ es) w h (m, g, p) l =
        let q' = Queue.write q index cleared in
        process_loop-turn fuel index side q e w h m g
        ∙ bind-agree (Holds side q') (run_event call chance index side e w)
            (process_loop call chance fuel (index + 1)) (process_events side (suc index) es)
            (run_event-Holds index side q e w h)
            (λ v k.
              let next : index + 1 ≡ suc index = omega arith in
              ap (λ (i : ℕ). process_loop call chance fuel i v) next
              ∙ process_loop-all fuel (suc index) side q' es v k
                  (Pending-write q index (suc index) cleared es (omega arith) p) (omega arith))

    -- process_queue, with callbacks that leave alone the queue that is processed, on a valid
    -- available queue with fuel for more events than wait: it swaps the queues, runs each event
    -- that waited once and in order, the next one also after an exception, and clears the queue at
    -- the end.
    pub process_queue-all :
        (fuel : ℕ) (es : List Event) (w : World)
        → IsValid (queue_of w.events.available w.events)
        → contents (queue_of w.events.available w.events) ≡ map some es
        → length es < fuel
        → process_queue call chance fuel w
          ≡ (start_queue call chance
                >> (process_events w.events.available 0 es >> finish_queue call chance))
              w
    unfolding process_queue start_queue swap
    process_queue-all fuel es w v h l =
        let side = w.events.available in
        let q = queue_of side w.events in
        let w₁ : World = record w { events = swap w.events } in
        ap (λ (s : Step (Unit {0})). bind s (λ _. finish_queue call chance))
          (process_loop-all fuel 0 side q es w₁ (refl, queue_of-swap side w.events)
            (contents-Pending v es h) l)
