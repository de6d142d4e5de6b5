-- ===== src/Capture/Delivery.antt =====
-- An allocation from the hook, through the queue, into the object table.
use memory_tracker.Base.{
  ℕ, ◌*◌, ◌≤◌, ◌<◌, ◌≡◌, refl, ap, ◌∙◌, ◌⊎◌, true, false, some, arith, [], ◌∷◌, ◌++◌, map, inc,
}
use memory_tracker.Value.{Value, Ruby}
use memory_tracker.Assoc.{Assoc, lookup}
use memory_tracker.Allocations.{Allocations}
use memory_tracker.Queue.{Queue}
use memory_tracker.Queue.Contents
use memory_tracker.Queue.Contents.{contents}
use memory_tracker.Events.{Event, EventType, Side, newobj, swap, queue_of, event_size}
use memory_tracker.Table.{Table, overloaded, max_probe_length}
use memory_tracker.Table.Slots.{view}
use memory_tracker.Table.Invariant.{IsKey}
use memory_tracker.Table.Valid.{IsValid}
use memory_tracker.Table.Store.{store, store-Stores}
use memory_tracker.World.{Capture, World, Step, ok, M, ◌>>◌, bind, pure}
use memory_tracker.Capture.Process.{Chance, process_event}
use memory_tracker.Capture.Steps.{Counters}
use memory_tracker.Capture.Newobj.{IsQuiet, process_newobj-ok}
use memory_tracker.Capture.Hook.{Trace, newobj_flag, t_class, trackable_p, event_callback}
use memory_tracker.Capture.Filter.{event_callback-queues, allocation}
use memory_tracker.Capture.Dispatch.{
  process_queue, run_event, clear_event, suppressed, start_queue, finish_queue,
}
use memory_tracker.Capture.Order.{LeavesQueue, process_events, process_queue-all}

contents-empty {ℓ} : {A : Type ℓ} (q : Queue A) → q.count ≡ 0 → contents q ≡ []
unfolding contents
contents-empty q e = rw e refl

module _ ⦃ruby : Ruby⦄ (call : Value → Value → EventType → Value → M Value) (wrapper self a : Value)
    (trace : Trace) (c : Capture) (r : Allocations) (w : World) (t : Table)
    (here : lookup self w.captures ≡ some c) where
  abbrev granted : ℕ → Chance
  granted i = record { fits = true; wrapper = wrapper }

  -- The only event that waits is processed.
  process_events-one :
      (side : Side) (ev : Event) (v v' : World)
      → process_event call (granted 0) ev.type ev v ≡ ok tt v'
      → (w' : World) × ((process_events call granted side 0 (ev ∷ []) >> finish_queue call granted)
            v
          ≡ ok tt w')
        × (w'.captures ≡ v'.captures)
        × (w'.records ≡ v'.records)
  unfolding run_event clear_event finish_queue
  process_events-one side ev v v' run = (
    _,
    ap
        (λ (s : Step (Unit {0})).
          bind (bind (bind (suppressed s) (λ _. clear_event side 0)) (λ _. pure tt))
            (λ _. finish_queue call granted))
        run,
    refl,
    refl,
  )

  -- The hook for the allocation of a trackable object of a class, and process_queue after it, in a
  -- capture that is not paused, whose class is new or has its counters, with a valid table that
  -- need not grow or that may grow within MAX_PROBE_LENGTH slots, a valid available queue that is
  -- empty, every allocation granted, fuel for more than one event, and callbacks that return and
  -- leave the captures, the counters and the queue that is processed alone: both succeed, the total
  -- and the class's new count go up by one, the class is tracked, nothing else of the capture but
  -- its tracked classes changes, and its table is valid and holds the object with its class.
  pub event_callback-process_queue :
      (fuel : ℕ)
      → Counters self c w here wrapper trace.klass a r
      → IsQuiet call
      → LeavesQueue call
      → c.paused ≡ 0
      → c.states ≡ some t
      → IsValid t
      → (overloaded t ≡ false) ⊎ (t.capacity * 2 ≤ max_probe_length)
      → trackable_p trace.object_type ≡ true
      → trace.flag ≡ newobj_flag
      → trace.klass_type ≡ t_class
      → IsKey trace.object
      → Contents.IsValid (queue_of w.events.available w.events)
      → (queue_of w.events.available w.events).element_size ≡ event_size
      → (queue_of w.events.available w.events).count ≡ 0
      → 1 < fuel
      → (w' : World) × (t' : Table) × (tracked : Assoc Value) × (datum : Value) × ((event_callback
                true self trace
              >> process_queue call granted fuel)
            w
          ≡ ok tt w')
        × (lookup self w'.captures
            ≡ some (record c { new_count = inc c.new_count; tracked = tracked; states = some t' }))
        × (lookup trace.klass tracked ≡ some a)
        × (lookup a w'.records ≡ some (record r { new_count = inc r.new_count }))
        × IsValid t'
        × (view t'.entries trace.object ≡ some (trace.klass, datum))
  unfolding process_event start_queue
  event_callback-process_queue fuel counters quiet leaves running st v room trackable flag cls key
        valid size idle enough =
      let ev : Event = record {
        type = newobj;
        capture = self;
        klass = trace.klass;
        object = trace.object;
      } in
      let (e, hook, q) =
        event_callback-queues self trace c w here ev trackable (allocation flag running cls) valid
          size (rw idle (omega arith)) in
      let w₁ : World = record w { events = e } in
      let (datum, w₂, tracked, run, there, known, counted, _) =
        process_newobj-ok call (granted 0) self trace.klass trace.object a c r
          (record w { events = swap e }) here counters quiet (rw running (omega arith)) t st in
      let s = store-Stores t trace.object trace.klass datum v key room in
      let waiting : contents (queue_of e.available e) ≡ map some (ev ∷ []) =
        q.appended ∙ ap (λ (xs : _). xs ++ some ev ∷ []) (contents-empty _ idle) in
      let (w₃, ends, same_captures, same_records) =
        process_events-one e.available ev (record w { events = swap e }) w₂ run in
      (
        w₃,
        store true t trace.object trace.klass datum,
        tracked,
        datum,
        rw hook
            (process_queue-all call granted leaves fuel (ev ∷ []) w₁ q.valid waiting enough ∙ ends),
        rw same_captures there,
        known,
        rw same_records counted,
        s.valid,
        ground (arith, s.reads trace.object key),
      )
