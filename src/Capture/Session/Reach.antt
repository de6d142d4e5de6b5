-- ===== src/Capture/Session/Reach.antt =====
-- The worlds that a session reaches.
use memory_tracker.Base.{
  ℕ, suc, ◌+◌, ◌≤◌, ◌<◌, ◌≡◌, ◌∙◌, refl, sym, subst, arith, Bool, true, some, [],
}
use memory_tracker.Value.{Value, Ruby}
use memory_tracker.Assoc.{lookup}
use memory_tracker.Queue.Contents.{initialize-IsValid}
use memory_tracker.Queue
use memory_tracker.Events
use memory_tracker.Events.{EventType, queue_of, event_size}
use memory_tracker.Table.Invariant.{IsKey}
use memory_tracker.World.{Capture, World, ok, raised, M}
use memory_tracker.Capture.Hook.{Trace, event_callback}
use memory_tracker.Capture.Dispatch.{process_queue}
use memory_tracker.Capture.Control.{stop}
use memory_tracker.Capture.Query.{retained_count, object_table_size}
use memory_tracker.Capture.Frame.{Ensures}
use memory_tracker.Capture.Balance.Runs.{granted}
use memory_tracker.Capture.Balance.Bounds.{size-retained_count}
use memory_tracker.Capture.Shutdown.{IsHarmless}
use memory_tracker.Capture.Session.Tidy.{Tidy}
use memory_tracker.Capture.Session.Ready.{Ready}
use memory_tracker.Capture.Session.Reports.{Ready-event_callback}
use memory_tracker.Capture.Session.Jobs.{Ready-process_queue}
use memory_tracker.Capture.Gc.{compact_capture}
use memory_tracker.Capture.Session.MovedEvents.{IsMove}
use memory_tracker.Capture.Session.Compaction.{
  move_world, compact_capture-Account, Ready-move_world,
}
use memory_tracker.Capture.Session.Methods.{Method, perform, perform-Ready, stop-Ready}

-- No captures, and the events as Memory_Profiler_Events_new makes them.
abbrev pub initial : World
initial = record { captures = []; records = []; events = Events.new; hooks = [] }

module _ ⦃ruby : Ruby⦄ where
  -- A world reached with this number of reported events, with every allocation granted. Ruby
  -- reports events for any capture, runs the job and calls the methods in any order.
  pub data Session (call : Value → Value → EventType → Value → M Value) : ℕ → World → Type 0 where
    begins : Session call 0 initial
    reports :
        {n : ℕ} {w w' : World} (self : Value) (trace : Trace)
        → Session call n w
        → IsKey trace.object
        → event_callback true self trace w ≡ ok tt w'
        → Session call (suc n) w'
    processes :
        {n : ℕ} {w w' : World} (wrappers : ℕ → Value) (fuel : ℕ)
        → Session call n w
        → (queue_of w.events.available w.events).count < fuel
        → process_queue call (granted wrappers) fuel w ≡ ok tt w'
        → Session call n w'
    stops :
        {n : ℕ} {w w' : World} {ran : Bool} (wrappers : ℕ → Value) (fuel : ℕ) (self : Value)
        → Session call n w
        → (queue_of w.events.available w.events).count < fuel
        → stop call (granted wrappers) true fuel self w ≡ ok ran w'
        → Session call n w'
    performs :
        {n : ℕ} {w w' : World} (m : Method)
        → Session call n w
        → perform m w ≡ ok tt w'
        → Session call n w'
    rejects :
        {n : ℕ} {w w' : World} (m : Method)
        → Session call n w
        → perform m w ≡ raised w'
        → Session call n w'
    moves :
        {n : ℕ} {w w' : World} (location : Value → Value)
        → Session call n w
        → IsMove location
        → move_world location w ≡ some w'
        → Session call n w'

  new-Tidy : Tidy [] Events.new
  unfolding Events.new Queue.initialize
  new-Tidy =
      let (v, e) = initialize-IsValid event_size (omega arith) (omega arith) in
      (refl, (v, refl), e, (v, refl), refl)

  initial-Ready : (n : ℕ) → n ≤ 4096 → Ready n initial
  unfolding lookup
  initial-Ready n l = record {
    es = [];
    about = tt;
    tidy = new-Tidy;
    small = omega arith;
    balanced = λ x c e. cc;
  }

  module _ (call : Value → Value → EventType → Value → M Value) (harmless : IsHarmless call) where
    pub Session-Ready :
        {n : ℕ} {w : World} → Session call n w → (left : ℕ) → n + left ≤ 4096 → Ready left w
    Session-Ready begins left l = initial-Ready left (omega (arith, l))
    Session-Ready (reports {n} {w} self trace s key run) left l =
        subst (Ensures (Ready left)) run
          (Ready-event_callback left self trace w key (Session-Ready s (suc left) (omega arith)))
    Session-Ready (processes {n} {w} wrappers fuel s enough run) left l =
        let (v, ends, r) =
          Ready-process_queue call harmless wrappers left fuel w (Session-Ready s left l) enough in
        subst (Ensures (Ready left)) (sym ends ∙ run) r
    Session-Ready (stops {n} {w} wrappers fuel self s enough run) left l =
        subst (Ensures (Ready left)) run
          (stop-Ready left call wrappers fuel self w harmless enough (Session-Ready s left l))
    Session-Ready (performs {n} {w} m s run) left l =
        subst (Ensures (Ready left)) run (perform-Ready left m w (Session-Ready s left l))
    Session-Ready (rejects {n} {w} m s run) left l =
        subst (Ensures (Ready left)) run (perform-Ready left m w (Session-Ready s left l))
    Session-Ready (moves {n} {w} {w'} location s move run) left l =
        Ready-move_world location move left w w' run (Session-Ready s left l)

    -- In every world that a session reaches with at most 4096 reported events about objects, with
    -- every allocation granted and callbacks that return or raise and change at most counters: the
    -- table of a capture has no more objects than its retained_count, which with the frees counted
    -- makes up the allocations counted, and process_queue with fuel for more events than wait
    -- succeeds. A session starts without captures and with the events made; the hook,
    -- process_queue, stop, and Capture's allocate, start, track, untrack and clear, which may also
    -- raise, and heap compactions follow in any order; a compaction moves no two objects to one
    -- address and none to zero or Qnil. Also, the compaction of such a capture succeeds.
    pub Session-retained_count :
        {n : ℕ} {w : World} (self : Value) (c : Capture) (wrappers : ℕ → Value) (fuel : ℕ)
        (location : Value → Value)
        → Session call n w
        → n ≤ 4096
        → lookup self w.captures ≡ some c
        → (queue_of w.events.available w.events).count < fuel
        → IsMove location
        → (object_table_size c.states ≤ retained_count c)
          × (retained_count c + c.free_count ≡ c.new_count)
          × ((w' : World) × (process_queue call (granted wrappers) fuel w ≡ ok tt w'))
          × ((c' : Capture) × (compact_capture location true c ≡ some c'))
    Session-retained_count {n} {w} self c wrappers fuel location s l here enough move =
        let r = Session-Ready s 0 (omega (arith, l)) in
        let (fits, adds, _) = size-retained_count 0 0 _ c (r.balanced self c here) in
        let (w', run, _) = Ready-process_queue call harmless wrappers 0 fuel w r enough in
        let (c', compacted, _) =
          compact_capture-Account location move 0 0 _ c (r.balanced self c here) in
        (omega (arith, fits), adds, (w', run), (c', compacted))
