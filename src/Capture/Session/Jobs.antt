-- ===== src/Capture/Session/Jobs.antt =====
-- The postponed job, and a run of the queue by a method, keep a session ready.
use memory_tracker.Base.{ℕ, ◌<◌, ◌≡◌, sym, subst, ap, ◌∙◌, arith, [], length}
use memory_tracker.Value.{Value, Ruby}
use memory_tracker.Queue
use memory_tracker.Queue.{Queue}
use memory_tracker.Events.{Event, EventType, Side, queue_of, put_queue, swap}
use memory_tracker.World.{World, Step, ok, M, bind}
use memory_tracker.Capture.Dispatch.{process_queue, start_queue, finish_queue}
use memory_tracker.Capture.Frame.{Keeps}
use memory_tracker.Capture.Finishes.{Finishes}
use memory_tracker.Capture.Order.{process_queue-all}
use memory_tracker.Capture.Balance.Runs.{Balanced, granted, process_events-Balanced}
use memory_tracker.Capture.Shutdown.{
  IsHarmless, IsHarmless-IsCalm, IsHarmless-LeavesQueue, Agree-Ensures,
}
use memory_tracker.Capture.Session.Tidy.{Busy, swap-Busy, finish-Tidy, process_events-Busy}
use memory_tracker.Capture.Session.Ready.{Ready, waiting_count}

module _ ⦃ruby : Ruby⦄ where
  module _ (call : Value → Value → EventType → Value → M Value) (harmless : IsHarmless call)
      (wrappers : ℕ → Value) where
    IsHarmless-Busy :
        (side : Side) (idle : Queue Event) (callback klass : Value) (type : EventType)
        (datum : Value)
        → Keeps (λ w. Busy side idle w.events) (call callback klass type datum)
    IsHarmless-Busy side idle callback klass type datum = record {
      at = λ w b.
          Agree-Ensures (λ v. Busy side idle v.events) w (call callback klass type datum w)
            (λ v (_, e, _). subst (Busy side idle) (sym e) b)
            (harmless callback klass type datum w).0;
    }

    pub Ready-process_queue :
        (n fuel : ℕ) (w : World)
        → Ready n w
        → (queue_of w.events.available w.events).count < fuel
        → (w' : World) × (process_queue call (granted wrappers) fuel w ≡ ok tt w') × Ready n w'
    unfolding start_queue finish_queue
    Ready-process_queue n fuel w r enough =
        let side = w.events.available in
        let idle = queue_of w.events.processing w.events in
        let (p, (v, s), waiting, si, z) = r.tidy in
        let w₁ : World = record w { events = swap w.events } in
        let few : length r.es < fuel = omega (arith, enough, waiting_count r.es w.events r.tidy) in
        let (w₂, run, balanced) =
          process_events-Balanced call wrappers (IsHarmless-IsCalm call harmless) n r.es side 0 w₁
            r.about r.balanced in
        let busy : Busy side idle w₂.events = subst (Finishes (λ v. Busy side idle v.events)) run (
          process_events-Busy call (granted wrappers) side idle (IsHarmless-Busy side idle) r.es 0
            w₁ (swap-Busy r.es w.events r.tidy)) in
        (
          record w₂ {
            events =
                put_queue w₂.events.processing
                  (Queue.clear (queue_of w₂.events.processing w₂.events)) w₂.events;
          },
          process_queue-all call (granted wrappers) (IsHarmless-LeavesQueue call harmless) fuel r.es
                w v waiting few
              ∙ ap (λ (s : Step (Unit {0})). bind s (λ _. finish_queue call (granted wrappers)))
                  run,
          record {
            es = [];
            about = tt;
            tidy = finish-Tidy side idle w₂.events si z busy;
            small = omega (arith, r.small);
            balanced = subst (λ (k : ℕ). Balanced k w₂) (omega arith) balanced;
          },
        )
