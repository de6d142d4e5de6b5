-- ===== src/Capture/Rounds.antt =====
-- process_queue: its rounds, and what they leave.
use memory_tracker.Base.{
  ℕ, zero, suc, ◌+◌, ◌≤◌, ◌<◌, ◌≡◌, refl, sym, subst, ap, ◌∙◌, ◌⊎◌, inl, inr, Option, none, some,
  arith, dec_lt, lt→ltb, ge→ltb,
}
use memory_tracker.Value.{Value, Ruby}
use memory_tracker.Queue
use memory_tracker.Queue.{Queue}
use memory_tracker.Events.{Event, Events, EventType, Side, first, second, queue_of, put_queue, swap}
use memory_tracker.World.{World, Step, ok, raised, crashed, out_of_fuel, M, bind}
use memory_tracker.Capture.Process.{Chance, process_event}
use memory_tracker.Capture.Dispatch.{
  protect, cleared, clear_event, run_event, run_cell, process_loop, start_queue, finish_queue,
  process_queue,
}
use memory_tracker.Capture.Finishes.{Finishes, suppressed-Finishes, bind-Finishes, Finishes-cases}
use memory_tracker.Capture.Frame.{Frame, Keeps}
use memory_tracker.Capture.Frame.Events.{Keeps-process_event}
use memory_tracker.Capture.Keeping.{in_process, Same, KeepsQueue, KeepsQueue-Keeps}

pub processing-put :
    (s : Side) (q : Queue Event) (e : Events) → (put_queue s q e).processing ≡ e.processing
processing-put first q e = refl
processing-put second q e = refl

count-put :
    (s p : Side) (q : Queue Event) (e : Events)
    → q.count ≡ (queue_of s e).count
    → (queue_of p (put_queue s q e)).count ≡ (queue_of p e).count
count-put first first q e h = h
count-put first second q e h = refl
count-put second first q e h = refl
count-put second second q e h = h

pub queue_of-put : (s : Side) (q : Queue Event) (e : Events) → queue_of s (put_queue s q e) ≡ q
queue_of-put first q e = refl
queue_of-put second q e = refl

pub queue_of-swap : (s : Side) (e : Events) → queue_of s (swap e) ≡ queue_of s e
unfolding swap
queue_of-swap first e = refl
queue_of-swap second e = refl

module _ ⦃ruby : Ruby⦄ where
  module _ (call : Value → Value → EventType → Value → M Value) (chance : ℕ → Chance)
      (fuel index : ℕ) (w : World) where
    -- One round of the loop, and its end.
    pub process_loop-more :
        index < in_process w.events
        → process_loop call chance (suc fuel) index w
          ≡ bind
              (run_cell call chance index w.events.processing
                (Queue.at (queue_of w.events.processing w.events) index)
                w)
              (λ _. process_loop call chance fuel (index + 1))
    unfolding process_loop
    process_loop-more more = rw (lt→ltb index (in_process w.events) more, process_loop) refl

    pub process_loop-done :
        in_process w.events ≤ index → process_loop call chance (suc fuel) index w ≡ ok tt w
    unfolding process_loop
    process_loop-done done = rw (ge→ltb index (in_process w.events) done, process_loop) refl

  -- A property that the events do not matter to, and that the rest of the processing keeps.
  module _ (P : World → Type 0) (frame : Frame P)
      (blind : (w : World) (e : Events) → P w → P (record w { events = e }))
      (call : Value → Value → EventType → Value → M Value) (chance : ℕ → Chance)
      (keeps : (e : Events) (callback klass : Value) (type : EventType) (datum : Value)
        → Keeps (λ w. P w × Same e w.events) (call callback klass type datum)) where
    -- A step that ends without an exception, and keeps the property and the queue.
    abbrev Settles : Events → Step (Unit {0}) → Type 0
    Settles e s = Finishes (λ w. P w × Same e w.events) s

    joined-Settles : (e e' : Events) (s : Step (Unit {0})) → Same e e' → Settles e' s → Settles e s
    joined-Settles e e' (ok a v) (p, q) (h, (r, t)) = (h, (r ∙ p, t ∙ q))
    joined-Settles e e' (raised v) h k = k
    joined-Settles e e' crashed h k = tt
    joined-Settles e e' out_of_fuel h k = k

    bind-Settles :
        (e : Events) (s : Step (Unit {0})) (f : Unit {0} → M (Unit {0}))
        → Settles e s
        → ((w : World) → P w → Same e w.events → Settles w.events (f tt w))
        → Settles e (bind s f)
    bind-Settles e s f h k =
        bind-Finishes (λ w. P w × Same e w.events) (λ w. P w × Same e w.events) s f h
          (λ w (p, r). joined-Settles e w.events (f tt w) r (k w p r))

    clear_event-Settles :
        (side : Side) (index : ℕ) (w : World) → P w → Settles w.events (clear_event side index w)
    unfolding clear_event Queue.write
    clear_event-Settles side index w p =
        let q = Queue.write (queue_of side w.events) index cleared in
        (
          blind w _ p,
          (
            processing-put side q w.events,
            ap (λ (s : Side). (queue_of s (put_queue side q w.events)).count)
                  (processing-put side q w.events)
                ∙ count-put side w.events.processing q w.events refl,
          ),
        )

    Joint-Frame : (e : Events) → Frame (λ w. P w × Same e w.events)
    Joint-Frame e = record {
      capture = λ w self c c' h r (p, q). (frame.capture w self c c' h r p, q);
      counters = λ w a r (p, q). (frame.counters w a r p, q);
    }

    run_cell-Settles :
        (index : ℕ) (side : Side) (cell : Option (Option Event)) (w : World)
        → P w
        → Settles w.events (run_cell call chance index side cell w)
    unfolding run_cell run_event
    run_cell-Settles index side none w p = tt
    run_cell-Settles index side (some none) w p = tt
    run_cell-Settles index side (some (some e)) w p =
        bind-Settles w.events (protect (process_event call (chance index) e.type e) w)
          (λ _. clear_event side index)
          (suppressed-Finishes (λ v. P v × Same w.events v.events)
            (process_event call (chance index) e.type e w)
            ((Keeps-process_event (Joint-Frame w.events) call (keeps w.events) (chance index) e.type
                e).at
              w (p, (refl, refl))))
          (λ v q _. clear_event-Settles side index v q)

    process_loop-Settles :
        (fuel index : ℕ) (w : World)
        → P w
        → index ≤ in_process w.events
        → in_process w.events < index + fuel
        → Settles w.events (process_loop call chance fuel index w)
    unfolding process_loop
    process_loop-Settles zero index w p l f = absurd (omega arith)
    process_loop-Settles (suc fuel) index w p l f =
        let side = w.events.processing in
        let n : ℕ = in_process w.events in
        elim (dec_lt index n) [
          | yes more ↦
              let cell =
                run_cell call chance index side (Queue.at (queue_of side w.events) index) in
              let rest = process_loop call chance fuel (index + 1) in
              subst (Settles w.events) (sym (process_loop-more call chance fuel index w more)) (
                bind-Settles w.events (cell w) (λ _. rest) (run_cell-Settles index side _ w p)
                  (λ v q (_, same).
                    process_loop-Settles fuel (index + 1) v q (omega (arith, same))
                      (omega (arith, same))))
          | no done ↦
              subst (Settles w.events)
                (sym (process_loop-done call chance fuel index w (omega arith))) (p, (refl, refl))
        ]

    -- The queue that process_queue starts on is the one that was available.
    start-Same :
        (w : World) → in_process (swap w.events) ≡ (queue_of w.events.available w.events).count
    unfolding swap
    start-Same w = ap (λ (q : Queue Event). q.count) (queue_of-swap w.events.available w.events)

    finish_queue-count :
        (w : World)
        → (e : Events) × (finish_queue call chance w ≡ ok tt (record w { events = e }))
          × (e.processing ≡ w.events.processing)
          × (in_process e ≡ 0)
    unfolding finish_queue Queue.clear
    finish_queue-count w =
        let side = w.events.processing in
        let q = Queue.clear (queue_of side w.events) in
        (
          put_queue side q w.events,
          refl,
          processing-put side q w.events,
          ap (λ (s : Side). (queue_of s (put_queue side q w.events)).count)
                (processing-put side q w.events)
              ∙ ap (λ (q : Queue Event). q.count) (queue_of-put side q w.events),
        )

    -- The property holds when process_queue has ended, and the queue is empty.
    pub process_queue-persists :
        (fuel : ℕ) (w : World)
        → P w
        → (queue_of w.events.available w.events).count < fuel
        → (process_queue call chance fuel w ≡ crashed)
          ⊎ ((w' : World) × (process_queue call chance fuel w ≡ ok tt w')
              × P w'
              × (w'.events.processing ≡ w.events.available)
              × (in_process w'.events ≡ 0))
    unfolding process_queue start_queue swap
    process_queue-persists fuel w p enough =
        let w₁ : World = record w { events = swap w.events } in
        let loop =
          process_loop-Settles fuel 0 w₁ (blind w _ p) (omega arith)
            (omega (arith, start-Same w)) in
        elim (Finishes-cases (λ v. P v × Same w₁.events v.events)
          (process_loop call chance fuel 0 w₁) loop) [
            | inl failed ↦ inl (rw failed refl)
            | inr (w₂, run, (q, (same, _))) ↦
                let (e₃, done, side, count) = finish_queue-count w₂ in
                inr (
                  record w₂ { events = e₃ },
                  rw (run, done) refl,
                  blind w₂ e₃ q,
                  side ∙ same,
                  count,
                )
          ]

  module _ (call : Value → Value → EventType → Value → M Value) (chance : ℕ → Chance)
      (keeps : (callback klass : Value) (type : EventType) (datum : Value)
        → KeepsQueue (call callback klass type datum)) where
    -- With callbacks that leave alone which queue is processed and how many events it has, and
    -- that do not run out of fuel, and with fuel for more rounds than events wait: process_queue
    -- ends, and no exception leaves it. It crashes, or the queue that was available is now the one
    -- for processing, and it is empty.
    pub process_queue-ends :
        (fuel : ℕ) (w : World)
        → (queue_of w.events.available w.events).count < fuel
        → (process_queue call chance fuel w ≡ crashed)
          ⊎ ((w' : World) × (process_queue call chance fuel w ≡ ok tt w')
              × (w'.events.processing ≡ w.events.available)
              × (in_process w'.events ≡ 0))
    process_queue-ends fuel w enough =
        elim (process_queue-persists (λ _. Unit {0})
          (record { capture = λ _ _ _ _ _ _ _. tt; counters = λ _ _ _ _. tt }) (λ _ _ _. tt) call
          chance (KeepsQueue-Keeps call keeps) fuel w tt enough) [
            | inl failed ↦ inl failed
            | inr (w', run, _, side, count) ↦ inr (w', run, side, count)
          ]
