-- ===== src/Capture/Nested.antt =====
-- process_queue when the callback of an event starts it again, as stop and each_object do.
pub mod Endless
pub mod Resumed
use memory_tracker.Base.{
  ℕ, zero, suc, ◌≡◌, refl, ap, sym, subst, ◌∙◌, length-set, Option, some, List, [], ◌∷◌, map, arith,
  take, set,
}
use memory_tracker.Value.{Value, Ruby}
use memory_tracker.Queue
use memory_tracker.Queue.{Queue}
use memory_tracker.Queue.Contents.{contents, IsValid}
use memory_tracker.Queue.Pending.{contents-Pending}
use memory_tracker.Events.{Event, Events, EventType, Side, first, second, queue_of, put_queue, swap}
use memory_tracker.Events.Laws.{other}
use memory_tracker.World.{World, Step, ok, M, bind}
use memory_tracker.Capture.Process.{Chance, process_event}
use memory_tracker.Capture.Dispatch.{
  protect, cleared, clear_event, run_event, process_loop, start_queue, finish_queue, process_queue,
}
use memory_tracker.Capture.Rounds.{process_loop-done, processing-put, queue_of-put, queue_of-swap}
use memory_tracker.Capture.Order.{process_loop-turn}

-- What a run of process_queue within a callback leaves: the queue that the outer run works on is the
-- available one again, with its events, and the other queue is empty.
pub record IsFlushed (side : Side) (q : Queue Event) (e : Events) : Type 0 where
  pub available : e.available ≡ side
  pub processing : e.processing ≡ other side
  pub same : queue_of side e ≡ q
  pub empty : (queue_of (other side) e).count ≡ 0

other-put :
    (s : Side) (q : Queue Event) (e : Events)
    → queue_of (other s) (put_queue s q e) ≡ queue_of (other s) e
other-put first q e = refl
other-put second q e = refl

put-other :
    (s : Side) (q : Queue Event) (e : Events) → queue_of s (put_queue (other s) q e) ≡ queue_of s e
put-other first q e = refl
put-other second q e = refl

available-put :
    (s : Side) (q : Queue Event) (e : Events) → (put_queue s q e).available ≡ e.available
available-put first q e = refl
available-put second q e = refl

-- The first element is overwritten.
take-set_first :
    (n : ℕ) (cells rest : List (Option Event)) (x y : Option Event)
    → take n cells ≡ x ∷ rest
    → take n (set cells 0 y) ≡ y ∷ rest
take-set_first zero cells rest x y h = cc
take-set_first (suc n) [] rest x y h = cc
take-set_first (suc n) (c ∷ cells) rest x y h = cc

module _ ⦃ruby : Ruby⦄ where
  contents-write_first :
      (q : Queue Event) (x y : Event) (rest : List Event)
      → contents q ≡ map some (x ∷ rest)
      → contents (Queue.write q 0 y) ≡ map some (y ∷ rest)
  unfolding contents Queue.write
  contents-write_first q x y rest h = take-set_first q.count q.base _ _ _ h

  write-IsValid : (q : Queue Event) (y : Event) → IsValid q → IsValid (Queue.write q 0 y)
  unfolding Queue.write
  write-IsValid q y v = record {
    width = length-set q.base 0 (some y) ∙ v.width;
    within = v.within;
    bytes = v.bytes;
    sized = v.sized;
    size_fits = v.size_fits;
  }

  module _ (call : Value → Value → EventType → Value → M Value) (chance : ℕ → Chance) where
    -- Clearing the event and ending the outer run, after a callback that has flushed.
    finish_queue-IsFlushed :
        (fuel : ℕ) (side : Side) (q : Queue Event) (w : World)
        → IsFlushed side q w.events
        → (e : Events) × (bind
              (bind (clear_event side 0 w) (λ _. process_loop call chance (suc fuel) 1))
              (λ _. finish_queue call chance)
            ≡ ok tt (record w { events = e }))
          × IsFlushed side (Queue.write q 0 cleared) e
    unfolding clear_event finish_queue Queue.clear
    finish_queue-IsFlushed fuel side q w f =
        let q₁ = Queue.write (queue_of side w.events) 0 cleared in
        let e₁ = put_queue side q₁ w.events in
        let w₁ : World = record w { events = e₁ } in
        let turned : e₁.processing ≡ other side = processing-put side q₁ w.events ∙ f.processing in
        let rest = ap (λ (s : Side). queue_of s e₁) turned ∙ other-put side q₁ w.events in
        let none_left : (queue_of e₁.processing e₁).count ≡ 0 =
          ap (λ (q : Queue Event). q.count) rest ∙ f.empty in
        let q₂ = Queue.clear (queue_of e₁.processing e₁) in
        (
          put_queue e₁.processing q₂ e₁,
          rw (process_loop-done call chance fuel 1 w₁ (omega (arith, none_left))) refl,
          record {
            available =
                available-put e₁.processing q₂ e₁ ∙ available-put side q₁ w.events ∙ f.available;
            processing = processing-put e₁.processing q₂ e₁ ∙ turned;
            same =
                ap (λ (s : Side). queue_of side (put_queue s q₂ e₁)) turned
                ∙ put-other side q₂ e₁
                ∙ queue_of-put side q₁ w.events
                ∙ ap (λ (q : Queue Event). Queue.write q 0 cleared) f.same;
            empty =
                ap (λ (s : Side). (queue_of (other side) (put_queue s q₂ e₁)).count) turned
                ∙ ap (λ (q : Queue Event). q.count) (queue_of-put (other side) q₂ e₁);
          },
        )

    -- A run with a run in the processing of its first event.
    pub process_queue-nested :
        (fuel : ℕ) (x : Event) (rest : List Event) (w w₁ : World)
        → IsValid (queue_of w.events.available w.events)
        → contents (queue_of w.events.available w.events) ≡ map some (x ∷ rest)
        → protect (process_event call (chance 0) x.type x) (record w { events = swap w.events })
          ≡ ok tt w₁
        → IsFlushed w.events.available (queue_of w.events.available w.events) w₁.events
        → (e : Events) × (process_queue call chance (suc (suc fuel)) w
            ≡ ok tt (record w₁ { events = e }))
          × (contents (queue_of e.available e) ≡ map some (cleared ∷ rest))
          × (e.available ≡ w.events.available)
          × IsValid (queue_of e.available e)
    unfolding process_queue start_queue swap run_event
    process_queue-nested fuel x rest w w₁ v h run f =
        let side = w.events.available in
        let q = queue_of side w.events in
        let w₀ : World = record w { events = swap w.events } in
        let (first_waits, cell, _) = contents-Pending v (x ∷ rest) h in
        let (e, ends, g) = finish_queue-IsFlushed fuel side q w₁ f in
        (
          e,
          ap (λ (s : Step (Unit {0})). bind s (λ _. finish_queue call chance))
                (process_loop-turn call chance (suc fuel) 0 side q x w₀
                  (refl, queue_of-swap side w.events) first_waits cell)
              ∙ rw run ends,
          ap contents (ap (λ (s : Side). queue_of s e) g.available ∙ g.same)
              ∙ contents-write_first q x cleared rest h,
          g.available,
          subst IsValid (sym (ap (λ (s : Side). queue_of s e) g.available ∙ g.same))
              (write-IsValid q cleared v),
        )

    -- A run within a callback that has queued nothing.
    pub process_queue-IsFlushed :
        (fuel : ℕ) (side : Side) (q : Queue Event) (w : World)
        → w.events.processing ≡ side
        → w.events.available ≡ other side
        → queue_of side w.events ≡ q
        → (queue_of (other side) w.events).count ≡ 0
        → (e : Events) × (process_queue call chance (suc fuel) w ≡ ok tt (record w { events = e }))
          × IsFlushed side q e
    unfolding process_queue start_queue swap finish_queue Queue.clear
    process_queue-IsFlushed fuel side q w here there same none_waits =
        let w₀ : World = record w { events = swap w.events } in
        let empty : (queue_of w₀.events.processing w₀.events).count ≡ 0 =
          ap (λ (q : Queue Event). q.count) (queue_of-swap w.events.available w.events)
          ∙ ap (λ (s : Side). (queue_of s w.events).count) there
          ∙ none_waits in
        let q₂ = Queue.clear (queue_of w₀.events.processing w₀.events) in
        (
          put_queue w₀.events.processing q₂ w₀.events,
          rw (process_loop-done call chance fuel 0 w₀ (omega (arith, empty))) refl,
          record {
            available = available-put w₀.events.processing q₂ w₀.events ∙ here;
            processing = processing-put w₀.events.processing q₂ w₀.events ∙ there;
            same =
                ap (λ (s : Side). queue_of side (put_queue s q₂ w₀.events)) there
                ∙ put-other side q₂ w₀.events
                ∙ queue_of-swap side w.events
                ∙ same;
            empty =
                ap (λ (s : Side). (queue_of (other side) (put_queue s q₂ w₀.events)).count) there
                ∙ ap (λ (q : Queue Event). q.count) (queue_of-put (other side) q₂ w₀.events);
          },
        )

    -- A second run within the callback of the first event begins with that same event.
    pub process_queue-again :
        (fuel : ℕ) (side : Side) (q : Queue Event) (x : Event) (rest : List Event) (w : World)
        → IsFlushed side q w.events
        → IsValid q
        → contents q ≡ map some (x ∷ rest)
        → process_queue call chance (suc fuel) w
          ≡ bind
              (bind
                (run_event call chance 0 side x (record w { events = swap w.events }))
                (λ _. process_loop call chance fuel 1))
              (λ _. finish_queue call chance)
    unfolding process_queue start_queue swap
    process_queue-again fuel side q x rest w f v h =
        let w₀ : World = record w { events = swap w.events } in
        let (first_waits, cell, _) = contents-Pending v (x ∷ rest) h in
        ap (λ (s : Step (Unit {0})). bind s (λ _. finish_queue call chance))
          (process_loop-turn call chance fuel 0 side q x w₀
            (f.available, queue_of-swap side w.events ∙ f.same) first_waits cell)
