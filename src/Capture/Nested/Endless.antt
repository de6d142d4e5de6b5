-- ===== src/Capture/Nested/Endless.antt =====
-- A callback that processes the queue twice, as it does by calls of stop or each_object.
use memory_tracker.Base.{
  ℕ, zero, suc, ◌≡◌, ◌≢◌, refl, ap, ◌∙◌, some, List, ◌∷◌, map, ne→==, inc, inc32, true,
}
use memory_tracker.Value.{Value, Ruby}
use memory_tracker.Assoc.{Assoc, lookup, lookup-insert_self}
use memory_tracker.Allocations.{Allocations}
use memory_tracker.Queue.{Queue}
use memory_tracker.Queue.Contents.{contents, IsValid}
use memory_tracker.Events.{Event, Events, EventType, newobj, Side, queue_of, swap}
use memory_tracker.Events.Laws.{other}
use memory_tracker.World.{Capture, World, out_of_fuel, M, bind, ◌>>◌, pure}
use memory_tracker.Capture.Process.{Chance, process_newobj, process_event, store_object, resume}
use memory_tracker.Capture.Dispatch.{process_queue, process_all, run_event}
use memory_tracker.Capture.Rounds.{queue_of-swap}
use memory_tracker.Capture.Steps.{
  with_capture, with_record, pause_lem, count_new_lem, count_class-known,
}
use memory_tracker.Capture.Nested.{IsFlushed, process_queue-IsFlushed, process_queue-again}

module _ ⦃ruby : Ruby⦄ where
  -- The callback, on the fuel of each run and on how deep callbacks may nest.
  unfoldable pub twice : (ℕ → Chance) → ℕ → ℕ → Value → Value → EventType → Value → M Value
  twice chance fuel zero callback klass type datum = λ w. out_of_fuel
  twice chance fuel (suc depth) callback klass type datum =
      process_all (twice chance fuel depth) chance true fuel
      >> (process_all (twice chance fuel depth) chance true fuel >> pure datum)

  -- A capture that tracks a class with a callback.
  pub record Calls (self klass : Value) (captures : Assoc Capture) (records : Assoc Allocations)
      : Type 0 where
    pub capture : Capture
    pub allocations : Value
    pub counters : Allocations
    pub here : lookup self captures ≡ some capture
    pub tracked : lookup klass capture.tracked ≡ some allocations
    pub known : lookup allocations records ≡ some counters
    pub set : counters.callback ≢ ruby.nil

  -- An allocation comes to the callback before anything has happened to the queues.
  process_newobj-Calls :
      (call : Value → Value → EventType → Value → M Value) (chance : Chance)
      (self klass object : Value) (w : World)
      → Calls self klass w.captures w.records
      → (w' : World) × (callback : Value) × (process_newobj call chance self klass object w
          ≡ bind
              (call callback klass newobj ruby.nil w')
              (λ datum. store_object chance.fits self klass object datum >> resume self))
        × Calls self klass w'.captures w'.records
        × (w'.events ≡ w.events)
  unfolding process_newobj
  process_newobj-Calls call chance self klass object w k =
      let c = k.capture in
      let r = k.counters in
      let c₁ : Capture = record c { paused = inc32 c.paused } in
      let w₁ = with_capture self c₁ w in
      let h₁ : lookup self w₁.captures ≡ some c₁ = lookup-insert_self self c₁ w.captures in
      let c₂ : Capture = record c₁ { new_count = inc c.new_count } in
      let w₂ = with_capture self c₂ w₁ in
      let h₂ : lookup self w₂.captures ≡ some c₂ = lookup-insert_self self c₂ w₁.captures in
      let r₃ : Allocations = record r { new_count = inc r.new_count } in
      let w₃ = with_record k.allocations r₃ w₂ in
      let h₃ : lookup k.allocations w₃.records ≡ some r₃ =
        lookup-insert_self k.allocations r₃ w₂.records in
      let counts =
        count_class-known self c₂ w₂ h₂ chance.wrapper klass k.allocations r k.tracked k.known in
      (
        w₃,
        r.callback,
        rw (pause_lem self c w k.here) (
            rw (count_new_lem self c₁ w₁ h₁)
              (rw counts (rw h₃ (rw (ne→== r.callback ruby.nil k.set) refl)))),
        record {
          capture = c₂;
          allocations = k.allocations;
          counters = r₃;
          here = h₂;
          tracked = k.tracked;
          known = h₃;
          set = k.set;
        },
        refl,
      )

  module _ (chance : ℕ → Chance) (fuel : ℕ) (side : Side) (q : Queue Event) (x : Event)
      (rest : List Event) (valid : IsValid q) (waits : contents q ≡ map some (x ∷ rest))
      (allocates : x.type ≡ newobj) where
    -- process_queue, where the first event of the valid available queue is an allocation of a class
    -- that its capture tracks with a callback, where the other queue is empty, and where callbacks
    -- always process the queue twice: with any fuel for each run of the queue and however deep
    -- callbacks may nest, it runs out of one of them.
    pub process_queue-twice :
        (depth : ℕ) (w : World)
        → IsFlushed side q w.events
        → Calls x.capture x.klass w.captures w.records
        → process_queue (twice chance (suc fuel) depth) chance (suc fuel) w ≡ out_of_fuel
    unfolding twice run_event process_event swap
    process_queue-twice zero w f k =
        let call = twice chance (suc fuel) zero in
        let w₀ : World = record w { events = swap w.events } in
        let (w₁, callback, run, k₁, same) =
          process_newobj-Calls call (chance 0) x.capture x.klass x.object w₀ k in
        process_queue-again call chance fuel side q x rest w f valid waits
        ∙ rw allocates (rw run refl)
    process_queue-twice (suc depth) w f k =
        let call = twice chance (suc fuel) (suc depth) in
        let inner = twice chance (suc fuel) depth in
        let w₀ : World = record w { events = swap w.events } in
        let (w₁, callback, run, k₁, same) =
          process_newobj-Calls call (chance 0) x.capture x.klass x.object w₀ k in
        let (e₂, first_run, f₂) =
          process_queue-IsFlushed inner chance fuel side q w₁
            (ap (λ (e : Events). e.processing) same ∙ f.available)
            (ap (λ (e : Events). e.available) same ∙ f.processing)
            (ap (queue_of side) same ∙ queue_of-swap side w.events ∙ f.same)
            (ap (λ (e : Events). (queue_of (other side) e).count) same
              ∙ ap (λ (q : Queue Event). q.count) (queue_of-swap (other side) w.events)
              ∙ f.empty) in
        let second_run = process_queue-twice depth (record w₁ { events = e₂ }) f₂ k₁ in
        process_queue-again call chance fuel side q x rest w f valid waits
        ∙ rw allocates (rw run (rw first_run (rw second_run refl)))
