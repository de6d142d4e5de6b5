-- ===== src/Capture/Each/Collecting.antt =====
-- each_object and garbage collection.
use memory_tracker.Base.{
  ℕ, zero, suc, ◌+◌, ◌≡◌, refl, inl, inr, Bool, true, false, Option, none, some, ltb, Bool-cases,
  Option-cases, ◌==◌,
}
use memory_tracker.Value.{Value, Ruby}
use memory_tracker.Assoc.{lookup}
use memory_tracker.Queue
use memory_tracker.Events.{EventType, Event, Side, queue_of}
use memory_tracker.World.{Capture, World, Step, ok, raised, crashed, out_of_fuel, M, bind}
use memory_tracker.Capture.Process.{Chance, process_event}
use memory_tracker.Capture.Dispatch.{
  suppressed, clear_event, run_event, run_cell, process_loop, process_queue, start_queue,
  finish_queue, process_all,
}
use memory_tracker.Capture.Each.{
  Vm, Exit, returns, unwinds, crashes, spent, Code, after, exit_of, ensure_exit, each_object_ensure,
  each_object_body, each_known, each_selected, each_object_with,
}

-- Ruby collects garbage wherever the code ends.
abbrev pub IsCollecting {ℓ} : {A : Type ℓ} → Exit A → Type 0
IsCollecting (returns a v) = v.collects ≡ true
IsCollecting (unwinds v) = v.collects ≡ true
IsCollecting crashes = Unit {0}
IsCollecting spent = Unit {0}

-- No exception.
abbrev IsQuiet : Step (Unit {0}) → Type 0
IsQuiet (ok a w) = Unit {0}
IsQuiet (raised w) = ⊥
IsQuiet crashed = Unit {0}
IsQuiet out_of_fuel = Unit {0}

suppressed-IsQuiet : (s : Step (Unit {0})) → IsQuiet (suppressed s)
suppressed-IsQuiet (ok a w) = tt
suppressed-IsQuiet (raised w) = tt
suppressed-IsQuiet crashed = tt
suppressed-IsQuiet out_of_fuel = tt

bind-IsQuiet :
    (s : Step (Unit {0})) (f : Unit {0} → M (Unit {0}))
    → IsQuiet s
    → ((w : World) → IsQuiet (f tt w))
    → IsQuiet (bind s f)
bind-IsQuiet (ok tt w) f q k = k w
bind-IsQuiet (raised w) f q k = elim q [ ]
bind-IsQuiet crashed f q k = tt
bind-IsQuiet out_of_fuel f q k = tt

ensure_exit-IsCollecting {ℓ} :
    {A : Type ℓ} (x : Exit A) → IsCollecting (ensure_exit x each_object_ensure)
unfolding each_object_ensure
ensure_exit-IsCollecting (returns a v) = refl
ensure_exit-IsCollecting (unwinds v) = refl
ensure_exit-IsCollecting crashes = tt
ensure_exit-IsCollecting spent = tt

-- What follows a step that raises no exception.
after-IsCollecting :
    (b : Bool) (s : Step (Unit {0})) (f : Code Value)
    → IsQuiet s
    → ((v : Vm) → IsCollecting (f v))
    → IsCollecting (after (exit_of b s) (λ _. f))
after-IsCollecting b (ok tt w) f q k = k (record { world = w; collects = b })
after-IsCollecting b (raised w) f q k = elim q [ ]
after-IsCollecting b crashed f q k = tt
after-IsCollecting b out_of_fuel f q k = tt

module _ ⦃ruby : Ruby⦄ where
  module _ (call : Value → Value → EventType → Value → M Value) (chance : ℕ → Chance) where
    run_cell-IsQuiet :
        (index : ℕ) (side : Side) (cell : Option (Option Event)) (w : World)
        → IsQuiet (run_cell call chance index side cell w)
    unfolding run_cell run_event clear_event
    run_cell-IsQuiet index side none w = tt
    run_cell-IsQuiet index side (some none) w = tt
    run_cell-IsQuiet index side (some (some e)) w =
        bind-IsQuiet (suppressed (process_event call (chance index) e.type e w))
          (λ _. clear_event side index) (suppressed-IsQuiet _) (λ w'. tt)

    process_loop-IsQuiet :
        (fuel index : ℕ) (w : World) → IsQuiet (process_loop call chance fuel index w)
    unfolding process_loop
    process_loop-IsQuiet zero index w = tt
    process_loop-IsQuiet (suc fuel) index w =
        let side = w.events.processing in
        elim (Bool-cases (ltb index (queue_of side w.events).count)) [
          | inl y ↦
              rw (y, process_loop)
                (bind-IsQuiet
                  (run_cell call chance index side (Queue.at (queue_of side w.events) index) w)
                  (λ _. process_loop call chance fuel (index + 1)) (run_cell-IsQuiet index side _ w)
                  (λ w'. process_loop-IsQuiet fuel (index + 1) w'))
          | inr n ↦ rw (n, process_loop) tt
        ]

    process_all-IsQuiet : (fuel : ℕ) (w : World) → IsQuiet (process_all call chance true fuel w)
    unfolding process_queue start_queue finish_queue
    process_all-IsQuiet fuel w =
        bind-IsQuiet (process_loop call chance fuel 0 _) (λ _. finish_queue call chance)
          (process_loop-IsQuiet fuel 0 _) (λ w'. tt)

  module _ (block : Value → Value → Code (Unit {0})) where
    known-IsCollecting :
        (rounds : ℕ) (self : Value) (o : Option Value) (v : Vm)
        → IsCollecting (each_known block rounds self o v)
    unfolding each_known each_object_ensure
    known-IsCollecting rounds self none v = refl
    known-IsCollecting rounds self (some a) v =
        ensure_exit-IsCollecting (each_object_body block rounds self a v)

    selected-IsCollecting :
        (rounds : ℕ) (self klass : Value) (v : Vm)
        → IsCollecting (each_selected block rounds self klass v)
    unfolding each_selected
    selected-IsCollecting rounds self klass v = elim (Bool-cases (klass == ruby.nil)) [
      | inl y ↦ rw y (ensure_exit-IsCollecting (each_object_body block rounds self ruby.nil v))
      | inr n ↦ elim (Option-cases (lookup self v.world.captures)) [
        | inl e ↦ rw (n, e) tt
        | inr (c, e) ↦ rw (n, e) (known-IsCollecting rounds self (lookup klass c.tracked) v)
      ]
    ]

    -- each_object on a capture, with any block and any callbacks, whatever garbage collection was
    -- before: where the events are there or can be made, and where it then returns, or an exception
    -- or a break leaves it, garbage collection is turned on. Where they cannot be made, it raises
    -- and leaves garbage collection turned off.
    pub each_object_with-IsCollecting :
        (call : Value → Value → EventType → Value → M Value) (chance : ℕ → Chance) (fuel rounds : ℕ)
        (self klass : Value) (c : Capture) (v : Vm)
        → lookup self v.world.captures ≡ some c
        → IsCollecting (each_object_with block call chance true fuel rounds self klass v)
          × (each_object_with block call chance false fuel rounds self klass v
              ≡ unwinds (record v { collects = false }))
    unfolding each_object_with
    each_object_with-IsCollecting call chance fuel rounds self klass c v here = (
      rw here (
          after-IsCollecting false (process_all call chance true fuel v.world)
            (each_selected block rounds self klass) (process_all-IsQuiet call chance fuel v.world)
            (selected-IsCollecting rounds self klass)),
      rw here refl,
    )
