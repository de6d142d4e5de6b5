-- ===== src/Capture/Shutdown.antt =====
-- stop with callbacks that change no more than counters: it cannot crash, and the balance of every
-- capture is kept.
use memory_tracker.Base.{
  ℕ, suc, ◌+◌, ◌<◌, ◌≡◌, ◌≢◌, refl, sym, subst, ap, ◌∙◌, ◌⊎◌, inl, inr, arith, some, List, [], ◌∷◌,
  map, length, not, ◌==◌, Bool-cases, true,
}
use memory_tracker.Value.{Value, Ruby}
use memory_tracker.Assoc.{lookup, insert, after_insert}
use memory_tracker.Queue.{Queue}
use memory_tracker.Queue.Contents.{contents, IsValid}
use memory_tracker.Queue.Pending.{Pending, contents-Pending}
use memory_tracker.Events.{Event, Events, EventType, queue_of}
use memory_tracker.World.{Capture, World, Step, ok, raised, crashed, out_of_fuel, M, ◌>>◌}
use memory_tracker.Capture.Control.{stop}
use memory_tracker.Capture.Dispatch.{process_queue, start_queue, finish_queue}
use memory_tracker.Capture.Frame.{Ensures, Keeps}
use memory_tracker.Capture.Keeping.{Same}
use memory_tracker.Capture.Rounds.{process_queue-persists}
use memory_tracker.Capture.Running.{
  IsHooked, Stopping, Stopping-Frame, unhooked, halted, stop_after,
}
use memory_tracker.Capture.Order.{LeavesQueue, Holds, process_events, process_queue-all}
use memory_tracker.Capture.Balance.{Account}
use memory_tracker.Capture.Balance.Steps.{Yields, Account-weaken}
use memory_tracker.Capture.Balance.Parts.{Account-same}
use memory_tracker.Capture.Balance.Newobj.{IsCalm}
use memory_tracker.Capture.Balance.Runs.{
  InBalance, Balanced, AboutObjects, granted, balanced_at, in_balance, process_queue-Balanced,
}

-- A callback ends, by an exception or not, in a world where at most counters differ.
abbrev pub Agree : World → World → Type 0
Agree w v = (v.captures ≡ w.captures) × (v.events ≡ w.events) × (v.hooks ≡ w.hooks)

abbrev pub IsHarmless : (Value → Value → EventType → Value → M Value) → Type 0
IsHarmless call =
    (callback klass : Value) (type : EventType) (datum : Value) (w : World)
    → Ensures (Agree w) (call callback klass type datum w)
      × (call callback klass type datum w ≢ crashed)

Agree-Yields :
    (w : World) (s : Step Value)
    → Ensures (Agree w) s
    → s ≢ crashed
    → Yields (λ m. m ≡ w.captures) (λ m. m ≡ w.captures) s
Agree-Yields w (ok a v) h n = h.0
Agree-Yields w (raised v) h n = h.0
Agree-Yields w crashed h n = absurd (n refl)
Agree-Yields w out_of_fuel h n = h

-- What depends on captures, events and hooks alone is kept.
pub Agree-Ensures :
    (P : World → Type 0) (w : World) (s : Step Value)
    → ((v : World) → Agree w v → P v)
    → Ensures (Agree w) s
    → Ensures P s
Agree-Ensures P w (ok a v) k h = k v h
Agree-Ensures P w (raised v) k h = k v h
Agree-Ensures P w crashed k h = tt
Agree-Ensures P w out_of_fuel k h = h

module _ (call : Value → Value → EventType → Value → M Value) (harmless : IsHarmless call) where
  pub IsHarmless-IsCalm : IsCalm call
  IsHarmless-IsCalm callback klass type datum w =
      let (e, n) = harmless callback klass type datum w in Agree-Yields w _ e n

  pub IsHarmless-LeavesQueue : LeavesQueue call
  IsHarmless-LeavesQueue side q callback klass type datum = record {
    at = λ w (s, r).
        Agree-Ensures (Holds side q) w (call callback klass type datum w)
          (λ v (_, e, _).
            (ap (λ (x : Events). x.processing) e ∙ s, ap (λ (x : Events). queue_of side x) e ∙ r))
          (harmless callback klass type datum w).0;
  }

  IsHarmless-Stopping :
      (self : Value) (running : ℕ) (hooks : List Value) (e : Events) (callback klass : Value)
      (type : EventType) (datum : Value)
      → Keeps
          (λ w. Stopping self running hooks w × Same e w.events)
          (call callback klass type datum)
  IsHarmless-Stopping self running hooks e callback klass type datum = record {
    at = λ w ((h, (c, here, r)), (p, q)).
        Agree-Ensures (λ v. Stopping self running hooks v × Same e v.events) w
          (call callback klass type datum w)
          (λ v (captures, events, same).
            ((same ∙ h, (c, rw captures here, r)), (rw events p, rw events q)))
          (harmless callback klass type datum w).0;
  }

pub Pending-count :
    {A : Type 0} (q : Queue A) (i : ℕ) (xs : List A) → Pending q i xs → q.count ≡ i + length xs
Pending-count q i [] p = omega (arith, p)
Pending-count q i (x ∷ xs) (_, _, p) = omega (arith, Pending-count q (suc i) xs p)

module _ ⦃ruby : Ruby⦄ (call : Value → Value → EventType → Value → M Value) (wrappers : ℕ → Value)
    (harmless : IsHarmless call) (self : Value) where
  halted-Balanced :
      (d : Capture) (w : World)
      → lookup self w.captures ≡ some d
      → Balanced 0 w
      → Balanced 0 (record w { captures = insert self (halted d) w.captures })
  halted-Balanced d w there b x c e = elim (Bool-cases (self == x)) [
    | inl y ↦
        let same : halted d ≡ c = ground (arith, y, e, after_insert self x (halted d) w.captures) in
        subst (Account 0 0 0) same (Account-same d (halted d) refl refl refl (b self d there))
    | inr n ↦ b x c (ground (arith, n, e, after_insert self x (halted d) w.captures))
  ]

  -- A capture that ran is stopped in the world that the processing of the events, each once and in
  -- order, leaves without its hook; all else is as the processing leaves it.
  abbrev pub HasProcessed : List Event → Capture → Capture → World → World → Type 0
  HasProcessed es c c' w w' =
      ((c.running ≡ 0) × (w' ≡ w))
      ⊎ ((c.running ≢ 0)
          × ((w₂ : World) × ((start_queue call (granted wrappers)
                    >> (process_events call (granted wrappers) w.events.available 0 es
                        >> finish_queue call (granted wrappers)))
                  (unhooked self w)
                ≡ ok tt w₂)
              × ((d : Capture) × (lookup self w₂.captures ≡ some d) × (c' ≡ halted d))
              × (w' ≡ record w₂ { captures = insert self c' w₂.captures })))

  -- The processing leaves the capture there, as running as it was, and the hooks.
  pub processing-Stopping :
      (fuel : ℕ) (c : Capture) (w w₂ : World)
      → lookup self w.captures ≡ some c
      → (queue_of w.events.available w.events).count < fuel
      → process_queue call (granted wrappers) fuel w ≡ ok tt w₂
      → Stopping self c.running w.hooks w₂
  processing-Stopping fuel c w w₂ here enough run =
      elim (process_queue-persists (Stopping self c.running w.hooks)
        (Stopping-Frame self c.running w.hooks) (λ w e p. p) call (granted wrappers)
        (IsHarmless-Stopping call harmless self c.running w.hooks) fuel w (refl, (c, here, refl))
        enough) [
          | inl failed ↦ absurd (cc)
          | inr (w₃, run₃, p, _, _) ↦
              let same : w₃ ≡ w₂ = cc in subst (Stopping self c.running w.hooks) same p
        ]

  -- stop, on a capture that is registered for events once while it runs and else not at all, with
  -- the events there, with callbacks that return or raise and change at most counters, on a valid
  -- available queue of events that are about objects, with every calloc granted and fuel for more
  -- events than wait, where each capture is in balance and may count as many allocations as events
  -- wait: it succeeds and answers whether the capture ran, and afterwards the capture is stopped
  -- and not registered, and every capture is in balance. If the capture did not run, nothing has
  -- changed; if it did, all is as the events leave it, each of which is run once and in order
  -- between the swap and the clearing of the queues after the hook is removed, but for the flags of
  -- the capture, which are cleared.
  pub stop-InBalance :
      (fuel : ℕ) (es : List Event) (c : Capture) (w : World) (x : Value)
      → IsHooked self w c
      → IsValid (queue_of w.events.available w.events)
      → contents (queue_of w.events.available w.events) ≡ map some es
      → AboutObjects es
      → length es < fuel
      → ((y : Value) → InBalance (length es) (lookup y w.captures))
      → (c' : Capture) × (w' : World) × (stop call (granted wrappers) true fuel self w
          ≡ ok (not (c.running == 0)) w')
        × IsHooked self w' c'
        × (c'.running ≡ 0)
        × InBalance 0 (lookup x w'.captures)
        × HasProcessed es c c' w w'
  unfolding stop
  stop-InBalance fuel es c w x (here, once) v waiting keys enough b =
      let calm = IsHarmless-IsCalm call harmless in
      let balanced : Balanced (length es) w =
        λ y c e. balanced_at (length es) (lookup y w.captures) c (b y) e in
      let few : (queue_of w.events.available w.events).count < fuel =
        omega (arith, enough, Pending-count _ 0 es (contents-Pending v es waiting)) in
      elim (Bool-cases (c.running == 0)) [
        | inl y ↦ (
          c,
          w,
          rw here (rw y refl),
          (here, once),
          ground (arith, y),
          in_balance 0 (lookup x w.captures) (λ c e.
              Account-weaken 0 0 0 (omega arith) (omega arith) (omega arith) (balanced x c e)),
          inl (ground (arith, y), refl),
        )
        | inr n ↦
            let (w₂, run, after) =
              process_queue-Balanced call wrappers calm fuel es (unhooked self w)
                (IsHarmless-LeavesQueue call harmless) v waiting keys enough balanced in
            let (gone, (d, there, _)) =
              processing-Stopping fuel c (unhooked self w) w₂ here few run in
            let (ends, hooked) =
              stop_after call (granted wrappers) self fuel c d w w₂ here n run gone there in
            (
              halted d,
              record w₂ { captures = insert self (halted d) w₂.captures },
              rw n ends,
              hooked,
              refl,
              in_balance 0 _ (halted-Balanced d w₂ there after x),
              inr (
                ground (arith, n),
                (
                  w₂,
                  sym (
                        process_queue-all call (granted wrappers)
                          (IsHarmless-LeavesQueue call harmless) fuel es (unhooked self w) v waiting
                          enough)
                      ∙ run,
                  (d, there, refl),
                  refl,
                ),
              ),
            )
      ]
