-- ===== src/Capture/Running.antt =====
-- start and stop: the hook is registered exactly while the capture runs.
use memory_tracker.Base.{
  ℕ, ◌≡◌, ◌≢◌, refl, inl, inr, arith, true, false, some, List, [], ◌∷◌, ◌++◌, if◌then◌else◌, ◌==◌,
  not, tally, tally-append, keep, Bool-cases,
}
use memory_tracker.Value.{Value, Ruby}
use memory_tracker.Assoc.{lookup, insert, after_insert, lookup-insert_self}
use memory_tracker.Events.{EventType}
use memory_tracker.World.{Capture, World, ok, M}
use memory_tracker.Capture.Process.{Chance}
use memory_tracker.Capture.Control.{start, stop, add_hook, remove_hook}
use memory_tracker.Capture.Dispatch.{process_queue}
use memory_tracker.Capture.Frame.{Frame}

-- How often a capture is registered.
abbrev pub registered : Value → List Value → ℕ
registered self = tally (λ s. s == self)

-- The hook is registered once while the capture runs, and else not at all.
abbrev pub IsHooked : Value → World → Capture → Type 0
IsHooked self w c =
    (lookup self w.captures ≡ some c)
    × (registered self w.hooks ≡ (if c.running == 0 then 0 else 1))

registered-keep :
    (self : Value) (xs : List Value) → registered self (keep (λ s. not (s == self)) xs) ≡ 0
registered-keep self [] = refl
registered-keep self (x ∷ xs) = ground (arith, registered-keep self xs)

-- start, on a capture that is registered for events once while it runs and else not at all: it
-- answers whether the capture was stopped, and afterwards the capture runs and is registered once.
start-IsHooked :
    (self : Value) (c : Capture) (w : World)
    → IsHooked self w c
    → (c' : Capture) × (w' : World) × (start true self w ≡ ok (c.running == 0) w')
      × IsHooked self w' c'
      × (c'.running ≢ 0)
unfolding start add_hook
start-IsHooked self c w (here, once) = elim (Bool-cases (c.running == 0)) [
  | inl y ↦
      let c' : Capture = record c { running = 1; paused = 0 } in
      (
        c',
        record w { captures = insert self c' w.captures; hooks = w.hooks ++ self ∷ [] },
        rw here (rw y refl),
        (
          lookup-insert_self self c' w.captures,
          ground (arith, once, tally-append (λ s. s == self) w.hooks (self ∷ [])),
        ),
        omega arith,
      )
  | inr n ↦ (c, w, rw here (rw n refl), (here, once), ground (arith, n))
]

-- What processing leaves of a capture that is being stopped.
abbrev pub Stopping : Value → ℕ → List Value → World → Type 0
Stopping self running hooks w =
    (w.hooks ≡ hooks) × ((c : Capture) × (lookup self w.captures ≡ some c) × (c.running ≡ running))

pub Stopping-Frame :
    (self : Value) (running : ℕ) (hooks : List Value) → Frame (Stopping self running hooks)
Stopping-Frame self running hooks = record {
  capture = λ w x d d' here same (h, (c, e, r)). (
    h,
    elim (Bool-cases (x == self)) [
      | inl y ↦ (
        d',
        ground (arith, y, after_insert x self d' w.captures),
        ground (arith, y, same, r, e, here),
      )
      | inr n ↦ (c, ground (arith, n, e, after_insert x self d' w.captures), r)
    ],
  );
  counters = λ w a r p. p;
}

-- The world in which stop processes the queue, and the capture that it leaves.
abbrev pub unhooked : Value → World → World
unhooked self w = record w { hooks = keep (λ s. not (s == self)) w.hooks }

abbrev pub halted : Capture → Capture
halted c = record c { running = 0; paused = 0 }

module _ ⦃ruby : Ruby⦄ (call : Value → Value → EventType → Value → M Value) (chance : ℕ → Chance)
    (self : Value) where
  pub stop_after :
      (fuel : ℕ) (c d : Capture) (w w₂ : World)
      → lookup self w.captures ≡ some c
      → (c.running == 0) ≡ false
      → process_queue call chance fuel (unhooked self w) ≡ ok tt w₂
      → w₂.hooks ≡ (unhooked self w).hooks
      → lookup self w₂.captures ≡ some d
      → let w' = record w₂ { captures = insert self (halted d) w₂.captures } in
        (stop call chance true fuel self w ≡ ok true w') × IsHooked self w' (halted d)
  unfolding stop remove_hook
  stop_after fuel c d w w₂ here runs run gone there = (
    rw here (rw runs (rw run (rw there refl))),
    (lookup-insert_self self (halted d) w₂.captures, rw gone (registered-keep self w.hooks)),
  )
