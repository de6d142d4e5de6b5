-- ===== src/Capture/Balance/Runs.antt =====
-- The accounts after any events: process_event under rb_protect, and process_queue.
use memory_tracker.Base.{
  ℕ, suc, ◌+◌, ◌<◌, ◌≡◌, refl, subst, ap, ◌∙◌, Option, none, arith, List, [], ◌∷◌, length, some,
  map, true,
}
use memory_tracker.Value.{Value, Ruby}
use memory_tracker.Assoc.{Assoc, lookup}
use memory_tracker.Events.{Event, EventType, no_event, newobj, freeobj, Side, queue_of, swap}
use memory_tracker.Queue.Contents.{contents, IsValid}
use memory_tracker.Table.Invariant.{IsKey}
use memory_tracker.World.{Capture, World, Step, ok, raised, crashed, out_of_fuel, M, bind}
use memory_tracker.Capture.Process.{Chance, process_event}
use memory_tracker.Capture.Dispatch.{
  suppressed, clear_event, run_event, start_queue, finish_queue, process_queue,
}
use memory_tracker.Capture.Order.{LeavesQueue, process_events, process_queue-all}
use memory_tracker.Capture.Balance.{Account, Accounts}
use memory_tracker.Capture.Balance.Steps.{Yields, Account-weaken, Accounts-weaken}
use memory_tracker.Capture.Balance.Newobj.{IsCalm, process_newobj-Yields}
use memory_tracker.Capture.Balance.Freeobj.{process_freeobj-Yields}

-- The balance of one capture, with `left` allocations to come.
module _ ⦃ruby : Ruby⦄ where
  abbrev pub Balanced : ℕ → World → Type 0
  Balanced left w = (x : Value) (c : Capture) → lookup x w.captures ≡ some c → Account 0 0 left c

  -- The same of one capture, if there is one.
  abbrev pub InBalance : ℕ → Option Capture → Type 0
  InBalance left none = Unit {0}
  InBalance left (some c) = Account 0 0 left c

  pub balanced_at :
      (left : ℕ) (o : Option Capture) (c : Capture)
      → InBalance left o
      → o ≡ some c
      → Account 0 0 left c
  balanced_at left none c h e = cc
  balanced_at left (some d) c h e = subst (Account 0 0 left) (cc) h

  pub in_balance :
      (left : ℕ) (o : Option Capture)
      → ((c : Capture) → o ≡ some c → Account 0 0 left c)
      → InBalance left o
  in_balance left none h = tt
  in_balance left (some c) h = h c refl

  -- Every event is about an object.
  abbrev pub AboutObjects : List Event → Type 0
  AboutObjects [] = Unit {0}
  AboutObjects (e ∷ es) = IsKey e.object × AboutObjects es

  to_Accounts : (self : Value) (n : ℕ) (w : World) → Balanced n w → Accounts self 0 0 n w.captures
  to_Accounts self n w b x c e =
      Account-weaken _ _ n (ground arith) (ground arith) (omega arith) (b x c e)

  of_Accounts : (self : Value) (n : ℕ) (w : World) → Accounts self 0 0 n w.captures → Balanced n w
  of_Accounts self n w all x c e =
      Account-weaken 0 0 n (omega arith) (omega arith) (omega arith) (all x c e)

  -- Under rb_protect an exception keeps the accounts too.
  suppressed-Accounts :
      (P : Assoc Capture → Type 0) (s : Step (Unit {0}))
      → Yields P P s
      → (w : World) × (suppressed s ≡ ok tt w) × P w.captures
  suppressed-Accounts P (ok tt w) h = (w, refl, h)
  suppressed-Accounts P (raised w) h = (w, refl, h)
  suppressed-Accounts P crashed h = elim h [ ]
  suppressed-Accounts P out_of_fuel h = elim h [ ]

  -- Each resize of the table gets its memory; the addresses of new counters are anything.
  abbrev pub granted : (ℕ → Value) → ℕ → Chance
  granted wrappers i = record { fits = true; wrapper = wrappers i }

  module _ (call : Value → Value → EventType → Value → M Value) (wrappers : ℕ → Value)
      (calm : IsCalm call) where
    process_event-Yields :
        (n i : ℕ) (type : EventType) (e : Event) (w : World)
        → IsKey e.object
        → Accounts e.capture 0 0 (suc n) w.captures
        → Yields
            (Accounts e.capture 0 0 n)
            (Accounts e.capture 0 0 n)
            (process_event call (granted wrappers i) type e w)
    unfolding process_event
    process_event-Yields n i no_event e w key all =
        Accounts-weaken 0 0 (suc n) e.capture w.captures e.capture n (omega arith) all
    process_event-Yields n i newobj e w key all =
        process_newobj-Yields call calm n e.capture (wrappers i) e.klass e.object w key all
    process_event-Yields n i freeobj e w key all =
        process_freeobj-Yields call calm n e.capture e.object w key
          (Accounts-weaken 0 0 (suc n) e.capture w.captures e.capture n (omega arith) all)

    run_event-Balanced :
        (n i : ℕ) (side : Side) (e : Event) (w : World)
        → IsKey e.object
        → Balanced (suc n) w
        → (w' : World) × (run_event call (granted wrappers) i side e w ≡ ok tt w') × Balanced n w'
    unfolding run_event clear_event
    run_event-Balanced n i side e w key b =
        let (v, run, all) =
          suppressed-Accounts (Accounts e.capture 0 0 n) _
            (process_event-Yields n i e.type e w key (to_Accounts e.capture (suc n) w b)) in
        (
          _,
          ap (λ (s : Step (Unit {0})). bind s (λ _. clear_event side i)) run,
          of_Accounts e.capture n v all,
        )

    pub process_events-Balanced :
        (n : ℕ) (es : List Event) (side : Side) (i : ℕ) (w : World)
        → AboutObjects es
        → Balanced (length es + n) w
        → (w' : World) × (process_events call (granted wrappers) side i es w ≡ ok tt w')
          × Balanced n w'
    process_events-Balanced n [] side i w keys b =
        (w, refl, subst (λ (k : ℕ). Balanced k w) (omega arith) b)
    process_events-Balanced n (e ∷ es) side i w (key, keys) b =
        let (v, run, c) =
          run_event-Balanced (length es + n) i side e w key
            (subst (λ (k : ℕ). Balanced k w) (omega arith) b) in
        let (u, rest, d) = process_events-Balanced n es side (suc i) v keys c in (u, rw run rest, d)

    pub process_queue-Balanced :
        (fuel : ℕ) (es : List Event) (w : World)
        → LeavesQueue call
        → IsValid (queue_of w.events.available w.events)
        → contents (queue_of w.events.available w.events) ≡ map some es
        → AboutObjects es
        → length es < fuel
        → Balanced (length es) w
        → (w' : World) × (process_queue call (granted wrappers) fuel w ≡ ok tt w') × Balanced 0 w'
    unfolding start_queue finish_queue
    process_queue-Balanced fuel es w leaves v waiting keys enough b =
        let w₁ : World = record w { events = swap w.events } in
        let (w₂, run, balanced) =
          process_events-Balanced 0 es w.events.available 0 w₁ keys
            (subst (λ (k : ℕ). Balanced k w₁) (omega arith) b) in
        (
          _,
          process_queue-all call (granted wrappers) leaves fuel es w v waiting enough
              ∙ ap (λ (s : Step (Unit {0})). bind s (λ _. finish_queue call (granted wrappers)))
                  run,
          balanced,
        )

    -- process_queue, with callbacks that return or raise and leave alone the captures and the queue
    -- that is processed, on a valid available queue of events that are about objects, with every
    -- calloc granted and fuel for more events than wait, where each capture is in balance and may
    -- count as many allocations as events wait: it succeeds, and every capture is in balance. In
    -- balance means that the table is valid, of 1024 to 8192 slots, and that the frees counted and
    -- the objects in the table are together at most the allocations counted, which are at most
    -- 4096.
    pub process_queue-InBalance :
        (fuel : ℕ) (es : List Event) (w : World) (x : Value)
        → LeavesQueue call
        → IsValid (queue_of w.events.available w.events)
        → contents (queue_of w.events.available w.events) ≡ map some es
        → AboutObjects es
        → length es < fuel
        → ((y : Value) → InBalance (length es) (lookup y w.captures))
        → (w' : World) × (process_queue call (granted wrappers) fuel w ≡ ok tt w')
          × InBalance 0 (lookup x w'.captures)
    process_queue-InBalance fuel es w x leaves v waiting keys enough b =
        let (w', run, c) =
          process_queue-Balanced fuel es w leaves v waiting keys enough
            (λ y c e. balanced_at (length es) (lookup y w.captures) c (b y) e) in
        (w', run, in_balance 0 (lookup x w'.captures) (c x))
