-- ===== src/Capture/Session/Iteration.antt =====
-- each_object in a session, with a block that goes on with the session.
use memory_tracker.Base.{
  ℕ, zero, suc, ◌+◌, ◌≤◌, ◌<◌, ◌≡◌, inl, inr, arith, true, false, Option, none, some, ltb, lt→ltb,
  ge→ltb, dec_lt, Bool-cases, ◌==◌, not, ◌&&◌,
}
use memory_tracker.Value.{Value, Ruby}
use memory_tracker.Assoc.{Assoc, lookup}
use memory_tracker.Table.{Table, Entry, at}
use memory_tracker.Events.{EventType, queue_of}
use memory_tracker.World.{Capture, World, M}
use memory_tracker.Capture.Query.{or_nil}
use memory_tracker.Capture.Balance.Runs.{granted}
use memory_tracker.Capture.Shutdown.{IsHarmless, processing-Stopping}
use memory_tracker.Capture.Each.{
  Vm, Exit, returns, unwinds, crashes, spent, Code, after, ensure_exit, each_object_ensure,
  yield_entry, each_slot, each_states, each_object_body, each_known, each_selected,
  each_object_with,
}
use memory_tracker.Capture.Each.Collecting.{IsCollecting, each_object_with-IsCollecting}
use memory_tracker.Capture.Session.Ready.{waiting_count}
use memory_tracker.Capture.Session.Jobs.{Ready-process_queue}
use memory_tracker.Capture.Session.Reach.{Session, processes, Session-Ready}

-- The code returns or unwinds, where `P` holds of the world.
abbrev pub Lands {ℓ} : {A : Type ℓ} → (World → Type 0) → Exit A → Type 0
Lands P (returns a v) = P v.world
Lands P (unwinds v) = P v.world
Lands P crashes = ⊥
Lands P spent = ⊥

after-Lands {ℓ κ} :
    {A : Type ℓ} {B : Type κ} (P : World → Type 0) (x : Exit A) (f : A → Code B)
    → Lands P x
    → ((a : A) (v : Vm) → P v.world → Lands P (f a v))
    → Lands P (after x f)
after-Lands P (returns a v) f h k = k a v h
after-Lands P (unwinds v) f h k = h
after-Lands P crashes f h k = elim h [ ]
after-Lands P spent f h k = elim h [ ]

ensure_exit-Lands {ℓ} :
    {A : Type ℓ} (P : World → Type 0) (x : Exit A)
    → Lands P x
    → Lands P (ensure_exit x each_object_ensure)
unfolding each_object_ensure
ensure_exit-Lands P (returns a v) h = h
ensure_exit-Lands P (unwinds v) h = h
ensure_exit-Lands P crashes h = elim h [ ]
ensure_exit-Lands P spent h = elim h [ ]

module _ ⦃ruby : Ruby⦄ (call : Value → Value → EventType → Value → M Value)
    (harmless : IsHarmless call) (self : Value) where
  -- A world that a session reaches with at most 4096 reported events, and in which the capture is.
  abbrev pub InSession : World → Type 0
  InSession w =
      (n : ℕ) × (n ≤ 4096) × Session call n w × ((c : Capture) × (lookup self w.captures ≡ some c))

  -- A block that goes on with the session.
  abbrev pub Continues : (Value → Value → Code (Unit {0})) → Type 0
  Continues block =
      (object allocations : Value) (v : Vm)
      → InSession v.world
      → Lands InSession (block object allocations v)

  -- The table of the capture is there, and has at most 8192 slots.
  table_there :
      (w : World) (c : Capture)
      → InSession w
      → lookup self w.captures ≡ some c
      → (t : Table) × (c.states ≡ some t) × (t.capacity ≤ 8192)
  table_there w c (n, l, s, _) here =
      let r = Session-Ready call harmless s 0 (omega (arith, l)) in
      let a = r.balanced self c here in (a.table, a.holds, ground (arith, a.sized))

  module _ (block : Value → Value → Code (Unit {0})) (goes_on : Continues block) where
    yield_entry-Lands :
        (tracked : Assoc Value) (filter : Value) (e : Entry) (v : Vm)
        → InSession v.world
        → Lands InSession (yield_entry block tracked filter e v)
    unfolding yield_entry
    yield_entry-Lands tracked filter e v h = elim (Bool-cases (e.object == 0)) [
      | inl y ↦ rw y h
      | inr n ↦
          elim (Bool-cases
            (not (filter == ruby.nil) && not (or_nil (lookup e.klass tracked) == filter))) [
              | inl y ↦ rw (n, y) h
              | inr m ↦ rw (n, m) (goes_on e.object (or_nil (lookup e.klass tracked)) v h)
            ]
    ]

    each_slot-Lands :
        (rounds index : ℕ) (filter : Value) (v : Vm)
        → InSession v.world
        → index ≤ 8192
        → 8192 < index + rounds
        → Lands InSession (each_slot block rounds self filter index v)
    unfolding each_slot
    each_slot-Lands zero index filter v h l m = absurd (omega arith)
    each_slot-Lands (suc rounds) index filter v h l m =
        let (_, _, _, (c, here)) = h in
        let (t, st, size) = table_there v.world c h here in
        elim (dec_lt index t.capacity) [
          | yes more ↦
              let go : ltb index t.capacity ≡ true = lt→ltb index t.capacity more in
              rw (here, each_slot)
                (rw (st, each_slot)
                  (rw (go, each_slot)
                    (after-Lands InSession
                      (yield_entry block c.tracked filter (at t.entries index) v)
                      (λ _. each_slot block rounds self filter (index + 1))
                      (yield_entry-Lands c.tracked filter (at t.entries index) v h)
                      (λ _ v' h'.
                        each_slot-Lands rounds (index + 1) filter v' h' (omega arith)
                          (omega arith)))))
          | no done ↦
              let stop : ltb index t.capacity ≡ false = ge→ltb index t.capacity (omega arith) in
              rw (here, each_slot) (rw (st, each_slot) (rw (stop, each_slot) h))
        ]

    states-Lands :
        (rounds : ℕ) (filter : Value) (o : Option Table) (v : Vm)
        → InSession v.world
        → 8192 < rounds
        → Lands InSession (each_states block rounds self filter o v)
    unfolding each_states
    states-Lands rounds filter none v h l = h
    states-Lands rounds filter (some t) v h l =
        after-Lands InSession (each_slot block rounds self filter 0 v) _
          (each_slot-Lands rounds 0 filter v h (omega arith) (omega arith)) (λ _ v' k. k)

    body-Lands :
        (rounds : ℕ) (filter : Value) (v : Vm)
        → InSession v.world
        → 8192 < rounds
        → Lands InSession (each_object_body block rounds self filter v)
    unfolding each_object_body
    body-Lands rounds filter v h l =
        let (_, _, _, (c, here)) = h in rw here (states-Lands rounds filter c.states v h l)

    known-Lands :
        (rounds : ℕ) (o : Option Value) (v : Vm)
        → InSession v.world
        → 8192 < rounds
        → Lands InSession (each_known block rounds self o v)
    unfolding each_known each_object_ensure
    known-Lands rounds none v h l = h
    known-Lands rounds (some a) v h l =
        ensure_exit-Lands InSession (each_object_body block rounds self a v)
          (body-Lands rounds a v h l)

    selected-Lands :
        (rounds : ℕ) (klass : Value) (v : Vm)
        → InSession v.world
        → 8192 < rounds
        → Lands InSession (each_selected block rounds self klass v)
    unfolding each_selected
    selected-Lands rounds klass v h l = elim (Bool-cases (klass == ruby.nil)) [
      | inl y ↦ rw y (
          ensure_exit-Lands InSession (each_object_body block rounds self ruby.nil v)
            (body-Lands rounds ruby.nil v h l))
      | inr n ↦
          let (_, _, _, (c, here)) = h in
          rw n (rw here (known-Lands rounds (lookup klass c.tracked) v h l))
    ]

    -- each_object with a block, in a world that a session reaches with at most 4096 reported events
    -- and that has the capture, with every allocation granted and callbacks that return or raise
    -- and change at most counters, with the events there, with fuel for more events than wait and
    -- more than 8192 rounds: it returns or unwinds, without a crash or an endless loop, in such a
    -- world, with garbage collection turned on. The block is any code that returns or unwinds,
    -- without a crash or an endless loop, from such a world in such a world, as one does that calls
    -- the methods of a session, a further each_object included.
    pub each_object_with-Lands :
        (wrappers : ℕ → Value) (fuel rounds : ℕ) (klass : Value) (v : Vm)
        → InSession v.world
        → (queue_of v.world.events.available v.world.events).count < fuel
        → 8192 < rounds
        → Lands InSession
            (each_object_with block call (granted wrappers) true fuel rounds self klass v)
          × IsCollecting
              (each_object_with block call (granted wrappers) true fuel rounds self klass v)
    unfolding each_object_with
    each_object_with-Lands wrappers fuel rounds klass v (n, few, s, (c, here)) enough l =
        let r = Session-Ready call harmless s 0 (omega (arith, few)) in
        let (w, run, _) = Ready-process_queue call harmless wrappers 0 fuel v.world r enough in
        let (_, (d, there, _)) =
          processing-Stopping call wrappers harmless self fuel c v.world w here enough run in
        let reached : InSession w = (n, few, processes wrappers fuel s enough run, (d, there)) in
        (
          rw here (
              rw run
                (selected-Lands rounds klass (record { world = w; collects = false }) reached l)),
          (each_object_with-IsCollecting block call (granted wrappers) fuel rounds self klass c v
              here).0,
        )

  -- A block that calls each_object with a block that goes on with the session goes on with it.
  abbrev pub nested :
      (Value → Value → Code (Unit {0}))
      → (ℕ → Value)
      → (fuel rounds : ℕ) → Value
      → Value
      → Value
      → Code (Unit {0})
  nested block wrappers fuel rounds klass object allocations v =
      after (each_object_with block call (granted wrappers) true fuel rounds self klass v)
        (λ _ v'. returns tt v')

  pub nested-Continues :
      (block : Value → Value → Code (Unit {0})) (wrappers : ℕ → Value) (fuel rounds : ℕ)
      (klass : Value)
      → Continues block
      → 4096 < fuel
      → 8192 < rounds
      → Continues (nested block wrappers fuel rounds klass)
  nested-Continues block wrappers fuel rounds klass goes_on few l object allocations v h =
      let (n, bound, s, _) = h in
      let r = Session-Ready call harmless s 0 (omega (arith, bound)) in
      let waiting = waiting_count r.es v.world.events r.tidy in
      let (lands, _) =
        each_object_with-Lands block goes_on wrappers fuel rounds klass v h
          (omega (arith, waiting, r.small, few)) l in
      after-Lands InSession
        (each_object_with block call (granted wrappers) true fuel rounds self klass v)
        (λ _ v'. returns tt v') lands (λ _ v' k. k)
