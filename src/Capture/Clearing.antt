-- ===== src/Capture/Clearing.antt =====
-- clear: the counters, the totals and the table start anew.
use memory_tracker.Base.{
  ◌≤◌, ◌≡◌, ◌≢◌, refl, ◌⊎◌, inl, inr, arith, Bool, true, false, none, some, [], ◌∷◌, ◌==◌,
  Bool-cases, ==→eq, ◌&&◌, inc32, eq→==,
}
use memory_tracker.Value.{Value, Ruby}
use memory_tracker.Assoc.{Assoc, lookup, insert, after_insert, lookup-insert_self}
use memory_tracker.Allocations
use memory_tracker.Allocations.{Allocations}
use memory_tracker.Table.{Table, max_probe_length}
use memory_tracker.Table.Slots.{view}
use memory_tracker.Table.Invariant.{IsKey}
use memory_tracker.Table.Valid.{IsValid, new-IsValid, new-none}
use memory_tracker.World.{Capture, World, ok, raised, crashed, M}
use memory_tracker.Events.{EventType}
use memory_tracker.Capture.Process.{pause, free_states, free_object, process_freeobj}
use memory_tracker.Capture.Control.{clear, clear_records, fresh_states}
use memory_tracker.Capture.Balance.{Account}

module _ ⦃ruby : Ruby⦄ where
  abbrev pub zeros : Allocations
  zeros = record { callback = ruby.nil; new_count = 0; free_count = 0 }

  -- Every tracked class has its counters.
  abbrev pub HaveCounters : Assoc Value → Assoc Allocations → Type 0
  HaveCounters [] records = Unit {0}
  HaveCounters ((k, a) ∷ m) records =
      ((r : Allocations) × (lookup a records ≡ some r)) × HaveCounters m records

  HaveCounters-insert :
      (m : Assoc Value) (a : Value) (r : Allocations) (records : Assoc Allocations)
      → HaveCounters m records
      → HaveCounters m (insert a r records)
  HaveCounters-insert [] a r records h = tt
  HaveCounters-insert ((k, b) ∷ m) a r records ((s, e), h) = (
    elim (Bool-cases (a == b)) [
      | inl y ↦ (r, ground (arith, y, after_insert a b r records))
      | inr n ↦ (s, ground (arith, n, e, after_insert a b r records))
    ],
    HaveCounters-insert m a r records h,
  )

  clear_records-zeros :
      (m : Assoc Value) (w : World)
      → HaveCounters m w.records
      → (w' : World) × (clear_records m w ≡ ok tt w')
        × (w'.captures ≡ w.captures)
        × ((b : Value) → lookup b w.records ≡ some zeros → lookup b w'.records ≡ some zeros)
        × ((k b : Value) → lookup k m ≡ some b → lookup b w'.records ≡ some zeros)
  unfolding clear_records Allocations.clear lookup
  clear_records-zeros [] w h = (w, refl, refl, λ b e. e, λ k b e. cc)
  clear_records-zeros ((k, a) ∷ m) w ((r, e), h) =
      let w₁ : World = record w { records = insert a zeros w.records } in
      let (w', run, same, stays, zero) =
        clear_records-zeros m w₁ (HaveCounters-insert m a zeros w.records h) in
      (
        w',
        rw e run,
        same,
        λ b z. stays b (ground (arith, z, after_insert a b zeros w.records)),
        λ j b f. elim (Bool-cases (k == j)) [
          | inl y ↦ stays b (ground (arith, y, f, after_insert a b zeros w.records))
          | inr n ↦ zero j b (ground (arith, n, f))
        ],
      )

  pub from_1024 : 1024 ≤ max_probe_length
  unfolding max_probe_length
  from_1024 = omega arith

  -- The account of a capture with a new table.
  pub fresh-Account :
      (c : Capture) (t : Table)
      → IsValid t
      → t.capacity ≡ 1024
      → t.count ≡ 0
      → t.tombstones ≡ 0
      → Account 0 0 4096 (record c { states = some t; new_count = 0; free_count = 0 })
  fresh-Account c t v s z y = record {
    table = t;
    holds = refl;
    valid = v;
    sized = inl s;
    balance = omega (arith, z);
    used = omega (arith, z, y);
    budget = omega arith;
  }

  module _ (self : Value) (c : Capture) (t : Table) (w : World)
      (here : lookup self w.captures ≡ some c) (held : c.states ≡ some t)
      (all : HaveCounters c.tracked w.records) where
    -- clear, with its allocations granted, on a capture with a table whose tracked classes have
    -- their counters: while the capture runs it raises and changes nothing; else it succeeds, the
    -- totals are zero, the counters of a tracked class are zero and have no callback, the new table
    -- holds no object, nothing else of the capture changes, and it is in balance for 4096
    -- allocations.
    pub clear-fresh :
        (o klass a : Value)
        → IsKey o
        → lookup klass c.tracked ≡ some a
        → (c.running ≢ 0 × (clear true true self w ≡ raised w))
          ⊎ ((c.running ≡ 0)
              × (w' : World) × (t' : Table) × (clear true true self w ≡ ok self w')
              × (lookup self w'.captures
                  ≡ some (record c { states = some t'; new_count = 0; free_count = 0 }))
              × (lookup a w'.records ≡ some zeros)
              × (view t'.entries o ≡ none)
              × Account 0 0 4096 (record c { states = some t'; new_count = 0; free_count = 0 }))
    unfolding clear fresh_states
    clear-fresh o klass a key tracked = elim (Bool-cases (c.running == 0)) [
      | inr n ↦ inl (ground (arith, n), rw here (rw n refl))
      | inl y ↦
          let (t', made, v, size, count, absent) =
            new-IsValid 1024 (inr (omega arith, from_1024)) in
          let (w₁, run, same, _, zero) = clear_records-zeros c.tracked w all in
          let c' : Capture = record c { states = some t'; new_count = 0; free_count = 0 } in
          inr (
            ==→eq _ _ y,
            record w₁ { captures = insert self c' w₁.captures },
            t',
            rw here (rw y (rw run (rw held (rw made refl)))),
            lookup-insert_self self c' w₁.captures,
            zero klass a tracked,
            absent o key,
            fresh-Account c t' v (ground (arith, size)) (omega (arith, count))
                (omega (arith, count)),
          )
    ]

    -- clear, on a stopped capture with a table whose tracked classes have their counters, when an
    -- allocation for the new table fails: it succeeds all the same, and then the processing of a
    -- free in that capture crashes.
    pub clear-null :
        (struct_fits array_fits : Bool) (call : Value → Value → EventType → Value → M Value)
        (object : Value)
        → c.running ≡ 0
        → struct_fits && array_fits ≡ false
        → (w' : World) × (clear struct_fits array_fits self w ≡ ok self w')
          × (process_freeobj call self object w' ≡ crashed)
    unfolding clear fresh_states process_freeobj free_object free_states pause
    clear-null struct_fits array_fits call object stopped fails =
        let (w₁, run, same, _, zero) = clear_records-zeros c.tracked w all in
        let c' : Capture = record c { states = none; new_count = 0; free_count = 0 } in
        let c'' : Capture = record c' { paused = inc32 c'.paused } in
        let w₂ : World = record w₁ { captures = insert self c' w₁.captures } in
        let y : (c.running == 0) ≡ true = eq→== c.running 0 stopped in
        (
          w₂,
          rw here (rw y (rw run (rw held (rw (new-none struct_fits array_fits 1024 fails) refl)))),
          rw (lookup-insert_self self c' w₁.captures)
              (rw (lookup-insert_self self c'' (insert self c' w₁.captures)) refl),
        )
