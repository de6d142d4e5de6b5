-- ===== src/Table/Valid.antt =====
-- The invariant of the table between operations, the map it stands for, and lookup.
use memory_tracker.Base.{
  ℕ, ◌+◌, ◌≤◌, ◌<◌, ◌≡◌, refl, inl, inr, true, false, arith, Option, none, some, Option-cases,
  size_mod, replicate, ◌⊎◌, lt→ltb, Bool, ◌&&◌, ◌==◌, if◌then◌else◌,
}
use memory_tracker.Value.{Value, Ruby}
use memory_tracker.Table.{
  Table, at, empty_entry, max_probe_length, initial_capacity, new, lookup, find_entry,
}
use memory_tracker.Table.Slots.{
  live, buried, copies, view, view-eq-none, copies-replicate, view-slot, copies-eq-zero,
  live-replicate, buried-replicate,
}
use memory_tracker.Table.Invariant.{IsKey, Ends, Sound, Sound-Ends}
use memory_tracker.Table.Find.{find_entry-absent, find_entry-present}
use memory_tracker.Table.Write.{Sound-empty}

module _ ⦃ruby : Ruby⦄ where
  -- The array is sound, the counters are right, and an empty slot is left. The bound on the
  -- capacity keeps every search within MAX_PROBE_LENGTH.
  pub record IsValid (t : Table) : Type 0 where
    pub sound : Sound t.capacity t.entries
    pub counted : t.count ≡ live t.entries
    pub deleted : t.tombstones ≡ buried t.entries
    pub roomy : t.count + t.tombstones < t.capacity
    pub wide : 2 < t.capacity
    pub bounded : t.capacity ≤ max_probe_length

  pub IsValid-Ends : {t : Table} → IsValid t → (o : Value) → Ends t.entries t.capacity o
  IsValid-Ends {t} v o =
      Sound-Ends v.sound (omega (arith, v.counted, v.deleted, v.roomy)) v.bounded o

  pub max_probe_length-lt : max_probe_length < size_mod
  unfolding max_probe_length
  max_probe_length-lt = omega arith

  pub replicate-IsValid :
      (n : ℕ)
      → 2 < n
      → n ≤ max_probe_length
      → IsValid
          (record { capacity = n; count = 0; tombstones = 0; entries = replicate n empty_entry })
  replicate-IsValid n w b = record {
    sound = Sound-empty n (omega arith);
    counted = omega (arith, live-replicate n);
    deleted = omega (arith, buried-replicate n);
    roomy = omega arith;
    wide = w;
    bounded = b;
  }

  pub view-replicate : (n : ℕ) (o : Value) → IsKey o → view (replicate n empty_entry) o ≡ none
  view-replicate n o key = view-eq-none o _ (copies-replicate o n key.ne_zero)

  -- A table of usual size starts valid and empty; an initial capacity of zero means 1024.
  pub new-IsValid :
      (n : ℕ)
      → (n ≡ 0) ⊎ ((2 < n) × (n ≤ max_probe_length))
      → (t : Table) × (new true true n ≡ some t)
        × IsValid t
        × (t.capacity ≡ (if n == 0 then initial_capacity else n))
        × (t.count + t.tombstones ≡ 0)
        × ((o : Value) → IsKey o → view t.entries o ≡ none)
  unfolding new max_probe_length
  new-IsValid n (inl z) = (
    _,
    rw z,
    replicate-IsValid initial_capacity (omega arith) (omega arith),
    rw z,
    refl,
    view-replicate initial_capacity,
  )
  new-IsValid n (inr (w, b)) = (
    _,
    rw (lt→ltb 0 n (omega arith)),
    replicate-IsValid n w b,
    ground arith,
    refl,
    view-replicate n,
  )

  -- When either allocation fails there is no table.
  pub new-none : (a b : Bool) (n : ℕ) → a && b ≡ false → new a b n ≡ none
  unfolding new
  new-none a b n h = ground arith

  -- What the entry pointer that a search returns gives to read.
  abbrev pub read : Table → Option ℕ → Option (Value × Value)
  read t none = none
  read t (some i) = some ((at t.entries i).klass, (at t.entries i).datum)

  module _ {t : Table} (v : IsValid t) (o : Value) (key : IsKey o) where
    -- The slot of an object that the table holds.
    pub find-cases :
        ((view t.entries o ≡ none) × (copies o t.entries ≡ 0))
        ⊎ ((i : ℕ) × (i < t.capacity)
            × ((at t.entries i).object ≡ o)
            × (view t.entries o ≡ some ((at t.entries i).klass, (at t.entries i).datum))
            × (find_entry t.entries t.capacity o ≡ record { index = i; found = true }))
    find-cases = elim (Option-cases (view t.entries o)) [
      | inl e ↦ inl (e, copies-eq-zero o t.entries e)
      | inr (x, e) ↦
          let (i, l, h, k, d) = view-slot o t.entries x e in
          let l' : i < t.capacity = rw v.sound.width at l in
          inr (i, l', h, ground arith, find_entry-present v.sound o (IsValid-Ends v o) key i l' h)
    ]

    -- On a valid table, lookup finds an entry exactly for the objects that the array holds
    -- anywhere, with the class and state held there.
    pub lookup-view : read t (lookup t o) ≡ view t.entries o
    unfolding lookup
    lookup-view = elim find-cases [
      | inl (e, absent) ↦ rw (find_entry-absent v.sound o (IsValid-Ends v o) absent, e)
      | inr (i, l, h, e, f) ↦ rw (f, e)
    ]

    lookup-at : (i : ℕ) → lookup t o ≡ some i → (i < t.capacity) × ((at t.entries i).object ≡ o)
    unfolding lookup
    lookup-at i e = elim find-cases [
      | inl (_, absent) ↦ ground (arith, find_entry-absent v.sound o (IsValid-Ends v o) absent)
      | inr (j, l, h, _, f) ↦ ground arith
    ]
