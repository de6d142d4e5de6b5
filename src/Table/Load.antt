-- ===== src/Table/Load.antt =====
-- The load of a table, which LOAD_FACTOR keeps near one half.
use memory_tracker.Base.{◌+◌, ◌*◌, ◌≤◌, ◌≡◌, ◌⊎◌, inl, inr, true, false, arith, Bool-cases}
use memory_tracker.Value.{Value, Ruby}
use memory_tracker.Table.{Table, max_probe_length, insert, overloaded}
use memory_tracker.Table.Invariant.{IsKey}
use memory_tracker.Table.Valid.{IsValid, max_probe_length-lt}
use memory_tracker.Table.Resize.{resize_table-Resizes, overloaded-resize}
use memory_tracker.Table.Insert.{insert-Inserts_light}

module _ ⦃ruby : Ruby⦄ where
  overloaded-load :
      {t : Table} → IsValid t → overloaded t ≡ false → 2 * (t.count + t.tombstones) ≤ t.capacity
  unfolding overloaded
  overloaded-load {t} v light = ground (arith, v.roomy, v.bounded, max_probe_length-lt)

  insert-load_light :
      {t : Table} (o : Value)
      → IsValid t
      → IsKey o
      → overloaded t ≡ false
      → let r = (insert true t o).0 in 2 * (r.count + r.tombstones) ≤ r.capacity + 2
  insert-load_light {t} o v key light =
      let n = insert-Inserts_light v o key light true in
      let load = overloaded-load v light in
      elim n.capacity [
        | inl same ↦ omega (arith, same, n.used, load)
        | inr (heavy, _) ↦ absurd (cc)
      ]

  -- insert, with its allocation granted, on a valid table that need not grow or that may grow
  -- within MAX_PROBE_LENGTH slots: afterwards at most one slot more than half of them holds an
  -- object or a tombstone.
  pub insert-load :
      (t : Table) (o : Value)
      → IsValid t
      → IsKey o
      → (overloaded t ≡ false) ⊎ (t.capacity * 2 ≤ max_probe_length)
      → let r = (insert true t o).0 in 2 * (r.count + r.tombstones) ≤ r.capacity + 2
  unfolding insert
  insert-load t o v key b = elim (Bool-cases (overloaded t)) [
    | inr light ↦ insert-load_light o v key light
    | inl heavy ↦
        let small : t.capacity * 2 ≤ max_probe_length = ground arith in
        let r = resize_table-Resizes t v small in
        let light = overloaded-resize v r in
        rw heavy (rw light at (insert-load_light o r.valid key light))
  ]
