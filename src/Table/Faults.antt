-- ===== src/Table/Faults.antt =====
-- The table when an allocation fails: resize_table forgets the counters, and a later compact
-- trusts them.
use memory_tracker.Base.{
  ℕ, ◌+◌, ◌<◌, ◌≡◌, refl, inl, inr, true, false, arith, none, length, inc, mul64,
}
use memory_tracker.Value.{Value, Ruby}
use memory_tracker.Table.{
  Entry, Table, insert, insert_at, find_insert_slot, overloaded, resize_table,
}
use memory_tracker.Table.Search.{pos-lt}
use memory_tracker.Table.Slots.{live, view, live-set}
use memory_tracker.Table.Invariant.{walk, IsKey}
use memory_tracker.Table.Find.{insert_slot-absent}
use memory_tracker.Table.Valid.{IsValid, IsValid-Ends, find-cases}
use memory_tracker.Table.Gc.{compact, any_moved, temp_room}
use memory_tracker.Table.Relocate.{collect-none}

module _ ⦃ruby : Ruby⦄ where
  module _ (t : Table) (o : Value) (v : IsValid t) (key : IsKey o) (full : overloaded t ≡ true)
      (fresh : view t.entries o ≡ none) where
    -- After calloc has failed, the new object is in the table with all the others, but the count
    -- says that it is the only one.
    insert-count_failed :
        ((insert false t o).0.count ≡ 1) × (live (insert false t o).0.entries ≡ t.count + 1)
    unfolding insert resize_table find_insert_slot insert_at inc
    insert-count_failed = elim (find-cases v o key) [
      | inr (_, _, _, e, _) ↦ absurd (cc)
      | inl (_, absent) ↦
          let (d, p, run, free, _) = insert_slot-absent v.sound o (IsValid-Ends v o) absent in
          let i : ℕ = walk t.capacity o d in
          let width : i < length t.entries =
            rw v.sound.width (pos-lt t.capacity _ d v.sound.room) in
          let new : Entry = record { object = o; klass = 0; datum = 0 } in
          rw (full, run)
            (
              refl,
              ground
                  (arith, v.counted, live-set t.entries i new width, free, key.ne_zero, key.ne_nil),
            )
    ]

    -- A valid table that holds an object and is full enough to grow, into which a new object is
    -- inserted while calloc fails: a compaction after it that moves an object, with its allocation
    -- granted, writes past the end of its temporary array.
    pub compact-insert_failed :
        (location : Value → Value)
        → 0 < t.count
        → any_moved location (insert false t o).0.entries ≡ true
        → compact location true (insert false t o).0 ≡ none
    unfolding compact temp_room mul64
    compact-insert_failed location some_held moved =
        let (c, l) = insert-count_failed in
        ground
          (arith, c, moved, collect-none location 1 (insert false t o).0.entries (omega (arith, l)))
