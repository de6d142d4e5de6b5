-- ===== src/Table/Resize.antt =====
-- resize_table.
use mathlib.Core.Option.{or_else}
use memory_tracker.Base.{
  ◌*◌, ◌%◌, ◌≤◌, ◌≡◌, sym, ◌∙◌, true, false, arith, size_mod, length, mul64, keep,
}
use memory_tracker.Value.{Value, Ruby}
use memory_tracker.Table.{Table, is_live, max_probe_length, resize_table, overloaded}
use memory_tracker.Table.Slots.{length-live, view}
use memory_tracker.Table.Invariant.{IsKey}
use memory_tracker.Table.Valid.{IsValid, max_probe_length-lt, view-replicate}
use memory_tracker.Table.Rehash.{Filling-replicate}
use memory_tracker.Table.Reinsert.{
  reinsert-Fills, rehash-keep, view-keep, keep-Distinct, Apart-replicate,
}

module _ ⦃ruby : Ruby⦄ where
  -- The same objects in twice the slots, and no tombstones.
  pub record Resizes (t r : Table) : Type 0 where
    pub valid : IsValid r
    pub capacity : r.capacity ≡ t.capacity * 2
    pub count : r.count ≡ t.count
    pub cleared : r.tombstones ≡ 0
    pub reads : (q : Value) → IsKey q → view r.entries q ≡ view t.entries q

  pub resize_table-Resizes :
      (t : Table) → IsValid t → t.capacity * 2 ≤ max_probe_length → Resizes t (resize_table true t)
  unfolding resize_table mul64 or_else
  resize_table-Resizes t v b =
      let es = keep is_live t.entries in
      let total : length es ≡ t.count = length-live t.entries ∙ sym v.counted in
      let double : t.capacity * 2 % size_mod ≡ t.capacity * 2 =
        omega (arith, max_probe_length-lt) in
      let distinct = keep-Distinct t.entries v.sound.once in
      let start = Filling-replicate (t.capacity * 2) (length es) (omega (arith, v.roomy)) b in
      let fills =
        reinsert-Fills es _ start distinct (Apart-replicate es (t.capacity * 2) distinct) in
      rw (double, rehash-keep t.entries)
        (record {
          valid = record {
            sound = fills.filling.sound;
            counted = fills.filling.counted;
            deleted = omega (arith, fills.filling.no_tombstones, fills.filling.none_buried);
            roomy = omega (arith, fills.filling.roomy, fills.filling.no_tombstones);
            wide = omega (arith, fills.capacity, v.wide);
            bounded = fills.filling.bounded;
          };
          capacity = fills.capacity;
          count = omega (arith, fills.count);
          cleared = fills.filling.no_tombstones;
          reads = λ q k. ground (
            arith,
            fills.reads q k,
            view-keep q t.entries k,
            view-replicate (t.capacity * 2) q k,
          );
        })

  pub overloaded-resize : {t r : Table} → IsValid t → Resizes t r → overloaded r ≡ false
  unfolding overloaded
  overloaded-resize {t} {r} v s =
      ground (arith, s.capacity, s.count, s.cleared, v.roomy, v.bounded, max_probe_length-lt)
