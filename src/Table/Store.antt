-- ===== src/Table/Store.antt =====
-- table.c with its caller, process_newobj of capture.c: insert with the writes that its caller makes through the pointer.
use memory_tracker.Base.{
  ℕ, ◌+◌, ◌*◌, ◌≤◌, ◌<◌, ◌≡◌, refl, ◌⊎◌, Bool, true, false, arith, some, length,
}
use memory_tracker.Value.{Value, Ruby}
use memory_tracker.Table.{Entry, Table, at, max_probe_length, insert, overloaded, fill}
use memory_tracker.Table.Slots.{view, live-set, buried-set, update}
use memory_tracker.Table.Invariant.{IsKey}
use memory_tracker.Table.Write.{Sound-rewrite, view-write}
use memory_tracker.Table.Valid.{IsValid}
use memory_tracker.Table.Insert.{insert-Inserts, one_if_new}

module _ ⦃ruby : Ruby⦄ where
  -- Insertion of `object`, and its class and state written to the entry.
  unfoldable pub store : Bool → Table → Value → Value → Value → Table
  store fits t object klass datum =
      let (t', index) = insert fits t object in fill t' index klass datum

  -- What storing `x` under `o` does to a table.
  pub record Stores (o : Value) (x : Value × Value) (t r : Table) : Type 0 where
    pub valid : IsValid r
    pub count : r.count ≡ t.count + one_if_new (view t.entries o)
    pub used : r.count + r.tombstones ≤ t.count + t.tombstones + 1
    pub capacity :
        (r.capacity ≡ t.capacity) ⊎ ((overloaded t ≡ true) × (r.capacity ≡ t.capacity * 2))
    pub reads : (q : Value) → IsKey q → view r.entries q ≡ update (view t.entries) o (some x) q

  fill-reads :
      {t : Table}
      → IsValid t
      → (i : ℕ) (o klass datum : Value) → i < t.capacity
      → IsKey o
      → (at t.entries i).object ≡ o
      → IsValid (fill t i klass datum)
        × ((q : Value)
            → IsKey q
            → view (fill t i klass datum).entries q
              ≡ update (view t.entries) o (some (klass, datum)) q)
  unfolding fill
  fill-reads {t} v i o klass datum l key h =
      let new : Entry = record (at t.entries i) { klass = klass; datum = datum } in
      let width : i < length t.entries = rw v.sound.width l in
      let after = Sound-rewrite v.sound i l new (rw h key) refl in
      (
        record {
          sound = after;
          counted = ground (arith, v.counted, live-set t.entries i new width);
          deleted = ground (arith, v.deleted, buried-set t.entries i new width);
          roomy = v.roomy;
          wide = v.wide;
          bounded = v.bounded;
        },
        λ q k. ground (arith, view-write v.sound i l new after q k),
      )

  -- A stored object reads back its class and state, and no other object is touched.
  pub store-Stores :
      (t : Table) (o klass datum : Value)
      → IsValid t
      → IsKey o
      → (overloaded t ≡ false) ⊎ (t.capacity * 2 ≤ max_probe_length)
      → Stores o (klass, datum) t (store true t o klass datum)
  unfolding store fill
  store-Stores t o klass datum v key b =
      let n = insert-Inserts t o v key b in
      let (w, reads) = fill-reads n.valid (insert true t o).1 o klass datum n.in_range key n.here in
      record {
        valid = w;
        count = n.count;
        used = n.used;
        capacity = n.capacity;
        reads = λ q k. ground (arith, reads q k, n.reads q k);
      }
