-- ===== src/Table/Rehash.antt =====
-- Entries written into a table without tombstones, as resize_table and compact do.
use memory_tracker.Base.{
  ℕ, suc, ◌+◌, ◌≤◌, ◌<◌, ◌≡◌, refl, ◌≢◌, true, arith, some, length, inc_lem, replicate,
}
use memory_tracker.Value.{Value, Ruby}
use memory_tracker.Table.{Entry, Table, empty_entry, is_live, max_probe_length, place}
use memory_tracker.Table.Search.{pos-lt}
use memory_tracker.Table.Slots.{
  copies, live, buried, view, live-set, buried-set, copies-set, update, live-replicate,
  buried-replicate,
}
use memory_tracker.Table.Invariant.{walk, IsKey, Sound, Sound-Ends}
use memory_tracker.Table.Find.{find_entry-absent}
use memory_tracker.Table.Write.{Sound-put, view-write, Sound-empty}
use memory_tracker.Table.Valid.{max_probe_length-lt}

module _ ⦃ruby : Ruby⦄ where
  -- A table that is being filled: no tombstones, and room for `more` objects and an empty slot.
  pub record Filling (more : ℕ) (t : Table) : Type 0 where
    pub sound : Sound t.capacity t.entries
    pub counted : t.count ≡ live t.entries
    pub none_buried : buried t.entries ≡ 0
    pub no_tombstones : t.tombstones ≡ 0
    pub roomy : t.count + more < t.capacity
    pub bounded : t.capacity ≤ max_probe_length

  pub Filling-replicate :
      (n more : ℕ)
      → more < n
      → n ≤ max_probe_length
      → Filling more
          (record { capacity = n; count = 0; tombstones = 0; entries = replicate n empty_entry })
  Filling-replicate n more l b = record {
    sound = Sound-empty n (omega arith);
    counted = omega (arith, live-replicate n);
    none_buried = buried-replicate n;
    no_tombstones = refl;
    roomy = omega arith;
    bounded = b;
  }

  pub is_live-IsKey : (e : Entry) → is_live e ≡ true → IsKey e.object
  is_live-IsKey e h = record { ne_zero = ground arith; ne_nil = ground arith }

  -- What placing an entry does.
  pub record Places (e : Entry) (more : ℕ) (t r : Table) : Type 0 where
    pub filling : Filling more r
    pub capacity : r.capacity ≡ t.capacity
    pub count : r.count ≡ t.count + 1
    pub reads :
        (q : Value)
        → IsKey q
        → view r.entries q ≡ update (view t.entries) e.object (some (e.klass, e.datum)) q
    pub copied : (q : Value) → copies q t.entries ≡ 0 → e.object ≢ q → copies q r.entries ≡ 0

  pub place-Places :
      (e : Entry) (more : ℕ) (t : Table)
      → Filling (suc more) t
      → IsKey e.object
      → copies e.object t.entries ≡ 0
      → Places e more t (place e t)
  unfolding place
  place-Places e more t f key absent =
      let ends =
        Sound-Ends f.sound (omega (arith, f.counted, f.none_buried, f.roomy)) f.bounded e.object in
      let i : ℕ = walk t.capacity e.object ends.steps in
      let l : i < t.capacity = pos-lt t.capacity _ ends.steps f.sound.room in
      let width : i < length t.entries = rw f.sound.width l in
      let after = Sound-put f.sound i l e key absent ends.steps ends.round refl ends.before in
      let up = inc_lem t.count (omega (arith, f.roomy, f.bounded, max_probe_length-lt)) in
      rw (find_entry-absent f.sound e.object ends absent) (record {
        filling = record {
          sound = after;
          counted = ground (
            arith,
            up,
            f.counted,
            live-set t.entries i e width,
            ends.open_slot,
            key.ne_zero,
            key.ne_nil,
          );
          none_buried = ground (
            arith,
            f.none_buried,
            buried-set t.entries i e width,
            ends.open_slot,
            key.ne_nil,
            ruby.nil_pos,
          );
          no_tombstones = f.no_tombstones;
          roomy = omega (arith, up, f.roomy);
          bounded = f.bounded;
        };
        capacity = refl;
        count = up;
        reads =
            λ q k. ground (arith, view-write f.sound i l e after q k, ends.open_slot, k.ne_zero);
        copied = λ q z n. ground (arith, copies-set q t.entries i e width);
      })
