-- ===== src/Table/Delete.antt =====
-- Deletion, by object and by entry.
use memory_tracker.Base.{
  Option, ℕ, ◌+◌, ◌<◌, ◌≡◌, refl, inl, inr, arith, none, some, size_mod, length, inc_lem, dec_lem,
  set,
}
use memory_tracker.Value.{Value, Ruby}
use memory_tracker.Table.{Entry, Table, at, delete, delete_entry, bury, lookup}
use memory_tracker.Table.Slots.{live, buried, view, live-set, buried-set, update}
use memory_tracker.Table.Invariant.{IsKey}
use memory_tracker.Table.Find.{find_entry-absent}
use memory_tracker.Table.Write.{Sound-bury, view-write}
use memory_tracker.Table.Valid.{IsValid, IsValid-Ends, find-cases, max_probe_length-lt}

module _ ⦃ruby : Ruby⦄ where
  abbrev pub tombstone : Entry
  tombstone = record { object = ruby.nil; klass = 0; datum = 0 }

  abbrev pub one_if_held : Option (Value × Value) → ℕ
  one_if_held none = 0
  one_if_held (some x) = 1

  -- What a deletion of `o` does to a valid table.
  pub record Deletes (o : Value) (t r : Table) : Type 0 where
    pub valid : IsValid r
    pub reads : (q : Value) → IsKey q → view r.entries q ≡ update (view t.entries) o none q
    pub capacity : r.capacity ≡ t.capacity
    pub held : t.count ≡ r.count + one_if_held (view t.entries o)
    pub total : r.count + r.tombstones ≡ t.count + t.tombstones

  module _ {t : Table} (v : IsValid t) (o : Value) (key : IsKey o) where
    bury-Deletes :
        (i : ℕ)
        → i < t.capacity
        → (at t.entries i).object ≡ o
        → view t.entries o ≡ some ((at t.entries i).klass, (at t.entries i).datum)
        → Deletes o t (bury t i)
    unfolding bury
    bury-Deletes i l h found =
        let width : i < length t.entries = rw v.sound.width l in
        let after = Sound-bury v.sound i l tombstone refl in
        let lives = live-set t.entries i tombstone width in
        let dead = buried-set t.entries i tombstone width in
        let less : live (set t.entries i tombstone) + 1 ≡ t.count =
          ground (arith, lives, v.counted, key.ne_zero, key.ne_nil) in
        let more : buried (set t.entries i tombstone) ≡ t.tombstones + 1 =
          ground (arith, dead, v.deleted, key.ne_zero, key.ne_nil) in
        let fits : t.capacity < size_mod = omega (arith, v.bounded, max_probe_length-lt) in
        let down = dec_lem t.count (omega arith) (omega (arith, v.roomy)) in
        let up = inc_lem t.tombstones (omega (arith, v.roomy)) in
        record {
          valid = record {
            sound = after;
            counted = omega arith;
            deleted = omega arith;
            roomy = omega (arith, v.roomy);
            wide = v.wide;
            bounded = v.bounded;
          };
          reads = λ q k. ground (arith, view-write v.sound i l tombstone after q k, k.ne_nil);
          capacity = refl;
          held = ground arith;
          total = omega arith;
        }

    -- Deleting an object that the table lacks changes nothing.
    delete-absent : view t.entries o ≡ none → delete t o ≡ t
    unfolding delete
    delete-absent e = elim (find-cases v o key) [
      | inl (_, absent) ↦ rw (find_entry-absent v.sound o (IsValid-Ends v o) absent)
      | inr (i, _, _, f, _) ↦ cc
    ]

    -- delete takes the object out of the map and nothing else.
    pub delete-Deletes : Deletes o t (delete t o)
    unfolding delete
    delete-Deletes = elim (find-cases v o key) [
      | inl (e, absent) ↦ rw (find_entry-absent v.sound o (IsValid-Ends v o) absent) (record {
        valid = v;
        reads = λ q k. ground arith;
        capacity = refl;
        held = ground arith;
        total = refl;
      })
      | inr (i, l, h, e, f) ↦ rw f (bury-Deletes i l h e)
    ]

    -- On a valid table, delete_entry at the entry that lookup returned for an object does what
    -- delete does with the object.
    pub delete_entry-lookup : (i : ℕ) → lookup t o ≡ some i → delete_entry t i ≡ delete t o
    unfolding delete_entry delete lookup
    delete_entry-lookup i e = elim (find-cases v o key) [
      | inl (_, absent) ↦ ground (arith, find_entry-absent v.sound o (IsValid-Ends v o) absent)
      | inr (j, l, h, _, f) ↦
          let same : j ≡ i = ground arith in rw f (ground (arith, key.ne_zero, key.ne_nil))
    ]
