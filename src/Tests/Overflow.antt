-- ===== src/Tests/Overflow.antt =====
-- A table of 32768 slots whose first 11300 hold one object each.
use memory_tracker.Base.{
  ℕ, zero, suc, ◌+◌, ◌*◌, ◌≤◌, ◌<◌, ◌≡◌, refl, ap, ◌∙◌, true, false, List, ◌∷◌, arith, length, inc,
  replicate, length-replicate,
}
use memory_tracker.Table.{
  Entry, Table, at, is_live, empty_entry, max_probe_length, hash_object, overloaded, insert,
}
use memory_tracker.Table.Search.{pos-within}
use memory_tracker.Table.Slots.{live}
use memory_tracker.Table.Invariant.{walk}
use memory_tracker.Table.Overflow.{IsCluster, insert-overwrites}
use memory_tracker.Tests.Samples.{qnil}

abbrev held_entry : ℕ → Entry
held_entry k = record { object = 8 * k; klass = 16; datum = 24 }

-- The objects of `n` slots, from the number `k` on, and the slots after them.
crowd : ℕ → ℕ → List Entry → List Entry
crowd zero k rest = rest
crowd (suc n) k rest = held_entry k ∷ crowd n (suc k) rest

at-crowd :
    (n k : ℕ) (rest : List Entry) (i : ℕ) → i < n → at (crowd n k rest) i ≡ held_entry (k + i)
unfolding crowd
at-crowd zero k rest i l = absurd (omega arith)
at-crowd (suc n) k rest zero l = ap held_entry (omega arith)
at-crowd (suc n) k rest (suc i) l =
    at-crowd n (suc k) rest i (omega arith) ∙ ap held_entry (omega arith)

length-crowd : (n k : ℕ) (rest : List Entry) → length (crowd n k rest) ≡ n + length rest
unfolding crowd
length-crowd zero k rest = omega arith
length-crowd (suc n) k rest = omega (arith, length-crowd n (suc k) rest)

crowded_table : Table
crowded_table = record {
  capacity = 32768;
  count = 11300;
  tombstones = 0;
  entries = crowd 11300 10 (replicate 21468 empty_entry);
}

hash_72 : hash_object 72 32768 ≡ 1276
unfolding hash_object
hash_72 = refl

-- The search for the object at 72 starts within them.
slot_72 : (e : ℕ) → e ≤ max_probe_length → walk 32768 72 e ≡ 1276 + e
unfolding max_probe_length
slot_72 e l = rw hash_72 (pos-within 32768 1276 e (omega arith))

entry_72 :
    (e : ℕ)
    → e ≤ max_probe_length
    → at crowded_table.entries (walk 32768 72 e) ≡ held_entry (10 + (1276 + e))
unfolding crowded_table max_probe_length
entry_72 e l =
    rw (slot_72 e l) (at-crowd 11300 10 (replicate 21468 empty_entry) (1276 + e) (omega arith))

crowded_table-IsCluster : IsCluster crowded_table 72
unfolding crowded_table max_probe_length
crowded_table-IsCluster = record {
  taken = λ e _ l. rw (entry_72 e (omega arith)) (omega arith, omega arith);
  kept = λ e l. rw (entry_72 e (omega arith)) (omega arith);
  wide = omega arith;
}

held_72 :
    is_live (at crowded_table.entries (walk crowded_table.capacity 72 max_probe_length)) ≡ true
unfolding crowded_table
held_72 = rw (entry_72 max_probe_length (omega arith)) (ground arith)

crowded_width : length crowded_table.entries ≡ crowded_table.capacity
unfolding crowded_table
crowded_width =
    omega (
      arith,
      length-crowd 11300 10 (replicate 21468 empty_entry),
      length-replicate 21468 empty_entry,
    )

crowded_light : overloaded crowded_table ≡ false
unfolding crowded_table overloaded
crowded_light = refl

insert-overwrites_example :
    ((insert true crowded_table 72).1 ≡ walk crowded_table.capacity 72 max_probe_length)
    × ((at
          (insert true crowded_table 72).0.entries
          (walk crowded_table.capacity 72 max_probe_length)).object
        ≡ 72)
    × (live (insert true crowded_table 72).0.entries ≡ live crowded_table.entries)
    × ((insert true crowded_table 72).0.count ≡ inc crowded_table.count)
insert-overwrites_example =
    insert-overwrites true crowded_table 72 crowded_table-IsCluster crowded_width crowded_light
      held_72 (omega arith) (omega arith)
