-- ===== src/Table.antt =====
-- ext/memory/profiler/table.h and table.c: the open-addressing table from objects to their class
-- and state. `entries` is the calloc'd array; a pointer to an entry is its index. An allocation's
-- outcome is an argument. The messages on stderr are left out: they change no state.
pub mod Search
pub mod InsertSearch
pub mod Slots
pub mod Invariant
pub mod Find
pub mod Write
pub mod Valid
pub mod Delete
pub mod Rehash
pub mod Reinsert
pub mod Resize
pub mod Insert
pub mod Store
pub mod Load
pub mod History
pub mod Gc
pub mod Relocate
pub mod Compact
pub mod Laws
pub mod Mark
pub mod Faults
pub mod Overflow
use memory_tracker.Base.{
  ℕ, zero, suc, ◌+◌, ◌*◌, ◌/◌, ◌%◌, ◌^◌, Bool, true, false, not, ◌&&◌, ◌||◌, Option, none, some,
  List, [], ◌∷◌, bit_xor, ltb, leb, ◌==◌, if◌then◌else◌, size_mod, inc, dec, mul64, get_or, set,
  replicate,
}
use memory_tracker.Value.{Value, Ruby}

pub record Entry : Type 0 where
  pub object : Value
  pub klass : Value
  pub datum : Value

pub record Table : Type 0 where
  pub capacity : ℕ
  pub count : ℕ
  pub tombstones : ℕ
  pub entries : List Entry

abbrev pub initial_capacity : ℕ
initial_capacity = 1024

-- A constant that proofs keep shut.
unfoldable pub max_probe_length : ℕ
max_probe_length = 10000

-- calloc: every slot is empty.
abbrev pub empty_entry : Entry
empty_entry = record { object = 0; klass = 0; datum = 0 }

abbrev pub at : List Entry → ℕ → Entry
at es i = get_or es i empty_entry

-- `none` stands for NULL; `struct_fits` and `array_fits` are what malloc and calloc answer.
unfoldable pub new : (struct_fits array_fits : Bool) → ℕ → Option Table
new struct_fits array_fits initial =
    if not struct_fits
    then none
    else let capacity = if ltb 0 initial then initial else initial_capacity in
      if not array_fits
      then none
      else some (record {
        capacity = capacity;
        count = 0;
        tombstones = 0;
        entries = replicate capacity empty_entry;
      })

xor_shift : ℕ → ℕ → ℕ
xor_shift hash k = bit_xor hash (hash / 2 ^ k)

unfoldable pub hash_object : Value → ℕ → ℕ
unfolding xor_shift mul64
hash_object object capacity =
    let h₀ = mul64 (object / 2 ^ 3) 2654435761 in
    let h₁ = mul64 (xor_shift h₀ 16) 0x85ebca6b in
    let h₂ = mul64 (xor_shift h₁ 13) 0xc2b2ae35 in xor_shift h₂ 16 % capacity

-- The slot that a search ends at, and `*found`.
pub record Slot : Type 0 where
  pub index : ℕ
  pub found : Bool

-- The caller writes the other fields through the pointer that insert returns.
unfoldable pub fill : Table → ℕ → Value → Value → Table
fill t index klass datum = record t {
  entries = set t.entries index (record (at t.entries index) { klass = klass; datum = datum });
}

unfoldable pub size : Table → ℕ
size t = t.count

module _ ⦃ruby : Ruby⦄ where
  -- A slot that holds an object: neither empty nor a TOMBSTONE, which is Qnil.
  abbrev pub is_live : Entry → Bool
  is_live e = not (e.object == 0) && not (e.object == ruby.nil)

  abbrev pub is_tombstone : Entry → Bool
  is_tombstone e = e.object == ruby.nil

  -- The loop of find_entry. The first argument counts down what is left of MAX_PROBE_LENGTH:
  -- `probe_count > MAX_PROBE_LENGTH` is reached when nothing is left.
  unfoldable pub find_loop : ℕ → List Entry → ℕ → Value → ℕ → ℕ → Slot
  find_loop zero es capacity object start index = record { index = index; found = false }
  find_loop (suc left) es capacity object start index =
      let next = (index + 1) % capacity in
      let rest = find_loop left es capacity object start next in
      if (at es index).object == 0
      then record { index = index; found = false }
      else if not ((at es index).object == ruby.nil) && ((at es index).object == object)
      then record { index = index; found = true }
      else if next == start
      then record { index = next; found = false }
      else rest

  unfoldable pub find_entry : List Entry → ℕ → Value → Slot
  find_entry es capacity object =
      let index = hash_object object capacity in
      find_loop max_probe_length es capacity object index index

  -- `first_tombstone`, or the index if it is still SIZE_MAX (`none`).
  abbrev pub or_index : Option ℕ → ℕ → ℕ
  or_index none index = index
  or_index (some tombstone) index = tombstone

  -- The loop of find_insert_slot.
  unfoldable pub insert_loop : ℕ → List Entry → ℕ → Value → ℕ → Option ℕ → ℕ → Slot
  insert_loop zero es capacity object start first index = record {
    index = or_index first index;
    found = false;
  }
  insert_loop (suc left) es capacity object start first index =
      let next = (index + 1) % capacity in
      let deleted = (at es index).object == ruby.nil in
      let first' = if deleted then some (or_index first index) else first in
      let rest = insert_loop left es capacity object start first' next in
      if (at es index).object == 0
      then record { index = or_index first index; found = false }
      else if not deleted && ((at es index).object == object)
      then record { index = index; found = true }
      else if next == start
      then record { index = or_index first' next; found = false }
      else rest

  unfoldable pub find_insert_slot : Table → Value → Slot
  find_insert_slot t object =
      let index = hash_object object t.capacity in
      insert_loop max_probe_length t.entries t.capacity object index none index

  -- What both rehashing loops do with an entry: it is written where find_entry ends.
  unfoldable pub place : Entry → Table → Table
  place e t =
      let slot = find_entry t.entries t.capacity e.object in
      record t { count = inc t.count; entries = set t.entries slot.index e }

  -- The loop of resize_table over the old entries.
  unfoldable pub rehash : List Entry → Table → Table
  rehash [] t = t
  rehash (e ∷ old) t = rehash old (if is_live e then place e t else t)

  -- The loop of compact that writes the collected entries back.
  unfoldable pub reinsert : List Entry → Table → Table
  reinsert [] t = t
  reinsert (e ∷ es) t = reinsert es (place e t)

  -- When calloc fails, `count` and `tombstones` stay at zero.
  unfoldable pub resize_table : Bool → Table → Table
  resize_table fits t =
      let capacity = mul64 t.capacity 2 in
      if fits
      then rehash t.entries (record {
        capacity = capacity;
        count = 0;
        tombstones = 0;
        entries = replicate capacity empty_entry;
      })
      else record t { count = 0; tombstones = 0 }

  -- `(double) (count + tombstones) / capacity > 0.5`, exact below 2 ^ 52 slots.
  unfoldable pub overloaded : Table → Bool
  overloaded t = ltb t.capacity (2 * ((t.count + t.tombstones) % size_mod))

  -- The part of insert after the resize.
  unfoldable pub insert_at : Table → Value → Slot → Table × ℕ
  insert_at t object slot =
      let e = at t.entries slot.index in
      if not slot.found
      then (
        record t {
          tombstones = if e.object == ruby.nil then dec t.tombstones else t.tombstones;
          count = inc t.count;
          entries = set t.entries slot.index (record { object = object; klass = 0; datum = 0 });
        },
        slot.index,
      )
      else (
        record t { entries = set t.entries slot.index (record e { object = object }) },
        slot.index,
      )

  unfoldable pub insert : Bool → Table → Value → Table × ℕ
  insert fits t object =
      let t' = if overloaded t then resize_table fits t else t in
      insert_at t' object (find_insert_slot t' object)

  unfoldable pub lookup : Table → Value → Option ℕ
  lookup t object =
      let slot = find_entry t.entries t.capacity object in
      if slot.found then some slot.index else none

  -- What delete and delete_entry write.
  bury : Table → ℕ → Table
  bury t index = record t {
    count = dec t.count;
    tombstones = inc t.tombstones;
    entries = set t.entries index (record { object = ruby.nil; klass = 0; datum = 0 });
  }

  unfoldable pub delete : Table → Value → Table
  unfolding bury
  delete t object =
      let slot = find_entry t.entries t.capacity object in
      if not slot.found then t else bury t slot.index

  -- The index of the entry pointer is the argument; one out of range is not an entry.
  unfoldable pub delete_entry : Table → ℕ → Table
  unfolding bury
  delete_entry t index =
      if leb t.capacity index
      then t
      else if ((at t.entries index).object == 0) || ((at t.entries index).object == ruby.nil)
      then t
      else bury t index
