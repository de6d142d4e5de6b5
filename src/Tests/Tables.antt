-- ===== src/Tests/Tables.antt =====
-- The theorems on the object table, at small tables.
use mathlib.Core.Option
use memory_tracker.Base.{
  ◌↔◌, ◌⊎◌, ◌+◌, ◌*◌, ◌<◌, ◌≡◌, ◌≤◌, refl, inl, inr, true, false, some, none, arith, inc, dec,
  mul64, [], ◌∷◌,
}
use memory_tracker.Value.{Value}
use memory_tracker.Table.{
  Table, at, new, find_entry, find_loop, find_insert_slot, insert_loop, insert_at, fill,
  hash_object, max_probe_length, insert, resize_table, delete, lookup, overloaded,
}
use memory_tracker.Table.Slots.{view, update, copies, view-eq-none}
use memory_tracker.Table.Invariant.{IsKey}
use memory_tracker.Table.Valid.{IsValid, read, lookup-view}
use memory_tracker.Table.Insert.{one_if_new, kept}
use memory_tracker.Table.Delete.{one_if_held}
use memory_tracker.Table.Relocate.{Moves, both}
use memory_tracker.Table.History.{stores, deletes, run, run-meaning}
use memory_tracker.Table.Store.{store, Stores, store-Stores}
use memory_tracker.Table.Laws.{view-insert, view-resize_table, view-delete, view-compact}
use memory_tracker.Table.Load.{insert-load}
use memory_tracker.Table.Gc.{mark, compact, any_moved}
use memory_tracker.Table.Mark.{marks, mark-held}
use memory_tracker.Table.Faults.{compact-insert_failed}
use memory_tracker.Tests.Samples.{
  qnil, string-IsKey, array-IsKey, one_string, one_string-IsValid, view-one_string, one_string-fits,
}

-- An object freed and its address used again.
run-meaning_example :
    (t : Table) × (new true true 1024 ≡ some t)
    × (let r = run (stores 8 16 24 ∷ deletes 8 ∷ stores 32 16 40 ∷ stores 8 16 48 ∷ []) t in
        read r (lookup r 8) ≡ some (16, 48))
run-meaning_example =
    run-meaning (stores 8 16 24 ∷ deletes 8 ∷ stores 32 16 40 ∷ stores 8 16 48 ∷ []) 8
      (string-IsKey, (string-IsKey, (array-IsKey, (string-IsKey, tt)))) string-IsKey (omega arith)

-- Every object moves up by 64 bytes.
abbrev shifted : Value → Value
shifted x = x + 64

shifted-Moves : Moves shifted one_string.entries
shifted-Moves = record {
  lands = λ o key held. record { ne_zero = omega arith; ne_nil = omega arith };
  apart = λ a b k l m n e. omega arith;
}

string_held : 0 < copies 8 one_string.entries
string_held = ground (arith, view-one_string, view-eq-none 8 one_string.entries)

moved-IsKey : IsKey 72
moved-IsKey = record { ne_zero = omega arith; ne_nil = omega arith }

view-compact_example :
    (r : Table) × (compact shifted true one_string ≡ some r)
    × IsValid r
    × (r.count ≡ one_string.count)
    × ((view r.entries 72 ≡ some (80, 88)) ↔ (
        (o : Value) × IsKey o
        × (shifted o ≡ 72)
        × (Option.map (both shifted) (view one_string.entries o) ≡ some (80, 88))))
view-compact_example =
    view-compact one_string one_string-IsValid shifted shifted-Moves 72 (80, 88) moved-IsKey

insert-load_example :
    2 * ((insert true one_string 32).0.count + (insert true one_string 32).0.tombstones)
    ≤ (insert true one_string 32).0.capacity + 2
insert-load_example = insert-load one_string 32 one_string-IsValid array-IsKey (inr one_string-fits)

view-insert_example :
    let r = insert true one_string 32 in
    IsValid r.0
    × (r.1 < r.0.capacity)
    × ((at r.0.entries r.1).object ≡ 32)
    × (r.0.count ≡ one_string.count + one_if_new (view one_string.entries 32))
    × (view r.0.entries 8
        ≡ update (view one_string.entries) 32 (some (kept (view one_string.entries 32))) 8)
view-insert_example =
    view-insert one_string one_string-IsValid 32 8 array-IsKey string-IsKey (inr one_string-fits)

view-resize_table_example :
    let r = resize_table true one_string in
    IsValid r
    × (r.capacity ≡ one_string.capacity * 2)
    × (r.count ≡ one_string.count)
    × (r.tombstones ≡ 0)
    × (view r.entries 8 ≡ view one_string.entries 8)
view-resize_table_example =
    view-resize_table one_string one_string-IsValid 8 string-IsKey one_string-fits

view-delete_example :
    let r = delete one_string 8 in
    IsValid r
    × (one_string.count ≡ r.count + one_if_held (view one_string.entries 8))
    × (r.count + r.tombstones ≡ one_string.count + one_string.tombstones)
    × (view r.entries 8 ≡ none)
view-delete_example = view-delete one_string one_string-IsValid 8 8 string-IsKey string-IsKey

lookup-view_example : read one_string (lookup one_string 8) ≡ view one_string.entries 8
lookup-view_example = lookup-view one_string-IsValid 8 string-IsKey

mark-held_example : (0 < marks 24 (mark (some one_string))) ↔ (
    (o klass datum : Value) × IsKey o
    × (view one_string.entries o ≡ some (klass, datum))
    × ((24 ≡ klass) ⊎ (24 ≡ datum)))
mark-held_example = mark-held one_string 24 one_string-IsValid (omega arith)

-- Three objects in four slots.
abbrev two_objects : Table
two_objects = store true one_string 32 16 40

abbrev three_objects : Table
three_objects = store true two_objects 40 16 48

-- What these tables compute to.
sample_runs :
    (lookup one_string 8 ≡ some 3)
    × (overloaded two_objects ≡ false)
    × (overloaded three_objects ≡ true)
    × (three_objects.count ≡ 3)
    × (view three_objects.entries 48 ≡ none)
    × (any_moved shifted (insert false three_objects 48).0.entries ≡ true)
unfolding view any_moved overloaded store insert resize_table max_probe_length hash_object
    find_insert_slot insert_loop insert_at fill inc dec mul64 lookup find_entry find_loop
sample_runs = (refl, refl, refl, refl, refl, refl)

two_objects-Stores : Stores 32 (16, 40) one_string two_objects
two_objects-Stores =
    store-Stores one_string 32 16 40 one_string-IsValid array-IsKey (inr one_string-fits)

hash-IsKey : IsKey 40
hash-IsKey = record { ne_zero = omega arith; ne_nil = omega arith }

three_objects-Stores : Stores 40 (16, 48) two_objects three_objects
three_objects-Stores =
    store-Stores two_objects 40 16 48 two_objects-Stores.valid hash-IsKey (inl sample_runs.1)

symbol-IsKey : IsKey 48
symbol-IsKey = record { ne_zero = omega arith; ne_nil = omega arith }

compact-insert_failed_example : compact shifted true (insert false three_objects 48).0 ≡ none
compact-insert_failed_example =
    compact-insert_failed three_objects 48 three_objects-Stores.valid symbol-IsKey sample_runs.2
      sample_runs.4 shifted (omega (arith, sample_runs.3)) sample_runs.5
