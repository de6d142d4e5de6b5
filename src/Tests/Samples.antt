-- ===== src/Tests/Samples.antt =====
-- Small tables to apply the theorems to. Qnil is 4, as in Ruby with flonum.
use memory_tracker.Base.{◌≡◌, inr, true, some, arith, replicate, ◌*◌, ◌≤◌, ◌<◌}
use memory_tracker.Value.{Ruby}
use memory_tracker.Table.{Table, empty_entry, max_probe_length}
use memory_tracker.Table.Slots.{view}
use memory_tracker.Table.Invariant.{IsKey}
use memory_tracker.Table.Valid.{IsValid, replicate-IsValid}
use memory_tracker.Table.Store.{store, Stores, store-Stores}

abbrev four-positive : 0 < 4
four-positive = omega arith

instance abbrev pub qnil : Ruby
qnil = record { nil = 4; nil_pos = four-positive }

pub string-IsKey : IsKey 8
string-IsKey = record { ne_zero = omega arith; ne_nil = omega arith }

pub array-IsKey : IsKey 32
array-IsKey = record { ne_zero = omega arith; ne_nil = omega arith }

-- Four slots, all empty.
abbrev small_table : Table
small_table = record { capacity = 4; count = 0; tombstones = 0; entries = replicate 4 empty_entry }

small_table-IsValid : IsValid small_table
unfolding max_probe_length
small_table-IsValid = replicate-IsValid 4 (omega arith) (omega arith)

small_table-fits : 4 * 2 ≤ max_probe_length
unfolding max_probe_length
small_table-fits = omega arith

-- The object at 8, of the class at 16, with the state at 24.
abbrev pub one_string : Table
one_string = store true small_table 8 16 24

pub one_string-Stores : Stores 8 (16, 24) small_table one_string
one_string-Stores =
    store-Stores small_table 8 16 24 small_table-IsValid string-IsKey (inr small_table-fits)

pub one_string-IsValid : IsValid one_string
one_string-IsValid = one_string-Stores.valid

pub view-one_string : view one_string.entries 8 ≡ some (16, 24)
view-one_string = one_string-Stores.reads 8 string-IsKey

pub one_string-fits : one_string.capacity * 2 ≤ max_probe_length
unfolding max_probe_length
one_string-fits = ground (arith, one_string-Stores.capacity)
