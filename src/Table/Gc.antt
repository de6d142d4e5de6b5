-- ===== src/Table/Gc.antt =====
-- The table's part in garbage collection: mark and compact of table.c. `location` is
-- rb_gc_location, which answers where a compaction has put an object.
use mathlib.Core.Option
use memory_tracker.Base.{
  ℕ, zero, suc, ◌/◌, Bool, false, not, ◌&&◌, ◌||◌, Option, none, some, List, [], ◌∷◌, ◌++◌, map,
  ◌==◌, if◌then◌else◌, mul64, replicate,
}
use memory_tracker.Value.{Value, Ruby}
use memory_tracker.Table.{Entry, Table, empty_entry, is_live, reinsert}

-- `if (value) rb_gc_mark_movable(value)`, as the list of what is marked.
unfoldable pub mark_value : Value → List Value
mark_value v = if v == 0 then [] else v ∷ []

-- sizeof(struct Memory_Profiler_Object_Table_Entry): three 64-bit words.
abbrev pub entry_size : ℕ
entry_size = 24

-- `malloc(table->count * sizeof(...))` gives space for this many entries.
unfoldable pub temp_room : Table → ℕ
temp_room t = mul64 t.count entry_size / entry_size

module _ ⦃ruby : Ruby⦄ where
  unfoldable pub mark_entries : List Entry → List Value
  unfolding mark_value
  mark_entries [] = []
  mark_entries (e ∷ es) =
      (if is_live e then mark_value e.klass ++ mark_value e.datum else []) ++ mark_entries es

  -- The values that the table asks to be marked, in order; `none` is a NULL table.
  unfoldable pub mark : Option Table → List Value
  unfolding mark_entries
  mark none = []
  mark (some t) = mark_entries t.entries

  module _ (location : Value → Value) where
    -- The first pass.
    unfoldable pub any_moved : List Entry → Bool
    any_moved [] = false
    any_moved (e ∷ es) = (is_live e && not (location e.object == e.object)) || any_moved es

    -- The class and the state of an entry brought up to date.
    abbrev pub update_values : Entry → Entry
    update_values e =
        if is_live e then record e { klass = location e.klass; datum = location e.datum } else e

    abbrev pub relocate : Entry → Entry
    relocate e = record {
      object = location e.object;
      klass = location e.klass;
      datum = location e.datum;
    }

    -- The copies of the live entries. `room` is how many more temp_entries has space for, and
    -- `none` is a write past its end.
    unfoldable pub collect : ℕ → List Entry → Option (List Entry)
    collect room [] = some []
    collect zero (e ∷ es) = if is_live e then none else collect zero es
    collect (suc room) (e ∷ es) =
        let taken = Option.map (λ temp. relocate e ∷ temp) (collect room es) in
        let skipped = collect (suc room) es in if is_live e then taken else skipped

    -- `none` is undefined behaviour; `fits` is what malloc answers.
    unfoldable pub compact : Bool → Table → Option Table
    unfolding any_moved collect temp_room mul64
    compact fits t =
        if t.count == 0
        then some t
        else if not (any_moved t.entries)
        then some (record t { entries = map update_values t.entries })
        else if not fits
        then some t
        else Option.map
            (λ temp.
              reinsert temp (record t {
                count = 0;
                tombstones = 0;
                entries = replicate t.capacity empty_entry;
              }))
            (collect (temp_room t) t.entries)
