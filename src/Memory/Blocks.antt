-- ===== src/Memory/Blocks.antt =====
-- The blocks of an object table and of a capture: what table.c and capture.c allocate and free.
use mathlib.Core.Option
use memory_tracker.Base.{
  ℕ, Bool, true, false, not, ◌||◌, Option, none, some, List, [], ◌∷◌, ◌==◌, if◌then◌else◌,
}
use memory_tracker.Value.{Value, Ruby}
use memory_tracker.Table
use memory_tracker.Table.{Table, overloaded}
use memory_tracker.Table.Gc
use memory_tracker.Table.Gc.{any_moved}
use memory_tracker.Table.Store.{store}
use memory_tracker.Memory.{Cmd, Allocator, ◌>>=◌, ◌>>◌, pure, crash, malloc, free}

-- A table with the block of its struct and that of its entries.
pub record Owned : Type 0 where
  pub table : Table
  pub base : ℕ
  pub entries : ℕ

-- A capture with the blocks of its struct and of its st_table, 0 for NULL, and its object table.
pub record CaptureBlocks : Type 0 where
  pub capture : ℕ
  pub tracked : ℕ
  pub states : Option Owned

-- Memory_Profiler_Object_Table_free
unfoldable pub table_free : Option Owned → Cmd (Unit {0})
table_free none = pure tt
table_free (some o) = do free o.entries; free o.base

-- Memory_Profiler_Capture_free
unfoldable pub capture_free : CaptureBlocks → Cmd (Unit {0})
unfolding table_free
capture_free b = do
  if b.tracked == 0 then pure tt else free b.tracked
  table_free b.states
  free b.capture

-- What may happen to a table before it is freed.
pub data Call : Type 0 where
  inserts : (object klass datum : Value) → Call
  deletes : (object : Value) → Call
  compacts : (location : Value → Value) → Call
  clears : Call

module _ ⦃ruby : Ruby⦄ (answer : Allocator) where
  unfoldable pub new_entries : ℕ → ℕ → Option ℕ → Cmd (Option Owned)
  new_entries initial base none = do free base; pure none
  new_entries initial base (some entries) = pure (
      Option.map (λ (t : Table). record { table = t; base = base; entries = entries })
        (Table.new true true initial))

  unfoldable pub new_table : ℕ → Option ℕ → Cmd (Option Owned)
  unfolding new_entries
  new_table initial none = pure none
  new_table initial (some base) = do entries ← malloc answer; new_entries initial base entries

  -- Memory_Profiler_Object_Table_new
  unfoldable pub table_new : ℕ → Cmd (Option Owned)
  unfolding new_table
  table_new initial = do base ← malloc answer; new_table initial base

  unfoldable pub resized : Owned → Option ℕ → Cmd (Bool × Owned)
  resized o none = pure (false, o)
  resized o (some entries) = do free o.entries; pure (true, record o { entries = entries })

  -- The blocks that resize_table handles, with the answer of its calloc.
  unfoldable pub resize : Owned → Cmd (Bool × Owned)
  unfolding resized
  resize o = do entries ← malloc answer; resized o entries

  -- Memory_Profiler_Object_Table_insert, with the writes of its caller.
  unfoldable pub insert : Owned → Value → Value → Value → Cmd Owned
  unfolding resize
  insert o object klass datum =
      if not (overloaded o.table)
      then pure (record o { table = store true o.table object klass datum })
      else (do
        (fits, o') ← resize o
        pure (record o' { table = store fits o.table object klass datum }))

  -- The table after a compaction; `none` is undefined behaviour in it.
  unfoldable pub replaced : Owned → Option Table → Cmd Owned
  replaced o none = crash
  replaced o (some t) = pure (record o { table = t })

  unfoldable pub moved : (Value → Value) → Owned → Option ℕ → Cmd Owned
  unfolding replaced
  moved location o none = pure o
  moved location o (some temp) = do
    o' ← replaced o (Gc.compact location true o.table)
    free temp
    pure o'

  -- Memory_Profiler_Object_Table_compact
  unfoldable pub compact : (Value → Value) → Owned → Cmd Owned
  unfolding moved replaced
  compact location o =
      if (o.table.count == 0) || not (any_moved location o.table.entries)
      then replaced o (Gc.compact location true o.table)
      else (do temp ← malloc answer; moved location o temp)

  -- The part of Memory_Profiler_Capture_clear that replaces the table.
  unfoldable pub renew : Option Owned → Cmd (Option Owned)
  unfolding table_free table_new
  renew none = pure none
  renew (some o) = do table_free (some o); table_new 1024

  -- One call; the insertion into a table that is NULL dereferences it.
  unfoldable pub perform : Call → Option Owned → Cmd (Option Owned)
  unfolding insert compact renew
  perform (inserts object klass datum) none = crash
  perform (inserts object klass datum) (some o) = do
    o' ← insert o object klass datum
    pure (some o')
  perform (deletes object) none = crash
  perform (deletes object) (some o) = pure (some (record o { table = Table.delete o.table object }))
  perform (compacts location) none = pure none
  perform (compacts location) (some o) = do o' ← compact location o; pure (some o')
  perform clears s = renew s

  unfoldable pub perform_all : List Call → Option Owned → Cmd (Option Owned)
  unfolding perform
  perform_all [] s = pure s
  perform_all (c ∷ cs) s = do s' ← perform c s; perform_all cs s'

  -- What the failure of the table's allocation leaves: the st_table is freed, and its pointer stays.
  unfoldable pub alloc_states : ℕ → ℕ → Option Owned → Cmd (Bool × CaptureBlocks)
  alloc_states capture tracked none = do
    free tracked
    pure (false, record { capture = capture; tracked = tracked; states = none })
  alloc_states capture tracked (some o) =
      pure (true, record { capture = capture; tracked = tracked; states = some o })

  unfoldable pub alloc_tracked : ℕ → Option ℕ → Cmd (Bool × CaptureBlocks)
  unfolding alloc_states
  alloc_tracked capture none =
      pure (false, record { capture = capture; tracked = 0; states = none })
  alloc_tracked capture (some tracked) = do
    states ← table_new 1024
    alloc_states capture tracked states

  -- Memory_Profiler_Capture_alloc, from the struct on that Ruby has allocated: whether it returns
  -- or raises, and the blocks of the object.
  unfoldable pub capture_alloc : ℕ → Cmd (Bool × CaptureBlocks)
  unfolding alloc_tracked
  capture_alloc capture = do tracked ← malloc answer; alloc_tracked capture tracked
