-- ===== src/Capture/Balance.antt =====
-- The account of a capture: the frees counted and the objects in its table are never more than the
-- allocations counted.
pub mod Steps
pub mod Parts
pub mod Newobj
pub mod Freeobj
pub mod Runs
pub mod Bounds
use memory_tracker.Base.{ℕ, ◌+◌, ◌≤◌, ◌≡◌, ◌⊎◌, some, if◌then◌else◌, ◌==◌}
use memory_tracker.Value.{Value, Ruby}
use memory_tracker.Assoc.{Assoc, lookup}
use memory_tracker.Table.{Table}
use memory_tracker.Table.Valid.{IsValid}
use memory_tracker.World.{Capture}

-- Something is set aside for one capture only.
abbrev pub only : Value → ℕ → Value → ℕ
only self n x = if self == x then n else 0

module _ ⦃ruby : Ruby⦄ where
  -- `reserve` frees, and `room` slots, are set aside for what is under way. `left` allocations may
  -- follow before the table might pass MAX_PROBE_LENGTH slots.
  pub record Account (reserve room left : ℕ) (c : Capture) : Type 0 where
    pub table : Table
    pub holds : c.states ≡ some table
    pub valid : IsValid table
    pub sized :
        (table.capacity ≡ 1024)
        ⊎ (table.capacity ≡ 2048)
        ⊎ (table.capacity ≡ 4096)
        ⊎ (table.capacity ≡ 8192)
    pub balance : c.free_count + table.count + reserve ≤ c.new_count
    pub used : table.count + table.tombstones + room ≤ c.new_count
    pub budget : c.new_count + left ≤ 4096

  -- The accounts of all captures.
  abbrev pub Accounts : Value → ℕ → ℕ → ℕ → Assoc Capture → Type 0
  Accounts self reserve room left captures =
      (x : Value) (c : Capture)
      → lookup x captures ≡ some c
      → Account (only self reserve x) (only self room x) left c
