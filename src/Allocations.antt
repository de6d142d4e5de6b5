-- ===== src/Allocations.antt =====
-- ext/memory/profiler/allocations.h and allocations.c: the counters of one class.
use memory_tracker.Base.{ℕ, ◌-◌, List, [], ◌∷◌, ltb, if◌then◌else◌}
use memory_tracker.Value.{Value, Ruby}

pub record Allocations : Type 0 where
  pub callback : Value
  pub new_count : ℕ
  pub free_count : ℕ

-- Allocations#retained_count
unfoldable pub retained_count : Allocations → ℕ
retained_count r = if ltb r.new_count r.free_count then 0 else r.new_count - r.free_count

-- Allocations#track; without a block the callback is Qnil.
unfoldable pub track : Allocations → Value → Allocations
track r callback = record r { callback = callback }

unfoldable pub mark : Allocations → List Value
mark r = r.callback ∷ []

unfoldable pub compact : (Value → Value) → Allocations → Allocations
compact location r = record r { callback = location r.callback }

module _ ⦃ruby : Ruby⦄ where
  unfoldable pub clear : Allocations → Allocations
  clear r = record { callback = ruby.nil; new_count = 0; free_count = 0 }

  unfoldable pub allocate : Allocations
  allocate = record { callback = ruby.nil; new_count = 0; free_count = 0 }
