-- ===== src/World.antt =====
-- What the code of capture.c reads and changes: the captures and the counters as objects of the Ruby
-- heap, found by their VALUE, the event queue, and the event hooks registered with the virtual
-- machine. A step may also raise a Ruby exception,
-- crash (a NULL pointer, a failed assertion), or run out of the fuel given to it.
use memory_tracker.Base.{ℕ, Option, none, some, List}
use memory_tracker.Value.{Value}
use memory_tracker.Assoc.{Assoc, lookup, insert}
use memory_tracker.Allocations.{Allocations}
use memory_tracker.Events.{Events}
use memory_tracker.Table.{Table}

-- struct Memory_Profiler_Capture. `running` and `paused` are ints, as bit patterns; `states` is
-- `none` where the pointer is NULL.
pub record Capture : Type 0 where
  pub running : ℕ
  pub paused : ℕ
  pub tracked : Assoc Value
  pub states : Option Table
  pub new_count : ℕ
  pub free_count : ℕ

pub record World : Type 0 where
  pub captures : Assoc Capture
  pub records : Assoc Allocations
  pub events : Events
  pub hooks : List Value

pub data Step {ℓ} (A : Type ℓ) : Type ℓ where
  ok : A → World → Step A
  raised : World → Step A
  crashed out_of_fuel : Step A

abbrev pub M {ℓ} : Type ℓ → Type ℓ
M A = World → Step A

-- Both operators are open everywhere, so that a step computes where it stands.
infixl 5 ◌>>=◌ ◌>>◌
abbrev pub bind {ℓ κ} : {A : Type ℓ} {B : Type κ} → Step A → (A → M B) → Step B
bind (ok a w) f = f a w
bind (raised w) f = raised w
bind crashed f = crashed
bind out_of_fuel f = out_of_fuel

abbrev pub ◌>>=◌ {ℓ κ} : {A : Type ℓ} {B : Type κ} → M A → (A → M B) → M B
◌>>=◌ m f w = bind (m w) f

abbrev pub ◌>>◌ {ℓ} : {B : Type ℓ} → M (Unit {0}) → M B → M B
m >> k = m >>= λ _. k

abbrev pub pure {ℓ} : {A : Type ℓ} → A → M A
pure a w = ok a w

abbrev pub raise {ℓ} : {A : Type ℓ} → M A
raise w = raised w

abbrev pub crash {ℓ} : {A : Type ℓ} → M A
crash w = crashed

abbrev pub found {ℓ} : {A : Type ℓ} → Option A → M A
found none w = raised w
found (some a) w = ok a w

-- TypedData_Get_Struct: an object of another type raises.
abbrev pub get_capture : Value → M Capture
get_capture self w = found (lookup self w.captures) w

abbrev pub get_record : Value → M Allocations
get_record allocations w = found (lookup allocations w.records) w

-- Writes through the pointers that these return.
abbrev pub put_capture : Value → Capture → M (Unit {0})
put_capture self c w = ok tt (record w { captures = insert self c w.captures })

abbrev pub put_record : Value → Allocations → M (Unit {0})
put_record allocations r w = ok tt (record w { records = insert allocations r w.records })
