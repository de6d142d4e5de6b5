-- ===== src/Capture/Each.antt =====
-- capture.c: each_object with a block. The block is Ruby code: it may change the world, raise, and
-- turn garbage collection on and off. `break` in it is an exit like an exception.
pub mod Collecting
pub mod Order
use memory_tracker.Base.{
  ℕ, zero, suc, ◌+◌, Bool, true, false, Option, none, some, if◌then◌else◌, ◌==◌, not, ltb, ◌&&◌,
}
use memory_tracker.Value.{Value, Ruby}
use memory_tracker.Assoc.{Assoc, lookup}
use memory_tracker.Events.{EventType}
use memory_tracker.Table.{Table, Entry, at}
use memory_tracker.World.{Capture, World, Step, ok, raised, crashed, out_of_fuel, M, get_capture}
use memory_tracker.Capture.Process.{Chance}
use memory_tracker.Capture.Dispatch.{process_all}
use memory_tracker.Capture.Query.{or_nil}

-- The world, and whether Ruby collects garbage: rb_gc_disable and rb_gc_enable set it.
pub record Vm : Type 0 where
  pub world : World
  pub collects : Bool

pub data Exit {ℓ} (A : Type ℓ) : Type ℓ where
  returns : A → Vm → Exit A
  unwinds : Vm → Exit A
  crashes spent : Exit A

abbrev pub Code {ℓ} : Type ℓ → Type ℓ
Code A = Vm → Exit A

infixl 5 ◌>>=◌ ◌>>◌
abbrev pub after {ℓ κ} : {A : Type ℓ} {B : Type κ} → Exit A → (A → Code B) → Exit B
after (returns a v) f = f a v
after (unwinds v) f = unwinds v
after crashes f = crashes
after spent f = spent

abbrev pub ◌>>=◌ {ℓ κ} : {A : Type ℓ} {B : Type κ} → Code A → (A → Code B) → Code B
◌>>=◌ m f v = after (m v) f

abbrev pub ◌>>◌ {ℓ} : {B : Type ℓ} → Code (Unit {0}) → Code B → Code B
m >> k = m >>= λ _. k

abbrev pub pure {ℓ} : {A : Type ℓ} → A → Code A
pure a v = returns a v

-- A step of the extension, which leaves garbage collection as it is.
abbrev pub exit_of {ℓ} : {A : Type ℓ} → Bool → Step A → Exit A
exit_of b (ok a w) = returns a (record { world = w; collects = b })
exit_of b (raised w) = unwinds (record { world = w; collects = b })
exit_of b crashed = crashes
exit_of b out_of_fuel = spent

abbrev lift {ℓ} : {A : Type ℓ} → M A → Code A
lift m v = exit_of v.collects (m v.world)

abbrev set_collects : Bool → Code (Unit {0})
set_collects b v = returns tt (record v { collects = b })

-- rb_ensure: the second step follows when the first returns, and when it unwinds.
abbrev pub ensure_exit {ℓ} : {A : Type ℓ} → Exit A → Code (Unit {0}) → Exit A
ensure_exit (returns a v) e = after (e v) (λ _. pure a)
ensure_exit (unwinds v) e = after (e v) (λ _. unwinds)
ensure_exit crashes e = crashes
ensure_exit spent e = spent

abbrev pub ensure {ℓ} : {A : Type ℓ} → Code A → Code (Unit {0}) → Code A
ensure m e v = ensure_exit (m v) e

-- A read through the pointer to the capture, which stays while self does.
abbrev pub held {ℓ} : {A : Type ℓ} → Option A → Code A
held none v = crashes
held (some a) v = returns a v

abbrev read_capture : Value → Code Capture
read_capture self v = held (lookup self v.world.captures) v

-- Memory_Profiler_Capture_each_object_ensure
unfoldable pub each_object_ensure : Code (Unit {0})
each_object_ensure = set_collects true

module _ ⦃ruby : Ruby⦄ (block : Value → Value → Code (Unit {0})) where
  -- One round of the loop of each_object_body. `filter` is Qnil for all objects.
  unfoldable pub yield_entry : Assoc Value → Value → Entry → Code (Unit {0})
  yield_entry tracked filter e =
      let allocations = or_nil (lookup e.klass tracked) in
      if e.object == 0
      then pure tt
      else if not (filter == ruby.nil) && not (allocations == filter)
      then pure tt
      else block e.object allocations

  -- The rounds from an index on, on fuel. `capture->states` is read anew in each round, and so is
  -- its capacity.
  unfoldable pub each_slot : ℕ → Value → Value → ℕ → Code (Unit {0})
  unfolding yield_entry
  each_slot zero self filter index v = spent
  each_slot (suc rounds) self filter index v = elim (lookup self v.world.captures) [
    | none ↦ crashes
    | some c ↦ elim c.states [
      | none ↦ crashes
      | some t ↦ elim (ltb index t.capacity) [
        | true ↦
            after (yield_entry c.tracked filter (at t.entries index) v)
              (λ _. each_slot rounds self filter (index + 1))
        | false ↦ returns tt v
      ]
    ]
  ]

  unfoldable pub each_states : ℕ → Value → Value → Option Table → Code Value
  unfolding each_slot
  each_states rounds self filter none = pure self
  each_states rounds self filter (some t) = do each_slot rounds self filter 0; pure self

  unfoldable pub each_object_body : ℕ → Value → Value → Code Value
  unfolding each_states
  each_object_body rounds self filter = do
    c ← read_capture self
    each_states rounds self filter c.states

  -- What each_object does once it has looked up the class.
  unfoldable pub each_known : ℕ → Value → Option Value → Code Value
  unfolding each_object_ensure each_object_body
  each_known rounds self none = do each_object_ensure; pure self
  each_known rounds self (some allocations) =
      ensure (each_object_body rounds self allocations) each_object_ensure

  unfoldable pub each_selected : ℕ → Value → Value → Code Value
  unfolding each_known
  each_selected rounds self klass =
      if klass == ruby.nil
      then ensure (each_object_body rounds self ruby.nil) each_object_ensure
      else (do c ← read_capture self; each_known rounds self (lookup klass c.tracked))

  -- Memory_Profiler_Capture_each_object, with a block.
  unfoldable pub each_object_with :
      (Value → Value → EventType → Value → M Value)
      → (ℕ → Chance)
      → (made : Bool) → (fuel rounds : ℕ) → Value
      → Value
      → Code Value
  unfolding each_selected
  each_object_with call chance made fuel rounds self klass = do
    _ ← lift (get_capture self)
    set_collects false
    lift (process_all call chance made fuel)
    each_selected rounds self klass
