-- ===== src/Capture/Frame.antt =====
-- What the processing of an event leaves alone: a property of worlds that changes of a capture which
-- leave `running`, and changes of counters, cannot break, is kept by all of it if the callbacks
-- keep it.
pub mod Events
use memory_tracker.Base.{
  ℕ, ◌≡◌, refl, Bool, true, false, Option, none, some, if◌then◌else◌, ◌==◌, ◌||◌,
}
use memory_tracker.Value.{Value, Ruby}
use memory_tracker.Assoc.{lookup}
use memory_tracker.Allocations.{Allocations}
use memory_tracker.Table
use memory_tracker.Table.{Table, at, delete_entry}
use memory_tracker.Events.{Event, EventType, no_event, newobj, freeobj}
use memory_tracker.World.{
  Capture, World, Step, ok, raised, crashed, out_of_fuel, M, bind, ◌>>=◌, found, pure, get_capture,
  get_record, put_capture, put_record,
}
use memory_tracker.Capture.Process.{
  Chance, pause, resume, count_new, count_known, count_class, store_states, store_object,
  free_entry, free_states, count_freed, free_object, process_newobj, process_freeobj, process_event,
}
use memory_tracker.Capture.Steps.{with_capture, with_record}

-- `P` holds where a step ends, also by an exception; the step does not run out of fuel.
abbrev pub Ensures {ℓ} : {A : Type ℓ} → (World → Type 0) → Step A → Type 0
Ensures P (ok a w) = P w
Ensures P (raised w) = P w
Ensures P crashed = Unit {0}
Ensures P out_of_fuel = ⊥

-- A step keeps `P`.
pub record Keeps {ℓ} {A : Type ℓ} (P : World → Type 0) (m : M A) : Type ℓ where
  pub at : (w : World) → P w → Ensures P (m w)

-- What processing may do without a callback.
pub record Frame (P : World → Type 0) : Type 0 where
  pub capture :
      (w : World) (self : Value) (c c' : Capture)
      → lookup self w.captures ≡ some c
      → c'.running ≡ c.running
      → P w
      → P (with_capture self c' w)
  pub counters : (w : World) (a : Value) (r : Allocations) → P w → P (with_record a r w)

pub Ensures-found {ℓ} :
    {A : Type ℓ} (P : World → Type 0) (o : Option A) (w : World) → P w → Ensures P (found o w)
Ensures-found P none w p = p
Ensures-found P (some a) w p = p

-- A step that reads a capture first knows what it has read.
pub Ensures-found_bind {ℓ} :
    {B : Type ℓ} (P : World → Type 0) (o : Option Capture) (f : Capture → M B) (w : World)
    → P w
    → ((c : Capture) → o ≡ some c → Ensures P (f c w))
    → Ensures P (bind (found o w) f)
Ensures-found_bind P none f w p k = p
Ensures-found_bind P (some c) f w p k = k c refl

module _ {P : World → Type 0} where
  pub Ensures-bind {ℓ κ} :
      {A : Type ℓ} {B : Type κ} (s : Step A) (f : A → M B)
      → Ensures P s
      → ((a : A) (w : World) → P w → Ensures P (f a w))
      → Ensures P (bind s f)
  Ensures-bind (ok a w) f h k = k a w h
  Ensures-bind (raised w) f h k = h
  Ensures-bind crashed f h k = tt
  Ensures-bind out_of_fuel f h k = h

  pub Keeps-bind {ℓ κ} :
      {A : Type ℓ} {B : Type κ} (m : M A) (f : A → M B)
      → Keeps P m
      → ((a : A) → Keeps P (f a))
      → Keeps P (m >>= f)
  Keeps-bind m f h k = record {
    at = λ w p. Ensures-bind (m w) f (h.at w p) (λ a v q. (k a).at v q);
  }

  pub Keeps-pure {ℓ} : {A : Type ℓ} (a : A) → Keeps P (pure a)
  Keeps-pure a = record { at = λ w p. p }

  pub Keeps-if {ℓ} :
      {A : Type ℓ} (b : Bool) (m n : M A) → Keeps P m → Keeps P n → Keeps P (if b then m else n)
  Keeps-if true m n h k = h
  Keeps-if false m n h k = k

  pub Keeps-get_record : (a : Value) → Keeps P (get_record a)
  Keeps-get_record a = record { at = λ w p. Ensures-found P (lookup a w.records) w p }

  pub Keeps-got {ℓ} :
      {B : Type ℓ} (self : Value) (f : Capture → M B)
      → ((c : Capture) (w : World) → lookup self w.captures ≡ some c → P w → Ensures P (f c w))
      → Keeps P (get_capture self >>= f)
  Keeps-got self f k = record {
    at = λ w p. Ensures-found_bind P (lookup self w.captures) f w p (λ c e. k c w e p);
  }
