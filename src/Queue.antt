-- ===== src/Queue.antt =====
-- ext/memory/profiler/queue.h: a growing array whose elements stand in it directly. A pointer to an
-- element is its index; a cell that has never been written is `none`. What realloc answers is an
-- argument, as is the size of an element, in bytes.
pub mod Doubling
pub mod Contents
pub mod Push
pub mod Pending
use memory_tracker.Base.{
  ℕ, zero, suc, ◌+◌, ◌-◌, ◌*◌, ◌/◌, Bool, true, false, Option, none, some, List, [], ◌∷◌, ◌++◌, ltb,
  leb, ◌==◌, if◌then◌else◌, size_mod, inc, mul64, get_or, set, replicate, not,
}

abbrev pub default_count : ℕ
default_count = 128

abbrev pub size_max : ℕ
size_max = size_mod - 1

pub record Queue {ℓ} (A : Type ℓ) : Type ℓ where
  pub base : List (Option A)
  pub capacity : ℕ
  pub count : ℕ
  pub element_size : ℕ

-- What resize returns: -1, 0 or 1.
pub data Outcome : Type 0 where
  failed unchanged resized : Outcome

-- The doubling loop, on fuel: the capacity it ends with, or that it would overflow.
pub data Growth : Type 0 where
  out_of_fuel overflows : Growth
  grown : ℕ → Growth

unfoldable pub grow : ℕ → (element_size required capacity : ℕ) → Growth
unfolding mul64
grow zero size required capacity = if ltb capacity required then out_of_fuel else grown capacity
grow (suc fuel) size required capacity =
    let rest = grow fuel size required (mul64 capacity 2) in
    if ltb capacity required
    then (if ltb (size_max / mul64 2 size) capacity then overflows else rest)
    else grown capacity

module _ {ℓ} {A : Type ℓ} where
  unfoldable pub initialize : ℕ → Queue A
  initialize element_size = record {
    base = [];
    capacity = 0;
    count = 0;
    element_size = element_size;
  }

  unfoldable pub free : Queue A → Queue A
  free q = record q { base = []; capacity = 0; count = 0 }

  -- realloc keeps the old cells and adds new ones.
  pub extend : Queue A → ℕ → Queue A
  extend q capacity = record q {
    base = q.base ++ replicate (capacity - q.capacity) none;
    capacity = capacity;
  }

  -- The part of resize after the loop.
  finish : Bool → Queue A → Growth → Outcome × Queue A
  unfolding extend
  finish fits q out_of_fuel = (failed, q)
  finish fits q overflows = (failed, q)
  finish fits q (grown capacity) =
      if ltb (size_max / q.element_size) capacity
      then (failed, q)
      else if not fits
      then (failed, q)
      else (resized, extend q capacity)

  unfoldable pub resize : Bool → Queue A → ℕ → Outcome × Queue A
  unfolding finish
  resize fits q required =
      if leb required q.capacity
      then (unchanged, q)
      else finish fits q (
          grow required q.element_size required
            (if q.capacity == 0 then default_count else q.capacity))

  -- The element at the index returned is for the caller to write.
  take_slot : Outcome × Queue A → Option (ℕ × Queue A)
  take_slot (failed, q) = none
  take_slot (unchanged, q) = some (q.count, record q { count = inc q.count })
  take_slot (resized, q) = some (q.count, record q { count = inc q.count })

  unfoldable pub push : Bool → Queue A → Option (ℕ × Queue A)
  unfolding take_slot
  push fits q =
      take_slot
        (if ltb q.capacity (inc q.count) then resize fits q (inc q.count) else (unchanged, q))

  unfoldable pub clear : Queue A → Queue A
  clear q = record q { count = 0 }

  -- `none` is a failed assertion.
  unfoldable pub at : Queue A → ℕ → Option (Option A)
  at q index = if ltb index q.count then some (get_or q.base index none) else none

  -- A write through the pointer to an element.
  unfoldable pub write : Queue A → ℕ → A → Queue A
  write q index x = record q { base = set q.base index (some x) }
