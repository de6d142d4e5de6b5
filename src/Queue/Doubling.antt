-- ===== src/Queue/Doubling.antt =====
-- The doubling loop of Memory_Profiler_Queue_resize, and resize.
use memory_tracker.Base.{
  ℕ, zero, suc, ◌+◌, ◌*◌, ◌/◌, ◌%◌, ◌≤◌, ◌<◌, ◌≡◌, refl, ◌≢◌, ◌⊎◌, inl, arith, size_mod, mul64,
  dec_lt,
}
use memory_tracker.Queue.{out_of_fuel, grown, grow, size_max}

double_fits : (n d : ℕ) → 2 ≤ d → n ≤ size_max / d → n * 2 < size_mod
double_fits n d p q = grind arith

-- The doubling loop, for elements of a size that can be doubled and from a capacity that is not
-- zero, ends within as many rounds as the cells that are wanted beyond that capacity.
pub grow-ne_out_of_fuel :
    (fuel size required capacity : ℕ)
    → 0 < size
    → size * 2 < size_mod
    → 0 < capacity
    → required ≤ capacity + fuel
    → grow fuel size required capacity ≢ out_of_fuel
unfolding grow mul64
grow-ne_out_of_fuel zero size required capacity p s c f = ground arith
grow-ne_out_of_fuel (suc fuel) size required capacity p s c f =
    elim (dec_lt (size_max / (2 * size % size_mod)) capacity) [
      | yes o ↦ ground arith
      | no u ↦
          let twice : capacity * 2 < size_mod =
            double_fits capacity (2 * size % size_mod) (omega arith) (omega arith) in
          let same : capacity * 2 % size_mod ≡ capacity * 2 = omega arith in
          ground (
            arith,
            same,
            grow-ne_out_of_fuel fuel size required (capacity * 2 % size_mod) p s (omega arith)
                (omega arith),
          )
    ]

-- What the loop ends with holds what is required.
pub grow-enough :
    (fuel size required capacity n : ℕ) → grow fuel size required capacity ≡ grown n → required ≤ n
unfolding grow
grow-enough zero size required capacity n h = ground arith
grow-enough (suc fuel) size required capacity n h =
    ground (arith, grow-enough fuel size required (mul64 capacity 2) n)

-- It does not overflow while twice the required elements fit into the address space.
pub grow-grown :
    (fuel size required capacity : ℕ)
    → 0 < size
    → size * 2 < size_mod
    → 0 < capacity
    → required ≤ capacity + fuel
    → required ≤ size_max / (2 * size)
    → (n : ℕ) × (grow fuel size required capacity ≡ grown n)
      × (capacity ≤ n)
      × ((n ≡ capacity) ⊎ (n < required * 2))
unfolding grow mul64
grow-grown zero size required capacity p s c f l = (capacity, ground arith, omega arith, inl refl)
grow-grown (suc fuel) size required capacity p s c f l = elim (dec_lt capacity required) [
  | no m ↦ (capacity, ground arith, omega arith, inl refl)
  | yes m ↦
      let twice : capacity * 2 < size_mod =
        double_fits capacity (2 * size) (omega arith) (omega arith) in
      let same : capacity * 2 % size_mod ≡ capacity * 2 = omega arith in
      let plain : 2 * size % size_mod ≡ 2 * size = omega arith in
      let (n, e, u, b) =
        grow-grown fuel size required (capacity * 2 % size_mod) p s (omega arith) (omega arith) l in
      (n, rw plain (ground arith), omega arith, ground arith)
]
