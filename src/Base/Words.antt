-- ===== src/Base/Words.antt =====
-- The arithmetic of size_t, a 64-bit word: each operation wraps.
use Prim.Native.Nat.{ℕ, ◌+◌, ◌-◌, ◌*◌, ◌%◌, ◌^◌, ◌<◌}
use mathlib.Core.Path.{◌≡◌}
use native.Mathlib.Omega.{arith}

abbrev pub size_mod : ℕ
size_mod = 2 ^ 64

-- `n++`, `n--` and `a * b`
unfoldable pub inc : ℕ → ℕ
inc n = (n + 1) % size_mod

unfoldable pub dec : ℕ → ℕ
dec n = (n + size_mod - 1) % size_mod

unfoldable pub mul64 : ℕ → ℕ → ℕ
mul64 a b = a * b % size_mod

-- `n += 1` and `n -= 1` on the bit pattern of an int.
abbrev pub int_mod : ℕ
int_mod = 2 ^ 32

unfoldable pub inc32 : ℕ → ℕ
inc32 n = (n + 1) % int_mod

unfoldable pub dec32 : ℕ → ℕ
dec32 n = (n + int_mod - 1) % int_mod

pub dec32-inc32 : (n : ℕ) → n < int_mod → dec32 (inc32 n) ≡ n
unfolding dec32 inc32
dec32-inc32 n h = omega arith

pub inc_lem : (n : ℕ) → n + 1 < size_mod → inc n ≡ n + 1
unfolding inc
inc_lem n h = omega arith

pub dec_lem : (n : ℕ) → 0 < n → n < size_mod → dec n ≡ n - 1
unfolding dec
dec_lem n p h = omega arith

dec-inc : (n : ℕ) → n < size_mod → dec (inc n) ≡ n
unfolding dec inc
dec-inc n h = omega arith
