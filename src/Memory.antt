-- ===== src/Memory.antt =====
-- malloc, calloc and free of the C library: which blocks are allocated.
pub mod Blocks
pub mod Ends
pub mod Owns
pub mod Refusals
pub mod Granted
pub mod Leaks
pub mod Queues
pub mod TwoBlocks
pub mod Returned
pub mod Moved
use memory_tracker.Base.{
  ℕ, suc, ◌≡◌, ◌≢◌, Bool, true, false, Option, none, some, ◌==◌, if◌then◌else◌,
}

-- `live` are the blocks, `asked` is how often one was asked for, and `refused` whether one of these
-- requests was refused.
pub record Heap : Type 0 where
  pub live : ℕ → Bool
  pub asked : ℕ
  pub refused : Bool

-- `bad_free` is a free of what is no block. `undefined` is any other undefined behaviour.
pub data Run {ℓ} (A : Type ℓ) : Type ℓ where
  ok : A → Heap → Run A
  bad_free : Run A
  undefined : Heap → Run A

abbrev pub Cmd {ℓ} : Type ℓ → Type ℓ
Cmd A = Heap → Run A

infixl 5 ◌>>=◌ ◌>>◌
abbrev pub and_then {ℓ κ} : {A : Type ℓ} {B : Type κ} → Run A → (A → Cmd B) → Run B
and_then (ok a h) f = f a h
and_then bad_free f = bad_free
and_then (undefined h) f = undefined h

abbrev pub ◌>>=◌ {ℓ κ} : {A : Type ℓ} {B : Type κ} → Cmd A → (A → Cmd B) → Cmd B
◌>>=◌ m f h = and_then (m h) f

abbrev pub ◌>>◌ {ℓ} : {B : Type ℓ} → Cmd (Unit {0}) → Cmd B → Cmd B
m >> k = m >>= λ _. k

abbrev pub pure {ℓ} : {A : Type ℓ} → A → Cmd A
pure a h = ok a h

abbrev pub crash {ℓ} : {A : Type ℓ} → Cmd A
crash h = undefined h

abbrev pub mark : ℕ → Bool → Heap → Heap
mark p b h = record h { live = λ q. if p == q then b else h.live q }

-- What an allocator answers, by the number of the request and the blocks.
abbrev pub Allocator : Type 0
Allocator = ℕ → (ℕ → Bool) → Option ℕ

-- A new block is not NULL and overlaps none.
abbrev pub IsFresh : Allocator → Type 0
IsFresh answer =
    (n : ℕ) (live : ℕ → Bool) (p : ℕ) → answer n live ≡ some p → (live p ≡ false) × (p ≢ 0)

abbrev pub grant : Option ℕ → Heap → Heap
grant none h = record h { asked = suc h.asked; refused = true }
grant (some p) h = mark p true (record h { asked = suc h.asked })

-- malloc, and calloc, whose zeros are part of the data.
unfoldable pub malloc : Allocator → Cmd (Option ℕ)
malloc answer h = ok (answer h.asked h.live) (grant (answer h.asked h.live) h)

unfoldable pub free : ℕ → Cmd (Unit {0})
free p h = if p == 0 then ok tt h else if h.live p then ok tt (mark p false h) else bad_free
