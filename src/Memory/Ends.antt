-- ===== src/Memory/Ends.antt =====
-- Runs of commands on the heap: how they end, and the answers of an allocator.
use memory_tracker.Base.{ℕ, ◌≡◌, ◌≢◌, refl, true, false, Option, none, some, ne→==}
use memory_tracker.Memory.{
  Heap, Run, ok, bad_free, undefined, Cmd, and_then, Allocator, IsFresh, mark, free,
}

-- The command ends where `P` holds, unless something undefined happens; no free is bad.
abbrev pub Ends {ℓ} : {A : Type ℓ} → (A → Heap → Type 0) → Run A → Type 0
Ends P (ok a h) = P a h
Ends P bad_free = ⊥
Ends P (undefined h) = Unit {0}

pub Ends-bind {ℓ κ} :
    {A : Type ℓ} {B : Type κ} (P : A → Heap → Type 0) (Q : B → Heap → Type 0) (s : Run A)
    (f : A → Cmd B)
    → Ends P s
    → ((a : A) (h : Heap) → P a h → Ends Q (f a h))
    → Ends Q (and_then s f)
Ends-bind P Q (ok a h) f e k = k a h e
Ends-bind P Q bad_free f e k = elim e [ ]
Ends-bind P Q (undefined h) f e k = tt

pub free-live : (p : ℕ) (h : Heap) → p ≢ 0 → h.live p ≡ true → free p h ≡ ok tt (mark p false h)
unfolding free
free-live p h n l = rw (ne→== p 0 n) (rw l refl)

pub free-dead : (p : ℕ) (h : Heap) → p ≢ 0 → h.live p ≡ false → free p h ≡ bad_free
unfolding free
free-dead p h n l = rw (ne→== p 0 n) (rw l refl)

-- What malloc may answer.
abbrev pub IsNew : Option ℕ → Heap → Type 0
IsNew none h = Unit {0}
IsNew (some p) h = (h.live p ≡ false) × (p ≢ 0)

IsNew-answer :
    (o : Option ℕ) (h : Heap) → ((p : ℕ) → o ≡ some p → (h.live p ≡ false) × (p ≢ 0)) → IsNew o h
IsNew-answer none h k = tt
IsNew-answer (some p) h k = k p refl

pub IsFresh-IsNew :
    (answer : Allocator) (h : Heap) → IsFresh answer → IsNew (answer h.asked h.live) h
IsFresh-IsNew answer h fresh =
    IsNew-answer (answer h.asked h.live) h (λ p e. fresh h.asked h.live p e)
