-- ===== src/Memory/TwoBlocks.antt =====
-- The blocks at two addresses of which each may be NULL.
use memory_tracker.Base.{
  ℕ, ◌≡◌, ◌≢◌, refl, arith, Bool, true, false, not, ◌&&◌, ◌||◌, Option, none, some, ◌==◌,
}
use memory_tracker.Memory.{Heap, mark, grant}
use memory_tracker.Memory.Queues.{vacated, regrant}

-- Whether a block is the one at `a`, which may be NULL.
abbrev pub at_block : ℕ → ℕ → Bool
at_block a p = not (a == 0) && (a == p)

-- The blocks are those at `a` and `b`, where these are not NULL, and those of `base` besides.
pub record HoldsTwo (base : ℕ → Bool) (a b : ℕ) (h : Heap) : Type 0 where
  pub a_new : a ≢ 0 → base a ≡ false
  pub b_new : b ≢ 0 → base b ≡ false
  pub apart : a ≢ 0 → a ≢ b
  pub live : (p : ℕ) → h.live p ≡ (at_block a p || at_block b p || base p)

pub HoldsTwo-swap :
    {base : ℕ → Bool} {a b : ℕ} {h : Heap} → HoldsTwo base a b h → HoldsTwo base b a h
HoldsTwo-swap k = record {
  a_new = k.b_new;
  b_new = k.a_new;
  apart = ground (arith, k.apart);
  live = λ p. ground (arith, k.live p);
}

-- The block of a queue after realloc has answered.
abbrev pub or_base : ℕ → Option ℕ → ℕ
or_base a none = a
or_base a (some q) = q

module _ (base : ℕ → Bool) where
  -- What realloc and malloc leave when they grant a block.
  regrant-HoldsTwo :
      (a b q : ℕ) (h : Heap)
      → a ≢ 0
      → HoldsTwo base a b h
      → q ≢ 0
      → vacated a h q ≡ false
      → HoldsTwo base q b (regrant a (some q) h)
  regrant-HoldsTwo a b q h m k n v = record {
    a_new = λ _. ground (arith, k.live q, k.a_new);
    b_new = k.b_new;
    apart = λ _. ground (arith, k.live q, k.live b, k.apart);
    live = λ p. ground (arith, k.live p, k.live q, k.apart, k.a_new);
  }

  grant-HoldsTwo :
      (b q : ℕ) (h : Heap)
      → HoldsTwo base 0 b h
      → q ≢ 0
      → h.live q ≡ false
      → HoldsTwo base q b (grant (some q) h)
  grant-HoldsTwo b q h k n v = record {
    a_new = λ _. ground (arith, k.live q);
    b_new = k.b_new;
    apart = λ _. ground (arith, k.live q, k.live b);
    live = λ p. ground (arith, k.live p, k.live q);
  }

  pub free-HoldsTwo :
      (a b : ℕ) (h : Heap) → a ≢ 0 → HoldsTwo base a b h → HoldsTwo base 0 b (mark a false h)
  free-HoldsTwo a b h n k = record {
    a_new = λ m. absurd (m refl);
    b_new = k.b_new;
    apart = λ m. absurd (m refl);
    live = λ p. ground (arith, k.live p, k.a_new, k.apart);
  }

  pub live_block : (a b : ℕ) (h : Heap) → a ≢ 0 → HoldsTwo base a b h → h.live a ≡ true
  live_block a b h n k = ground (arith, k.live a)

  refused-HoldsTwo : (a b : ℕ) (h : Heap) → HoldsTwo base a b h → HoldsTwo base a b (grant none h)
  refused-HoldsTwo a b h k = record {
    a_new = k.a_new;
    b_new = k.b_new;
    apart = k.apart;
    live = k.live;
  }

  pub malloc-HoldsTwo :
      (b : ℕ) (o : Option ℕ) (h : Heap)
      → HoldsTwo base 0 b h
      → ((q : ℕ) → o ≡ some q → (h.live q ≡ false) × (q ≢ 0))
      → HoldsTwo base (or_base 0 o) b (grant o h)
  malloc-HoldsTwo b none h k f = refused-HoldsTwo 0 b h k
  malloc-HoldsTwo b (some q) h k f = let (v, n) = f q refl in grant-HoldsTwo b q h k n v

  pub regranted-HoldsTwo :
      (a b : ℕ) (o : Option ℕ) (h : Heap)
      → a ≢ 0
      → HoldsTwo base a b h
      → ((q : ℕ) → o ≡ some q → (vacated a h q ≡ false) × (q ≢ 0))
      → HoldsTwo base (or_base a o) b (regrant a o h)
  regranted-HoldsTwo a b none h m k f = refused-HoldsTwo a b h k
  regranted-HoldsTwo a b (some q) h m k f =
      let (v, n) = f q refl in regrant-HoldsTwo a b q h m k n v
