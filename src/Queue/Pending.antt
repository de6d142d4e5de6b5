-- ===== src/Queue/Pending.antt =====
-- The elements of a queue from an index on, one by one.
use memory_tracker.Base.{
  ℕ, zero, suc, ◌+◌, ◌≤◌, ◌<◌, ◌≡◌, ap, ◌∙◌, arith, Option, none, some, List, [], ◌∷◌, map, get_or,
  take, length, get_or-set_ne,
}
use memory_tracker.Queue.{Queue, write}
use memory_tracker.Queue.Contents.{contents, IsValid}

module _ {A : Type 0} where
  abbrev pub Pending : Queue A → ℕ → List A → Type 0
  Pending q i [] = q.count ≡ i
  Pending q i (x ∷ xs) = (i < q.count) × (get_or q.base i none ≡ some x) × Pending q (suc i) xs

  at_index : (cells : List (Option A)) (i j : ℕ) → i ≡ j → get_or cells i none ≡ get_or cells j none
  at_index cells i j e = ap (λ (k : ℕ). get_or cells k none) e

  cons_head : (x y : Option A) (xs ys : List (Option A)) → x ∷ xs ≡ y ∷ ys → x ≡ y
  cons_head x y xs ys h = cc

  cons_tail : (x y : Option A) (xs ys : List (Option A)) → x ∷ xs ≡ y ∷ ys → xs ≡ ys
  cons_tail x y xs ys h = cc

  Pending-from :
      (n : ℕ) (cells : List (Option A)) (xs : List A) (i : ℕ) (q : Queue A)
      → ((j : ℕ) → get_or q.base (i + j) none ≡ get_or cells j none)
      → take n cells ≡ map some xs
      → n ≤ length cells
      → q.count ≡ i + n
      → Pending q i xs
  Pending-from zero cells [] i q g h l c = omega arith
  Pending-from zero cells (x ∷ xs) i q g h l c = cc
  Pending-from (suc n) [] xs i q g h l c = elim l [ ]
  Pending-from (suc n) (y ∷ cells) [] i q g h l c = cc
  Pending-from (suc n) (y ∷ cells) (x ∷ xs) i q g h l c = (
    omega arith,
    at_index q.base i (i + 0) (omega arith) ∙ g 0 ∙ cons_head y (some x) _ _ h,
    Pending-from n cells xs (suc i) q
        (λ j. at_index q.base (suc i + j) (i + suc j) (omega arith) ∙ g (suc j))
        (cons_tail y (some x) _ _ h) (omega arith) (omega arith),
  )

  -- A valid queue waits with its contents.
  pub contents-Pending :
      {q : Queue A} → IsValid q → (xs : List A) → contents q ≡ map some xs → Pending q 0 xs
  unfolding contents
  contents-Pending {q} v xs h =
      Pending-from q.count q.base xs 0 q (λ j. at_index q.base (0 + j) j (omega arith)) h
        (omega (arith, v.width, v.within)) (omega arith)

  -- A write below the index is not seen from it on.
  pub Pending-write :
      (q : Queue A) (k i : ℕ) (x : A) (xs : List A)
      → k < i
      → Pending q i xs
      → Pending (write q k x) i xs
  unfolding write
  Pending-write q k i x [] l p = p
  Pending-write q k i x (y ∷ xs) l (m, g, p) = (
    m,
    get_or-set_ne q.base k i (some x) none (omega arith) ∙ g,
    Pending-write q k (suc i) x xs (omega arith) p,
  )
