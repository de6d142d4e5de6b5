-- ===== src/Base/Lists.antt =====
-- Lists measured and indexed by native numbers, under the library's names.
use Prim.Native.Nat.{ℕ, zero, suc, ◌+◌, ◌<◌}
use mathlib.Core.Path.{◌≡◌, refl, ap}
use mathlib.Core.Logic.{◌≢◌, inl, inr}
use mathlib.Core.Bool.{Bool, true, false}
use mathlib.Core.List.{List, [], ◌∷◌, ◌++◌}
use native.Mathlib.Omega.{arith}
use memory_tracker.Base.Tests.{if◌then◌else◌, Bool-cases}

module _ {ℓ} {A : Type ℓ} where
  abbrev pub length : List A → ℕ
  length [] = 0
  length (x ∷ xs) = suc (length xs)

  abbrev pub get_or : List A → ℕ → A → A
  get_or [] i d = d
  get_or (x ∷ xs) zero d = x
  get_or (x ∷ xs) (suc i) d = get_or xs i d

  -- A write out of bounds changes nothing.
  abbrev pub set : List A → ℕ → A → List A
  set [] i v = []
  set (x ∷ xs) zero v = v ∷ xs
  set (x ∷ xs) (suc i) v = x ∷ set xs i v

  abbrev pub replicate : ℕ → A → List A
  replicate zero a = []
  replicate (suc n) a = a ∷ replicate n a

  abbrev pub take : ℕ → List A → List A
  take zero xs = []
  take (suc n) [] = []
  take (suc n) (x ∷ xs) = x ∷ take n xs

  -- How many elements pass a test, and those that do.
  abbrev pub tally : (A → Bool) → List A → ℕ
  tally p [] = 0
  tally p (x ∷ xs) = (if p x then 1 else 0) + tally p xs

  abbrev pub keep : (A → Bool) → List A → List A
  keep p [] = []
  keep p (x ∷ xs) = let rest = keep p xs in if p x then x ∷ rest else rest

module _ {ℓ} {A : Type ℓ} where
  pub length-append : (xs ys : List A) → length (xs ++ ys) ≡ length xs + length ys
  length-append [] ys = omega arith
  length-append (x ∷ xs) ys = omega (arith, length-append xs ys)

  pub length-set : (xs : List A) (i : ℕ) (v : A) → length (set xs i v) ≡ length xs
  length-set [] i v = refl
  length-set (x ∷ xs) zero v = refl
  length-set (x ∷ xs) (suc i) v = ap suc (length-set xs i v)

  pub length-replicate : (n : ℕ) (a : A) → length (replicate n a) ≡ n
  length-replicate zero a = refl
  length-replicate (suc n) a = ap suc (length-replicate n a)

  pub get_or-replicate : (n i : ℕ) (a : A) → get_or (replicate n a) i a ≡ a
  get_or-replicate zero i a = refl
  get_or-replicate (suc n) zero a = refl
  get_or-replicate (suc n) (suc i) a = get_or-replicate n i a

  pub get_or-set_self :
      (xs : List A) (i : ℕ) (v d : A) → i < length xs → get_or (set xs i v) i d ≡ v
  get_or-set_self [] i v d h = elim h [ ]
  get_or-set_self (x ∷ xs) zero v d h = refl
  get_or-set_self (x ∷ xs) (suc i) v d h = get_or-set_self xs i v d (omega arith)

  pub get_or-set_ne :
      (xs : List A) (i j : ℕ) (v d : A) → i ≢ j → get_or (set xs i v) j d ≡ get_or xs j d
  get_or-set_ne [] i j v d h = refl
  get_or-set_ne (x ∷ xs) zero zero v d h = absurd (h refl)
  get_or-set_ne (x ∷ xs) zero (suc j) v d h = refl
  get_or-set_ne (x ∷ xs) (suc i) zero v d h = refl
  get_or-set_ne (x ∷ xs) (suc i) (suc j) v d h = get_or-set_ne xs i j v d (λ e. h (ap suc e))

  pub tally-set :
      (p : A → Bool) (xs : List A) (i : ℕ) (v d : A)
      → i < length xs
      → tally p (set xs i v) + (if p (get_or xs i d) then 1 else 0)
        ≡ tally p xs + (if p v then 1 else 0)
  tally-set p [] i v d h = elim h [ ]
  tally-set p (x ∷ xs) zero v d h = omega arith
  tally-set p (x ∷ xs) (suc i) v d h = omega (arith, tally-set p xs i v d (omega arith))

  pub tally-replicate : (p : A → Bool) (n : ℕ) (a : A) → p a ≡ false → tally p (replicate n a) ≡ 0
  tally-replicate p zero a h = refl
  tally-replicate p (suc n) a h = rw h (omega (arith, tally-replicate p n a h))

  pub tally-append : (p : A → Bool) (xs ys : List A) → tally p (xs ++ ys) ≡ tally p xs + tally p ys
  tally-append p [] ys = omega arith
  tally-append p (x ∷ xs) ys = omega (arith, tally-append p xs ys)

  pub length-keep : (p : A → Bool) (xs : List A) → length (keep p xs) ≡ tally p xs
  length-keep p [] = refl
  length-keep p (x ∷ xs) = ground (arith, length-keep p xs)

  pub get_or-tally :
      (p : A → Bool) (xs : List A) (i : ℕ) (d : A)
      → i < length xs
      → p (get_or xs i d) ≡ true
      → 0 < tally p xs
  get_or-tally p [] i d h e = elim h [ ]
  get_or-tally p (x ∷ xs) zero d h e = ground arith
  get_or-tally p (x ∷ xs) (suc i) d h e = omega (arith, get_or-tally p xs i d (omega arith) e)

  -- Two places that pass a test make two.
  pub get_or-tally_two :
      (p : A → Bool) (xs : List A) (i j : ℕ) (d : A)
      → i < j
      → j < length xs
      → p (get_or xs i d) ≡ true
      → p (get_or xs j d) ≡ true
      → 1 < tally p xs
  get_or-tally_two p [] i j d l h e f = elim h [ ]
  get_or-tally_two p (x ∷ xs) i zero d l h e f = elim l [ ]
  get_or-tally_two p (x ∷ xs) zero (suc j) d l h e f =
      ground (arith, get_or-tally p xs j d (omega arith) f)
  get_or-tally_two p (x ∷ xs) (suc i) (suc j) d l h e f =
      omega (arith, get_or-tally_two p xs i j d (omega arith) (omega arith) e f)

  -- An element that passes a test stands somewhere.
  pub tally-get_or :
      (p : A → Bool) (xs : List A) (d : A)
      → 0 < tally p xs
      → (i : ℕ) × (i < length xs) × (p (get_or xs i d) ≡ true)
  tally-get_or p [] d h = elim h [ ]
  tally-get_or p (x ∷ xs) d h = elim (Bool-cases (p x)) [
    | inl e ↦ (0, omega arith, e)
    | inr e ↦
        let smaller : 0 < tally p xs = ground arith in
        let (i, l, t) = tally-get_or p xs d smaller in (suc i, omega arith, t)
  ]
