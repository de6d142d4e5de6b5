-- ===== src/Queue/Contents.antt =====
-- The queue as the list of its elements, oldest first.
use memory_tracker.Base.{
  ℕ, zero, suc, ◌+◌, ◌-◌, ◌*◌, ◌/◌, ◌≤◌, ◌<◌, ◌≡◌, refl, ap, ◌≢◌, ◌⊎◌, inl, inr, Bool, arith,
  Option, none, Bool-cases, size_mod, length, length-append, length-replicate, replicate, List, [],
  ◌∷◌, ◌++◌, dec_lt, take, set, dec_le, lt→ltb, ge→ltb, le→leb, gt→leb,
}
use memory_tracker.Queue.{
  Queue, Growth, out_of_fuel, overflows, grown, size_max, Outcome, failed, unchanged, resized,
  resize, extend, finish, initialize,
}
use memory_tracker.Queue.Doubling.{grow-enough}

take-append_le {ℓ} :
    {A : Type ℓ} (n : ℕ) (xs ys : List A) → n ≤ length xs → take n (xs ++ ys) ≡ take n xs
take-append_le zero xs ys h = refl
take-append_le (suc n) [] ys h = elim h [ ]
take-append_le (suc n) (x ∷ xs) ys h = ap (◌∷◌ x) (take-append_le n xs ys (omega arith))

pub take-set_next {ℓ} :
    {A : Type ℓ} (n : ℕ) (xs : List A) (x : A)
    → n < length xs
    → take (n + 1) (set xs n x) ≡ take n xs ++ x ∷ []
take-set_next n [] x h = elim h [ ]
take-set_next zero (y ∷ xs) x h = refl
take-set_next (suc n) (y ∷ xs) x h =
    let next : suc n + 1 ≡ suc (n + 1) = omega arith in
    rw next (ap (◌∷◌ y) (take-set_next n xs x (omega arith)))

module _ {ℓ} {A : Type ℓ} where
  -- The elements in use; one that its pusher has not yet written is `none`.
  unfoldable pub contents : Queue A → List (Option A)
  contents q = take q.count q.base

  -- The array has its capacity, and its bytes can be counted.
  pub record IsValid (q : Queue A) : Type 0 where
    pub width : length q.base ≡ q.capacity
    pub within : q.count ≤ q.capacity
    pub bytes : q.capacity ≤ size_max / q.element_size
    pub sized : 1 < q.element_size
    pub size_fits : q.element_size * 2 < size_mod

  pub initialize-IsValid :
      (size : ℕ)
      → 1 < size
      → size * 2 < size_mod
      → IsValid (initialize size) × (contents (initialize size) ≡ [])
  unfolding initialize contents
  initialize-IsValid size s f = (
    record { width = refl; within = omega arith; bytes = omega arith; sized = s; size_fits = f },
    refl,
  )

  pub room : {q : Queue A} → IsValid q → q.count + 1 < size_mod
  room {q} v = grind (arith, v.bytes, v.sized, v.within)

  module _ {q : Queue A} (v : IsValid q) where
    -- What a resize may do: leave the queue alone, or give it more cells after the old ones.
    pub record Resizes (required : ℕ) (o : Outcome) (r : Queue A) : Type ℓ where
      pub valid : IsValid r
      pub same_count : r.count ≡ q.count
      pub kept : contents r ≡ contents q
      pub same_size : r.element_size ≡ q.element_size
      pub refused : o ≡ failed → r ≡ q
      pub untouched : o ≡ unchanged → (r ≡ q) × (required ≤ q.capacity)
      pub larger : o ≢ failed → required ≤ r.capacity

    failed-Resizes : (required : ℕ) → Resizes required failed q
    failed-Resizes required = record {
      valid = v;
      same_count = refl;
      kept = refl;
      same_size = refl;
      refused = λ _. refl;
      untouched = λ e. absurd (cc);
      larger = λ n. absurd (n refl);
    }

    pub unchanged-Resizes : (required : ℕ) → required ≤ q.capacity → Resizes required unchanged q
    unchanged-Resizes required l = record {
      valid = v;
      same_count = refl;
      kept = refl;
      same_size = refl;
      refused = λ _. refl;
      untouched = λ _. (refl, l);
      larger = λ _. l;
    }

    extend-Resizes :
        (required n : ℕ)
        → q.capacity < required
        → required ≤ n
        → n ≤ size_max / q.element_size
        → Resizes required resized (extend q n)
    unfolding extend contents
    extend-Resizes required n l m b = record {
      valid = record {
        width = omega (
          arith,
          length-append q.base (replicate (n - q.capacity) none),
          length-replicate {A = Option A} (n - q.capacity) none,
          v.width,
        );
        within = omega (arith, v.within);
        bytes = b;
        sized = v.sized;
        size_fits = v.size_fits;
      };
      same_count = refl;
      kept = take-append_le q.count q.base _ (omega (arith, v.within, v.width));
      same_size = refl;
      refused = λ e. absurd (cc);
      untouched = λ e. absurd (cc);
      larger = λ _. m;
    }

    finish-Resizes :
        (fits : Bool) (required : ℕ) (g : Growth)
        → q.capacity < required
        → ((n : ℕ) → g ≡ grown n → required ≤ n)
        → Resizes required (finish fits q g).0 (finish fits q g).1
    unfolding finish
    finish-Resizes fits required out_of_fuel l h = failed-Resizes required
    finish-Resizes fits required overflows l h = failed-Resizes required
    finish-Resizes fits required (grown n) l h = elim (dec_lt (size_max / q.element_size) n) [
      | yes o ↦ rw (lt→ltb _ _ o) (failed-Resizes required)
      | no u ↦ elim (Bool-cases fits) [
        | inl y ↦
            rw (ge→ltb (size_max / q.element_size) n (omega arith), y)
              (extend-Resizes required n l (h n refl) (omega arith))
        | inr f ↦
            rw (ge→ltb (size_max / q.element_size) n (omega arith), f) (failed-Resizes required)
      ]
    ]

    -- resize never loses an element; it leaves the queue alone when it fails or has nothing to do.
    pub resize-Resizes :
        (fits : Bool) (required : ℕ)
        → Resizes required (resize fits q required).0 (resize fits q required).1
    unfolding resize
    resize-Resizes fits required = elim (dec_le required q.capacity) [
      | yes l ↦ rw (le→leb required q.capacity l) (unchanged-Resizes required l)
      | no g ↦ rw (gt→leb required q.capacity (omega arith)) (
          finish-Resizes fits required _ (omega arith)
            (grow-enough required q.element_size required _))
    ]

    -- resize on a valid queue, whether realloc succeeds or not: it fails and leaves the queue
    -- alone, has nothing to do and leaves it alone, or gives it at least the capacity required;
    -- then it is valid and holds the same elements.
    resize-cases :
        (fits : Bool) (required : ℕ)
        → (resize fits q required ≡ (failed, q))
          ⊎ ((resize fits q required ≡ (unchanged, q)) × (required ≤ q.capacity))
          ⊎ ((r : Queue A) × (resize fits q required ≡ (resized, r))
              × (required ≤ r.capacity)
              × IsValid r
              × (contents r ≡ contents q))
    resize-cases fits required =
        split (resize fits q required).0 (resize fits q required).1 (resize-Resizes fits required)
      where
        split :
            (o : Outcome) (r : Queue A)
            → Resizes required o r
            → (◌≡◌ {A = Outcome × Queue A} (o, r) (failed, q))
              ⊎ ((◌≡◌ {A = Outcome × Queue A} (o, r) (unchanged, q)) × (required ≤ q.capacity))
              ⊎ ((r' : Queue A) × (◌≡◌ {A = Outcome × Queue A} (o, r) (resized, r'))
                  × (required ≤ r'.capacity)
                  × IsValid r'
                  × (contents r' ≡ contents q))
        split failed r s = inl (ap (λ (x : Queue A). (failed, x)) (s.refused refl))
        split unchanged r s =
            let (e, l) = s.untouched refl in inr (inl (ap (λ (x : Queue A). (unchanged, x)) e, l))
        split resized r s = inr (inr (r, refl, s.larger (λ e. cc), s.valid, s.kept))
