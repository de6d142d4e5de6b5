-- ===== src/Table/Search.antt =====
-- The order in which find_entry and find_insert_slot visit the slots, and where they end.
use native.Mathlib.Nat.{mod-add-mod, add_assoc}
use memory_tracker.Base.{
  ℕ, zero, suc, ◌+◌, ◌-◌, ◌%◌, ◌≤◌, ◌<◌, ◌≡◌, ap, ◌∙◌, ◌≢◌, ◌⊎◌, inl, inr, true, false, List, arith,
  dec_lt, mod-eq_of_lt,
}
use memory_tracker.Value.{Value, Ruby}
use memory_tracker.Table.{Entry, at, find_loop}

-- The slot visited after `d` steps from slot `h`.
pub pos : ℕ → ℕ → ℕ → ℕ
pos c h d = (h + d) % c

pub pos-lt : (c h d : ℕ) → 0 < c → pos c h d < c
unfolding pos
pos-lt c h d r = omega arith

pos-cases :
    (c h d : ℕ) → h < c → d < c → (pos c h d ≡ h + d) × (h + d < c) ⊎ (pos c h d + c ≡ h + d)
unfolding pos
pos-cases c h d p q = elim (dec_lt (h + d) c) [
  | yes l ↦ inl (mod-eq_of_lt l, l)
  | no l ↦ inr (grind arith)
]

pub pos-within : (c h d : ℕ) → h + d < c → pos c h d ≡ h + d
unfolding pos
pos-within c h d l = mod-eq_of_lt l

pub pos-zero : (c h : ℕ) → h < c → pos c h 0 ≡ h
unfolding pos
pos-zero c h p = grind arith

pub pos-next : (c h d : ℕ) → 0 < c → (pos c h d + 1) % c ≡ pos c h (d + 1)
unfolding pos
pos-next c h d r = mod-add-mod (h + d) c 1 ∙ ap (λ (n : ℕ). n % c) (add_assoc h d 1)

pub pos_inj : (c h a b : ℕ) → h < c → a < c → b < c → pos c h a ≡ pos c h b → a ≡ b
pos_inj c h a b p q r e = ground (arith, pos-cases c h a p q, pos-cases c h b p r)

-- Every slot is visited within `c` steps.
pub pos_onto : (c h i : ℕ) → h < c → i < c → (d : ℕ) × (d < c) × (pos c h d ≡ i)
pos_onto c h i p q = elim (dec_lt i h) [
  | yes l ↦ (i + c - h, omega arith, ground (arith, pos-cases c h (i + c - h) p))
  | no l ↦ (i - h, omega arith, ground (arith, pos-cases c h (i - h) p))
]

pub pos-ne_start : (c h d : ℕ) → h < c → 0 < d → d < c → pos c h d ≢ h
pos-ne_start c h d p q r = ground (arith, pos-cases c h d p r)

-- Steps `d` to `k` meet neither an empty slot nor the object.
abbrev pub Passes : List Entry → ℕ → ℕ → Value → ℕ → ℕ → Type 0
Passes es c h o d k =
    (e : ℕ) → d ≤ e → e < k → ((at es (pos c h e)).object ≢ 0) × ((at es (pos c h e)).object ≢ o)

module _ ⦃ruby : Ruby⦄ (es : List Entry) (c h : ℕ) (o : Value) (start : h < c) where
  find_loop-step :
      (left d : ℕ)
      → d + 1 < c
      → (at es (pos c h d)).object ≢ 0
      → (at es (pos c h d)).object ≢ o
      → find_loop (suc left) es c o h (pos c h d) ≡ find_loop left es c o h (pos c h (d + 1))
  unfolding find_loop
  find_loop-step left d l n m = ground (arith, pos-next c h d, pos-ne_start c h (d + 1) start)

  -- The object is found where it stands.
  pub find_loop-hit :
      (left d k : ℕ)
      → d ≤ k
      → k < c
      → k < d + left
      → o ≢ 0
      → o ≢ ruby.nil
      → Passes es c h o d k
      → (at es (pos c h k)).object ≡ o
      → find_loop left es c o h (pos c h d) ≡ record { index = pos c h k; found = true }
  unfolding find_loop
  find_loop-hit zero d k a b l z n passes e = absurd (omega arith)
  find_loop-hit (suc left) d k a b l z n passes e = elim (dec_lt d k) [
    | yes s ↦
        let (p, q) = passes d (omega arith) s in
        find_loop-step left d (omega arith) p q
        ∙ find_loop-hit left (d + 1) k (omega arith) b (omega arith) z n
            (λ j x y. passes j (omega arith) y) e
    | no s ↦ let same : d ≡ k = omega arith in rw same (ground arith)
  ]

  -- A search that meets an empty slot first ends there.
  pub find_loop-miss :
      (left d k : ℕ)
      → d ≤ k
      → k < c
      → k < d + left
      → Passes es c h o d k
      → (at es (pos c h k)).object ≡ 0
      → find_loop left es c o h (pos c h d) ≡ record { index = pos c h k; found = false }
  unfolding find_loop
  find_loop-miss zero d k a b l passes e = absurd (omega arith)
  find_loop-miss (suc left) d k a b l passes e = elim (dec_lt d k) [
    | yes s ↦
        let (p, q) = passes d (omega arith) s in
        find_loop-step left d (omega arith) p q
        ∙ find_loop-miss left (d + 1) k (omega arith) b (omega arith)
            (λ j x y. passes j (omega arith) y) e
    | no s ↦ let same : d ≡ k = omega arith in rw same (ground arith)
  ]
