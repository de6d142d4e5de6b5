-- ===== src/Table/InsertSearch.antt =====
-- Where find_insert_slot ends: at the object, or at the first tombstone or empty slot.
use memory_tracker.Base.{
  ℕ, zero, suc, ◌+◌, ◌≤◌, ◌<◌, ◌≡◌, ◌∙◌, ◌≢◌, ◌⊎◌, inl, inr, true, false, List, arith, dec_lt,
  Option, none, some, ◌==◌, if◌then◌else◌, Bool-cases, ==→eq,
}
use memory_tracker.Value.{Value, Ruby}
use memory_tracker.Table.{Entry, at, insert_loop, or_index}
use memory_tracker.Table.Search.{pos, pos-next, pos-ne_start, Passes}

module _ ⦃ruby : Ruby⦄ (es : List Entry) (c h : ℕ) where
  -- `first_tombstone` after steps before `d`: none, or the slot of a tombstone on the way.
  abbrev pub Marks : ℕ → Option ℕ → Type 0
  Marks d first =
      (first ≡ none)
      ⊎ ((j : ℕ) × (j ≤ d) × (first ≡ some (pos c h j)) × ((at es (pos c h j)).object ≡ ruby.nil))

  -- A slot where a new object may go.
  abbrev pub IsFree : ℕ → Type 0
  IsFree i = ((at es i).object ≡ 0) ⊎ ((at es i).object ≡ ruby.nil)

  abbrev mark : ℕ → Option ℕ → Option ℕ
  mark i first = if (at es i).object == ruby.nil then some (or_index first i) else first

  mark-Marks : (d : ℕ) (first : Option ℕ) → Marks d first → Marks (d + 1) (mark (pos c h d) first)
  mark-Marks d first m = elim (Bool-cases ((at es (pos c h d)).object == ruby.nil)) [
    | inl t ↦ elim m [
      | inl e ↦ inr (d, omega arith, rw (t, e), ==→eq _ _ t)
      | inr (j, l, e, n) ↦ inr (j, omega arith, rw (t, e), n)
    ]
    | inr f ↦ rw f (elim m [ inl e ↦ inl e | inr (j, l, e, n) ↦ inr (j, omega arith, e, n) ])
  ]

  module _ (o : Value) (start : h < c) where
    pub insert_loop-step :
        (left d : ℕ) (first : Option ℕ)
        → d + 1 < c
        → (at es (pos c h d)).object ≢ 0
        → (at es (pos c h d)).object ≢ o
        → insert_loop (suc left) es c o h first (pos c h d)
          ≡ insert_loop left es c o h (mark (pos c h d) first) (pos c h (d + 1))
    unfolding insert_loop
    insert_loop-step left d first l n m =
        ground (arith, pos-next c h d, pos-ne_start c h (d + 1) start)

    pub insert_loop-hit :
        (left d k : ℕ) (first : Option ℕ)
        → d ≤ k
        → k < c
        → k < d + left
        → o ≢ 0
        → o ≢ ruby.nil
        → Passes es c h o d k
        → (at es (pos c h k)).object ≡ o
        → insert_loop left es c o h first (pos c h d) ≡ record { index = pos c h k; found = true }
    unfolding insert_loop
    insert_loop-hit zero d k first a b l z n passes e = absurd (omega arith)
    insert_loop-hit (suc left) d k first a b l z n passes e = elim (dec_lt d k) [
      | yes s ↦
          let (p, q) = passes d (omega arith) s in
          insert_loop-step left d first (omega arith) p q
          ∙ insert_loop-hit left (d + 1) k (mark (pos c h d) first) (omega arith) b (omega arith) z
              n (λ j x y. passes j (omega arith) y) e
      | no s ↦ let same : d ≡ k = omega arith in rw same (ground arith)
    ]

    -- A search that meets an empty slot first ends at a free slot on the way.
    pub insert_loop-miss :
        (left d k : ℕ) (first : Option ℕ)
        → d ≤ k
        → k < c
        → k < d + left
        → Marks d first
        → Passes es c h o d k
        → (at es (pos c h k)).object ≡ 0
        → (j : ℕ) × (j ≤ k)
          × (insert_loop left es c o h first (pos c h d)
              ≡ record { index = pos c h j; found = false })
          × IsFree (pos c h j)
    unfolding insert_loop
    insert_loop-miss zero d k first a b l m passes e = absurd (omega arith)
    insert_loop-miss (suc left) d k first a b l m passes e = elim (dec_lt d k) [
      | yes s ↦
          let (p, q) = passes d (omega arith) s in
          let (j, t, r, f) =
            insert_loop-miss left (d + 1) k (mark (pos c h d) first) (omega arith) b (omega arith)
              (mark-Marks d first m) (λ j x y. passes j (omega arith) y) e in
          (j, t, insert_loop-step left d first (omega arith) p q ∙ r, f)
      | no s ↦
          let same : d ≡ k = omega arith in
          elim m [
            | inl x ↦ (k, omega arith, rw (same, x) (ground arith), inl e)
            | inr (j, t, x, n) ↦ (j, omega arith, rw (same, x) (ground arith), inr n)
          ]
    ]
