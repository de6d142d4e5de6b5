-- ===== src/Assoc.antt =====
-- Ruby's st_table with number keys (ruby/st.h), as the code uses it: an association list.
use memory_tracker.Base.{
  ℕ, ◌≡◌, ◌≢◌, refl, Option, none, some, List, [], ◌∷◌, arith, ◌==◌, if◌then◌else◌,
}

abbrev pub Assoc {ℓ} : Type ℓ → Type ℓ
Assoc V = List (ℕ × V)

module _ {ℓ} {V : Type ℓ} where
  -- st_lookup
  unfoldable pub lookup : ℕ → Assoc V → Option V
  lookup key [] = none
  lookup key ((first, value) ∷ bins) = if first == key then some value else lookup key bins

  -- st_insert: a key that is there gets the new value.
  unfoldable pub insert : ℕ → V → Assoc V → Assoc V
  insert key new ((first, value) ∷ bins) =
      let rest = insert key new bins in
      if first == key then (key, new) ∷ bins else (first, value) ∷ rest
  insert key new [] = (key, new) ∷ []

  -- st_delete
  unfoldable pub delete : ℕ → Assoc V → Assoc V
  delete key ((first, value) ∷ bins) =
      let rest = delete key bins in if first == key then rest else (first, value) ∷ rest
  delete key [] = []

  -- What an insertion and a deletion leave to be looked up.
  pub after_insert :
      (key other : ℕ) (new : V) (bins : Assoc V)
      → lookup other (insert key new bins) ≡ (if key == other then some new else lookup other bins)
  unfolding lookup insert
  after_insert key other new [] = refl
  after_insert key other new (bin ∷ bins) = ground (arith, after_insert key other new bins)

  pub lookup-delete :
      (key other : ℕ) (bins : Assoc V)
      → lookup other (delete key bins) ≡ (if key == other then none else lookup other bins)
  unfolding lookup delete
  lookup-delete key other [] = ground arith
  lookup-delete key other (bin ∷ bins) = ground (arith, lookup-delete key other bins)

  pub lookup-insert_self :
      (key : ℕ) (new : V) (bins : Assoc V) → lookup key (insert key new bins) ≡ some new
  lookup-insert_self key new bins = ground (arith, after_insert key key new bins)

  pub lookup-insert_ne :
      (key other : ℕ) (new : V) (bins : Assoc V)
      → key ≢ other
      → lookup other (insert key new bins) ≡ lookup other bins
  lookup-insert_ne key other new bins n = ground (arith, after_insert key other new bins)
