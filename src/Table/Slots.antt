-- ===== src/Table/Slots.antt =====
-- An array of entries as a bag of slots: how many of each kind, and the map that it stands for.
use memory_tracker.Base.{
  ℕ, zero, suc, ◌+◌, ◌≤◌, ◌<◌, ◌≡◌, refl, ◌≢◌, Bool, Option, none, some, List, [], ◌∷◌, arith, inl,
  inr, ◌==◌, if◌then◌else◌, length, set, keep, length-keep, tally, replicate, length-set,
  get_or-tally, get_or-tally_two, get_or-set_self, tally-get_or, Bool-cases, ==→eq, eq→==,
  tally-set, dec_lt, tally-replicate,
}
use memory_tracker.Value.{Value, Ruby}
use memory_tracker.Table.{Entry, at, empty_entry, is_live, is_tombstone}

abbrev pub is_at : Value → Entry → Bool
is_at o e = e.object == o

-- How many slots hold an object.
unfoldable pub copies : Value → List Entry → ℕ
copies o = tally (is_at o)

-- The class and the state that the array holds for an object: those of its first entry.
unfoldable pub view : List Entry → Value → Option (Value × Value)
view [] o = none
view (e ∷ es) o = if e.object == o then some (e.klass, e.datum) else view es o

-- A map with one key given anew.
abbrev pub update {ℓ} : {A : Type ℓ} → (Value → A) → Value → A → Value → A
update f k v o = if k == o then v else f o

pub view-eq-none : (o : Value) (es : List Entry) → copies o es ≡ 0 → view es o ≡ none
unfolding view copies
view-eq-none o [] h = refl
view-eq-none o (e ∷ es) h = ground (arith, view-eq-none o es)

pub copies-eq-zero : (o : Value) (es : List Entry) → view es o ≡ none → copies o es ≡ 0
unfolding view copies
copies-eq-zero o [] h = refl
copies-eq-zero o (e ∷ es) h = ground (arith, copies-eq-zero o es)

pub copies-at :
    (o : Value) (es : List Entry) (i : ℕ) → i < length es → (at es i).object ≡ o → 0 < copies o es
unfolding copies
copies-at o es i l e = get_or-tally (is_at o) es i empty_entry l (eq→== _ _ e)

pub copies_unique :
    (o : Value) (es : List Entry) (i j : ℕ)
    → copies o es ≤ 1
    → i < length es
    → j < length es
    → (at es i).object ≡ o
    → (at es j).object ≡ o
    → i ≡ j
unfolding copies
copies_unique o es i j once l m e f = elim (dec_lt i j) [
  | yes p ↦
      absurd (
        omega
          (arith, get_or-tally_two (is_at o) es i j empty_entry p m (eq→== _ _ e) (eq→== _ _ f)))
  | no p ↦ elim (dec_lt j i) [
    | yes q ↦ absurd (
        omega
          (arith, get_or-tally_two (is_at o) es j i empty_entry q l (eq→== _ _ f) (eq→== _ _ e)))
    | no q ↦ omega arith
  ]
]

pub view-at :
    (o : Value) (es : List Entry) (i : ℕ)
    → copies o es ≤ 1
    → i < length es
    → (at es i).object ≡ o
    → view es o ≡ some ((at es i).klass, (at es i).datum)
unfolding view copies
view-at o [] i once l e = elim l [ ]
view-at o (x ∷ es) zero once l e = ground arith
view-at o (x ∷ es) (suc i) once l e =
    ground (arith, view-at o es i, copies-at o es i (omega arith) e)

-- An object that the array holds stands in some slot.
pub view-slot :
    (o : Value) (es : List Entry) (v : Value × Value)
    → view es o ≡ some v
    → (i : ℕ) × (i < length es)
      × ((at es i).object ≡ o)
      × ((at es i).klass ≡ v.0)
      × ((at es i).datum ≡ v.1)
unfolding view
view-slot o [] v h = cc
view-slot o (e ∷ es) v h = elim (Bool-cases (e.object == o)) [
  | inl t ↦ (0, omega arith, ==→eq _ _ t, ground arith, ground arith)
  | inr f ↦ let (i, l, r, k, d) = view-slot o es v (ground arith) in (suc i, omega arith, r, k, d)
]

-- A write replaces what its slot held by what it is given.
pub view-set :
    (es : List Entry) (i : ℕ) (e : Entry) (o : Value)
    → i < length es
    → copies o es ≤ 1
    → copies o (set es i e) ≤ 1
    → view (set es i e) o ≡ (
        if e.object == o
        then some (e.klass, e.datum)
        else if (at es i).object == o
        then none
        else view es o)
unfolding view copies
view-set [] i e o l m n = elim l [ ]
view-set (x ∷ es) zero e o l m n = ground (arith, view-eq-none o es)
view-set (x ∷ es) (suc i) e o l m n = ground (
  arith,
  view-set es i e o (omega arith),
  copies-at o es i (omega arith),
  copies-at o (set es i e) i (rw length-set (omega arith)),
  get_or-set_self es i e empty_entry (omega arith),
)

pub copies-set :
    (o : Value) (es : List Entry) (i : ℕ) (e : Entry)
    → i < length es
    → copies o (set es i e) + (if (at es i).object == o then 1 else 0)
      ≡ copies o es + (if e.object == o then 1 else 0)
unfolding copies
copies-set o es i e l = tally-set (is_at o) es i e empty_entry l

pub copies-replicate : (o : Value) (n : ℕ) → o ≢ 0 → copies o (replicate n empty_entry) ≡ 0
unfolding copies
copies-replicate o n h = tally-replicate (is_at o) n empty_entry (ground arith)

module _ ⦃ruby : Ruby⦄ where
  unfoldable pub live : List Entry → ℕ
  live = tally is_live

  unfoldable pub buried : List Entry → ℕ
  buried = tally is_tombstone

  live-buried-le : (es : List Entry) → live es + buried es + copies 0 es ≡ length es
  unfolding live buried copies
  live-buried-le [] = refl
  live-buried-le (e ∷ es) = ground (arith, live-buried-le es, ruby.nil_pos)

  pub length-live : (es : List Entry) → length (keep is_live es) ≡ live es
  unfolding live
  length-live es = length-keep is_live es

  pub live-set :
      (es : List Entry) (i : ℕ) (e : Entry)
      → i < length es
      → live (set es i e) + (if is_live (at es i) then 1 else 0)
        ≡ live es + (if is_live e then 1 else 0)
  unfolding live
  live-set es i e l = tally-set is_live es i e empty_entry l

  pub buried-set :
      (es : List Entry) (i : ℕ) (e : Entry)
      → i < length es
      → buried (set es i e) + (if is_tombstone (at es i) then 1 else 0)
        ≡ buried es + (if is_tombstone e then 1 else 0)
  unfolding buried
  buried-set es i e l = tally-set is_tombstone es i e empty_entry l

  pub live-replicate : (n : ℕ) → live (replicate n empty_entry) ≡ 0
  unfolding live
  live-replicate n = tally-replicate is_live n empty_entry (ground arith)

  pub buried-replicate : (n : ℕ) → buried (replicate n empty_entry) ≡ 0
  unfolding buried
  buried-replicate n = tally-replicate is_tombstone n empty_entry (ground (arith, ruby.nil_pos))

  -- With an empty slot left, some slot is empty.
  pub empty_slot :
      (es : List Entry)
      → live es + buried es < length es
      → (i : ℕ) × (i < length es) × ((at es i).object ≡ 0)
  unfolding copies
  empty_slot es h =
      let (i, l, e) = tally-get_or (is_at 0) es empty_entry (omega (arith, live-buried-le es)) in
      (i, l, ==→eq _ _ e)
