-- ===== src/Table/Mark.antt =====
-- What the table asks the garbage collector to keep: the classes and states, never the objects.
use memory_tracker.Base.{
  ◌↔◌, ℕ, suc, ◌+◌, ◌<◌, ◌≡◌, ◌≢◌, ◌⊎◌, refl, sym, inl, inr, arith, some, if◌then◌else◌, length,
  ltb, ◌==◌, Bool-cases, List, [], ◌∷◌, ◌++◌, tally, tally-append,
}
use memory_tracker.Table.Valid.{IsValid}
use memory_tracker.Value.{Value, Ruby}
use memory_tracker.Table.{Entry, Table, at, is_live}
use memory_tracker.Table.Slots.{view, view-at}
use memory_tracker.Table.Invariant.{IsKey}
use memory_tracker.Table.Rehash.{is_live-IsKey}
use memory_tracker.Table.Gc.{mark, mark_entries, mark_value}

-- How often a value is marked.
abbrev pub marks : Value → List Value → ℕ
marks v = tally (λ x. x == v)

pub marks-append : (v : Value) (xs ys : List Value) → marks v (xs ++ ys) ≡ marks v xs + marks v ys
marks-append v = tally-append (λ x. x == v)

marks-mark_value :
    (v x : Value) → marks v (mark_value x) ≡ (if x == 0 then 0 else if x == v then 1 else 0)
unfolding mark_value
marks-mark_value v x = ground arith

module _ ⦃ruby : Ruby⦄ where
  marks_step :
      (v : Value) (e : Entry) (es : List Entry)
      → marks v (mark_entries (e ∷ es))
        ≡ (if is_live e then marks v (mark_value e.klass) + marks v (mark_value e.datum) else 0)
          + marks v (mark_entries es)
  unfolding mark_entries
  marks_step v e es = elim (Bool-cases (is_live e)) [
    | inl y ↦ rw (
      y,
      marks-append v (mark_value e.klass ++ mark_value e.datum) (mark_entries es),
      marks-append v (mark_value e.klass) (mark_value e.datum),
    )
    | inr n ↦ rw n (omega arith)
  ]

  entries-marks :
      (o klass datum : Value) (es : List Entry)
      → IsKey o
      → view es o ≡ some (klass, datum)
      → (klass ≢ 0 → 0 < marks klass (mark_entries es))
        × (datum ≢ 0 → 0 < marks datum (mark_entries es))
  unfolding view
  entries-marks o klass datum [] key h = absurd (cc)
  entries-marks o klass datum (e ∷ es) key h = ground (
    arith,
    entries-marks o klass datum es key,
    marks_step klass e es,
    marks_step datum e es,
    marks-mark_value klass e.klass,
    marks-mark_value datum e.datum,
    key.ne_zero,
    key.ne_nil,
  )

  mark-view :
      (t : Table) (o klass datum x : Value)
      → IsKey o
      → view t.entries o ≡ some (klass, datum)
      → (x ≡ klass) ⊎ (x ≡ datum)
      → x ≢ 0
      → 0 < marks x (mark (some t))
  unfolding mark
  mark-view t o klass datum x key h which n =
      ground (arith, entries-marks o klass datum t.entries key h)

  marks-entries :
      (v : Value) (es : List Entry)
      → 0 < marks v (mark_entries es)
      → (i : ℕ) × (i < length es)
        × IsKey (at es i).object
        × (v ≢ 0)
        × (((at es i).klass ≡ v) ⊎ ((at es i).datum ≡ v))
  unfolding mark_entries
  marks-entries v [] h = elim h [ ]
  marks-entries v (e ∷ es) h = elim (Bool-cases (ltb 0 (marks v (mark_entries es)))) [
    | inl y ↦
        let (i, l, r, n, s) = marks-entries v es (ground arith) in (suc i, omega arith, r, n, s)
    | inr n ↦ elim (Bool-cases (is_live e)) [
      | inl y ↦ (
        0,
        omega arith,
        is_live-IsKey e y,
        ground (arith, marks_step v e es, marks-mark_value v e.klass, marks-mark_value v e.datum),
        ground (arith, marks_step v e es, marks-mark_value v e.klass, marks-mark_value v e.datum),
      )
      | inr d ↦ absurd (ground (arith, marks_step v e es))
    ]
  ]

  mark-only :
      (t : Table) (v : Value)
      → 0 < marks v (mark (some t))
      → (i : ℕ) × (i < length t.entries)
        × IsKey (at t.entries i).object
        × (v ≢ 0)
        × (((at t.entries i).klass ≡ v) ⊎ ((at t.entries i).datum ≡ v))
  unfolding mark
  mark-only t v h = marks-entries v t.entries h

  -- On a valid table, a value other than zero is marked exactly if it is the class or the state
  -- that the table holds for some object.
  pub mark-held :
      (t : Table) (x : Value)
      → IsValid t
      → x ≢ 0
      → (0 < marks x (mark (some t))) ↔ (
          (o klass datum : Value) × IsKey o
          × (view t.entries o ≡ some (klass, datum))
          × ((x ≡ klass) ⊎ (x ≡ datum)))
  mark-held t x v n = (
    λ m.
        let (i, l, key, _, which) = mark-only t x m in
        let e = at t.entries i in
        (
          e.object,
          e.klass,
          e.datum,
          key,
          view-at e.object t.entries i (v.sound.once e.object key) l refl,
          elim which [ inl k ↦ inl (sym k) | inr d ↦ inr (sym d) ],
        ),
    λ (o, klass, datum, key, held, which). mark-view t o klass datum x key held which n,
  )
