-- ===== src/Table/Reinsert.antt =====
-- The rehashing loops: what a list of entries turns a table into.
use mathlib.Core.Option.{or_else}
use memory_tracker.Base.{
  ℕ, ◌+◌, ◌≤◌, ◌≡◌, refl, ap, ◌∙◌, inl, inr, List, [], ◌∷◌, arith, length, Bool-cases, replicate,
  keep,
}
use memory_tracker.Table.Rehash.{Filling, Places, place-Places, is_live-IsKey}
use memory_tracker.Value.{Value, Ruby}
use memory_tracker.Table.{Entry, Table, empty_entry, is_live, place, rehash, reinsert}
use memory_tracker.Table.Slots.{copies, view, copies-replicate, view-eq-none}
use memory_tracker.Table.Invariant.{IsKey}

-- The entries hold pairwise different objects.
module _ ⦃ruby : Ruby⦄ where
  abbrev pub Distinct : List Entry → Type 0
  Distinct [] = Unit {0}
  Distinct (e ∷ es) = IsKey e.object × (copies e.object es ≡ 0) × Distinct es

  -- No object of the entries stands in the array.
  abbrev pub Apart : List Entry → List Entry → Type 0
  Apart [] held = Unit {0}
  Apart (e ∷ es) held = (copies e.object held ≡ 0) × Apart es held

  pub Apart-replicate : (es : List Entry) (n : ℕ) → Distinct es → Apart es (replicate n empty_entry)
  Apart-replicate [] n d = tt
  Apart-replicate (e ∷ es) n d = (copies-replicate e.object n d.0.ne_zero, Apart-replicate es n d.2)

  Apart-place :
      (es : List Entry) (e : Entry) {more : ℕ} {t r : Table}
      → Places e more t r
      → copies e.object es ≡ 0
      → Apart es t.entries
      → Apart es r.entries
  unfolding copies
  Apart-place [] e p z a = tt
  Apart-place (x ∷ es) e p z a =
      (p.copied x.object a.0 (ground arith), Apart-place es e p (ground arith) a.1)

  -- What the loop makes of a table: the table's own map and that of the entries together.
  pub record Fills (es : List Entry) (t r : Table) : Type 0 where
    pub filling : Filling 0 r
    pub capacity : r.capacity ≡ t.capacity
    pub count : r.count ≡ t.count + length es
    pub reads : (q : Value) → IsKey q → view r.entries q ≡ or_else (view es q) (view t.entries q)

  pub reinsert-Fills :
      (es : List Entry) (t : Table)
      → Filling (length es) t
      → Distinct es
      → Apart es t.entries
      → Fills es t (reinsert es t)
  unfolding reinsert view or_else
  reinsert-Fills [] t f d a = record {
    filling = f;
    capacity = refl;
    count = omega arith;
    reads = λ q k. refl;
  }
  reinsert-Fills (e ∷ es) t f d a =
      let p = place-Places e (length es) t f d.0 a.0 in
      let r = reinsert-Fills es (place e t) p.filling d.2 (Apart-place es e p d.1 a.1) in
      record {
        filling = r.filling;
        capacity = r.capacity ∙ p.capacity;
        count = omega (arith, r.count, p.count);
        reads = λ q k. ground (
          arith,
          r.reads q k,
          p.reads q k,
          view-eq-none q es,
          d.1,
          ap (λ v. copies v es) {x = e.object} {y = q},
        );
      }

  -- The loop over the old entries skips what is not live.
  pub rehash-keep : (old : List Entry) (t : Table) → rehash old t ≡ reinsert (keep is_live old) t
  unfolding rehash reinsert
  rehash-keep [] t = refl
  rehash-keep (e ∷ old) t = elim (Bool-cases (is_live e)) [
    | inl y ↦ rw y (rehash-keep old (place e t))
    | inr n ↦ rw n (rehash-keep old t)
  ]

  pub copies-keep :
      (o : Value) (es : List Entry) → IsKey o → copies o (keep is_live es) ≡ copies o es
  unfolding copies
  copies-keep o [] k = refl
  copies-keep o (e ∷ es) k = ground (arith, copies-keep o es k, k.ne_zero, k.ne_nil)

  pub view-keep : (o : Value) (es : List Entry) → IsKey o → view (keep is_live es) o ≡ view es o
  unfolding view
  view-keep o [] k = refl
  view-keep o (e ∷ es) k = ground (arith, view-keep o es k, k.ne_zero, k.ne_nil)

  pub keep-Distinct :
      (es : List Entry) → ((o : Value) → IsKey o → copies o es ≤ 1) → Distinct (keep is_live es)
  unfolding copies
  keep-Distinct [] once = tt
  keep-Distinct (e ∷ es) once =
      let rest = keep-Distinct es (λ o k. omega (arith, once o k)) in
      elim (Bool-cases (is_live e)) [
        | inl y ↦
            let key = is_live-IsKey e y in
            rw y (key, ground (arith, copies-keep e.object es key, once e.object key), rest)
        | inr n ↦ rw n rest
      ]
