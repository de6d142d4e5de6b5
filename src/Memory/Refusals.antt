-- ===== src/Memory/Refusals.antt =====
-- Commands in whose course a request for memory is refused, or none is.
use memory_tracker.Base.{
  ℕ, ◌≡◌, refl, ◌⊎◌, inl, inr, true, not, ◌||◌, Option, none, some, List, [], ◌∷◌, ◌==◌, Bool-cases,
}
use memory_tracker.Value.{Value, Ruby}
use memory_tracker.Table.{Table, overloaded}
use memory_tracker.Table.Gc
use memory_tracker.Table.Gc.{any_moved}
use memory_tracker.Memory.{
  Heap, Run, ok, bad_free, undefined, Cmd, and_then, Allocator, pure, grant, malloc, free,
}
use memory_tracker.Memory.Blocks.{
  Owned, table_free, new_entries, new_table, table_new, resized, resize, insert, moved, replaced,
  compact, Call, inserts, deletes, compacts, clears, renew, perform, perform_all,
}

-- A request has been refused by the end.
abbrev pub Refuses {ℓ} : {A : Type ℓ} → Run A → Type 0
Refuses (ok a h) = h.refused ≡ true
Refuses bad_free = Unit {0}
Refuses (undefined h) = h.refused ≡ true

-- Once refused, always refused.
abbrev pub Keeps {ℓ} : {A : Type ℓ} → Cmd A → Type 0
Keeps m = (h : Heap) → h.refused ≡ true → Refuses (m h)

pub Refuses-bind {ℓ κ} :
    {A : Type ℓ} {B : Type κ} (s : Run A) (f : A → Cmd B)
    → Refuses s
    → ((a : A) → Keeps (f a))
    → Refuses (and_then s f)
Refuses-bind (ok a h) f r k = k a h r
Refuses-bind bad_free f r k = tt
Refuses-bind (undefined h) f r k = r

-- `P` holds where the command ends, unless a request has been refused.
abbrev pub Sure {ℓ} : {A : Type ℓ} → (A → Type 0) → Run A → Type 0
Sure P (ok a h) = (h.refused ≡ true) ⊎ P a
Sure P bad_free = Unit {0}
Sure P (undefined h) = h.refused ≡ true

pub Refuses-Sure {ℓ} : {A : Type ℓ} (P : A → Type 0) (s : Run A) → Refuses s → Sure P s
Refuses-Sure P (ok a h) r = inl r
Refuses-Sure P bad_free r = tt
Refuses-Sure P (undefined h) r = r

pub Sure-bind {ℓ κ} :
    {A : Type ℓ} {B : Type κ} (P : A → Type 0) (Q : B → Type 0) (s : Run A) (f : A → Cmd B)
    → Sure P s
    → ((a : A) → Keeps (f a))
    → ((a : A) (h : Heap) → P a → Sure Q (f a h))
    → Sure Q (and_then s f)
Sure-bind P Q (ok a h) f (inl r) k g = Refuses-Sure Q (f a h) (k a h r)
Sure-bind P Q (ok a h) f (inr p) k g = g a h p
Sure-bind P Q bad_free f r k g = tt
Sure-bind P Q (undefined h) f r k g = r

refused-grant : (o : Option ℕ) (h : Heap) → h.refused ≡ true → (grant o h).refused ≡ true
refused-grant none h r = refl
refused-grant (some p) h r = r

pub free-Keeps : (p : ℕ) → Keeps (free p)
unfolding free
free-Keeps p h r = elim (Bool-cases (p == 0)) [
  | inl null ↦ rw null r
  | inr set ↦ elim (Bool-cases (h.live p)) [ inl y ↦ rw (set, y) r | inr n ↦ rw (set, n) tt ]
]

pub free-Sure : (p : ℕ) (h : Heap) → Sure (λ _. Unit {0}) (free p h)
unfolding free
free-Sure p h = elim (Bool-cases (p == 0)) [
  | inl null ↦ rw null (inr tt)
  | inr set ↦ elim (Bool-cases (h.live p)) [ inl y ↦ rw (set, y) (inr tt) | inr n ↦ rw (set, n) tt ]
]

table_free-Keeps : (s : Option Owned) → Keeps (table_free s)
unfolding table_free
table_free-Keeps none h r = r
table_free-Keeps (some o) h r =
    Refuses-bind (free o.entries h) (λ _. free o.base) (free-Keeps o.entries h r)
      (λ _. free-Keeps o.base)

pub table_free-Sure : (s : Option Owned) (h : Heap) → Sure (λ _. Unit {0}) (table_free s h)
unfolding table_free
table_free-Sure none h = inr tt
table_free-Sure (some o) h =
    Sure-bind (λ _. Unit {0}) (λ _. Unit {0}) (free o.entries h) (λ _. free o.base)
      (free-Sure o.entries h) (λ _. free-Keeps o.base) (λ _ h' _. free-Sure o.base h')

module _ ⦃ruby : Ruby⦄ (answer : Allocator) where
  malloc-Keeps : Keeps (malloc answer)
  unfolding malloc
  malloc-Keeps h r = refused-grant (answer h.asked h.live) h r

  pub new_entries-Keeps : (n base : ℕ) (o : Option ℕ) → Keeps (new_entries answer n base o)
  unfolding new_entries
  new_entries-Keeps n base none h r =
      Refuses-bind (free base h) (λ _. pure none) (free-Keeps base h r) (λ _ h' r'. r')
  new_entries-Keeps n base (some p) h r = r

  pub new_table-Keeps : (n : ℕ) (o : Option ℕ) → Keeps (new_table answer n o)
  unfolding new_table
  new_table-Keeps n none h r = r
  new_table-Keeps n (some base) h r =
      Refuses-bind (malloc answer h) (new_entries answer n base) (malloc-Keeps h r)
        (new_entries-Keeps n base)

  pub table_new-Keeps : (n : ℕ) → Keeps (table_new answer n)
  unfolding table_new
  table_new-Keeps n h r =
      Refuses-bind (malloc answer h) (new_table answer n) (malloc-Keeps h r) (new_table-Keeps n)

  pub resized-Keeps : (o : Owned) (p : Option ℕ) → Keeps (resized answer o p)
  unfolding resized
  resized-Keeps o none h r = r
  resized-Keeps o (some p) h r =
      Refuses-bind (free o.entries h) (λ _. pure (true, record o { entries = p }))
        (free-Keeps o.entries h r) (λ _ h' r'. r')

  resize-Keeps : (o : Owned) → Keeps (resize answer o)
  unfolding resize
  resize-Keeps o h r =
      Refuses-bind (malloc answer h) (resized answer o) (malloc-Keeps h r) (resized-Keeps o)

  insert-Keeps :
      (o : Owned) (object klass datum : Value) → Keeps (insert answer o object klass datum)
  unfolding insert
  insert-Keeps o object klass datum h r = elim (Bool-cases (overloaded o.table)) [
    | inl y ↦ rw y (Refuses-bind (resize answer o h) _ (resize-Keeps o h r) (λ _ h' r'. r'))
    | inr n ↦ rw n r
  ]

  replaced-Keeps : (o : Owned) (t : Option Table) → Keeps (replaced answer o t)
  unfolding replaced
  replaced-Keeps o none h r = r
  replaced-Keeps o (some t) h r = r

  pub moved-Keeps :
      (location : Value → Value) (o : Owned) (p : Option ℕ) → Keeps (moved answer location o p)
  unfolding moved
  moved-Keeps location o none h r = r
  moved-Keeps location o (some p) h r =
      Refuses-bind (replaced answer o (Gc.compact location true o.table) h) _
        (replaced-Keeps o (Gc.compact location true o.table) h r)
        (λ o' h' r'.
          Refuses-bind (free p h') (λ _. pure o') (free-Keeps p h' r') (λ _ h'' r''. r''))

  compact-Keeps : (location : Value → Value) (o : Owned) → Keeps (compact answer location o)
  unfolding compact
  compact-Keeps location o h r =
      elim (Bool-cases ((o.table.count == 0) || not (any_moved location o.table.entries))) [
        | inl y ↦ rw y (replaced-Keeps o (Gc.compact location true o.table) h r)
        | inr n ↦ rw n (
            Refuses-bind (malloc answer h) (moved answer location o) (malloc-Keeps h r)
              (moved-Keeps location o))
      ]

  renew-Keeps : (s : Option Owned) → Keeps (renew answer s)
  unfolding renew
  renew-Keeps none h r = r
  renew-Keeps (some o) h r =
      Refuses-bind (table_free (some o) h) (λ _. table_new answer 1024)
        (table_free-Keeps (some o) h r) (λ _. table_new-Keeps 1024)

  perform-Keeps : (c : Call) (s : Option Owned) → Keeps (perform answer c s)
  unfolding perform
  perform-Keeps (inserts object klass datum) none h r = r
  perform-Keeps (inserts object klass datum) (some o) h r =
      Refuses-bind (insert answer o object klass datum h) _ (insert-Keeps o object klass datum h r)
        (λ _ h' r'. r')
  perform-Keeps (deletes object) none h r = r
  perform-Keeps (deletes object) (some o) h r = r
  perform-Keeps (compacts location) none h r = r
  perform-Keeps (compacts location) (some o) h r =
      Refuses-bind (compact answer location o h) _ (compact-Keeps location o h r) (λ _ h' r'. r')
  perform-Keeps clears s h r = renew-Keeps s h r

  pub perform_all-Keeps : (cs : List Call) (s : Option Owned) → Keeps (perform_all answer cs s)
  unfolding perform_all
  perform_all-Keeps [] s h r = r
  perform_all-Keeps (c ∷ cs) s h r =
      Refuses-bind (perform answer c s h) (perform_all answer cs) (perform-Keeps c s h r)
        (perform_all-Keeps cs)
