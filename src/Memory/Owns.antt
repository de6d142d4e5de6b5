-- ===== src/Memory/Owns.antt =====
-- Which blocks belong to a table, and that its operations keep account of them.
use memory_tracker.Base.{
  ℕ, ◌≡◌, ◌≢◌, refl, ◌∙◌, inl, inr, arith, Bool, true, false, not, ◌||◌, Option, none, some, List,
  [], ◌∷◌, ◌==◌, if◌then◌else◌, Bool-cases,
}
use memory_tracker.Value.{Value, Ruby}
use memory_tracker.Table
use memory_tracker.Table.{Table, overloaded}
use memory_tracker.Table.Gc
use memory_tracker.Table.Gc.{any_moved}
use memory_tracker.Memory.{
  Heap, ok, and_then, Allocator, IsFresh, ◌>>◌, pure, mark, grant, malloc, free,
}
use memory_tracker.Memory.Blocks.{
  Owned, table_free, new_entries, new_table, table_new, resized, resize, insert, moved, replaced,
  compact, Call, inserts, deletes, compacts, clears, renew, perform, perform_all,
}
use memory_tracker.Memory.Ends.{Ends, Ends-bind, free-live, IsNew, IsFresh-IsNew}

-- The blocks are those at `a` and `b`, and those of `base` besides.
pub record Holds (base : ℕ → Bool) (a b : ℕ) (h : Heap) : Type 0 where
  pub a_pos : a ≢ 0
  pub b_pos : b ≢ 0
  pub apart : a ≢ b
  pub a_new : base a ≡ false
  pub b_new : base b ≡ false
  pub live : (p : ℕ) → h.live p ≡ (if a == p then true else if b == p then true else base p)

Holds-same :
    {base : ℕ → Bool} {a b : ℕ} {h h' : Heap}
    → Holds base a b h
    → ((p : ℕ) → h'.live p ≡ h.live p)
    → Holds base a b h'
Holds-same k same = record {
  a_pos = k.a_pos;
  b_pos = k.b_pos;
  apart = k.apart;
  a_new = k.a_new;
  b_new = k.b_new;
  live = λ p. same p ∙ k.live p;
}

-- The blocks of a table that may be NULL.
abbrev pub Owns : (ℕ → Bool) → Option Owned → Heap → Type 0
Owns base none h = (p : ℕ) → h.live p ≡ base p
Owns base (some o) h = Holds base o.base o.entries h

pub table_free-Ends :
    (base : ℕ → Bool) (s : Option Owned) (h : Heap)
    → Owns base s h
    → (h' : Heap) × (table_free s h ≡ ok tt h') × ((p : ℕ) → h'.live p ≡ base p)
unfolding table_free
table_free-Ends base none h k = (h, refl, k)
table_free-Ends base (some o) h k =
    let h₁ = mark o.entries false h in
    let first : h.live o.entries ≡ true = ground (arith, k.live o.entries) in
    let second : h₁.live o.base ≡ true = ground (arith, k.live o.base, k.apart) in
    (
      mark o.base false h₁,
      rw (free-live o.entries h k.b_pos first) (free-live o.base h₁ k.a_pos second),
      λ p. ground (arith, k.live p, k.a_new, k.b_new),
    )

module _ ⦃ruby : Ruby⦄ (answer : Allocator) (fresh : IsFresh answer) (base : ℕ → Bool) where
  entries-Ends :
      (initial a : ℕ) (o : Option ℕ) (h : Heap)
      → a ≢ 0
      → base a ≡ false
      → ((p : ℕ) → h.live p ≡ (if a == p then true else base p))
      → IsNew o h
      → Ends (Owns base) (new_entries answer initial a o (grant o h))
  unfolding new_entries Table.new
  entries-Ends initial a none h n f live new =
      let here : h.live a ≡ true = ground (arith, live a) in
      rw (free-live a (grant none h) n here) (λ p. ground (arith, live p, f))
  entries-Ends initial a (some b) h n f live (gap, pos) = record {
    a_pos = n;
    b_pos = pos;
    apart = λ e. ground (arith, live b, gap);
    a_new = f;
    b_new = ground (arith, live b, gap);
    live = λ p. ground (arith, live p);
  }

  table-Ends :
      (initial : ℕ) (o : Option ℕ) (h : Heap)
      → ((p : ℕ) → h.live p ≡ base p)
      → IsNew o h
      → Ends (Owns base) (new_table answer initial o (grant o h))
  unfolding new_table malloc
  table-Ends initial none h live new = live
  table-Ends initial (some a) h live (gap, pos) =
      entries-Ends initial a _ (grant (some a) h) pos (ground (arith, live a, gap))
        (λ p. ground (arith, live p)) (IsFresh-IsNew answer (grant (some a) h) fresh)

  pub table_new-Ends :
      (initial : ℕ) (h : Heap)
      → ((p : ℕ) → h.live p ≡ base p)
      → Ends (Owns base) (table_new answer initial h)
  unfolding table_new malloc
  table_new-Ends initial h live = table-Ends initial _ h live (IsFresh-IsNew answer h fresh)

  resized-Ends :
      (t : Owned) (o : Option ℕ) (h : Heap)
      → Owns base (some t) h
      → IsNew o h
      → Ends (λ r h'. Owns base (some r.1) h') (resized answer t o (grant o h))
  unfolding resized
  resized-Ends t none h k new = Holds-same k (λ p. refl)
  resized-Ends t (some b) h k (gap, pos) =
      let h₁ = grant (some b) h in
      let old : h₁.live t.entries ≡ true = ground (arith, k.live t.entries) in
      rw (free-live t.entries h₁ k.b_pos old) (record {
        a_pos = k.a_pos;
        b_pos = pos;
        apart = λ e. ground (arith, k.live t.base, gap);
        a_new = k.a_new;
        b_new = ground (arith, k.live b, gap);
        live = λ p. ground (arith, k.live p, k.live b, gap, k.b_new, k.apart);
      })

  insert-Ends :
      (t : Owned) (object klass datum : Value) (h : Heap)
      → Owns base (some t) h
      → Ends (λ r h'. Owns base (some r) h') (insert answer t object klass datum h)
  unfolding insert resize malloc
  insert-Ends t object klass datum h k = elim (Bool-cases (overloaded t.table)) [
    | inr light ↦ rw light k
    | inl heavy ↦ rw heavy (
        Ends-bind (λ r h'. Owns base (some r.1) h') (λ r h'. Owns base (some r) h') _ _
          (resized-Ends t _ h k (IsFresh-IsNew answer h fresh)) (λ r h' e. e))
  ]

  replaced-Ends :
      (t : Owned) (x : Option Table) (h : Heap)
      → Owns base (some t) h
      → Ends (λ r h'. Owns base (some r) h') (replaced answer t x h)
  unfolding replaced
  replaced-Ends t none h k = tt
  replaced-Ends t (some r) h k = k

  -- The temporary array is given back.
  temp-Ends :
      (t : Owned) (x : Option Table) (b : ℕ) (h : Heap)
      → Owns base (some t) h
      → h.live b ≡ false
      → b ≢ 0
      → Ends
          (λ r h'. Owns base (some r) h')
          (and_then (replaced answer t x (grant (some b) h)) (λ r. free b >> pure r))
  unfolding replaced
  temp-Ends t none b h k gap pos = tt
  temp-Ends t (some r) b h k gap pos =
      let h₁ = grant (some b) h in
      let here : h₁.live b ≡ true = ground arith in
      rw (free-live b h₁ pos here) (record {
        a_pos = k.a_pos;
        b_pos = k.b_pos;
        apart = k.apart;
        a_new = k.a_new;
        b_new = k.b_new;
        live = λ p. ground (arith, k.live p, gap);
      })

  moved-Ends :
      (location : Value → Value) (t : Owned) (o : Option ℕ) (h : Heap)
      → Owns base (some t) h
      → IsNew o h
      → Ends (λ r h'. Owns base (some r) h') (moved answer location t o (grant o h))
  unfolding moved
  moved-Ends location t none h k new = Holds-same k (λ p. refl)
  moved-Ends location t (some b) h k (gap, pos) =
      temp-Ends t (Gc.compact location true t.table) b h k gap pos

  compact-Ends :
      (location : Value → Value) (t : Owned) (h : Heap)
      → Owns base (some t) h
      → Ends (λ r h'. Owns base (some r) h') (compact answer location t h)
  unfolding compact malloc
  compact-Ends location t h k =
      elim (Bool-cases ((t.table.count == 0) || not (any_moved location t.table.entries))) [
        | inr m ↦ rw m (moved-Ends location t _ h k (IsFresh-IsNew answer h fresh))
        | inl s ↦ rw s (replaced-Ends t (Gc.compact location true t.table) h k)
      ]

  renew-Ends : (s : Option Owned) (h : Heap) → Owns base s h → Ends (Owns base) (renew answer s h)
  unfolding renew
  renew-Ends none h k = k
  renew-Ends (some t) h k =
      let (h', run, live) = table_free-Ends base (some t) h k in
      rw run (table_new-Ends 1024 h' live)

  perform-Ends :
      (c : Call) (s : Option Owned) (h : Heap)
      → Owns base s h
      → Ends (Owns base) (perform answer c s h)
  unfolding perform
  perform-Ends (inserts object klass datum) none h k = tt
  perform-Ends (inserts object klass datum) (some t) h k =
      Ends-bind (λ r h'. Owns base (some r) h') (Owns base) _ _
        (insert-Ends t object klass datum h k) (λ r h' e. e)
  perform-Ends (deletes object) none h k = tt
  perform-Ends (deletes object) (some t) h k = k
  perform-Ends (compacts location) none h k = k
  perform-Ends (compacts location) (some t) h k =
      Ends-bind (λ r h'. Owns base (some r) h') (Owns base) _ _ (compact-Ends location t h k)
        (λ r h' e. e)
  perform-Ends clears s h k = renew-Ends s h k

  pub perform_all-Ends :
      (cs : List Call) (s : Option Owned) (h : Heap)
      → Owns base s h
      → Ends (Owns base) (perform_all answer cs s h)
  unfolding perform_all
  perform_all-Ends [] s h k = k
  perform_all-Ends (c ∷ cs) s h k =
      Ends-bind (Owns base) (Owns base) _ _ (perform-Ends c s h k)
        (λ s' h' e. perform_all-Ends cs s' h' e)
