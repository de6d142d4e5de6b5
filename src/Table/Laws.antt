-- ===== src/Table/Laws.antt =====
-- The operations of the table against the map from objects to classes and states.
use mathlib.Core.Option
use memory_tracker.Base.{
  ℕ, ◌+◌, ◌*◌, ◌≤◌, ◌<◌, ◌≡◌, ◌≢◌, ◌⊎◌, true, false, some, none, arith, if◌then◌else◌, ◌==◌, ◌↔◌,
  ◌&&◌, List, [], ◌∷◌, inl, inr, sym, ap, ◌∙◌, Bool-cases,
}
use memory_tracker.Value.{Value, Ruby}
use memory_tracker.Table.{
  Entry, is_live, Table, new, initial_capacity, at, max_probe_length, insert, resize_table,
  overloaded, delete,
}
use memory_tracker.Table.Slots.{view, update, copies, view-eq-none}
use memory_tracker.Table.Rehash.{is_live-IsKey}
use memory_tracker.Table.Invariant.{IsKey}
use memory_tracker.Table.Valid.{IsValid, new-IsValid}
use memory_tracker.Table.Resize.{resize_table-Resizes}
use memory_tracker.Table.Insert.{insert-Inserts, kept, one_if_new}
use memory_tracker.Table.Delete.{delete-Deletes, one_if_held}
use memory_tracker.Table.Gc.{compact}
use memory_tracker.Table.Relocate.{both, Moves}
use memory_tracker.Table.Compact.{compact-Compacts}

module _ ⦃ruby : Ruby⦄ where
  -- new, with both allocations granted, for an initial capacity of zero or of 3 to MAX_PROBE_LENGTH
  -- slots: the table is valid, holds no object, and has the capacity asked for, which for zero is
  -- 1024.
  view-new :
      (n : ℕ) (o : Value)
      → IsKey o
      → (n ≡ 0) ⊎ ((2 < n) × (n ≤ max_probe_length))
      → (t : Table) × (new true true n ≡ some t)
        × IsValid t
        × (t.capacity ≡ (if n == 0 then initial_capacity else n))
        × (t.count ≡ 0)
        × (view t.entries o ≡ none)
  view-new n o key b =
      let (t, e, v, c, z, r) = new-IsValid n b in (t, e, v, c, omega (arith, z), r o key)

  -- Where a value is the new address of an object of the array, that object.
  source :
      (location : Value → Value) (q : Value) (es : List Entry)
      → ((o : Value) × IsKey o × (0 < copies o es) × (location o ≡ q))
        ⊎ ((o : Value) → IsKey o → 0 < copies o es → location o ≢ q)
  unfolding copies
  source location q [] = inr (λ o k l e. omega (arith, l))
  source location q (e ∷ es) = elim (source location q es) [
    | inl (o, k, l, lands) ↦ inl (o, k, ground arith, lands)
    | inr none_after ↦ elim (Bool-cases (is_live e && (location e.object == q))) [
      | inl y ↦ inl (e.object, is_live-IsKey e (ground arith), ground arith, ground arith)
      | inr n ↦ inr (λ o k l lands. elim (Bool-cases (e.object == o)) [
        | inl here ↦ ground (arith, k.ne_zero, k.ne_nil)
        | inr further ↦ none_after o k (ground arith) lands
      ])
    ]
  ]

module _ ⦃ruby : Ruby⦄ (t : Table) (v : IsValid t) where
  -- insert, with its allocation granted, on a valid table that need not grow or that may grow
  -- within MAX_PROBE_LENGTH slots: the table stays valid, the entry returned is the object's, the
  -- count goes up by one if the object is new, and every object reads as before but the inserted
  -- one, which keeps its class and state, or has zeros if it is new.
  pub view-insert :
      (o q : Value)
      → IsKey o
      → IsKey q
      → (overloaded t ≡ false) ⊎ (t.capacity * 2 ≤ max_probe_length)
      → let r = insert true t o in
        IsValid r.0
        × (r.1 < r.0.capacity)
        × ((at r.0.entries r.1).object ≡ o)
        × (r.0.count ≡ t.count + one_if_new (view t.entries o))
        × (view r.0.entries q ≡ update (view t.entries) o (some (kept (view t.entries o))) q)
  view-insert o q key k b =
      let n = insert-Inserts t o v key b in (n.valid, n.in_range, n.here, n.count, n.reads q k)

  -- resize_table on a valid table, with its allocation granted and at most MAX_PROBE_LENGTH slots
  -- afterwards: the table is valid, has twice the slots, the same count and no tombstones, and
  -- every object reads as before.
  pub view-resize_table :
      (q : Value)
      → IsKey q
      → t.capacity * 2 ≤ max_probe_length
      → let r = resize_table true t in
        IsValid r
        × (r.capacity ≡ t.capacity * 2)
        × (r.count ≡ t.count)
        × (r.tombstones ≡ 0)
        × (view r.entries q ≡ view t.entries q)
  view-resize_table q k b =
      let r = resize_table-Resizes t v b in (r.valid, r.capacity, r.count, r.cleared, r.reads q k)

  -- delete on a valid table: it stays valid, the object is gone, every other object reads as
  -- before, the count goes down by one if the object was there, and count and tombstones together
  -- stay the same.
  pub view-delete :
      (o q : Value)
      → IsKey o
      → IsKey q
      → let r = delete t o in
        IsValid r
        × (t.count ≡ r.count + one_if_held (view t.entries o))
        × (r.count + r.tombstones ≡ t.count + t.tombstones)
        × (view r.entries q ≡ update (view t.entries) o none q)
  view-delete o q key k = let d = delete-Deletes v o key in (d.valid, d.held, d.total, d.reads q k)

  -- compact on a valid table, with its allocation granted and no object moved onto another, onto
  -- zero or onto Qnil: it stays inside its temporary array, the table stays valid with the same
  -- count, and afterwards it holds an address with a class and a state exactly if an object that it
  -- held has moved there and these are what it had, brought up to date. The address is neither zero
  -- nor Qnil.
  pub view-compact :
      (location : Value → Value)
      → Moves location t.entries
      → (q : Value) (x : Value × Value) → IsKey q
      → (r : Table) × (compact location true t ≡ some r)
        × IsValid r
        × (r.count ≡ t.count)
        × ((view r.entries q ≡ some x) ↔ (
            (o : Value) × IsKey o
            × (location o ≡ q)
            × (Option.map (both location) (view t.entries o) ≡ some x)))
  view-compact location moves q x key =
      let (r, e, c) = compact-Compacts location v moves in
      (
        r,
        e,
        c.valid,
        c.count,
        (
          λ h. elim (source location q t.entries) [
            | inl (o, k, held, lands) ↦
                (o, k, lands, sym (c.reads o k held) ∙ ap (view r.entries) lands ∙ h)
            | inr nowhere ↦ let gone : view r.entries q ≡ none = c.only q key nowhere in absurd (cc)
          ],
          λ (o, k, lands, h).
              let held : 0 < copies o t.entries = ground (arith, view-eq-none o t.entries, h) in
              ap (view r.entries) (sym lands) ∙ c.reads o k held ∙ h,
        ),
      )
