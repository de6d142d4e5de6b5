-- ===== src/Capture/Balance/Parts.antt =====
-- What counting, storing and freeing do to the account of a capture.
use memory_tracker.Base.{
  ℕ, suc, ◌+◌, ◌*◌, ◌≤◌, ◌≡◌, refl, sym, ap, ◌∙◌, subst, ◌⊎◌, inl, inr, arith, true, false, Option,
  none, some, Bool-cases, inc, inc_lem,
}
use memory_tracker.Value.{Value, Ruby}
use memory_tracker.Table.{lookup, delete, delete_entry, Table, overloaded, max_probe_length}
use memory_tracker.Table.Invariant.{IsKey}
use memory_tracker.Table.Insert.{one_if_new}
use memory_tracker.Table.Valid.{IsValid, lookup-view, read}
use memory_tracker.Table.Delete.{one_if_held, delete-Deletes, delete_entry-lookup}
use memory_tracker.Table.Store.{store, Stores, store-Stores}
use memory_tracker.Table.Slots.{view}
use memory_tracker.World.{Capture, found}
use memory_tracker.Capture.Balance.{Account}

module _ ⦃ruby : Ruby⦄ where
  -- What an account does not depend on.
  pub Account-same :
      {a b n : ℕ} (c c' : Capture)
      → c'.states ≡ c.states
      → c'.new_count ≡ c.new_count
      → c'.free_count ≡ c.free_count
      → Account a b n c
      → Account a b n c'
  Account-same c c' s p q h = record {
    table = h.table;
    holds = cc h.holds;
    valid = h.valid;
    sized = h.sized;
    balance = omega (arith, h.balance);
    used = omega (arith, h.used);
    budget = omega (arith, h.budget);
  }

  pub Account-counted :
      (n : ℕ) (c : Capture)
      → Account 0 0 (suc n) c
      → Account 1 1 n (record c { new_count = inc c.new_count })
  Account-counted n c h =
      let up = inc_lem c.new_count (omega (arith, h.budget)) in
      record {
        table = h.table;
        holds = h.holds;
        valid = h.valid;
        sized = h.sized;
        balance = omega (arith, h.balance, up);
        used = omega (arith, h.used, up);
        budget = omega (arith, h.budget, up);
      }

  -- A table that is within its budget may grow.
  may_grow :
      {a n : ℕ} {c : Capture} (h : Account a 1 n c)
      → (overloaded h.table ≡ false) ⊎ (h.table.capacity * 2 ≤ max_probe_length)
  unfolding overloaded max_probe_length
  may_grow h = elim (Bool-cases (overloaded h.table)) [
    | inr light ↦ inl light
    | inl heavy ↦ inr (ground (arith, h.sized, h.used, h.budget))
  ]

  one_if_new-le : (o : Option (Value × Value)) → one_if_new o ≤ 1
  one_if_new-le none = omega arith
  one_if_new-le (some x) = omega arith

  stored-sized :
      {a n : ℕ} {c : Capture} (h : Account a 1 n c) (object : Value) (x : Value × Value) (r : Table)
      → Stores object x h.table r
      → (r.capacity ≡ 1024) ⊎ (r.capacity ≡ 2048) ⊎ (r.capacity ≡ 4096) ⊎ (r.capacity ≡ 8192)
  unfolding overloaded
  stored-sized h object x r s = ground (arith, s.capacity, h.sized, h.used, h.budget)

  pub Account-stored :
      (n : ℕ) (c : Capture) (object klass datum : Value) (t : Table)
      → IsKey object
      → c.states ≡ some t
      → Account 1 1 n c
      → Account 0 0 n (record c { states = some (store true t object klass datum) })
  Account-stored n c object klass datum t key e h =
      let same : h.table ≡ t = cc (h.holds) in
      let s = store-Stores h.table object klass datum h.valid key (may_grow h) in
      subst
        (λ (t : Table).
          Account 0 0 n (record c { states = some (store true t object klass datum) }))
        same
        (record {
          table = store true h.table object klass datum;
          holds = refl;
          valid = s.valid;
          sized = stored-sized h object (klass, datum) _ s;
          balance = omega (arith, h.balance, s.count, one_if_new-le (view h.table.entries object));
          used = omega (arith, h.used, s.used);
          budget = h.budget;
        })

  one_held : (o : Option (Value × Value)) (x : Value × Value) → o ≡ some x → one_if_held o ≡ 1
  one_held none x e = cc
  one_held (some y) x e = refl

  -- Taking an object out of the table sets a free aside for it.
  pub Account-deleted :
      (n : ℕ) (c : Capture) (object : Value) (t : Table) (i : ℕ)
      → IsKey object
      → c.states ≡ some t
      → lookup t object ≡ some i
      → Account 0 0 n c
      → Account 1 0 n (record c { states = some (delete_entry t i) })
  Account-deleted n c object t i key e found h =
      let same : h.table ≡ t = cc (h.holds) in
      let v : IsValid t = subst IsValid same h.valid in
      let d = delete-Deletes v object key in
      let one =
        one_held (view t.entries object) _ (sym (lookup-view v object key) ∙ ap (read t) found) in
      let total : t.count + t.tombstones ≤ c.new_count =
        subst (λ (t : Table). t.count + t.tombstones ≤ c.new_count) same (omega (arith, h.used)) in
      let balance : c.free_count + t.count ≤ c.new_count =
        subst (λ (t : Table). c.free_count + t.count ≤ c.new_count) same
          (omega (arith, h.balance)) in
      rw (delete_entry-lookup v object key i found) (record {
        table = delete t object;
        holds = refl;
        valid = d.valid;
        sized = rw d.capacity (
            subst
              (λ (t : Table).
                (t.capacity ≡ 1024)
                ⊎ (t.capacity ≡ 2048)
                ⊎ (t.capacity ≡ 4096)
                ⊎ (t.capacity ≡ 8192))
              same h.sized);
        balance = omega (arith, balance, d.held, one);
        used = omega (arith, total, d.total);
        budget = h.budget;
      })

  pub Account-freed :
      (n : ℕ) (c : Capture)
      → Account 1 0 n c
      → Account 0 0 n (record c { free_count = inc c.free_count })
  Account-freed n c h =
      let up = inc_lem c.free_count (omega (arith, h.balance, h.budget)) in
      record {
        table = h.table;
        holds = h.holds;
        valid = h.valid;
        sized = h.sized;
        balance = omega (arith, h.balance, up);
        used = omega (arith, h.used, up);
        budget = h.budget;
      }
