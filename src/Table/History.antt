-- ===== src/Table/History.antt =====
-- A table from its creation on: any history of operations against the map that it implements.
use memory_tracker.Base.{
  ℕ, suc, ◌+◌, ◌*◌, ◌≤◌, ◌≡◌, ◌∙◌, ◌⊎◌, inl, inr, true, false, arith, Option, Bool-cases, none,
  some, List, [], ◌∷◌,
}
use memory_tracker.Value.{Value, Ruby}
use memory_tracker.Table.{Table, max_probe_length, overloaded, delete, new, lookup}
use memory_tracker.Table.Slots.{view, update}
use memory_tracker.Table.Invariant.{IsKey}
use memory_tracker.Table.Valid.{IsValid, new-IsValid, read, lookup-view}
use memory_tracker.Table.Delete.{delete-Deletes}
use memory_tracker.Table.Store.{store, Stores, store-Stores}

pub data Call : Type 0 where
  stores : (object klass datum : Value) → Call
  deletes : (object : Value) → Call

abbrev pub Map : Type 0
Map = Value → Option (Value × Value)

-- What a history means: a map from objects to their class and state.
abbrev pub meaning : List Call → Map → Map
meaning [] m = m
meaning (stores o k d ∷ cs) m = meaning cs (update m o (some (k, d)))
meaning (deletes o ∷ cs) m = meaning cs (update m o none)

abbrev pub count_stores : List Call → ℕ
count_stores [] = 0
count_stores (stores o k d ∷ cs) = suc (count_stores cs)
count_stores (deletes o ∷ cs) = count_stores cs

module _ ⦃ruby : Ruby⦄ where
  abbrev pub call_key : Call → Value
  call_key (stores o k d) = o
  call_key (deletes o) = o

  abbrev pub HasKeys : List Call → Type 0
  HasKeys [] = Unit {0}
  HasKeys (c ∷ cs) = IsKey (call_key c) × HasKeys cs

  -- Every allocation succeeds.
  unfoldable pub run : List Call → Table → Table
  run [] t = t
  run (stores o k d ∷ cs) t = run cs (store true t o k d)
  run (deletes o ∷ cs) t = run cs (delete t o)

  -- The sizes that a table of Memory::Profiler::Capture goes through, up to 4096 insertions.
  abbrev pub IsSize : ℕ → Type 0
  IsSize c = (c ≡ 1024) ⊎ (c ≡ 2048) ⊎ (c ≡ 4096) ⊎ (c ≡ 8192)

  pub record Fits (stores_left : ℕ) (t : Table) : Type 0 where
    pub valid : IsValid t
    pub sized : IsSize t.capacity
    pub budget : t.count + t.tombstones + stores_left ≤ 4096

  small :
      {n : ℕ} (t : Table)
      → Fits (suc n) t
      → (overloaded t ≡ false) ⊎ (t.capacity * 2 ≤ max_probe_length)
  unfolding overloaded max_probe_length
  small t f = elim (Bool-cases (overloaded t)) [
    | inr light ↦ inl light
    | inl heavy ↦ inr (ground (arith, f.sized, f.budget))
  ]

  pub store-Fits :
      {n : ℕ} (t : Table) (o k d : Value)
      → Fits (suc n) t
      → IsKey o
      → Stores o (k, d) t (store true t o k d) × Fits n (store true t o k d)
  unfolding overloaded
  store-Fits t o k d f key =
      let s = store-Stores t o k d f.valid key (small t f) in
      (
        s,
        record {
          valid = s.valid;
          sized = ground (arith, s.capacity, f.sized, f.budget);
          budget = omega (arith, s.used, f.budget);
        },
      )

  run-reads :
      (cs : List Call) (t : Table) (m : Map)
      → HasKeys cs
      → Fits (count_stores cs) t
      → ((q : Value) → IsKey q → view t.entries q ≡ m q)
      → IsValid (run cs t) × ((q : Value) → IsKey q → view (run cs t).entries q ≡ meaning cs m q)
  unfolding run
  run-reads [] t m h f r = (f.valid, r)
  run-reads (stores o k d ∷ cs) t m h f r =
      let (s, g) = store-Fits t o k d f h.0 in
      run-reads cs (store true t o k d) (update m o (some (k, d))) h.1 g
        (λ q key. ground (arith, s.reads q key, r q key))
  run-reads (deletes o ∷ cs) t m h f r =
      let s = delete-Deletes f.valid o h.0 in
      run-reads cs (delete t o) (update m o none) h.1
        (record {
          valid = s.valid;
          sized = rw s.capacity f.sized;
          budget = omega (arith, s.total, f.budget);
        })
        (λ q key. ground (arith, s.reads q key, r q key))

  -- On a new table of 1024 slots, after any history of deletions and at most 4096 insertions, each
  -- with its allocation granted and its class and state written, lookup answers for every object
  -- what the history gave it last. Objects are neither zero nor Qnil.
  pub run-meaning :
      (cs : List Call) (o : Value)
      → HasKeys cs
      → IsKey o
      → count_stores cs ≤ 4096
      → (t : Table) × (new true true 1024 ≡ some t)
        × (read (run cs t) (lookup (run cs t) o) ≡ meaning cs (λ _. none) o)
  unfolding max_probe_length
  run-meaning cs o h key b =
      let (t, made, v, c, z, r) = new-IsValid 1024 (inr (omega arith, omega arith)) in
      let (w, reads) =
        run-reads cs t (λ _. none) h (record { valid = v; sized = inl c; budget = omega arith })
          r in
      (t, made, lookup-view w o key ∙ reads o key)
