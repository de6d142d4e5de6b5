-- ===== src/Memory/Granted.antt =====
-- Runs in which no request for memory is refused: tables stay valid, and nothing is undefined.
use memory_tracker.Base.{
  ℕ, suc, ◌≤◌, ◌≡◌, refl, inl, inr, arith, Bool, true, false, not, ◌||◌, Option, none, some, List,
  [], ◌∷◌, ◌==◌, Bool-cases,
}
use memory_tracker.Value.{Value, Ruby}
use memory_tracker.Table.{Table, overloaded, max_probe_length}
use memory_tracker.Table.Gc.{any_moved}
use memory_tracker.Table.Invariant.{IsKey}
use memory_tracker.Table.Valid.{new-IsValid}
use memory_tracker.Table.Relocate.{Moves}
use memory_tracker.Table.Compact.{compact-Compacts}
use memory_tracker.Table.Delete.{delete-Deletes}
use memory_tracker.Table.History.{Fits, store-Fits}
use memory_tracker.Capture.Session.MovedEvents.{IsMove}
use memory_tracker.Memory.{Heap, Cmd, and_then, Allocator, pure, grant, malloc, free}
use memory_tracker.Memory.Blocks.{
  Owned, CaptureBlocks, table_free, new_entries, new_table, table_new, resized, resize, insert,
  moved, replaced, compact, Call, inserts, deletes, compacts, clears, renew, perform, perform_all,
  alloc_states, alloc_tracked, capture_alloc,
}
use memory_tracker.Memory.Refusals.{
  Keeps, Refuses-bind, Sure, Refuses-Sure, Sure-bind, free-Keeps, free-Sure, table_free-Sure,
  new_entries-Keeps, new_table-Keeps, table_new-Keeps, resized-Keeps, moved-Keeps,
  perform_all-Keeps,
}

module _ ⦃ruby : Ruby⦄ where
  -- The table is there, and may take so many objects more.
  abbrev pub Serves : ℕ → Option Owned → Type 0
  Serves n none = ⊥
  Serves n (some o) = Fits n o.table

  -- Calls about objects, with compactions that move no two of them to one address.
  abbrev pub IsProper : Call → Type 0
  IsProper (inserts object klass datum) = IsKey object
  IsProper (deletes object) = IsKey object
  IsProper (compacts location) = IsMove location
  IsProper clears = Unit {0}

  abbrev pub AreProper : List Call → Type 0
  AreProper [] = Unit {0}
  AreProper (c ∷ cs) = IsProper c × AreProper cs

  abbrev pub count_inserts : List Call → ℕ
  count_inserts [] = 0
  count_inserts (inserts object klass datum ∷ cs) = suc (count_inserts cs)
  count_inserts (deletes object ∷ cs) = count_inserts cs
  count_inserts (compacts location ∷ cs) = count_inserts cs
  count_inserts (clears ∷ cs) = count_inserts cs

  -- Where alloc returns, the object table is there.
  abbrev pub Returns : ℕ → Bool × CaptureBlocks → Type 0
  Returns n (true, b) = Serves n b.states
  Returns n (false, b) = Unit {0}

module _ ⦃ruby : Ruby⦄ (answer : Allocator) where
  -- What follows a request that is granted.
  granted-Sure {ℓ} :
      {B : Type ℓ} (Q : B → Type 0) (f : Option ℕ → Cmd B) (h : Heap)
      → ((o : Option ℕ) → Keeps (f o))
      → ((p : ℕ) (h' : Heap) → Sure Q (f (some p) h'))
      → Sure Q (and_then (malloc answer h) f)
  unfolding malloc
  granted-Sure Q f h k g = go (answer h.asked h.live)
    where
      go : (o : Option ℕ) → Sure Q (f o (grant o h))
      go none = Refuses-Sure Q (f none (grant none h)) (k none (grant none h) refl)
      go (some p) = g p (grant (some p) h)

  table_new-Sure : (n : ℕ) (h : Heap) → n ≤ 4096 → Sure (Serves n) (table_new answer 1024 h)
  unfolding table_new new_table new_entries max_probe_length
  table_new-Sure n h l =
      let (t, made, v, c, z, r) = new-IsValid 1024 (inr (omega arith, omega arith)) in
      granted-Sure (Serves n) (new_table answer 1024) h (new_table-Keeps answer 1024) (λ base h'.
        granted-Sure (Serves n) (new_entries answer 1024 base) h'
          (new_entries-Keeps answer 1024 base)
          (λ entries h''.
            rw made (inr (record { valid = v; sized = inl c; budget = omega arith }))))

  resize-Sure : (o : Owned) (h : Heap) → Sure (λ (x : Bool × Owned). x.0 ≡ true) (resize answer o h)
  unfolding resize resized
  resize-Sure o h =
      granted-Sure (λ (x : Bool × Owned). x.0 ≡ true) (resized answer o) h (resized-Keeps answer o)
        (λ p h'.
          Sure-bind (λ _. Unit {0}) (λ (x : Bool × Owned). x.0 ≡ true) (free o.entries h')
            (λ _. pure (true, record o { entries = p })) (free-Sure o.entries h') (λ _ h'' r. r)
            (λ _ h'' _. inr refl))

  insert-Sure :
      (n : ℕ) (o : Owned) (object klass datum : Value) (h : Heap)
      → Fits (suc n) o.table
      → IsKey object
      → Sure (λ (r : Owned). Fits n r.table) (insert answer o object klass datum h)
  unfolding insert resize resized
  insert-Sure n o object klass datum h f key =
      let (_, g) = store-Fits o.table object klass datum f key in
      elim (Bool-cases (overloaded o.table)) [
        | inl y ↦ rw y (
            Sure-bind (λ (x : Bool × Owned). x.0 ≡ true) (λ (r : Owned). Fits n r.table)
              (resize answer o h) _ (resize-Sure o h) (λ x h' r. r) (λ x h' y. inr (rw y g)))
        | inr light ↦ rw light (inr g)
      ]

  compact-Sure :
      (n : ℕ) (location : Value → Value) (o : Owned) (h : Heap)
      → Fits n o.table
      → IsMove location
      → Sure (λ (r : Owned). Fits n r.table) (compact answer location o h)
  unfolding compact moved replaced
  compact-Sure n location o h f move =
      let (t, e, c) = compact-Compacts location f.valid (moves_any o.table) in
      let g : Fits n t = record {
        valid = c.valid;
        sized = rw c.capacity f.sized;
        budget = omega (arith, c.count, c.used, f.budget);
      } in
      elim (Bool-cases ((o.table.count == 0) || not (any_moved location o.table.entries))) [
        | inl y ↦ rw y (rw e (inr g))
        | inr m ↦ rw m (
            granted-Sure (λ (r : Owned). Fits n r.table) (moved answer location o) h
              (moved-Keeps answer location o)
              (λ p h'. rw e (
                Sure-bind (λ _. Unit {0}) (λ (r : Owned). Fits n r.table) (free p h')
                  (λ _. pure (record o { table = t })) (free-Sure p h') (λ _ h'' r. r)
                  (λ _ h'' _. inr g))))
      ]
    where
      moves_any : (t : Table) → Moves location t.entries
      moves_any t = record {
        lands = λ o k p. move.lands o k;
        apart = λ a b j k p q e. move.apart a b e;
      }

  perform-Sure :
      (c : Call) (cs : List Call) (o : Owned) (h : Heap)
      → IsProper c
      → Fits (count_inserts (c ∷ cs)) o.table
      → Sure (Serves (count_inserts cs)) (perform answer c (some o) h)
  unfolding perform renew
  perform-Sure (inserts object klass datum) cs o h p f =
      Sure-bind (λ (r : Owned). Fits (count_inserts cs) r.table) (Serves (count_inserts cs))
        (insert answer o object klass datum h) (λ r. pure (some r))
        (insert-Sure (count_inserts cs) o object klass datum h f p) (λ r h' x. x) (λ r h' g. inr g)
  perform-Sure (deletes object) cs o h p f =
      let d = delete-Deletes f.valid object p in
      inr (record {
        valid = d.valid;
        sized = rw d.capacity f.sized;
        budget = omega (arith, d.total, f.budget);
      })
  perform-Sure (compacts location) cs o h p f =
      Sure-bind (λ (r : Owned). Fits (count_inserts cs) r.table) (Serves (count_inserts cs))
        (compact answer location o h) (λ r. pure (some r))
        (compact-Sure (count_inserts cs) location o h f p) (λ r h' x. x) (λ r h' g. inr g)
  perform-Sure clears cs o h p f =
      Sure-bind (λ _. Unit {0}) (Serves (count_inserts cs)) (table_free (some o) h)
        (λ _. table_new answer 1024) (table_free-Sure (some o) h) (λ _. table_new-Keeps answer 1024)
        (λ _ h' _. table_new-Sure (count_inserts cs) h' (omega (arith, f.budget)))

  pub perform_all-Sure :
      (cs : List Call) (s : Option Owned) (h : Heap)
      → AreProper cs
      → Serves (count_inserts cs) s
      → Sure (Serves 0) (perform_all answer cs s h)
  unfolding perform_all
  perform_all-Sure cs none h p f = elim f [ ]
  perform_all-Sure [] (some o) h p f = inr f
  perform_all-Sure (c ∷ cs) (some o) h (p, ps) f =
      Sure-bind (Serves (count_inserts cs)) (Serves 0) (perform answer c (some o) h)
        (perform_all answer cs) (perform-Sure c cs o h p f) (perform_all-Keeps answer cs)
        (λ s h' g. perform_all-Sure cs s h' ps g)

  states-Sure :
      (n capture t : ℕ) (s : Option Owned) (h : Heap)
      → Serves n s
      → Sure (Returns n) (alloc_states answer capture t s h)
  unfolding alloc_states
  states-Sure n capture t none h f = elim f [ ]
  states-Sure n capture t (some o) h f = inr f

  states-Keeps : (capture t : ℕ) (s : Option Owned) → Keeps (alloc_states answer capture t s)
  unfolding alloc_states
  states-Keeps capture t none h r = Refuses-bind (free t h) _ (free-Keeps t h r) (λ _ h' r'. r')
  states-Keeps capture t (some o) h r = r

  tracked-Keeps : (capture : ℕ) (o : Option ℕ) → Keeps (alloc_tracked answer capture o)
  unfolding alloc_tracked
  tracked-Keeps capture none h r = r
  tracked-Keeps capture (some t) h r =
      Refuses-bind (table_new answer 1024 h) (alloc_states answer capture t)
        (table_new-Keeps answer 1024 h r) (states-Keeps capture t)

  pub capture_alloc-Sure :
      (n capture : ℕ) (h : Heap) → n ≤ 4096 → Sure (Returns n) (capture_alloc answer capture h)
  unfolding capture_alloc alloc_tracked
  capture_alloc-Sure n capture h l =
      granted-Sure (Returns n) (alloc_tracked answer capture) h (tracked-Keeps capture) (λ t h'.
        Sure-bind (Serves n) (Returns n) (table_new answer 1024 h') (alloc_states answer capture t)
          (table_new-Sure n h' l) (states-Keeps capture t)
          (λ s h'' g. states-Sure n capture t s h'' g))
