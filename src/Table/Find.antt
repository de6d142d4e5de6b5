-- ===== src/Table/Find.antt =====
-- Where find_entry and find_insert_slot end in a sound array.
use memory_tracker.Base.{ℕ, ◌<◌, ◌≡◌, refl, inl, true, false, List, arith, none}
use memory_tracker.Value.{Value, Ruby}
use memory_tracker.Table.{Entry, at, hash_object, max_probe_length, find_entry, insert_loop}
use memory_tracker.Table.Search.{pos-lt, pos-zero, Passes, find_loop-hit, find_loop-miss}
use memory_tracker.Table.InsertSearch.{IsFree, insert_loop-hit, insert_loop-miss}
use memory_tracker.Table.Slots.{copies, copies-at}
use memory_tracker.Table.Invariant.{
  walk, Crowded, Ends, IsKey, Sound, hash_object-lt, Passes-reached, shorter,
}

module _ ⦃ruby : Ruby⦄ {c : ℕ} {es : List Entry} (s : Sound c es) (o : Value) where
  -- A search for an object that the array lacks passes every slot before the empty one.
  Passes-absent : copies o es ≡ 0 → (k : ℕ) → Crowded es c o k → Passes es c (hash_object o c) o 0 k
  Passes-absent absent k b e _ l =
      (b e l, λ x. absurd (omega (arith, copies-at o es _ (rw s.width (pos-lt c _ e s.room)) x)))

  module _ (ends : Ends es c o) where
    pub find_entry-absent :
        copies o es ≡ 0 → find_entry es c o ≡ record { index = walk c o ends.steps; found = false }
    unfolding find_entry
    find_entry-absent absent =
        let start = hash_object-lt o c s.room in
        let run =
          find_loop-miss es c (hash_object o c) o start max_probe_length 0 ends.steps (omega arith)
            ends.round (omega (arith, ends.short)) (Passes-absent absent ends.steps ends.before)
            ends.open_slot in
        rw (pos-zero c (hash_object o c) start) at run

    -- The place for a new object: free, and reached over slots that are not empty.
    pub insert_slot-absent :
        copies o es ≡ 0
        → (j : ℕ) × (j < c)
          × (insert_loop max_probe_length es c o (hash_object o c) none (hash_object o c)
              ≡ record { index = walk c o j; found = false })
          × IsFree es c (hash_object o c) (walk c o j)
          × Crowded es c o j
    insert_slot-absent absent =
        let start = hash_object-lt o c s.room in
        let (j, l, run, free) =
          insert_loop-miss es c (hash_object o c) o start max_probe_length 0 ends.steps none
            (omega arith) ends.round (omega (arith, ends.short)) (inl refl)
            (Passes-absent absent ends.steps ends.before) ends.open_slot in
        (
          j,
          omega (arith, ends.round),
          rw (pos-zero c (hash_object o c) start) at run,
          free,
          λ e m. ends.before e (omega arith),
        )

    module _ (key : IsKey o) (i : ℕ) (l : i < c) (here : (at es i).object ≡ o) where
      pub find_entry-present : find_entry es c o ≡ record { index = i; found = true }
      unfolding find_entry
      find_entry-present =
          let start = hash_object-lt o c s.room in
          let (d, m, e, passes) = Passes-reached s o key i l here in
          let near = shorter s o key d ends m (λ j x. (passes j (omega arith) x).0) in
          let run =
            find_loop-hit es c (hash_object o c) o start max_probe_length 0 d (omega arith) m
              (omega (arith, near, ends.short)) key.ne_zero key.ne_nil passes (rw e here) in
          rw (pos-zero c (hash_object o c) start, e) at run

      pub insert_slot-present :
          insert_loop max_probe_length es c o (hash_object o c) none (hash_object o c)
          ≡ record { index = i; found = true }
      insert_slot-present =
          let start = hash_object-lt o c s.room in
          let (d, m, e, passes) = Passes-reached s o key i l here in
          let near = shorter s o key d ends m (λ j x. (passes j (omega arith) x).0) in
          let run =
            insert_loop-hit es c (hash_object o c) o start max_probe_length 0 d none (omega arith) m
              (omega (arith, near, ends.short)) key.ne_zero key.ne_nil passes (rw e here) in
          rw (pos-zero c (hash_object o c) start, e) at run
