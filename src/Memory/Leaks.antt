-- ===== src/Memory/Leaks.antt =====
-- The blocks of a capture from its allocation until it is collected.
use memory_tracker.Base.{
  ℕ, ◌≡◌, ◌≢◌, refl, subst, ◌∙◌, ◌⊎◌, ◌≤◌, inl, inr, arith, Bool, true, false, Option, none, some,
  List, ◌==◌, if◌then◌else◌, ne→==,
}
use memory_tracker.Value.{Ruby}
use memory_tracker.Memory.{
  Heap, Run, ok, bad_free, undefined, and_then, Allocator, IsFresh, ◌>>=◌, mark, grant, malloc,
}
use memory_tracker.Memory.Blocks.{
  Owned, CaptureBlocks, capture_free, Call, perform_all, alloc_states, alloc_tracked, capture_alloc,
}
use memory_tracker.Memory.Refusals.{Sure, Refuses-Sure, perform_all-Keeps}
use memory_tracker.Memory.Granted.{
  Serves, AreProper, count_inserts, Returns, capture_alloc-Sure, perform_all-Sure,
}
use memory_tracker.Memory.Ends.{Ends, Ends-bind, free-live, free-dead, IsNew, IsFresh-IsNew}
use memory_tracker.Memory.Owns.{Owns, table_free-Ends, table_new-Ends, perform_all-Ends}

-- The blocks of others, and one more.
abbrev plus : ℕ → (ℕ → Bool) → ℕ → Bool
plus t live p = if t == p then true else live p

-- What an allocation of a capture leaves, by whether it returns or raises.
abbrev Made : ℕ → (ℕ → Bool) → Bool × CaptureBlocks → Heap → Type 0
Made capture live (true, b) h =
    (b.capture ≡ capture)
    × (b.tracked ≢ 0)
    × (live b.tracked ≡ false)
    × Owns (plus b.tracked live) b.states h
Made capture live (false, b) h = b.tracked ≢ 0 → h.live b.tracked ≡ false

module _ ⦃ruby : Ruby⦄ (answer : Allocator) (fresh : IsFresh answer) (capture : ℕ) where
  states-Made :
      (live : ℕ → Bool) (t : ℕ) (s : Option Owned) (h : Heap)
      → t ≢ 0
      → live t ≡ false
      → Owns (plus t live) s h
      → Ends (Made capture live) (alloc_states answer capture t s h)
  unfolding alloc_states
  states-Made live t none h n gap k =
      let here : h.live t ≡ true = ground (arith, k t) in
      rw (free-live t h n here) (λ m. ground arith)
  states-Made live t (some o) h n gap k = (refl, n, gap, k)

  tracked-Made :
      (o : Option ℕ) (h : Heap)
      → IsNew o h
      → Ends (Made capture h.live) (alloc_tracked answer capture o (grant o h))
  unfolding alloc_tracked
  tracked-Made none h new = λ n. absurd (n refl)
  tracked-Made (some t) h (gap, pos) =
      Ends-bind (Owns (plus t h.live)) (Made capture h.live) _ _
        (table_new-Ends answer fresh (plus t h.live) 1024 (grant (some t) h) (λ p. refl))
        (λ s h' k. states-Made h.live t s h' pos gap k)

  alloc-Made : (h : Heap) → Ends (Made capture h.live) (capture_alloc answer capture h)
  unfolding capture_alloc malloc
  alloc-Made h = tracked-Made _ h (IsFresh-IsNew answer h fresh)

  -- Taking the st_table away leaves what the object table owns.
  without :
      (live : ℕ → Bool) (t : ℕ) (s : Option Owned) (h : Heap)
      → live t ≡ false
      → Owns (plus t live) s h
      → Owns live s (mark t false h)
  without live t none h gap k = λ p. ground (arith, k p, gap)
  without live t (some o) h gap k = record {
    a_pos = k.a_pos;
    b_pos = k.b_pos;
    apart = k.apart;
    a_new = ground (arith, k.a_new);
    b_new = ground (arith, k.b_new);
    live = λ p. ground (arith, k.live p, k.a_new, k.b_new, gap);
  }

  tracked-live :
      (live : ℕ → Bool) (t : ℕ) (s : Option Owned) (h : Heap)
      → Owns (plus t live) s h
      → h.live t ≡ true
  tracked-live live t none h k = ground (arith, k t)
  tracked-live live t (some o) h k = ground (arith, k.live t)

  free-Made :
      (live : ℕ → Bool) (b : CaptureBlocks) (h : Heap)
      → capture ≢ 0
      → live capture ≡ true
      → Made capture live (true, b) h
      → (h' : Heap) × (capture_free b h ≡ ok tt h')
        × ((p : ℕ) → h'.live p ≡ (if capture == p then false else live p))
  unfolding capture_free
  free-Made live b h n here (same, m, gap, k) =
      let h₁ = mark b.tracked false h in
      let (h₂, run, rest) =
        table_free-Ends live b.states h₁ (without live b.tracked b.states h gap k) in
      let last : h₂.live b.capture ≡ true = rw same (rest capture ∙ here) in
      let pos : b.capture ≢ 0 = rw same n in
      (
        mark b.capture false h₂,
        rw (ne→== b.tracked 0 m) (
            rw (free-live b.tracked h m (tracked-live live b.tracked b.states h k))
              (rw run (free-live b.capture h₂ pos last))),
        λ p. ground (arith, rest p, same),
      )

  -- The end of the calls, and the collection after it.
  collected :
      (live : ℕ → Bool) (b : CaptureBlocks) (s : Run (Option Owned))
      → capture ≢ 0
      → live capture ≡ true
      → b.capture ≡ capture
      → b.tracked ≢ 0
      → live b.tracked ≡ false
      → Ends (Owns (plus b.tracked live)) s
      → Sure (Serves 0) s
      → ((h₂ : Heap) × (s ≡ undefined h₂) × (h₂.refused ≡ true))
        ⊎ ((h₂ : Heap) × (and_then s (λ s. capture_free (record b { states = s })) ≡ ok tt h₂)
            × ((p : ℕ) → h₂.live p ≡ (if capture == p then false else live p)))
  collected live b (ok s h) n here same m gap k sure =
      inr (free-Made live (record b { states = s }) h n here (same, m, gap, k))
  collected live b bad_free n here same m gap k sure = elim k [ ]
  collected live b (undefined h) n here same m gap k sure = inl (h, refl, sure)

  -- The calls after alloc has returned.
  calls-Sure :
      (calls : List Call) (b : CaptureBlocks) (h h₁ : Heap)
      → AreProper calls
      → count_inserts calls ≤ 4096
      → capture_alloc answer capture h ≡ ok (true, b) h₁
      → Sure (Serves 0) (perform_all answer calls b.states h₁)
  calls-Sure calls b h h₁ proper few run =
      let n : ℕ = count_inserts calls in
      elim (subst (Sure (Returns n)) run (capture_alloc-Sure answer n capture h few)) [
        | inl r ↦
            Refuses-Sure (Serves 0) (perform_all answer calls b.states h₁)
              (perform_all-Keeps answer calls b.states h₁ r)
        | inr there ↦ perform_all-Sure answer calls b.states h₁ proper there
      ]

  -- On an allocator that grants only blocks that are not NULL and not allocated: after Capture's
  -- alloc has returned, with its struct granted by Ruby, any insertions and deletions of objects,
  -- compactions and clears follow, any of which may fail to allocate, and then the free of the
  -- capture. At most 4096 of these calls are insertions, objects are neither zero nor Qnil, and a
  -- compaction moves no two objects to one address and none to zero or Qnil. Either the calls have
  -- undefined behaviour after a request for memory was refused, or they and the free of the capture
  -- succeed, no block is freed that is not allocated, and afterwards the allocated blocks are those
  -- from before alloc without the struct of the capture.
  pub capture_free-live :
      (calls : List Call) (b : CaptureBlocks) (h h₁ : Heap)
      → capture ≢ 0
      → h.live capture ≡ true
      → AreProper calls
      → count_inserts calls ≤ 4096
      → capture_alloc answer capture h ≡ ok (true, b) h₁
      → ((h₂ : Heap) × (perform_all answer calls b.states h₁ ≡ undefined h₂) × (h₂.refused ≡ true))
        ⊎ ((h₂ : Heap) × ((perform_all answer calls b.states >>= λ s.
                  capture_free (record b { states = s }))
                h₁
              ≡ ok tt h₂)
            × ((p : ℕ) → h₂.live p ≡ (if capture == p then false else h.live p)))
  capture_free-live calls b h h₁ n here proper few run =
      let (same, m, gap, k) = subst (Ends (Made capture h.live)) run (alloc-Made h) in
      collected h.live b (perform_all answer calls b.states h₁) n here same m gap
        (perform_all-Ends answer fresh (plus b.tracked h.live) calls b.states h₁ k)
        (calls-Sure calls b h h₁ proper few run)

  -- On an allocator that grants only blocks that are not NULL and not allocated: where Capture's
  -- alloc raises with the pointer to the tracked classes set, the free of the object that it leaves
  -- frees a block that is not allocated.
  pub capture_free-raised :
      (b : CaptureBlocks) (h h₁ : Heap)
      → capture_alloc answer capture h ≡ ok (false, b) h₁
      → b.tracked ≢ 0
      → capture_free b h₁ ≡ bad_free
  unfolding capture_free
  capture_free-raised b h h₁ run n =
      let dead = subst (Ends (Made capture h.live)) run (alloc-Made h) in
      rw (ne→== b.tracked 0 n) (rw (free-dead b.tracked h₁ n (dead n)) refl)
