-- ===== src/Memory/Returned.antt =====
-- The blocks of the event queues from the start on until the events are freed.
use memory_tracker.Base.{
  ℕ, ◌≡◌, ◌≢◌, refl, sym, subst, inl, inr, arith, Bool, true, false, Option, none, some, List, [],
  ◌∷◌, ◌==◌, ltb, Bool-cases, ==→eq, inc,
}
use memory_tracker.Queue
use memory_tracker.Queue.{Queue, Outcome, failed, unchanged, resized}
use memory_tracker.Events.{Event, Side, first, second}
use memory_tracker.Memory.{Heap, Run, ok, and_then, Allocator, IsFresh, ◌>>=◌, mark, grant, malloc}
use memory_tracker.Memory.Ends.{free-live}
use memory_tracker.Memory.Queues.{
  QueueBlock, EventsBlocks, put_block, queue_free, events_free, events_new, QueueCall, pushes,
  clears, vacated, regrant, realloc, extended, resize_with, queue_resize, queue_taken, queue_push,
  queue_call, queue_calls,
}
use memory_tracker.Memory.TwoBlocks.{
  HoldsTwo, HoldsTwo-swap, free-HoldsTwo, live_block, or_base, malloc-HoldsTwo, regranted-HoldsTwo,
}

-- The command succeeds, and `P` holds afterwards.
abbrev pub Succeeds {ℓ} : {A : Type ℓ} → (A → Heap → Type 0) → Run A → Type ℓ
Succeeds {A = A} P s = (a : A) × (h : Heap) × (s ≡ ok a h) × P a h

module _ (base : ℕ → Bool) where
  queue_free-HoldsTwo :
      (q : QueueBlock) (b : ℕ) (h : Heap)
      → HoldsTwo base q.base b h
      → Succeeds (λ r h'. HoldsTwo base 0 b h') (queue_free q h)
  unfolding queue_free
  queue_free-HoldsTwo q b h k = elim (Bool-cases (q.base == 0)) [
    | inl null ↦ (
      record { queue = Queue.free q.queue; base = 0 },
      h,
      rw null refl,
      subst (λ (a : ℕ). HoldsTwo base a b h) (==→eq q.base 0 null) k,
    )
    | inr set ↦
        let n : q.base ≢ 0 = ground (arith, set) in
        (
          record { queue = Queue.free q.queue; base = 0 },
          mark q.base false h,
          rw set (rw (free-live q.base h n (live_block base q.base b h n k)) refl),
          free-HoldsTwo base q.base b h n k,
        )
  ]

  events_free-HoldsTwo :
      (b : EventsBlocks) (h : Heap)
      → HoldsTwo base b.queue0.base b.queue1.base h
      → (h' : Heap) × (events_free b h ≡ ok tt h') × ((p : ℕ) → h'.live p ≡ base p)
  unfolding events_free
  events_free-HoldsTwo b h k =
      let (r₀, h₀, run₀, k₀) = queue_free-HoldsTwo b.queue0 b.queue1.base h k in
      let (r₁, h₁, run₁, k₁) = queue_free-HoldsTwo b.queue1 0 h₀ (HoldsTwo-swap k₀) in
      (h₁, rw run₀ (rw run₁ refl), λ p. ground (arith, k₁.live p))

  module _ (answer : Allocator) (fresh : IsFresh answer) where
    realloc-HoldsTwo :
        (a b : ℕ) (h : Heap)
        → HoldsTwo base a b h
        → Succeeds (λ o h'. HoldsTwo base (or_base a o) b h') (realloc answer a h)
    unfolding realloc malloc
    realloc-HoldsTwo a b h k = elim (Bool-cases (a == 0)) [
      | inl null ↦
          let z = ==→eq a 0 null in
          (
            answer h.asked h.live,
            grant (answer h.asked h.live) h,
            rw null refl,
            subst
                (λ (a : ℕ).
                  HoldsTwo base (or_base a (answer h.asked h.live)) b
                    (grant (answer h.asked h.live) h))
                (sym z)
                (malloc-HoldsTwo base b _ h (subst (λ (a : ℕ). HoldsTwo base a b h) z k)
                  (λ q e. fresh h.asked h.live q e)),
          )
      | inr set ↦
          let n : a ≢ 0 = ground (arith, set) in
          (
            answer h.asked (vacated a h),
            regrant a (answer h.asked (vacated a h)) h,
            rw set (rw (live_block base a b h n k) refl),
            regranted-HoldsTwo base a b _ h n k (λ q e. fresh h.asked (vacated a h) q e),
          )
    ]

    extended-HoldsTwo :
        (q : QueueBlock) (b : ℕ) (larger : Queue Event) (o : Option ℕ) (h : Heap)
        → HoldsTwo base (or_base q.base o) b h
        → Succeeds (λ r h'. HoldsTwo base r.1.base b h') (extended answer q larger o h)
    unfolding extended
    extended-HoldsTwo q b larger none h k = ((failed, q), h, refl, k)
    extended-HoldsTwo q b larger (some p) h k =
        ((resized, record { queue = larger; base = p }), h, refl, k)

    resize_with-HoldsTwo :
        (q : QueueBlock) (b : ℕ) (o : Outcome) (r : Queue Event) (h : Heap)
        → HoldsTwo base q.base b h
        → Succeeds (λ r h'. HoldsTwo base r.1.base b h') (resize_with answer q (o, r) h)
    unfolding resize_with
    resize_with-HoldsTwo q b failed r h k = ((failed, q), h, refl, k)
    resize_with-HoldsTwo q b unchanged r h k = ((unchanged, q), h, refl, k)
    resize_with-HoldsTwo q b resized r h k =
        let (o, h₁, run, k₁) = realloc-HoldsTwo q.base b h k in
        rw run (extended-HoldsTwo q b r o h₁ k₁)

    base-queue_taken : (o : Outcome) (q : QueueBlock) → (queue_taken answer (o, q)).base ≡ q.base
    unfolding queue_taken
    base-queue_taken failed q = refl
    base-queue_taken unchanged q = refl
    base-queue_taken resized q = refl

    taken-HoldsTwo :
        (b : ℕ) (s : Run (Outcome × QueueBlock))
        → Succeeds (λ r h'. HoldsTwo base r.1.base b h') s
        → Succeeds
            (λ r h'. HoldsTwo base r.base b h')
            (and_then s (λ t h. ok (queue_taken answer t) h))
    taken-HoldsTwo b s ((o, r), h, run, k) = (
      queue_taken answer (o, r),
      h,
      rw run refl,
      subst (λ (a : ℕ). HoldsTwo base a b h) (sym (base-queue_taken o r)) k,
    )

    pub queue_push-HoldsTwo :
        (q : QueueBlock) (b : ℕ) (h : Heap)
        → HoldsTwo base q.base b h
        → Succeeds (λ r h'. HoldsTwo base r.base b h') (queue_push answer q h)
    unfolding queue_push queue_resize
    queue_push-HoldsTwo q b h k = elim (Bool-cases (ltb q.queue.capacity (inc q.queue.count))) [
      | inl more ↦ rw more (
          taken-HoldsTwo b _ (
            resize_with-HoldsTwo q b (Queue.resize true q.queue (inc q.queue.count)).0
              (Queue.resize true q.queue (inc q.queue.count)).1 h k))
      | inr room ↦ rw room (taken-HoldsTwo b (ok (unchanged, q) h) ((unchanged, q), h, refl, k))
    ]

    -- The blocks of both queues.
    abbrev HoldsEvents : EventsBlocks → Heap → Type 0
    HoldsEvents b h = HoldsTwo base b.queue0.base b.queue1.base h

    put_block-HoldsEvents :
        (side : Side) (b : EventsBlocks) (s : Run QueueBlock)
        → Succeeds (λ r h'. HoldsEvents (put_block side r b) h') s
        → Succeeds HoldsEvents (and_then s (λ q h. ok (put_block side q b) h))
    put_block-HoldsEvents side b s (r, h, run, k) = (put_block side r b, h, rw run refl, k)

    Succeeds-swap :
        (a : ℕ) (s : Run QueueBlock)
        → Succeeds (λ r h'. HoldsTwo base r.base a h') s
        → Succeeds (λ r h'. HoldsTwo base a r.base h') s
    Succeeds-swap a s (r, h, run, k) = (r, h, run, HoldsTwo-swap k)

    queue_call-HoldsEvents :
        (c : QueueCall) (b : EventsBlocks) (h : Heap)
        → HoldsEvents b h
        → Succeeds HoldsEvents (queue_call answer c b h)
    unfolding queue_call
    queue_call-HoldsEvents (pushes first) b h k =
        put_block-HoldsEvents first b _ (queue_push-HoldsTwo b.queue0 b.queue1.base h k)
    queue_call-HoldsEvents (pushes second) b h k = put_block-HoldsEvents second b _ (
        Succeeds-swap b.queue0.base _
          (queue_push-HoldsTwo b.queue1 b.queue0.base h (HoldsTwo-swap k)))
    queue_call-HoldsEvents (clears first) b h k = (_, h, refl, k)
    queue_call-HoldsEvents (clears second) b h k = (_, h, refl, k)

    queue_calls-HoldsEvents :
        (cs : List QueueCall) (b : EventsBlocks) (h : Heap)
        → HoldsEvents b h
        → Succeeds HoldsEvents (queue_calls answer cs b h)
    unfolding queue_calls
    queue_calls-HoldsEvents [] b h k = (b, h, refl, k)
    queue_calls-HoldsEvents (c ∷ cs) b h k =
        let (b₁, h₁, run, k₁) = queue_call-HoldsEvents c b h k in
        rw run (queue_calls-HoldsEvents cs b₁ h₁ k₁)

nothing-HoldsTwo : (h : Heap) → HoldsTwo h.live 0 0 h
nothing-HoldsTwo h = record {
  a_new = λ n. absurd (n refl);
  b_new = λ n. absurd (n refl);
  apart = λ n. absurd (n refl);
  live = λ p. refl;
}

-- On an allocator that grants only blocks that are not NULL and not allocated: after the queues of
-- new events, any elements pushed onto either queue and any clearing of one follow, where realloc
-- may fail, and then the free of the events. All of it succeeds, no block is freed or reallocated
-- that is not allocated, and afterwards the allocated blocks are those from before: the struct of
-- the events, if it is among these, stays allocated.
pub events_free-live :
    (answer : Allocator)
    → IsFresh answer
    → (calls : List QueueCall) (h : Heap)
    → (h' : Heap) × ((queue_calls answer calls events_new >>= events_free) h ≡ ok tt h')
      × ((p : ℕ) → h'.live p ≡ h.live p)
unfolding events_new
events_free-live answer fresh calls h =
    let (b, h₁, run, k) =
      queue_calls-HoldsEvents h.live answer fresh calls events_new h (nothing-HoldsTwo h) in
    let (h₂, freed, same) = events_free-HoldsTwo h.live b h₁ k in (h₂, rw run (rw freed refl), same)
