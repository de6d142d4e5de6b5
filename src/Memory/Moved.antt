-- ===== src/Memory/Moved.antt =====
-- Pointers to the elements of a queue across a push.
use memory_tracker.Base.{ℕ, ◌<◌, ◌≡◌, ◌≢◌, refl, arith, true, false, ◌==◌, ltb, inc}
use memory_tracker.Memory.{Heap, Run, ok, Allocator, IsFresh}
use memory_tracker.Memory.Queues.{QueueBlock, vacated, queue_push, queue_taken}
use memory_tracker.Memory.TwoBlocks.{HoldsTwo}
use memory_tracker.Memory.Returned.{queue_push-HoldsTwo}

-- One block, apart from the others.
alone-HoldsTwo : (p : ℕ) (h : Heap) → h.live p ≡ true → p ≢ 0 → HoldsTwo (vacated p h) p 0 h
alone-HoldsTwo p h l n = record {
  a_new = λ _. ground arith;
  b_new = λ m. absurd (m refl);
  apart = λ _. n;
  live = λ x. ground arith;
}

room_stays :
    (answer : Allocator) (q : QueueBlock) (h : Heap)
    → q.queue.count < q.queue.capacity
    → queue_push answer q h
      ≡ ok (record q { queue = record q.queue { count = inc q.queue.count } }) h
unfolding queue_push queue_taken inc
room_stays answer q h l =
    let room : ltb q.queue.capacity (inc q.queue.count) ≡ false = ground arith in rw room refl

base_of :
    {s : Run QueueBlock} {q r : QueueBlock} {h k : Heap} → s ≡ ok q h → s ≡ ok r k → q.base ≡ r.base
base_of e f = cc

-- On an allocator that grants only blocks that are not NULL and not allocated: a push onto a queue
-- that has a block, where realloc may fail, has no undefined behaviour; afterwards the block that
-- the queue had is allocated exactly if the queue still has it, so a pointer to an element from
-- before is good just then, which is so where the queue was not full; every other block stays
-- allocated.
pub queue_push-live :
    (answer : Allocator)
    → IsFresh answer
    → (q : QueueBlock) (h : Heap) → q.base ≢ 0
    → h.live q.base ≡ true
    → (q' : QueueBlock) × (h' : Heap) × (queue_push answer q h ≡ ok q' h')
      × (h'.live q.base ≡ (q'.base == q.base))
      × (q.queue.count < q.queue.capacity → q'.base ≡ q.base)
      × ((p : ℕ) → p ≢ q.base → h.live p ≡ true → h'.live p ≡ true)
queue_push-live answer fresh q h n l =
    let (q', h', run, k) =
      queue_push-HoldsTwo (vacated q.base h) answer fresh q 0 h (alone-HoldsTwo q.base h l n) in
    (
      q',
      h',
      run,
      ground (arith, k.live q.base),
      (λ room. base_of run (room_stays answer q h room)),
      (λ p m lives. ground (arith, k.live p)),
    )
