-- ===== src/Tests/Blocks.antt =====
-- A capture at 64 whose blocks come from an allocator that counts up, or that is soon exhausted.
use memory_tracker.Base.{
  List, ℕ, ◌+◌, ◌<◌, ◌≡◌, ◌≢◌, ◌⊎◌, refl, arith, true, false, none, some, [], ◌∷◌, ◌==◌, ltb, inc,
  replicate, if◌then◌else◌,
}
use memory_tracker.Table
use memory_tracker.Queue
use memory_tracker.Table.{empty_entry}
use memory_tracker.Memory.{
  Heap, ok, bad_free, undefined, Allocator, IsFresh, malloc, free, ◌>>=◌, mark,
}
use memory_tracker.Memory.Blocks.{
  CaptureBlocks, capture_free, Call, inserts, deletes, compacts, clears, perform_all, capture_alloc,
  alloc_tracked, alloc_states, table_new, new_table, new_entries,
}
use memory_tracker.Events.{first, second}
use memory_tracker.Memory.Queues
use memory_tracker.Memory.Queues.{
  QueueBlock, QueueCall, pushes, queue_calls, events_new, events_free, queue_push, queue_resize,
  resize_with, realloc, extended, queue_taken,
}
use memory_tracker.Tests.Queues.{string_event}
use memory_tracker.Memory.Moved.{queue_push-live}
use memory_tracker.Memory.Returned.{events_free-live}
use memory_tracker.Memory.Leaks.{capture_free-live, capture_free-raised}
use memory_tracker.Tests.Samples.{qnil, string-IsKey}
use memory_tracker.Table.Invariant.{IsKey}
use memory_tracker.Tests.Sessions.{shifted, shifted-IsMove}

-- The request of number n is granted at 100 + n, while n is below the limit.
abbrev counting : ℕ → Allocator
counting limit n live =
    if ltb n limit then (if live (100 + n) then none else some (100 + n)) else none

counting-IsFresh : (limit : ℕ) → IsFresh (counting limit)
counting-IsFresh limit n live p e = ground arith

-- Ruby has allocated the struct of the capture.
abbrev first_heap : Heap
first_heap = record { live = λ p. p == 64; asked = 0; refused = false }

abbrev made_blocks : CaptureBlocks
made_blocks = record {
  capture = 64;
  tracked = 100;
  states = some (record {
    table = record {
      capacity = 1024;
      count = 0;
      tombstones = 0;
      entries = replicate 1024 empty_entry;
    };
    base = 101;
    entries = 102;
  });
}

abbrev made_heap : Heap
made_heap = record {
  live = (mark 102 true (mark 101 true (mark 100 true first_heap))).live;
  asked = 3;
  refused = false;
}

made : capture_alloc (counting 8) 64 first_heap ≡ ok (true, made_blocks) made_heap
unfolding capture_alloc malloc alloc_tracked alloc_states table_new new_table new_entries Table.new
made = refl

abbrev life : List Call
life = inserts 8 16 24 ∷ compacts shifted ∷ deletes 72 ∷ clears ∷ inserts 8 16 24 ∷ []

moved_string-IsKey : IsKey 72
moved_string-IsKey = record { ne_zero = omega arith; ne_nil = omega arith }

capture_free-live_example :
    ((h₂ : Heap) × (perform_all (counting 8) life made_blocks.states made_heap ≡ undefined h₂)
      × (h₂.refused ≡ true))
    ⊎ ((h₂ : Heap) × ((perform_all (counting 8) life made_blocks.states >>= λ s.
              capture_free (record made_blocks { states = s }))
            made_heap
          ≡ ok tt h₂)
        × ((p : ℕ) → h₂.live p ≡ (if 64 == p then false else first_heap.live p)))
capture_free-live_example =
    capture_free-live (counting 8) (counting-IsFresh 8) 64 life made_blocks first_heap made_heap
      (omega arith) refl
      (string-IsKey, (shifted-IsMove, (moved_string-IsKey, (tt, (string-IsKey, tt))))) (omega arith)
      made

-- The second request is refused: that for the struct of the table.
abbrev raised_blocks : CaptureBlocks
raised_blocks = record { capture = 64; tracked = 100; states = none }

abbrev raised_heap : Heap
raised_heap = record {
  live = (mark 100 false (mark 100 true first_heap)).live;
  asked = 2;
  refused = true;
}

raised : capture_alloc (counting 1) 64 first_heap ≡ ok (false, raised_blocks) raised_heap
unfolding capture_alloc malloc alloc_tracked alloc_states table_new new_table new_entries free
raised = refl

capture_free-raised_example : capture_free raised_blocks raised_heap ≡ bad_free
capture_free-raised_example =
    capture_free-raised (counting 1) (counting-IsFresh 1) 64 raised_blocks first_heap raised_heap
      raised (omega arith)

-- Both queues get a block, the second one after an event queued in the first, which is cleared.
abbrev some_calls : List QueueCall
some_calls = pushes first ∷ pushes second ∷ Queues.clears first ∷ pushes first ∷ []

events_free-live_example :
    (h' : Heap) × ((queue_calls (counting 8) some_calls events_new >>= events_free) first_heap
      ≡ ok tt h')
    × ((p : ℕ) → h'.live p ≡ first_heap.live p)
events_free-live_example = events_free-live (counting 8) (counting-IsFresh 8) some_calls first_heap

-- A queue of one cell that an event fills, at the address 40.
abbrev full_block : QueueBlock
full_block = record {
  queue = record { base = some string_event ∷ []; capacity = 1; count = 1; element_size = 32 };
  base = 40;
}

abbrev full_heap : Heap
full_heap = mark 40 true first_heap

queue_push-live_example :
    (q' : QueueBlock) × (h' : Heap) × (queue_push (counting 8) full_block full_heap ≡ ok q' h')
    × (h'.live 40 ≡ (q'.base == 40))
    × (1 < 1 → q'.base ≡ 40)
    × ((p : ℕ) → p ≢ 40 → full_heap.live p ≡ true → h'.live p ≡ true)
queue_push-live_example =
    queue_push-live (counting 8) (counting-IsFresh 8) full_block full_heap (omega arith) refl

-- The event has moved, and the block of the queue before is free.
moved_away :
    (q' : QueueBlock) × (h' : Heap) × (queue_push (counting 8) full_block full_heap ≡ ok q' h')
    × (h'.live 40 ≡ false)
unfolding queue_push queue_resize resize_with realloc extended queue_taken inc Queue.resize
    Queue.grow
moved_away = (_, _, refl, refl)
