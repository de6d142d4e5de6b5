-- ===== src/Memory/Queues.antt =====
-- The blocks of the event queues: what queue.h and events.c allocate and free.
use memory_tracker.Base.{
  ℕ, Bool, true, false, Option, none, some, List, [], ◌∷◌, ◌==◌, if◌then◌else◌, ltb, inc,
}
use memory_tracker.Queue
use memory_tracker.Queue.{Queue, Outcome, failed, unchanged, resized, initialize}
use memory_tracker.Events.{Event, Side, first, second, event_size}
use memory_tracker.Memory.{
  Heap, ok, bad_free, Cmd, Allocator, ◌>>=◌, ◌>>◌, pure, mark, grant, malloc, free,
}

-- A queue with the block of its elements, 0 for NULL.
pub record QueueBlock : Type 0 where
  pub queue : Queue Event
  pub base : ℕ

-- The blocks of the events: Ruby allocates the struct.
pub record EventsBlocks : Type 0 where
  pub queue0 : QueueBlock
  pub queue1 : QueueBlock

abbrev pub block_of : Side → EventsBlocks → QueueBlock
block_of first b = b.queue0
block_of second b = b.queue1

abbrev pub put_block : Side → QueueBlock → EventsBlocks → EventsBlocks
put_block first q b = record b { queue0 = q }
put_block second q b = record b { queue1 = q }

-- Memory_Profiler_Queue_free
unfoldable pub queue_free : QueueBlock → Cmd QueueBlock
queue_free q = do
  if q.base == 0 then pure tt else free q.base
  pure (record { queue = Queue.free q.queue; base = 0 })

-- Memory_Profiler_Events_free
unfoldable pub events_free : EventsBlocks → Cmd (Unit {0})
unfolding queue_free
events_free b = do _ ← queue_free b.queue0; _ ← queue_free b.queue1; pure tt

-- The queues of Memory_Profiler_Events_new.
unfoldable pub events_new : EventsBlocks
events_new = record {
  queue0 = record { queue = Queue.initialize event_size; base = 0 };
  queue1 = record { queue = Queue.initialize event_size; base = 0 };
}

-- What may happen to the queues of the events before they are freed.
pub data QueueCall : Type 0 where
  pushes clears : Side → QueueCall

-- The heap while realloc looks for a block: the old one may be given again.
abbrev pub vacated : ℕ → Heap → ℕ → Bool
vacated p h q = if p == q then false else h.live q

-- The old block stays where no new one is found.
abbrev pub regrant : ℕ → Option ℕ → Heap → Heap
regrant p none h = grant none h
regrant p (some q) h = grant (some q) (mark p false h)

module _ (answer : Allocator) where
  -- realloc; of NULL it is malloc, and of what is no block it is undefined, as free is.
  unfoldable pub realloc : ℕ → Cmd (Option ℕ)
  realloc p h =
      if p == 0
      then malloc answer h
      else if h.live p
      then ok (answer h.asked (vacated p h)) (regrant p (answer h.asked (vacated p h)) h)
      else bad_free

  unfoldable pub extended : QueueBlock → Queue Event → Option ℕ → Cmd (Outcome × QueueBlock)
  extended q larger none = pure (failed, q)
  extended q larger (some base) = pure (resized, record { queue = larger; base = base })

  -- Memory_Profiler_Queue_resize: it comes to realloc where the model of the queue, with realloc
  -- granted, gives it a larger array.
  unfoldable pub resize_with : QueueBlock → Outcome × Queue Event → Cmd (Outcome × QueueBlock)
  unfolding extended
  resize_with q (failed, r) = pure (failed, q)
  resize_with q (unchanged, r) = pure (unchanged, q)
  resize_with q (resized, larger) = do base ← realloc q.base; extended q larger base

  unfoldable pub queue_resize : QueueBlock → ℕ → Cmd (Outcome × QueueBlock)
  unfolding resize_with
  queue_resize q required = resize_with q (Queue.resize true q.queue required)

  -- The queue after a push, whether it has succeeded or not.
  unfoldable pub queue_taken : Outcome × QueueBlock → QueueBlock
  queue_taken (failed, q) = q
  queue_taken (unchanged, q) = record q { queue = record q.queue { count = inc q.queue.count } }
  queue_taken (resized, q) = record q { queue = record q.queue { count = inc q.queue.count } }

  -- Memory_Profiler_Queue_push
  unfoldable pub queue_push : QueueBlock → Cmd QueueBlock
  unfolding queue_taken queue_resize
  queue_push q = do
    taken ←
        (if ltb q.queue.capacity (inc q.queue.count)
          then queue_resize q (inc q.queue.count)
          else pure (unchanged, q))
    pure (queue_taken taken)

  unfoldable pub queue_call : QueueCall → EventsBlocks → Cmd EventsBlocks
  unfolding queue_push
  queue_call (pushes side) b = do q ← queue_push (block_of side b); pure (put_block side q b)
  queue_call (clears side) b =
      let q = block_of side b in pure (put_block side (record q { queue = Queue.clear q.queue }) b)

  unfoldable pub queue_calls : List QueueCall → EventsBlocks → Cmd EventsBlocks
  unfolding queue_call
  queue_calls [] b = pure b
  queue_calls (c ∷ cs) b = do b' ← queue_call c b; queue_calls cs b'
