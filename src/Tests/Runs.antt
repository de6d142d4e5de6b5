-- ===== src/Tests/Runs.antt =====
-- The theorems on whole runs of the queue and on garbage collection.
use memory_tracker.Base.{
  ℕ, ◌+◌, ◌≤◌, ◌<◌, ◌≡◌, refl, inl, inr, arith, true, none, some, [], ◌∷◌, map, replicate,
  if◌then◌else◌, ◌==◌, Bool-cases, inc,
}
use memory_tracker.Value.{Value}
use memory_tracker.Assoc.{Assoc, lookup}
use memory_tracker.Queue.Contents.{contents, IsValid}
use memory_tracker.Events.{second, Events, first}
use memory_tracker.Events.Collected.{its_object, mark-events}
use memory_tracker.Events.Gc
use memory_tracker.Events.Gc.{compact_event}
use memory_tracker.Table.{Table, empty_entry, max_probe_length}
use memory_tracker.Table.Mark.{marks}
use memory_tracker.Table.Valid
use memory_tracker.Table.Valid.{replicate-IsValid}
use memory_tracker.Table.Slots.{view}
use memory_tracker.Table.Relocate.{Moves}
use memory_tracker.World.{Capture, World, ok, ◌>>◌}
use memory_tracker.Capture.Process.{process_newobj, process_freeobj}
use memory_tracker.Capture.Dispatch.{process_queue, start_queue, finish_queue}
use memory_tracker.Capture.Order.{LeavesQueue, process_events, process_queue-all}
use memory_tracker.Capture.Balance.{Account}
use memory_tracker.Capture.Balance.Newobj.{IsCalm}
use memory_tracker.Capture.Balance.Runs.{InBalance, granted, process_queue-InBalance}
use memory_tracker.Capture.Hook.{Trace, newobj_flag, t_array, t_class, trackable_p, event_callback}
use memory_tracker.Capture.Delivery.{event_callback-process_queue}
use memory_tracker.Capture.Control.{stop}
use memory_tracker.Capture.Running.{IsHooked}
use memory_tracker.Capture.Shutdown.{HasProcessed, stop-InBalance}
use memory_tracker.Capture.Lifetime.{newobj-freeobj}
use memory_tracker.Capture.Gc.{compact_capture}
use memory_tracker.Capture.Gc.Laws.{compact_capture-view}
use memory_tracker.Tests.Samples.{
  qnil, string-IsKey, array-IsKey, one_string, one_string-Stores, one_string-IsValid,
  view-one_string, one_string-fits,
}
use memory_tracker.Tests.Queues.{string_event, idle_events, idle_queue-IsValid}
use memory_tracker.Tests.Worlds

-- The queue with one event.
waiting-IsValid : IsValid Worlds.waiting_events.queue0
waiting-IsValid = record {
  width = refl;
  within = omega arith;
  bytes = omega arith;
  sized = omega arith;
  size_fits = omega arith;
}

waiting-contents : contents Worlds.waiting_events.queue0 ≡ map some (string_event ∷ [])
unfolding contents
waiting-contents = refl

faulty-LeavesQueue : LeavesQueue Worlds.faulty
faulty-LeavesQueue side q callback klass type datum = record { at = λ w p. p }

process_queue-all_example :
    process_queue Worlds.faulty (λ _. Worlds.granted) 2 Worlds.waiting_world
    ≡ (start_queue Worlds.faulty (λ _. Worlds.granted)
          >> (process_events Worlds.faulty (λ _. Worlds.granted) first 0 (string_event ∷ [])
              >> finish_queue Worlds.faulty (λ _. Worlds.granted)))
        Worlds.waiting_world
process_queue-all_example =
    process_queue-all Worlds.faulty (λ _. Worlds.granted) faulty-LeavesQueue 2 (string_event ∷ [])
      Worlds.waiting_world waiting-IsValid waiting-contents (omega arith)

-- A table of 1024 empty slots, and a capture with it that has seen one allocation.
abbrev wide_table : Table
wide_table = record {
  capacity = 1024;
  count = 0;
  tombstones = 0;
  entries = replicate 1024 empty_entry;
}

wide_table-IsValid : Valid.IsValid wide_table
unfolding max_probe_length
wide_table-IsValid = replicate-IsValid 1024 (omega arith) (omega arith)

abbrev wide_capture : Capture
wide_capture = record {
  running = 1;
  paused = 0;
  tracked = (16, 72) ∷ [];
  states = some wide_table;
  new_count = 1;
  free_count = 0;
}

wide_capture-Account : (n : ℕ) → n ≤ 4095 → Account 0 0 n wide_capture
wide_capture-Account n l = record {
  table = wide_table;
  holds = refl;
  valid = wide_table-IsValid;
  sized = inl refl;
  balance = omega arith;
  used = omega arith;
  budget = omega arith;
}

abbrev wide_world : World
wide_world = record Worlds.waiting_world { captures = (64, wide_capture) ∷ [] }

wide-InBalance : (y : Value) → InBalance 1 (lookup y wide_world.captures)
unfolding lookup
wide-InBalance y = elim (Bool-cases (64 == y)) [
  | inl e ↦ rw e (wide_capture-Account 1 (omega arith))
  | inr n ↦ rw n tt
]

calm-IsCalm : IsCalm Worlds.calm
calm-IsCalm callback klass type datum w = refl

process_queue-InBalance_example :
    (w' : World) × (process_queue Worlds.calm (granted (λ _. 96)) 2 wide_world ≡ ok tt w')
    × InBalance 0 (lookup 64 w'.captures)
process_queue-InBalance_example =
    process_queue-InBalance Worlds.calm (λ _. 96) calm-IsCalm 2 (string_event ∷ []) wide_world 64
      Worlds.calm-LeavesQueue waiting-IsValid waiting-contents (string-IsKey, tt) (omega arith)
      wide-InBalance

wide_here : lookup 64 wide_world.captures ≡ some wide_capture
unfolding lookup
wide_here = refl

stop-InBalance_example :
    (c' : Capture) × (w' : World) × (stop Worlds.calm (granted (λ _. 96)) true 2 64 wide_world
      ≡ ok true w')
    × IsHooked 64 w' c'
    × (c'.running ≡ 0)
    × InBalance 0 (lookup 64 w'.captures)
    × HasProcessed Worlds.calm
        (λ _. 96)
        Worlds.calm-IsHarmless
        64
        (string_event ∷ [])
        wide_capture
        c'
        wide_world
        w'
stop-InBalance_example =
    stop-InBalance Worlds.calm (λ _. 96) Worlds.calm-IsHarmless 64 2 (string_event ∷ [])
      wide_capture wide_world 64 (wide_here, refl) waiting-IsValid waiting-contents
      (string-IsKey, tt) (omega arith) wide-InBalance

array_absent : view one_string.entries 32 ≡ none
unfolding view
array_absent = one_string-Stores.reads 32 array-IsKey

newobj-freeobj_example :
    (w' : World) × (t' : Table) × (tracked : Assoc Value) × ((process_newobj Worlds.calm
            Worlds.granted 64 16 32
          >> process_freeobj Worlds.calm 64 32)
        Worlds.busy_world
      ≡ ok tt w')
    × (lookup 64 w'.captures
        ≡ some (record Worlds.busy_capture {
          new_count = inc 1;
          free_count = inc 0;
          tracked = tracked;
          states = some t';
        }))
    × (lookup 72 w'.records
        ≡ some (record Worlds.class_counters { new_count = inc 1; free_count = inc 0 }))
    × Valid.IsValid t'
    × (t'.count ≡ one_string.count)
    × (view t'.entries 8 ≡ view one_string.entries 8)
newobj-freeobj_example =
    newobj-freeobj Worlds.calm 96 64 16 32 72 Worlds.busy_capture Worlds.class_counters
      Worlds.busy_world one_string 8 Worlds.capture_here
      (inl (Worlds.class_tracked, Worlds.counters_here)) Worlds.calm-IsQuiet (omega arith) refl
      one_string-IsValid (inr one_string-fits) array-IsKey string-IsKey array_absent

-- Everything moves up by 64 bytes but the pinned class.
abbrev shifted : Value → Value
shifted x = if x == 16 then 16 else x + 64

shifted-Moves : Moves shifted one_string.entries
shifted-Moves = record {
  lands = λ o key held. record { ne_zero = ground arith; ne_nil = ground arith };
  apart = λ a b k l m n e. ground (arith, e);
}

compact_capture-view_example :
    (c' : Capture) × (t' : Table) × (compact_capture shifted true Worlds.busy_capture ≡ some c')
    × (c'.states ≡ some t')
    × Valid.IsValid t'
    × (t'.count ≡ one_string.count)
    × (view t'.entries 72 ≡ some (16, 88))
    × (lookup 16 c'.tracked ≡ some 136)
    × (c'.new_count ≡ 1)
    × (c'.free_count ≡ 0)
compact_capture-view_example =
    compact_capture-view shifted Worlds.busy_capture one_string 8 16 24 72 refl one_string-IsValid
      shifted-Moves string-IsKey view-one_string Worlds.class_tracked refl

-- The event is in the queue that is processed.
abbrev processed_events : Events
processed_events = record Worlds.waiting_events { available = second; processing = first }

mark-events_example : 0 < marks 8 (Gc.mark processed_events)
mark-events_example =
    mark-events processed_events first string_event 8 [] [] waiting-contents (inr (refl, λ e. cc))
      (its_object refl)

-- The hook and then the job, for the object at 32.
abbrev array_trace : Trace
array_trace = record {
  flag = newobj_flag;
  object = 32;
  object_type = t_array;
  klass = 16;
  klass_type = t_class;
}

abbrev idle_world : World
idle_world = record Worlds.busy_world { events = idle_events }

array-trackable : trackable_p t_array ≡ true
unfolding trackable_p
array-trackable = refl

event_callback-process_queue_example :
    (w' : World) × (t' : Table) × (tracked : Assoc Value) × (datum : Value) × ((event_callback true
            64 array_trace
          >> process_queue Worlds.calm (λ _. Worlds.granted) 2)
        idle_world
      ≡ ok tt w')
    × (lookup 64 w'.captures
        ≡ some
            (record Worlds.busy_capture { new_count = inc 1; tracked = tracked; states = some t' }))
    × (lookup 16 tracked ≡ some 72)
    × (lookup 72 w'.records ≡ some (record Worlds.class_counters { new_count = inc 1 }))
    × Valid.IsValid t'
    × (view t'.entries 32 ≡ some (16, datum))
event_callback-process_queue_example =
    event_callback-process_queue Worlds.calm 96 64 72 array_trace Worlds.busy_capture
      Worlds.class_counters idle_world one_string Worlds.capture_here 2
      (inl (Worlds.class_tracked, Worlds.counters_here)) Worlds.calm-IsQuiet Worlds.calm-LeavesQueue
      refl refl one_string-IsValid (inr one_string-fits) array-trackable refl refl array-IsKey
      idle_queue-IsValid refl refl (omega arith)
