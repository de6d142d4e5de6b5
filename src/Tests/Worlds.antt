-- ===== src/Tests/Worlds.antt =====
-- Captures, worlds and callbacks to apply the theorems to.
use memory_tracker.Base.{◌≡◌, true, some, [], ◌∷◌, refl}
use memory_tracker.Value.{Value}
use memory_tracker.Assoc.{lookup}
use memory_tracker.Allocations.{Allocations}
use memory_tracker.Events
use memory_tracker.Capture.Shutdown.{IsHarmless}
use memory_tracker.Tests.Queues.{string_event, idle_events}
use memory_tracker.Events.{first, EventType, Events, freeobj}
use memory_tracker.World.{Capture, World, raised, M, pure}
use memory_tracker.Capture.Process.{Chance}
use memory_tracker.Capture.Newobj.{IsQuiet}
use memory_tracker.Capture.Order.{LeavesQueue}
use memory_tracker.Tests.Samples.{qnil, one_string}

-- A capture at 64 that tracks the class at 16, with its counters at 72 and a callback at 80.
abbrev pub busy_capture : Capture
busy_capture = record {
  running = 1;
  paused = 0;
  tracked = (16, 72) ∷ [];
  states = some one_string;
  new_count = 1;
  free_count = 0;
}

abbrev pub class_counters : Allocations
class_counters = record { callback = 80; new_count = 1; free_count = 0 }

abbrev pub busy_world : World
busy_world = record {
  captures = (64, busy_capture) ∷ [];
  records = (72, class_counters) ∷ [];
  events = Events.new;
  hooks = 64 ∷ [];
}

pub capture_here : lookup 64 busy_world.captures ≡ some busy_capture
unfolding lookup
capture_here = refl

pub class_tracked : lookup 16 busy_capture.tracked ≡ some 72
unfolding lookup
class_tracked = refl

pub counters_here : lookup 72 busy_world.records ≡ some class_counters
unfolding lookup
counters_here = refl

abbrev pub granted : Chance
granted = record { fits = true; wrapper = 96 }

-- A callback that answers nil, and one that raises.
abbrev pub calm : Value → Value → EventType → Value → M Value
calm callback klass type datum = pure 88

abbrev pub faulty : Value → Value → EventType → Value → M Value
faulty callback klass type datum w = raised w

pub calm-IsQuiet : IsQuiet calm
calm-IsQuiet callback klass type datum w = (88, w, refl, refl, refl)

-- One allocation waits.
abbrev pub waiting_events : Events
waiting_events = record idle_events {
  queue0 = record { base = some string_event ∷ []; capacity = 1; count = 1; element_size = 32 };
}

abbrev pub waiting_world : World
waiting_world = record busy_world { events = waiting_events }

pub calm-IsHarmless : IsHarmless calm
calm-IsHarmless callback klass type datum w = ((refl, refl, refl), λ e. cc)

pub calm-LeavesQueue : LeavesQueue calm
calm-LeavesQueue side q callback klass type datum = record { at = λ w p. p }
