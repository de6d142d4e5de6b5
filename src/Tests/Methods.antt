-- ===== src/Tests/Methods.antt =====
-- The theorems on the methods of a capture.
use memory_tracker.Base.{ℕ, ◌≡◌, ◌≢◌, ◌⊎◌, refl, true, false, some, none, [], ◌∷◌}
use memory_tracker.Assoc.{lookup}
use memory_tracker.Table.{Table}
use memory_tracker.Table.Slots.{view}
use memory_tracker.World.{Capture, World, ok, raised, crashed}
use memory_tracker.Capture.Process.{process_freeobj}
use memory_tracker.Capture.Control.{clear}
use memory_tracker.Capture.Balance.{Account}
use memory_tracker.Capture.Clearing.{zeros, HaveCounters, clear-fresh, clear-null}
use memory_tracker.Tests.Samples.{qnil, string-IsKey, one_string}
use memory_tracker.Tests.Worlds.{
  busy_capture, class_counters, busy_world, class_tracked, counters_here, calm,
}

abbrev stopped_capture : Capture
stopped_capture = record busy_capture { running = 0 }

abbrev stopped_world : World
stopped_world = record busy_world { captures = (64, stopped_capture) ∷ []; hooks = [] }

stopped_here : lookup 64 stopped_world.captures ≡ some stopped_capture
unfolding lookup
stopped_here = refl

stopped-HaveCounters : HaveCounters stopped_capture.tracked stopped_world.records
stopped-HaveCounters = ((class_counters, counters_here), tt)

clear-fresh_example :
    (◌≢◌ {A = ℕ} 0 0 × (clear true true 64 stopped_world ≡ raised stopped_world))
    ⊎ (◌≡◌ {A = ℕ} 0 0
        × (w' : World) × (t' : Table) × (clear true true 64 stopped_world ≡ ok 64 w')
        × (lookup 64 w'.captures
            ≡ some (record stopped_capture { states = some t'; new_count = 0; free_count = 0 }))
        × (lookup 72 w'.records ≡ some zeros)
        × (view t'.entries 8 ≡ none)
        × Account 0 0 4096
            (record stopped_capture { states = some t'; new_count = 0; free_count = 0 }))
clear-fresh_example =
    clear-fresh 64 stopped_capture one_string stopped_world stopped_here refl stopped-HaveCounters 8
      16 72 string-IsKey class_tracked

clear-null_example :
    (w' : World) × (clear true false 64 stopped_world ≡ ok 64 w')
    × (process_freeobj calm 64 8 w' ≡ crashed)
clear-null_example =
    clear-null 64 stopped_capture one_string stopped_world stopped_here refl stopped-HaveCounters
      true false calm 8 refl refl
