-- ===== src/Tests/Blocked.antt =====
-- each_object with a block that raises, and with one that leaves its mark on the world.
use memory_tracker.Base.{◌+◌, ◌≡◌, refl, arith, List, ◌∷◌, false, true}
use memory_tracker.Value.{Value}
use memory_tracker.World.{ok}
use memory_tracker.Capture.Each.{Vm, returns, unwinds, Code, each_object_with}
use memory_tracker.Capture.Each.Collecting.{IsCollecting, each_object_with-IsCollecting}
use memory_tracker.Capture.Each.Order.{run_ensured, each_object_with-yields}
use memory_tracker.Capture.Query.{each_object}
use memory_tracker.Tests.Samples.{qnil, one_string, one_string-IsValid}
use memory_tracker.Tests.Worlds.{busy_capture, calm, granted, capture_here}
use memory_tracker.Tests.Captures.{quiet_world, processed_world, nothing_waits}

-- The program has turned garbage collection off.
abbrev quiet_vm : Vm
quiet_vm = record { world = quiet_world; collects = false }

abbrev raising : Value → Value → Code (Unit {0})
raising object allocations v = unwinds v

each_object_with-IsCollecting_example :
    IsCollecting (each_object_with raising calm (λ _. granted) true 1 9 64 16 quiet_vm)
    × (each_object_with raising calm (λ _. granted) false 1 9 64 16 quiet_vm
        ≡ unwinds (record quiet_vm { collects = false }))
each_object_with-IsCollecting_example =
    each_object_with-IsCollecting raising calm (λ _. granted) 1 9 64 16 busy_capture quiet_vm
      capture_here

abbrev noting : Value → Value → Code (Unit {0})
noting object allocations v =
    returns tt (record v { world = record v.world { hooks = object ∷ v.world.hooks } })

each_object_with-yields_example :
    (ps : List (Value × Value)) × (each_object calm (λ _. granted) true 1 64 16 quiet_world
      ≡ ok ps processed_world)
    × (each_object_with noting calm (λ _. granted) true 1 (one_string.capacity + 1) 64 16 quiet_vm
        ≡ run_ensured noting 64 ps (record { world = processed_world; collects = false }))
each_object_with-yields_example =
    each_object_with-yields noting 64 busy_capture one_string (λ object allocations v h. h) refl
      one_string-IsValid.sound.width calm (λ _. granted) true 1 (one_string.capacity + 1) 16
      busy_capture quiet_vm processed_world capture_here nothing_waits capture_here (omega arith)
