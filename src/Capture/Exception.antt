-- ===== src/Capture/Exception.antt =====
-- A callback that raises during the processing of an allocation.
use memory_tracker.Base.{◌≡◌, ◌≢◌, Bool, some, arith, inc32}
use memory_tracker.Value.{Value, Ruby}
use memory_tracker.Assoc.{lookup}
use memory_tracker.Allocations.{Allocations}
use memory_tracker.Events.{EventType, newobj}
use memory_tracker.World.{Capture, World, ok, raised, M}
use memory_tracker.Capture.Process.{Chance, process_newobj}
use memory_tracker.Capture.Dispatch.{protect}
use memory_tracker.Capture.Hook.{Trace, newobj_flag, event_callback}
use memory_tracker.Capture.Steps.{Counters}
use memory_tracker.Capture.Newobj.{process_newobj-raised}
use memory_tracker.Capture.Filter.{event_callback-paused}

module _ ⦃ruby : Ruby⦄ (call : Value → Value → EventType → Value → M Value) where
  -- An allocation in a capture that is not paused, whose class is new or has its counters, and
  -- whose callback raises without changing the captures: the exception is suppressed, but in the
  -- world that is left the hook drops every allocation of that capture, whatever the object.
  pub raised_stops_tracking :
      (chance : Chance) (self klass object a : Value) (c : Capture) (r : Allocations) (w : World)
      (here : lookup self w.captures ≡ some c)
      → Counters self c w here chance.wrapper klass a r
      → r.callback ≢ ruby.nil
      → ((v : World)
          → (v' : World) × (call r.callback klass newobj ruby.nil v ≡ raised v')
            × (v'.captures ≡ v.captures))
      → c.paused ≡ 0
      → (fits : Bool) (trace : Trace) → trace.flag ≡ newobj_flag
      → (w' : World) × (protect (process_newobj call chance self klass object) w ≡ ok tt w')
        × (event_callback fits self trace w' ≡ ok tt w')
  unfolding inc32
  raised_stops_tracking chance self klass object a c r w here counters present raises unpaused fits
        trace flag =
      let (w', tracked, e, h) =
        process_newobj-raised call chance self klass object a c r w here counters present raises in
      (w', rw (e, protect), event_callback-paused fits self trace _ w' h flag (omega arith))
