-- ===== src/Capture/Control.antt =====
-- capture.c: the methods of Memory::Profiler::Capture that change its state.
use memory_tracker.Base.{
  ℕ, Bool, true, false, Option, none, some, [], ◌∷◌, ◌++◌, if◌then◌else◌, ◌==◌, not, keep,
}
use memory_tracker.Value.{Value, Ruby}
use memory_tracker.Assoc.{Assoc, lookup, insert, delete}
use memory_tracker.Allocations
use memory_tracker.Allocations.{Allocations}
use memory_tracker.Events.{EventType}
use memory_tracker.Table
use memory_tracker.Table.{Table}
use memory_tracker.World.{
  Capture, ok, M, ◌>>=◌, ◌>>◌, pure, raise, get_capture, get_record, put_capture, put_record,
}
use memory_tracker.Capture.Process.{Chance}
use memory_tracker.Capture.Dispatch.{events_instance, process_all}

-- The capture that alloc makes, unless malloc fails for its table: then it raises.
unfoldable pub alloc : (struct_fits array_fits : Bool) → Value → M (Unit {0})
alloc struct_fits array_fits self = elim (Table.new struct_fits array_fits 1024) [
  | none ↦ raise
  | some t ↦ put_capture self (record {
    running = 0;
    paused = 0;
    tracked = [];
    states = some t;
    new_count = 0;
    free_count = 0;
  })
]

-- rb_add_event_hook2 and rb_remove_event_hook_with_data
unfoldable pub add_hook : Value → M (Unit {0})
add_hook self w = ok tt (record w { hooks = w.hooks ++ self ∷ [] })

unfoldable pub remove_hook : Value → M (Unit {0})
remove_hook self w = ok tt (record w { hooks = keep (λ s. not (s == self)) w.hooks })

-- `made` is whether Memory_Profiler_Events_instance returns; else it raises.
unfoldable pub start : Bool → Value → M Bool
unfolding add_hook
start made self = do
  c ← get_capture self
  if not (c.running == 0) then pure false else (do
    events_instance made
    add_hook self
    put_capture self (record c { running = 1; paused = 0 })
    pure true)

module _ ⦃ruby : Ruby⦄ where
  -- `fuel` bounds the events processed.
  unfoldable pub stop :
      (Value → Value → EventType → Value → M Value) → (ℕ → Chance) → Bool → ℕ → Value → M Bool
  unfolding remove_hook
  stop call chance made fuel self = do
    c ← get_capture self
    if c.running == 0 then pure false else (do
      remove_hook self
      process_all call chance made fuel
      c ← get_capture self
      put_capture self (record c { running = 0; paused = 0 })
      pure true)

  -- `callback` is Qnil without a block; `wrapper` is the address of a new Allocations object.
  unfoldable pub track_known : Value → Value → Value → Value → Capture → Option Value → M Value
  track_known wrapper self klass callback c (some allocations) = do
    r ← get_record allocations
    put_record allocations (record r { callback = callback })
    pure allocations
  track_known wrapper self klass callback c none = do
    put_record wrapper (record { callback = callback; new_count = 0; free_count = 0 })
    put_capture self (record c { tracked = insert klass wrapper c.tracked })
    pure wrapper

  unfoldable pub track : Value → Value → Value → Value → M Value
  unfolding track_known
  track wrapper self klass callback = do
    c ← get_capture self
    track_known wrapper self klass callback c (lookup klass c.tracked)

  unfoldable pub untrack : Value → Value → M Value
  untrack self klass = do
    c ← get_capture self
    put_capture self (record c { tracked = delete klass c.tracked })
    pure self

  -- st_foreach with Memory_Profiler_Capture_tracked_clear
  unfoldable pub clear_records : Assoc Value → M (Unit {0})
  clear_records [] = pure tt
  clear_records ((klass, allocations) ∷ m) = do
    r ← get_record allocations
    put_record allocations (Allocations.clear r)
    clear_records m

  -- The table made anew, which may be NULL.
  unfoldable pub fresh_states : Bool → Bool → Option Table → Option Table
  fresh_states struct_fits array_fits none = none
  fresh_states struct_fits array_fits (some t) = Table.new struct_fits array_fits 1024

  unfoldable pub clear : (struct_fits array_fits : Bool) → Value → M Value
  unfolding fresh_states
  clear struct_fits array_fits self = do
    c ← get_capture self
    if not (c.running == 0) then raise else (do
      clear_records c.tracked
      put_capture self (record c {
        states = fresh_states struct_fits array_fits c.states;
        new_count = 0;
        free_count = 0;
      })
      pure self)
