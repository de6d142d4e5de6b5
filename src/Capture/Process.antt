-- ===== src/Capture/Process.antt =====
-- capture.c: process_newobj, process_freeobj and process_event. `call` is the Ruby code behind a
-- callback, which may do anything to the world and may raise. Of a NEWOBJ event, `fits` is whether a
-- resize of the table gets its memory, and `wrapper` the address that Ruby gives to a new
-- Allocations object.
use memory_tracker.Base.{ℕ, Bool, Option, none, some, if◌then◌else◌, ◌==◌, inc, inc32, dec32, ◌||◌}
use memory_tracker.Value.{Value, Ruby}
use memory_tracker.Assoc.{lookup, insert}
use memory_tracker.Events.{Event, EventType, no_event, newobj, freeobj}
use memory_tracker.Table
use memory_tracker.Table.{Table, at, delete_entry}
use memory_tracker.Table.Store.{store}
use memory_tracker.World.{
  Capture, M, ◌>>=◌, ◌>>◌, pure, crash, get_capture, get_record, put_capture, put_record,
}

pub record Chance : Type 0 where
  pub fits : Bool
  pub wrapper : Value

-- `capture->paused += 1` and `capture->paused -= 1`
unfoldable pub pause : Value → M (Unit {0})
pause self = do c ← get_capture self; put_capture self (record c { paused = inc32 c.paused })

unfoldable pub resume : Value → M (Unit {0})
resume self = do c ← get_capture self; put_capture self (record c { paused = dec32 c.paused })

unfoldable pub count_new : Value → M (Unit {0})
count_new self = do
  c ← get_capture self
  put_capture self (record c { new_count = inc c.new_count })

module _ ⦃ruby : Ruby⦄ where
  -- The counters of a class: one allocation more on those that it has, or new ones that start at 1.
  unfoldable pub count_known : Value → Value → Value → Capture → Option Value → M Value
  count_known wrapper self klass c (some allocations) = do
    r ← get_record allocations
    put_record allocations (record r { new_count = inc r.new_count })
    pure allocations
  count_known wrapper self klass c none = do
    put_record wrapper (record { callback = ruby.nil; new_count = 1; free_count = 0 })
    put_capture self (record c { tracked = insert klass wrapper c.tracked })
    pure wrapper

  unfoldable pub count_class : Value → Value → Value → M Value
  unfolding count_known
  count_class wrapper self klass = do
    c ← get_capture self
    count_known wrapper self klass c (lookup klass c.tracked)

  -- The new entry, with the writes through its pointer; `states` may be NULL.
  unfoldable pub store_states :
      Bool → Value → Value → Value → Value → Capture → Option Table → M (Unit {0})
  store_states fits self klass object datum c none = crash
  store_states fits self klass object datum c (some t) =
      put_capture self (record c { states = some (store fits t object klass datum) })

  unfoldable pub store_object : Bool → Value → Value → Value → Value → M (Unit {0})
  unfolding store_states
  store_object fits self klass object datum = do
    c ← get_capture self
    store_states fits self klass object datum c c.states

  -- A freed object that is in the table, at the entry `index`: its class may not be tracked any more.
  module _ (call : Value → Value → EventType → Value → M Value) where
    unfoldable pub count_freed : Value → Table → ℕ → Option Value → M (Unit {0})
    count_freed self t index none = pure tt
    count_freed self t index (some allocations) = do
      let e = at t.entries index
      c ← get_capture self
      put_capture self (record c { states = some (delete_entry t index) })
      r ← get_record allocations
      c ← get_capture self
      put_capture self (record c { free_count = inc c.free_count })
      put_record allocations (record r { free_count = inc r.free_count })
      if (r.callback == ruby.nil) || (e.datum == ruby.nil)
          then pure tt
          else (call r.callback e.klass freeobj e.datum >>= λ _. pure tt)

    unfoldable pub free_entry : Value → Capture → Table → Option ℕ → M (Unit {0})
    unfolding count_freed
    free_entry self c t none = pure tt
    free_entry self c t (some index) =
        count_freed self t index (lookup (at t.entries index).klass c.tracked)

    unfoldable pub free_states : Value → Value → Capture → Option Table → M (Unit {0})
    unfolding free_entry
    free_states self object c none = crash
    free_states self object c (some t) = free_entry self c t (Table.lookup t object)

    unfoldable pub free_object : Value → Value → M (Unit {0})
    unfolding free_states
    free_object self object = do c ← get_capture self; free_states self object c c.states

    unfoldable pub process_newobj : Chance → Value → Value → Value → M (Unit {0})
    process_newobj chance self klass object = do
      pause self
      count_new self
      allocations ← count_class chance.wrapper self klass
      r ← get_record allocations
      datum ←
          if r.callback == ruby.nil then pure ruby.nil else call r.callback klass newobj ruby.nil
      store_object chance.fits self klass object datum
      resume self

    unfoldable pub process_freeobj : Value → Value → M (Unit {0})
    process_freeobj self object = do pause self; free_object self object; resume self

    unfoldable pub process_event : Chance → EventType → Event → M (Unit {0})
    process_event chance newobj e = process_newobj chance e.capture e.klass e.object
    process_event chance freeobj e = process_freeobj e.capture e.object
    process_event chance no_event e = pure tt
