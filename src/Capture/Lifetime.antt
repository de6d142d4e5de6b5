-- ===== src/Capture/Lifetime.antt =====
-- An object from its allocation to its free.
use memory_tracker.Base.{
  ◌*◌, ◌≤◌, ◌<◌, ◌≡◌, refl, ◌⊎◌, true, false, none, some, arith, inc, int_mod,
}
use memory_tracker.Value.{Value, Ruby}
use memory_tracker.Assoc.{Assoc, lookup}
use memory_tracker.Allocations.{Allocations}
use memory_tracker.Events.{EventType}
use memory_tracker.Table.{Table, overloaded, max_probe_length, delete}
use memory_tracker.Table.Slots.{view}
use memory_tracker.Table.Invariant.{IsKey}
use memory_tracker.Table.Valid.{IsValid}
use memory_tracker.Table.Store.{store, store-Stores}
use memory_tracker.Table.Delete.{delete-Deletes}
use memory_tracker.World.{Capture, World, ok, M, ◌>>◌}
use memory_tracker.Capture.Process.{process_newobj, process_freeobj}
use memory_tracker.Capture.Steps.{Counters}
use memory_tracker.Capture.Newobj.{IsQuiet, process_newobj-ok}
use memory_tracker.Capture.Freeobj.{process_freeobj-tracked}

module _ ⦃ruby : Ruby⦄ where
  -- An allocation of an object that the table lacks and its free after it, in a capture with less
  -- than 2 ^ 32 pauses, whose class is new or has its counters, with a valid table that need not
  -- grow or that may grow within MAX_PROBE_LENGTH slots, calloc granted, and a callback, if any,
  -- that returns and leaves the captures and counters alone: both succeed, both totals and both
  -- counters of the class go up by one, nothing else of the capture changes but its tracked
  -- classes, and the table is valid with as many objects as before, where every object reads as
  -- before.
  pub newobj-freeobj :
      (call : Value → Value → EventType → Value → M Value) (wrapper self klass object a : Value)
      (c : Capture) (r : Allocations) (w : World) (t : Table) (q : Value)
      (here : lookup self w.captures ≡ some c)
      → Counters self c w here wrapper klass a r
      → IsQuiet call
      → c.paused < int_mod
      → c.states ≡ some t
      → IsValid t
      → (overloaded t ≡ false) ⊎ (t.capacity * 2 ≤ max_probe_length)
      → IsKey object
      → IsKey q
      → view t.entries object ≡ none
      → (w' : World) × (t' : Table) × (tracked : Assoc Value) × ((process_newobj call
                (record { fits = true; wrapper = wrapper })
                self
                klass
                object
              >> process_freeobj call self object)
            w
          ≡ ok tt w')
        × (lookup self w'.captures
            ≡ some (record c {
              new_count = inc c.new_count;
              free_count = inc c.free_count;
              tracked = tracked;
              states = some t';
            }))
        × (lookup a w'.records
            ≡ some (record r { new_count = inc r.new_count; free_count = inc r.free_count }))
        × IsValid t'
        × (t'.count ≡ t.count)
        × (view t'.entries q ≡ view t.entries q)
  newobj-freeobj call wrapper self klass object a c r w t q here counters quiet bound st v room key
        k new =
      let (datum, w₁, tracked, run, there, known, counted, _) =
        process_newobj-ok call (record { fits = true; wrapper = wrapper }) self klass object a c r w
          here counters quiet bound t st in
      let s = store-Stores t object klass datum v key room in
      let t₁ = store true t object klass datum in
      let held : view t₁.entries object ≡ some (klass, datum) =
        ground (arith, s.reads object key) in
      let (w₂, free, after, counted₂) =
        process_freeobj-tracked call self object _ w₁ t₁ there refl bound s.valid key quiet klass
          datum a _ held known counted in
      let d = delete-Deletes s.valid object key in
      (
        w₂,
        delete t₁ object,
        tracked,
        rw run free,
        after,
        counted₂,
        d.valid,
        ground (arith, d.held, s.count, held, new),
        ground (arith, d.reads q k, s.reads q k, new),
      )
