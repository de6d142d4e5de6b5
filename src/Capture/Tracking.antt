-- ===== src/Capture/Tracking.antt =====
-- track, untrack and clear.
use memory_tracker.Base.{◌≡◌, ◌≢◌, refl, inl, inr, arith, true, false, none, some}
use memory_tracker.Value.{Value, Ruby}
use memory_tracker.Assoc.{lookup, insert, delete, lookup-delete, lookup-insert_self}
use memory_tracker.Allocations.{Allocations}
use memory_tracker.World.{Capture, World, ok, bind}
use memory_tracker.Capture.Control.{track, track_known, untrack}
use memory_tracker.Capture.Query.{aref, or_nil, tracking_p, retained_count_of, retained_of}
use memory_tracker.Capture.Steps.{Counters}

module _ ⦃ruby : Ruby⦄ (self klass : Value) (c : Capture) (w : World)
    (here : lookup self w.captures ≡ some c) where
  -- track, in a capture where the class is new or has its counters: it returns the counters, `[]`
  -- then returns them, `tracking?` is true, and they have the new callback and the counts that they
  -- had, zero for a new class.
  track-aref :
      (a callback wrapper : Value) (r : Allocations)
      → Counters self c w here wrapper klass a r
      → (w' : World) × (track wrapper self klass callback w ≡ ok a w')
        × (aref self klass w' ≡ ok a w')
        × (tracking_p self klass w' ≡ ok true w')
        × (lookup a w'.records ≡ some (record r { callback = callback }))
  unfolding track track_known aref or_nil tracking_p
  track-aref a callback wrapper r (inl (known, counters)) = (
    record w { records = insert a (record r { callback = callback }) w.records },
    rw here (rw known (rw counters refl)),
    rw here (rw known refl),
    rw here (rw known refl),
    lookup-insert_self a _ w.records,
  )
  track-aref a callback wrapper r (inr (unknown, same, zero)) =
      let c' : Capture = record c { tracked = insert klass wrapper c.tracked } in
      let there : lookup self (insert self c' w.captures) ≡ some c' =
        lookup-insert_self self c' w.captures in
      let known : lookup klass c'.tracked ≡ some wrapper =
        lookup-insert_self klass wrapper c.tracked in
      (
        record w {
          captures = insert self c' w.captures;
          records =
              insert wrapper (record { callback = callback; new_count = 0; free_count = 0 })
                w.records;
        },
        rw (same, here) (rw unknown refl),
        rw there (rw (known, same) refl),
        rw there (rw known refl),
        rw (same, zero) (lookup-insert_self wrapper _ w.records),
      )

  -- After untrack the class is not tracked and has no retained objects; other classes stay.
  untrack-aref :
      (other : Value)
      → other ≢ klass
      → (w' : World) × (untrack self klass w ≡ ok self w')
        × (tracking_p self klass w' ≡ ok false w')
        × (aref self klass w' ≡ ok ruby.nil w')
        × (retained_count_of self klass w' ≡ ok 0 w')
        × (aref self other w' ≡ bind (aref self other w) (λ v _. ok v w'))
        × (w'.records ≡ w.records)
  unfolding untrack aref or_nil tracking_p retained_count_of retained_of
  untrack-aref other n =
      let c' : Capture = record c { tracked = delete klass c.tracked } in
      let there : lookup self (insert self c' w.captures) ≡ some c' =
        lookup-insert_self self c' w.captures in
      let gone : lookup klass c'.tracked ≡ none =
        ground (arith, lookup-delete klass klass c.tracked) in
      let stays : lookup other c'.tracked ≡ lookup other c.tracked =
        ground (arith, lookup-delete klass other c.tracked) in
      (
        record w { captures = insert self c' w.captures },
        rw here refl,
        rw there (rw gone refl),
        rw there (rw gone refl),
        rw there (rw gone refl),
        rw there (rw (here, stays) refl),
        refl,
      )
