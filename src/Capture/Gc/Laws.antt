-- ===== src/Capture/Gc/Laws.antt =====
-- What garbage collection keeps of a capture.
use mathlib.Core.Option
use memory_tracker.Base.{
  ◌<◌, ◌≡◌, refl, ◌∙◌, arith, Bool, true, false, some, [], ◌∷◌, map, tally, tally-append, ◌==◌,
}
use memory_tracker.Value.{Value, Ruby}
use memory_tracker.Assoc.{Assoc, lookup}
use memory_tracker.Table.{Table}
use memory_tracker.Table.Gc.{mark}
use memory_tracker.Table.Slots.{view, copies, view-eq-none}
use memory_tracker.Table.Invariant.{IsKey}
use memory_tracker.Table.Valid.{IsValid}
use memory_tracker.Table.Relocate.{Moves}
use memory_tracker.Table.Compact.{compact-Compacts}
use memory_tracker.World.{Capture}
use memory_tracker.Capture.Gc.{
  Mark, pinned, movable, mark_tracked, mark_capture, tracked_update, compact_capture,
}

-- How often an object is pinned, or marked as movable.
abbrev pins : Value → Mark → Bool
pins v (pinned x) = x == v
pins v (movable x) = false

abbrev marks_movable : Value → Mark → Bool
marks_movable v (pinned x) = false
marks_movable v (movable x) = x == v

tracked-marks :
    (klass a : Value) (m : Assoc Value)
    → lookup klass m ≡ some a
    → (0 < tally (pins klass) (mark_tracked m)) × (0 < tally (marks_movable a) (mark_tracked m))
unfolding lookup mark_tracked
tracked-marks klass a [] e = cc
tracked-marks klass a ((k, v) ∷ m) e = ground (arith, tracked-marks klass a m)

lookup-tracked_update :
    (location : Value → Value) (klass : Value) (m : Assoc Value)
    → lookup klass (tracked_update location m) ≡ Option.map location (lookup klass m)
unfolding lookup tracked_update
lookup-tracked_update location klass [] = refl
lookup-tracked_update location klass ((k, v) ∷ m) =
    ground (arith, lookup-tracked_update location klass m)

module _ ⦃ruby : Ruby⦄ where
  -- The marking of a capture pins every class that it tracks and marks the class's counters.
  mark_capture-tracked :
      (c : Capture) (klass a : Value)
      → lookup klass c.tracked ≡ some a
      → (0 < tally (pins klass) (mark_capture c)) × (0 < tally (marks_movable a) (mark_capture c))
  unfolding mark_capture
  mark_capture-tracked c klass a e =
      let (p, q) = tracked-marks klass a c.tracked e in
      let states = map movable (mark c.states) in
      (
        omega (arith, p, tally-append (pins klass) (mark_tracked c.tracked) states),
        omega (arith, q, tally-append (marks_movable a) (mark_tracked c.tracked) states),
      )

  -- The compaction of a capture with a valid table, with its allocation granted and no object of
  -- the table moved onto another, onto zero or onto Qnil, for an object in the table whose class is
  -- tracked and does not move: it succeeds, the table is valid with the same count, the object
  -- reads at its new address what it did at the old one, brought up to date, its class is still
  -- tracked, by the new address of its counters, and the totals are the same.
  pub compact_capture-view :
      (location : Value → Value) (c : Capture) (t : Table) (o klass datum a : Value)
      → c.states ≡ some t
      → IsValid t
      → Moves location t.entries
      → IsKey o
      → view t.entries o ≡ some (klass, datum)
      → lookup klass c.tracked ≡ some a
      → location klass ≡ klass
      → (c' : Capture) × (t' : Table) × (compact_capture location true c ≡ some c')
        × (c'.states ≡ some t')
        × IsValid t'
        × (t'.count ≡ t.count)
        × (view t'.entries (location o) ≡ some (location klass, location datum))
        × (lookup (location klass) c'.tracked ≡ some (location a))
        × (c'.new_count ≡ c.new_count)
        × (c'.free_count ≡ c.free_count)
  unfolding compact_capture
  compact_capture-view location c t o klass datum a st v moves key held tracked stays =
      let present : 0 < copies o t.entries = ground (arith, held, view-eq-none o t.entries) in
      let (t', e, k) = compact-Compacts location v moves in
      (
        record c { tracked = tracked_update location c.tracked; states = some t' },
        t',
        rw st (rw e refl),
        refl,
        k.valid,
        k.count,
        k.reads o key present ∙ rw held refl,
        rw (stays, lookup-tracked_update location klass c.tracked, tracked) refl,
        refl,
        refl,
      )
