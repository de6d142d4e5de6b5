-- ===== src/Capture/Gc.antt =====
-- capture.c in garbage collection: the mark, compact and memsize callbacks of a capture.
pub mod Laws
use mathlib.Core.Option
use memory_tracker.Base.{
  ℕ, ◌+◌, ◌*◌, Bool, Option, none, some, List, [], ◌∷◌, ◌++◌, map, length, if◌then◌else◌, ◌==◌,
}
use memory_tracker.Value.{Value, Ruby}
use memory_tracker.Assoc.{Assoc}
use memory_tracker.Table.{Table}
use memory_tracker.Table.Gc.{mark, compact}
use memory_tracker.World.{Capture}

-- rb_gc_mark, which also keeps an object where it is, and rb_gc_mark_movable.
pub data Mark : Type 0 where
  pinned movable : Value → Mark

-- st_foreach over the tracked classes.
unfoldable pub mark_tracked : Assoc Value → List Mark
mark_tracked [] = []
mark_tracked ((klass, allocations) ∷ m) = pinned klass ∷ movable allocations ∷ mark_tracked m

-- sizeof of the capture, and of one tracked class: a word and three words.
abbrev pub capture_size : ℕ
capture_size = 40

abbrev pub tracked_size : ℕ
tracked_size = 8 + 24

unfoldable pub capture_memsize : Capture → ℕ
capture_memsize c = capture_size + length c.tracked * tracked_size

-- The replace callback: the value is written only if it has moved, and the key never.
unfoldable pub tracked_update : (Value → Value) → Assoc Value → Assoc Value
tracked_update location [] = []
tracked_update location ((klass, old) ∷ m) =
    let new = location old in (klass, if old == new then old else new) ∷ tracked_update location m

module _ ⦃ruby : Ruby⦄ where
  unfoldable pub mark_capture : Capture → List Mark
  unfolding mark_tracked
  mark_capture c = mark_tracked c.tracked ++ map movable (mark c.states)

  compact_states : (Value → Value) → Bool → Capture → Option Table → Option Capture
  compact_states location fits c none = some c
  compact_states location fits c (some t) =
      Option.map (λ (t : Table). record c { states = some t }) (compact location fits t)

  -- `none` is undefined behaviour in the compaction of the table.
  unfoldable pub compact_capture : (Value → Value) → Bool → Capture → Option Capture
  unfolding tracked_update compact_states
  compact_capture location fits c =
      compact_states location fits (record c { tracked = tracked_update location c.tracked })
        c.states
