-- ===== src/Events/Gc.antt =====
-- The event queue in garbage collection: the mark and compact callbacks of events.c.
use memory_tracker.Base.{
  ℕ, zero, suc, Bool, true, false, Option, none, some, List, [], ◌∷◌, ◌++◌, if◌then◌else◌, take,
}
use memory_tracker.Value.{Value}
use memory_tracker.Queue.{Queue}
use memory_tracker.Events.{Event, EventType, no_event, newobj, freeobj, Events, queue_of, put_queue}

-- `skip_none && event->type == MEMORY_PROFILER_EVENT_TYPE_NONE`
unfoldable pub is_skipped : Bool → EventType → Bool
is_skipped skip_none no_event = skip_none
is_skipped skip_none newobj = false
is_skipped skip_none freeobj = false

-- The object is marked for NEWOBJ only.
unfoldable pub marked_object : EventType → Value → List Value
marked_object newobj object = object ∷ []
marked_object freeobj object = []
marked_object no_event object = []

unfoldable pub mark_event : Bool → Event → List Value
unfolding is_skipped marked_object
mark_event skip_none e =
    if is_skipped skip_none e.type then [] else e.capture ∷ e.klass ∷ marked_object e.type e.object

-- A cell that was never written does not occur below the count.
unfoldable pub mark_cells : Bool → List (Option Event) → List Value
unfolding mark_event
mark_cells skip_none [] = []
mark_cells skip_none (none ∷ cells) = mark_cells skip_none cells
mark_cells skip_none (some e ∷ cells) = mark_event skip_none e ++ mark_cells skip_none cells

unfoldable pub mark_queue : Queue Event → Bool → List Value
unfolding mark_cells
mark_queue q skip_none = mark_cells skip_none (take q.count q.base)

unfoldable pub mark : Events → List Value
unfolding mark_queue
mark e = mark_queue (queue_of e.available e) false ++ mark_queue (queue_of e.processing e) true

module _ (location : Value → Value) where
  unfoldable pub moved_object : EventType → Value → Value
  moved_object newobj object = location object
  moved_object freeobj object = object
  moved_object no_event object = object

  unfoldable pub compact_event : Bool → Event → Event
  unfolding is_skipped moved_object
  compact_event skip_none e = if is_skipped skip_none e.type then e else record e {
    capture = location e.capture;
    klass = location e.klass;
    object = moved_object e.type e.object;
  }

  -- The cells below the count.
  unfoldable pub compact_cells : Bool → ℕ → List (Option Event) → List (Option Event)
  unfolding compact_event
  compact_cells skip_none zero cells = cells
  compact_cells skip_none (suc n) [] = []
  compact_cells skip_none (suc n) (none ∷ cells) = none ∷ compact_cells skip_none n cells
  compact_cells skip_none (suc n) (some e ∷ cells) =
      some (compact_event skip_none e) ∷ compact_cells skip_none n cells

  unfoldable pub compact_queue : Queue Event → Bool → Queue Event
  unfolding compact_cells
  compact_queue q skip_none = record q { base = compact_cells skip_none q.count q.base }

  unfoldable pub compact : Events → Events
  unfolding compact_queue
  compact e =
      let e' = put_queue e.available (compact_queue (queue_of e.available e) false) e in
      put_queue e'.processing (compact_queue (queue_of e'.processing e') true) e'
