-- ===== src/Events/Collected.antt =====
-- What garbage collection keeps of the queued events.
use mathlib.Core.Option
use memory_tracker.Base.{
  ℕ, zero, suc, ◌≤◌, ◌<◌, ◌≡◌, ◌≢◌, ◌⊎◌, inl, inr, refl, sym, subst, ap, ◌∙◌, arith, Bool, true,
  false, none, some, List, [], ◌∷◌, ◌++◌, map, take, Option,
}
use memory_tracker.Value.{Value}
use memory_tracker.Table.Mark.{marks, marks-append}
use memory_tracker.Queue.{Queue}
use memory_tracker.Queue.Contents.{contents}
use memory_tracker.Events.{
  Event, EventType, no_event, newobj, freeobj, Events, Side, first, second, queue_of,
}
use memory_tracker.Events.Laws.{other}
use memory_tracker.Events.Gc.{
  mark, mark_event, mark_cells, mark_queue, marked_object, is_skipped, compact, compact_event,
  compact_cells, compact_queue,
}

-- An event in the list has its values among those marked.
cells-marks :
    (skip : Bool) (v : Value) (ev : Event) (xs ys : List Event)
    → 0 < marks v (mark_event skip ev)
    → 0 < marks v (mark_cells skip (map some (xs ++ ev ∷ ys)))
unfolding mark_cells
cells-marks skip v ev [] ys h =
    omega (arith, h, marks-append v (mark_event skip ev) (mark_cells skip (map some ys)))
cells-marks skip v ev (x ∷ xs) ys h = omega (
  arith,
  cells-marks skip v ev xs ys h,
  marks-append v (mark_event skip x) (mark_cells skip (map some (xs ++ ev ∷ ys))),
)

-- The values of an event that are kept alive.
pub data IsKept (ev : Event) : Value → Type 0 where
  its_capture : IsKept ev ev.capture
  its_class : IsKept ev ev.klass
  its_object : ev.type ≡ newobj → IsKept ev ev.object

pub never_skipped : (t : EventType) → is_skipped false t ≡ false
unfolding is_skipped
never_skipped no_event = refl
never_skipped newobj = refl
never_skipped freeobj = refl

waiting_kept : (t : EventType) → t ≢ no_event → is_skipped true t ≡ false
unfolding is_skipped
waiting_kept no_event n = absurd (n refl)
waiting_kept newobj n = refl
waiting_kept freeobj n = refl

event-marks :
    (skip : Bool) (ev : Event) (v : Value)
    → is_skipped skip ev.type ≡ false
    → IsKept ev v
    → 0 < marks v (mark_event skip ev)
unfolding mark_event marked_object
event-marks skip ev _ s its_capture = rw s (ground arith)
event-marks skip ev _ s its_class = rw s (ground arith)
event-marks skip ev _ s (its_object t) = rw s (rw t (ground arith))

queue-marks :
    (skip : Bool) (q : Queue Event) (ev : Event) (v : Value) (xs ys : List Event)
    → contents q ≡ map some (xs ++ ev ∷ ys)
    → is_skipped skip ev.type ≡ false
    → IsKept ev v
    → 0 < marks v (mark_queue q skip)
unfolding mark_queue contents
queue-marks skip q ev v xs ys h s kept =
    rw h (cells-marks skip v ev xs ys (event-marks skip ev v s kept))

-- An event that waits in a queue: in the one that is processed only until it is cleared.
abbrev pub Waits : Events → Side → Event → Type 0
Waits e side ev = (side ≡ e.available) ⊎ ((side ≡ e.processing) × (ev.type ≢ no_event))

-- The marking of the events marks the capture and the class, and the object if the event is an
-- allocation, of every event that waits in the available queue, and of every one in the queue that
-- is processed that has not been cleared yet.
pub mark-events :
    (e : Events) (side : Side) (ev : Event) (v : Value) (xs ys : List Event)
    → contents (queue_of side e) ≡ map some (xs ++ ev ∷ ys)
    → Waits e side ev
    → IsKept ev v
    → 0 < marks v (mark e)
unfolding mark
mark-events e side ev v xs ys h waits kept =
    let both =
      marks-append v (mark_queue (queue_of e.available e) false)
        (mark_queue (queue_of e.processing e) true) in
    elim waits [
      | inl s ↦
          let here : 0 < marks v (mark_queue (queue_of e.available e) false) =
            queue-marks false _ ev v xs ys (ap (λ (s : Side). contents (queue_of s e)) (sym s) ∙ h)
              (never_skipped ev.type) kept in
          omega (arith, here, both)
      | inr (s, n) ↦
          let here : 0 < marks v (mark_queue (queue_of e.processing e) true) =
            queue-marks true _ ev v xs ys (ap (λ (s : Side). contents (queue_of s e)) (sym s) ∙ h)
              (waiting_kept ev.type n) kept in
          omega (arith, here, both)
    ]

module _ (location : Value → Value) where
  take-compact_cells :
      (skip : Bool) (n k : ℕ) (cells : List (Option Event))
      → n ≤ k
      → take n (compact_cells location skip k cells)
        ≡ map (Option.map (compact_event location skip)) (take n cells)
  unfolding compact_cells
  take-compact_cells skip zero k cells l = refl
  take-compact_cells skip (suc n) zero cells l = absurd (omega arith)
  take-compact_cells skip (suc n) (suc k) [] l = refl
  take-compact_cells skip (suc n) (suc k) (none ∷ cells) l =
      ap (◌∷◌ none) (take-compact_cells skip n k cells (omega arith))
  take-compact_cells skip (suc n) (suc k) (some e ∷ cells) l =
      ap (◌∷◌ (some (compact_event location skip e)))
        (take-compact_cells skip n k cells (omega arith))

  compact_queue-contents :
      (q : Queue Event) (skip : Bool)
      → contents (compact_queue location q skip)
        ≡ map (Option.map (compact_event location skip)) (contents q)
  unfolding compact_queue contents
  compact_queue-contents q skip = take-compact_cells skip q.count q.count q.base (omega arith)

  abbrev CompactsBoth : Events → Type 0
  CompactsBoth e =
      (contents (queue_of e.available (compact location e))
        ≡ map (Option.map (compact_event location false)) (contents (queue_of e.available e)))
      × (contents (queue_of e.processing (compact location e))
          ≡ map (Option.map (compact_event location true)) (contents (queue_of e.processing e)))

  compact_sides :
      (q r : Queue Event) (s : Side) (t : Bool)
      → CompactsBoth
          (record { queue0 = q; queue1 = r; available = s; processing = other s; triggered = t })
  unfolding compact
  compact_sides q r first t = (compact_queue-contents q false, compact_queue-contents r true)
  compact_sides q r second t = (compact_queue-contents r false, compact_queue-contents q true)

  -- A compaction with two queues: each has its events brought up to date.
  pub compact-contents :
      (e : Events)
      → e.processing ≡ other e.available
      → (contents (queue_of e.available (compact location e))
          ≡ map (Option.map (compact_event location false)) (contents (queue_of e.available e)))
        × (contents (queue_of e.processing (compact location e))
            ≡ map (Option.map (compact_event location true)) (contents (queue_of e.processing e)))
  compact-contents e h =
      let same : e ≡ record e { processing = other e.available } =
        ap (λ (s : Side). record e { processing = s }) h in
      subst CompactsBoth (sym same) (compact_sides e.queue0 e.queue1 e.available e.triggered)
