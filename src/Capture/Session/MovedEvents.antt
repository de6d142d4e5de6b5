-- ===== src/Capture/Session/MovedEvents.antt =====
-- What a compaction of the heap does to the events that wait.
use mathlib.Core.Option
use memory_tracker.Base.{
  ℕ, zero, suc, ◌≡◌, refl, sym, subst, ap, ◌∙◌, Bool, true, false, Option, none, some, List, [],
  ◌∷◌, map, length,
}
use memory_tracker.Value.{Value, Ruby}
use memory_tracker.Queue.{Queue}
use memory_tracker.Queue.Contents.{contents}
use memory_tracker.Events.{
  Event, Events, EventType, newobj, freeobj, no_event, Side, first, second, queue_of,
}
use memory_tracker.Events.Laws.{other}
use memory_tracker.Events.Gc
use memory_tracker.Events.Gc.{compact_event, compact_queue, compact_cells, moved_object, is_skipped}
use memory_tracker.Events.Collected.{compact-contents, never_skipped}
use memory_tracker.Table.Invariant.{IsKey}
use memory_tracker.Capture.Balance.Runs.{AboutObjects}
use memory_tracker.Capture.Session.Tidy.{Tidy, Served}

module _ ⦃ruby : Ruby⦄ where
  -- rb_gc_location: no two objects come to one address, and none to zero or Qnil.
  pub record IsMove (location : Value → Value) : Type 0 where
    pub apart : (a b : Value) → location a ≡ location b → a ≡ b
    pub lands : (o : Value) → IsKey o → IsKey (location o)

  module _ (location : Value → Value) where
    length-compact_cells :
        (skip : Bool) (n : ℕ) (cells : List (Option Event))
        → length (compact_cells location skip n cells) ≡ length cells
    unfolding compact_cells
    length-compact_cells skip zero cells = refl
    length-compact_cells skip (suc n) [] = refl
    length-compact_cells skip (suc n) (none ∷ cells) = ap suc (length-compact_cells skip n cells)
    length-compact_cells skip (suc n) (some e ∷ cells) = ap suc (length-compact_cells skip n cells)

    compact_queue-Served :
        (q : Queue Event) (skip : Bool) → Served q → Served (compact_queue location q skip)
    unfolding compact_queue
    compact_queue-Served q skip (v, s) = (
      record {
        width = length-compact_cells skip q.count q.base ∙ v.width;
        within = v.within;
        bytes = v.bytes;
        sized = v.sized;
        size_fits = v.size_fits;
      },
      s,
    )

    -- What a compaction of the events leaves as it is.
    abbrev Still : Events → Events → Type 0
    Still e e' =
        (e'.available ≡ e.available)
        × (e'.processing ≡ e.processing)
        × ((queue_of e'.processing e').count ≡ (queue_of e.processing e).count)
        × (Served (queue_of e.available e) → Served (queue_of e'.available e'))
        × (Served (queue_of e.processing e) → Served (queue_of e'.processing e'))

    Still-sides :
        (q r : Queue Event) (s : Side) (t : Bool)
        → let e : Events = record {
          queue0 = q;
          queue1 = r;
          available = s;
          processing = other s;
          triggered = t;
        } in
          Still e (Gc.compact location e)
    unfolding Gc.compact compact_queue
    Still-sides q r first t =
        (refl, refl, refl, compact_queue-Served q false, compact_queue-Served r true)
    Still-sides q r second t =
        (refl, refl, refl, compact_queue-Served r false, compact_queue-Served q true)

    compact-Still :
        (e : Events) → e.processing ≡ other e.available → Still e (Gc.compact location e)
    compact-Still e h =
        let same : e ≡ record e { processing = other e.available } =
          ap (λ (s : Side). record e { processing = s }) h in
        subst (λ (e : Events). Still e (Gc.compact location e)) (sym same)
          (Still-sides e.queue0 e.queue1 e.available e.triggered)

    map-some-map :
        (f : Event → Event) (es : List Event)
        → map (Option.map f) (map some es) ≡ map some (map f es)
    map-some-map f [] = refl
    map-some-map f (e ∷ es) = ap (◌∷◌ (some (f e))) (map-some-map f es)

    pub compact-Tidy :
        (es : List Event) (e : Events)
        → Tidy es e
        → Tidy (map (compact_event location false) es) (Gc.compact location e)
    compact-Tidy es e (p, sa, waiting, sp, z) =
        let (a, q, count, fa, fp) = compact-Still e p in
        let (here, _) = compact-contents location e p in
        (
          q ∙ (p ∙ ap other (sym a)),
          fa sa,
          ap (λ (s : Side). contents (queue_of s (Gc.compact location e))) a
              ∙ (here
                  ∙ (ap (map (Option.map (compact_event location false))) waiting
                      ∙ map-some-map (compact_event location false) es)),
          fp sp,
          count ∙ z,
        )

    moved_object-IsKey :
        IsMove location → (t : EventType) (o : Value) → IsKey o → IsKey (moved_object location t o)
    unfolding moved_object
    moved_object-IsKey move newobj o k = move.lands o k
    moved_object-IsKey move freeobj o k = k
    moved_object-IsKey move no_event o k = k

    moved-IsKey :
        IsMove location
        → (e : Event) → IsKey e.object
        → IsKey (compact_event location false e).object
    unfolding compact_event
    moved-IsKey move e k = rw (never_skipped e.type) (moved_object-IsKey move e.type e.object k)

    pub AboutObjects-map :
        IsMove location
        → (es : List Event) → AboutObjects es
        → AboutObjects (map (compact_event location false) es)
    AboutObjects-map move [] h = tt
    AboutObjects-map move (e ∷ es) (k, h) = (moved-IsKey move e k, AboutObjects-map move es h)

    pub length-map : (f : Event → Event) (es : List Event) → length (map f es) ≡ length es
    length-map f [] = refl
    length-map f (e ∷ es) = ap suc (length-map f es)
