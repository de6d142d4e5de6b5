-- ===== src/Capture/Session/Tidy.antt =====
-- The two event queues outside of process_queue: one where events wait, one that is empty.
use memory_tracker.Base.{
  ℕ, suc, ◌≡◌, refl, sym, subst, ap, ◌∙◌, arith, Bool, some, List, [], ◌∷◌, map, length-set,
}
use memory_tracker.Value.{Value, Ruby}
use memory_tracker.Queue
use memory_tracker.Queue.{Queue}
use memory_tracker.Queue.Contents.{contents, IsValid}
use memory_tracker.Events.{
  Event, Events, EventType, Side, first, second, queue_of, put_queue, swap, event_size,
}
use memory_tracker.Events.Laws.{other}
use memory_tracker.World.{World, M}
use memory_tracker.Capture.Process.{Chance}
use memory_tracker.Capture.Dispatch.{cleared, clear_event, run_event, protect}
use memory_tracker.Capture.Frame.{Frame, Keeps}
use memory_tracker.Capture.Frame.Events.{Keeps-process_event}
use memory_tracker.Capture.Finishes.{Finishes, suppressed-Finishes, bind-Finishes}
use memory_tracker.Capture.Process.{process_event}
use memory_tracker.Capture.Order.{process_events}

-- A queue of events.
abbrev pub Served : Queue Event → Type 0
Served q = IsValid q × (q.element_size ≡ event_size)

abbrev pub Tidy : List Event → Events → Type 0
Tidy es e =
    (e.processing ≡ other e.available)
    × Served (queue_of e.available e)
    × (contents (queue_of e.available e) ≡ map some es)
    × Served (queue_of e.processing e)
    × ((queue_of e.processing e).count ≡ 0)

-- During the processing: the queue at `side` is processed, and the other one is `idle`.
abbrev pub Busy : Side → Queue Event → Events → Type 0
Busy side idle e =
    (e.processing ≡ side)
    × (e.available ≡ other side)
    × Served (queue_of side e)
    × (queue_of (other side) e ≡ idle)

write-Served : (q : Queue Event) (i : ℕ) (x : Event) → Served q → Served (Queue.write q i x)
unfolding Queue.write
write-Served q i x (v, s) = (
  record {
    width = length-set q.base i (some x) ∙ v.width;
    within = v.within;
    bytes = v.bytes;
    sized = v.sized;
    size_fits = v.size_fits;
  },
  s,
)

put-Busy :
    (side : Side) (q idle : Queue Event) (e : Events)
    → Served q
    → Busy side idle e
    → Busy side idle (put_queue side q e)
put-Busy first q idle e s (p, a, _, o) = (p, a, s, o)
put-Busy second q idle e s (p, a, _, o) = (p, a, s, o)

swapped :
    (e : Events) (a b : Side)
    → b ≡ other a
    → Served (queue_of a e)
    → Busy a (queue_of b e) (record e { available = b; processing = a })
swapped e first second p s = (refl, refl, s, refl)
swapped e second first p s = (refl, refl, s, refl)
swapped e first first p s = cc
swapped e second second p s = cc

pub swap-Busy :
    (es : List Event) (e : Events) → Tidy es e → Busy e.available (queue_of e.processing e) (swap e)
unfolding swap
swap-Busy es e (p, s, _, _, _) = swapped e e.available e.processing p s

clear-Served : (q : Queue Event) → Served q → Served (Queue.clear q)
unfolding Queue.clear
clear-Served q (v, s) = (
  record {
    width = v.width;
    within = omega arith;
    bytes = v.bytes;
    sized = v.sized;
    size_fits = v.size_fits;
  },
  s,
)

contents-empty : (q : Queue Event) → q.count ≡ 0 → contents q ≡ []
unfolding contents
contents-empty q e = rw e refl

finished :
    (side : Side) (idle q r : Queue Event) (t : Bool)
    → Served idle
    → idle.count ≡ 0
    → let e : Events = record {
      queue0 = q;
      queue1 = r;
      available = other side;
      processing = side;
      triggered = t;
    } in
      Served (queue_of side e)
      → queue_of (other side) e ≡ idle
      → Tidy [] (put_queue side (Queue.clear (queue_of side e)) e)
unfolding Queue.clear
finished first idle q r t si z s o = (
  refl,
  subst Served (sym o) si,
  contents-empty r (ap (λ (q : Queue Event). q.count) o ∙ z),
  clear-Served q s,
  refl,
)
finished second idle q r t si z s o = (
  refl,
  subst Served (sym o) si,
  contents-empty q (ap (λ (q : Queue Event). q.count) o ∙ z),
  clear-Served r s,
  refl,
)

pub finish-Tidy :
    (side : Side) (idle : Queue Event) (e : Events)
    → Served idle
    → idle.count ≡ 0
    → Busy side idle e
    → Tidy [] (put_queue e.processing (Queue.clear (queue_of e.processing e)) e)
finish-Tidy side idle e si z (p, a, s, o) =
    let same : e ≡ record e { processing = side; available = other side } =
      ap (λ (s : Side). record e { processing = s }) p
      ∙ ap (λ (s : Side). record e { processing = side; available = s }) a in
    let (_, _, s', o') = subst (Busy side idle) same (p, a, s, o) in
    subst
      (λ (e : Events). Tidy [] (put_queue e.processing (Queue.clear (queue_of e.processing e)) e))
      (sym same) (finished side idle e.queue0 e.queue1 e.triggered si z s' o')

module _ ⦃ruby : Ruby⦄ (call : Value → Value → EventType → Value → M Value) (chance : ℕ → Chance)
    (side : Side) (idle : Queue Event)
    (keeps : (callback klass : Value) (type : EventType) (datum : Value)
      → Keeps (λ w. Busy side idle w.events) (call callback klass type datum)) where
  Busy-Frame : Frame (λ w. Busy side idle w.events)
  Busy-Frame = record { capture = λ w self c c' h r p. p; counters = λ w a r p. p }

  run_event-Busy :
      (i : ℕ) (e : Event) (w : World)
      → Busy side idle w.events
      → Finishes (λ w. Busy side idle w.events) (run_event call chance i side e w)
  unfolding run_event clear_event
  run_event-Busy i e w h =
      bind-Finishes (λ w. Busy side idle w.events) (λ w. Busy side idle w.events)
        (protect (process_event call (chance i) e.type e) w) (λ _. clear_event side i)
        (suppressed-Finishes (λ w. Busy side idle w.events) _
          ((Keeps-process_event Busy-Frame call keeps (chance i) e.type e).at w h))
        (λ v (p, a, s, o).
          put-Busy side (Queue.write (queue_of side v.events) i cleared) idle v.events
            (write-Served (queue_of side v.events) i cleared s) (p, a, s, o))

  pub process_events-Busy :
      (es : List Event) (i : ℕ) (w : World)
      → Busy side idle w.events
      → Finishes (λ w. Busy side idle w.events) (process_events call chance side i es w)
  process_events-Busy [] i w h = h
  process_events-Busy (e ∷ es) i w h =
      bind-Finishes (λ w. Busy side idle w.events) (λ w. Busy side idle w.events)
        (run_event call chance i side e w) (λ _. process_events call chance side (suc i) es)
        (run_event-Busy i e w h) (λ v b. process_events-Busy es (suc i) v b)
