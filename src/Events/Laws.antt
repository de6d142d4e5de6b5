-- ===== src/Events/Laws.antt =====
-- enqueue: one more event at the end of the available queue, and nothing else changed.
use memory_tracker.Base.{
  ℕ, ◌≡◌, refl, sym, ap, subst, ◌<◌, ◌^◌, ◌∙◌, ◌⊎◌, inl, inr, Bool, true, arith, none, some, [],
  ◌∷◌, ◌++◌,
}
use memory_tracker.Value.{Value}
use memory_tracker.Queue
use memory_tracker.Queue.{Queue, size_max, default_count}
use memory_tracker.Queue.Contents.{contents, IsValid}
use memory_tracker.Queue.Push.{push-cases, push-total, write-contents}
use memory_tracker.Events.{
  Event, EventType, Side, first, second, Events, queue_of, put_queue, enqueue, event_size,
}

write-element_size :
    (q : Queue Event) (i : ℕ) (x : Event) → (Queue.write q i x).element_size ≡ q.element_size
unfolding Queue.write
write-element_size q i x = refl

-- The queue with the event, and the job triggered.
abbrev placed : Side → Queue Event → Events → Events
placed s q e = record (put_queue s q e) { triggered = true }

queue_of-placed : (s : Side) (q : Queue Event) (e : Events) → queue_of s (placed s q e) ≡ q
queue_of-placed first q e = refl
queue_of-placed second q e = refl

abbrev pub other : Side → Side
other first = second
other second = first

queue_of-placed-other :
    (s : Side) (q : Queue Event) (e : Events)
    → queue_of (other s) (placed s q e) ≡ queue_of (other s) e
queue_of-placed-other first q e = refl
queue_of-placed-other second q e = refl

available-placed :
    (s : Side) (q : Queue Event) (e : Events) → (placed s q e).available ≡ e.available
available-placed first q e = refl
available-placed second q e = refl

processing-placed :
    (s : Side) (q : Queue Event) (e : Events) → (placed s q e).processing ≡ e.processing
processing-placed first q e = refl
processing-placed second q e = refl

-- What queueing an event does: it comes last among those that wait, the job is triggered, and the
-- queue that is being processed is not touched.
pub record Enqueues (ev : Event) (e e' : Events) : Type 0 where
  pub same_side : e'.available ≡ e.available
  pub same_processing : e'.processing ≡ e.processing
  pub same_size : (queue_of e'.available e').element_size ≡ (queue_of e.available e).element_size
  pub valid : IsValid (queue_of e'.available e')
  pub appended :
      contents (queue_of e'.available e') ≡ contents (queue_of e.available e) ++ some ev ∷ []
  pub untouched : queue_of (other e.available) e' ≡ queue_of (other e.available) e
  pub triggered : e'.triggered ≡ true

module _ (type : EventType) (capture klass object : Value) (e : Events)
    (v : IsValid (queue_of e.available e)) where
  abbrev queued : Event
  queued = record { type = type; capture = capture; klass = klass; object = object }

  -- enqueue, on a valid available queue, whether realloc succeeds or not: it fails, or the event
  -- comes last among those that wait, the queue stays valid, the job is triggered, and the queue
  -- that is being processed is not touched.
  enqueue-cases :
      (fits : Bool)
      → (enqueue fits type capture klass object e ≡ none)
        ⊎ ((e' : Events) × (enqueue fits type capture klass object e ≡ some e')
            × Enqueues queued e e')
  unfolding enqueue
  enqueue-cases fits = elim (push-cases v fits) [
    | inl (f, _) ↦ inl (rw (f, enqueue))
    | inr (p, f, s) ↦
        let side = e.available in
        let q' = Queue.write p (queue_of side e).count queued in
        let (valid, appended) = write-contents v s queued in
        let here : queue_of (placed side q' e).available (placed side q' e) ≡ q' =
          ap (λ (s : Side). queue_of s (placed side q' e)) (available-placed side q' e)
          ∙ queue_of-placed side q' e in
        inr (
          placed side q' e,
          rw (f, enqueue),
          record {
            same_side = available-placed side q' e;
            same_processing = processing-placed side q' e;
            same_size =
                ap (λ (q : Queue Event). q.element_size) here
                ∙ (write-element_size p _ queued ∙ s.same_size);
            valid = subst IsValid (sym here) valid;
            appended = ap contents here ∙ appended;
            untouched = queue_of-placed-other side q' e;
            triggered = refl;
          },
        )
  ]

  -- enqueue, on a valid available queue of events with fewer than 2 ^ 57 of them waiting, succeeds
  -- when realloc does, and then the event comes last among those that wait, the job is triggered,
  -- and the queue that is being processed is not touched.
  pub enqueue-total :
      (queue_of e.available e).element_size ≡ event_size
      → (queue_of e.available e).count < 2 ^ 57
      → (e' : Events) × (enqueue true type capture klass object e ≡ some e') × Enqueues queued e e'
  unfolding enqueue
  enqueue-total size few = elim (enqueue-cases true) [
    | inr done ↦ done
    | inl lost ↦
        let (p, f, _) = push-total v (rw size (omega arith)) (rw size (omega arith)) in
        absurd (ground (arith, f))
  ]
