-- ===== src/Capture/Filter.antt =====
-- The event hook: which events reach the queue.
use memory_tracker.Base.{
  ◌≡◌, ◌≢◌, refl, ◌<◌, ◌^◌, ◌⊎◌, inl, inr, Bool, true, some, arith, ◌==◌, Bool-cases, ne→==,
}
use memory_tracker.Queue.Contents.{IsValid}
use memory_tracker.Events.{Event, EventType, Events, newobj, freeobj, event_size, queue_of}
use memory_tracker.Events.Laws.{Enqueues, enqueue-total}
use memory_tracker.Value.{Value, Ruby}
use memory_tracker.Assoc.{lookup}
use memory_tracker.World.{Capture, World, ok}
use memory_tracker.Capture.Hook.{
  Trace, EventFlag, RubyType, newobj_flag, freeobj_flag, other_flag, t_class, trackable_p, is_class,
  send, on_flag, event_callback,
}

module _ ⦃ruby : Ruby⦄ (fits : Bool) (self : Value) (trace : Trace) (c : Capture) (w : World)
    (here : lookup self w.captures ≡ some c) where
  -- During a pause no allocation is queued.
  pub event_callback-paused :
      trace.flag ≡ newobj_flag → c.paused ≢ 0 → event_callback fits self trace w ≡ ok tt w
  unfolding event_callback
  event_callback-paused flag paused =
      rw here (rw flag (rw (ne→== c.paused 0 paused) (ground arith)))

-- A queued event, with the outcome of realloc granted.
module _ (self : Value) (w : World) where
  sends :
      (type : EventType) (klass object : Value)
      → IsValid (queue_of w.events.available w.events)
      → (queue_of w.events.available w.events).element_size ≡ event_size
      → (queue_of w.events.available w.events).count < 2 ^ 57
      → (e : Events) × (send true type self klass object w ≡ ok tt (record w { events = e }))
        × Enqueues
            (record { type = type; capture = self; klass = klass; object = object })
            w.events
            e
  unfolding send
  sends type klass object v size few =
      let (e, run, done) = enqueue-total type self klass object w.events v size few in
      (e, rw (run, send) refl, done)

module _ ⦃ruby : Ruby⦄ (self : Value) (trace : Trace) (c : Capture) (w : World)
    (here : lookup self w.captures ≡ some c) where
  -- The event that the hook queues for what its trace argument tells.
  pub data Queues : Event → Type 0 where
    allocation :
        trace.flag ≡ newobj_flag
        → c.paused ≡ 0
        → trace.klass_type ≡ t_class
        → Queues
            (record { type = newobj; capture = self; klass = trace.klass; object = trace.object })
    free :
        trace.flag ≡ freeobj_flag
        → Queues
            (record { type = freeobj; capture = self; klass = ruby.nil; object = trace.object })

  allocation-sent :
      {w' : World}
      → trackable_p trace.object_type ≡ true
      → trace.flag ≡ newobj_flag
      → c.paused ≡ 0
      → trace.klass_type ≡ t_class
      → send true newobj self trace.klass trace.object w ≡ ok tt w'
      → event_callback true self trace w ≡ ok tt w'
  unfolding event_callback
  allocation-sent trackable flag running klass run =
      rw here (rw trackable (rw flag (rw running (rw klass run))))

  free-sent :
      {w' : World}
      → trackable_p trace.object_type ≡ true
      → trace.flag ≡ freeobj_flag
      → send true freeobj self ruby.nil trace.object w ≡ ok tt w'
      → event_callback true self trace w ≡ ok tt w'
  unfolding event_callback
  free-sent trackable flag run = rw here (rw trackable (rw flag run))

  -- In an allocation of a trackable object of a class, in a capture that is not paused, or in the
  -- free of a trackable object, paused or not, with realloc granted and a valid available queue in
  -- which fewer than 2 ^ 57 events wait: the hook succeeds and changes nothing but the events,
  -- where its event comes last among those that wait, with the job triggered and the queue that is
  -- being processed untouched. A free is queued with Qnil as its class.
  pub event_callback-queues :
      (ev : Event)
      → trackable_p trace.object_type ≡ true
      → Queues ev
      → IsValid (queue_of w.events.available w.events)
      → (queue_of w.events.available w.events).element_size ≡ event_size
      → (queue_of w.events.available w.events).count < 2 ^ 57
      → (e : Events) × (event_callback true self trace w ≡ ok tt (record w { events = e }))
        × Enqueues ev w.events e
  event_callback-queues _ trackable (allocation flag running klass) v size few =
      let (e, run, done) = sends self w newobj trace.klass trace.object v size few in
      (e, allocation-sent trackable flag running klass run, done)
  event_callback-queues _ trackable (free flag) v size few =
      let (e, run, done) = sends self w freeobj ruby.nil trace.object v size few in
      (e, free-sent trackable flag run, done)

  class_type : (k : RubyType) → is_class k ≡ true → k ≡ t_class
  unfolding is_class
  class_type t_class e = refl
  class_type _ e = cc

  on_flag-cases :
      (fits : Bool) (flag : EventFlag)
      → trace.flag ≡ flag
      → ((ev : Event) × Queues ev × (ev.object ≡ trace.object))
        ⊎ (on_flag fits self flag trace c w ≡ ok tt w)
  unfolding on_flag
  on_flag-cases fits newobj_flag f = elim (Bool-cases (c.paused == 0)) [
    | inr n ↦ inr (rw n refl)
    | inl y ↦ elim (Bool-cases (is_class trace.klass_type)) [
      | inr n ↦ inr (rw y (rw n refl))
      | inl k ↦ inl (_, allocation f (ground arith) (class_type trace.klass_type k), refl)
    ]
  ]
  on_flag-cases fits freeobj_flag f = inl (_, free f, refl)
  on_flag-cases fits other_flag f = inr refl

  -- The hook for anything but the allocation of a trackable object of a class in a capture that is
  -- not paused, and the free of a trackable object: it succeeds and changes nothing.
  pub event_callback-drops :
      (fits : Bool)
      → ¬ ((trackable_p trace.object_type ≡ true) × ((ev : Event) × Queues ev))
      → event_callback fits self trace w ≡ ok tt w
  unfolding event_callback
  event_callback-drops fits never = elim (Bool-cases (trackable_p trace.object_type)) [
    | inr n ↦ rw here (rw n refl)
    | inl y ↦ elim (on_flag-cases fits trace.flag refl) [
      | inl (ev, q, _) ↦ absurd (never (y, (ev, q)))
      | inr drops ↦ rw here (rw y drops)
    ]
  ]

  -- The hook queues an event about the object of its trace argument, or changes nothing.
  pub event_callback-cases :
      IsValid (queue_of w.events.available w.events)
      → (queue_of w.events.available w.events).element_size ≡ event_size
      → (queue_of w.events.available w.events).count < 2 ^ 57
      → ((e : Events) × (ev : Event) × (event_callback true self trace w
            ≡ ok tt (record w { events = e }))
          × Enqueues ev w.events e
          × (ev.object ≡ trace.object))
        ⊎ (event_callback true self trace w ≡ ok tt w)
  unfolding event_callback
  event_callback-cases v size few = elim (Bool-cases (trackable_p trace.object_type)) [
    | inr n ↦ inr (rw here (rw n refl))
    | inl y ↦ elim (on_flag-cases true trace.flag refl) [
      | inr drops ↦ inr (rw here (rw y drops))
      | inl (ev, q, same) ↦
          let (e, run, done) = event_callback-queues ev y q v size few in
          inl (e, ev, run, done, same)
    ]
  ]
