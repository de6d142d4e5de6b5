-- ===== src/Capture/Session/Reports.antt =====
-- The hook keeps a session ready.
use memory_tracker.Base.{
  ℕ, suc, ◌+◌, ◌^◌, ◌<◌, ◌≡◌, refl, sym, subst, ap, ◌∙◌, inl, inr, arith, true, Option, none, some,
  List, [], ◌∷◌, ◌++◌, map, length, length-append,
}
use memory_tracker.Value.{Value, Ruby}
use memory_tracker.Assoc.{lookup}
use memory_tracker.Events.{Event, Events, Side, queue_of}
use memory_tracker.Events.Laws.{other, Enqueues}
use memory_tracker.Table.Invariant.{IsKey}
use memory_tracker.World.{Capture, World}
use memory_tracker.Capture.Hook.{Trace, event_callback}
use memory_tracker.Capture.Filter.{event_callback-cases}
use memory_tracker.Capture.Frame.{Ensures}
use memory_tracker.Capture.Session.Ready.{
  Ready, AboutObjects-append, Balanced-weaken, Ready-weaken, waiting_count,
}

map-some-append :
    {A : Type 0} (xs : List A) (x : A) → map some (xs ++ x ∷ []) ≡ map some xs ++ some x ∷ []
map-some-append [] x = refl
map-some-append (y ∷ xs) x = ap (◌∷◌ (some y)) (map-some-append xs x)

module _ ⦃ruby : Ruby⦄ where
  -- One more event waits.
  Ready-enqueued :
      (n : ℕ) (w : World) (e : Events) (ev : Event)
      → Enqueues ev w.events e
      → IsKey ev.object
      → Ready (suc n) w
      → Ready n (record w { events = e })
  Ready-enqueued n w e ev q key r =
      let (p, (v, s), waiting, idle, z) = r.tidy in
      let longer : length (r.es ++ ev ∷ []) ≡ length r.es + 1 = length-append r.es (ev ∷ []) in
      let sides : e.processing ≡ other w.events.available = q.same_processing ∙ p in
      let untouched : queue_of e.processing e ≡ queue_of w.events.processing w.events =
        ap (λ (s : Side). queue_of s e) sides
        ∙ (q.untouched ∙ ap (λ (s : Side). queue_of s w.events) (sym p)) in
      record {
        es = r.es ++ ev ∷ [];
        about = AboutObjects-append r.es ev r.about key;
        tidy = (
          sides ∙ ap other (sym q.same_side),
          (q.valid, q.same_size ∙ s),
          q.appended ∙ (ap (λ (l : _). l ++ some ev ∷ []) waiting ∙ sym (map-some-append r.es ev)),
          rw untouched idle,
          rw untouched z,
        );
        small = omega (arith, longer, r.small);
        balanced =
            Balanced-weaken (length (r.es ++ ev ∷ []) + n) (length r.es + suc n) w
              (omega (arith, longer)) r.balanced;
      }

  hook_at :
      (n : ℕ) (self : Value) (trace : Trace) (w : World) (o : Option Capture)
      → lookup self w.captures ≡ o
      → IsKey trace.object
      → Ready (suc n) w
      → Ensures (Ready n) (event_callback true self trace w)
  unfolding event_callback
  hook_at n self trace w none e key r = rw e (Ready-weaken n w r)
  hook_at n self trace w (some c) e key r =
      let (p, (v, s), waiting, idle, z) = r.tidy in
      let few : (queue_of w.events.available w.events).count < 2 ^ 57 =
        omega (arith, waiting_count r.es w.events r.tidy, r.small) in
      elim (event_callback-cases self trace c w e v s few) [
        | inr run ↦ subst (Ensures (Ready n)) (sym run) (Ready-weaken n w r)
        | inl (e', ev, run, q, same) ↦
            subst (Ensures (Ready n)) (sym run)
              (Ready-enqueued n w e' ev q (subst IsKey (sym same) key) r)
      ]

  pub Ready-event_callback :
      (n : ℕ) (self : Value) (trace : Trace) (w : World)
      → IsKey trace.object
      → Ready (suc n) w
      → Ensures (Ready n) (event_callback true self trace w)
  Ready-event_callback n self trace w key r =
      hook_at n self trace w (lookup self w.captures) refl key r
