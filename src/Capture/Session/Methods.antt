-- ===== src/Capture/Session/Methods.antt =====
-- The methods of captures keep a session ready.
use memory_tracker.Base.{
  ℕ, ◌≡◌, refl, inl, inr, arith, true, Option, none, some, [], ◌∷◌, Bool-cases, ◌==◌, ◌<◌,
}
use memory_tracker.Value.{Value, Ruby}
use memory_tracker.Assoc.{Assoc, lookup, insert, delete}
use memory_tracker.Allocations.{Allocations}
use memory_tracker.Events.{EventType, queue_of}
use memory_tracker.Table.Valid.{new-IsValid}
use memory_tracker.World.{Capture, World, M, ◌>>=◌, ◌>>◌, pure, found, get_record, put_record}
use memory_tracker.Capture.Control.{
  alloc, start, stop, track, track_known, untrack, clear, clear_records, fresh_states, add_hook,
  remove_hook,
}
use memory_tracker.Capture.Frame.{Ensures, Ensures-bind, Ensures-found, Ensures-found_bind}
use memory_tracker.Capture.Running.{unhooked, halted}
use memory_tracker.Capture.Balance.Runs.{granted}
use memory_tracker.Capture.Clearing.{fresh-Account, from_1024}
use memory_tracker.Capture.Shutdown.{IsHarmless}
use memory_tracker.Capture.Session.Ready.{Ready, Ready-others, Ready-fresh, Ready-same}
use memory_tracker.Capture.Session.Jobs.{Ready-process_queue}

-- Capture.allocate, start, track, untrack and clear.
pub data Method : Type 0 where
  allocates starts clears : (self : Value) → Method
  tracks : (wrapper self klass callback : Value) → Method
  untracks : (self klass : Value) → Method

module _ ⦃ruby : Ruby⦄ where
  -- Every allocation succeeds, and the events are there; the answers are dropped.
  unfoldable pub perform : Method → M (Unit {0})
  perform (allocates self) = alloc true true self
  perform (starts self) = start true self >>= λ _. pure tt
  perform (clears self) = clear true true self >>= λ _. pure tt
  perform (tracks wrapper self klass callback) = track wrapper self klass callback >>= λ _. pure tt
  perform (untracks self klass) = untrack self klass >>= λ _. pure tt

  module _ (n : ℕ) where
    alloc-Ready :
        (self : Value) (w : World) → Ready n w → Ensures (Ready n) (alloc true true self w)
    unfolding alloc
    alloc-Ready self w r =
        let (t, made, v, size, count, _) = new-IsValid 1024 (inr (omega arith, from_1024)) in
        let c : Capture = record {
          running = 0;
          paused = 0;
          tracked = [];
          states = some t;
          new_count = 0;
          free_count = 0;
        } in
        let a =
          fresh-Account c t v (ground (arith, size)) (omega (arith, count))
            (omega (arith, count)) in
        rw (made, alloc) (Ready-fresh n self c w a r)

    start-Ready :
        (self : Value) (w : World) (o : Option Capture)
        → lookup self w.captures ≡ o
        → Ready n w
        → Ensures (Ready n) (start true self w)
    unfolding start add_hook
    start-Ready self w none e r = rw e r
    start-Ready self w (some c) e r = elim (Bool-cases (c.running == 0)) [
      | inr m ↦ rw e (rw m r)
      | inl y ↦ rw e (
          rw y (
            Ready-same n self c (record c { running = 1; paused = 0 }) _ e refl refl refl
              (Ready-others n w w.records _ r)))
    ]

    counters-Ready :
        (a : Value) (f : Allocations → Allocations) (w : World) (o : Option Allocations)
        → lookup a w.records ≡ o
        → Ready n w
        → Ensures (Ready n) ((get_record a >>= λ r. (put_record a (f r) >> pure a)) w)
    counters-Ready a f w none e r = rw e r
    counters-Ready a f w (some x) e r = rw e (Ready-others n w _ w.hooks r)

    track_known-Ready :
        (wrapper self klass callback : Value) (c : Capture) (w : World) (known : Option Value)
        → lookup self w.captures ≡ some c
        → Ready n w
        → Ensures (Ready n) (track_known wrapper self klass callback c known w)
    unfolding track_known
    track_known-Ready wrapper self klass callback c w none e r =
        Ready-same n self c (record c { tracked = insert klass wrapper c.tracked }) _ e refl refl
          refl (Ready-others n w _ w.hooks r)
    track_known-Ready wrapper self klass callback c w (some a) e r =
        counters-Ready a (λ r. record r { callback = callback }) w (lookup a w.records) refl r

    track-Ready :
        (wrapper self klass callback : Value) (w : World)
        → Ready n w
        → Ensures (Ready n) (track wrapper self klass callback w)
    unfolding track
    track-Ready wrapper self klass callback w r =
        Ensures-found_bind (Ready n) (lookup self w.captures) _ w r
          (λ c e. track_known-Ready wrapper self klass callback c w (lookup klass c.tracked) e r)

    untrack-Ready :
        (self klass : Value) (w : World) → Ready n w → Ensures (Ready n) (untrack self klass w)
    unfolding untrack
    untrack-Ready self klass w r =
        Ensures-found_bind (Ready n) (lookup self w.captures) _ w r (λ c e.
          Ready-same n self c (record c { tracked = delete klass c.tracked }) w e refl refl refl r)

    clear_records-Ready :
        (m : Assoc Value) (w : World) → Ready n w → Ensures (Ready n) (clear_records m w)
    unfolding clear_records
    clear_records-Ready [] w r = r
    clear_records-Ready ((k, a) ∷ m) w r =
        Ensures-bind (found (lookup a w.records) w) _
          (Ensures-found (Ready n) (lookup a w.records) w r)
          (λ x v s. clear_records-Ready m _ (Ready-others n v _ v.hooks s))

    clear-Ready :
        (self : Value) (w : World) → Ready n w → Ensures (Ready n) (clear true true self w)
    unfolding clear fresh_states
    clear-Ready self w r = Ensures-found_bind (Ready n) (lookup self w.captures) _ w r (λ c e.
        elim (Bool-cases (c.running == 0)) [
          | inr m ↦ rw m r
          | inl y ↦
              let (t, made, v, size, count, _) = new-IsValid 1024 (inr (omega arith, from_1024)) in
              let a =
                fresh-Account c t v (ground (arith, size)) (omega (arith, count))
                  (omega (arith, count)) in
              rw y (
                rw ((r.balanced self c e).holds, made)
                  (Ensures-bind (clear_records c.tracked w) _ (clear_records-Ready c.tracked w r)
                    (λ _ v s. Ready-fresh n self _ v a s)))
        ])

    pub perform-Ready : (m : Method) (w : World) → Ready n w → Ensures (Ready n) (perform m w)
    unfolding perform
    perform-Ready (allocates self) w r = alloc-Ready self w r
    perform-Ready (starts self) w r =
        Ensures-bind (start true self w) _ (start-Ready self w (lookup self w.captures) refl r)
          (λ _ v s. s)
    perform-Ready (clears self) w r =
        Ensures-bind (clear true true self w) _ (clear-Ready self w r) (λ _ v s. s)
    perform-Ready (tracks wrapper self klass callback) w r =
        Ensures-bind (track wrapper self klass callback w) _
          (track-Ready wrapper self klass callback w r) (λ _ v s. s)
    perform-Ready (untracks self klass) w r =
        Ensures-bind (untrack self klass w) _ (untrack-Ready self klass w r) (λ _ v s. s)

    pub stop-Ready :
        (call : Value → Value → EventType → Value → M Value) (wrappers : ℕ → Value) (fuel : ℕ)
        (self : Value) (w : World)
        → IsHarmless call
        → (queue_of w.events.available w.events).count < fuel
        → Ready n w
        → Ensures (Ready n) (stop call (granted wrappers) true fuel self w)
    unfolding stop remove_hook
    stop-Ready call wrappers fuel self w harmless enough r =
        Ensures-found_bind (Ready n) (lookup self w.captures) _ w r (λ c e.
          elim (Bool-cases (c.running == 0)) [
            | inl y ↦ rw y r
            | inr m ↦
                let (w₂, run, s) =
                  Ready-process_queue call harmless wrappers n fuel (unhooked self w)
                    (Ready-others n w w.records _ r) enough in
                rw m (
                  rw run (
                    Ensures-found_bind (Ready n) (lookup self w₂.captures) _ w₂ s
                      (λ d e. Ready-same n self d (halted d) w₂ e refl refl refl s)))
          ])
