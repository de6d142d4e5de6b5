-- ===== src/Capture/Frame/Events.antt =====
-- The processing of one event, step by step, for any such property.
use memory_tracker.Base.{ℕ, ◌≡◌, refl, Bool, Option, none, some, if◌then◌else◌, ◌==◌, ◌||◌}
use memory_tracker.Value.{Value, Ruby}
use memory_tracker.Assoc.{lookup}
use memory_tracker.Allocations.{Allocations}
use memory_tracker.Table
use memory_tracker.Table.{Table, at, delete_entry}
use memory_tracker.Events.{Event, EventType, no_event, newobj, freeobj}
use memory_tracker.World.{
  Capture, World, M, ◌>>=◌, pure, get_capture, get_record, put_capture, put_record,
}
use memory_tracker.Capture.Process.{
  Chance, pause, resume, count_new, count_known, count_class, store_states, store_object,
  free_entry, free_states, count_freed, free_object, process_newobj, process_freeobj, process_event,
}
use memory_tracker.Capture.Frame.{
  Ensures, Keeps, Frame, Keeps-bind, Keeps-pure, Keeps-if, Keeps-get_record, Keeps-got,
}

module _ {P : World → Type 0} (frame : Frame P) where
  Keeps-put_record : (a : Value) (r : Allocations) → Keeps P (put_record a r)
  Keeps-put_record a r = record { at = λ w p. frame.counters w a r p }

  -- `c ← get_capture self` with a change of `c` that leaves `running`.
  Keeps-update :
      (self : Value) (f : Capture → Capture)
      → ((c : Capture) → (f c).running ≡ c.running)
      → Keeps P (get_capture self >>= λ c. put_capture self (f c))
  Keeps-update self f same =
      Keeps-got self (λ c. put_capture self (f c))
        (λ c w e p. frame.capture w self c (f c) e (same c) p)

  Keeps-pause : (self : Value) → Keeps P (pause self)
  unfolding pause
  Keeps-pause self = Keeps-update self _ (λ c. refl)

  Keeps-resume : (self : Value) → Keeps P (resume self)
  unfolding resume
  Keeps-resume self = Keeps-update self _ (λ c. refl)

  Keeps-count_new : (self : Value) → Keeps P (count_new self)
  unfolding count_new
  Keeps-count_new self = Keeps-update self _ (λ c. refl)

  module _ ⦃ruby : Ruby⦄ where
    Ensures-count_known :
        (wrapper self klass : Value) (c : Capture) (tracked : Option Value) (w : World)
        → lookup self w.captures ≡ some c
        → P w
        → Ensures P (count_known wrapper self klass c tracked w)
    unfolding count_known
    Ensures-count_known wrapper self klass c none w e p =
        frame.capture _ self c _ e refl (frame.counters w wrapper _ p)
    Ensures-count_known wrapper self klass c (some a) w e p =
        (Keeps-bind (get_record a) _ (Keeps-get_record a)
            (λ r. Keeps-bind (put_record a _) _ (Keeps-put_record a _) (λ _. Keeps-pure a))).at
          w p

    Keeps-count_class : (wrapper self klass : Value) → Keeps P (count_class wrapper self klass)
    unfolding count_class
    Keeps-count_class wrapper self klass =
        Keeps-got self _
          (λ c w e p. Ensures-count_known wrapper self klass c (lookup klass c.tracked) w e p)

    Ensures-store_states :
        (fits : Bool) (self klass object datum : Value) (c : Capture) (states : Option Table)
        (w : World)
        → lookup self w.captures ≡ some c
        → P w
        → Ensures P (store_states fits self klass object datum c states w)
    unfolding store_states
    Ensures-store_states fits self klass object datum c none w e p = tt
    Ensures-store_states fits self klass object datum c (some t) w e p =
        frame.capture w self c _ e refl p

    Keeps-store_object :
        (fits : Bool) (self klass object datum : Value)
        → Keeps P (store_object fits self klass object datum)
    unfolding store_object
    Keeps-store_object fits self klass object datum =
        Keeps-got self _
          (λ c w e p. Ensures-store_states fits self klass object datum c c.states w e p)

    module _ (call : Value → Value → EventType → Value → M Value)
        (keeps : (callback klass : Value) (type : EventType) (datum : Value)
          → Keeps P (call callback klass type datum)) where
      Keeps-process_newobj :
          (chance : Chance) (self klass object : Value)
          → Keeps P (process_newobj call chance self klass object)
      unfolding process_newobj
      Keeps-process_newobj chance self klass object =
          Keeps-bind (pause self) _ (Keeps-pause self) (λ _.
            Keeps-bind (count_new self) _ (Keeps-count_new self) (λ _.
              Keeps-bind (count_class chance.wrapper self klass) _
                (Keeps-count_class chance.wrapper self klass)
                (λ a. Keeps-bind (get_record a) _ (Keeps-get_record a) (λ r.
                  Keeps-bind _ _
                    (Keeps-if (r.callback == ruby.nil) _ _ (Keeps-pure ruby.nil)
                      (keeps r.callback klass newobj ruby.nil))
                    (λ datum.
                      Keeps-bind (store_object chance.fits self klass object datum) _
                        (Keeps-store_object chance.fits self klass object datum)
                        (λ _. Keeps-resume self))))))

      -- The part of process_freeobj after the counters.
      Keeps-tell :
          (r : Allocations) (klass datum : Value)
          → Keeps {0} {A = Unit {0}} P (
              if (r.callback == ruby.nil) || (datum == ruby.nil)
              then pure tt
              else (call r.callback klass freeobj datum >>= λ _. pure tt))
      Keeps-tell r klass datum =
          Keeps-if ((r.callback == ruby.nil) || (datum == ruby.nil)) _ _ (Keeps-pure tt) (
            Keeps-bind (call r.callback klass freeobj datum) _
              (keeps r.callback klass freeobj datum) (λ _. Keeps-pure tt))

      Keeps-count_freed :
          (self : Value) (t : Table) (index : ℕ) (tracked : Option Value)
          → Keeps P (count_freed call self t index tracked)
      unfolding count_freed
      Keeps-count_freed self t index none = Keeps-pure tt
      Keeps-count_freed self t index (some a) =
          let e = at t.entries index in
          Keeps-got self _ (λ c w h p.
            (Keeps-bind (get_record a) _ (Keeps-get_record a) (λ r. Keeps-got self _ (λ c w h p.
                (Keeps-tell r e.klass e.datum).at _
                  (frame.counters _ a _ (frame.capture w self c _ h refl p))))).at
              _ (frame.capture w self c _ h refl p))

      Keeps-free_entry :
          (self : Value) (c : Capture) (t : Table) (index : Option ℕ)
          → Keeps P (free_entry call self c t index)
      unfolding free_entry
      Keeps-free_entry self c t none = Keeps-pure tt
      Keeps-free_entry self c t (some i) =
          Keeps-count_freed self t i (lookup (at t.entries i).klass c.tracked)

      Keeps-free_states :
          (self object : Value) (c : Capture) (states : Option Table)
          → Keeps P (free_states call self object c states)
      unfolding free_states
      Keeps-free_states self object c none = record { at = λ w p. tt }
      Keeps-free_states self object c (some t) = Keeps-free_entry self c t (Table.lookup t object)

      Keeps-free_object : (self object : Value) → Keeps P (free_object call self object)
      unfolding free_object
      Keeps-free_object self object =
          Keeps-got self _ (λ c w h p. (Keeps-free_states self object c c.states).at w p)

      -- Processing an event keeps what the frame and the callbacks keep.
      pub Keeps-process_event :
          (chance : Chance) (type : EventType) (e : Event)
          → Keeps P (process_event call chance type e)
      unfolding process_event process_freeobj
      Keeps-process_event chance no_event e = Keeps-pure tt
      Keeps-process_event chance newobj e = Keeps-process_newobj chance e.capture e.klass e.object
      Keeps-process_event chance freeobj e =
          Keeps-bind (pause e.capture) _ (Keeps-pause e.capture) (λ _.
            Keeps-bind (free_object call e.capture e.object) _
              (Keeps-free_object e.capture e.object) (λ _. Keeps-resume e.capture))
