-- ===== src/Capture/Keeping.antt =====
-- Steps that leave the queue being processed as it is, up to what its cells hold.
use memory_tracker.Base.{ℕ, ◌≡◌, ◌∙◌}
use memory_tracker.Value.{Value}
use memory_tracker.Events.{Events, EventType, queue_of}
use memory_tracker.World.{World, Step, ok, raised, crashed, out_of_fuel, M}
use memory_tracker.Capture.Frame.{Ensures, Frame}
use memory_tracker.Capture.Frame

abbrev pub in_process : Events → ℕ
in_process e = (queue_of e.processing e).count

abbrev pub Same : Events → Events → Type 0
Same e e' = (e'.processing ≡ e.processing) × (in_process e' ≡ in_process e)

abbrev pub Keeps {ℓ} : {A : Type ℓ} → Events → Step A → Type 0
Keeps e s = Ensures (λ w. Same e w.events) s

abbrev pub KeepsQueue {ℓ} : {A : Type ℓ} → M A → Type 0
KeepsQueue m = (w : World) → Keeps w.events (m w)

later-Keeps {ℓ} : {A : Type ℓ} (e e' : Events) (s : Step A) → Same e e' → Keeps e' s → Keeps e s
later-Keeps e e' (ok a v) (p, q) (r, t) = (r ∙ p, t ∙ q)
later-Keeps e e' (raised v) (p, q) (r, t) = (r ∙ p, t ∙ q)
later-Keeps e e' crashed h k = tt
later-Keeps e e' out_of_fuel h k = k

with_unit {ℓ} :
    {A : Type ℓ} (e : Events) (s : Step A) → Keeps e s → Ensures (λ w. Unit {0} × Same e w.events) s
with_unit e (ok a w) h = (tt, h)
with_unit e (raised w) h = (tt, h)
with_unit e crashed h = tt
with_unit e out_of_fuel h = h

-- Callbacks that keep the queue keep it together with nothing else.
pub KeepsQueue-Keeps :
    (call : Value → Value → EventType → Value → M Value)
    → ((callback klass : Value) (type : EventType) (datum : Value)
        → KeepsQueue (call callback klass type datum))
    → (e : Events) (callback klass : Value) (type : EventType) (datum : Value)
    → Frame.Keeps (λ w. Unit {0} × Same e w.events) (call callback klass type datum)
KeepsQueue-Keeps call keeps e callback klass type datum = record {
  at = λ v (_, p). with_unit e (call callback klass type datum v) (
      later-Keeps e v.events (call callback klass type datum v) p
        (keeps callback klass type datum v));
}
