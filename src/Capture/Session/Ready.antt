-- ===== src/Capture/Session/Ready.antt =====
-- What holds between the steps of a session: the queues are tidy, and every capture is in balance
-- with the events that wait and `n` more to come.
use memory_tracker.Base.{
  ℕ, suc, ◌+◌, ◌≤◌, ◌≡◌, subst, inl, inr, arith, some, List, [], ◌∷◌, ◌++◌, length, Bool-cases,
  ◌==◌,
}
use memory_tracker.Value.{Value, Ruby}
use memory_tracker.Assoc.{Assoc, lookup, after_insert}
use memory_tracker.Allocations.{Allocations}
use memory_tracker.Queue.Pending.{contents-Pending}
use memory_tracker.Events.{Event, Events, queue_of}
use memory_tracker.Table.Invariant.{IsKey}
use memory_tracker.World.{Capture, World}
use memory_tracker.Capture.Steps.{with_capture}
use memory_tracker.Capture.Balance.{Account}
use memory_tracker.Capture.Balance.Steps.{Account-weaken}
use memory_tracker.Capture.Balance.Parts.{Account-same}
use memory_tracker.Capture.Balance.Runs.{Balanced, AboutObjects}
use memory_tracker.Capture.Shutdown.{Pending-count}
use memory_tracker.Capture.Session.Tidy.{Tidy}

module _ ⦃ruby : Ruby⦄ where
  pub record Ready (n : ℕ) (w : World) : Type 0 where
    pub es : List Event
    pub about : AboutObjects es
    pub tidy : Tidy es w.events
    pub small : length es + n ≤ 4096
    pub balanced : Balanced (length es + n) w

  pub AboutObjects-append :
      (es : List Event) (e : Event) → AboutObjects es → IsKey e.object → AboutObjects (es ++ e ∷ [])
  AboutObjects-append [] e h k = (k, tt)
  AboutObjects-append (x ∷ es) e (h, hs) k = (h, AboutObjects-append es e hs k)

  pub Balanced-weaken : (n k : ℕ) (w : World) → n ≤ k → Balanced k w → Balanced n w
  Balanced-weaken n k w l b x c e = Account-weaken 0 0 n (omega arith) (omega arith) l (b x c e)

  pub Ready-weaken : (n : ℕ) (w : World) → Ready (suc n) w → Ready n w
  Ready-weaken n w r = record {
    es = r.es;
    about = r.about;
    tidy = r.tidy;
    small = omega (arith, r.small);
    balanced = Balanced-weaken (length r.es + n) (length r.es + suc n) w (omega arith) r.balanced;
  }

  -- Counters and hooks do not matter.
  pub Ready-others :
      (n : ℕ) (w : World) (records : Assoc Allocations) (hooks : List Value)
      → Ready n w
      → Ready n (record w { records = records; hooks = hooks })
  Ready-others n w records hooks r = record {
    es = r.es;
    about = r.about;
    tidy = r.tidy;
    small = r.small;
    balanced = r.balanced;
  }

  Balanced-insert :
      (n : ℕ) (self : Value) (c : Capture) (w : World)
      → Account 0 0 n c
      → Balanced n w
      → Balanced n (with_capture self c w)
  Balanced-insert n self c w a b x d e = elim (Bool-cases (self == x)) [
    | inl y ↦
        let same : c ≡ d = ground (arith, y, e, after_insert self x c w.captures) in
        subst (Account 0 0 n) same a
    | inr m ↦ b x d (ground (arith, m, e, after_insert self x c w.captures))
  ]

  pub Ready-fresh :
      (n : ℕ) (self : Value) (c : Capture) (w : World)
      → Account 0 0 4096 c
      → Ready n w
      → Ready n (with_capture self c w)
  Ready-fresh n self c w a r = record {
    es = r.es;
    about = r.about;
    tidy = r.tidy;
    small = r.small;
    balanced =
        Balanced-insert (length r.es + n) self c w
          (Account-weaken 0 0 (length r.es + n) (omega arith) (omega arith) r.small a) r.balanced;
  }

  pub Ready-same :
      (n : ℕ) (self : Value) (c c' : Capture) (w : World)
      → lookup self w.captures ≡ some c
      → c'.states ≡ c.states
      → c'.new_count ≡ c.new_count
      → c'.free_count ≡ c.free_count
      → Ready n w
      → Ready n (with_capture self c' w)
  Ready-same n self c c' w here s p q r = record {
    es = r.es;
    about = r.about;
    tidy = r.tidy;
    small = r.small;
    balanced =
        Balanced-insert (length r.es + n) self c' w
          (Account-same c c' s p q (r.balanced self c here)) r.balanced;
  }

  pub waiting_count :
      (es : List Event) (e : Events) → Tidy es e → (queue_of e.available e).count ≡ length es
  waiting_count es e (_, (v, _), waiting, _, _) =
      omega (arith, Pending-count (queue_of e.available e) 0 es (contents-Pending v es waiting))
