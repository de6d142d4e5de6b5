-- ===== src/Capture/Balance/Freeobj.antt =====
-- process_freeobj keeps the accounts, whether its callback returns or raises.
use memory_tracker.Base.{
  ℕ, ◌≡◌, refl, arith, Option, none, some, if◌then◌else◌, ◌==◌, ◌||◌, inc, Bool, true, false,
}
use memory_tracker.Value.{Value, Ruby}
use memory_tracker.Assoc.{lookup, insert}
use memory_tracker.Events.{EventType, freeobj}
use memory_tracker.Table
use memory_tracker.Table.{Table, at, delete_entry}
use memory_tracker.Table.Invariant.{IsKey}
use memory_tracker.World.{Capture, World, M, ◌>>=◌, found, pure}
use memory_tracker.Capture.Process.{
  pause, count_freed, free_entry, free_states, free_object, process_freeobj,
}
use memory_tracker.Capture.Balance.{Accounts}
use memory_tracker.Capture.Balance.Parts.{Account-deleted, Account-freed}
use memory_tracker.Capture.Balance.Steps.{
  Yields, bind-Yields, found-Yields, Accounts-insert, Accounts-weaken, Accounts-self,
}
use memory_tracker.Capture.Balance.Newobj.{IsCalm, R, pause-Yields, resume-Yields, call-Yields}

module _ ⦃ruby : Ruby⦄ (call : Value → Value → EventType → Value → M Value) (calm : IsCalm call)
    (n : ℕ) (self : Value) where
  tell-Yields :
      (b : Bool) (callback klass datum : Value) (w : World)
      → Accounts self 0 0 n w.captures
      → Yields {0} {A = Unit {0}}
          (Accounts self 0 0 n)
          (R n self)
          ((if b then pure tt else (call callback klass freeobj datum >>= λ _. pure tt)) w)
  tell-Yields true callback klass datum w all = all
  tell-Yields false callback klass datum w all =
      bind-Yields (Accounts self 0 0 n) (Accounts self 0 0 n) (R n self)
        (call callback klass freeobj datum w) _
        (call-Yields call calm n self false (pure datum) 0 0 callback klass freeobj datum w
          (λ v. refl) all)
        (λ _ w all. all)

  count_freed-Yields :
      (object : Value) (t : Table) (index : ℕ) (tracked : Option Value) (w : World)
      → IsKey object
      → ((c : Capture) → lookup self w.captures ≡ some c → c.states ≡ some t)
      → Table.lookup t object ≡ some index
      → Accounts self 0 0 n w.captures
      → Yields (Accounts self 0 0 n) (R n self) (count_freed call self t index tracked w)
  unfolding count_freed
  count_freed-Yields object t index none w key held found all = all
  count_freed-Yields object t index (some a) w key held found all =
      let e = at t.entries index in
      found-Yields (Accounts self 0 0 n) (R n self) (lookup self w.captures) _ w all (λ c here.
        let c₁ : Capture = record c { states = some (delete_entry t index) } in
        let w₁ : World = record w { captures = insert self c₁ w.captures } in
        let all₁ : Accounts self 1 0 n w₁.captures =
          Accounts-insert 0 0 n 1 0 n self w.captures c₁ all (omega arith) (
            Account-deleted n c object t index key (held c here) found
              (Accounts-self 0 0 n self w.captures c all here)) in
        let left = Accounts-weaken 1 0 n self w₁.captures self n (omega arith) all₁ in
        found-Yields (Accounts self 0 0 n) (R n self) (lookup a w₁.records) _ w₁ left (λ r _.
          found-Yields (Accounts self 0 0 n) (R n self) (lookup self w₁.captures) _ w₁ left
            (λ c₂ here₂.
              let c₃ : Capture = record c₂ { free_count = inc c₂.free_count } in
              tell-Yields ((r.callback == ruby.nil) || (e.datum == ruby.nil)) r.callback e.klass
                e.datum _
                (Accounts-insert 1 0 n 0 0 n self w₁.captures c₃ all₁ (omega arith)
                  (Account-freed n c₂ (Accounts-self 1 0 n self w₁.captures c₂ all₁ here₂))))))

  free_entry-Yields :
      (object : Value) (c : Capture) (t : Table) (index : Option ℕ) (w : World)
      → IsKey object
      → ((c : Capture) → lookup self w.captures ≡ some c → c.states ≡ some t)
      → Table.lookup t object ≡ index
      → Accounts self 0 0 n w.captures
      → Yields (Accounts self 0 0 n) (R n self) (free_entry call self c t index w)
  unfolding free_entry
  free_entry-Yields object c t none w key held found all = all
  free_entry-Yields object c t (some i) w key held found all =
      count_freed-Yields object t i (lookup (at t.entries i).klass c.tracked) w key held found all

  free_states-Yields :
      (object : Value) (c : Capture) (states : Option Table) (w : World)
      → IsKey object
      → lookup self w.captures ≡ some c
      → c.states ≡ states
      → Accounts self 0 0 n w.captures
      → Yields (Accounts self 0 0 n) (R n self) (free_states call self object c states w)
  unfolding free_states
  free_states-Yields object c none w key here s all =
      absurd (cc (s, (Accounts-self 0 0 n self w.captures c all here).holds))
  free_states-Yields object c (some t) w key here s all =
      free_entry-Yields object c t (Table.lookup t object) w key (λ d there. cc) refl all

  free_object-Yields :
      (object : Value) (w : World)
      → IsKey object
      → Accounts self 0 0 n w.captures
      → Yields (Accounts self 0 0 n) (R n self) (free_object call self object w)
  unfolding free_object
  free_object-Yields object w key all =
      found-Yields (Accounts self 0 0 n) (R n self) (lookup self w.captures) _ w all
        (λ c here. free_states-Yields object c c.states w key here refl all)

  -- A free counted and taken out of the table, or an exception in between.
  pub process_freeobj-Yields :
      (object : Value) (w : World)
      → IsKey object
      → Accounts self 0 0 n w.captures
      → Yields (Accounts self 0 0 n) (R n self) (process_freeobj call self object w)
  unfolding process_freeobj
  process_freeobj-Yields object w key all =
      bind-Yields (Accounts self 0 0 n) (Accounts self 0 0 n) (R n self) (pause self w) _
        (pause-Yields n self 0 0 n w (omega arith) all)
        (λ _ w all.
          bind-Yields (Accounts self 0 0 n) (Accounts self 0 0 n) (R n self)
            (free_object call self object w) _ (free_object-Yields object w key all)
            (λ _ w all. resume-Yields n self 0 0 n w (omega arith) all))
