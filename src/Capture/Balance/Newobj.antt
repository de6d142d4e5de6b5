-- ===== src/Capture/Balance/Newobj.antt =====
-- process_newobj keeps the accounts, whether its callback returns or raises.
use memory_tracker.Base.{
  ℕ, suc, ◌≤◌, ◌≡◌, refl, arith, Bool, true, false, Option, none, some, if◌then◌else◌, ◌==◌, inc,
  inc32, dec32,
}
use memory_tracker.Value.{Value, Ruby}
use memory_tracker.Assoc.{Assoc, lookup, insert}
use memory_tracker.Events.{EventType, newobj}
use memory_tracker.Table.{Table}
use memory_tracker.Table.Invariant.{IsKey}
use memory_tracker.World.{
  Capture, World, Step, ok, raised, crashed, out_of_fuel, M, ◌>>=◌, pure, get_capture, put_capture,
}
use memory_tracker.Capture.Process.{
  pause, resume, count_new, count_known, count_class, store_states, store_object, process_newobj,
}
use memory_tracker.Capture.Balance.{Accounts}
use memory_tracker.Capture.Balance.Parts.{Account-same, Account-counted, Account-stored}
use memory_tracker.Capture.Balance.Steps.{
  Yields, bind-Yields, found-Yields, Accounts-insert, Accounts-weaken, Accounts-self, update-Yields,
}

-- Ruby code that leaves the captures alone, whether it returns or raises.
abbrev pub IsCalm : (Value → Value → EventType → Value → M Value) → Type 0
IsCalm call =
    (callback klass : Value) (type : EventType) (datum : Value) (w : World)
    → Yields (λ m. m ≡ w.captures) (λ m. m ≡ w.captures) (call callback klass type datum w)

module _ ⦃ruby : Ruby⦄ where
  module _ (n : ℕ) (self : Value) where
    -- Where an exception leaves the captures.
    abbrev pub R : Assoc Capture → Type 0
    R = Accounts self 0 0 n

    flags-Yields :
        (a b k : ℕ) (f : Capture → Capture) (w : World)
        → n ≤ k
        → ((c : Capture)
            → ((f c).states ≡ c.states)
              × ((f c).new_count ≡ c.new_count)
              × ((f c).free_count ≡ c.free_count))
        → Accounts self a b k w.captures
        → Yields (Accounts self a b k) R ((get_capture self >>= λ c. put_capture self (f c)) w)
    flags-Yields a b k f w l same all =
        update-Yields a b k a b k R self f w (omega arith)
          (λ c h. let (s, p, q) = same c in Account-same c (f c) s p q h)
          (Accounts-weaken a b k self w.captures self n l all) all

    pub pause-Yields :
        (a b k : ℕ) (w : World)
        → n ≤ k
        → Accounts self a b k w.captures
        → Yields (Accounts self a b k) R (pause self w)
    unfolding pause
    pause-Yields a b k w l all =
        flags-Yields a b k (λ c. record c { paused = inc32 c.paused }) w l (λ c. (refl, refl, refl))
          all

    pub resume-Yields :
        (a b k : ℕ) (w : World)
        → n ≤ k
        → Accounts self a b k w.captures
        → Yields (Accounts self a b k) R (resume self w)
    unfolding resume
    resume-Yields a b k w l all =
        flags-Yields a b k (λ c. record c { paused = dec32 c.paused }) w l (λ c. (refl, refl, refl))
          all

    count_new-Yields :
        (w : World)
        → Accounts self 0 0 (suc n) w.captures
        → Yields (Accounts self 1 1 n) R (count_new self w)
    unfolding count_new
    count_new-Yields w all =
        update-Yields 0 0 (suc n) 1 1 n R self (λ c. record c { new_count = inc c.new_count }) w
          (omega arith) (λ c h. Account-counted n c h)
          (Accounts-weaken 0 0 (suc n) self w.captures self n (omega arith) all) all

    count_known-Yields :
        (wrapper klass : Value) (c : Capture) (tracked : Option Value) (w : World)
        → lookup self w.captures ≡ some c
        → Accounts self 1 1 n w.captures
        → Yields (Accounts self 1 1 n) R (count_known wrapper self klass c tracked w)
    unfolding count_known
    count_known-Yields wrapper klass c none w e all =
        Accounts-insert 1 1 n 1 1 n self w.captures
          (record c { tracked = insert klass wrapper c.tracked }) all (omega arith)
          (Account-same c _ refl refl refl (Accounts-self 1 1 n self w.captures c all e))
    count_known-Yields wrapper klass c (some a) w e all =
        found-Yields (Accounts self 1 1 n) R (lookup a w.records) _ w
          (Accounts-weaken 1 1 n self w.captures self n (omega arith) all) (λ r _. all)

    count_class-Yields :
        (wrapper klass : Value) (w : World)
        → Accounts self 1 1 n w.captures
        → Yields (Accounts self 1 1 n) R (count_class wrapper self klass w)
    unfolding count_class
    count_class-Yields wrapper klass w all =
        found-Yields (Accounts self 1 1 n) R (lookup self w.captures) _ w
          (Accounts-weaken 1 1 n self w.captures self n (omega arith) all)
          (λ c e. count_known-Yields wrapper klass c (lookup klass c.tracked) w e all)

    store_states-Yields :
        (klass object datum : Value) (c : Capture) (states : Option Table) (w : World)
        → IsKey object
        → c.states ≡ states
        → lookup self w.captures ≡ some c
        → Accounts self 1 1 n w.captures
        → Yields (Accounts self 0 0 n) R (store_states true self klass object datum c states w)
    unfolding store_states
    store_states-Yields klass object datum c none w key s e all =
        absurd (cc (s, (Accounts-self 1 1 n self w.captures c all e).holds))
    store_states-Yields klass object datum c (some t) w key s e all =
        Accounts-insert 1 1 n 0 0 n self w.captures _ all (omega arith) (
          Account-stored n c object klass datum t key s
            (Accounts-self 1 1 n self w.captures c all e))

    store_object-Yields :
        (klass object datum : Value) (w : World)
        → IsKey object
        → Accounts self 1 1 n w.captures
        → Yields (Accounts self 0 0 n) R (store_object true self klass object datum w)
    unfolding store_object
    store_object-Yields klass object datum w key all =
        found-Yields (Accounts self 0 0 n) R (lookup self w.captures) _ w
          (Accounts-weaken 1 1 n self w.captures self n (omega arith) all)
          (λ c e. store_states-Yields klass object datum c c.states w key refl e all)

  module _ (call : Value → Value → EventType → Value → M Value) (calm : IsCalm call) (n : ℕ)
      (self : Value) where
    same-Yields :
        (a k : ℕ) (w : World) (s : Step Value)
        → Yields (λ x. x ≡ w.captures) (λ x. x ≡ w.captures) s
        → Accounts self a k n w.captures
        → Yields (Accounts self a k n) (R n self) s
    same-Yields a k w (ok v w') e all = rw e all
    same-Yields a k w (raised w') e all =
        rw e (Accounts-weaken a k n self w.captures self n (omega arith) all)
    same-Yields a k w crashed h all = elim h [ ]
    same-Yields a k w out_of_fuel h all = elim h [ ]

    -- A callback keeps the accounts, as does the lack of one.
    pub call-Yields :
        (b : Bool) (m : M Value) (a k : ℕ) (callback klass : Value) (type : EventType)
        (datum : Value) (w : World)
        → ((v : World) → Yields (λ x. x ≡ v.captures) (λ x. x ≡ v.captures) (m v))
        → Accounts self a k n w.captures
        → Yields
            (Accounts self a k n)
            (R n self)
            ((if b then m else call callback klass type datum) w)
    call-Yields true m a k callback klass type datum w quiet all =
        same-Yields a k w (m w) (quiet w) all
    call-Yields false m a k callback klass type datum w quiet all =
        same-Yields a k w (call callback klass type datum w) (calm callback klass type datum w) all

    -- An allocation counted and stored, or an exception in between.
    pub process_newobj-Yields :
        (wrapper klass object : Value) (w : World)
        → IsKey object
        → Accounts self 0 0 (suc n) w.captures
        → Yields
            (Accounts self 0 0 n)
            (R n self)
            (process_newobj call (record { fits = true; wrapper = wrapper }) self klass object w)
    unfolding process_newobj
    process_newobj-Yields wrapper klass object w key all =
        bind-Yields (Accounts self 0 0 (suc n)) (Accounts self 0 0 n) (R n self) (pause self w) _
          (pause-Yields n self 0 0 (suc n) w (omega arith) all)
          (λ _ w all.
            bind-Yields (Accounts self 1 1 n) (Accounts self 0 0 n) (R n self) (count_new self w) _
              (count_new-Yields n self w all)
              (λ _ w all.
                bind-Yields (Accounts self 1 1 n) (Accounts self 0 0 n) (R n self)
                  (count_class wrapper self klass w) _
                  (count_class-Yields n self wrapper klass w all)
                  (λ a w all.
                    found-Yields (Accounts self 0 0 n) (R n self) (lookup a w.records) _ w
                      (Accounts-weaken 1 1 n self w.captures self n (omega arith) all)
                      (λ r _.
                        bind-Yields (Accounts self 1 1 n) (Accounts self 0 0 n) (R n self) _ _
                          (call-Yields (r.callback == ruby.nil) (pure ruby.nil) 1 1 r.callback klass
                            newobj ruby.nil w (λ v. refl) all)
                          (λ datum w all.
                            bind-Yields (Accounts self 0 0 n) (Accounts self 0 0 n) (R n self)
                              (store_object true self klass object datum w) _
                              (store_object-Yields n self klass object datum w key all)
                              (λ _ w all. resume-Yields n self 0 0 n w (omega arith) all))))))
