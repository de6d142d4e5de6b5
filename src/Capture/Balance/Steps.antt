-- ===== src/Capture/Balance/Steps.antt =====
-- How a change of one capture changes the accounts.
use memory_tracker.Base.{
  ℕ, ◌≤◌, ◌≡◌, refl, subst, inl, inr, arith, Option, none, some, ◌==◌, Bool-cases,
}
use memory_tracker.Value.{Value, Ruby}
use memory_tracker.Assoc.{Assoc, lookup, insert, after_insert}
use memory_tracker.World.{
  Capture, World, Step, ok, raised, crashed, out_of_fuel, M, bind, found, ◌>>=◌, get_capture,
  put_capture,
}
use memory_tracker.Capture.Balance.{Account, Accounts}

-- A step returns where `Q` holds or raises where `R` holds, and does neither crash nor run out of
-- fuel.
abbrev pub Yields {ℓ} : {A : Type ℓ} → (Q R : Assoc Capture → Type 0) → Step A → Type 0
Yields Q R (ok a w) = Q w.captures
Yields Q R (raised w) = R w.captures
Yields Q R crashed = ⊥
Yields Q R out_of_fuel = ⊥

pub bind-Yields {ℓ κ} :
    {A : Type ℓ} {B : Type κ} (Q Q' R : Assoc Capture → Type 0) (s : Step A) (f : A → M B)
    → Yields Q R s
    → ((a : A) (w : World) → Q w.captures → Yields Q' R (f a w))
    → Yields Q' R (bind s f)
bind-Yields Q Q' R (ok a w) f h k = k a w h
bind-Yields Q Q' R (raised w) f h k = h
bind-Yields Q Q' R crashed f h k = elim h [ ]
bind-Yields Q Q' R out_of_fuel f h k = elim h [ ]

pub found-Yields {ℓ} :
    {B : Type ℓ} {A : Type 0} (Q R : Assoc Capture → Type 0) (o : Option A) (f : A → M B)
    (w : World)
    → R w.captures
    → ((c : A) → o ≡ some c → Yields Q R (f c w))
    → Yields Q R (bind (found o w) f)
found-Yields Q R none f w r k = r
found-Yields Q R (some c) f w r k = k c refl

module _ ⦃ruby : Ruby⦄ where
  pub Account-weaken :
      {a b n : ℕ} {c : Capture} (a' b' n' : ℕ)
      → a' ≤ a
      → b' ≤ b
      → n' ≤ n
      → Account a b n c
      → Account a' b' n' c
  Account-weaken a' b' n' l m k h = record {
    table = h.table;
    holds = h.holds;
    valid = h.valid;
    sized = h.sized;
    balance = omega (arith, h.balance);
    used = omega (arith, h.used);
    budget = omega (arith, h.budget);
  }

  -- One capture given anew.
  pub Accounts-insert :
      (a b n a' b' n' : ℕ) (self : Value) (captures : Assoc Capture) (c' : Capture)
      → Accounts self a b n captures
      → n' ≤ n
      → Account a' b' n' c'
      → Accounts self a' b' n' (insert self c' captures)
  Accounts-insert a b n a' b' n' self captures c' all l new x c e = elim (Bool-cases (self == x)) [
    | inl here ↦
        let same : some c' ≡ some c = ground (arith, e, here, after_insert self x c' captures) in
        rw here (subst (Account a' b' n') (cc) new)
    | inr there ↦
        let old : lookup x captures ≡ some c =
          ground (arith, e, there, after_insert self x c' captures) in
        let h : Account 0 0 n c =
          Account-weaken 0 0 n (omega arith) (omega arith) (omega arith) (all x c old) in
        rw there (Account-weaken 0 0 n' (omega arith) (omega arith) l h)
  ]

  -- What is set aside may be given up.
  pub Accounts-weaken :
      (a b n : ℕ) (self : Value) (captures : Assoc Capture) (self' : Value) (n' : ℕ)
      → n' ≤ n
      → Accounts self a b n captures
      → Accounts self' 0 0 n' captures
  Accounts-weaken a b n self captures self' n' l all x c e =
      Account-weaken _ _ n' (ground arith) (ground arith) l (all x c e)

  -- The capture at hand has what is set aside for it.
  pub Accounts-self :
      (a b n : ℕ) (self : Value) (captures : Assoc Capture) (c : Capture)
      → Accounts self a b n captures
      → lookup self captures ≡ some c
      → Account a b n c
  Accounts-self a b n self captures c all e =
      Account-weaken a b n (ground arith) (ground arith) (omega arith) (all self c e)

  -- A step that reads the capture `self` and writes it again.
  pub update-Yields :
      (a b n a' b' n' : ℕ) (R : Assoc Capture → Type 0) (self : Value) (f : Capture → Capture)
      (w : World)
      → n' ≤ n
      → ((c : Capture) → Account a b n c → Account a' b' n' (f c))
      → R w.captures
      → Accounts self a b n w.captures
      → Yields (Accounts self a' b' n') R ((get_capture self >>= λ c. put_capture self (f c)) w)
  update-Yields a b n a' b' n' R self f w l k r all =
      found-Yields (Accounts self a' b' n') R (lookup self w.captures) (λ c. put_capture self (f c))
        w r
        (λ c e.
          Accounts-insert a b n a' b' n' self w.captures (f c) all l
            (k c (Accounts-self a b n self w.captures c all e)))
