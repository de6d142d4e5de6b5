-- ===== src/Capture/Finishes.antt =====
-- Steps that raise no exception, as those under rb_protect.
use memory_tracker.Base.{◌≡◌, refl, ◌⊎◌, inl, inr}
use memory_tracker.World.{World, Step, ok, raised, crashed, out_of_fuel, M, bind}
use memory_tracker.Capture.Dispatch.{suppressed}
use memory_tracker.Capture.Frame.{Ensures}

-- The step returns where `P` holds, or crashes; it neither raises nor runs out of fuel.
abbrev pub Finishes : (World → Type 0) → Step (Unit {0}) → Type 0
Finishes P (ok a w) = P w
Finishes P (raised w) = ⊥
Finishes P crashed = Unit {0}
Finishes P out_of_fuel = ⊥

module _ (P : World → Type 0) where
  pub suppressed-Finishes : (s : Step (Unit {0})) → Ensures P s → Finishes P (suppressed s)
  suppressed-Finishes (ok a w) h = h
  suppressed-Finishes (raised w) h = h
  suppressed-Finishes crashed h = tt
  suppressed-Finishes out_of_fuel h = h

  pub bind-Finishes :
      (Q : World → Type 0) (s : Step (Unit {0})) (f : Unit {0} → M (Unit {0}))
      → Finishes P s
      → ((w : World) → P w → Finishes Q (f tt w))
      → Finishes Q (bind s f)
  bind-Finishes Q (ok tt w) f h k = k w h
  bind-Finishes Q (raised w) f h k = elim h [ ]
  bind-Finishes Q crashed f h k = tt
  bind-Finishes Q out_of_fuel f h k = elim h [ ]

  -- Two continuations that agree where the step ends.
  pub bind-agree :
      (s : Step (Unit {0})) (f g : M (Unit {0}))
      → Finishes P s
      → ((w : World) → P w → f w ≡ g w)
      → bind s (λ _. f) ≡ bind s (λ _. g)
  bind-agree (ok tt w) f g h k = k w h
  bind-agree (raised w) f g h k = refl
  bind-agree crashed f g h k = refl
  bind-agree out_of_fuel f g h k = refl

  pub Finishes-cases :
      (s : Step (Unit {0})) → Finishes P s → (s ≡ crashed) ⊎ ((w : World) × (s ≡ ok tt w) × P w)
  Finishes-cases (ok tt w) h = inr (w, refl, h)
  Finishes-cases (raised w) h = elim h [ ]
  Finishes-cases crashed h = inl refl
  Finishes-cases out_of_fuel h = elim h [ ]
