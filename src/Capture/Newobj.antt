-- ===== src/Capture/Newobj.antt =====
-- process_newobj: what one allocation does, when its callback returns and when it raises.
use memory_tracker.Base.{
  ℕ, ◌<◌, ◌≡◌, refl, ap, ◌∙◌, ◌≢◌, ◌⊎◌, inl, inr, some, if◌then◌else◌, ◌==◌, inc, inc32, dec32,
  dec32-inc32, int_mod, ne→==, Bool-cases, ==→ne, ==→eq,
}
use memory_tracker.Value.{Value, Ruby}
use memory_tracker.Assoc.{Assoc, lookup, lookup-insert_self}
use memory_tracker.Allocations.{Allocations}
use memory_tracker.Events.{EventType, newobj}
use memory_tracker.Table.{Table}
use memory_tracker.Table.Store.{store}
use memory_tracker.World.{Capture, World, ok, raised, M, ◌>>=◌, ◌>>◌, pure}
use memory_tracker.Capture.Process.{Chance, pause, count_new, count_class, process_newobj}
use memory_tracker.Capture.Steps.{
  with_capture, pause_lem, resume_lem, count_new_lem, store_object_lem, Counters, count_class_lem,
}

-- Ruby code that returns, and leaves the captures and their counters alone. It may allocate and
-- free, which only queues events.
abbrev pub IsQuiet : (Value → Value → EventType → Value → M Value) → Type 0
IsQuiet call =
    (callback klass : Value) (type : EventType) (datum : Value) (w : World)
    → (v : Value) × (w' : World) × (call callback klass type datum w ≡ ok v w')
      × (w'.captures ≡ w.captures)
      × (w'.records ≡ w.records)

module _ ⦃ruby : Ruby⦄ (call : Value → Value → EventType → Value → M Value) where
  -- The state that a callback gives to a new object; Qnil without a callback.
  abbrev ask : Value → Value → M Value
  ask callback klass =
      if callback == ruby.nil then pure ruby.nil else call callback klass newobj ruby.nil

  ask-quiet :
      IsQuiet call
      → (callback klass : Value) (w : World)
      → (v : Value) × (w' : World) × (ask callback klass w ≡ ok v w')
        × (w'.captures ≡ w.captures)
        × (w'.records ≡ w.records)
        × (((callback ≡ ruby.nil) × (v ≡ ruby.nil))
            ⊎ ((callback ≢ ruby.nil) × (call callback klass newobj ruby.nil w ≡ ok v w')))
  ask-quiet quiet callback klass w = elim (Bool-cases (callback == ruby.nil)) [
    | inl y ↦ (ruby.nil, w, rw y, refl, refl, inl (==→eq _ _ y, refl))
    | inr n ↦
        let (v, w', e, p, q) = quiet callback klass newobj ruby.nil w in
        (v, w', rw n e, p, q, inr (==→ne _ _ n, e))
  ]

  module _ (chance : Chance) (self klass object a : Value) (c : Capture) (r : Allocations)
      (w : World) (here : lookup self w.captures ≡ some c)
      (counters : Counters self c w here chance.wrapper klass a r) where
    -- The world when the callback is called.
    pub counted :
        (w' : World) × (tracked : Assoc Value) × ((k : Value → M (Unit {0}))
          → (pause self >> (count_new self >> (count_class chance.wrapper self klass >>= k))) w
            ≡ k a w')
        × (lookup self w'.captures
            ≡ some (record c {
              paused = inc32 c.paused;
              new_count = inc c.new_count;
              tracked = tracked;
            }))
        × (lookup klass tracked ≡ some a)
        × (lookup a w'.records ≡ some (record r { new_count = inc r.new_count }))
    counted =
        let c₁ : Capture = record c { paused = inc32 c.paused } in
        let w₁ = with_capture self c₁ w in
        let h₁ : lookup self w₁.captures ≡ some c₁ = lookup-insert_self self c₁ w.captures in
        let c₂ : Capture = record c₁ { new_count = inc c.new_count } in
        let w₂ = with_capture self c₂ w₁ in
        let h₂ : lookup self w₂.captures ≡ some c₂ = lookup-insert_self self c₂ w₁.captures in
        let (w₃, e, s) = count_class_lem self c₂ w₂ h₂ chance.wrapper klass a r counters in
        (
          w₃,
          s.tracked,
          λ k. rw (pause_lem self c w here) (rw (count_new_lem self c₁ w₁ h₁) (rw e refl)),
          s.capture,
          s.class_tracked,
          s.counters,
        )

    -- An allocation, in a capture with a table and less than 2 ^ 32 pauses, whose class is new or
    -- has its counters, and whose callback, if any, returns and leaves the captures and counters
    -- alone: it succeeds, the total and the class's new count go up by one, the object is stored
    -- with its class and the callback's answer, or Qnil without a callback, and nothing else of the
    -- capture but its tracked classes changes, the pause included. The callback is asked, for the
    -- class and with Qnil, in a world where the counts have gone up and the pause lasts.
    pub process_newobj-ok :
        IsQuiet call
        → c.paused < int_mod
        → (t : Table) → c.states ≡ some t
        → (datum : Value) × (w' : World) × (tracked : Assoc Value) × (process_newobj call chance
              self klass object w
            ≡ ok tt w')
          × (lookup self w'.captures
              ≡ some (record c {
                new_count = inc c.new_count;
                tracked = tracked;
                states = some (store chance.fits t object klass datum);
              }))
          × (lookup klass tracked ≡ some a)
          × (lookup a w'.records ≡ some (record r { new_count = inc r.new_count }))
          × ((v : World) × (lookup self v.captures
                ≡ some (record c {
                  paused = inc32 c.paused;
                  new_count = inc c.new_count;
                  tracked = tracked;
                }))
              × (lookup a v.records ≡ some (record r { new_count = inc r.new_count }))
              × (((r.callback ≡ ruby.nil) × (datum ≡ ruby.nil))
                  ⊎ ((r.callback ≢ ruby.nil)
                      × ((v' : World) × (call r.callback klass newobj ruby.nil v ≡ ok datum v')))))
    unfolding process_newobj
    process_newobj-ok quiet bound t st =
        let (w₃, tracked, run, h₃, k₃, g₃) = counted in
        let (datum, w₄, asked, same_captures, same_records, answer) =
          ask-quiet quiet r.callback klass w₃ in
        let c₃ : Capture = record c {
          paused = inc32 c.paused;
          new_count = inc c.new_count;
          tracked = tracked;
        } in
        let h₄ : lookup self w₄.captures ≡ some c₃ = rw same_captures h₃ in
        let c₅ : Capture = record c₃ { states = some (store chance.fits t object klass datum) } in
        let w₅ = with_capture self c₅ w₄ in
        let h₅ : lookup self w₅.captures ≡ some c₅ = lookup-insert_self self c₅ w₄.captures in
        let c₆ : Capture = record c₅ { paused = dec32 c₅.paused } in
        let ends : c₆.paused ≡ c.paused = dec32-inc32 c.paused bound in
        (
          datum,
          with_capture self c₆ w₅,
          tracked,
          rw (run _) (
              rw g₃ (
                rw asked (
                  rw (store_object_lem self c₃ w₄ h₄ chance.fits klass object datum t st)
                    (resume_lem self c₅ w₅ h₅)))),
          lookup-insert_self self c₆ w₅.captures
              ∙ ap (λ (p : ℕ). some (record c₆ { paused = p })) ends,
          k₃,
          rw same_records g₃,
          (w₃, h₃, g₃, elim answer [ inl p ↦ inl p | inr (n, e) ↦ inr (n, (w₄, e)) ]),
        )

    -- An allocation whose callback raises: the totals have gone up, but the object is not stored
    -- and the pause does not end.
    pub process_newobj-raised :
        r.callback ≢ ruby.nil
        → ((v : World)
            → (v' : World) × (call r.callback klass newobj ruby.nil v ≡ raised v')
              × (v'.captures ≡ v.captures))
        → (w' : World) × (tracked : Assoc Value) × (process_newobj call chance self klass object w
            ≡ raised w')
          × (lookup self w'.captures
              ≡ some (record c {
                paused = inc32 c.paused;
                new_count = inc c.new_count;
                tracked = tracked;
              }))
    unfolding process_newobj
    process_newobj-raised present raises =
        let (w₃, tracked, run, h₃, k₃, g₃) = counted in
        let (w₄, e, same) = raises w₃ in
        (
          w₄,
          tracked,
          rw (run _) (rw g₃ (rw (ne→== r.callback ruby.nil present) (rw e refl))),
          rw same h₃,
        )
