-- ===== src/Capture/Each/Order.antt =====
-- each_object against the list of the pairs that it yields.
use memory_tracker.Base.{
  ℕ, zero, suc, ◌+◌, ◌<◌, ◌≡◌, refl, sym, ap, ◌∙◌, inl, inr, true, false, some, List, [], ◌∷◌,
  arith, length, lt→ltb, ge→ltb, ltb, Bool-cases, Option-cases, ◌==◌, not, ◌&&◌, Bool,
}
use memory_tracker.Value.{Value, Ruby}
use memory_tracker.Assoc.{lookup}
use memory_tracker.Table.{Table, Entry, at}
use memory_tracker.Events.{EventType}
use memory_tracker.World.{Capture, World, ok, M}
use memory_tracker.Capture.Process.{Chance}
use memory_tracker.Capture.Dispatch.{process_all}
use memory_tracker.Capture.Query.{yields, or_nil, states_yields, each_filtered, each_object}
use memory_tracker.Capture.Each.{
  Vm, Exit, returns, unwinds, crashes, spent, Code, after, ensure, ensure_exit, ◌>>◌, pure,
  each_object_ensure, yield_entry, each_slot, each_states, each_object_body, each_known,
  each_selected, each_object_with,
}

-- The specification: the block for each pair of a list in turn.
abbrev pub run_block : (Value → Value → Code (Unit {0})) → List (Value × Value) → Code (Unit {0})
run_block block [] = pure tt
run_block block ((object, allocations) ∷ ps) = block object allocations >> run_block block ps

-- The run of a block for a list, and garbage collection turned on at its end, also by an exception.
abbrev pub run_ensured :
    (Value → Value → Code (Unit {0})) → Value → List (Value × Value) → Code Value
run_ensured block self ps =
    ensure (λ v. after (run_block block ps v) (λ _. pure self)) each_object_ensure

-- The entries of an array from an index on, one by one.
abbrev Stands : List Entry → ℕ → List Entry → Type 0
Stands es i [] = length es ≡ i
Stands es i (x ∷ xs) = (i < length es) × (at es i ≡ x) × Stands es (suc i) xs

Stands-from :
    (es cells : List Entry) (i : ℕ)
    → ((j : ℕ) → at es (i + j) ≡ at cells j)
    → length es ≡ i + length cells
    → Stands es i cells
Stands-from es [] i g l = omega arith
Stands-from es (x ∷ cells) i g l =
    let here : i + 0 ≡ i = omega arith in
    (
      omega arith,
      ap (at es) (sym here) ∙ g 0,
      Stands-from es cells (suc i)
          (λ j. let next : suc i + j ≡ i + suc j = omega arith in ap (at es) next ∙ g (suc j))
          (omega arith),
    )

Stands-all : (es : List Entry) → Stands es 0 es
Stands-all es =
    Stands-from es es 0 (λ j. let same : 0 + j ≡ j = omega arith in ap (at es) same) (omega arith)

-- Where the code returns, the capture is as it was.
abbrev pub Holds {ℓ} : {A : Type ℓ} → Value → Capture → Exit A → Type 0
Holds self c (returns a v) = lookup self v.world.captures ≡ some c
Holds self c (unwinds v) = Unit {0}
Holds self c crashes = Unit {0}
Holds self c spent = Unit {0}

-- A block that leaves the capture alone, where it returns.
abbrev pub LeavesCapture : Value → Capture → (Value → Value → Code (Unit {0})) → Type 0
LeavesCapture self c block =
    (object allocations : Value) (v : Vm)
    → lookup self v.world.captures ≡ some c
    → Holds self c (block object allocations v)

after-agree :
    (self : Value) (c : Capture) (x : Exit (Unit {0})) (f g : Code (Unit {0}))
    → Holds self c x
    → ((v : Vm) → lookup self v.world.captures ≡ some c → f v ≡ g v)
    → after x (λ _. f) ≡ after x (λ _. g)
after-agree self c (returns tt v) f g h k = k v h
after-agree self c (unwinds v) f g h k = refl
after-agree self c crashes f g h k = refl
after-agree self c spent f g h k = refl

module _ ⦃ruby : Ruby⦄ (block : Value → Value → Code (Unit {0})) (self : Value) (c : Capture)
    (t : Table) (leaves : LeavesCapture self c block) (st : c.states ≡ some t)
    (wide : length t.entries ≡ t.capacity) where
  -- A round yields what the entry gives, if anything.
  yield_entry-Holds :
      (filter : Value) (e : Entry) (v : Vm)
      → lookup self v.world.captures ≡ some c
      → Holds self c (yield_entry block c.tracked filter e v)
  unfolding yield_entry
  yield_entry-Holds filter e v h = elim (Bool-cases (e.object == 0)) [
    | inl y ↦ rw y h
    | inr n ↦
        elim (Bool-cases
          (not (filter == ruby.nil) && not (or_nil (lookup e.klass c.tracked) == filter))) [
            | inl y ↦ rw (n, y) h
            | inr m ↦ rw (n, m) (leaves e.object (or_nil (lookup e.klass c.tracked)) v h)
          ]
  ]

  run_block-cons :
      (filter : Value) (e : Entry) (es : List Entry) (v : Vm)
      → run_block block (yields c.tracked filter (e ∷ es)) v
        ≡ after
            (yield_entry block c.tracked filter e v)
            (λ _. run_block block (yields c.tracked filter es))
  unfolding yields yield_entry
  run_block-cons filter e es v = elim (Bool-cases (e.object == 0)) [
    | inl y ↦ rw y refl
    | inr n ↦
        elim (Bool-cases
          (not (filter == ruby.nil) && not (or_nil (lookup e.klass c.tracked) == filter))) [
            | inl y ↦ rw (n, y) refl
            | inr m ↦ rw (n, m) refl
          ]
  ]

  each_slot-yields :
      (rounds index : ℕ) (filter : Value) (es : List Entry) (v : Vm)
      → lookup self v.world.captures ≡ some c
      → Stands t.entries index es
      → length es < rounds
      → each_slot block rounds self filter index v ≡ run_block block (yields c.tracked filter es) v
  unfolding each_slot yields
  each_slot-yields zero index filter es v h s l = absurd (omega arith)
  each_slot-yields (suc rounds) index filter [] v h s l =
      rw (h, each_slot)
        (rw (st, each_slot) (rw (ge→ltb index t.capacity (omega arith), each_slot) refl))
  each_slot-yields (suc rounds) index filter (e ∷ es) v h (m, x, s) l =
      let more : ltb index t.capacity ≡ true = lt→ltb index t.capacity (omega arith) in
      rw (h, each_slot)
        (rw (st, each_slot)
          (rw (more, each_slot)
            let next : index + 1 ≡ suc index = omega arith in
              ap
                (λ (e : Entry).
                  after (yield_entry block c.tracked filter e v)
                    (λ _. each_slot block rounds self filter (index + 1)))
                x
              ∙ after-agree self c (yield_entry block c.tracked filter e v) _ _
                  (yield_entry-Holds filter e v h)
                  (λ v' k.
                    ap (λ (i : ℕ). each_slot block rounds self filter i v') next
                    ∙ each_slot-yields rounds (suc index) filter es v' k s (omega arith))
              ∙ sym (run_block-cons filter e es v)))

  each_body-yields :
      (rounds : ℕ) (filter : Value) (v : Vm)
      → lookup self v.world.captures ≡ some c
      → t.capacity < rounds
      → each_object_body block rounds self filter v
        ≡ after (run_block block (yields c.tracked filter t.entries) v) (λ _. pure self)
  unfolding each_object_body each_states
  each_body-yields rounds filter v h l =
      rw (h, st)
        (ap (λ (x : Exit (Unit {0})). after x (λ _. pure self))
          (each_slot-yields rounds 0 filter t.entries v h (Stands-all t.entries) (omega arith)))

  -- each_object with a block that leaves the capture alone where it returns, where the processing
  -- of the waiting events succeeds and leaves a capture with a table, of as many entries as its
  -- capacity and fewer slots than rounds: it runs the block for the pairs that each_object yields,
  -- in their order, from the world that the processing leaves with garbage collection turned off,
  -- and ends as that run does, with garbage collection turned on at the end, also by an exception.
  pub each_object_with-yields :
      (call : Value → Value → EventType → Value → M Value) (chance : ℕ → Chance) (made : Bool)
      (fuel rounds : ℕ) (klass : Value) (first : Capture) (v : Vm) (w : World)
      → lookup self v.world.captures ≡ some first
      → process_all call chance made fuel v.world ≡ ok tt w
      → lookup self w.captures ≡ some c
      → t.capacity < rounds
      → (ps : List (Value × Value)) × (each_object call chance made fuel self klass v.world
          ≡ ok ps w)
        × (each_object_with block call chance made fuel rounds self klass v
            ≡ run_ensured block self ps (record { world = w; collects = false }))
  unfolding each_object_with each_selected each_known each_object each_filtered states_yields
  each_object_with-yields call chance made fuel rounds klass first v w here run h l =
      let v₁ : Vm = record { world = w; collects = false } in
      let ended = λ (x : Exit Value). ensure_exit x each_object_ensure in
      elim (Bool-cases (klass == ruby.nil)) [
        | inl y ↦ (
          yields c.tracked ruby.nil t.entries,
          rw run (rw h (rw y (rw st refl))),
          rw here (rw run (rw y (ap ended (each_body-yields rounds ruby.nil v₁ h l)))),
        )
        | inr n ↦ elim (Option-cases (lookup klass c.tracked)) [
          | inl unknown ↦ (
            [],
            rw run (rw h (rw n (rw unknown refl))),
            rw here (rw run (rw n (rw h (rw unknown refl)))),
          )
          | inr (a, known) ↦ (
            yields c.tracked a t.entries,
            rw run (rw h (rw n (rw known (rw st refl)))),
            rw here (rw run (rw n (rw h (rw known (ap ended (each_body-yields rounds a v₁ h l)))))),
          )
        ]
      ]
