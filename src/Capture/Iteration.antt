-- ===== src/Capture/Iteration.antt =====
-- each_object: what it yields.
use memory_tracker.Base.{
  ℕ, ◌+◌, ◌≤◌, ◌≡◌, ◌≢◌, refl, inl, inr, false, Option, none, some, List, [], ◌∷◌, arith, length,
  tally, if◌then◌else◌, ◌==◌, Bool-cases, Option-cases, ◌&&◌, ◌∙◌, ap, sym, ==→eq, Bool,
}
use memory_tracker.Value.{Value, Ruby}
use memory_tracker.Assoc.{Assoc, lookup}
use memory_tracker.Table.{Table, Entry}
use memory_tracker.Table.Slots.{live, buried, copies, view, view-eq-none}
use memory_tracker.Table.Invariant.{IsKey}
use memory_tracker.Events.{EventType}
use memory_tracker.World.{Capture, World, ok, M}
use memory_tracker.Capture.Process.{Chance}
use memory_tracker.Capture.Dispatch.{process_all}
use memory_tracker.Table.Valid.{IsValid}
use memory_tracker.Capture.Query.{
  is_some, yields, or_nil, each_object, states_yields, each_filtered,
}

module _ ⦃ruby : Ruby⦄ where
  length-yields_entries :
      (tracked : Assoc Value) (es : List Entry)
      → length (yields tracked ruby.nil es) ≡ live es + buried es
  unfolding yields live buried
  length-yields_entries tracked [] = refl
  length-yields_entries tracked (e ∷ es) =
      ground (arith, length-yields_entries tracked es, ruby.nil_pos)

  -- Without a class each_object_body yields on a valid table once for each object of the table, and
  -- once more for each tombstone.
  pub length-yields :
      (t : Table) (tracked : Assoc Value)
      → IsValid t
      → length (yields tracked ruby.nil t.entries) ≡ t.count + t.tombstones
  length-yields t tracked v =
      omega (arith, length-yields_entries tracked t.entries, v.counted, v.deleted)

  -- Every tracked class has counters of its own.
  pub record HaveOwn (tracked : Assoc Value) : Type 0 where
    pub apart : (j k a : Value) → lookup j tracked ≡ some a → lookup k tracked ≡ some a → j ≡ k
    pub ne_nil : (k a : Value) → lookup k tracked ≡ some a → a ≢ ruby.nil

  -- How often an object is yielded.
  abbrev pub times : Value → List (Value × Value) → ℕ
  times o = tally (λ (p : Value × Value). p.0 == o)

  -- What is yielded of an object, by the class and the state that the table holds for it.
  abbrev passes : Assoc Value → Value → Option (Value × Value) → ℕ
  passes tracked filter none = 0
  passes tracked filter (some (k, d)) =
      if filter == ruby.nil then 1 else if or_nil (lookup k tracked) == filter then 1 else 0

  times-yields :
      (tracked : Assoc Value) (filter o : Value) (es : List Entry)
      → IsKey o
      → copies o es ≤ 1
      → times o (yields tracked filter es) ≡ passes tracked filter (view es o)
  unfolding yields view copies
  times-yields tracked filter o [] key once = refl
  times-yields tracked filter o (e ∷ es) key once =
      ground (arith, times-yields tracked filter o es key, view-eq-none o es, key.ne_zero)

  -- What each_object is to yield of an object: once if the table holds it with the class, and the
  -- class is tracked. Qnil as the class stands for every object.
  abbrev pub wanted : Assoc Value → Value → Option (Value × Value) → ℕ
  wanted tracked klass none = 0
  wanted tracked klass (some (k, d)) =
      if klass == ruby.nil
      then 1
      else if is_some (lookup klass tracked) && (k == klass)
      then 1
      else 0

  passes-nil :
      (tracked : Assoc Value) (v : Option (Value × Value))
      → passes tracked ruby.nil v ≡ wanted tracked ruby.nil v
  passes-nil tracked none = refl
  passes-nil tracked (some (k, d)) = ground arith

  passes-own :
      (tracked : Assoc Value) (klass a : Value) (v : Option (Value × Value))
      → HaveOwn tracked
      → (klass == ruby.nil) ≡ false
      → lookup klass tracked ≡ some a
      → passes tracked a v ≡ wanted tracked klass v
  unfolding or_nil
  passes-own tracked klass a none own n e = refl
  passes-own tracked klass a (some (k, d)) own n e = elim (Option-cases (lookup k tracked)) [
    | inl f ↦ ground (arith, own.ne_nil klass a e)
    | inr (b, f) ↦ ground (arith, own.ne_nil klass a e, own.apart k klass a)
  ]

  untracked :
      (tracked : Assoc Value) (klass : Value) (v : Option (Value × Value))
      → (klass == ruby.nil) ≡ false
      → lookup klass tracked ≡ none
      → 0 ≡ wanted tracked klass v
  untracked tracked klass none n e = refl
  untracked tracked klass (some (k, d)) n e = rw (n, e) refl

  -- each_object, where the processing of the waiting events succeeds and leaves the capture with a
  -- valid table and with counters for each of its tracked classes that are no other class's and not
  -- Qnil: it succeeds with the world that the processing leaves, and yields an object once if the
  -- table holds it with the class asked for and that class is tracked, else not at all. With Qnil
  -- as the class it yields every object of the table once.
  pub each_object-times :
      (call : Value → Value → EventType → Value → M Value) (chance : ℕ → Chance) (made : Bool)
      (fuel : ℕ) (self klass o : Value) (w w₁ : World) (c : Capture) (t : Table)
      → process_all call chance made fuel w ≡ ok tt w₁
      → lookup self w₁.captures ≡ some c
      → c.states ≡ some t
      → IsValid t
      → HaveOwn c.tracked
      → IsKey o
      → (ys : List (Value × Value)) × (each_object call chance made fuel self klass w ≡ ok ys w₁)
        × (times o ys ≡ wanted c.tracked klass (view t.entries o))
  unfolding each_object states_yields each_filtered
  each_object-times call chance made fuel self klass o w w₁ c t run here st v own key =
      elim (Bool-cases (klass == ruby.nil)) [
        | inl y ↦ (
          yields c.tracked ruby.nil t.entries,
          rw run (rw here (rw y (rw st refl))),
          times-yields c.tracked ruby.nil o t.entries key (v.sound.once o key)
              ∙ (passes-nil c.tracked (view t.entries o)
                  ∙ ap (λ (k : Value). wanted c.tracked k (view t.entries o))
                      (sym (==→eq klass ruby.nil y))),
        )
        | inr n ↦ elim (Option-cases (lookup klass c.tracked)) [
          | inl unknown ↦ (
            [],
            rw run (rw here (rw n (rw unknown refl))),
            untracked c.tracked klass (view t.entries o) n unknown,
          )
          | inr (a, known) ↦ (
            yields c.tracked a t.entries,
            rw run (rw here (rw n (rw known (rw st refl)))),
            times-yields c.tracked a o t.entries key (v.sound.once o key)
                ∙ passes-own c.tracked klass a (view t.entries o) own n known,
          )
        ]
      ]
