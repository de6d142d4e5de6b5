-- ===== src/Table/Write.antt =====
-- Writes to one slot that keep an array sound.
use memory_tracker.Base.{
  ℕ, ◌≤◌, ◌<◌, ◌≡◌, refl, ap, ◌∙◌, ◌≢◌, List, arith, length, none, some, ℕ_discrete, set,
  length-set, get_or-set_self, get_or-set_ne, replicate, length-replicate, get_or-replicate, ◌==◌,
  if◌then◌else◌,
}
use memory_tracker.Value.{Value, Ruby}
use memory_tracker.Table.{Entry, at, empty_entry}
use memory_tracker.Table.Slots.{copies, copies-set, copies-replicate, view, view-set}
use memory_tracker.Table.Invariant.{walk, Crowded, IsKey, Reaches, Sound}

Crowded-set :
    (es : List Entry) (c : ℕ) (o : Value) (d i : ℕ) (e : Entry)
    → i < length es
    → e.object ≢ 0
    → Crowded es c o d
    → Crowded (set es i e) c o d
Crowded-set es c o d i e l n b j m = elim (ℕ_discrete i (walk c o j)) [
  | yes same ↦ rw (← same, get_or-set_self es i e empty_entry l) n
  | no other ↦ rw (get_or-set_ne es i (walk c o j) e empty_entry other) (b j m)
]

module _ ⦃ruby : Ruby⦄ where
  pub Sound-empty : (c : ℕ) → 0 < c → Sound c (replicate c empty_entry)
  Sound-empty c p = record {
    width = length-replicate c empty_entry;
    room = p;
    once = λ o key. omega (arith, copies-replicate o c key.ne_zero);
    reach = λ i l key. absurd (key.ne_zero (rw get_or-replicate refl));
  }

  module _ {c : ℕ} {es : List Entry} (s : Sound c es) (i : ℕ) (l : i < c) (e : Entry) where
    width : i < length es
    width = rw s.width l

    -- Any write that leaves no object twice, and no object out of reach of its own search.
    Sound-set :
        e.object ≢ 0
        → ((o : Value) → IsKey o → copies o (set es i e) ≤ 1)
        → (IsKey e.object → (d : ℕ) × (d < c) × (walk c e.object d ≡ i) × Crowded es c e.object d)
        → Sound c (set es i e)
    Sound-set n once reach = record {
      width = length-set es i e ∙ s.width;
      room = s.room;
      once = once;
      reach = λ j m. elim (ℕ_discrete i j) [
        | yes same ↦
            rw (← same, get_or-set_self es i e empty_entry width)
              λ key.
                let (d, p, a, b) = reach key in
                record {
                  steps = d;
                  round = p;
                  arrives = a;
                  before = Crowded-set es c e.object d i e width n b;
                }
        | no other ↦ rw (get_or-set_ne es i j e empty_entry other) λ key.
            let r = s.reach j m key in
            record {
              steps = r.steps;
              round = r.round;
              arrives = r.arrives;
              before = Crowded-set es c (at es j).object r.steps i e width n r.before;
            }
      ];
    }

    -- A new object in the place that its search leads to.
    pub Sound-put :
        IsKey e.object
        → copies e.object es ≡ 0
        → (d : ℕ) → d < c
        → walk c e.object d ≡ i
        → Crowded es c e.object d
        → Sound c (set es i e)
    Sound-put key absent d p a b =
        Sound-set key.ne_zero
          (λ o k. ground (
            arith,
            copies-set o es i e width,
            s.once o k,
            ap (λ v. copies v es) {x = o} {y = e.object},
          ))
          (λ _. (d, p, a, b))

    -- The same object in the slot that held it.
    pub Sound-rewrite : IsKey e.object → (at es i).object ≡ e.object → Sound c (set es i e)
    Sound-rewrite key same =
        let r : Reaches es c e.object i = rw same at (s.reach i l (rw same key)) in
        Sound-set key.ne_zero (λ o k. ground (arith, copies-set o es i e width, s.once o k))
          (λ _. (r.steps, r.round, r.arrives, r.before))

    -- Qnil in any slot.
    pub Sound-bury : e.object ≡ ruby.nil → Sound c (set es i e)
    Sound-bury nil =
        Sound-set (λ z. absurd (omega (arith, ruby.nil_pos)))
          (λ o k. ground (arith, copies-set o es i e width, s.once o k, k.ne_nil))
          (λ key. absurd (key.ne_nil nil))

    -- The map after a sound write.
    pub view-write :
        Sound c (set es i e)
        → (o : Value) → IsKey o
        → view (set es i e) o ≡ (
            if e.object == o
            then some (e.klass, e.datum)
            else if (at es i).object == o
            then none
            else view es o)
    view-write after o key = view-set es i e o width (s.once o key) (after.once o key)
