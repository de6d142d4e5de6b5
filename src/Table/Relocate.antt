-- ===== src/Table/Relocate.antt =====
-- What a compaction's passes over the entries do to the map that they stand for.
use mathlib.Core.Option
use memory_tracker.Base.{
  ℕ, zero, suc, ◌≤◌, ◌<◌, ◌≡◌, refl, ap, ◌∙◌, ◌≢◌, inl, inr, false, List, [], ◌∷◌, map, arith, none,
  some, length, ◌==◌, Bool-cases, keep, ==→eq,
}
use memory_tracker.Value.{Value, Ruby}
use memory_tracker.Table.{Entry, at, is_live}
use memory_tracker.Table.Slots.{live, buried, copies, view}
use memory_tracker.Table.Invariant.{IsKey, Sound}
use memory_tracker.Table.Reinsert.{Distinct}
use memory_tracker.Table.Gc.{any_moved, update_values, relocate, collect}

-- A class and a state, brought up to date.
abbrev pub both : (Value → Value) → Value × Value → Value × Value
both location x = (location x.0, location x.1)

module _ ⦃ruby : Ruby⦄ where
  pub copies-le-live : (o : Value) (es : List Entry) → IsKey o → copies o es ≤ live es
  unfolding copies live
  copies-le-live o [] k = omega arith
  copies-le-live o (e ∷ es) k = ground (arith, copies-le-live o es k, k.ne_zero, k.ne_nil)

  module _ (location : Value → Value) where
    at-update :
        (es : List Entry) (i : ℕ)
        → (at (map (update_values location) es) i).object ≡ (at es i).object
    at-update [] i = refl
    at-update (e ∷ es) zero = ground arith
    at-update (e ∷ es) (suc i) = at-update es i

    length-update : (es : List Entry) → length (map (update_values location) es) ≡ length es
    length-update [] = refl
    length-update (e ∷ es) = ap suc (length-update es)

    copies-update :
        (o : Value) (es : List Entry) → copies o (map (update_values location) es) ≡ copies o es
    unfolding copies
    copies-update o [] = refl
    copies-update o (e ∷ es) = ground (arith, copies-update o es)

    pub live-update : (es : List Entry) → live (map (update_values location) es) ≡ live es
    unfolding live
    live-update [] = refl
    live-update (e ∷ es) = ground (arith, live-update es)

    pub buried-update : (es : List Entry) → buried (map (update_values location) es) ≡ buried es
    unfolding buried
    buried-update [] = refl
    buried-update (e ∷ es) = ground (arith, buried-update es)

    pub view-update :
        (o : Value) (es : List Entry)
        → IsKey o
        → view (map (update_values location) es) o ≡ Option.map (both location) (view es o)
    unfolding view
    view-update o [] k = refl
    view-update o (e ∷ es) k = ground (arith, view-update o es k, k.ne_zero, k.ne_nil)

    pub Sound-update :
        {c : ℕ} {es : List Entry} → Sound c es → Sound c (map (update_values location) es)
    Sound-update {c} {es} s = record {
      width = length-update es ∙ s.width;
      room = s.room;
      once = λ o k. rw (copies-update o es) (s.once o k);
      reach = λ i l. rw (at-update es i) (λ k.
          let r = s.reach i l k in
          record {
            steps = r.steps;
            round = r.round;
            arrives = r.arrives;
            before = λ e m. rw (at-update es _) (r.before e m);
          });
    }

    -- Nothing moved: every object of the table is where it was.
    pub any_moved-stays :
        (es : List Entry) (o : Value)
        → any_moved location es ≡ false
        → IsKey o
        → 0 < copies o es
        → location o ≡ o
    unfolding any_moved copies
    any_moved-stays [] o h k p = elim p [ ]
    any_moved-stays (e ∷ es) o h k p = elim (Bool-cases (e.object == o)) [
      | inl same ↦ rw (← ==→eq _ _ same) (ground (arith, k.ne_zero, k.ne_nil))
      | inr other ↦ any_moved-stays es o (ground arith) k (ground arith)
    ]

    -- With room for every live entry, collect writes them all.
    pub collect-keep :
        (room : ℕ) (es : List Entry)
        → live es ≤ room
        → collect location room es ≡ some (map (relocate location) (keep is_live es))
    unfolding collect live
    collect-keep room [] h = refl
    collect-keep zero (e ∷ es) h = ground (arith, collect-keep zero es)
    collect-keep (suc room) (e ∷ es) h =
        ground (arith, collect-keep room es, collect-keep (suc room) es)

    -- Without, it writes past the end.
    pub collect-none :
        (room : ℕ) (es : List Entry) → room < live es → collect location room es ≡ none
    unfolding collect live
    collect-none room [] h = elim h [ ]
    collect-none zero (e ∷ es) h = ground (arith, collect-none zero es)
    collect-none (suc room) (e ∷ es) h =
        ground (arith, collect-none room es, collect-none (suc room) es)

    pub length-relocate : (es : List Entry) → length (map (relocate location) es) ≡ length es
    length-relocate [] = refl
    length-relocate (e ∷ es) = ap suc (length-relocate es)

    -- Only what an object of the entries moved to is held afterwards.
    pub copies-relocate :
        (q : Value) (es : List Entry)
        → Distinct es
        → ((o : Value) → IsKey o → 0 < copies o es → location o ≢ q)
        → copies q (map (relocate location) es) ≡ 0
    unfolding copies
    copies-relocate q [] d other = refl
    copies-relocate q (e ∷ es) d other = ground (
      arith,
      copies-relocate q es d.2 (λ o k p. other o k (ground arith)),
      other e.object d.0 (ground arith),
    )

    pub view-relocate :
        (o : Value) (es : List Entry)
        → IsKey o
        → Distinct es
        → ((x : Value) → IsKey x → 0 < copies x es → location x ≡ location o → x ≡ o)
        → view (map (relocate location) es) (location o) ≡ Option.map (both location) (view es o)
    unfolding view copies
    view-relocate o [] k d inj = refl
    view-relocate o (e ∷ es) k d inj = ground (
      arith,
      view-relocate o es k d.2 (λ x j p. inj x j (ground arith)),
      inj e.object d.0 (ground arith),
    )

    -- What a compaction must promise of the objects of a table: none lands on another, or on a
    -- word that is no object.
    pub record Moves (es : List Entry) : Type 0 where
      pub lands : (o : Value) → IsKey o → 0 < copies o es → IsKey (location o)
      pub apart :
          (a b : Value)
          → IsKey a
          → IsKey b
          → 0 < copies a es
          → 0 < copies b es
          → location a ≡ location b
          → a ≡ b

    Moves-tail : {e : Entry} {es : List Entry} → Moves (e ∷ es) → Moves es
    unfolding copies
    Moves-tail m = record {
      lands = λ o k p. m.lands o k (ground arith);
      apart = λ a b j k p q. m.apart a b j k (ground arith) (ground arith);
    }

    pub relocate-Distinct :
        (es : List Entry) → Distinct es → Moves es → Distinct (map (relocate location) es)
    unfolding copies
    relocate-Distinct [] d m = tt
    relocate-Distinct (e ∷ es) d m = (
      m.lands e.object d.0 (ground arith),
      copies-relocate (location e.object) es d.2 (λ o k p x.
          let same = m.apart o e.object k d.0 (ground arith) (ground arith) x in
          absurd (ground (arith, d.1, same))),
      relocate-Distinct es d.2 (Moves-tail m),
    )
