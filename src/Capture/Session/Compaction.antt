-- ===== src/Capture/Session/Compaction.antt =====
-- A compaction of the heap between the steps of a session: every object may move, and the
-- callbacks of all captures, counters and of the events run.
use mathlib.Core.Option
use memory_tracker.Base.{
  ℕ, ◌+◌, ◌≡◌, refl, sym, subst, ap, ◌∙◌, inl, inr, arith, true, false, Option, none, some, [], ◌∷◌,
  map, length, Bool-cases, ◌==◌, ==→eq, ==→ne, ne→==, eq→==, Option-cases,
}
use memory_tracker.Value.{Value, Ruby}
use memory_tracker.Assoc.{Assoc, lookup}
use memory_tracker.Allocations
use memory_tracker.Allocations.{Allocations}
use memory_tracker.Events.Gc
use memory_tracker.Events.Gc.{compact_event, compact_queue, compact_cells, moved_object, is_skipped}
use memory_tracker.Table.{Table}
use memory_tracker.Table.Relocate.{Moves}
use memory_tracker.Table.Compact.{compact-Compacts}
use memory_tracker.World.{Capture, World}
use memory_tracker.Capture.Gc.{compact_capture, tracked_update}
use memory_tracker.Capture.Balance.{Account}
use memory_tracker.Capture.Session.Ready.{Ready}
use memory_tracker.Capture.Session.MovedEvents.{IsMove, compact-Tidy, AboutObjects-map, length-map}

module _ ⦃ruby : Ruby⦄ where
  module _ (location : Value → Value) where
    move_captures : Assoc Capture → Option (Assoc Capture)
    move_captures [] = some []
    move_captures ((x, c) ∷ m) = elim (compact_capture location true c) [
      | none ↦ none
      | some c' ↦ Option.map (λ (m' : Assoc Capture). (location x, c') ∷ m') (move_captures m)
    ]

    move_records : Assoc Allocations → Assoc Allocations
    move_records [] = []
    move_records ((a, r) ∷ m) = (location a, Allocations.compact location r) ∷ move_records m

    -- Every calloc succeeds; `none` is undefined behaviour in the compaction of a table.
    unfoldable pub move_world : World → Option World
    unfolding move_captures move_records
    move_world w =
        Option.map
          (λ (captures : Assoc Capture). record {
            captures = captures;
            records = move_records w.records;
            events = Gc.compact location w.events;
            hooks = map location w.hooks;
          })
          (move_captures w.captures)

    module _ (move : IsMove location) where
      Moves-any : (t : Table) → Moves location t.entries
      Moves-any t = record {
        lands = λ o k p. move.lands o k;
        apart = λ a b j k p q e. move.apart a b e;
      }

      -- A capture in balance is compacted, and stays in balance.
      pub compact_capture-Account :
          (a b n : ℕ) (c : Capture)
          → Account a b n c
          → (c' : Capture) × (compact_capture location true c ≡ some c') × Account a b n c'
      unfolding compact_capture
      compact_capture-Account a b n c h =
          let (t', e, k) = compact-Compacts location h.valid (Moves-any h.table) in
          (
            record c { tracked = tracked_update location c.tracked; states = some t' },
            rw h.holds (rw e refl),
            record {
              table = t';
              holds = refl;
              valid = k.valid;
              sized = rw k.capacity h.sized;
              balance = omega (arith, h.balance, k.count);
              used = omega (arith, h.used, k.count, k.used);
              budget = h.budget;
            },
          )

      move_captures-cons :
          (x : Value) (c : Capture) (m m' : Assoc Capture)
          → move_captures ((x, c) ∷ m) ≡ some m'
          → (c₁ : Capture) × (m₁ : Assoc Capture) × (compact_capture location true c ≡ some c₁)
            × (move_captures m ≡ some m₁)
            × ((location x, c₁) ∷ m₁ ≡ m')
      unfolding move_captures
      move_captures-cons x c m m' e = elim (Option-cases (compact_capture location true c)) [
        | inl f ↦ absurd (ground (arith, e, f))
        | inr (c₁, f) ↦ elim (Option-cases (move_captures m)) [
          | inl g ↦ absurd (ground (arith, e, f, g))
          | inr (m₁, g) ↦ (c₁, m₁, f, g, ground (arith, e, f, g))
        ]
      ]

      -- Where a capture of the moved world comes from.
      lookup-move_captures :
          (m m' : Assoc Capture) (y : Value) (c' : Capture)
          → move_captures m ≡ some m'
          → lookup y m' ≡ some c'
          → (x : Value) × (c : Capture) × (lookup x m ≡ some c)
            × (compact_capture location true c ≡ some c')
            × (location x ≡ y)
      unfolding lookup move_captures
      lookup-move_captures [] m' y c' e l = cc
      lookup-move_captures ((x, c) ∷ m) m' y c' e l =
          let (c₁, m₁, f, g, same) = move_captures-cons x c m m' e in
          let found : lookup y ((location x, c₁) ∷ m₁) ≡ some c' =
            subst (λ (n : Assoc Capture). lookup y n ≡ some c') (sym same) l in
          elim (Bool-cases (location x == y)) [
            | inl here ↦
                let same_capture : some c₁ ≡ some c' = (rw here at found) in
                (x, c, rw (eq→== x x refl) refl, f ∙ same_capture, ==→eq _ _ here)
            | inr further ↦
                let rest : lookup y m₁ ≡ some c' = (rw further at found) in
                let (z, d, h, k, at) = lookup-move_captures m m₁ y c' g rest in
                let n : (x == z) ≡ false =
                  ne→== x z (λ k. ==→ne (location x) y further (ap location k ∙ at)) in
                (z, d, rw n h, k, at)
          ]

    -- The parts of a moved world.
    moves_to :
        (w w' : World)
        → move_world w ≡ some w'
        → (m : Assoc Capture) × (move_captures w.captures ≡ some m)
          × (record {
            captures = m;
            records = move_records w.records;
            events = Gc.compact location w.events;
            hooks = map location w.hooks;
          }
              ≡ w')
    unfolding move_world
    moves_to w w' run = elim (Option-cases (move_captures w.captures)) [
      | inl f ↦ absurd (ground (arith, run, f))
      | inr (m, f) ↦ (m, f, ground (arith, run, f))
    ]

    pub Ready-move_world :
        IsMove location → (n : ℕ) (w w' : World) → move_world w ≡ some w' → Ready n w → Ready n w'
    Ready-move_world move n w w' run r =
        let f = compact_event location false in
        let size : length (map f r.es) ≡ length r.es = length-map location f r.es in
        let (m, moved, same) = moves_to w w' run in
        let tidy = compact-Tidy location r.es w.events r.tidy in
        subst (Ready n) same (record {
          es = map f r.es;
          about = AboutObjects-map location move r.es r.about;
          tidy = tidy;
          small = omega (arith, size, r.small);
          balanced = λ y c' l.
              let (x, c, here, compacted, _) =
                lookup-move_captures move w.captures m y c' moved l in
              let (d, e, account) =
                compact_capture-Account move 0 0 (length r.es + n) c (r.balanced x c here) in
              let equal : d ≡ c' = cc in
              let sizes : length r.es + n ≡ length (map f r.es) + n = omega (arith, size) in
              subst (λ (k : ℕ). Account 0 0 k c') sizes
                (subst (Account 0 0 (length r.es + n)) equal account);
        })
