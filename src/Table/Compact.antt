-- ===== src/Table/Compact.antt =====
-- compact: the table after the garbage collector has moved objects.
use mathlib.Core.Option
use mathlib.Core.Option.{or_else}
use memory_tracker.Base.{
  ◌≤◌, ◌<◌, ◌≡◌, refl, sym, ap, ◌∙◌, ◌≢◌, inl, inr, true, false, map, arith, none, some, length,
  ◌==◌, Bool-cases, keep, ==→eq, mul64, replicate, dec_lt,
}
use memory_tracker.Value.{Value, Ruby}
use memory_tracker.Table.{Table, is_live, max_probe_length, reinsert, empty_entry}
use memory_tracker.Table.Slots.{copies, view, length-live, view-eq-none}
use memory_tracker.Table.Invariant.{IsKey}
use memory_tracker.Table.Valid.{IsValid, view-replicate}
use memory_tracker.Table.Rehash.{Filling-replicate}
use memory_tracker.Table.Reinsert.{
  reinsert-Fills, keep-Distinct, Apart-replicate, copies-keep, view-keep,
}
use memory_tracker.Table.Gc.{any_moved, update_values, relocate, collect, compact, temp_room}
use memory_tracker.Table.Relocate.{
  both, copies-le-live, live-update, buried-update, view-update, Sound-update, any_moved-stays,
  collect-keep, length-relocate, copies-relocate, view-relocate, Moves, relocate-Distinct,
}

temp_room_lem : (t : Table) → t.count ≤ max_probe_length → temp_room t ≡ t.count
unfolding temp_room mul64 max_probe_length
temp_room_lem t h = omega arith

module _ ⦃ruby : Ruby⦄ where
  module _ (location : Value → Value) where
    -- Every object is held under its new address, with its class and state brought up to date,
    -- and nothing else is held.
    pub record Compacts (t r : Table) : Type 0 where
      pub valid : IsValid r
      pub capacity : r.capacity ≡ t.capacity
      pub count : r.count ≡ t.count
      pub used : r.tombstones ≤ t.tombstones
      pub reads :
          (o : Value)
          → IsKey o
          → 0 < copies o t.entries
          → view r.entries (location o) ≡ Option.map (both location) (view t.entries o)
      pub only :
          (q : Value)
          → IsKey q
          → ((o : Value) → IsKey o → 0 < copies o t.entries → location o ≢ q)
          → view r.entries q ≡ none

    module _ {t : Table} (v : IsValid t) where
      compact_empty : t.count ≡ 0 → Compacts t t
      compact_empty z =
          let none_held : (o : Value) → IsKey o → copies o t.entries ≡ 0 =
            λ o k. omega (arith, copies-le-live o t.entries k, v.counted) in
          record {
            valid = v;
            capacity = refl;
            count = refl;
            used = omega arith;
            reads = λ o k p. absurd (omega (arith, none_held o k));
            only = λ q k _. view-eq-none q t.entries (none_held q k);
          }

      compact_still :
          any_moved location t.entries ≡ false
          → Compacts t (record t { entries = map (update_values location) t.entries })
      compact_still still = record {
        valid = record {
          sound = Sound-update location v.sound;
          counted = omega (arith, v.counted, live-update location t.entries);
          deleted = omega (arith, v.deleted, buried-update location t.entries);
          roomy = v.roomy;
          wide = v.wide;
          bounded = v.bounded;
        };
        capacity = refl;
        count = refl;
        used = omega arith;
        reads = λ o k p.
            rw (any_moved-stays location t.entries o still k p)
              (view-update location o t.entries k);
        only = λ q k other. elim (dec_lt 0 (copies q t.entries)) [
          | yes p ↦ absurd (other q k p (any_moved-stays location t.entries q still k p))
          | no p ↦
              view-update location q t.entries k
              ∙ ap (Option.map (both location)) (view-eq-none q t.entries (omega arith))
        ];
      }

      -- The passes that rebuild the table after a move.
      compact_moved :
          Moves location t.entries
          → (r : Table) × (Option.map
                (λ temp. reinsert temp (record t {
                  count = 0;
                  tombstones = 0;
                  entries = replicate t.capacity empty_entry;
                }))
                (collect location (temp_room t) t.entries)
              ≡ some r)
            × Compacts t r
      unfolding or_else
      compact_moved moves =
          let es = keep is_live t.entries in
          let distinct = keep-Distinct t.entries v.sound.once in
          let held : (o : Value) → IsKey o → copies o es ≡ copies o t.entries =
            λ o k. copies-keep o t.entries k in
          let moves' : Moves location es = record {
            lands = λ o k p. moves.lands o k (rw (held o k) at p);
            apart = λ a b j k p q. moves.apart a b j k (rw (held a j) at p) (rw (held b k) at q);
          } in
          let temp = map (relocate location) es in
          let distinct' = relocate-Distinct location es distinct moves' in
          let size : length temp ≡ t.count =
            length-relocate location es ∙ length-live t.entries ∙ sym v.counted in
          let blank : Table = record t {
            count = 0;
            tombstones = 0;
            entries = replicate t.capacity empty_entry;
          } in
          let start =
            Filling-replicate t.capacity (length temp) (omega (arith, v.roomy)) v.bounded in
          let fills =
            reinsert-Fills temp blank start distinct' (Apart-replicate temp t.capacity distinct') in
          let blank_view = view-replicate t.capacity in
          (
            reinsert temp blank,
            rw (
              temp_room_lem t (omega (arith, v.roomy, v.bounded)),
              collect-keep location t.count t.entries (omega (arith, v.counted)),
            ),
            record {
              valid = record {
                sound = fills.filling.sound;
                counted = fills.filling.counted;
                deleted = omega (arith, fills.filling.no_tombstones, fills.filling.none_buried);
                roomy = omega (arith, fills.filling.roomy, fills.filling.no_tombstones);
                wide = omega (arith, fills.capacity, v.wide);
                bounded = fills.filling.bounded;
              };
              capacity = fills.capacity;
              count = omega (arith, fills.count);
              used = omega (arith, fills.filling.no_tombstones);
              reads = λ o k p.
                  let j = moves.lands o k p in
                  let inj =
                    λ (x : Value) (l : IsKey x) (q : 0 < copies x es) (e : location x ≡ location o).
                      moves.apart x o l k (rw (held x l) at q) p e in
                  ground (
                    arith,
                    fills.reads (location o) j,
                    view-relocate location o es k distinct inj,
                    view-keep o t.entries k,
                    blank_view (location o) j,
                  );
              only = λ q k other.
                  let gone : view temp q ≡ none = view-eq-none q temp (
                    copies-relocate location q es distinct
                      (λ o l p. other o l (rw (held o l) at p))) in
                  ground (arith, fills.reads q k, gone, blank_view q k);
            },
          )

      -- compact keeps the table valid and its map up to date, and stays inside its temporary array.
      pub compact-Compacts :
          Moves location t.entries → (r : Table) × (compact location true t ≡ some r) × Compacts t r
      unfolding compact
      compact-Compacts moves = elim (Bool-cases (t.count == 0)) [
        | inl z ↦ (t, rw z, compact_empty (==→eq _ _ z))
        | inr n ↦ elim (Bool-cases (any_moved location t.entries)) [
          | inr still ↦ (_, rw (n, still), compact_still still)
          | inl moved ↦ rw (n, moved) (compact_moved moves)
        ]
      ]
