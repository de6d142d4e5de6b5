-- ===== src/Table/Insert.antt =====
-- insert.
use memory_tracker.Base.{
  ℕ, ◌+◌, ◌*◌, ◌≤◌, ◌<◌, ◌≡◌, refl, sym, ap, ◌∙◌, ◌⊎◌, inl, inr, Bool, true, false, arith, Option,
  none, some, if◌then◌else◌, size_mod, length, inc_lem, dec_lem, set, get_or-set_self, dec, ◌==◌,
  Bool-cases,
}
use memory_tracker.Value.{Value, Ruby}
use memory_tracker.Table.{
  Entry, Table, at, hash_object, empty_entry, max_probe_length, insert, insert_at, find_insert_slot,
  resize_table, overloaded,
}
use memory_tracker.Table.Search.{pos-lt}
use memory_tracker.Table.Slots.{live, buried, copies, view, live-set, buried-set, update}
use memory_tracker.Table.InsertSearch.{IsFree}
use memory_tracker.Table.Invariant.{walk, Crowded, IsKey}
use memory_tracker.Table.Find.{insert_slot-absent, insert_slot-present}
use memory_tracker.Table.Write.{Sound-put, Sound-rewrite, view-write}
use memory_tracker.Table.Valid.{IsValid, IsValid-Ends, find-cases, max_probe_length-lt}
use memory_tracker.Table.Resize.{resize_table-Resizes, overloaded-resize}

module _ ⦃ruby : Ruby⦄ where
  -- A new object starts with no class and no state.
  abbrev pub kept : Option (Value × Value) → Value × Value
  kept none = (0, 0)
  kept (some x) = x

  abbrev pub one_if_new : Option (Value × Value) → ℕ
  one_if_new none = 1
  one_if_new (some x) = 0

  -- What an insertion of `o` makes of a table, with the index of the entry that is returned.
  pub record Inserts (o : Value) (t : Table) (r : Table × ℕ) : Type 0 where
    pub valid : IsValid r.0
    pub in_range : r.1 < r.0.capacity
    pub here : (at r.0.entries r.1).object ≡ o
    pub count : r.0.count ≡ t.count + one_if_new (view t.entries o)
    pub used : r.0.count + r.0.tombstones ≤ t.count + t.tombstones + 1
    pub capacity :
        (r.0.capacity ≡ t.capacity) ⊎ ((overloaded t ≡ true) × (r.0.capacity ≡ t.capacity * 2))
    pub reads :
        (q : Value)
        → IsKey q
        → view r.0.entries q ≡ update (view t.entries) o (some (kept (view t.entries o))) q

  module _ {t : Table} (v : IsValid t) (o : Value) (key : IsKey o) where
    insert_at-present :
        (i : ℕ)
        → i < t.capacity
        → (at t.entries i).object ≡ o
        → view t.entries o ≡ some ((at t.entries i).klass, (at t.entries i).datum)
        → Inserts o t (insert_at t o (record { index = i; found = true }))
    unfolding insert_at
    insert_at-present i l h e =
        let new : Entry = record (at t.entries i) { object = o } in
        let width : i < length t.entries = rw v.sound.width l in
        let after = Sound-rewrite v.sound i l new key h in
        record {
          valid = record {
            sound = after;
            counted =
                ground (arith, v.counted, live-set t.entries i new width, key.ne_zero, key.ne_nil);
            deleted = ground (arith, v.deleted, buried-set t.entries i new width, key.ne_nil);
            roomy = v.roomy;
            wide = v.wide;
            bounded = v.bounded;
          };
          in_range = l;
          here = ap (λ (e : Entry). e.object) (get_or-set_self t.entries i new empty_entry width);
          count = ground arith;
          used = omega arith;
          capacity = inl refl;
          reads = λ q k. ground (arith, view-write v.sound i l new after q k);
        }

    insert_at-absent :
        (d : ℕ)
        → d < t.capacity
        → 2 * (t.count + t.tombstones) ≤ t.capacity
        → view t.entries o ≡ none
        → copies o t.entries ≡ 0
        → IsFree t.entries t.capacity (hash_object o t.capacity) (walk t.capacity o d)
        → Crowded t.entries t.capacity o d
        → Inserts o t (insert_at t o (record { index = walk t.capacity o d; found = false }))
    unfolding insert_at
    insert_at-absent d p load e absent free crowded =
        let i : ℕ = walk t.capacity o d in
        let new : Entry = record { object = o; klass = 0; datum = 0 } in
        let l : i < t.capacity = pos-lt t.capacity _ d v.sound.room in
        let width : i < length t.entries = rw v.sound.width l in
        let after = Sound-put v.sound i l new key absent d p refl crowded in
        let lives = live-set t.entries i new width in
        let dead = buried-set t.entries i new width in
        let fits : t.capacity < size_mod = omega (arith, v.bounded, max_probe_length-lt) in
        let up = inc_lem t.count (omega (arith, v.roomy)) in
        let more : live (set t.entries i new) ≡ t.count + 1 =
          ground (arith, lives, v.counted, key.ne_zero, key.ne_nil, free) in
        let less : buried (set t.entries i new)
            ≡ (if (at t.entries i).object == ruby.nil then dec t.tombstones else t.tombstones) =
          ground (arith, dead, v.deleted, key.ne_nil, free, dec_lem t.tombstones, v.roomy) in
        let fewer : buried (set t.entries i new) ≤ t.tombstones =
          ground (arith, dead, v.deleted, key.ne_nil) in
        record {
          valid = record {
            sound = after;
            counted = omega arith;
            deleted = sym less;
            roomy = omega (arith, less, fewer, up, v.wide);
            wide = v.wide;
            bounded = v.bounded;
          };
          in_range = l;
          here = ap (λ (e : Entry). e.object) (get_or-set_self t.entries i new empty_entry width);
          count = ground arith;
          used = omega (arith, less, fewer, up);
          capacity = inl refl;
          reads = λ q k.
              ground (arith, view-write v.sound i l new after q k, free, k.ne_zero, k.ne_nil);
        }

    -- insert without a resize.
    pub insert-Inserts_light : overloaded t ≡ false → (fits : Bool) → Inserts o t (insert fits t o)
    unfolding insert find_insert_slot overloaded
    insert-Inserts_light light fits =
        let load : 2 * (t.count + t.tombstones) ≤ t.capacity =
          ground (arith, v.roomy, v.bounded, max_probe_length-lt) in
        elim (find-cases v o key) [
          | inl (e, absent) ↦
              let (d, p, run, free, crowded) =
                insert_slot-absent v.sound o (IsValid-Ends v o) absent in
              rw (light, run) (insert_at-absent d p load e absent free crowded)
          | inr (i, l, h, e, _) ↦
              rw (light, insert_slot-present v.sound o (IsValid-Ends v o) key i l h)
                (insert_at-present i l h e)
        ]

  -- After a resize half of the slots are free, so that insert does not resize again.
  insert_resized :
      {t : Table}
      → IsValid t
      → t.capacity * 2 ≤ max_probe_length
      → overloaded t ≡ true
      → (o : Value) → IsKey o
      → Inserts o t (insert true (resize_table true t) o)
  insert_resized {t} v b heavy o key =
      let r = resize_table-Resizes t v b in
      let light = overloaded-resize v r in
      let n = insert-Inserts_light r.valid o key light true in
      record {
        valid = n.valid;
        in_range = n.in_range;
        here = n.here;
        count = ground (arith, n.count, r.count, r.reads o key);
        used = omega (arith, n.used, r.count, r.cleared);
        capacity =
            inr (heavy, elim n.capacity [ inl e ↦ e ∙ r.capacity | inr (h, _) ↦ absurd (cc) ]);
        reads = λ q k. ground (arith, n.reads q k, r.reads q k, r.reads o key);
      }

  -- insert puts the object into the map, if it was not there, and keeps all else.
  pub insert-Inserts :
      (t : Table) (o : Value)
      → IsValid t
      → IsKey o
      → (overloaded t ≡ false) ⊎ (t.capacity * 2 ≤ max_probe_length)
      → Inserts o t (insert true t o)
  unfolding insert
  insert-Inserts t o v key b = elim (Bool-cases (overloaded t)) [
    | inr light ↦ insert-Inserts_light v o key light true
    | inl heavy ↦
        let small : t.capacity * 2 ≤ max_probe_length = ground arith in
        let r = resize_table-Resizes t v small in
        rw heavy (rw (overloaded-resize v r) at (insert_resized v small heavy o key))
  ]
