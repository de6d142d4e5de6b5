-- ===== src/Table/Overflow.antt =====
-- insert in a table in which MAX_PROBE_LENGTH slots are passed without a place for the object.
use memory_tracker.Base.{
  ℕ, zero, suc, ◌+◌, ◌≤◌, ◌<◌, ◌≡◌, ◌≢◌, refl, ap, ◌∙◌, false, none, List, arith, length, inc,
  ne→==, true, Bool, get_or-set_self,
}
use memory_tracker.Value.{Value, Ruby}
use memory_tracker.Table.{
  Entry, Table, at, is_live, max_probe_length, hash_object, insert_loop, find_insert_slot,
  overloaded, insert, insert_at, empty_entry,
}
use memory_tracker.Table.Search.{pos, pos-lt, pos-zero, Passes}
use memory_tracker.Table.InsertSearch.{insert_loop-step}
use memory_tracker.Table.Slots.{live, live-set}
use memory_tracker.Table.Invariant.{walk, hash_object-lt}

module _ ⦃ruby : Ruby⦄ where
  -- The first slots of the search for the object hold other objects.
  pub record IsCluster (t : Table) (o : Value) : Type 0 where
    pub taken : Passes t.entries t.capacity (hash_object o t.capacity) o 0 max_probe_length
    pub kept :
        (e : ℕ) → e < max_probe_length → (at t.entries (walk t.capacity o e)).object ≢ ruby.nil
    pub wide : max_probe_length < t.capacity

  insert_loop-exhausted :
      (es : List Entry) (c h : ℕ) (o : Value)
      → h < c
      → (left d : ℕ) → d + left < c
      → Passes es c h o d (d + left)
      → ((e : ℕ) → d ≤ e → e < d + left → (at es (pos c h e)).object ≢ ruby.nil)
      → insert_loop left es c o h none (pos c h d)
        ≡ record { index = pos c h (d + left); found = false }
  unfolding insert_loop
  insert_loop-exhausted es c h o start zero d l p n =
      let same : d + 0 ≡ d = omega arith in rw same refl
  insert_loop-exhausted es c h o start (suc left) d l p n =
      let next : d + suc left ≡ d + 1 + left = omega arith in
      let (a, b) = p d (omega arith) (omega arith) in
      let here = n d (omega arith) (omega arith) in
      insert_loop-step es c h o start left d none (omega arith) a b
      ∙ rw (ne→== (at es (pos c h d)).object ruby.nil here) (
          rw next (
            insert_loop-exhausted es c h o start left (d + 1) (omega arith)
              (λ e x y. p e (omega arith) (omega arith))
              (λ e x y. n e (omega arith) (omega arith))))

  -- The search ends at the slot after the cluster, whatever that holds.
  find_insert_slot-IsCluster :
      (t : Table) (o : Value)
      → IsCluster t o
      → find_insert_slot t o ≡ record { index = walk t.capacity o max_probe_length; found = false }
  unfolding find_insert_slot
  find_insert_slot-IsCluster t o k =
      let start = hash_object-lt o t.capacity (omega (arith, k.wide)) in
      let all : 0 + max_probe_length ≡ max_probe_length = omega arith in
      let run =
        insert_loop-exhausted t.entries t.capacity (hash_object o t.capacity) o start
          max_probe_length 0 (omega (arith, k.wide)) (λ e x y. k.taken e x (omega arith))
          (λ e x y. k.kept e (omega arith)) in
      rw (pos-zero t.capacity (hash_object o t.capacity) start, all) at run

  -- insert of an object into a table of more than MAX_PROBE_LENGTH slots that need not grow, where
  -- the first MAX_PROBE_LENGTH slots of the search hold other objects and the next one holds an
  -- object too: that slot is overwritten with the new object, so the slots hold as many objects as
  -- before, but the count goes up by one.
  pub insert-overwrites :
      (fits : Bool) (t : Table) (o : Value)
      → IsCluster t o
      → length t.entries ≡ t.capacity
      → overloaded t ≡ false
      → is_live (at t.entries (walk t.capacity o max_probe_length)) ≡ true
      → o ≢ 0
      → o ≢ ruby.nil
      → ((insert fits t o).1 ≡ walk t.capacity o max_probe_length)
        × ((at (insert fits t o).0.entries (walk t.capacity o max_probe_length)).object ≡ o)
        × (live (insert fits t o).0.entries ≡ live t.entries)
        × ((insert fits t o).0.count ≡ inc t.count)
  unfolding insert insert_at
  insert-overwrites fits t o k w light held z n =
      let i : ℕ = walk t.capacity o max_probe_length in
      let width : i < length t.entries =
        rw w (pos-lt t.capacity _ max_probe_length (omega (arith, k.wide))) in
      let new : Entry = record { object = o; klass = 0; datum = 0 } in
      rw (light, find_insert_slot-IsCluster t o k)
        (
          refl,
          ap (λ (e : Entry). e.object) (get_or-set_self t.entries i new empty_entry width),
          ground (arith, live-set t.entries i new width),
          refl,
        )
