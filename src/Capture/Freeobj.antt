-- ===== src/Capture/Freeobj.antt =====
-- process_freeobj: what one deallocation does.
use memory_tracker.Base.{
  ℕ, ◌<◌, ◌≡◌, refl, ◌⊎◌, inl, inr, none, some, if◌then◌else◌, ◌==◌, inc, inc32, dec32, arith,
  dec32-inc32, int_mod, Bool-cases, Option-cases, ◌||◌,
}
use memory_tracker.Value.{Value, Ruby}
use memory_tracker.Assoc.{lookup, lookup-insert_self}
use memory_tracker.Allocations.{Allocations}
use memory_tracker.Events.{EventType, freeobj}
use memory_tracker.Table
use memory_tracker.Table.{Table, at, delete_entry, delete}
use memory_tracker.Table.Slots.{view}
use memory_tracker.Table.Invariant.{IsKey}
use memory_tracker.Table.Valid.{IsValid, lookup-view}
use memory_tracker.Table.Delete.{delete_entry-lookup}
use memory_tracker.World.{Capture, World, ok, M, ◌>>=◌, pure}
use memory_tracker.Capture.Process.{free_object, process_freeobj}
use memory_tracker.Capture.Steps.{with_capture, with_record, pause_lem, resume_lem}
use memory_tracker.Capture.Newobj.{IsQuiet}

module _ ⦃ruby : Ruby⦄ (call : Value → Value → EventType → Value → M Value) where
  -- The call of a callback on a free, for an object with a state.
  abbrev tell : Value → Value → Value → M (Unit {0})
  tell callback klass datum =
      if (callback == ruby.nil) || (datum == ruby.nil)
      then pure tt
      else (call callback klass freeobj datum >>= λ _. pure tt)

  module _ (self object : Value) (c : Capture) (w : World) (t : Table)
      (here : lookup self w.captures ≡ some c) (held : c.states ≡ some t) where
    free_object-unknown : Table.lookup t object ≡ none → free_object call self object w ≡ ok tt w
    unfolding free_object
    free_object-unknown e = rw here (rw held (rw e refl))

    free_object-untracked :
        (i : ℕ)
        → Table.lookup t object ≡ some i
        → lookup (at t.entries i).klass c.tracked ≡ none
        → free_object call self object w ≡ ok tt w
    unfolding free_object
    free_object-untracked i e u = rw here (rw held (rw e (rw u refl)))

    -- The world after the entry is deleted and the free counted.
    abbrev freed : Allocations → Value → ℕ → World
    freed r a i =
        let c' : Capture = record c { states = some (delete_entry t i) } in
        with_record a (record r { free_count = inc r.free_count })
          (with_capture self (record c' { free_count = inc c.free_count }) (with_capture self c' w))

    free_object-tracked :
        (i : ℕ) (a : Value) (r : Allocations)
        → Table.lookup t object ≡ some i
        → lookup (at t.entries i).klass c.tracked ≡ some a
        → lookup a w.records ≡ some r
        → free_object call self object w
          ≡ tell r.callback (at t.entries i).klass (at t.entries i).datum (freed r a i)
    unfolding free_object
    free_object-tracked i a r e u g =
        let c' : Capture = record c { states = some (delete_entry t i) } in
        rw here
          (rw held (rw e (rw u (rw here (rw g (rw (lookup-insert_self self c' w.captures) refl))))))

  tell-quiet :
      IsQuiet call
      → (callback klass datum : Value) (w : World)
      → (w' : World) × (tell callback klass datum w ≡ ok tt w')
        × (w'.captures ≡ w.captures)
        × (w'.records ≡ w.records)
  tell-quiet quiet callback klass datum w =
      elim (Bool-cases ((callback == ruby.nil) || (datum == ruby.nil))) [
        | inl y ↦ (w, rw y refl, refl, refl)
        | inr n ↦
            let (v, w', e, p, q) = quiet callback klass freeobj datum w in
            (w', rw n (rw e refl), p, q)
      ]

  -- A slot that the search for an object ends at holds what the table's map says.
  slot_of :
      (t : Table) (object klass datum : Value)
      → IsValid t
      → IsKey object
      → view t.entries object ≡ some (klass, datum)
      → (i : ℕ) × (Table.lookup t object ≡ some i)
        × ((at t.entries i).klass ≡ klass)
        × (delete_entry t i ≡ delete t object)
  slot_of t object klass datum v key h = elim (Option-cases (Table.lookup t object)) [
    | inl e ↦ absurd (ground (arith, lookup-view v object key))
    | inr (i, e) ↦
        (i, e, ground (arith, lookup-view v object key), delete_entry-lookup v object key i e)
  ]

  module _ (self object : Value) (c : Capture) (w : World) (t : Table)
      (here : lookup self w.captures ≡ some c) (held : c.states ≡ some t)
      (bound : c.paused < int_mod) (v : IsValid t) (key : IsKey object) where
    -- The free of an object that the valid table of a capture with less than 2 ^ 32 pauses holds,
    -- with its class tracked and a callback, if any, that returns and leaves the captures and
    -- counters alone: it succeeds, both free counts go up by one, the object is deleted from the
    -- table, and nothing else of the capture changes, the pause included.
    pub process_freeobj-tracked :
        IsQuiet call
        → (klass datum a : Value) (r : Allocations) → view t.entries object ≡ some (klass, datum)
        → lookup klass c.tracked ≡ some a
        → lookup a w.records ≡ some r
        → (w' : World) × (process_freeobj call self object w ≡ ok tt w')
          × (lookup self w'.captures
              ≡ some (record c { states = some (delete t object); free_count = inc c.free_count }))
          × (lookup a w'.records ≡ some (record r { free_count = inc r.free_count }))
    unfolding process_freeobj
    process_freeobj-tracked quiet klass datum a r h tracked counters =
        let c₁ : Capture = record c { paused = inc32 c.paused } in
        let w₁ = with_capture self c₁ w in
        let h₁ : lookup self w₁.captures ≡ some c₁ = lookup-insert_self self c₁ w.captures in
        let (i, e, k, d) = slot_of t object klass datum v key h in
        let tracked' : lookup (at t.entries i).klass c.tracked ≡ some a = rw k tracked in
        let run = free_object-tracked self object c₁ w₁ t h₁ held i a r e tracked' counters in
        let w₂ = freed self object c₁ w₁ t h₁ held r a i in
        let (w₃, told, same_captures, same_records) =
          tell-quiet quiet r.callback (at t.entries i).klass (at t.entries i).datum w₂ in
        let c₃ : Capture = record c₁ {
          states = some (delete_entry t i);
          free_count = inc c.free_count;
        } in
        let h₃ : lookup self w₃.captures ≡ some c₃ =
          rw same_captures (lookup-insert_self self c₃ _) in
        let c₄ : Capture = record c₃ { paused = dec32 c₃.paused } in
        let ends : c₄.paused ≡ c.paused = dec32-inc32 c.paused bound in
        (
          with_capture self c₄ w₃,
          rw (pause_lem self c w here) (rw run (rw told (resume_lem self c₃ w₃ h₃))),
          rw (lookup-insert_self self c₄ w₃.captures) (rw (ends, d) refl),
          rw same_records (lookup-insert_self a _ w₁.records),
        )

    -- The free of an object that the valid table of a capture with less than 2 ^ 32 pauses lacks,
    -- or holds under a class that is not tracked: it succeeds, the capture is as before, the object
    -- still in the table in the second case, and no counters change.
    pub process_freeobj-ignored :
        (view t.entries object ≡ none)
          ⊎ ((klass datum : Value) × (view t.entries object ≡ some (klass, datum))
              × (lookup klass c.tracked ≡ none))
        → (w' : World) × (process_freeobj call self object w ≡ ok tt w')
          × (lookup self w'.captures ≡ some c)
          × (w'.records ≡ w.records)
    unfolding process_freeobj
    process_freeobj-ignored why =
        let c₁ : Capture = record c { paused = inc32 c.paused } in
        let w₁ = with_capture self c₁ w in
        let h₁ : lookup self w₁.captures ≡ some c₁ = lookup-insert_self self c₁ w.captures in
        let still : free_object call self object w₁ ≡ ok tt w₁ = elim why [
          | inl absent ↦
              free_object-unknown self object c₁ w₁ t h₁ held
                (ground (arith, lookup-view v object key, Option-cases (Table.lookup t object)))
          | inr (klass, datum, h, u) ↦
              let (i, e, k, d) = slot_of t object klass datum v key h in
              free_object-untracked self object c₁ w₁ t h₁ held i e (rw k u)
        ] in
        let c₂ : Capture = record c₁ { paused = dec32 c₁.paused } in
        let ends : c₂.paused ≡ c.paused = dec32-inc32 c.paused bound in
        (
          with_capture self c₂ w₁,
          rw (pause_lem self c w here) (rw still (resume_lem self c₁ w₁ h₁)),
          rw (lookup-insert_self self c₂ w₁.captures) (rw ends refl),
          refl,
        )
