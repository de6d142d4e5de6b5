-- ===== src/Capture/Query.antt =====
-- capture.c: the methods of Memory::Profiler::Capture that read its state.
use memory_tracker.Base.{
  ℕ, ◌-◌, Bool, true, false, Option, none, some, List, [], ◌∷◌, if◌then◌else◌, ◌==◌, not, ltb, leb,
  length, ◌&&◌,
}
use memory_tracker.Value.{Value, Ruby}
use memory_tracker.Assoc.{Assoc, lookup}
use memory_tracker.Events.{EventType}
use memory_tracker.Table
use memory_tracker.Table.{Table, Entry}
use memory_tracker.World.{Capture, M, ◌>>=◌, ◌>>◌, pure, get_capture, get_record}
use memory_tracker.Capture.Process.{Chance}
use memory_tracker.Capture.Dispatch.{process_all}

abbrev pub is_some {ℓ} : {A : Type ℓ} → Option A → Bool
is_some none = false
is_some (some a) = true

unfoldable pub tracking_p : Value → Value → M Bool
tracking_p self klass = do c ← get_capture self; pure (is_some (lookup klass c.tracked))

unfoldable pub retained_of : Option Value → M ℕ
retained_of none = pure 0
retained_of (some allocations) = do
  r ← get_record allocations
  pure (if leb r.free_count r.new_count then r.new_count - r.free_count else 0)

unfoldable pub retained_count_of : Value → Value → M ℕ
unfolding retained_of
retained_count_of self klass = do c ← get_capture self; retained_of (lookup klass c.tracked)

-- Capture#retained_count
unfoldable pub retained_count : Capture → ℕ
retained_count c = if ltb c.new_count c.free_count then 0 else c.new_count - c.free_count

-- Capture#new_count and Capture#free_count
unfoldable pub new_count : Value → M ℕ
new_count self = do c ← get_capture self; pure c.new_count

unfoldable pub free_count : Value → M ℕ
free_count self = do c ← get_capture self; pure c.free_count

-- What Memory_Profiler_Capture_each_allocation yields for each tracked class.
unfoldable pub each_allocation : Assoc Value → List (Value × Value)
each_allocation [] = []
each_allocation ((klass, allocations) ∷ m) = (klass, allocations) ∷ each_allocation m

-- Capture#each with a block
unfoldable pub each : Value → M (List (Value × Value))
unfolding each_allocation
each self = do c ← get_capture self; pure (each_allocation c.tracked)

-- object_table_size of Capture#statistics, and tracked_count
unfoldable pub object_table_size : Option Table → ℕ
object_table_size none = 0
object_table_size (some t) = Table.size t

unfoldable pub statistics : Value → M (ℕ × ℕ)
unfolding object_table_size
statistics self = do c ← get_capture self; pure (length c.tracked, object_table_size c.states)

module _ ⦃ruby : Ruby⦄ where
  unfoldable pub or_nil : Option Value → Value
  or_nil none = ruby.nil
  or_nil (some v) = v

  -- Capture#[]
  unfoldable pub aref : Value → Value → M Value
  unfolding or_nil
  aref self klass = do c ← get_capture self; pure (or_nil (lookup klass c.tracked))

  -- The loop of each_object_body: the pairs that are yielded. `filter` is Qnil for all objects.
  unfoldable pub yields : Assoc Value → Value → List Entry → List (Value × Value)
  unfolding or_nil
  yields tracked filter [] = []
  yields tracked filter (e ∷ es) =
      let allocations = or_nil (lookup e.klass tracked) in
      let rest = yields tracked filter es in
      if e.object == 0
      then rest
      else if not (filter == ruby.nil) && not (allocations == filter)
      then rest
      else (e.object, allocations) ∷ rest

  unfoldable pub states_yields : Assoc Value → Value → Option Table → List (Value × Value)
  states_yields tracked filter none = []
  states_yields tracked filter (some t) = yields tracked filter t.entries

  unfoldable pub each_filtered : Capture → Value → Option Value → List (Value × Value)
  unfolding states_yields
  each_filtered c klass none = []
  each_filtered c klass (some allocations) = states_yields c.tracked allocations c.states

  -- What each_object yields: nothing for a class that is not tracked.
  unfoldable pub each_object :
      (Value → Value → EventType → Value → M Value)
      → (ℕ → Chance)
      → (made : Bool) → (fuel : ℕ) → Value
      → Value
      → M (List (Value × Value))
  unfolding each_filtered
  each_object call chance made fuel self klass = do
    process_all call chance made fuel
    c ← get_capture self
    pure (
        if klass == ruby.nil
        then states_yields c.tracked ruby.nil c.states
        else each_filtered c klass (lookup klass c.tracked))
