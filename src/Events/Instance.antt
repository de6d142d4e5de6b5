-- ===== src/Events/Instance.antt =====
-- events.c: the global instance of the events, which is made when it is first asked for.
use memory_tracker.Base.{
  ℕ, suc, ◌≡◌, refl, inl, inr, Bool, Bool-cases, if◌then◌else◌, true, false, Option, none, some,
  List, [], ◌∷◌, ◌++◌, map, replicate,
}
use memory_tracker.Value.{Value}
use memory_tracker.Events
use memory_tracker.Events.{Events, EventType, enqueue}

-- Memory_Profiler_Events_instance: the static variable afterwards. `registers` is whether Ruby
-- registers the postponed job; where it does not, the call raises, and `none` stays.
unfoldable pub instance_of : Bool → Option Events → Option Events
instance_of registers (some e) = some e
instance_of true none = some Events.new
instance_of false none = none

-- What a function of events.c does to the events that it asks for, and what it answers.
abbrev pub Use : Type 0
Use = Events → Bool × Events

-- Memory_Profiler_Events_enqueue, on its instance.
unfoldable pub enqueue_use : Bool → EventType → Value → Value → Value → Use
enqueue_use fits type capture klass object e = elim (enqueue fits type capture klass object e) [
  | none ↦ (false, e)
  | some e' ↦ (true, e')
]

-- A call of such a function: its answer, or `none` where it raises.
unfoldable pub used : Use → Option Events → Option Bool × Option Events
used f none = (none, none)
used f (some e) = let (answer, e') = f e in (some answer, some e')

pub record Request : Type 0 where
  pub registers : Bool
  pub use_events : Use

unfoldable pub lazily : List Request → Option Events → List (Option Bool) × Option Events
unfolding used instance_of
lazily [] g = ([], g)
lazily (r ∷ rs) g =
    let (answer, g') = used r.use_events (instance_of r.registers g) in
    let (answers, last) = lazily rs g' in (answer ∷ answers, last)

-- The specification: the same calls on events that are there from the start.
abbrev pub eagerly : List Request → Events → List Bool × Events
eagerly [] e = ([], e)
eagerly (r ∷ rs) e =
    let (answer, e') = r.use_events e in
    let (answers, last) = eagerly rs e' in (answer ∷ answers, last)

-- The calls before the first whose job is registered, and that call with all after it.
abbrev pub refused : List Request → ℕ
refused [] = 0
refused (r ∷ rs) = if r.registers then 0 else suc (refused rs)

abbrev pub served : List Request → List Request
served [] = []
served (r ∷ rs) = if r.registers then r ∷ rs else served rs

abbrev pub made_of : List Request → Option Events
made_of [] = none
made_of (r ∷ rs) = some (eagerly (r ∷ rs) Events.new).1

lazily-some :
    (rs : List Request) (e : Events)
    → lazily rs (some e) ≡ (map some (eagerly rs e).0, some (eagerly rs e).1)
unfolding lazily
lazily-some [] e = refl
lazily-some (r ∷ rs) e = rw (lazily-some rs (r.use_events e).1) refl

-- Any sequence of calls of functions on the events, each with its instance, which is made at the
-- first call for which Ruby registers the postponed job: the calls before that one raise and leave
-- no instance, and that one and all after it, whatever Ruby would answer then, give the answers and
-- leave the events that they would on new events that are there from the start.
pub lazily-eagerly :
    (rs : List Request)
    → lazily rs none ≡ (
      replicate (refused rs) none ++ map some (eagerly (served rs) Events.new).0,
      made_of (served rs),
    )
unfolding lazily
lazily-eagerly [] = refl
lazily-eagerly (r ∷ rs) = elim (Bool-cases r.registers) [
  | inl y ↦ rw y (rw (lazily-some rs (r.use_events Events.new).1) refl)
  | inr n ↦ rw n (rw (lazily-eagerly rs) refl)
]
