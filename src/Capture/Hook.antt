-- ===== src/Capture/Hook.antt =====
-- capture.c: the event hook, which decides what is queued.
use memory_tracker.Base.{Bool, true, false, none, some, if◌then◌else◌, ◌==◌, not}
use memory_tracker.Value.{Value, Ruby}
use memory_tracker.Events.{EventType, newobj, freeobj, enqueue}
use memory_tracker.World.{Capture, ok, M, ◌>>=◌, pure, get_capture}

-- enum ruby_value_type
pub data RubyType : Type 0 where
  t_none t_object t_class t_module t_float t_string t_regexp t_array t_hash t_struct : RubyType
  t_bignum t_file t_data t_match t_complex t_rational t_nil t_true t_false t_symbol : RubyType
  t_fixnum t_undef t_imemo t_node t_iclass t_zombie t_moved : RubyType

unfoldable pub trackable_p : RubyType → Bool
trackable_p t_object = true
trackable_p t_class = true
trackable_p t_module = true
trackable_p t_string = true
trackable_p t_array = true
trackable_p t_hash = true
trackable_p t_struct = true
trackable_p t_bignum = true
trackable_p t_float = true
trackable_p t_file = true
trackable_p t_data = true
trackable_p t_match = true
trackable_p t_complex = true
trackable_p t_rational = true
trackable_p t_regexp = true
trackable_p _ = false

unfoldable pub is_class : RubyType → Bool
is_class t_class = true
is_class _ = false

pub data EventFlag : Type 0 where
  newobj_flag freeobj_flag other_flag : EventFlag

-- What the hook reads of its trace argument: rb_tracearg_object and rb_tracearg_event_flag, and of
-- the object rb_type, rb_obj_class and the type of that class.
pub record Trace : Type 0 where
  pub flag : EventFlag
  pub object : Value
  pub object_type : RubyType
  pub klass : Value
  pub klass_type : RubyType

-- The hook ignores whether an event could be queued.
unfoldable pub send : Bool → EventType → Value → Value → Value → M (Unit {0})
send fits type self klass object w = elim (enqueue fits type self klass object w.events) [
  | none ↦ ok tt w
  | some events ↦ ok tt (record w { events = events })
]

module _ ⦃ruby : Ruby⦄ (fits : Bool) (self : Value) where
  unfoldable pub on_flag : EventFlag → Trace → Capture → M (Unit {0})
  unfolding send is_class
  on_flag newobj_flag trace c =
      if not (c.paused == 0)
      then pure tt
      else if not (is_class trace.klass_type)
      then pure tt
      else send fits newobj self trace.klass trace.object
  on_flag freeobj_flag trace c = send fits freeobj self ruby.nil trace.object
  on_flag other_flag trace c = pure tt

  unfoldable pub event_callback : Trace → M (Unit {0})
  unfolding on_flag trackable_p
  event_callback trace = do
    c ← get_capture self
    if not (trackable_p trace.object_type) then pure tt else on_flag trace.flag trace c
