-- ===== src/Value.antt =====
-- VALUE, the tagged machine word of Ruby's C interface (ruby.h, not part of this repository),
-- and the special constant Qnil. Zero is not a reference: the table uses it for an empty slot.
use memory_tracker.Base.{ℕ, ◌<◌}

abbrev pub Value : Type 0
Value = ℕ

-- What the code relies on: Qnil is a constant other than zero.
pub record Ruby : Type 0 where
  pub nil : Value
  pub nil_pos : 0 < nil
