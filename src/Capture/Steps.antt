-- ===== src/Capture/Steps.antt =====
-- The steps of process_newobj and process_freeobj, each on a world that has what the step reads.
use mathlib.Core.Logic.{Ne-symm}
use memory_tracker.Base.{◌≡◌, refl, ◌≢◌, ◌⊎◌, inl, inr, Bool, none, some, inc, inc32, dec32}
use memory_tracker.Value.{Value, Ruby}
use memory_tracker.Assoc.{Assoc, lookup, insert, lookup-insert_self, lookup-insert_ne}
use memory_tracker.Allocations.{Allocations}
use memory_tracker.Table.{Table}
use memory_tracker.Table.Store.{store}
use memory_tracker.World.{Capture, World, ok}
use memory_tracker.Capture.Process.{pause, resume, count_new, count_class, store_object}

-- The world with one capture, or one record of counters, given anew.
abbrev pub with_capture : Value → Capture → World → World
with_capture self c w = record w { captures = insert self c w.captures }

abbrev pub with_record : Value → Allocations → World → World
with_record a r w = record w { records = insert a r w.records }

module _ (self : Value) (c : Capture) (w : World) (here : lookup self w.captures ≡ some c) where
  pub pause_lem : pause self w ≡ ok tt (with_capture self (record c { paused = inc32 c.paused }) w)
  unfolding pause
  pause_lem = rw here

  pub resume_lem :
      resume self w ≡ ok tt (with_capture self (record c { paused = dec32 c.paused }) w)
  unfolding resume
  resume_lem = rw here

  pub count_new_lem :
      count_new self w ≡ ok tt (with_capture self (record c { new_count = inc c.new_count }) w)
  unfolding count_new
  count_new_lem = rw here

  module _ ⦃ruby : Ruby⦄ where
    pub count_class-known :
        (wrapper klass a : Value) (r : Allocations)
        → lookup klass c.tracked ≡ some a
        → lookup a w.records ≡ some r
        → count_class wrapper self klass w
          ≡ ok a (with_record a (record r { new_count = inc r.new_count }) w)
    unfolding count_class
    count_class-known wrapper klass a r h g = rw here (rw h (rw g))

    -- A class seen for the first time.
    abbrev first_counted : Value → Value → World
    first_counted wrapper klass =
        with_capture self (record c { tracked = insert klass wrapper c.tracked })
          (with_record wrapper (record { callback = ruby.nil; new_count = 1; free_count = 0 }) w)

    count_class-first :
        (wrapper klass : Value)
        → lookup klass c.tracked ≡ none
        → count_class wrapper self klass w ≡ ok wrapper (first_counted wrapper klass)
    unfolding count_class
    count_class-first wrapper klass h = rw here (rw h)

    pub store_object_lem :
        (fits : Bool) (klass object datum : Value) (t : Table)
        → c.states ≡ some t
        → store_object fits self klass object datum w
          ≡ ok tt
              (with_capture self (record c { states = some (store fits t object klass datum) }) w)
    unfolding store_object
    store_object_lem fits klass object datum t h = rw here (rw h)

    -- The counters of a class: those that it has, or new ones at the address `wrapper`.
    abbrev pub Counters : Value → Value → Value → Allocations → Type 0
    Counters wrapper klass a r =
        ((lookup klass c.tracked ≡ some a) × (lookup a w.records ≡ some r))
        ⊎ ((lookup klass c.tracked ≡ none)
            × (a ≡ wrapper)
            × (r ≡ record { callback = ruby.nil; new_count = 0; free_count = 0 }))

    -- Counting an allocation in its class.
    pub record Counted (klass a : Value) (r : Allocations) (w' : World) : Type 0 where
      pub tracked : Assoc Value
      pub capture : lookup self w'.captures ≡ some (record c { tracked = tracked })
      pub class_tracked : lookup klass tracked ≡ some a
      pub counters : lookup a w'.records ≡ some (record r { new_count = inc r.new_count })
      pub other_records : (b : Value) → b ≢ a → lookup b w'.records ≡ lookup b w.records
      pub other_captures : (x : Value) → x ≢ self → lookup x w'.captures ≡ lookup x w.captures
      pub other_classes : (k : Value) → k ≢ klass → lookup k tracked ≡ lookup k c.tracked

    pub count_class_lem :
        (wrapper klass a : Value) (r : Allocations)
        → Counters wrapper klass a r
        → (w' : World) × (count_class wrapper self klass w ≡ ok a w') × Counted klass a r w'
    unfolding inc
    count_class_lem wrapper klass a r (inl (h, g)) = (
      _,
      count_class-known wrapper klass a r h g,
      record {
        tracked = c.tracked;
        capture = here;
        class_tracked = h;
        counters = lookup-insert_self a _ w.records;
        other_records = λ b n. lookup-insert_ne a b _ w.records (Ne-symm n);
        other_captures = λ x n. refl;
        other_classes = λ k n. refl;
      },
    )
    count_class_lem wrapper klass a r (inr (h, e, f)) = (
      first_counted wrapper klass,
      rw e (count_class-first wrapper klass h),
      record {
        tracked = insert klass wrapper c.tracked;
        capture = lookup-insert_self self _ w.captures;
        class_tracked = rw e (lookup-insert_self klass wrapper c.tracked);
        counters = rw (e, f) (lookup-insert_self wrapper _ w.records);
        other_records = λ b n. lookup-insert_ne wrapper b _ w.records (rw (← e) (Ne-symm n));
        other_captures = λ x n. lookup-insert_ne self x _ w.captures (Ne-symm n);
        other_classes = λ k n. lookup-insert_ne klass k wrapper c.tracked (Ne-symm n);
      },
    )
