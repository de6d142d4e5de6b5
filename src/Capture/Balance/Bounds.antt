-- ===== src/Capture/Balance/Bounds.antt =====
-- What the account of a capture means for its queries.
use memory_tracker.Base.{ℕ, ◌+◌, ◌≤◌, ◌≡◌, arith}
use memory_tracker.Value.{Ruby}
use memory_tracker.Table.{size}
use memory_tracker.World.{Capture}
use memory_tracker.Capture.Query.{retained_count, object_table_size}
use memory_tracker.Capture.Balance.{Account}

module _ ⦃ruby : Ruby⦄ where
  -- In a capture in balance the size of the table is at most what retained_count answers, which
  -- with the frees counted makes up the allocations counted, and those are at most 4096.
  pub size-retained_count :
      (reserve room left : ℕ) (c : Capture)
      → Account reserve room left c
      → (object_table_size c.states + reserve ≤ retained_count c)
        × (retained_count c + c.free_count ≡ c.new_count)
        × (c.new_count ≤ 4096)
  unfolding object_table_size retained_count size
  size-retained_count reserve room left c h = ground (arith, h.holds, h.balance, h.budget)
