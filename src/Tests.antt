-- ===== src/Tests.antt =====
-- Concrete runs of the theorems.
mod Samples
mod Tables
mod Queues
mod Worlds
mod Runs
mod Methods
mod Sessions
mod Captures
mod Blocks
mod Texts
mod Nested
mod Overflow
mod Blocked
