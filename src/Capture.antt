-- ===== src/Capture.antt =====
-- ext/memory/profiler/capture.c. The children follow the file: the processing of one event, the event
-- hook, and the methods of Memory::Profiler::Capture. Dispatch is the event loop of events.c.
pub mod Process
pub mod Steps
pub mod Frame
pub mod Keeping
pub mod Newobj
pub mod Freeobj
pub mod Filter
pub mod Exception
pub mod Iteration
pub mod Hook
pub mod Dispatch
pub mod Finishes
pub mod Rounds
pub mod Order
pub mod Nested
pub mod Lifetime
pub mod Delivery
pub mod Balance
pub mod Gc
pub mod Control
pub mod Clearing
pub mod Running
pub mod Shutdown
pub mod Tracking
pub mod Query
pub mod Each
pub mod Session
