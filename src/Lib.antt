-- ===== src/Lib.antt =====
-- This library verifies the C extension of memory-profiler, which counts the allocations and frees
-- of Ruby objects by class and keeps a table of the live ones.
--
-- The program and how its parts interact. Ruby calls the hook of a capture (capture.c) for every
-- allocation and free. In the middle of an allocation or a collection no Ruby code may run, so the
-- hook only appends an event to a queue that all captures share (events.c, on the growing array of
-- queue.h) and asks for a postponed job. The job, and also Capture#stop and Capture#each_object, swap
-- the two queues and process the events in order: an allocation counts up its class (allocations.c),
-- calls the class's Ruby callback and stores the object with its class and the callback's answer in
-- the capture's object table (table.c); a free takes it out again. Garbage collection marks what the
-- table and the queues hold, and compaction moves it.
--
-- Which file models which part; paths are below ext/memory/profiler.
--   Table, Table/Gc      table.h, table.c: open addressing with linear probing and tombstones. The
--                        functions carry the C names without their prefix. The entries are a list,
--                        an entry pointer is an index, and a loop over the probe sequence counts
--                        down MAX_PROBE_LENGTH, which is its own bound in the source. The store of
--                        process_newobj through the entry pointer is fill, in Table/Store.
--   Queue                queue.h. The doubling loop runs on fuel, the number of cells required;
--                        Queue/Doubling shows that this is enough.
--   Events, Events/Gc    events.h, events.c, but for the processing. The global instance is a value
--                        that the steps pass on; Events/Instance has how it is made.
--   Allocations          allocations.h, allocations.c: the counters of one class.
--   World                what capture.c reads and writes: captures and counters by their VALUE, the
--                        event queue, the hooks that are registered; a step may raise an exception.
--   Capture/Process      process_newobj, process_freeobj, process_event of capture.c.
--   Capture/Dispatch     process_queue of events.c; its loop runs on fuel, the number of events that
--                        it may process; Capture/Rounds shows how much is enough.
--   Capture/Hook         event_callback and trackable_p of capture.c.
--   Capture/Control      alloc, start, stop, track, untrack and clear of capture.c.
--   Capture/Query        the methods of capture.c that only read; each and each_object give the pairs
--                        that they yield.
--   Capture/Each         each_object of capture.c with its block, which is Ruby code, and with
--                        rb_gc_disable, rb_gc_enable and rb_ensure. Its loop runs on fuel, the
--                        number of rounds; Capture/Each/Order and Capture/Session/Iteration show
--                        that one more than the capacity of the table is enough, so one more than
--                        8192 in a session of at most 4096 reported events.
--   Capture/Gc           the mark, compact and memsize callbacks of a capture. A mark is pinned
--                        (rb_gc_mark) or movable (rb_gc_mark_movable).
--   Memory               which blocks are allocated. Memory/Blocks has what table.c and capture.c
--                        allocate and free, Memory/Queues what queue.h and events.c do; the functions
--                        run the models of the tables and queues along with their blocks. An
--                        st_table counts as one block.
--                        Memory/Owns and Memory/TwoBlocks say which blocks a table, and two queues,
--                        own, and Memory/Leaks and Memory/Returned follow them until the free;
--                        Memory/Moved is about pointers to the elements of a queue;
--                        Memory/Refusals and Memory/Granted are about runs in which every request
--                        for memory is granted.
--   Profiler             address_of of profiler.c. A text is the list of its characters' codes.
--   Assoc                st_table of Ruby, as an association list.
--   Base, Value          shared helpers; VALUE as a number, with Qnil as the constant nil.
-- The invariant of the table, IsValid, is in Table/Valid: the counters are right, no object occurs
-- twice, every object is reached from its hash before an empty slot, and the table has an empty
-- slot and at most MAX_PROBE_LENGTH slots. The map that a table stands for is view, in Table/Slots,
-- which searches the whole array. A table that starts with 1024 slots and doubles stays within the
-- bound up to 8192 slots, so for at least 4096 insertions; Table/Overflow is about larger ones.
-- Capture/Balance carries that budget through the processing of events: the Account of a capture
-- has its table, the allocations and frees counted, and how many allocations may follow. What Ruby
-- code does to the rest of the world enters proofs by Keeps and Ensures of Capture/Frame: a
-- property of worlds that a step, a callback for one, keeps. Capture/Session puts the parts
-- together: the worlds reached from the start on by any sequence of reported events, runs of the
-- job, method calls and heap compactions, with at most 4096 reported events. Capture/Nested is
-- about a callback that calls a method which processes the queue, Capture/Nested/Resumed about the
-- run of the queue after that, and Capture/Nested/Endless about a callback that does so twice.
-- Capture/Order has the list of the events that wait as the specification of the event loop. The
-- list of pairs of Capture/Query is the specification of each_object with a block, in
-- Capture/Each/Order; in Capture/Session/Iteration the block goes on with the session, and may call
-- each_object itself.
--
-- Parameters. What malloc, calloc and realloc answer are Boolean arguments; in Memory they are an
-- Allocator, which answers each request with a block or with none. rb_gc_location is a function,
-- location. The Ruby code behind a callback is a function on worlds, call, which may do anything,
-- and may raise; theorems that need more of it say so. size_t wraps at 2 ^ 64 and int at 2 ^ 32.
-- The comparison with LOAD_FACTOR is written over the integers, with which the one on doubles
-- agrees below 2 ^ 52 slots. The block of each_object is a function, too, on the world and the
-- switch of garbage collection, which callbacks are taken to leave alone; a break is an exit like
-- an exception. Whether Memory_Profiler_Events_instance returns is a Boolean argument, made, of
-- start, stop, process_all and each_object: it is true once the events have been made, and else by
-- whether Ruby registers their job; where it is false, the call raises. The hook asks for the
-- events too, but is registered only by start, which has asked before. Sessions are with the events
-- made. A callback runs while events are processed, so with the events made. rb_warning, with which
-- process_queue reports an exception, is taken to do nothing, as it does unless $VERBOSE is true;
-- where that is so, it prints the exception, which may call Ruby code outside rb_protect.
--
-- Not modelled: the messages on stderr with the names of events that they print, what a write
-- through an event pointer does after its queue has been reallocated, the registration of classes
-- and methods with Ruby, and the Ruby code under lib/memory, which builds on the extension.
pub mod Base
pub mod Value
pub mod Table
pub mod Queue
pub mod Assoc
pub mod Allocations
pub mod Events
pub mod World
pub mod Capture
pub mod Memory
pub mod Profiler
pub mod Tests
