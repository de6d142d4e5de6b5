-- ===== src/Tests/Texts.antt =====
-- The address of an object as text.
use memory_tracker.Base.{◌≡◌, ◌≤◌, ◌<◌, ◌^◌, some, arith, length}
use memory_tracker.Profiler.{address_of, read_address, read_address-address_of}

abbrev large_address : 140737488355328 < 2 ^ 64
large_address = omega arith

read_address-address_of_example :
    (read_address (address_of 140737488355328) ≡ some 140737488355328)
    × (length (address_of 140737488355328) ≤ 18)
read_address-address_of_example = read_address-address_of 140737488355328 large_address
