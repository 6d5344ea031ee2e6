-- ===== src/Bram.antt =====
-- lsq/LoadStoreQueueBRAM.hpp: the load-store queue in front of an on-chip memory.
-- `State` holds the data and the requests, `Loads` and `Stores` the rules of the kernel loop for
-- the two queues, `Cycle` one iteration and the loop. `Program` says what the queue promises: the
-- values that the loads would get if every memory operation ran in program order. The other
-- children prove it.
pub mod State
pub mod Loads
pub mod Stores
pub mod Cycle
pub mod Program
pub mod Sizes
pub mod InOrder
pub mod Progress
mod Tests
pub mod Invariant
