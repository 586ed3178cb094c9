-- ===== src/Deque.antt =====
-- The split deque of one worker (src/lace.h): its owner and any number of thieves.
pub mod State
pub mod Steal
pub mod Owner
pub mod Interleaving
mod Slots
mod Invariant
pub mod Safety
pub mod Progress
pub mod GetHead
pub mod Dropping
pub mod Value
pub mod Void
pub mod Params
pub mod Frame
mod HeadTests
mod Tests
