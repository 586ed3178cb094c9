-- ===== src/Deque/Slots.antt =====
-- What the slots of the deque hold: below the tail they belong to thieves, from it on to the owner.
mod Defs
mod Owned
mod Stolen
pub use Defs.*
pub use Owned.*
pub use Stolen.*
