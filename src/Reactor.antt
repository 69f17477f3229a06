-- ===== src/Reactor.antt =====
-- The reactor that the two servers share: the event cells, their table, and the loop.
pub mod Event
pub mod Table
pub mod Loop
pub mod Address
pub mod Growth
pub mod Cells
pub mod Registration
pub mod Quiet
pub mod Invariant
pub mod Turns
pub mod Start
mod Tests
