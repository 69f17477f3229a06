-- ===== src/Pool.antt =====
-- The thread pool of threadpool/src3/pthreadpool2.cpp.
pub mod State
pub mod Workers
pub mod Manager
pub mod System
pub mod Ring
pub mod Count
pub mod Cases
pub mod Growing
pub mod Turns
pub mod Running
pub mod Start
mod Tests
pub mod Invariant
