-- ===== src/Echo.antt =====
-- The echo server, zero_threadpool/reactor/c1000k/server.c.
pub mod Table
pub mod Loop
pub mod Back
mod Tests
