-- ===== src/Http.antt =====
-- The HTTP server, reactor+http/reactor_singlecb_http_c1000k.c.
pub mod Request
pub mod Response
pub mod Callbacks
pub mod Main
pub mod Keeps
pub mod Answer
pub mod Invariant
pub mod Readline
pub mod Parsing
pub mod Sizes
pub mod Overflow
mod Tests
