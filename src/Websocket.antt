-- ===== src/Websocket.antt =====
-- The websocket server, reactor+websocket/reactor_singlecb_c1000k.c.
pub mod Fields
pub mod Handshake
pub mod Frame
pub mod Callbacks
pub mod Main
pub mod Keeps
pub mod Invariant
pub mod Unmask
pub mod Looping
pub mod Reuse
mod Tests
