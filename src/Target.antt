-- ===== src/Target.antt =====
-- The server that an embedded target runs, the other end of the connection: targetApp.
pub mod Socket
pub mod Msg
pub mod Listener
pub mod App
pub mod Exchange
mod Tests
