-- ===== src/Connection.antt =====
-- rust/crates/h2ts-client/src/connection.rs: the client's connection.
pub mod Head
pub mod SendHeaders
pub mod Receive
pub mod Settings
pub mod Pump
pub mod State
pub mod Streams
pub mod Control
pub mod Blocks
pub mod Dispatch
pub mod Client
pub mod Live
pub mod Invariant
pub mod Drive
pub mod Credit
mod Runs
