-- ===== src/Frames.antt =====
-- rust/crates/h2ts-client/src/frames.rs: the HTTP/2 frame model and its codec.
pub mod Types
pub mod Encode
pub mod Parse
pub mod Decoder
pub mod Totality
pub mod Rounds
pub mod Chunks
pub mod SettingsRoundTrip
pub mod RoundTrip
pub mod Wire
mod Runs
