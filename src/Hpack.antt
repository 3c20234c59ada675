-- ===== src/Hpack.antt =====
-- rust/crates/h2ts-client/src/hpack: header compression.
pub mod StaticTable
pub mod Huffman
pub mod Integer
pub mod IntegerRoundTrip
pub mod Utf8
pub mod Strings
pub mod Decoder
pub mod Encoder
pub mod StringRoundTrip
pub mod StringSize
pub mod Lookup
pub mod RoundTrip
pub mod Table
pub mod Totality
mod Runs
