-- ===== src/Lib.antt =====
-- A verification library for h2ts: its HTTP/2 client, in rust/crates/h2ts-client/src, and its
-- server, in rust/crates/h2ts-server/src: the WebSocket handshake, the bridge between a WebSocket
-- and a byte stream, the idle timeout, and the proxy. Paths are below the first unless they are
-- written out.
--
-- The client takes the bytes of a transport to frames (frames.rs over bytes.rs), the fragments of
-- header blocks to headers (hpack/), and what a caller asks for back to frames. An error of any
-- part is an `H2Error` (errors.rs), for which the connection is ended with a GOAWAY. The windows
-- of flow.rs hold back what is sent; a response body gives back to the peer's windows what was
-- read.
--
-- The files:
--   Common: the names that all files share, lists and Boolean tests over the native numbers,
--     integers, texts as lists of bytes, and facts that hold below a bound by a check of each
--     case.
--   Errors: errors.rs. `Outcome` is `Result<_, H2Error>` with a third case, `panic`, which stands
--     for an index out of bounds and for a loop of the model that runs out of fuel.
--   Outcomes: what holds of a success, with no panic.
--   Bytes: bytes.rs. A `ByteReader` is the list of the bytes that remain; a `ByteWriter` call is
--     the list of the bytes that it appends.
--   Frames: frames.rs. Types has the frames, Encode `encode_body` and `serialize_frame`, Parse
--     the arms of `parse_payload`, Decoder the `FrameDecoder`, whose `push` is a loop of rounds
--     that each take one frame. Proofs: SettingsRoundTrip, RoundTrip, Totality, Rounds, Chunks,
--     Wire.
--   Hpack: hpack/. Integer, Strings, StaticTable, Decoder and Encoder are the parts of
--     hpack/mod.rs and hpack/static_table.rs; Huffman is hpack/huffman.rs, with the codes of
--     hpack/huffman_table.rs in Huffman/Codes; Utf8 is `String::from_utf8_lossy`, which bytes.rs
--     calls, after its documentation. Proofs: IntegerRoundTrip, StringRoundTrip, StringSize,
--     Lookup, RoundTrip, Table, Totality.
--   Flow: flow.rs. Each operation of `SendWindow` is a function on it, and a waker is the number
--     of the task that it wakes. Proofs: Waiters.
--   Connection: connection.rs, in these parts.
--     SendHeaders is `ConnState::send_headers`, whose answer is the list of the frames to send.
--     Receive is `RecvState` with the methods of `StreamState` and `ResponseBody` on it, and in
--       Receive/Collect `Response::bytes`.
--     Pump is `pump_chunk`, one round of its loop at a time.
--     Settings is `apply_remote_settings`.
--     Head is `collect_headers` and `build_request_headers`.
--     State is `ConnState` and `StreamState` with the small methods; Streams the other methods of
--       `StreamState`; Control the ends of streams and of the connection; Dispatch `dispatch`,
--       one function for each frame, and `on_bytes`; Client what the handles `H2Connection` and
--       `ResponseBody` do, and `connect`; Drive the loops of `drive`, and the connection as a
--       relation of steps.
--     Proofs: SendHeaders, Receive/Accounts, Receive/Whole, Pump/Bounds, Pump/Upload, Pump/Waits,
--       Settings/Limits, Head/Fields, Head/Request, Live and Invariant (the invariant and each
--       operation that keeps it), Drive/Reach, Drive/Slots, Credit.
--   Pool: pool.rs. A connection is a handle, whose state may change in any way between two steps;
--     `route` is a round of the loop of `H2Pool::request` up to its next await, `land` the part of
--     `open_one` behind the factory. Proofs: Reach, Routing, Stalls.
--   Handshake: rust/crates/h2ts-server/src/handshake.rs. A request is the values of the headers
--     that are read; `Crates` holds what the code relies on of the crates `http`, `sha1` and
--     `base64`, of which no theorem assumes anything. Proofs: Answers, Statuses.
--   Bridge: rust/crates/h2ts-server/src/wslay.rs. What the code calls of the C library is the
--     parameter `Wslay`, over an unknown context; a call into it is a tree of the callbacks that
--     it makes, which depends on what it is answered, and no theorem assumes anything of it. The
--     file itself has the callbacks on `Shared`; Config the configuration and the reasons for an
--     end; Session the state of `bridge_with`; Directions what each of its four directions does
--     between two awaits; Steps the directions side by side. A write to the socket waits in a
--     queue, since the lock around it is fair. View and Plain describe the same calls without
--     buffers. The text of a Close's reason is a parameter of it. Proofs: View, Forwarding, Reading,
--     Receiving, Sections, Running, Delivery, Closing, Ending.
--   Proxy: rust/crates/h2ts-server/src/bin/h2ts-proxy.rs. The command line, the answer to a
--     request, which is the handshake's, and the configuration of the bridge. Proofs: Arguments,
--     Guard.
--   Idle: rust/crates/h2ts-server/src/idle.rs and `serve_h2_with_config` of the same crate's
--     lib.rs. The watch channel is its value and the number of its version; the time of its last
--     change stands for its history. Proofs: Window.
--   Web: web.rs. The callbacks of the browser's socket, for its events in any order. The channel of
--     the `futures` crate that they send on is a parameter. Proofs: Events.
--   Runs in each of these holds tests and the theorems at concrete inputs.
--
-- Numbers. A byte is a number, below 256 where a theorem needs it; a mask of low bits is written
-- as a remainder. A u32 field of a frame is a number, and its bound is a condition of the round
-- trips. `usize` has a width that is a parameter of the HPACK integers, 64 or 32 bits, with the
-- shifts and sums of a release build, which wrap. The `i64` of a window is an integer without
-- bounds.
--
-- Shared cells. What a stream shares with the handles of its caller (`Rc<RefCell<..>>` and the
-- channel of the head) is a store of cells by stream number, so that a handle reads its cell after
-- the stream has left the map. A channel that a task waits on is a list of the tickets that were
-- given out, and what was sent on it a list of answers. A task that waits is a step that has not
-- come yet: every order of steps is a run. A time is a whole number of milliseconds. The maps of
-- streams and pings are association lists; the order in which a `HashMap` is drained does not
-- show in the state of any one stream or ping. A new stream is entered over an old one of the same
-- number, which takes 2 ^ 31 requests on a connection.
--
-- Fuel. `drain` has as much fuel as there are bytes, and each round takes nine or more;
-- `decode_loop` has as much as the block has bytes, and each round takes one or more;
-- `write_rest` writes at most ten groups of seven bits, enough for 64 bits; the CONTINUATION loop
-- has as much as the block has bytes, and each round sends one or more. The theorems show that
-- the fuel is enough.
--
-- Not modelled: what an `HpackDecoder` or the peer's settings hold behind an error, since the
-- connection ends then; `str::to_uppercase`, which is a parameter; a response or a body of which
-- every handle of the connection was dropped; a request that is dropped while it waits; the
-- printing of errors; the futures, the traits of the transports and the bindings to the browser;
-- in the server, hyper with its upgrade and its HTTP/2 connection, the tasks and listeners, and
-- the C library; the programs that test conformance.
pub mod Common
pub mod Errors
pub mod Outcomes
pub mod Pool
pub mod Bridge
pub mod Proxy
pub mod Web
pub mod Idle
pub mod Bytes
pub mod Flow
pub mod Connection
pub mod Frames
pub mod Handshake
pub mod Hpack
