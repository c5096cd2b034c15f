-- ===== src/Lib.antt =====
-- A verification library for bloop-client-framework, a client of the Bloop protocol: a connection
-- task that connects, authenticates, keeps alive and reconnects (src/client.rs, src/connection.rs,
-- src/request.rs), and a reader of NFC tags (src/nfc). A client handle sends commands to the task,
-- which owns the connection and publishes a status; the NFC reader feeds the blocks of a tag to a TLV
-- parser, and the message to a record parser, on a thread that serves the requests of a handle. An
-- audio cache downloads files through the client, and a playback plays them.
--
--   Base        the shared names, tests, lists and bit arithmetic
--   Nfc.Message `NdefMessageParser` of src/nfc/ndef.rs: `State`, `add_data`, `is_done`,
--               `has_started`. `add_data` is a round per byte, `step`, by the parser's state.
--               Tlv describes a message TLV; Feed feeds chunks until `is_done`
--   Nfc.Record  `parse_ndef_text_record` and `NdefTextRecord::text` of src/nfc/ndef.rs, a do block
--               in the order of the source, a function per part. Grammar is a parser with no
--               indices, Layout what writes a record
--   Nfc.Mfrc522 `select_target`, `check_for_release` and `read_ndef_text` of src/nfc/mfrc522.rs
--   Nfc.Backend `NfcReaderRequest` and the channel of src/nfc/mod.rs, and the loop of `serve` in
--               src/nfc/mfrc522.rs. A turn is a send, a caller or all handles going, or one round of
--               the thread: a receive, or one test of a polling loop, whose place is part of the state
--   Nfc.Reader  `NfcReader` of src/nfc/mod.rs: what a call has returned by a later time. Reading and
--               Waiting follow a call through the channel and the backend
--   Nfc.Startup `Mfrc522Config`, `init`, `run`, `spawn` and `serve_blocking` of src/nfc/mfrc522.rs
--   Tls         `create_connector` and `SkipCertificateVerification` of src/tls.rs
--   Protocol    what is used of the crate bloop_protocol, as a parameter
--   Request     `RequestError` and `decode_response` of src/request.rs
--   Outside     the trace of events and the environment
--   Connection  src/connection.rs: `connect` and its steps, `ping`, `quit`, and `Session`. Handshake
--               is what an attempt without an error has gone through, Order how far any attempt came,
--               Healthy an environment in which all goes well
--   Client      src/client.rs: `ClientTask` and its handlers, one function per handler. `run` handles
--               a list of inputs, which are the commands and the ticks in the order in which
--               `select!` takes them. Builder is `BloopClientBuilder`, Handle `BloopClient`. System is
--               the channel between handles and task, whose turns are a send, the end of the handles
--               and one round of the loop in `run`; Watch is what the status watch may do, Notices what
--               it notifies of, Call a call of a handle that goes through all of this, among other
--               turns. Recovery and Loss are the task on a network that works, and on one on which no
--               frame arrives, Install the tick that gets a connection. Moves is the interface for
--               what all handlers keep
--   AudioCache  src/audio_cache.rs: `path_for`, `ensure_inner`, `sync`, on a map of files. Every
--               operation on the file system may fail, a failed write leaves anything. Stale,
--               Complete and Again are about a file system that does not fail, Keep about any. The provider
--               is the `Session` of an on-connect hook in Hook, the handle of the client in Online, whose
--               Schedule says what happens around a call
--   Audio       src/audio.rs: the closure of `play_with`, and `PlaybackHandle`
--   Examples    concrete inputs
--
-- State is passed explicitly. A `World` is the task and the trace of what it did on the network and
-- told its users, newest event first. The environment answers each operation on the network by a
-- function of the trace so far, so that any answers are possible, and decides for each
-- `tokio::time::timeout` whether the deadline passes; then the future was cancelled at some await, and
-- any number of its last events did not happen. Panics are outcomes: an index, a slice and a product
-- of `u8` out of range panic. An `i32` is its bit pattern, below 2 ^ 32. The loops recurse on the bytes,
-- the chunks or the inputs; the loop over the quads of a tag recurses on the number of rounds left,
-- of which `total_quads` gives as many as the source's range has, so nothing runs out of fuel. The loop
-- of a playback, which ends only with the sound or the cancellation, has fuel, and an option as its
-- result; how much fuel is enough is part of its theorems.
--
-- Parameters, since they are not this repository's code: bloop_protocol, rustls, the sockets and the
-- clock, the file system, `String::from_utf8`, the chip and the hardware it is wired to, the audio
-- library. An on-connect hook is a tree of requests that depends on the answers; its typed requests are
-- raw ones whose answer the hook decodes. The methods of the client's handle stand on the channel to
-- the task as a parameter, which Client.System models on its own.
--
-- Not modelled, since they only pass a value on, call one function, or print: the accessors of the
-- capabilities, of the status and of the builder, the `Default` and `Debug` instances, logging,
-- src/lib.rs. The ticks are inputs, so that of the ping interval only a zero one matters, for which
-- `time::interval` panics; the times between the polls of the chip play no part.
pub mod Base
pub mod Nfc
pub mod Tls
pub mod Protocol
pub mod Request
pub mod Outside
pub mod Connection
pub mod Client
pub mod AudioCache
pub mod Audio
pub mod Examples
