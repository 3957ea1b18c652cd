-- ===== src/Lib.antt =====
-- A client of the Tor network behind a SOCKS proxy. It keeps a stock of circuits through relays, each
-- circuit a chain of hops over one encrypted channel; a stream of the proxy is given a circuit, cells
-- travel on it under a flow control, and the relays of a circuit are drawn from the signed list of the
-- network. This library models the parts of it that decide something and shows that they decide
-- rightly: how a circuit is paced, which circuit a stream gets and which circuits are closed, how cells
-- and handshake extensions are framed, and which relays share a path.
--
-- Congestion control, src/tor/cc.rs, is in Cc. Cc/Params has CcParams and its defaults, Cc/Parse the
-- parsing of the consensus line, Cc/Vegas the sender (new, can_send, on_send, on_sendme, update_rtt,
-- vegas_update and the formulas below them), Cc/Deliver the receiver's DeliverCounter. A u32 or u64
-- field is a natural number with the source's wrapping or saturating arithmetic written out; an instant
-- is a number of microseconds. The children of Cc/Vegas prove the frame of an update, the window, the
-- round-trip estimates, the counters and the invariant of the three. Cc/Link puts a sender, the cells
-- and SENDMEs under way and a receiver together as a relation of steps in any order.
--
-- The flow control of a circuit, FlowControl and adopt_congestion_control of src/tor/circuit.rs, is in
-- Flow: the fixed windows, whose i32 are in two's complement, or a Vegas sender with a DeliverCounter.
-- An answer to the handshake decides between them; its extension fields are encoded and decoded in
-- Extensions, after src/tor/ntor_v3.rs.
--
-- Relay cells, src/tor/circuit.rs, are in Relay. Relay has the hops, Relay/Seal build_relay_cell and
-- decrypt_inbound, Relay/Circuit the state under the lock with the map of streams, Relay/Handle
-- handle_cell and handle_relay, Relay/Pump the thread that calls them. A stream cipher and a running hash
-- are parameters (Crypto), which are assumed to be what counter mode and a hash are: IsCrypto. Random
-- padding and the channel's answer to a cell are parameters too. Relay/Peer is the other end, as the
-- tests of that file have it. A stream that is removed from the map is kept as released, for its reader
-- still holds it. The locks that the handling takes are held throughout, so a cell is one step.
--
-- The circuit pool, src/tor/pool.rs, is in Pool. Pool has the data and the verdict on a circuit,
-- Pool/Retire the sweep (State::retire), one pass over the stubs and one over the circuits with the branches
-- of the source, Pool/Selected the same by what the passes select, Pool/Ops the operations of impl Pool that requests and the
-- builder call, Pool/Jobs what the builder is told to do. A circuit is a shared handle and stands for
-- its circ_id; what other threads may change of it meanwhile (whether it is closed, its open streams,
-- what it delivered) is read from one value, Net, for the time the lock is held. An operation returns
-- the circuits that it closes. The loop of insert that makes room runs on fuel, the number of entries of
-- the pool, and each turn takes one away; the loop of next_jobs runs on the sum of the two shortages, and
-- each turn takes one away from one of them: Pool/Budget shows that both are enough.
--
-- The framing of cells, src/tor/cell.rs, is in Cell: Cell::new, encode, try_parse, read_from and be_u16.
-- A buffer is the list of its bytes; a reader is the list of the bytes that it will still give.
--
-- Path selection, src/tor/path.rs, is in Path. Path/Relay has what it reads of a consensus entry and of
-- the bandwidth weights (src/tor/dir/consensus.rs), Path/Constraints the relays of a path under
-- construction, Path/Draw the candidates, the weighted draw and the sample. The generator
-- (rand::below) is a parameter; where a draw is to succeed it is assumed not to fail, and where a result
-- depends on it to be below its bound, as its documentation says. A sample recurs on the number of
-- relays that are still to be drawn.
--
-- The diffs by which a consensus is brought up to date, src/tor/dir/diff.rs, are in Diff, on the items and
-- offsets of src/tor/dir/netdoc.rs in Netdoc. The SHA3 digest of a text is a parameter. The loop of apply
-- runs on fuel, the number of lines that are left of the diff, and each command takes at least one:
-- Diff/Loop shows that it is enough. Offsets into a text count characters where the source counts bytes;
-- an offset is only used to cut the text in which it was found.
--
-- The consensus, src/tor/dir/consensus.rs, and the authorities and their key certificates,
-- src/tor/dir/authority.rs, are in Consensus: Consensus/Authority has the table, Consensus/Certificates
-- the certificates, Consensus/Params the parameters and weights, Consensus/Routers the relays,
-- Consensus/Signatures the signature blocks and Consensus/Verify parse_and_verify. sha1, sha256 and the
-- operations of RSA keys are parameters of which nothing is assumed. The loops over blocks run on fuel, the
-- length of the text; each turn takes a marker off it, and Consensus/Signatures/Blocks shows for the
-- signatures that more fuel changes nothing.
--
-- A connection, TorStream of src/tor/circuit.rs, is in Stream: the bytes that are kept for another attempt,
-- a turn of read and of write, send_stream_data, read_stream and release_backpressure. What opens a
-- connection elsewhere and what sends a cell are left to the steps. A wait on the condition variable is a
-- list of what the stream is after each wake. Stream/Tracked has what a turn does to the kept bytes.
-- Stream/Calm has the steps of a connection that finishes each write, from its send to its record, and each
-- move, from its decision to its last send, before the next write or move: each send, record and resend is
-- a step of its own, and a resend may fail. Stream/Halves has the steps of its two halves, where the two
-- parts of reattach, under different locks, are separate steps.
--
-- The directories of an onion service, src/tor/hs/hsdir.rs with the time periods of src/tor/hs/blind.rs, are
-- in Hs: the hash is a parameter, and each replica's loop runs on the number of nodes of the ring, as in the
-- source. Its addresses, src/tor/hs/address.rs, are in Hs/Address with classify of src/socks5.rs. A slice of
-- a name counts bytes of UTF-8 there, and where it would panic the result is none; sha3_256 is assumed to
-- give 32 bytes (IsDigest32).
--
-- The front end, src/socks5.rs, is in Socks: the handshake of one connection in SOCKS5 (Socks/Negotiate),
-- SOCKS4 and HTTP CONNECT (Socks/Http), and the replies (Socks/Reply). A connection is the bytes that the
-- client will still send, whose end is an early close, and the bytes it was sent; a write to it does not
-- fail, and the time limit of the socket is left out.
--
-- The guards of src/tor/client.rs are in Guards: which one is tried (next_candidate), failures, strikes and
-- demotion, and the two parts of ensure_guard, each under a lock of its own. What chooses a relay from the
-- consensus is left to the caller, and the clock is an argument.
--
-- The encodings of src/util.rs are in Encoding: hexadecimal in Encoding/Hex, base64 in Encoding/Base64, the
-- calendar in Encoding/Dates, whose i64 are signed numbers; base32 of src/crypto/base32.rs is in
-- Encoding/Base32.
--
-- Prelude has what the parts share: Boolean tests, lists measured by native numbers, saturating and
-- wrapping arithmetic, io::Result, and the operations of str that the parsers use.
--
-- Not modelled: threads, locks, waits and timers (the pump of a circuit, the pool's builder, channels),
-- everything that is a call of cryptography or of a system library, logging and the status page, and, so
-- far, the microdescriptors as documents, the descriptors of onion services, and the file of the guards and
-- the retries of src/tor/client.rs.
pub mod Prelude
pub mod Encoding
pub mod Cc
pub mod Pool
pub mod Cell
pub mod Path
pub mod Extensions
pub mod Flow
pub mod Netdoc
pub mod Diff
pub mod Consensus
pub mod Socks
pub mod Relay
pub mod Stream
pub mod Hs
pub mod Guards
