-- ===== src/Lib.antt =====
-- Emersia streams a desktop to paired devices. The host's daemon keeps a store of paired devices,
-- runs a handshake with each device over UDP, and sends encrypted records whose payloads are the
-- fragments of video frames. A control socket starts and stops the stream, pairs devices and revokes
-- them. This library models the daemon's security and transport core, its control plane and its
-- bitstream parser, under host/crates/emersia-daemon/src, with the control protocol of
-- host/crates/emersia-protocol/src, and proves what makes them correct.
--
-- How the parts interact: a datagram reaches `HostEndpoint::pump`, which hands it to
-- `handle_packet`. An `init` goes, if the authoriser trusts the device, to the handshake's server,
-- which derives a session with the key schedule of crypto.rs and leaves it pending; a confirmation
-- turns a pending handshake into a peer; a data packet is opened with the peer's session and replay
-- window. In the other direction a frame is cut into chunks, each built into a record, sealed into a
-- packet, opened by the device and put together again. The authoriser stands for the pairing store's
-- view of its devices. A line on the control socket is decoded to a request, which `Service::handle`
-- answers from the service's state and the pairing store; the engine's turn of the transport reads
-- from the service the ids of revoked devices, disconnects them, and asks the store at each decision
-- whether a device is trusted. The encoder's output goes through `AnnexBParser` into access units.
--
-- Crypto (crypto.rs): Primitives are the cryptographic libraries, as a record of functions with the
-- laws that they document (`IsLawful`). Aad is `build_aad` and `parse_aad`; Session the keys,
-- `transcript`, `agree` and the key derivations; Seal is `seal` and `open` (here `open_sealed`); Code
-- the pairing codes.
-- Pairing (pairing.rs): `PairingDb` with the file it saves to; Pairing/Redeem is what `accept_code`
-- comes to, Pairing/Guesses how often a code can be tried, Pairing/Revoke what revoking does.
-- Transport/Types, Record, Replay, Reassembly, Packet (transport/mod.rs): the record format,
-- `ReplayWindow`, `payload_chunks` with `Reassembler`, and `seal_packet` with `open_packet`.
-- Replay/Ideal is the abstract view of the window, a history of numbers that do not wrap.
-- Transport/Handshake (transport/handshake.rs): the three messages, from both sides.
-- Transport/Host (transport/udp.rs): `HostEndpoint`; Host/Steps lists what a datagram can do,
-- Host/Pump is the loop that reads datagrams, Host/Send is `send_frame`. Transport/Client is the
-- device's `ClientEndpoint`.
-- Frame (frame.rs): the output transforms that `untransform` undoes, in Frame/Upright against turns
-- and mirrors of a place, and in Frame/Decode the decoding of shared memory. Capture (capture/mod.rs): the choices of a back end, an output and a format.
-- Encoder (encoder.rs): the choice of an encoder, and in Encoder/Tail what is kept of its stderr.
-- Codec (codec.rs): the units with what they are asked for, StartCodes and BitReader; Codec/Parser is
-- `AnnexBParser`, Parser/Take how a unit is cut out of the buffer, Parser/Rounds the loop of `push`,
-- Parser/Chunks how it takes its input in pieces, Parser/Units where access units begin, Parser/Bytes
-- which bytes go where.
-- Protocol (emersia-protocol's lib.rs): requests, replies and their lines.
-- Service (service.rs): the state `Inner` and `Service`; Service/Handle has the requests, and
-- Service/Engine the engine's turn of the transport; Engine/Revoked follows a revocation through it,
-- Engine/Restored a pairing after a revocation.
-- Control (control.rs): the lines of a connection and the replies, and in Control/Slots the connection
-- slots with their counter.
-- Base holds what all share: tests on numbers, results, lists, words and association lists. Tests
-- runs the theorems at concrete inputs, on a cipher of the right shapes in Tests/Toy.
--
-- Conventions: a byte string is a list of numbers, and so is a text (its code points). Machine words
-- are numbers with their wrap-around written out. State is passed in and returned; fallible code
-- returns a `Result` of its error type; a panic is an outcome of its own (`panics`, or an outer
-- `none`). Time, random bytes, the socket, the file system and serde are arguments. Hash maps are
-- association lists in which an insertion replaces the old entry. The loop that draws a digit of a
-- pairing code runs along the list of bytes that the random source will give, and the loop of `pump`
-- along its limit of datagrams, so that neither needs fuel; the cutting into chunks has the
-- payload's length as fuel, and each round takes at least one byte. The loops of `AnnexBParser` and of a
-- connection have the number of bytes and one more as fuel, since each round takes a byte at least;
-- Parser/Take and Parser/Rounds show that more rounds change nothing.
--
-- Not modelled: `HostIdentity` with its key file, the encoder's ffmpeg process with its threads and
-- queues, the Wayland objects of the capture back ends, the part of `run_engine` that captures and
-- encodes, the binding of the control socket, the receiver and the command line. The timings that the
-- service reports are left out, since they are floating point. What a message quotes of another
-- error, and what is only printed, is left out.

pub mod Base
pub mod Capture
pub mod Codec
pub mod Control
pub mod Crypto
pub mod Encoder
pub mod Frame
pub mod Pairing
pub mod Protocol
pub mod Service
pub mod Tests
pub mod Transport
