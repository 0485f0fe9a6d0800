-- ===== src/Lib.antt =====
-- adaptivemsg: a message library with logical streams over one transport, and with recovery of the
-- connection when the transport is lost.
--
-- A client and a server agree on a version, a codec and a frame limit (src/protocol.rs: Protocol). With
-- version 3 the client then attaches to a connection of the server, a new one or one to resume
-- (src/recovery_protocol.rs: RecoveryProtocol; src/server.rs: Server; src/client.rs: Client). Messages go
-- as frames (src/frame.rs: Frame). The writer task of a recoverable connection numbers each frame, keeps it
-- in the replay buffer (src/replay.rs: Replay) until the peer acknowledges it, and replays what the peer
-- lacks on a new transport (src/recovery_runtime.rs: Writer and Writer.Loop, Transport, Reconnect). The
-- reader task checks the numbers, drops duplicates and hands frames to the streams (Reader; its loop is
-- Reader.Running, its heartbeat timeout Reader.Within), which are opened, fed and closed by
-- src/connection.rs and src/stream.rs (Connection, Stream). Without recovery the writer and the reader task
-- are those of src/connection.rs alone (Plain). Messages are sent, decoded, handled and refused by
-- src/stream.rs and src/connection.rs (Messages). Options and the ACK schedule are those of src/recovery.rs
-- (Recovery), and the counters those of src/debug.rs (Debug). The accept loop of the server and the end of
-- its connections are in Server.Accepting. The generator of Go code from messages is cmd/amgen/src/main.rs
-- (Amgen).
--
-- A component's state is a record with the source's fields, and an operation is a function from it to the
-- new state and the result. Errors are values of Error.Error. Byte streams are an interface (Streaming.Io),
-- and what a working transport does are its named laws (Streaming.IsWorking); byte lists instantiate both
-- (Streaming.Pipe). The codec registry is a function argument. Clock readings, the success of a write and
-- what comes from outside while a task waits are arguments. Tasks that an operation starts and calls of
-- callbacks are recorded in lists. Session puts the writer of one side and the reader of the other together
-- as a step relation, and Messages.Runs the sends, errors and closes of a stream. Loops are structural
-- recursion on the list that they read, but for the loop of read_frame over a payload: its fuel is the
-- length of the payload, and Plain.Reading shows that it is enough. Tasks that wait for ever run for a
-- number of turns.
--
-- Durations are numbers of nanoseconds, unsigned integers are natural numbers with their wrap-around
-- written out, and the replay limit is an integer, as in the source. Two counters of 64 bits
-- are taken not to run out instead: the writer's sequence numbers (next_send_seq) and the generation that a
-- detach ends. A theorem on generations in several steps states the bound.
--
-- Not modelled: the codecs and message traits (they call serialisation libraries; Messages.Library is their
-- interface), sockets and transports, the macros but for the wire name, the files and parsers of the
-- generator, and the structs of debug_state. Nor yet: contexts, register_codec, the builders of a client and
-- a server, OnceConn, close_gracefully, and the removal of a closed connection from the server's registry.
-- Queues have room for what is put in them. In Session the reader of an old transport stops before that of
-- the new one starts, and frames in flight on a lost transport are lost.
pub mod Base
mod Examples
pub mod Error
pub mod Debug
pub mod Frame
pub mod Replay
pub mod Recovery
pub mod Streaming
pub mod RecoveryProtocol
pub mod Protocol
pub mod Transport
pub mod Writer
pub mod Reader
pub mod Session
pub mod Connection
pub mod Plain
pub mod Messages
pub mod Server
pub mod Client
pub mod Reconnect
pub mod Stream
pub mod Amgen
