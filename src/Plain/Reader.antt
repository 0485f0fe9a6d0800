-- ===== src/Plain/Reader.antt =====
-- src/connection.rs: the reader task of a connection without recovery (spawn_plain_reader).
--
-- `describe` is the text of an error, which failures hold. `others` is what other tasks do to the connection
-- while `close_by_peer` waits for the streams to finish.
use adaptivemsg_rust.Base.{
  ℕ, zero, suc, ◌+◌, String, List, Option, some, none, Bool, true, false, length,
}
use adaptivemsg_rust.Error.{Error, Result, ok, err, panicked}
use adaptivemsg_rust.Streaming.{Io}
use adaptivemsg_rust.Debug.{ConnectionDebugCounters, note_frame_read, note_failure}
use adaptivemsg_rust.Connection.{Connection, accept_frame, mark_closed, close_by_peer}
use adaptivemsg_rust.Plain.{ConnConfig, read_frame}

abbrev pub failure_connection_reader : String
failure_connection_reader = "connection.reader"

abbrev pub failure_connection_reader_enqueue : String
failure_connection_reader_enqueue = "connection.reader_enqueue"

module _ (io : Io) (read : ℕ → io.Reader → Result (List ℕ) × io.Reader) (describe : Error → String)
    (others : Connection → Connection) where
  -- The reader task's connection and transport.
  pub record PlainReader : Type 0 where
    pub connection : Connection
    pub debug : ConnectionDebugCounters
    pub reader : io.Reader

  -- A failure that ends the reader.
  abbrev pub reader_fails : PlainReader → String → String → PlainReader
  reader_fails s code reason = record s {
    connection = mark_closed s.connection;
    debug = note_failure s.debug code reason 0;
  }

  abbrev pub accepted : PlainReader → Connection × Result (Unit {0}) → PlainReader × Bool
  accepted s (c, ok u) = (record s { connection = c }, true)
  accepted s (c, err e) = (
    reader_fails (record s { connection = c }) failure_connection_reader_enqueue (describe e),
    false,
  )
  accepted s (c, panicked) = (record s { connection = c }, false)

  -- One turn of the reader's loop: whether it goes on.
  unfoldable pub plain_reader_turn : ConnConfig → PlainReader → Option (PlainReader × Bool)
  unfolding read_frame
  plain_reader_turn config s = elim (read_frame io read config s.reader) [
    | none ↦ none
    | some (err e, r) ↦
        some (reader_fails (record s { reader = r }) failure_connection_reader (describe e), false)
    | some (panicked, r) ↦ some (record s { reader = r }, false)
    | some (ok none, r) ↦
        some (record s { connection = close_by_peer others s.connection; reader = r }, false)
    | some (ok (some (stream_id, seq, flags, payload)), r) ↦ some (
        accepted
          (record s {
            reader = r;
            debug = note_frame_read s.debug stream_id (config.header_len + length payload);
          })
          (accept_frame s.connection stream_id flags payload))
  ]

  -- The loop, for a number of turns: whether it still runs.
  abbrev pub plain_reader : ConnConfig → ℕ → PlainReader → Option (PlainReader × Bool)
  plain_reader config zero s = some (s, true)
  plain_reader config (suc turns) s = elim (plain_reader_turn config s) [
    | none ↦ none
    | some (s', false) ↦ some (s', false)
    | some (s', true) ↦ plain_reader config turns s'
  ]
