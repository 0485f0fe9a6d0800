-- ===== src/Reader/Running.antt =====
-- src/recovery_runtime.rs: the reader task of a recoverable connection (spawn_recovery_reader, fail).
--
-- `describe` is the text of an error, which failures hold. Logs are left out. `accept_frame` delivers to
-- the connection of `receiver`; its other fields of the transport are those of `link`.
use adaptivemsg_rust.Base.{
  ℕ, ◌+◌, String, List, [], ◌∷◌, Option, some, none, Bool, true, false, ◌==◌, ◌&&◌, not,
  if◌then◌else◌, length,
}
use adaptivemsg_rust.Error.{
  Error, Result, ok, err, panicked, invalid_message, unsupported_frame_version, frame_too_large,
}
use adaptivemsg_rust.Recovery.{RecoveryState}
use adaptivemsg_rust.RecoveryProtocol.{control_stream_id}
use adaptivemsg_rust.Debug.{ConnectionDebugCounters, note_frame_read, note_failure, fetch_add}
use adaptivemsg_rust.Connection.{Connection, accept_frame, mark_closed, start_close_by_peer}
use adaptivemsg_rust.Plain.{InboundFrame}
use adaptivemsg_rust.Transport.{Link, shut, detach_transport}
use adaptivemsg_rust.Reader.{Receiver, handle_recovery_data_frame, handle_control_frame}

abbrev pub failure_recovery_data : String
failure_recovery_data = "recovery.data"

abbrev pub failure_recovery_control : String
failure_recovery_control = "recovery.control"

abbrev pub failure_recovery_read : String
failure_recovery_read = "recovery.read"

pub record RecoveryReader : Type 0 where
  pub receiver : Receiver Connection
  pub link : Link
  pub debug : ConnectionDebugCounters

-- The loop goes on with the last received number, waits for the streams to finish after the peer's CLOSE,
-- or has ended.
pub data Turn : Type 0 where
  goes_on : ℕ → Turn
  finishing ended aborted : Turn

unfoldable pub close_now : RecoveryReader → RecoveryReader
unfolding shut
close_now s = record s {
  receiver = record (s.receiver) { streams = mark_closed s.receiver.streams };
  link = shut s.link;
}

-- `close_by_peer` up to its wait: what follows is the turn `finishing`.
unfoldable pub peer_closes : RecoveryReader → RecoveryReader × Turn
unfolding close_now
peer_closes s =
    let streams = start_close_by_peer s.receiver.streams in
    if s.link.closing then (close_now s, ended) else (
      record s {
        receiver = record (s.receiver) { streams = streams };
        link = record (s.link) { closing = true };
      },
      finishing,
    )

abbrev pub with_frame_read : RecoveryReader → ℕ → ℕ → RecoveryReader
with_frame_read s stream_id wire_bytes = record s {
  debug = note_frame_read s.debug stream_id wire_bytes;
}

-- A failure is with_failure without its time.
abbrev pub with_failure : RecoveryReader → String → String → RecoveryReader
with_failure s code reason = record s { debug = note_failure s.debug code reason 0 }

unfoldable pub fail : RecoveryReader → String → String → RecoveryReader
unfolding close_now
fail s code reason = close_now (with_failure s code reason)

-- What `detach_transport` counts.
abbrev pub count_detach : Link → ℕ → ConnectionDebugCounters → ConnectionDebugCounters
count_detach l gen d =
    if not l.closed && l.transport_gen == gen
    then record d { transport_detaches = fetch_add d.transport_detaches 1 }
    else d

abbrev with_recovery : Receiver Connection → Option RecoveryState → Receiver Connection
with_recovery r none = r
with_recovery r (some state) = record r { recovery_state = state }

unfoldable pub reader_detaches : RecoveryReader → ℕ → RecoveryReader
unfolding detach_transport
reader_detaches s gen =
    let (l, state) = detach_transport s.link (some s.receiver.recovery_state) gen false in
    record s {
      receiver = with_recovery s.receiver state;
      link = l;
      debug = count_detach s.link gen s.debug;
    }

-- The errors of a malformed frame.
unfoldable pub is_malformed : Error → Bool
is_malformed (invalid_message text) = true
is_malformed (unsupported_frame_version version) = true
is_malformed (frame_too_large size) = true
is_malformed e = false

-- `accept_frame`, as the handling of a data frame calls it.
abbrev pub into_connection : ℕ → ℕ → List ℕ → Connection → Result (Unit {0}) × Connection
into_connection stream_id flags payload c =
    let (c', accepted) = accept_frame c stream_id flags payload in (accepted, c')

module _ (describe : Error → String) where
  abbrev pub after_control :
      RecoveryReader → ℕ → Receiver Connection × Result Bool → RecoveryReader × Turn
  after_control s last_recv_seq (r, ok false) = (record s { receiver = r }, goes_on last_recv_seq)
  after_control s last_recv_seq (r, ok true) = peer_closes (record s { receiver = r })
  after_control s last_recv_seq (r, err e) =
      (fail (record s { receiver = r }) failure_recovery_control (describe e), ended)
  after_control s last_recv_seq (r, panicked) = (record s { receiver = r }, aborted)

  abbrev pub after_data : RecoveryReader → Receiver Connection × Result ℕ → RecoveryReader × Turn
  after_data s (r, ok seq) = (record s { receiver = r }, goes_on seq)
  after_data s (r, err e) =
      (fail (record s { receiver = r }) failure_recovery_data (describe e), ended)
  after_data s (r, panicked) = (record s { receiver = r }, aborted)

  -- The read gave no frame.
  unfoldable pub read_ends : RecoveryReader → ℕ → Option Error → RecoveryReader
  unfolding fail close_now reader_detaches is_malformed
  read_ends s gen none = if s.link.closing then close_now s else reader_detaches s gen
  read_ends s gen (some e) =
      if is_malformed e
      then fail s failure_recovery_data (describe e)
      else if s.link.closing
      then close_now s
      else reader_detaches (with_failure s failure_recovery_read (describe e)) gen

  -- One turn of the loop, from what `read_frame_within` gave.
  unfoldable pub recovery_reader_turn :
      ℕ → ℕ → RecoveryReader → ℕ → Result (Option InboundFrame) → ℕ → RecoveryReader × Turn
  unfolding handle_control_frame handle_recovery_data_frame read_ends
  recovery_reader_turn gen header_len s last_recv_seq (err e) now =
      (read_ends s gen (some e), ended)
  recovery_reader_turn gen header_len s last_recv_seq panicked now = (s, aborted)
  recovery_reader_turn gen header_len s last_recv_seq (ok none) now = (read_ends s gen none, ended)
  recovery_reader_turn gen header_len s last_recv_seq (ok (some (stream_id, seq, flags, payload)))
        now =
      let s' = with_frame_read s stream_id (header_len + length payload) in
      if stream_id == control_stream_id
      then after_control s' last_recv_seq (handle_control_frame s.receiver payload)
      else after_data s' (
          handle_recovery_data_frame into_connection s.receiver last_recv_seq stream_id seq flags
            payload now)

  -- The loop, from what is read and the clock at each turn. What other tasks do before a turn is a function
  -- of the state. The wait of `close_by_peer` ends at the next turn.
  unfoldable pub recovery_reader :
      ℕ
      → ℕ
      → RecoveryReader
      → Turn
      → List ((RecoveryReader → RecoveryReader) × Result (Option InboundFrame) × ℕ)
      → RecoveryReader × Turn
  unfolding recovery_reader_turn close_now
  recovery_reader gen header_len s turn [] = (s, turn)
  recovery_reader gen header_len s (goes_on seq) ((others, read, now) ∷ turns) =
      let (s', turn) = recovery_reader_turn gen header_len (others s) seq read now in
      recovery_reader gen header_len s' turn turns
  recovery_reader gen header_len s finishing ((others, read, now) ∷ turns) =
      (close_now (others s), ended)
  recovery_reader gen header_len s ended (t ∷ turns) = (s, ended)
  recovery_reader gen header_len s aborted (t ∷ turns) = (s, aborted)
