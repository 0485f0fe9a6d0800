-- ===== src/Session/Delivery.antt =====
-- One direction of a recoverable connection: the writer task of one side and the reader task of the other,
-- over transports that come and go. src/recovery_runtime.rs and src/replay.rs are what runs.
--
-- The reader hands each data frame to `accept_frame`; here `accept` puts it at the end of a list. The reader
-- of an old transport stops before that of a new one starts: frames in flight on it are lost. Frames are
-- queued for streams alone: the connection gives out no stream with the ID of the control stream.
use adaptivemsg_rust.Base.{false, ℕ, ◌≡◌, ◌≢◌, ◌≤◌, List, none, [], ◌∷◌, ◌++◌, Bool, true, All}
use adaptivemsg_rust.Error.{Result, ok, err, panicked}
use adaptivemsg_rust.Replay.{FrameRecord}
use adaptivemsg_rust.Recovery.{ack_received}
use adaptivemsg_rust.RecoveryProtocol.{build_ping_control_payload, control_stream_id}
use adaptivemsg_rust.Transport.{WriterCommand}
use adaptivemsg_rust.Writer.{
  write_live, write, control_frame, Writer, WireFrame, OutboundFrame, apply, write_next,
  detach_writer,
}
use adaptivemsg_rust.Reader.{Receiver, handle_recovery_data_frame}
use adaptivemsg_rust.Writer.Loop.{stage_detached}
use adaptivemsg_rust.Session.Live.{IsData}
use adaptivemsg_rust.Session.Staging.{grow}

-- A frame as `accept_frame` gets it: its stream, flags and payload.
abbrev pub Arrived : Type 0
Arrived = ℕ × ℕ × List ℕ

abbrev pub accept : ℕ → ℕ → List ℕ → List Arrived → Result (Unit {0}) × List Arrived
accept stream_id flags payload l = (ok tt, l ++ (stream_id, flags, payload) ∷ [])

abbrev pub content : WireFrame → Arrived
content f = (f.stream_id, f.flags, f.payload)

-- The writer, the receiver of the other side with the number its reader received last, and all frames that
-- the writer kept for sending so far.
pub record Session : Type 0 where
  pub writer : Writer
  pub receiver : Receiver (List Arrived)
  pub last_recv_seq : ℕ
  pub history : List FrameRecord

abbrev pub received_last : ℕ → Result ℕ → ℕ
received_last last_recv_seq (ok seq) = seq
received_last last_recv_seq (err e) = last_recv_seq
received_last last_recv_seq panicked = last_recv_seq

-- The reader takes the first frame that is on the way.
abbrev pub read_data : Session → WireFrame → List WireFrame → ℕ → Session × Result ℕ
read_data s f rest now =
    let (receiver, r) =
      handle_recovery_data_frame accept s.receiver s.last_recv_seq f.stream_id f.seq f.flags
        f.payload now in
    (
      record s {
        writer = record (s.writer) { wire = rest };
        receiver = receiver;
        last_recv_seq = received_last s.last_recv_seq r;
      },
      r,
    )

abbrev pub after_write : Session → Writer → Session
after_write s w = record s { writer = w; history = grow s.writer w s.history }

pub data Step : Session → Session → Type 0 where
  queues :
      {s : Session} (queue : List OutboundFrame)
      → All IsData queue
      → Step s (record s { writer = record (s.writer) { outbound_rx = queue } })
  writes :
      {s : Session} (now now' : ℕ) (io_ok shutdown_ok : Bool)
      → s.writer.attached ≡ true
      → Step s (after_write s (write_next s.writer now now' io_ok shutdown_ok).0)
  fails : {s : Session} → Step s (record s { writer = detach_writer s.writer })
  stages :
      {s : Session} (frame : OutboundFrame) (rest : List OutboundFrame) (io_ok shutdown_ok : Bool)
      → s.writer.outbound_rx ≡ frame ∷ rest
      → s.writer.attached ≡ false
      → Step s (
          after_write s
            (stage_detached (record (s.writer) { outbound_rx = rest }) frame io_ok shutdown_ok).0)
  writes_live :
      {s : Session} (frame : OutboundFrame) (rest : List OutboundFrame) (io_ok shutdown_ok : Bool)
      → s.writer.outbound_rx ≡ frame ∷ rest
      → s.writer.attached ≡ true
      → s.writer.resume ≡ []
      → Step s (
          after_write s
            (write_live (record (s.writer) { outbound_rx = rest }) frame io_ok shutdown_ok).0)
  pings :
      {s : Session} (io_ok : Bool)
      → Step s (record s {
        writer = (write s.writer (control_frame build_ping_control_payload) io_ok).0;
      })
  attaches :
      {s : Session} (gen : ℕ)
      → Step s (record s { writer = apply s.writer (WriterCommand.attach gen s.last_recv_seq) })
  detaches :
      {s : Session} (gen : ℕ)
      → Step s (record s { writer = apply s.writer (WriterCommand.detach gen) })
  acknowledges :
      {s : Session} (n : ℕ)
      → n ≤ s.last_recv_seq
      → Step s (record s {
        writer = record (s.writer) { recovery_state = ack_received s.writer.recovery_state n };
      })
  reads_control :
      {s : Session} (f : WireFrame) (rest : List WireFrame)
      → s.writer.wire ≡ f ∷ rest
      → f.stream_id ≡ control_stream_id
      → Step s (record s { writer = record (s.writer) { wire = rest } })
  reads_data :
      {s : Session} (f : WireFrame) (rest : List WireFrame) (now : ℕ)
      → s.writer.wire ≡ f ∷ rest
      → f.stream_id ≢ control_stream_id
      → Step s (read_data s f rest now).0

pub data Steps : Session → Session → Type 0 where
  stop : {s : Session} → Steps s s
  next : {s t u : Session} → Steps s t → Step t u → Steps s u

-- Nothing was sent or received yet.
pub record IsFresh (s : Session) : Type 0 where
  pub nothing_sent : (s.writer.next_send_seq ≡ 0) × (s.writer.last_sent_seq ≡ 0) × (s.history ≡ [])
  pub nothing_kept :
      (s.writer.recovery_state.replay.replay_queue ≡ [])
      × (s.writer.recovery_state.replay.last_acked ≡ 0)
  pub nothing_written : (s.writer.wire ≡ []) × (s.writer.resume ≡ [])
  pub nothing_waiting : (s.writer.held ≡ none) × (s.writer.outbound_rx ≡ [])
  pub nothing_received : (s.last_recv_seq ≡ 0) × (s.receiver.streams ≡ [])
