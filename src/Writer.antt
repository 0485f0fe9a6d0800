-- ===== src/Writer.antt =====
-- src/recovery_runtime.rs: the writer task of a recoverable connection (RecoveryWriter), with the fields of
-- the connection that it uses. src/connection.rs: the frames that it is handed, and the write of one frame.
--
-- A reply channel is known by a number, and what is sent on it is recorded in `replies` and `reports`. The
-- transport is `attached`, with `wire` for the frames written to the current one and not yet read by the
-- peer. Whether a write, a flush or a shutdown of the transport succeeds is an argument (`io_ok`), as is the
-- clock. The sequence numbers, one for each frame, are taken not to reach 2^64. `none` as a result is the source's `Err(Done)`: the task ends.

pub mod Loop
use adaptivemsg_rust.Base.{
  ℕ, ◌+◌, min, List, [], ◌∷◌, ◌++◌, Option, some, none, Bool, true, false, ltb, ◌==◌, ◌&&◌,
  if◌then◌else◌, length,
}
use adaptivemsg_rust.Error.{Result, ok, err, panicked}
use adaptivemsg_rust.Frame.{build_header, protocol_version_v3}
use adaptivemsg_rust.Replay.{FrameRecord, Staged, kept, full, ReplayBuffer}
use adaptivemsg_rust.Replay
use adaptivemsg_rust.Recovery.{RecoveryState, take_pending_ack, prepare_resume}
use adaptivemsg_rust.RecoveryProtocol.{
  control_stream_id, build_ack_control_payload, build_close_control_payload,
}
use adaptivemsg_rust.Transport.{Link, WriterCommand, detach_transport}

pub record WireFrame : Type 0 where
  pub stream_id : ℕ
  pub seq : ℕ
  pub flags : ℕ
  pub payload : List ℕ

pub data OutboundFrame : Type 0 where
  plain : ℕ → ℕ → List ℕ → OutboundFrame
  recovery : ℕ → ℕ → List ℕ → ℕ → OutboundFrame
  close : ℕ → OutboundFrame

pub record Writer : Type 0 where
  pub link : Link
  pub recovery_state : RecoveryState
  pub next_send_seq : ℕ
  pub max_frame : ℕ
  pub outbound_rx : List OutboundFrame
  pub attached : Bool
  pub wire : List WireFrame
  pub gen : ℕ
  pub last_sent_seq : ℕ
  pub resume : List FrameRecord
  pub held : Option OutboundFrame
  pub dirty : Bool
  pub replies : List (ℕ × Result (Unit {0}))
  pub reports : List (ℕ × Bool)

-- `write_frame_counted`: the header may refuse the payload's length, and the transport may fail.
unfoldable pub write_frame : List WireFrame → ℕ → WireFrame → Bool → Option (List WireFrame)
write_frame wire max_frame f io_ok =
    elim (build_header protocol_version_v3 f.stream_id f.seq f.flags (length f.payload) max_frame) [
      | ok header ↦ if io_ok then some (wire ++ f ∷ []) else none
      | err e ↦ none
      | panicked ↦ none
    ]

abbrev pub state_or : Option RecoveryState → RecoveryState → RecoveryState
state_or none r = r
state_or (some r') r = r'

-- `RecoveryWriter::detach`
unfoldable pub detach_writer : Writer → Writer
detach_writer w =
    let (link, r) = detach_transport w.link (some w.recovery_state) w.gen true in
    record w { link = link; recovery_state = state_or r w.recovery_state; attached = false }

-- `RecoveryWriter::write`, which its callers make only while a transport is attached.
unfoldable pub write : Writer → WireFrame → Bool → Writer × Bool
write w f io_ok = elim (write_frame w.wire w.max_frame f io_ok) [
  | some wire ↦ (record w { wire = wire; dirty = true }, true)
  | none ↦ (detach_writer w, false)
]

abbrev pub wire_of : FrameRecord → WireFrame
wire_of f = record { stream_id = f.stream_id; seq = f.seq; flags = f.flags; payload = f.payload }

abbrev pub control_frame : List ℕ → WireFrame
control_frame payload = record {
  stream_id = control_stream_id;
  seq = 0;
  flags = 0;
  payload = payload;
}

unfoldable pub write_record : Writer → FrameRecord → Bool → Writer
unfolding write
write_record w frame io_ok =
    let (w', done) = write w (wire_of frame) io_ok in
    if done then record w' { last_sent_seq = frame.seq } else w'

-- What a sender that waits for its frame to be queued is told; a plain frame has no such sender.
abbrev pub tell :
    List (ℕ × Result (Unit {0})) → Option ℕ → Result (Unit {0}) → List (ℕ × Result (Unit {0}))
tell replies none r = replies
tell replies (some queued_tx) r = replies ++ (queued_tx, r) ∷ []

abbrev pub outbound : ℕ → ℕ → List ℕ → Option ℕ → OutboundFrame
outbound stream_id flags payload none = plain stream_id flags payload
outbound stream_id flags payload (some queued_tx) = recovery stream_id flags payload queued_tx

-- The part of `stage` for a data frame: what follows on the replay buffer's answer, and the whole.
abbrev pub after_stage :
    Writer → ℕ → ℕ → Option ℕ → ReplayBuffer × Result Staged → Writer × Option FrameRecord
after_stage w stream_id flags queued_tx (buffer, ok (kept frame)) = (
  record w {
    recovery_state = record (w.recovery_state) { replay = buffer };
    next_send_seq = w.next_send_seq + 1;
    replies = tell w.replies queued_tx (ok tt);
  },
  some frame,
)
after_stage w stream_id flags queued_tx (buffer, ok (full payload)) = (
  record w {
    recovery_state = record (w.recovery_state) { replay = buffer };
    held = some (outbound stream_id flags payload queued_tx);
  },
  none,
)
after_stage w stream_id flags queued_tx (buffer, err e) = (
  record w {
    recovery_state = record (w.recovery_state) { replay = buffer };
    replies = tell w.replies queued_tx (err e);
  },
  none,
)
after_stage w stream_id flags queued_tx (buffer, panicked) = (w, none)

unfoldable pub stage_data : Writer → ℕ → ℕ → List ℕ → Option ℕ → Writer × Option FrameRecord
stage_data w stream_id flags payload queued_tx =
    after_stage w stream_id flags queued_tx
      (Replay.stage w.recovery_state.replay stream_id (w.next_send_seq + 1) flags payload)

unfoldable pub stage : Writer → OutboundFrame → Writer × Option FrameRecord
unfolding stage_data
stage w (plain stream_id flags payload) = stage_data w stream_id flags payload none
stage w (recovery stream_id flags payload queued_tx) =
    stage_data w stream_id flags payload (some queued_tx)
stage w (close written) = (w, none)

-- For the close marker: CLOSE is written and the transport shut down, and the task ends.
unfoldable pub finish_on_close :
    Writer → OutboundFrame → Bool → Bool → Writer × Option OutboundFrame
finish_on_close w (plain stream_id flags payload) io_ok shutdown_ok =
    (w, some (plain stream_id flags payload))
finish_on_close w (recovery stream_id flags payload queued_tx) io_ok shutdown_ok =
    (w, some (recovery stream_id flags payload queued_tx))
finish_on_close w (close written) io_ok shutdown_ok =
    if w.attached
    then elim (write_frame w.wire w.max_frame (control_frame build_close_control_payload) io_ok) [
      | some wire ↦
          (record w { wire = wire; reports = w.reports ++ (written, shutdown_ok) ∷ [] }, none)
      | none ↦ (record w { reports = w.reports ++ (written, false) ∷ [] }, none)
    ]
    else (record w { reports = w.reports ++ (written, false) ∷ [] }, none)

-- A record just staged is written unless the peer has it.
abbrev pub write_staged : Writer × Option FrameRecord → Bool → Writer
write_staged (w, none) io_ok = w
write_staged (w, some frame) io_ok =
    if ltb w.last_sent_seq frame.seq then write_record w frame io_ok else w

unfoldable pub write_live : Writer → OutboundFrame → Bool → Bool → Writer × Option (Unit {0})
unfolding finish_on_close stage write_record
write_live w frame io_ok shutdown_ok =
    let (w', passed) = finish_on_close w frame io_ok shutdown_ok in
    elim passed [ none ↦ (w', none) | some f ↦ (write_staged (stage w' f) io_ok, some tt) ]

abbrev pub is_none {ℓ} : {A : Type ℓ} → Option A → Bool
is_none none = true
is_none (some a) = false

-- The end of `write_next`: whether there may be more to write.
abbrev pub more_unless_held : Writer × Option (Unit {0}) → Writer × Option Bool
more_unless_held (w, none) = (w, none)
more_unless_held (w, some u) = (w, some (is_none w.held))

-- The live frame that is next: the held one, or the first of the queue.
unfoldable pub write_next_live : Writer → Bool → Bool → Writer × Option Bool
unfolding write_live
write_next_live w io_ok shutdown_ok = elim w.held [
  | some frame ↦ more_unless_held (write_live (record w { held = none }) frame io_ok shutdown_ok)
  | none ↦ elim w.outbound_rx [
    | [] ↦ (w, some false)
    | frame ∷ rest ↦
        more_unless_held (write_live (record w { outbound_rx = rest }) frame io_ok shutdown_ok)
  ]
]

-- The part of `write_next` after the pending ACK: frames to replay go before live ones.
unfoldable pub write_next_data : Writer → Bool → Bool → Writer × Option Bool
unfolding write_next_live write_record
write_next_data w io_ok shutdown_ok = elim w.resume [
  | [] ↦ write_next_live w io_ok shutdown_ok
  | frame ∷ rest ↦
      (let w' = record w {
        resume = rest;
        recovery_state = record (w.recovery_state) { resume_depth = length rest };
      } in
        (
          if ltb w.last_sent_seq frame.seq && ltb w.recovery_state.replay.last_acked frame.seq
              then write_record w' frame io_ok
              else w',
          some true,
        ))
]

unfoldable pub write_next : Writer → ℕ → ℕ → Bool → Bool → Writer × Option Bool
unfolding write_next_data write
write_next w now now' io_ok shutdown_ok =
    let (r, pending) = take_pending_ack w.recovery_state now now' in
    let w' = record w { recovery_state = r } in
    elim pending [
      | some ack_seq ↦
          ((write w' (control_frame (build_ack_control_payload ack_seq)) io_ok).0, some true)
      | none ↦ write_next_data w' io_ok shutdown_ok
    ]

-- `RecoveryWriter::apply`. A new transport has nothing written to it.
unfoldable pub apply : Writer → WriterCommand → Writer
apply w (WriterCommand.attach gen resume_seq) =
    let last_sent : ℕ = min resume_seq w.next_send_seq in
    let (r, frames) = prepare_resume w.recovery_state last_sent in
    record w {
      gen = gen;
      last_sent_seq = last_sent;
      recovery_state = r;
      resume = frames;
      attached = true;
      wire = [];
      dirty = false;
    }
apply w (WriterCommand.detach gen) = if gen == w.gen then record w { attached = false } else w
