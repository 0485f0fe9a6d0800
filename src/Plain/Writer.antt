-- ===== src/Plain/Writer.antt =====
-- src/connection.rs: the writer task of a connection without recovery (spawn_plain_writer).
--
-- `describe` is the text of an error, which failures hold.
use adaptivemsg_rust.Base.{ℕ, List, [], ◌∷◌, ◌++◌, Option, some, none, Bool, true, false, String}
use adaptivemsg_rust.Error.{Error, Result, ok, err, panicked}
use adaptivemsg_rust.Streaming.{Io, Task, lift}
use adaptivemsg_rust.Debug.{ConnectionDebugCounters, note_failure}
use adaptivemsg_rust.Connection.{Connection, mark_closed}
use adaptivemsg_rust.Writer.{OutboundFrame, plain, recovery}
use adaptivemsg_rust.Plain.{ConnConfig, Counted, write_frame_counted}

abbrev pub failure_connection_writer : String
failure_connection_writer = "connection.writer"

-- The frame's fields, and the reply that tells its sender that it is queued.
abbrev pub fields : OutboundFrame → Option (ℕ × ℕ × List ℕ)
fields (plain stream_id flags payload) = some (stream_id, flags, payload)
fields (recovery stream_id flags payload queued_tx) = some (stream_id, flags, payload)
fields (OutboundFrame.close written) = none

unfoldable pub write_plain_frame_no_flush :
    (io : Io) → ConnConfig → OutboundFrame → Task (Counted io) (Unit {0})
unfolding write_frame_counted
write_plain_frame_no_flush io config frame = elim (fields frame) [
  | none ↦ lift (ok tt)
  | some (stream_id, flags, payload) ↦ write_frame_counted io config stream_id 0 flags payload
]

module _ (io : Io) (shutdown : io.Writer → Result (Unit {0}) × io.Writer)
    (describe : Error → String) where
  -- The task's transport, queue and counters, what it sent on the channels of its frames, and the
  -- connection, which a failure closes.
  pub record PlainWriter : Type 0 where
    pub writer : Option io.Writer
    pub outbound_rx : List OutboundFrame
    pub debug : ConnectionDebugCounters
    pub replies : List (ℕ × Result (Unit {0}))
    pub reports : List (ℕ × Bool)
    pub connection : Connection

  abbrev pub writer_fails : PlainWriter → Error → PlainWriter
  writer_fails s e = record s {
    connection = mark_closed s.connection;
    debug = note_failure s.debug failure_connection_writer (describe e) 0;
  }

  -- What is left of the state when a write or a flush returns, and whether it succeeded.
  abbrev pub after_io : PlainWriter → Result (Unit {0}) → PlainWriter × Bool
  after_io s (ok u) = (s, true)
  after_io s (err e) = (writer_fails s e, false)
  after_io s panicked = (s, false)

  abbrev pub is_ok : Result (Unit {0}) → Bool
  is_ok (ok u) = true
  is_ok (err e) = false
  is_ok panicked = false

  abbrev pub after_shutdown : PlainWriter → ℕ → Result (Unit {0}) × io.Writer → PlainWriter × Bool
  after_shutdown s written (r, w) =
      (record s { writer = some w; reports = s.reports ++ (written, is_ok r) ∷ [] }, false)

  -- What follows the write of a frame: the next frames, or the end.
  abbrev pub after_frame :
      (io.Writer → PlainWriter → PlainWriter × Bool)
      → PlainWriter
      → Result (Unit {0}) × Counted io
      → PlainWriter × Bool
  after_frame go_on s (ok u, (w, d)) = go_on w (record s { writer = some w; debug = d })
  after_frame go_on s (err e, (w, d)) =
      (writer_fails (record s { writer = some w; debug = d }) e, false)
  after_frame go_on s (panicked, (w, d)) = (record s { writer = some w; debug = d }, false)

  -- The batch: the frames that are queued, each written, then the flush. Whether the task goes on.
  unfoldable pub write_batch :
      ConnConfig → List OutboundFrame → io.Writer → PlainWriter → PlainWriter × Bool
  unfolding write_plain_frame_no_flush
  write_batch config [] w s =
      after_io (record s { outbound_rx = []; writer = some (io.flush w).1 }) (io.flush w).0
  write_batch config (OutboundFrame.close written ∷ queue) w s =
      after_shutdown (record s { outbound_rx = queue }) written (shutdown w)
  write_batch config (plain stream_id flags payload ∷ queue) w s =
      after_frame (write_batch config queue) (record s { outbound_rx = queue })
        (write_plain_frame_no_flush io config (plain stream_id flags payload) (w, s.debug))
  write_batch config (recovery stream_id flags payload queued_tx ∷ queue) w s =
      after_frame (write_batch config queue)
        (record s { outbound_rx = queue; replies = s.replies ++ (queued_tx, ok tt) ∷ [] })
        (write_plain_frame_no_flush io config (recovery stream_id flags payload queued_tx)
          (w, s.debug))

  -- What ends a wait of the task.
  pub data PlainEvent : Type 0 where
    notified : PlainEvent
    attach : io.Writer → PlainEvent
    detach : PlainEvent
    commands_end : PlainEvent
    outbound_ready : PlainEvent
    outbound_end : PlainEvent

  -- A frame is taken only while there is a transport.
  abbrev pub on_outbound :
      ConnConfig → PlainWriter → Option io.Writer → List OutboundFrame → PlainWriter × Bool
  on_outbound config s none queue = (s, true)
  on_outbound config s (some w) [] = (s, true)
  on_outbound config s (some w) (frame ∷ queue) = write_batch config (frame ∷ queue) w s

  -- One turn of the loop: whether it goes on.
  unfoldable pub plain_writer_turn : ConnConfig → PlainWriter → PlainEvent → PlainWriter × Bool
  unfolding write_batch
  plain_writer_turn config s notified = (s, false)
  plain_writer_turn config s (attach w) = (record s { writer = some w }, true)
  plain_writer_turn config s detach = (record s { writer = none }, true)
  plain_writer_turn config s commands_end = (s, false)
  plain_writer_turn config s outbound_end = elim s.writer [ none ↦ (s, true) | some w ↦ (s, false) ]
  plain_writer_turn config s outbound_ready = on_outbound config s s.writer s.outbound_rx
