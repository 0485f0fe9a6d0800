-- ===== src/Examples/Sessions.antt =====
-- A session that sends a frame, loses its transport and resumes.
use adaptivemsg_rust.Base.{
  suc, ◌+ℤ◌, ◌≡◌, ◌≤◌, refl, [], ◌∷◌, ◌++◌, map, take, length, some, none, true, false, replicate,
  arith, pos,
}
use adaptivemsg_rust.Error.{ok}
use adaptivemsg_rust.Frame.{build_header}
use adaptivemsg_rust.Replay
use adaptivemsg_rust.Recovery.{
  RecoveryState, client, take_pending_ack, ack_may_be_due, prepare_resume,
}
use adaptivemsg_rust.Transport.{Link}
use adaptivemsg_rust.Writer.{
  Writer, WireFrame, plain, apply, write_next, write_next_data, write_next_live, write_live,
  finish_on_close, stage, stage_data, write_record, write, write_frame, wire_of,
}
use adaptivemsg_rust.Session.Delivery.{
  Session, Steps, stop, next, queues, writes, attaches, reads_data, IsFresh, content, read_data,
}
use adaptivemsg_rust.Session.ExactlyOnce.{delivered_in_order, read_data-ok}

abbrev state : RecoveryState
state = record {
  role = client;
  connection_id = replicate 16 5;
  resume_secret = replicate 16 9;
  replay = record {
    header_len = 18;
    max_bytes = pos 64;
    last_acked = 0;
    used_bytes = pos 0;
    replay_queue = [];
  };
  resume_depth = 0;
  reconnect_min_backoff = 100;
  reconnect_max_backoff = 2000;
  reconnect_timeout = none;
  detached_ttl = 0;
  reconnect_active = false;
  ack_every = 64;
  ack_due = false;
  ack_due_at = 0;
  ack_delay_nanos = pos 100;
  heartbeat_interval_nanos = pos 1000;
  heartbeat_timeout_nanos = pos 2000;
  has_resume_connector = true;
  has_registry = false;
  fields = record {
    shared = record {
      ack_every = 64;
      ack_delay = 100;
      heartbeat_interval = 1000;
      heartbeat_timeout = 2000;
    };
    last_recv_seq = 0;
    last_ack_sent = 0;
    ack_pending = 0;
  };
}

abbrev link : Link
link = record {
  closed = false;
  closing = false;
  transport_gen = 1;
  transport_attached = true;
  current_reader = some 1;
  writer_cmds = [];
  send_signalled = false;
  spawned = [];
}

abbrev idle : Writer
idle = record {
  link = link;
  recovery_state = state;
  next_send_seq = 0;
  max_frame = 512;
  outbound_rx = [];
  attached = false;
  wire = [];
  gen = 0;
  last_sent_seq = 0;
  resume = [];
  held = none;
  dirty = false;
  replies = [];
  reports = [];
}

abbrev start : Session
start = record {
  writer = idle;
  receiver = record { recovery_state = state; streams = []; send_signalled = false };
  last_recv_seq = 0;
  history = [];
}

start-IsFresh : IsFresh start
start-IsFresh = record {
  nothing_sent = (refl, refl, refl);
  nothing_kept = (refl, refl);
  nothing_written = (refl, refl);
  nothing_received = (refl, refl);
  nothing_waiting = (refl, refl);
}

-- The frame that is sent, and the session once it is on the way.
abbrev hello : WireFrame
hello = record { stream_id = 4; seq = 1; flags = 0; payload = 7 ∷ [] }

-- After the writer attached, took the frame and wrote it.
run : (t : Session) × Steps start t × (t.writer.wire ≡ hello ∷ [])
unfolding apply prepare_resume Replay.ack Replay.drop_acked Replay.snapshot_from Replay.frames_after
    Replay.stage write_next write_next_data write_next_live write_live finish_on_close stage
    stage_data write_record write write_frame take_pending_ack ack_may_be_due build_header ◌+ℤ◌
run = (
  _,
  next (next (next stop (attaches 1)) (queues (plain 4 0 (7 ∷ []) ∷ []) (ground arith, tt)))
      (writes 5 5 true true refl),
  refl,
)

-- The peer read the frame.
abbrev arrived : Session
arrived = (read_data run.0 hello [] 6).0

delivered_in_order_example :
    (arrived.receiver.streams
      ≡ map (λ f. content (wire_of f)) (take arrived.last_recv_seq arrived.history))
    × (arrived.last_recv_seq ≤ length arrived.history)
delivered_in_order_example =
    delivered_in_order start arrived start-IsFresh
      (next run.1 (reads_data hello [] 6 run.2 (ground arith)))

read_data-ok_example :
    ((read_data run.0 hello [] 6).1 ≡ ok (suc run.0.last_recv_seq))
    × ((read_data run.0 hello [] 6).0.last_recv_seq ≡ 1)
    × ((read_data run.0 hello [] 6).0.receiver.streams
        ≡ run.0.receiver.streams ++ content hello ∷ [])
read_data-ok_example = read_data-ok start run.0 hello [] 6 start-IsFresh run.1 run.2 (ground arith)
