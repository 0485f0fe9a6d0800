-- ===== src/Examples/Readers.antt =====
-- Runs of the reader of a recoverable connection: src/recovery_runtime.rs.
use adaptivemsg_rust.Base.{
  ℕ, ◌≡◌, ◌≤◌, refl, List, [], ◌∷◌, Option, some, none, true, false, replicate, arith, pos, String,
}
use adaptivemsg_rust.Error.{Error, Result, ok, err, recv_timeout}
use adaptivemsg_rust.Recovery.{RecoveryState, server, last_received}
use adaptivemsg_rust.Connection.{Connection, accept_frame}
use adaptivemsg_rust.Transport.{Link}
use adaptivemsg_rust.Debug.{new_connection_counters}
use adaptivemsg_rust.Plain.{InboundFrame}
use adaptivemsg_rust.Reader.Within.{
  read_frame_within, read_by_deadline, read_frame_within-by_deadline,
}
use adaptivemsg_rust.Reader.Running.{RecoveryReader, goes_on, ended, recovery_reader}
use adaptivemsg_rust.Reader.Handled.{IsOver}
use adaptivemsg_rust.Reader.Ends.{recovery_reader-IsSound}

-- The sleep fires at 50, is armed again for 70, fires late and the read is over.
abbrev wakes : List (ℕ × Option (Result ℕ))
wakes = (50, none) ∷ (60, none) ∷ (75, none) ∷ (80, some (ok 1)) ∷ []

read_frame_within-by_deadline_example :
    ((read_frame_within 40 30 45 wakes).0 ≡ some (err recv_timeout))
    × ((read_frame_within 40 30 45 wakes).1 ≤ 120)
unfolding read_by_deadline
read_frame_within-by_deadline_example =
    read_frame_within-by_deadline 40 30 45 wakes 80 (omega arith) (omega arith)

abbrev state : RecoveryState
state = record {
  role = server;
  connection_id = replicate 16 5;
  resume_secret = replicate 16 9;
  replay = record {
    header_len = 18;
    max_bytes = pos 64;
    last_acked = 0;
    used_bytes = pos 0;
    replay_queue = [];
  };
  resume_depth = 0;
  reconnect_min_backoff = 0;
  reconnect_max_backoff = 0;
  reconnect_timeout = none;
  detached_ttl = 30;
  reconnect_active = false;
  ack_every = 64;
  ack_due = false;
  ack_due_at = 0;
  ack_delay_nanos = pos 100;
  heartbeat_interval_nanos = pos 1000;
  heartbeat_timeout_nanos = pos 2000;
  has_resume_connector = false;
  has_registry = true;
  fields = record {
    shared = record {
      ack_every = 64;
      ack_delay = 100;
      heartbeat_interval = 1000;
      heartbeat_timeout = 2000;
    };
    last_recv_seq = 4;
    last_ack_sent = 4;
    ack_pending = 0;
  };
}

abbrev streams : Connection
streams = record {
  streams = [];
  stream_contexts = [];
  default_stream = none;
  closed_peer_streams = [];
  next_stream_id = 1;
  closing = false;
  is_closed = false;
  opened = [];
  closed_streams = [];
}

abbrev link : Link
link = record {
  closed = false;
  closing = false;
  transport_gen = 3;
  transport_attached = true;
  current_reader = some 3;
  writer_cmds = [];
  send_signalled = false;
  spawned = [];
}

abbrev start : RecoveryReader
start = record {
  receiver = record { recovery_state = state; streams = streams; send_signalled = false };
  link = link;
  debug = new_connection_counters;
}

abbrev describe : Error → String
describe e = "error"

-- Frame 5 for stream 7, once more, a ping, and the end of the transport.
abbrev turns : List ((RecoveryReader → RecoveryReader) × Result (Option InboundFrame) × ℕ)
turns =
    (λ s. s, ok (some (7, 5, 0, 8 ∷ [])), 10)
    ∷ (λ s. s, ok (some (7, 5, 0, 8 ∷ [])), 20)
    ∷ (λ s. s, ok (some (0, 0, 0, 2 ∷ [])), 30)
    ∷ (λ s. s, ok none, 40)
    ∷ []

reader_test : (recovery_reader describe 3 18 start (goes_on 4) turns).1 ≡ ended
unfolding recovery_reader accept_frame
reader_test = refl

recovery_reader-IsSound_example : IsOver 3 (recovery_reader describe 3 18 start (goes_on 4) turns).0
unfolding recovery_reader last_received accept_frame
recovery_reader-IsSound_example = recovery_reader-IsSound describe 3 18 start turns (
  (λ s. refl, λ e. ground arith),
  (
    (λ s. refl, λ e. ground arith),
    ((λ s. refl, λ e. ground arith), ((λ s. refl, λ e. ground arith), tt)),
  ),
)
