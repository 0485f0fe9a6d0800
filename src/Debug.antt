-- ===== src/Debug.antt =====
-- src/debug.rs: the counters and the last failure of a connection and of a stream, and their snapshots.
--
-- The counters are 64 bits wide and wrap. A task adds to its counters alone or in one atomic step, so each
-- call is one step. The clock is an argument.
pub mod Counted
use adaptivemsg_rust.Base.{
  ℕ, ◌+◌, ◌%◌, ◌^◌, String, List, Option, some, none, Bool, true, false, ◌&&◌, ◌==◌, if◌then◌else◌,
  is_empty_text,
}
use adaptivemsg_rust.RecoveryProtocol.{control_stream_id}

-- `fetch_add` on an `AtomicU64`.
abbrev pub fetch_add : ℕ → ℕ → ℕ
fetch_add counter n = (counter + n) % 2 ^ 64

pub record FrameCounters : Type 0 where
  pub frames : ℕ
  pub bytes : ℕ
  pub control_frames : ℕ

unfoldable pub note_frame : FrameCounters → ℕ → ℕ → FrameCounters
note_frame c stream_id wire_bytes = record {
  frames = fetch_add c.frames 1;
  bytes = fetch_add c.bytes wire_bytes;
  control_frames =
      if stream_id == control_stream_id then fetch_add c.control_frames 1 else c.control_frames;
}

pub record MessageCounters : Type 0 where
  pub data_messages_sent : ℕ
  pub data_messages_received : ℕ
  pub protocol_errors : ℕ
  pub protocol_error_reply_send_failure : ℕ
  pub remote_errors : ℕ
  pub decode_errors : ℕ
  pub handler_calls : ℕ
  pub handler_errors : ℕ

pub record FailureRecord : Type 0 where
  pub code : String
  pub reason : String
  pub time : ℕ

-- The last failure, if any.
abbrev pub FailureTracker : Type 0
FailureTracker = Option FailureRecord

abbrev kept_code : FailureTracker → String → String
kept_code none code = code
kept_code (some prev) code = if is_empty_text code then prev.code else code

unfoldable pub note_last : FailureTracker → String → String → ℕ → FailureTracker
note_last last code reason now =
    if is_empty_text code && is_empty_text reason
    then last
    else some (record { code = kept_code last code; reason = reason; time = now })

unfoldable pub last_noted : FailureTracker → String × String × Option ℕ
last_noted none = ("", "", none)
last_noted (some r) = (r.code, r.reason, some r.time)

pub record ConnectionDebugCounters : Type 0 where
  pub written : FrameCounters
  pub read : FrameCounters
  pub streams_opened : ℕ
  pub streams_closed : ℕ
  pub messages : MessageCounters
  pub reconnect_attempts : ℕ
  pub reconnect_successes : ℕ
  pub reconnect_failures : ℕ
  pub transport_attaches : ℕ
  pub transport_detaches : ℕ
  pub failure : FailureTracker

pub record StreamDebugCounters : Type 0 where
  pub messages : MessageCounters
  pub failure : FailureTracker

abbrev no_frames : FrameCounters
no_frames = record { frames = 0; bytes = 0; control_frames = 0 }

abbrev no_messages : MessageCounters
no_messages = record {
  data_messages_sent = 0;
  data_messages_received = 0;
  protocol_errors = 0;
  protocol_error_reply_send_failure = 0;
  remote_errors = 0;
  decode_errors = 0;
  handler_calls = 0;
  handler_errors = 0;
}

abbrev pub new_connection_counters : ConnectionDebugCounters
new_connection_counters = record {
  written = no_frames;
  read = no_frames;
  streams_opened = 0;
  streams_closed = 0;
  messages = no_messages;
  reconnect_attempts = 0;
  reconnect_successes = 0;
  reconnect_failures = 0;
  transport_attaches = 0;
  transport_detaches = 0;
  failure = none;
}

abbrev pub new_stream_counters : StreamDebugCounters
new_stream_counters = record { messages = no_messages; failure = none }

unfoldable pub note_failure :
    ConnectionDebugCounters → String → String → ℕ → ConnectionDebugCounters
unfolding note_last
note_failure c code reason now = record c { failure = note_last c.failure code reason now }

unfoldable pub note_stream_failure : StreamDebugCounters → String → String → ℕ → StreamDebugCounters
unfolding note_last
note_stream_failure s code reason now = record s { failure = note_last s.failure code reason now }

unfoldable pub note_frame_written : ConnectionDebugCounters → ℕ → ℕ → ConnectionDebugCounters
unfolding note_frame
note_frame_written c stream_id wire_bytes = record c {
  written = note_frame c.written stream_id wire_bytes;
}

unfoldable pub note_frame_read : ConnectionDebugCounters → ℕ → ℕ → ConnectionDebugCounters
unfolding note_frame
note_frame_read c stream_id wire_bytes = record c { read = note_frame c.read stream_id wire_bytes }

-- `promote_failure_to`
unfoldable pub promote_failure_to :
    StreamDebugCounters → ConnectionDebugCounters → ℕ → ConnectionDebugCounters
unfolding note_failure
promote_failure_to s conn now = elim s.failure [
  | none ↦ conn
  | some r ↦ if is_empty_text r.code then conn else note_failure conn r.code r.reason now
]

pub record ConnectionCounters : Type 0 where
  pub streams_opened : ℕ
  pub streams_closed : ℕ
  pub data_messages_sent : ℕ
  pub data_messages_received : ℕ
  pub frames_written : ℕ
  pub frames_read : ℕ
  pub bytes_written : ℕ
  pub bytes_read : ℕ
  pub control_frames_written : ℕ
  pub control_frames_read : ℕ
  pub protocol_errors : ℕ
  pub protocol_error_reply_send_failure : ℕ
  pub remote_errors : ℕ
  pub decode_errors : ℕ
  pub handler_calls : ℕ
  pub handler_errors : ℕ
  pub reconnect_attempts : ℕ
  pub reconnect_successes : ℕ
  pub reconnect_failures : ℕ
  pub transport_attaches : ℕ
  pub transport_detaches : ℕ

unfoldable pub snapshot : ConnectionDebugCounters → ConnectionCounters
snapshot c = record {
  streams_opened = c.streams_opened;
  streams_closed = c.streams_closed;
  data_messages_sent = c.messages.data_messages_sent;
  data_messages_received = c.messages.data_messages_received;
  frames_written = c.written.frames;
  frames_read = c.read.frames;
  bytes_written = c.written.bytes;
  bytes_read = c.read.bytes;
  control_frames_written = c.written.control_frames;
  control_frames_read = c.read.control_frames;
  protocol_errors = c.messages.protocol_errors;
  protocol_error_reply_send_failure = c.messages.protocol_error_reply_send_failure;
  remote_errors = c.messages.remote_errors;
  decode_errors = c.messages.decode_errors;
  handler_calls = c.messages.handler_calls;
  handler_errors = c.messages.handler_errors;
  reconnect_attempts = c.reconnect_attempts;
  reconnect_successes = c.reconnect_successes;
  reconnect_failures = c.reconnect_failures;
  transport_attaches = c.transport_attaches;
  transport_detaches = c.transport_detaches;
}

-- The fields that `count` selects, each one higher.
module _ (c : MessageCounters) where
  abbrev pub add_data_messages_sent : MessageCounters
  add_data_messages_sent = record c { data_messages_sent = fetch_add c.data_messages_sent 1 }

  abbrev pub add_data_messages_received : MessageCounters
  add_data_messages_received = record c {
    data_messages_received = fetch_add c.data_messages_received 1;
  }

  abbrev pub add_protocol_errors : MessageCounters
  add_protocol_errors = record c { protocol_errors = fetch_add c.protocol_errors 1 }

  abbrev pub add_protocol_error_reply_send_failure : MessageCounters
  add_protocol_error_reply_send_failure = record c {
    protocol_error_reply_send_failure = fetch_add c.protocol_error_reply_send_failure 1;
  }

  abbrev pub add_remote_errors : MessageCounters
  add_remote_errors = record c { remote_errors = fetch_add c.remote_errors 1 }

  abbrev pub add_decode_errors : MessageCounters
  add_decode_errors = record c { decode_errors = fetch_add c.decode_errors 1 }

  abbrev pub add_handler_calls : MessageCounters
  add_handler_calls = record c { handler_calls = fetch_add c.handler_calls 1 }

  abbrev pub add_handler_errors : MessageCounters
  add_handler_errors = record c { handler_errors = fetch_add c.handler_errors 1 }
