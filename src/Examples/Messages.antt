-- ===== src/Examples/Messages.antt =====
-- Runs of a stream: src/stream.rs, src/connection.rs.
use adaptivemsg_rust.Base.{ℕ, ◌≡◌, refl, List, [], ◌∷◌, some, none, false}
use adaptivemsg_rust.Error.{ok}
use adaptivemsg_rust.Connection.{
  Stream, new_stream_inner, close, enqueue_frame, opened_stream, finish_close,
}
use adaptivemsg_rust.Writer.{plain}
use adaptivemsg_rust.Debug.{
  note_frame_written, note_failure, new_connection_counters, new_stream_counters,
}
use adaptivemsg_rust.Messages.{Library, Endpoint, send_boxed, encode_message}
use adaptivemsg_rust.Messages.Fin.{FinLast}
use adaptivemsg_rust.Messages.Runs.{Steps, stop, next, sends, closes, finishes, fin_last}

-- A message is a byte; 9 has a handler, which replies 8.
abbrev bytes : Library ℕ (List ℕ)
bytes = record {
  encode = λ m. ok (m ∷ []);
  decode_envelope = λ payload. ok payload;
  has_handler = λ raw. false;
  decode_raw = λ raw. ok 0;
  handle = λ m. ok (some 8);
  error_reply = λ code message. 7;
  ok_reply = 6;
  describe = λ e. "error";
}

-- Stream 1, which this side opened, with two payloads and the FIN to decode.
abbrev first_stream : Stream
first_stream = record (new_stream_inner 1) { incoming = (4 ∷ []) ∷ (5 ∷ []) ∷ [] ∷ [] }

abbrev endpoint : Endpoint ℕ (List ℕ)
endpoint = record {
  connection = record {
    streams = first_stream ∷ [];
    stream_contexts = (1, 0) ∷ [];
    default_stream = none;
    closed_peer_streams = [];
    next_stream_id = 2;
    closing = false;
    is_closed = false;
    opened = [];
    closed_streams = [];
  };
  handle = 0;
  id = 1;
  recovers = false;
  max_frame = 16;
  outbound = [];
  inbox = [];
  handler_jobs = [];
  has_handler_task = false;
  debug = new_stream_counters;
  connection_debug = new_connection_counters;
}

abbrev sent : Endpoint ℕ (List ℕ)
sent = (send_boxed bytes endpoint 3).1

-- A message is sent, then the stream is closed, and a second message is refused before the FIN is queued.
closing_run : (t : Endpoint ℕ (List ℕ)) × Steps bytes (endpoint, false) (t, false)
unfolding close send_boxed enqueue_frame encode_message opened_stream finish_close
    note_frame_written note_failure
closing_run =
    (_, next (next (next (next stop (sends 3)) (closes first_stream refl)) (sends 4)) finishes)

fin_last_example : FinLast (closing_run.0).id (closing_run.0).outbound
fin_last_example = fin_last bytes endpoint (closing_run.0) false refl tt (closing_run.1)

closing_test : (closing_run.0).outbound ≡ plain 1 0 (3 ∷ []) ∷ plain 1 1 [] ∷ []
unfolding closing_run
closing_test = refl
