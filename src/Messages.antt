-- ===== src/Messages.antt =====
-- src/stream.rs: sending messages on a stream, its protocol errors and its queues. src/connection.rs: the
-- decode task and the handler task of a stream.
--
-- The stream is the one at `handle` in the store of its connection. `outbound` holds every frame that was queued so
-- far, in order; `inbox` and `handler_jobs` what was handed to the stream's queues. The send lock makes each send
-- one step. The codec, the registry of handlers and the handlers are the interface `Library`, since they call
-- serialisation libraries and the user's code. Queues have room, and the clock is left out.
pub mod Fin
pub mod Ordered
pub mod Runs
pub mod Decoding
use adaptivemsg_rust.Base.{
  ℕ, zero, suc, String, List, [], ◌∷◌, ◌++◌, Option, some, none, Bool, true, false, ltb, not, ◌||◌,
  ◌&&◌, if◌then◌else◌, length, get_elem?, is_empty_text, append_text,
}
use adaptivemsg_rust.Error.{
  Error, Result, ok, err, panicked, closed, frame_too_large, type_mismatch, ◌>>=◌,
}
use adaptivemsg_rust.Debug.{
  StreamDebugCounters, ConnectionDebugCounters, MessageCounters, note_failure, note_stream_failure,
  add_data_messages_sent, add_data_messages_received, add_protocol_errors,
  add_protocol_error_reply_send_failure, add_decode_errors, add_handler_calls, add_handler_errors,
}
use adaptivemsg_rust.Writer.{OutboundFrame, plain}
use adaptivemsg_rust.Connection.{
  Connection, Stream, enqueue_frame, opened_stream, remove_peer_stream, remove_stream, send_fin,
  update, decode_step,
}

pub record Library (M Raw : Type 0) : Type 0 where
  pub encode : M → Result (List ℕ)
  pub decode_envelope : List ℕ → Result Raw
  pub has_handler : Raw → Bool
  pub decode_raw : Raw → Result M
  pub handle : M → Result (Option M)
  pub error_reply : String → String → M
  pub ok_reply : M
  pub describe : Error → String

pub record Endpoint (M Raw : Type 0) : Type 0 where
  pub connection : Connection
  pub handle : ℕ
  pub id : ℕ
  pub recovers : Bool
  pub max_frame : ℕ
  pub outbound : List OutboundFrame
  pub inbox : List Raw
  pub handler_jobs : List M
  pub has_handler_task : Bool
  pub debug : StreamDebugCounters
  pub connection_debug : ConnectionDebugCounters

-- The flags of the stream at a handle.
abbrev pub fin_at : List Stream → ℕ → Bool
fin_at ss handle = elim (get_elem? ss handle) [ none ↦ false | some s ↦ s.fin_started ]

abbrev pub closed_at : List Stream → ℕ → Bool
closed_at ss handle = elim (get_elem? ss handle) [ none ↦ false | some s ↦ s.is_closed ]

module _ {M Raw : Type 0} (lib : Library M Raw) where
  -- `count`, `note_failure` and `note_decode_error`.
  abbrev pub count : Endpoint M Raw → (MessageCounters → MessageCounters) → Endpoint M Raw
  count s add = record s {
    debug = record (s.debug) { messages = add s.debug.messages };
    connection_debug = record (s.connection_debug) { messages = add s.connection_debug.messages };
  }

  abbrev pub note_both : Endpoint M Raw → String → String → Endpoint M Raw
  note_both s code reason = record s {
    connection_debug = note_failure s.connection_debug code reason 0;
    debug = note_stream_failure s.debug code reason 0;
  }

  abbrev pub note_decode_error : Endpoint M Raw → Error → Endpoint M Raw
  note_decode_error s e =
      note_both (count s add_decode_errors) "stream.decode"
        (append_text "decode failed: " (lib.describe e))

  unfoldable pub encode_message : Endpoint M Raw → M → Result (List ℕ)
  encode_message s msg = lib.encode msg >>= λ payload.
      if ltb s.max_frame (length payload)
      then err (frame_too_large (length payload))
      else ok payload

  abbrev pub queued :
      Endpoint M Raw → Result (List OutboundFrame) → Result (Unit {0}) × Endpoint M Raw
  queued s (ok outbound) = (ok tt, count (record s { outbound = outbound }) add_data_messages_sent)
  queued s (err e) =
      (err e, note_both s "stream.enqueue" (append_text "enqueue failed: " (lib.describe e)))
  queued s panicked = (panicked, s)

  abbrev pub encoded : Endpoint M Raw → Result (List ℕ) → Result (Unit {0}) × Endpoint M Raw
  encoded s (ok payload) =
      queued s (enqueue_frame s.connection s.recovers 0 s.outbound (plain s.id 0 payload))
  encoded s (err e) =
      (err e, note_both s "stream.encode" (append_text "encode failed: " (lib.describe e)))
  encoded s panicked = (panicked, s)

  unfoldable pub send_boxed : Endpoint M Raw → M → Result (Unit {0}) × Endpoint M Raw
  unfolding encode_message
  send_boxed s msg =
      if fin_at s.connection.streams s.handle || closed_at s.connection.streams s.handle
      then (err closed, s)
      else encoded s (encode_message s msg)

  -- A failure to send the error reply is only noted.
  abbrev pub reply_sent : Result (Unit {0}) × Endpoint M Raw → Endpoint M Raw
  reply_sent (ok u, s) = s
  reply_sent (err e, s) =
      count
        (note_both s "stream.protocol_reply_send"
          (append_text "protocol error reply send failed: " (lib.describe e)))
        add_protocol_error_reply_send_failure
  reply_sent (panicked, s) = s

  -- The atomic swap of `fin_started`.
  abbrev pub start_fin : Endpoint M Raw → Endpoint M Raw
  start_fin s = record s {
    connection = record (s.connection) {
      streams = update s.connection.streams s.handle (λ t. record t { fin_started = true });
    };
  }

  abbrev pub queue_own_fin : Endpoint M Raw → Endpoint M Raw
  queue_own_fin s = record s { outbound = send_fin s.connection s.recovers 0 s.outbound s.id }

  abbrev pub remove : Endpoint M Raw → Endpoint M Raw
  remove s = record s { connection = (remove_stream s.connection s.id).0 }

  -- The end of `protocol_error`: only the side that opened the stream sends a FIN, and only once.
  unfoldable pub end_stream : Endpoint M Raw → Endpoint M Raw
  end_stream s =
      if not (opened_stream s.connection s.id)
      then record s { connection = (remove_peer_stream s.connection s.id).0 }
      else if fin_at s.connection.streams s.handle
      then remove s
      else remove (queue_own_fin (start_fin s))

  abbrev pub reason_of : String → String → String
  reason_of code message =
      if is_empty_text message then code else append_text code (append_text ": " message)

  abbrev pub protocol_noted : Endpoint M Raw → String → String → Endpoint M Raw
  protocol_noted s code message =
      let reason = reason_of code message in
      count
        (record s {
          connection_debug =
              note_failure s.connection_debug "stream.protocol"
                (append_text "stream protocol error: " reason) 0;
          debug = note_stream_failure s.debug "stream.protocol" reason 0;
        })
        add_protocol_errors

  unfoldable pub protocol_error : Endpoint M Raw → String → String → Endpoint M Raw
  unfolding send_boxed end_stream
  protocol_error s code message =
      end_stream
        (reply_sent (send_boxed (protocol_noted s code message) (lib.error_reply code message)))

  unfoldable pub protocol_error_for : Endpoint M Raw → Error → Endpoint M Raw
  unfolding protocol_error
  protocol_error_for s (type_mismatch expected got) =
      protocol_error s "protocol_error"
        (append_text "expected " (append_text expected (append_text " got " got)))
  protocol_error_for s e = protocol_error s "codec_error" (lib.describe e)

  -- `inbox_q` and `handler_q`: a closed stream takes nothing.
  abbrev pub taken : Bool → Endpoint M Raw → Endpoint M Raw → Result (Unit {0}) × Endpoint M Raw
  taken gone s s' = if gone then (err closed, s) else (ok tt, count s' add_data_messages_received)

  unfoldable pub inbox_q : Endpoint M Raw → Raw → Result (Unit {0}) × Endpoint M Raw
  inbox_q s raw =
      taken (closed_at s.connection.streams s.handle) s (record s { inbox = s.inbox ++ raw ∷ [] })

  unfoldable pub handler_q : Endpoint M Raw → M → Result (Unit {0}) × Endpoint M Raw
  handler_q s msg =
      taken (not s.has_handler_task || closed_at s.connection.streams s.handle) s
        (record s { handler_jobs = s.handler_jobs ++ msg ∷ [] })

  -- `dispatch_raw`, for a message with a handler, and all of it.
  abbrev pub to_handler : Endpoint M Raw → Result M → Endpoint M Raw
  to_handler s (ok msg) = (handler_q s msg).1
  to_handler s (err e) = protocol_error (note_decode_error s e) "codec_error" (lib.describe e)
  to_handler s panicked = s

  unfoldable pub dispatch_raw : Endpoint M Raw → Raw → Endpoint M Raw
  unfolding handler_q inbox_q protocol_error
  dispatch_raw s raw =
      if lib.has_handler raw then to_handler s (lib.decode_raw raw) else (inbox_q s raw).1

  -- The decode task's turn on a payload that is not the FIN: whether the task goes on.
  abbrev pub decoded : Endpoint M Raw → Result Raw → Endpoint M Raw × Bool
  decoded s (ok raw) = (dispatch_raw s raw, true)
  decoded s (err e) = (protocol_error (note_decode_error s e) "codec_error" (lib.describe e), false)
  decoded s panicked = (s, false)

  -- `decode_reply`, for the message that it decodes.
  unfoldable pub decode_reply : Endpoint M Raw → Raw → Result M × Endpoint M Raw
  unfolding protocol_error_for
  decode_reply s raw = elim (lib.decode_raw raw) [
    | ok msg ↦ (ok msg, s)
    | err e ↦ (err e, protocol_error_for (note_decode_error s e) e)
    | panicked ↦ (panicked, s)
  ]

  -- The handler task on the reply of a handler, on the jobs that wait, and one turn of it.
  abbrev pub handler_failed : Endpoint M Raw → Error → Endpoint M Raw
  handler_failed s e =
      count (note_both s "handler.error" (append_text "handler error: " (lib.describe e)))
        add_handler_errors

  abbrev pub handled : Endpoint M Raw → Result (Option M) → Endpoint M Raw
  handled s (ok (some reply)) = (send_boxed s reply).1
  handled s (ok none) = (send_boxed s lib.ok_reply).1
  handled s (err e) =
      (send_boxed (handler_failed s e) (lib.error_reply "handler_error" (lib.describe e))).1
  handled s panicked = s

  abbrev pub run_job : Endpoint M Raw → List M → Endpoint M Raw
  run_job s [] = s
  run_job s (job ∷ jobs) =
      handled (count (record s { handler_jobs = jobs }) add_handler_calls) (lib.handle job)

  unfoldable pub handler_turn : Endpoint M Raw → Endpoint M Raw
  unfolding send_boxed
  handler_turn s = run_job s s.handler_jobs

  -- One turn of the decode task: whether it goes on.
  abbrev pub on_payload : Endpoint M Raw → Connection × Option (List ℕ) → Endpoint M Raw × Bool
  on_payload s (c, none) = (record s { connection = c }, false)
  on_payload s (c, some payload) =
      decoded (record s { connection = c }) (lib.decode_envelope payload)

  -- The task ends because the stream closed while it waited.
  abbrev pub stops_decoding : Endpoint M Raw → Endpoint M Raw
  stops_decoding s = record s {
    connection = record (s.connection) {
      streams = update s.connection.streams s.handle (λ t. record t { decoding = false });
    };
  }

  -- `closed_first` is the choice of `select!`, which may see that the stream is closed before what is queued.
  unfoldable pub decode_turn : Endpoint M Raw → Bool → Endpoint M Raw × Bool
  unfolding decode_step dispatch_raw
  decode_turn s closed_first =
      if closed_first && closed_at s.connection.streams s.handle
      then (stops_decoding s, false)
      else on_payload s (decode_step s.connection s.handle)

  abbrev pub while_running :
      (Endpoint M Raw → Endpoint M Raw × Bool) → Endpoint M Raw × Bool → Endpoint M Raw × Bool
  while_running next_turns (s, false) = (s, false)
  while_running next_turns (s, true) = next_turns s

  -- The task for a turn for each choice: whether it still runs.
  abbrev pub decode_task : List Bool → Endpoint M Raw → Endpoint M Raw × Bool
  decode_task [] s = (s, true)
  decode_task (closed_first ∷ turns) s =
      while_running (decode_task turns) (decode_turn s closed_first)
