-- ===== src/RecoveryProtocol.antt =====
-- src/recovery_protocol.rs: the attach exchange and the control frames of protocol version 3.
pub mod Attach
pub mod Response
pub mod Negotiation
pub mod Control
use adaptivemsg_rust.Base.{
  ℕ, ◌+◌, ◌*◌, ◌/◌, ◌^◌, max, List, [], ◌∷◌, ◌++◌, Option, some, none, Bool, ltb, leb, ◌==◌, not,
  if◌then◌else◌, length, get_elem?, is_empty,
}
use adaptivemsg_rust.Base.Bytes.{to_be_bytes, from_be_bytes}
use adaptivemsg_rust.Error.{Error, Result, ok, err, panicked, require, invalid_message, ◌>>=◌, ◌>>◌}
use adaptivemsg_rust.Frame.{slice, u32_max}
use adaptivemsg_rust.Recovery.{RecoveryToken}
use adaptivemsg_rust.Recovery.Options.{
  NegotiatedRecoveryOptions, normalized, from_millis, saturating_mul,
}
use adaptivemsg_rust.Streaming.{Io, Task, Streams, lift}
use adaptivemsg_rust.Streaming

abbrev pub control_stream_id : ℕ
control_stream_id = 4294967295

abbrev pub control_type_ack : ℕ
control_type_ack = 1

abbrev pub control_type_ping : ℕ
control_type_ping = 2

abbrev pub control_type_close : ℕ
control_type_close = 3

abbrev pub attach_mode_new : ℕ
attach_mode_new = 1

abbrev pub attach_mode_resume : ℕ
attach_mode_resume = 2

abbrev pub attach_status_ok : ℕ
attach_status_ok = 1

abbrev pub attach_status_rejected : ℕ
attach_status_rejected = 2

abbrev pub attach_request_len : ℕ
attach_request_len = 44

abbrev pub attach_response_len : ℕ
attach_response_len = 60

pub record AttachRequest : Type 0 where
  pub mode : ℕ
  pub connection_id : RecoveryToken
  pub resume_secret : RecoveryToken
  pub last_recv_seq : ℕ

pub record AttachResponse : Type 0 where
  pub status : ℕ
  pub connection_id : RecoveryToken
  pub resume_secret : RecoveryToken
  pub last_recv_seq : ℕ
  pub negotiated : NegotiatedRecoveryOptions

-- `buf[i]` of an array of fixed length, where the index is in range.
abbrev pub byte_at : ℕ → List ℕ → ℕ
byte_at i buf = elim (get_elem? buf i) [ none ↦ 0 | some b ↦ b ]

-- The buffer that `write_attach_request` fills in: the mode, three zero bytes, the two tokens and the
-- sequence number.
unfoldable pub encode_attach_request : AttachRequest → List ℕ
encode_attach_request req =
    req.mode
    ∷ 0
    ∷ 0
    ∷ 0
    ∷ (req.connection_id ++ (req.resume_secret ++ to_be_bytes 8 req.last_recv_seq))

unfoldable pub decode_attach_request : List ℕ → AttachRequest
decode_attach_request buf = record {
  mode = byte_at 0 buf;
  connection_id = slice 4 20 buf;
  resume_secret = slice 20 36 buf;
  last_recv_seq = from_be_bytes (slice 36 44 buf);
}

pub record EncodedNegotiatedRecoveryOptions : Type 0 where
  pub ack_every : ℕ
  pub ack_delay_ms : ℕ
  pub heartbeat_interval_ms : ℕ
  pub heartbeat_timeout_ms : ℕ

unfoldable pub duration_to_millis : ℕ → Result ℕ
duration_to_millis duration =
    if duration == 0
    then err (invalid_message "recovery duration must be positive")
    else (let millis : ℕ = max (duration / 1000000) 1 in
        if ltb u32_max millis
        then err (invalid_message "recovery duration too large")
        else ok millis)

unfoldable pub encode_negotiated_recovery_options :
    NegotiatedRecoveryOptions → Result EncodedNegotiatedRecoveryOptions
encode_negotiated_recovery_options opts = do
  let opts' = normalized opts
  ack_delay_ms ← duration_to_millis opts'.ack_delay
  heartbeat_interval_ms ← duration_to_millis opts'.heartbeat_interval
  heartbeat_timeout_ms ← duration_to_millis opts'.heartbeat_timeout
  ok (record {
    ack_every = opts'.ack_every;
    ack_delay_ms = ack_delay_ms;
    heartbeat_interval_ms = heartbeat_interval_ms;
    heartbeat_timeout_ms = heartbeat_timeout_ms;
  })

unfoldable pub decode_negotiated_recovery_options : ℕ → ℕ → ℕ → ℕ → Result NegotiatedRecoveryOptions
decode_negotiated_recovery_options ack_every ack_delay_ms heartbeat_interval_ms
      heartbeat_timeout_ms =
    do
      require (not (ack_every == 0)) (invalid_message "negotiated ack_every must be positive")
      require (not (from_millis ack_delay_ms == 0))
          (invalid_message "negotiated ack_delay must be positive")
      require (not (from_millis heartbeat_interval_ms == 0))
          (invalid_message "negotiated heartbeat_interval must be positive")
      require
          (leb (saturating_mul (from_millis heartbeat_interval_ms) 2)
            (from_millis heartbeat_timeout_ms))
          (invalid_message "negotiated heartbeat_timeout too small")
      ok (record {
        ack_every = ack_every;
        ack_delay = from_millis ack_delay_ms;
        heartbeat_interval = from_millis heartbeat_interval_ms;
        heartbeat_timeout = from_millis heartbeat_timeout_ms;
      })

-- The buffer that `write_attach_response` fills in.
unfoldable pub encode_attach_response : AttachResponse → EncodedNegotiatedRecoveryOptions → List ℕ
encode_attach_response resp encoded =
    resp.status
    ∷ 0
    ∷ 0
    ∷ 0
    ∷ (resp.connection_id
        ++ (resp.resume_secret
            ++ (to_be_bytes 8 resp.last_recv_seq
                ++ (to_be_bytes 4 encoded.ack_every
                    ++ (to_be_bytes 4 encoded.ack_delay_ms
                        ++ (to_be_bytes 4 encoded.heartbeat_interval_ms
                            ++ to_be_bytes 4 encoded.heartbeat_timeout_ms))))))

unfoldable pub decode_attach_response : List ℕ → Result AttachResponse
decode_attach_response buf = do
  negotiated ←
      decode_negotiated_recovery_options (from_be_bytes (slice 44 48 buf))
        (from_be_bytes (slice 48 52 buf)) (from_be_bytes (slice 52 56 buf))
        (from_be_bytes (slice 56 60 buf))
  ok (record {
    status = byte_at 0 buf;
    connection_id = slice 4 20 buf;
    resume_secret = slice 20 36 buf;
    last_recv_seq = from_be_bytes (slice 36 44 buf);
    negotiated = negotiated;
  })

module _ (io : Io) where
  unfoldable pub write_attach_request : AttachRequest → Task (Streams io) (Unit {0})
  write_attach_request req =
      Streaming.◌>>◌ (Streaming.write_all io (encode_attach_request req)) (Streaming.flush io)

  unfoldable pub read_attach_request : Task (Streams io) AttachRequest
  read_attach_request =
      Streaming.◌>>=◌ (Streaming.read_exact io attach_request_len)
        λ buf. lift (ok (decode_attach_request buf))

  unfoldable pub write_attach_response : AttachResponse → Task (Streams io) (Unit {0})
  write_attach_response resp =
      Streaming.◌>>=◌ (lift (encode_negotiated_recovery_options resp.negotiated)) λ encoded.
        Streaming.◌>>◌ (Streaming.write_all io (encode_attach_response resp encoded))
          (Streaming.flush io)

  unfoldable pub read_attach_response : Task (Streams io) AttachResponse
  read_attach_response =
      Streaming.◌>>=◌ (Streaming.read_exact io attach_response_len)
        λ buf. lift (decode_attach_response buf)

unfoldable pub build_ack_control_payload : ℕ → List ℕ
build_ack_control_payload last_recv_seq = control_type_ack ∷ to_be_bytes 8 last_recv_seq

unfoldable pub build_ping_control_payload : List ℕ
build_ping_control_payload = control_type_ping ∷ []

unfoldable pub build_close_control_payload : List ℕ
build_close_control_payload = control_type_close ∷ []

unfoldable pub parse_control_payload : List ℕ → Result (ℕ × ℕ)
parse_control_payload [] = err (invalid_message "empty control payload")
parse_control_payload (kind ∷ rest) =
    if kind == control_type_ack
    then (if not (length rest + 1 == 9)
        then err (invalid_message "invalid ack control payload length")
        else ok (kind, from_be_bytes rest))
    else if kind == control_type_ping
    then (if not (length rest + 1 == 1)
        then err (invalid_message "invalid heartbeat control payload length")
        else ok (kind, 0))
    else if kind == control_type_close
    then (if not (length rest + 1 == 1)
        then err (invalid_message "invalid close control payload length")
        else ok (kind, 0))
    else err (invalid_message "unknown control frame type")
