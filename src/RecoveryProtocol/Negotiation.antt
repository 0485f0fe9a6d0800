-- ===== src/RecoveryProtocol/Negotiation.antt =====
-- The negotiated options on the wire, in whole milliseconds.
use adaptivemsg_rust.Base.{ℕ, ◌/◌, ◌≤◌, ◌<◌, ◌≡◌, max, arith}
use adaptivemsg_rust.Error.{Result, ok, err, invalid_message}
use adaptivemsg_rust.Frame.{u32_max}
use adaptivemsg_rust.Recovery.Options.{NegotiatedRecoveryOptions, from_millis}
use adaptivemsg_rust.Recovery.Normalized.{IsNegotiable, normalized-of_IsNegotiable}
use adaptivemsg_rust.RecoveryProtocol.{
  EncodedNegotiatedRecoveryOptions, encode_negotiated_recovery_options,
  decode_negotiated_recovery_options, duration_to_millis,
}

-- A duration as the peer reads it: cut to whole milliseconds, one at least.
abbrev pub on_wire : ℕ → ℕ
on_wire d = from_millis (max (d / 1000000) 1)

abbrev pub options_on_wire : NegotiatedRecoveryOptions → NegotiatedRecoveryOptions
options_on_wire o = record {
  ack_every = o.ack_every;
  ack_delay = on_wire o.ack_delay;
  heartbeat_interval = on_wire o.heartbeat_interval;
  heartbeat_timeout = on_wire o.heartbeat_timeout;
}

abbrev pub decode_encoded : EncodedNegotiatedRecoveryOptions → Result NegotiatedRecoveryOptions
decode_encoded e =
    decode_negotiated_recovery_options e.ack_every e.ack_delay_ms e.heartbeat_interval_ms
      e.heartbeat_timeout_ms

-- What the options must meet to be sent: durations of at most 2^32 - 1 milliseconds.
pub record IsSendable (o : NegotiatedRecoveryOptions) : Type 0 where
  pub delay_fits : o.ack_delay / 1000000 ≤ u32_max
  pub interval_fits : o.heartbeat_interval / 1000000 ≤ u32_max
  pub timeout_fits : o.heartbeat_timeout / 1000000 ≤ u32_max

unfoldable pub encoded_of : NegotiatedRecoveryOptions → EncodedNegotiatedRecoveryOptions
encoded_of o = record {
  ack_every = o.ack_every;
  ack_delay_ms = max (o.ack_delay / 1000000) 1;
  heartbeat_interval_ms = max (o.heartbeat_interval / 1000000) 1;
  heartbeat_timeout_ms = max (o.heartbeat_timeout / 1000000) 1;
}

duration_to_millis-ok :
    (d : ℕ) → 0 < d → d / 1000000 ≤ u32_max → duration_to_millis d ≡ ok (max (d / 1000000) 1)
unfolding duration_to_millis
duration_to_millis-ok d h k = ground arith

-- Negotiable options that fit are encoded.
pub encode-encoded_of :
    (o : NegotiatedRecoveryOptions)
    → IsNegotiable o
    → IsSendable o
    → encode_negotiated_recovery_options o ≡ ok (encoded_of o)
unfolding encode_negotiated_recovery_options encoded_of
encode-encoded_of o v f = rw (
  encode_negotiated_recovery_options,
  normalized-of_IsNegotiable o v,
  duration_to_millis-ok o.ack_delay v.delays f.delay_fits,
  duration_to_millis-ok o.heartbeat_interval v.beats f.interval_fits,
  duration_to_millis-ok o.heartbeat_timeout (omega arith) f.timeout_fits,
)

pub decode-encoded_of :
    (o : NegotiatedRecoveryOptions)
    → IsNegotiable o
    → IsSendable o
    → 1000000 ≤ o.heartbeat_interval
    → decode_encoded (encoded_of o) ≡ ok (options_on_wire o)
unfolding decode_negotiated_recovery_options encoded_of
decode-encoded_of o v f h = ground arith

-- Negotiable options with a heartbeat interval of a millisecond at least reach the peer, cut to whole
-- milliseconds.
pub decode-encode :
    (o : NegotiatedRecoveryOptions)
    → IsNegotiable o
    → IsSendable o
    → 1000000 ≤ o.heartbeat_interval
    → (e : EncodedNegotiatedRecoveryOptions) × (encode_negotiated_recovery_options o ≡ ok e)
      × (decode_encoded e ≡ ok (options_on_wire o))
decode-encode o v f h = (encoded_of o, encode-encoded_of o v f, decode-encoded_of o v f h)

-- With an interval below a millisecond and a timeout below two, which are negotiable too, the sender
-- encodes options that the peer refuses: both become one millisecond.
pub decode-encode_refused :
    (o : NegotiatedRecoveryOptions)
    → IsNegotiable o
    → IsSendable o
    → o.heartbeat_interval < 1000000
    → o.heartbeat_timeout < 2000000
    → (e : EncodedNegotiatedRecoveryOptions) × (encode_negotiated_recovery_options o ≡ ok e)
      × (decode_encoded e ≡ err (invalid_message "negotiated heartbeat_timeout too small"))
unfolding decode_negotiated_recovery_options encoded_of
decode-encode_refused o v f h k = (encoded_of o, encode-encoded_of o v f, ground arith)
