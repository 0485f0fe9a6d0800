-- ===== src/Recovery/Normalized.antt =====
-- The normal forms of the recovery options.
use adaptivemsg_rust.Base.{◌≤◌, ◌<◌, ◌≡◌, arith, pos, ◌≤ℤ◌}
use adaptivemsg_rust.Recovery.Options.{
  ClientRecoveryOptions, ServerRecoveryOptions, NegotiatedRecoveryOptions, client_normalized,
  negotiated_of, normalized, saturating_mul,
}

-- What both sides of a connection may rely on.
pub record IsNegotiable (o : NegotiatedRecoveryOptions) : Type 0 where
  pub acks : 0 < o.ack_every
  pub delays : 0 < o.ack_delay
  pub beats : 0 < o.heartbeat_interval
  pub patient : saturating_mul o.heartbeat_interval 2 ≤ o.heartbeat_timeout

-- Any options become negotiable: positive, with a heartbeat timeout of twice the interval at least.
pub normalized-IsNegotiable : (o : NegotiatedRecoveryOptions) → IsNegotiable (normalized o)
unfolding normalized
normalized-IsNegotiable o = ground arith

pub negotiated_of-IsNegotiable : (o : ServerRecoveryOptions) → IsNegotiable (negotiated_of o)
unfolding negotiated_of
negotiated_of-IsNegotiable o = ground arith

-- Negotiable options are left as they are, so normalising twice is normalising once.
pub normalized-of_IsNegotiable : (o : NegotiatedRecoveryOptions) → IsNegotiable o → normalized o ≡ o
unfolding normalized
normalized-of_IsNegotiable o v = ground arith

pub client_normalized_bounds :
    (o : ClientRecoveryOptions)
    → (0 < (client_normalized o).reconnect_min_backoff)
      × ((client_normalized o).reconnect_min_backoff ≤ (client_normalized o).reconnect_max_backoff)
      × (pos 1 ≤ℤ (client_normalized o).max_replay_bytes)
unfolding client_normalized
client_normalized_bounds o = ground arith
