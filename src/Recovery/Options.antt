-- ===== src/Recovery/Options.antt =====
-- src/recovery.rs: the options of recovery, their defaults and their normal forms. A `Duration` is
-- its number of nanoseconds; `saturating_mul` stops at the largest one.
use adaptivemsg_rust.Base.{
  ℕ, ◌-◌, ◌*◌, ◌%◌, ◌^◌, min, Bool, false, ltb, ◌==◌, if◌then◌else◌, ℤ, pos, negsuc, ltb_ℤ,
}

pub record ClientRecoveryOptions : Type 0 where
  pub enable : Bool
  pub reconnect_min_backoff : ℕ
  pub reconnect_max_backoff : ℕ
  pub max_replay_bytes : ℤ

pub record NegotiatedRecoveryOptions : Type 0 where
  pub ack_every : ℕ
  pub ack_delay : ℕ
  pub heartbeat_interval : ℕ
  pub heartbeat_timeout : ℕ

pub record ServerRecoveryOptions : Type 0 where
  pub enable : Bool
  pub detached_ttl : ℕ
  pub max_replay_bytes : ℤ
  pub ack_every : ℕ
  pub ack_delay : ℕ
  pub heartbeat_interval : ℕ
  pub heartbeat_timeout : ℕ

abbrev pub default_max_frame : ℕ
default_max_frame = 16777216

abbrev pub from_millis : ℕ → ℕ
from_millis ms = ms * 1000000

abbrev pub from_secs : ℕ → ℕ
from_secs s = s * 1000000000

-- `Duration::MAX`: 2^64 - 1 seconds and 999,999,999 nanoseconds.
abbrev pub duration_max : ℕ
duration_max = 18446744073709551615999999999

abbrev pub saturating_mul : ℕ → ℕ → ℕ
saturating_mul d k = min (d * k) duration_max

-- `as_nanos() as i64`: the low 64 bits, read as a signed number.
abbrev pub as_nanos_i64 : ℕ → ℤ
as_nanos_i64 d =
    let w = d % 2 ^ 64 in if ltb w 9223372036854775808 then pos w else negsuc (2 ^ 64 - 1 - w)

abbrev pub client_default : ClientRecoveryOptions
client_default = record {
  enable = false;
  reconnect_min_backoff = from_millis 100;
  reconnect_max_backoff = from_secs 2;
  max_replay_bytes = pos (2 * default_max_frame);
}

abbrev pub server_default : ServerRecoveryOptions
server_default = record {
  enable = false;
  detached_ttl = from_secs 30;
  max_replay_bytes = pos (2 * default_max_frame);
  ack_every = 64;
  ack_delay = from_millis 20;
  heartbeat_interval = from_secs 30;
  heartbeat_timeout = from_secs 90;
}

-- The default in place of a zero.
abbrev pub or_default : ℕ → ℕ → ℕ
or_default x d = if x == 0 then d else x

unfoldable pub client_normalized : ClientRecoveryOptions → ClientRecoveryOptions
client_normalized opts =
    let min_backoff = or_default opts.reconnect_min_backoff client_default.reconnect_min_backoff in
    let max_backoff = or_default opts.reconnect_max_backoff client_default.reconnect_max_backoff in
    record opts {
      reconnect_min_backoff = min_backoff;
      reconnect_max_backoff = if ltb max_backoff min_backoff then min_backoff else max_backoff;
      max_replay_bytes =
          if ltb_ℤ (pos 0) opts.max_replay_bytes
          then opts.max_replay_bytes
          else client_default.max_replay_bytes;
    }

-- The check of the heartbeat timeout that ends both `normalized` methods.
abbrev pub at_least_twice : ℕ → ℕ → ℕ
at_least_twice interval timeout =
    let min_timeout = saturating_mul interval 2 in
    if ltb timeout min_timeout then min_timeout else timeout

unfoldable pub server_normalized : ServerRecoveryOptions → ServerRecoveryOptions
server_normalized opts =
    let interval = or_default opts.heartbeat_interval server_default.heartbeat_interval in
    let timeout = or_default opts.heartbeat_timeout server_default.heartbeat_timeout in
    record opts {
      detached_ttl = or_default opts.detached_ttl server_default.detached_ttl;
      max_replay_bytes =
          if ltb_ℤ (pos 0) opts.max_replay_bytes
          then opts.max_replay_bytes
          else server_default.max_replay_bytes;
      ack_every = or_default opts.ack_every server_default.ack_every;
      ack_delay = or_default opts.ack_delay server_default.ack_delay;
      heartbeat_interval = interval;
      heartbeat_timeout = at_least_twice interval timeout;
    }

-- `ServerRecoveryOptions::negotiated`
unfoldable pub negotiated_of : ServerRecoveryOptions → NegotiatedRecoveryOptions
unfolding server_normalized
negotiated_of opts =
    let opts' = server_normalized opts in
    record {
      ack_every = opts'.ack_every;
      ack_delay = opts'.ack_delay;
      heartbeat_interval = opts'.heartbeat_interval;
      heartbeat_timeout = opts'.heartbeat_timeout;
    }

-- `NegotiatedRecoveryOptions::normalized`
unfoldable pub normalized : NegotiatedRecoveryOptions → NegotiatedRecoveryOptions
unfolding negotiated_of
normalized opts =
    let defaults = negotiated_of server_default in
    let interval = or_default opts.heartbeat_interval defaults.heartbeat_interval in
    let timeout = or_default opts.heartbeat_timeout defaults.heartbeat_timeout in
    record {
      ack_every = or_default opts.ack_every defaults.ack_every;
      ack_delay = or_default opts.ack_delay defaults.ack_delay;
      heartbeat_interval = interval;
      heartbeat_timeout = at_least_twice interval timeout;
    }
