-- ===== src/Recovery.antt =====
-- src/recovery.rs: recovery options and the state of a recoverable connection.
--
-- A `Duration` is its number of nanoseconds. The clock is an argument: `now` is what
-- `elapsed_nanos` returns. A method that reads the clock twice takes both readings. The atomics and
-- the fields behind the lock are fields of one record, and each method is one step on it.
pub mod Options
pub mod Normalized
pub mod Ack
use adaptivemsg_rust.Base.{
  ℕ, ◌+◌, ◌-◌, ◌%◌, ◌^◌, Bool, true, false, ltb, leb, ◌==◌, ◌&&◌, ◌||◌, not, if◌then◌else◌, Option,
  some, none, List, ℤ, pos, to_ℕ, length,
}
use adaptivemsg_rust.Replay.{ReplayBuffer, FrameRecord}
use adaptivemsg_rust.Replay
use adaptivemsg_rust.Frame.{protocol_version_v3}
use Options.{
  ClientRecoveryOptions, ServerRecoveryOptions, NegotiatedRecoveryOptions, client_normalized,
  server_normalized, negotiated_of, normalized, as_nanos_i64,
}

-- `RecoveryToken`: 16 bytes.
abbrev pub RecoveryToken : Type 0
RecoveryToken = List ℕ

pub data RecoveryRole : Type 0 where
  client server : RecoveryRole

pub record RecoveryStateFields : Type 0 where
  pub shared : NegotiatedRecoveryOptions
  pub last_recv_seq : ℕ
  pub last_ack_sent : ℕ
  pub ack_pending : ℕ

-- `resume_connector` and `registry` are kept as whether they are present.
pub record RecoveryState : Type 0 where
  pub role : RecoveryRole
  pub connection_id : RecoveryToken
  pub resume_secret : RecoveryToken
  pub replay : ReplayBuffer
  pub resume_depth : ℕ
  pub reconnect_min_backoff : ℕ
  pub reconnect_max_backoff : ℕ
  pub reconnect_timeout : Option ℕ
  pub detached_ttl : ℕ
  pub reconnect_active : Bool
  pub ack_every : ℕ
  pub ack_due : Bool
  pub ack_due_at : ℕ
  pub ack_delay_nanos : ℤ
  pub heartbeat_interval_nanos : ℤ
  pub heartbeat_timeout_nanos : ℤ
  pub has_resume_connector : Bool
  pub has_registry : Bool
  pub fields : RecoveryStateFields

unfoldable pub new_client :
    ClientRecoveryOptions
    → NegotiatedRecoveryOptions
    → RecoveryToken
    → RecoveryToken
    → Option ℕ
    → RecoveryState
unfolding client_normalized normalized Replay.new
new_client opts negotiated connection_id resume_secret reconnect_timeout =
    let opts' = client_normalized opts in
    let neg = normalized negotiated in
    record {
      role = client;
      connection_id = connection_id;
      resume_secret = resume_secret;
      replay = Replay.new protocol_version_v3 opts'.max_replay_bytes;
      resume_depth = 0;
      reconnect_min_backoff = opts'.reconnect_min_backoff;
      reconnect_max_backoff = opts'.reconnect_max_backoff;
      reconnect_timeout = reconnect_timeout;
      detached_ttl = 0;
      reconnect_active = false;
      ack_every = neg.ack_every;
      ack_due = false;
      ack_due_at = 0;
      ack_delay_nanos = as_nanos_i64 neg.ack_delay;
      heartbeat_interval_nanos = as_nanos_i64 neg.heartbeat_interval;
      heartbeat_timeout_nanos = as_nanos_i64 neg.heartbeat_timeout;
      has_resume_connector = true;
      has_registry = false;
      fields = record { shared = neg; last_recv_seq = 0; last_ack_sent = 0; ack_pending = 0 };
    }

unfoldable pub new_server : ServerRecoveryOptions → RecoveryToken → RecoveryToken → RecoveryState
unfolding server_normalized negotiated_of Replay.new
new_server opts connection_id resume_secret =
    let opts' = server_normalized opts in
    let neg = negotiated_of opts' in
    record {
      role = server;
      connection_id = connection_id;
      resume_secret = resume_secret;
      replay = Replay.new protocol_version_v3 opts'.max_replay_bytes;
      resume_depth = 0;
      reconnect_min_backoff = 0;
      reconnect_max_backoff = 0;
      reconnect_timeout = none;
      detached_ttl = opts'.detached_ttl;
      reconnect_active = false;
      ack_every = neg.ack_every;
      ack_due = false;
      ack_due_at = 0;
      ack_delay_nanos = as_nanos_i64 neg.ack_delay;
      heartbeat_interval_nanos = as_nanos_i64 neg.heartbeat_interval;
      heartbeat_timeout_nanos = as_nanos_i64 neg.heartbeat_timeout;
      has_resume_connector = false;
      has_registry = true;
      fields = record { shared = neg; last_recv_seq = 0; last_ack_sent = 0; ack_pending = 0 };
    }

unfoldable pub last_received : RecoveryState → ℕ
last_received s = s.fields.last_recv_seq

unfoldable pub ack_received : RecoveryState → ℕ → RecoveryState
ack_received s last_seq = record s { replay = (Replay.ack s.replay last_seq).0 }

unfoldable pub set_negotiated : RecoveryState → NegotiatedRecoveryOptions → RecoveryState
unfolding normalized
set_negotiated s opts =
    let neg = normalized opts in
    record s {
      fields = record (s.fields) { shared = neg };
      ack_every = neg.ack_every;
      ack_delay_nanos = as_nanos_i64 neg.ack_delay;
      heartbeat_interval_nanos = as_nanos_i64 neg.heartbeat_interval;
      heartbeat_timeout_nanos = as_nanos_i64 neg.heartbeat_timeout;
    }

-- The frames for the writer to replay, after the acknowledgement that `last_seq` stands for.
unfoldable pub prepare_resume : RecoveryState → ℕ → RecoveryState × List FrameRecord
prepare_resume s last_seq =
    let acked = (Replay.ack s.replay last_seq).0 in
    let frames = Replay.snapshot_from acked last_seq in
    (record s { replay = acked; resume_depth = length frames }, frames)

-- Whether the writer should be woken for an ACK.
unfoldable pub note_received : RecoveryState → ℕ → ℕ → RecoveryState × Bool
note_received s seq now =
    let f = s.fields in
    if leb seq f.last_recv_seq
    then (record s { ack_due = s.ack_due || ltb f.last_ack_sent f.last_recv_seq }, true)
    else (let ack_pending : ℕ = (f.ack_pending + 1) % 2 ^ 32 in
        let ack_delay : ℕ = to_ℕ s.ack_delay_nanos in
        let s' = record s {
          fields = record f { last_recv_seq = seq; ack_pending = ack_pending };
        } in
        if leb s.ack_every 1 || leb s.ack_every ack_pending || ack_delay == 0
        then (record s' { ack_due = true; ack_due_at = 0 }, true)
        else if s.ack_due_at == 0
        then (record s' { ack_due_at = (now + ack_delay) % 2 ^ 64 }, true)
        else (s', false))

unfoldable pub next_ack_wait : RecoveryState → ℕ → ℕ
next_ack_wait s now = if s.ack_due then 0 else if s.ack_due_at == 0 then 0 else s.ack_due_at - now

unfoldable pub ack_may_be_due : RecoveryState → ℕ → Bool
ack_may_be_due s now = if s.ack_due then true else not (s.ack_due_at == 0) && leb s.ack_due_at now

-- `now` is the clock before the lock is taken, `now'` after it.
unfoldable pub take_pending_ack : RecoveryState → ℕ → ℕ → RecoveryState × Option ℕ
unfolding ack_may_be_due
take_pending_ack s now now' =
    let f = s.fields in
    if not (ack_may_be_due s now)
    then (s, none)
    else if leb f.last_recv_seq f.last_ack_sent
    then (record s { ack_due = false; ack_due_at = 0 }, none)
    else if not (ack_may_be_due s now')
    then (s, none)
    else (let seq = f.last_recv_seq in
        (
          record s {
            fields = record f { last_ack_sent = seq; ack_pending = 0 };
            ack_due = false;
            ack_due_at = 0;
          },
          some seq,
        ))

unfoldable pub heartbeat_interval : RecoveryState → ℕ
heartbeat_interval s = to_ℕ s.heartbeat_interval_nanos

unfoldable pub heartbeat_timeout : RecoveryState → ℕ
heartbeat_timeout s = to_ℕ s.heartbeat_timeout_nanos
