-- ===== src/Client.antt =====
-- src/client.rs: how a client connects.
--
-- The connection that a dial gives is the argument `dialed`, and whether a deadline passes during a step is
-- an argument for each step. The loop of `connect_with` reads the attempts' outcomes from a list, with the
-- time that remains before the deadline after each.
pub mod Connect
use adaptivemsg_rust.Base.{
  ℕ, ◌*◌, min, List, [], ◌∷◌, ◌++◌, Option, some, none, Bool, true, false, ◌==◌, ◌&&◌, not,
  if◌then◌else◌, replicate,
}
use adaptivemsg_rust.Error.{
  Error, Result, ok, err, panicked, IoErrorKind, closed, connect_timeout, connect_timeout_after,
  resume_rejected, unsupported_frame_version,
}
use adaptivemsg_rust.Frame.{protocol_version_v2, protocol_version_v3}
use adaptivemsg_rust.Streaming.{Io, Streams, Task}
use adaptivemsg_rust.Streaming
use adaptivemsg_rust.Protocol.{HandshakeConfig, handshake_client}
use adaptivemsg_rust.Recovery.{RecoveryState, new_client}
use adaptivemsg_rust.Recovery.Options.{ClientRecoveryOptions, client_normalized}
use adaptivemsg_rust.RecoveryProtocol.{
  AttachRequest, AttachResponse, write_attach_request, read_attach_response, attach_mode_new,
  attach_status_ok,
}

abbrev pub connect_retry_min_backoff : ℕ
connect_retry_min_backoff = 100000000

abbrev pub connect_retry_max_backoff : ℕ
connect_retry_max_backoff = 2000000000

pub data ConnectError : Type 0 where
  dial other : Error → ConnectError

-- The configuration of the new connection, its recovery state and the number the peer last received.
pub record Connected : Type 0 where
  pub config : HandshakeConfig
  pub recovery_state : Option RecoveryState
  pub peer_last_recv_seq : ℕ

pub data Attempt : Type 0 where
  connected : Connected → Attempt
  failed : ConnectError → Attempt
  attempt_panicked : Attempt

unfoldable pub is_dial_error : Error → Bool
is_dial_error (Error.io IoErrorKind.invalid_input) = false
is_dial_error (Error.io IoErrorKind.unsupported) = false
is_dial_error (Error.io IoErrorKind.connection_aborted) = true
is_dial_error (Error.io IoErrorKind.connection_reset) = true
is_dial_error (Error.io IoErrorKind.connection_refused) = true
is_dial_error (Error.io IoErrorKind.unexpected_eof) = true
is_dial_error (Error.io IoErrorKind.other) = true
is_dial_error e = false

abbrev pub before : {A : Type 0} → Bool → Result A → Result A
before expired r = if expired then err connect_timeout else r

abbrev pub attempt_of : {A : Type 0} → Result A → (A → Attempt) → Attempt
attempt_of (ok a) k = k a
attempt_of (err e) k = failed (other e)
attempt_of panicked k = attempt_panicked

abbrev pub dial_failure : Error → ConnectError
dial_failure e = if is_dial_error e then dial e else other e

abbrev pub attach_request_new : AttachRequest
attach_request_new = record {
  mode = attach_mode_new;
  connection_id = replicate 16 0;
  resume_secret = replicate 16 0;
  last_recv_seq = 0;
}

-- The end of `connect_version`.
unfoldable pub connected_with :
    ClientRecoveryOptions → Option ℕ → HandshakeConfig → AttachResponse → Attempt
unfolding client_normalized new_client
connected_with opts timeout config response =
    if not (response.status == attach_status_ok)
    then failed (other (resume_rejected "initial attach rejected"))
    else connected (record {
      config = config;
      recovery_state = some (
          new_client (client_normalized opts) response.negotiated response.connection_id
            response.resume_secret timeout);
      peer_last_recv_seq = response.last_recv_seq;
    })

module _ (io : Io) (registered : ℕ → Bool) where
  abbrev pub exchange_attach : Task (Streams io) AttachResponse
  exchange_attach =
      Streaming.◌>>◌ (write_attach_request io attach_request_new) (read_attach_response io)

  unfoldable pub connect_version :
      ClientRecoveryOptions
      → Option ℕ
      → List ℕ
      → ℕ
      → ℕ
      → Result (Streams io)
      → Bool
      → Bool
      → Bool
      → Attempt
  unfolding is_dial_error connected_with
  connect_version opts timeout codecs max_frame version dialed late late' late'' =
      elim (before late dialed) [
        | err e ↦ failed (dial_failure e)
        | panicked ↦ attempt_panicked
        | ok s ↦
            (let (shaken, s') = handshake_client io registered codecs max_frame version s in
              attempt_of (before late' shaken) λ config.
                if not (config.version == protocol_version_v3)
                then connected
                    (record { config = config; recovery_state = none; peer_last_recv_seq = 0 })
                else attempt_of (before late'' (exchange_attach s').0)
                    (connected_with opts timeout config))
      ]

-- `matches!(err, ConnectError::Other(UnsupportedFrameVersion(PROTOCOL_VERSION_V2)))`
abbrev pub is_fallback : ConnectError → Bool
is_fallback (other (unsupported_frame_version v)) = v == protocol_version_v2
is_fallback e = false

-- The loop of `connect_attempt` over the versions.
abbrev pub try_versions : (ℕ → Attempt) → List ℕ → Option ConnectError → Attempt
try_versions connect [] last_err = failed (elim last_err [ none ↦ other closed | some e ↦ e ])
try_versions connect (version ∷ versions) last_err = elim (connect version) [
  | connected c ↦ connected c
  | attempt_panicked ↦ attempt_panicked
  | failed e ↦
      if version == protocol_version_v3 && is_fallback e
      then try_versions connect versions (some e)
      else failed e
]

-- `connect` is `connect_version` at the address.
unfoldable pub connect_attempt : (ℕ → Attempt) → Bool → Attempt
connect_attempt connect use_recovery =
    try_versions connect
      (if use_recovery
        then protocol_version_v3 ∷ protocol_version_v2 ∷ []
        else protocol_version_v2 ∷ [])
      none

-- How `connect_with` ends, and its waits. `trying` is a loop that the outcomes given do not end.
pub data Outcome : Type 0 where
  done : Connected → Outcome
  gave_up : Error → Outcome
  trying panics : Outcome

abbrev pub give_up : ConnectError → Outcome
give_up (dial e) = gave_up e
give_up (other e) = gave_up e

abbrev pub timed_out : ConnectError → Bool
timed_out (other connect_timeout) = true
timed_out e = false

abbrev pub after_wait : ℕ → Outcome × List ℕ → Outcome × List ℕ
after_wait d (o, ws) = (o, d ∷ ws)

abbrev pub report : Option Error → ConnectError → Outcome
report none e = give_up e
report (some last) e = if timed_out e then gave_up (connect_timeout_after last) else give_up e

abbrev pub connect_loop : Bool → ℕ → Option Error → List (Attempt × ℕ) → Outcome × List ℕ
connect_loop deadline backoff last_dial_err [] = (trying, [])
connect_loop deadline backoff last_dial_err ((connected c, remaining) ∷ rest) = (done c, [])
connect_loop deadline backoff last_dial_err ((attempt_panicked, remaining) ∷ rest) = (panics, [])
connect_loop deadline backoff last_dial_err ((failed (other e), remaining) ∷ rest) =
    (report last_dial_err (other e), [])
connect_loop false backoff last_dial_err ((failed (dial e), remaining) ∷ rest) = (gave_up e, [])
connect_loop true backoff last_dial_err ((failed (dial e), remaining) ∷ rest) =
    after_wait (min backoff remaining)
      (connect_loop true (min (backoff * 2) connect_retry_max_backoff) (some e) rest)

unfoldable pub connect_with : Bool → List (Attempt × ℕ) → Outcome × List ℕ
connect_with deadline attempts = connect_loop deadline connect_retry_min_backoff none attempts
