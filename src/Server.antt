-- ===== src/Server.antt =====
-- src/server.rs: the attach of an accepted recovery connection, the connections to close on shutdown
-- (Lifecycle), and the wait after a failed accept.
--
-- `Known` is what the server uses of a connection; the connections stand in the store `conns`, and a
-- connection is known by its position there. The callback `on_connect` and the start of a connection are the
-- argument `starts`. New tokens are arguments. The deadline of the handshake is in
-- Accepting.
pub mod Tokens
pub mod Shutdown
pub mod Resume
pub mod Accepting
pub mod Waits
pub mod Closing
use adaptivemsg_rust.Base.{
  ℕ, zero, suc, ◌+◌, ◌-◌, ◌*◌, min, max, List, [], ◌∷◌, ◌++◌, Option, some, none, Bool, true, false,
  ◌==◌, ◌&&◌, ◌||◌, not, if◌then◌else◌, length, get_elem?, replicate,
}
use Prim.Native.Nat.{bit_or, bit_xor}
use adaptivemsg_rust.Error.{
  Error, Result, ok, err, panicked, IoErrorKind, io, connection_aborted, connection_reset,
  connection_refused,
}
use adaptivemsg_rust.Streaming.{Io, Streams}
use adaptivemsg_rust.Protocol.{HandshakeConfig}
use adaptivemsg_rust.Recovery.{RecoveryState, RecoveryToken, last_received, new_server}
use adaptivemsg_rust.Recovery.Options.{ServerRecoveryOptions, server_default, negotiated_of}
use adaptivemsg_rust.RecoveryProtocol.{
  AttachRequest, AttachResponse, write_attach_response, attach_status_ok, attach_status_rejected,
  attach_mode_new, attach_mode_resume, read_attach_request,
}
use adaptivemsg_rust.Transport.{Link, attach_transport_parts}

abbrev pub accept_retry_min_backoff : ℕ
accept_retry_min_backoff = 5000000

abbrev pub accept_retry_max_backoff : ℕ
accept_retry_max_backoff = 1000000000

-- `(backoff * 2).clamp(min, max)`
unfoldable pub next_accept_backoff : ℕ → ℕ
next_accept_backoff backoff =
    min accept_retry_max_backoff (max accept_retry_min_backoff (backoff * 2))

unfoldable pub is_peer_error : Error → Bool
is_peer_error (Error.io IoErrorKind.connection_aborted) = true
is_peer_error (Error.io IoErrorKind.connection_reset) = true
is_peer_error (Error.io IoErrorKind.connection_refused) = true
is_peer_error e = false

-- `fold(0, |acc, (x, y)| acc | (x ^ y))` over the two tokens.
abbrev pub diff_of : ℕ → RecoveryToken → RecoveryToken → ℕ
diff_of acc [] b = acc
diff_of acc (x ∷ a) [] = acc
diff_of acc (x ∷ a) (y ∷ b) = diff_of (bit_or acc (bit_xor x y)) a b

unfoldable pub tokens_equal : RecoveryToken → RecoveryToken → Bool
tokens_equal a b = diff_of 0 a b == 0

pub data Attached : Type 0 where
  new : ℕ → Attached
  resumed : Attached
  refused : Attached

pub record Known : Type 0 where
  pub is_closed : Bool
  pub codec_id : ℕ
  pub recovery_state : Option RecoveryState
  pub link : Link

pub record Server : Type 0 where
  pub recovery : ServerRecoveryOptions
  pub conns : List Known
  pub recovery_conns : List (RecoveryToken × ℕ)

-- Whether two tokens are the same key of the map.
abbrev pub same_token : RecoveryToken → RecoveryToken → Bool
same_token [] [] = true
same_token [] (y ∷ b) = false
same_token (x ∷ a) [] = false
same_token (x ∷ a) (y ∷ b) = x == y && same_token a b

abbrev pub find : List (RecoveryToken × ℕ) → RecoveryToken → Option ℕ
find [] t = none
find ((k, i) ∷ m) t = if same_token k t then some i else find m t

abbrev pub forget : List (RecoveryToken × ℕ) → RecoveryToken → List (RecoveryToken × ℕ)
forget [] t = []
forget ((k, i) ∷ m) t = if same_token k t then forget m t else (k, i) ∷ forget m t

abbrev pub replace : List Known → ℕ → Known → List Known
replace [] i c = []
replace (x ∷ cs) zero c = c ∷ cs
replace (x ∷ cs) (suc i) c = x ∷ replace cs i c

-- The closure of `existing.and_then` on the connection that was found.
abbrev pub accepted_target :
    HandshakeConfig → AttachRequest → ℕ → Known → Option (ℕ × Known × RecoveryState)
accepted_target config request i conn = elim conn.recovery_state [
  | none ↦ none
  | some recovery ↦
      if not conn.is_closed
        && conn.codec_id == config.codec_id
        && tokens_equal recovery.resume_secret request.resume_secret
      then some (i, conn, recovery)
      else none
]

unfoldable pub resume_target :
    Server → HandshakeConfig → AttachRequest → Option (ℕ × Known × RecoveryState)
resume_target server config request = elim (find server.recovery_conns request.connection_id) [
  | none ↦ none
  | some i ↦ elim (get_elem? server.conns i) [
    | none ↦ none
    | some conn ↦ accepted_target config request i conn
  ]
]

-- `AttachResponse::default` with the rejected status.
abbrev pub rejection : AttachResponse
rejection = record {
  status = attach_status_rejected;
  connection_id = replicate 16 0;
  resume_secret = replicate 16 0;
  last_recv_seq = 0;
  negotiated = negotiated_of server_default;
}

abbrev pub resume_response : RecoveryState → AttachResponse
resume_response recovery = record {
  status = attach_status_ok;
  connection_id = recovery.connection_id;
  resume_secret = recovery.resume_secret;
  last_recv_seq = last_received recovery;
  negotiated = recovery.fields.shared;
}

-- `is_recovery_enabled` of the connection is `recovers`.
abbrev pub move_transport : Server → ℕ → Known → ℕ → Server
move_transport server i conn last_recv_seq = record server {
  conns =
      replace server.conns i
        (record conn { link = attach_transport_parts conn.link true last_recv_seq });
}

module _ (io : Io) where
  unfoldable pub reject_attach : Streams io → Streams io
  reject_attach s = (write_attach_response io rejection s).1

  unfoldable pub attach_resume :
      Server → HandshakeConfig → AttachRequest → Streams io → Attached × Server × Streams io
  unfolding reject_attach resume_target
  attach_resume server config request s = elim (resume_target server config request) [
    | none ↦ (refused, server, reject_attach s)
    | some (i, conn, recovery) ↦
        (let (written, s') = write_attach_response io (resume_response recovery) s in
          elim written [
            | ok u ↦ (resumed, move_transport server i conn request.last_recv_seq, s')
            | err e ↦ (refused, server, s')
            | panicked ↦ (refused, server, s')
          ])
  ]

  -- `conn` is the accepted connection, which has no recovery state yet, and `starts` is whether `start`
  -- succeeds.
  unfoldable pub attach_new :
      Server
      → Known
      → RecoveryToken
      → RecoveryToken
      → Bool
      → Streams io
      → Attached × Server × Streams io
  unfolding new_server negotiated_of
  attach_new server conn connection_id resume_secret starts s =
      let recovery = new_server server.recovery connection_id resume_secret in
      let i = length server.conns in
      let (written, s') =
        write_attach_response io
          (record {
            status = attach_status_ok;
            connection_id = connection_id;
            resume_secret = resume_secret;
            last_recv_seq = 0;
            negotiated = negotiated_of server.recovery;
          })
          s in
      let started : Bool = elim written [ ok u ↦ starts | err e ↦ false | panicked ↦ false ] in
      if started
      then (
        new i,
        record server {
          conns =
              server.conns
              ++ (record conn {
                recovery_state = some recovery;
                link = attach_transport_parts conn.link true 0;
              })
                ∷ [];
          recovery_conns = (connection_id, i) ∷ forget server.recovery_conns connection_id;
        },
        s',
      )
      else (
        refused,
        record server {
          conns = server.conns ++ conn ∷ [];
          recovery_conns = forget server.recovery_conns connection_id;
        },
        s',
      )

  unfoldable pub attach :
      Server
      → Known
      → HandshakeConfig
      → RecoveryToken
      → RecoveryToken
      → Bool
      → Streams io
      → Attached × Server × Streams io
  unfolding attach_new attach_resume reject_attach
  attach server conn config connection_id resume_secret starts s =
      let (res, s') = read_attach_request io s in
      elim res [
        | err e ↦ (refused, server, s')
        | panicked ↦ (refused, server, s')
        | ok request ↦
            if request.mode == attach_mode_new
            then attach_new server conn connection_id resume_secret starts s'
            else if request.mode == attach_mode_resume
            then attach_resume server config request s'
            else (refused, server, reject_attach s')
      ]
