-- ===== src/Examples/Streams.antt =====
-- The streams, the server and the client at concrete inputs.
use adaptivemsg_rust.Base.{
  ℕ, ◌≡◌, ◌≢◌, refl, ◌⊎◌, [], ◌∷◌, ◌++◌, some, none, true, false, ◌==◌, replicate, arith, pos,
  if◌then◌else◌,
}
use adaptivemsg_rust.Error.{
  Error, ok, err, io, connection_refused, connect_timeout, connect_timeout_after, recv_timeout,
  resume_rejected, unsupported_frame_version,
}
use adaptivemsg_rust.Connection.{
  Connection, accept_frame, remove_peer_stream, lookup_stream_ctx, new_stream_inner,
}
use adaptivemsg_rust.Connection.Table.{IsValid}
use adaptivemsg_rust.Connection.Validity.{accept_frame-IsValid}
use adaptivemsg_rust.Connection.Inbound.{
  IsReleased, remove_peer_stream-IsReleased, accept_frame-released, accept_frame-queued,
}
use adaptivemsg_rust.Streaming.Pipe.{pipe}
use adaptivemsg_rust.Protocol.{HandshakeConfig}
use adaptivemsg_rust.Recovery.Options.{server_default, negotiated_of, client_normalized, normalized}
use adaptivemsg_rust.RecoveryProtocol.{
  AttachRequest, write_attach_response, encode_negotiated_recovery_options, duration_to_millis,
}
use adaptivemsg_rust.Streaming.{write_all, flush}
use adaptivemsg_rust.Server.{
  Server, Known, resumed, refused, attach_resume, move_transport, resume_response, tokens_equal,
}
use adaptivemsg_rust.Server.Resume.{attach_resume_lem, IsResumable}
use adaptivemsg_rust.Server.Shutdown.{
  track, stop, run, tracked, untracked, holds, stop-track, new_lifecycle,
}
use adaptivemsg_rust.Recovery.{RecoveryState, new_client, new_server}
use adaptivemsg_rust.Client.{
  Attempt, failed, other, connect_attempt, connect_with, attempt_panicked, done, gave_up, connected,
  Connected,
}
use adaptivemsg_rust.Client.Connect.{connect_attempt_lem, connect_with-retries, refusals}
use adaptivemsg_rust.Reconnect.{reconnect_until_attached, attached, rejected}
use adaptivemsg_rust.Reconnect.Backoff.{reconnect_until_attached_lem, failures}
use adaptivemsg_rust.Stream.{Inbox, send_recv, arrives, times_out}
use adaptivemsg_rust.Stream.Replies.{send_recv-own_reply, send_recv-times_out}

-- Stream 7, which the peer opened, with one payload waiting.
abbrev one_stream : Connection
one_stream = record {
  streams = record (new_stream_inner 7) { incoming = (1 ∷ []) ∷ [] } ∷ [];
  stream_contexts = (7, 0) ∷ [];
  default_stream = none;
  closed_peer_streams = [];
  next_stream_id = 1;
  closing = false;
  is_closed = false;
  opened = 7 ∷ [];
  closed_streams = [];
}

abbrev released : Connection
released = record one_stream { stream_contexts = []; closed_peer_streams = 7 ∷ [] }

accept_frame-queued_example : accept_frame one_stream 7 1 (2 ∷ []) ≡ (
  record one_stream {
    streams = record (new_stream_inner 7) { incoming = (1 ∷ []) ∷ (2 ∷ []) ∷ [] ∷ [] } ∷ [];
  },
  ok tt,
)
unfolding lookup_stream_ctx
accept_frame-queued_example = accept_frame-queued one_stream 7 1 0 (2 ∷ []) refl refl

remove_peer_stream-IsReleased_example : IsReleased (remove_peer_stream one_stream 7).0 7
remove_peer_stream-IsReleased_example =
    remove_peer_stream-IsReleased one_stream 7 0 (omega arith) refl

released-IsReleased : IsReleased released 7
released-IsReleased = (omega arith, refl, refl)

accept_frame-released_example : accept_frame released 7 0 (2 ∷ []) ≡ (released, ok tt)
accept_frame-released_example = accept_frame-released released 7 0 (2 ∷ []) released-IsReleased refl

accept_frame-IsValid_example : IsValid (accept_frame one_stream 9 0 (2 ∷ [])).0
accept_frame-IsValid_example =
    accept_frame-IsValid one_stream 9 0 (2 ∷ [])
      (record { table = (refl, refl, tt); default_id = λ h e. cc; emptied = λ e. cc })

abbrev request : AttachRequest
request = record {
  mode = 1;
  connection_id = replicate 16 5;
  resume_secret = replicate 16 9;
  last_recv_seq = 7;
}

abbrev config : HandshakeConfig
config = record { version = 3; codec_id = 1; max_frame = 512 }

-- One connection, detached, which the request names with its secret.
abbrev detached : Known
detached = record {
  is_closed = false;
  codec_id = 1;
  recovery_state = some (new_server server_default (replicate 16 5) (replicate 16 9));
  link = record {
    closed = false;
    closing = false;
    transport_gen = 2;
    transport_attached = false;
    current_reader = none;
    writer_cmds = [];
    send_signalled = false;
    spawned = [];
  };
}

abbrev one_detached : Server
one_detached = record {
  recovery = server_default;
  conns = detached ∷ [];
  recovery_conns = (replicate 16 5, 0) ∷ [];
}

attach_resume_lem_example :
    ((attach_resume pipe one_detached config request ([], [])).0 ≡ refused)
      × ((attach_resume pipe one_detached config request ([], [])).1 ≡ one_detached)
      × ((i : ℕ) (conn : Known) (recovery : RecoveryState)
          → IsResumable one_detached config request i conn recovery
          → (write_attach_response pipe (resume_response recovery) ([], [])).0 ≢ ok tt)
    ⊎ ((i : ℕ) × (conn : Known) × (recovery : RecoveryState) × IsResumable one_detached config
          request i conn recovery
        × ((attach_resume pipe one_detached config request ([], [])).0 ≡ resumed)
        × ((attach_resume pipe one_detached config request ([], [])).1
            ≡ move_transport one_detached i conn 7))
unfolding new_server
attach_resume_lem_example =
    attach_resume_lem pipe one_detached config request ([], []) (refl, tt) refl

attach_resume_test : (attach_resume pipe one_detached config request ([], [])).0 ≡ resumed
unfolding attach_resume new_server tokens_equal write_attach_response
    encode_negotiated_recovery_options duration_to_millis normalized write_all flush
attach_resume_test = refl

attach_resume_wrong_secret_test :
    (attach_resume pipe one_detached config
      (record request { resume_secret = replicate 16 8 })
      ([], [])).0
    ≡ refused
unfolding attach_resume new_server tokens_equal
attach_resume_wrong_secret_test = refl

stop-track_example :
    (holds (stop (run (track new_lifecycle 5).0 (tracked 6 ∷ untracked 6 ∷ []))).1 5 ≡ true)
    × ((c : ℕ)
        → (track (stop (run (track new_lifecycle 5).0 (tracked 6 ∷ untracked 6 ∷ []))).0 c).1
          ≡ false)
unfolding track
stop-track_example =
    stop-track new_lifecycle 5 (tracked 6 ∷ untracked 6 ∷ []) refl (tt, (ground arith, tt))

abbrev only_v2 : ℕ → Attempt
only_v2 version =
    if version == 3 then failed (other (unsupported_frame_version 2)) else attempt_panicked

connect_attempt_lem_example :
    (connect_attempt only_v2 false ≡ only_v2 2)
    × ((only_v2 3 ≢ failed (other (unsupported_frame_version 2)))
          × (connect_attempt only_v2 true ≡ only_v2 3)
        ⊎ (only_v2 3 ≡ failed (other (unsupported_frame_version 2)))
          × (connect_attempt only_v2 true ≡ only_v2 2))
connect_attempt_lem_example = connect_attempt_lem only_v2

abbrev refusal : Error
refusal = io connection_refused

abbrev plain_connection : Connected
plain_connection = record { config = config; recovery_state = none; peer_last_recv_seq = 0 }

connect_with-retries_example :
    (connect_with true (
        refusals ((refusal, 5000000000) ∷ (refusal, 40000000) ∷ [])
        ++ (connected plain_connection, 0) ∷ [])
      ≡ (done plain_connection, 100000000 ∷ 40000000 ∷ []))
    × (connect_with true (
          refusals ((refusal, 5000000000) ∷ (refusal, 40000000) ∷ [])
          ++ (failed (other connect_timeout), 0) ∷ [])
        ≡ (gave_up (connect_timeout_after refusal), 100000000 ∷ 40000000 ∷ []))
connect_with-retries_example =
    connect_with-retries refusal 5000000000 ((refusal, 40000000) ∷ []) plain_connection 0 []

-- One stale reply in the inbox and one to come.
abbrev two_stale : Inbox ℕ
two_stale = record {
  inbox = 11 ∷ [];
  peeked = none;
  stale_replies = 2;
  recv_active = false;
  is_closed = false;
}

send_recv-own_reply_example :
    send_recv two_stale (ok tt) (arrives 12 ∷ arrives 13 ∷ [])
    ≡ some (ok 13, record two_stale { inbox = []; stale_replies = 0 })
send_recv-own_reply_example = send_recv-own_reply two_stale (12 ∷ []) 13 [] refl refl refl refl

-- The reply 12 comes during the wait, and one more is left besides the request's own.
send_recv-times_out_example :
    send_recv (record two_stale { stale_replies = 3 }) (ok tt) (arrives 12 ∷ times_out ∷ [])
    ≡ some (err recv_timeout, record two_stale { inbox = []; stale_replies = 2 })
send_recv-times_out_example =
    send_recv-times_out (record two_stale { stale_replies = 3 }) (12 ∷ []) (14 ∷ []) [] refl refl
      refl refl

abbrev reconnecting : RecoveryState
reconnecting =
    new_client
      (record {
        enable = true;
        reconnect_min_backoff = 100;
        reconnect_max_backoff = 300;
        max_replay_bytes = pos 64;
      })
      (negotiated_of server_default) [] [] none

reconnect_until_attached_lem_example :
    (reconnect_until_attached reconnecting false
        (failures (refusal ∷ connect_timeout ∷ refusal ∷ []) ++ none ∷ [])
      ≡ (attached, 100 ∷ 200 ∷ 300 ∷ []))
    × (reconnect_until_attached reconnecting false (
          failures (refusal ∷ connect_timeout ∷ refusal ∷ [])
          ++ some (resume_rejected "gone", false) ∷ [])
        ≡ (rejected, 100 ∷ 200 ∷ 300 ∷ []))
unfolding new_client client_normalized
reconnect_until_attached_lem_example =
    reconnect_until_attached_lem reconnecting (refusal ∷ connect_timeout ∷ refusal ∷ [])
      (resume_rejected "gone") false [] (refl, (refl, (refl, tt))) refl
