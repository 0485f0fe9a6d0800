-- ===== src/Reconnect.antt =====
-- src/recovery_runtime.rs: how a client resumes its connection (resume_client_transport) and the loop that
-- retries it (reconnect_until_attached, spawn_reconnect_loop).
--
-- The loop reads the outcome of each attempt from a list; where the connection closes during the wait after
-- an attempt, `closes` stands with it. A list that runs out leaves the loop `waiting`.
pub mod Backoff
use adaptivemsg_rust.Base.{
  ℕ, ◌*◌, min, max, List, [], ◌∷◌, Option, some, none, Bool, true, false, ◌==◌, ◌&&◌, ◌||◌, not,
  if◌then◌else◌,
}
use adaptivemsg_rust.Error.{
  Error, Result, ok, err, panicked, closed, connect_timeout, resume_rejected, require,
}
use adaptivemsg_rust.Frame.{protocol_version_v3}
use adaptivemsg_rust.Streaming.{Io, Streams, Task, lift, ◌>>=◌, ◌>>◌}
use adaptivemsg_rust.Protocol.{HandshakeConfig, handshake_client}
use adaptivemsg_rust.Recovery.{RecoveryState, last_received, set_negotiated}
use adaptivemsg_rust.RecoveryProtocol.{
  AttachRequest, AttachResponse, write_attach_request, read_attach_response, attach_mode_resume,
  attach_status_ok,
}
use adaptivemsg_rust.Transport.{Link, attach_transport_parts, shut}

abbrev pub resume_request : RecoveryState → AttachRequest
resume_request r = record {
  mode = attach_mode_resume;
  connection_id = r.connection_id;
  resume_secret = r.resume_secret;
  last_recv_seq = last_received r;
}

module _ (io : Io) (registered : ℕ → Bool) where
  -- The part of `attempt` after the connector gave the streams. `config` is that of the connection.
  unfoldable pub exchange_resume :
      HandshakeConfig → RecoveryState → Task (Streams io) AttachResponse
  exchange_resume config r = do
    shaken ←
        handshake_client io registered (config.codec_id ∷ []) config.max_frame protocol_version_v3
    lift (require (shaken.codec_id == config.codec_id) (resume_rejected "codec changed on resume"))
    write_attach_request io (resume_request r)
    read_attach_response io

  -- `connected` is the connector's result, `late` whether the reconnect timeout passes.
  unfoldable pub attempt_resume :
      HandshakeConfig → RecoveryState → Result (Streams io) → Bool → Result AttachResponse
  unfolding exchange_resume
  attempt_resume config r (err e) late = if late then err connect_timeout else err e
  attempt_resume config r panicked late = if late then err connect_timeout else panicked
  attempt_resume config r (ok s) late =
      if late then err connect_timeout else (exchange_resume config r s).0

-- The end of `resume_client_transport`, on the attempt's result.
unfoldable pub finish_resume :
    Link → RecoveryState → Result AttachResponse → Link × RecoveryState × Result (Unit {0})
unfolding set_negotiated attach_transport_parts
finish_resume l r (err e) = (l, r, err e)
finish_resume l r panicked = (l, r, panicked)
finish_resume l r (ok response) =
    if not (response.status == attach_status_ok)
    then (l, r, err (resume_rejected "resume rejected"))
    else (
      attach_transport_parts l true response.last_recv_seq,
      set_negotiated r response.negotiated,
      ok tt,
    )

abbrev pub resume_client_transport :
    (io : Io)
    → (ℕ → Bool)
    → HandshakeConfig
    → Link
    → RecoveryState
    → Result (Streams io)
    → Bool
    → Link × RecoveryState × Result (Unit {0})
resume_client_transport io registered config l r connected late =
    if not r.has_resume_connector
    then (l, r, err (resume_rejected "resume connector missing"))
    else finish_resume l r (attempt_resume io registered config r connected late)

-- `matches!(err, ResumeRejected(_) | UnsupportedFrameVersion(_))`
abbrev pub is_terminal : Error → Bool
is_terminal (Error.resume_rejected reason) = true
is_terminal (Error.unsupported_frame_version version) = true
is_terminal e = false

-- How the loop ends, with its waits.
pub data Ending : Type 0 where
  attached closed_meanwhile rejected waiting : Ending

abbrev pub after_wait : ℕ → Ending × List ℕ → Ending × List ℕ
after_wait d (e, ws) = (e, d ∷ ws)

-- The outcome of an attempt: attached (`none`), or an error and whether the connection closes in the wait.
abbrev pub retry : ℕ → ℕ → List (Option (Error × Bool)) → Ending × List ℕ
retry backoff max_backoff [] = (waiting, [])
retry backoff max_backoff (none ∷ rest) = (attached, [])
retry backoff max_backoff (some (e, closes) ∷ rest) =
    let more = retry (min (backoff * 2) max_backoff) max_backoff rest in
    if is_terminal e
    then (rejected, [])
    else if closes
    then (closed_meanwhile, backoff ∷ [])
    else after_wait backoff more

unfoldable pub reconnect_until_attached :
    RecoveryState → Bool → List (Option (Error × Bool)) → Ending × List ℕ
reconnect_until_attached r is_closed outcomes =
    if is_closed
    then (closed_meanwhile, [])
    else retry r.reconnect_min_backoff (max r.reconnect_max_backoff r.reconnect_min_backoff)
        outcomes

-- After an ending: a rejection closes the connection.
unfoldable pub after_ending : Link → Ending → Link
unfolding shut
after_ending l attached = l
after_ending l closed_meanwhile = l
after_ending l rejected = shut l
after_ending l waiting = l

-- The end of the task's loop: the flag is cleared, and set again for another round if a detach came while it
-- was set. The result is whether there is another round.
unfoldable pub next_round : Link → RecoveryState → RecoveryState × Bool
next_round l r =
    if l.closed || l.transport_attached
    then (record r { reconnect_active = false }, false)
    else (record r { reconnect_active = true }, true)
