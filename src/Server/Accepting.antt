-- ===== src/Server/Accepting.antt =====
-- src/server.rs: the accept loop (serve_with_accept), the deadline of a handshake step, and what becomes of an accepted
-- connection (handle_conn).
--
-- What `accept` and the shutdown signal do is an argument. A connection is known by a number.
use adaptivemsg_rust.Base.{
  ℕ, ◌+◌, List, [], ◌∷◌, ◌++◌, Option, some, none, Bool, true, false, ltb, ◌==◌, if◌then◌else◌,
}
use adaptivemsg_rust.Error.{Error, Result, ok, err, panicked}
use adaptivemsg_rust.Server.{Attached, new, resumed, refused, next_accept_backoff, is_peer_error}
use adaptivemsg_rust.Server.Shutdown.{Lifecycle, track, untrack, stop}

-- No deadline for a timeout of zero, or for one that the clock cannot add; `limit` is its greatest instant.
unfoldable pub handshake_deadline : ℕ → ℕ → ℕ → Option ℕ
handshake_deadline now limit timeout =
    if timeout == 0 then none else if ltb limit (now + timeout) then none else some (now + timeout)

-- What ends a step of the handshake, at a time.
pub data Ending (T : Type 0) : Type 0 where
  stopped : Ending T
  finished : ℕ → Result T → Ending T

-- The step's value, unless the server stops, the deadline passes or the step fails.
unfoldable pub handshake_step : {T : Type 0} → Option ℕ → Ending T → Option T
handshake_step deadline stopped = none
handshake_step deadline (finished time (err e)) = none
handshake_step deadline (finished time panicked) = none
handshake_step none (finished time (ok value)) = some value
handshake_step (some deadline) (finished time (ok value)) =
    if ltb deadline time then none else some value

-- The loop's state: the wait after the next failure is made from `backoff`; `waits` are the waits so far, newest first,
-- and `handled` the connections that were handed to `handle_conn`.
pub record Accepts : Type 0 where
  pub backoff : ℕ
  pub waits : List ℕ
  pub handled : List ℕ

abbrev pub first_accept : Accepts
first_accept = record { backoff = 0; waits = []; handled = [] }

-- What a turn of the loop meets: the signal, a connection, or an error of `accept` with whether the signal comes in the
-- wait after it.
pub data Accept : Type 0 where
  signalled : Accept
  accepted : ℕ → Accept
  failed : Error → Bool → Accept

-- A turn: the state, and whether the loop goes on.
unfoldable pub accept_turn : Accepts → Accept → Accepts × Bool
unfolding next_accept_backoff is_peer_error
accept_turn s signalled = (s, false)
accept_turn s (accepted conn) = (record s { backoff = 0; handled = s.handled ++ conn ∷ [] }, true)
accept_turn s (failed e signal) = if is_peer_error e then (s, true) else (
  record s {
    backoff = next_accept_backoff s.backoff;
    waits = next_accept_backoff s.backoff ∷ s.waits;
  },
  if signal then false else true,
)

-- The loop over what it meets, up to its end.
abbrev pub serve_with_accept : Accepts → List Accept → Accepts × Bool
serve_with_accept s [] = (s, true)
serve_with_accept s (a ∷ later) = elim (accept_turn s a).1 [
  | false ↦ ((accept_turn s a).0, false)
  | true ↦ serve_with_accept (accept_turn s a).0 later
]

-- The end of `handle_conn`, with `close_now` for a refused connection: `closing` are the connections that were told to
-- close.
pub record Served : Type 0 where
  pub lifecycle : Lifecycle
  pub closing : List ℕ

pub data Happening : Type 0 where
  attaches : ℕ → Attached → Happening
  ends : ℕ → Happening
  shuts : Happening

abbrev pub tracked : Served → ℕ → Lifecycle × Bool → Served
tracked s conn (l, true) = record s { lifecycle = l }
tracked s conn (l, false) = record { lifecycle = l; closing = conn ∷ s.closing }

-- A connection is attached, or ends, or the accept loop has ended and closes what is tracked.
unfoldable pub happens : Served → Happening → Served
unfolding track untrack stop
happens s (attaches handle (new conn)) = tracked s conn (track s.lifecycle conn)
happens s (attaches handle resumed) = s
happens s (attaches handle refused) = record s { closing = handle ∷ s.closing }
happens s (ends conn) = record s { lifecycle = untrack s.lifecycle conn }
happens s shuts = record {
  lifecycle = (stop s.lifecycle).0;
  closing = (stop s.lifecycle).1 ++ s.closing;
}

abbrev pub serve : Served → List Happening → Served
serve s [] = s
serve s (h ∷ hs) = serve (happens s h) hs
