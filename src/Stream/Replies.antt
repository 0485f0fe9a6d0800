-- ===== src/Stream/Replies.antt =====
-- src/stream.rs: a request gets its own reply.
use adaptivemsg_rust.Base.{
  ◌+◌, ◌≡◌, refl, List, [], ◌∷◌, ◌++◌, map, some, none, false, arith, length,
}
use adaptivemsg_rust.Error.{ok, err, recv_timeout}
use adaptivemsg_rust.Stream.{
  Inbox, Arrival, arrives, times_out, read_waiting, read_queued, read_raw, take_raw, send_recv,
}

read_waiting-replies :
    {M : Type 0} (stale : List M) (reply : M) (later : List (Arrival M))
    → read_waiting (length stale) (map arrives stale ++ arrives reply ∷ later) ≡ some (ok reply, 0)
read_waiting-replies [] reply later = refl
read_waiting-replies (m ∷ stale) reply later = read_waiting-replies stale reply later

read_queued-all :
    {M : Type 0} (queued stale : List M)
    → read_queued (length (queued ++ stale)) queued ≡ (none, length stale, [])
read_queued-all [] stale = refl
read_queued-all (m ∷ queued) stale = read_queued-all queued stale

-- Of the requests on an open stream, those that timed out left their replies behind: some already in
-- the inbox, the others still to come. The next request, if it is sent and no receive is in progress
-- and no message was peeked, gets the reply that comes after all of these, and none of these is left.
pub send_recv-own_reply :
    {M : Type 0} (s : Inbox M) (stale : List M) (reply : M) (later : List (Arrival M))
    → s.stale_replies ≡ length (s.inbox ++ stale)
    → s.peeked ≡ none
    → s.recv_active ≡ false
    → s.is_closed ≡ false
    → send_recv s (ok tt) (map arrives stale ++ arrives reply ∷ later)
      ≡ some (ok reply, record s { inbox = []; stale_replies = 0 })
unfolding send_recv take_raw read_raw
send_recv-own_reply s stale reply later n p r c =
    ground (arith, read_queued-all s.inbox stale, read_waiting-replies stale reply later)

read_waiting-times_out :
    {M : Type 0} (skipped left : List M) (later : List (Arrival M))
    → read_waiting (length (skipped ++ left)) (map arrives skipped ++ times_out ∷ later)
      ≡ some (err recv_timeout, length left)
read_waiting-times_out [] [] later = refl
read_waiting-times_out [] (m ∷ left) later = refl
read_waiting-times_out (m ∷ skipped) left later = read_waiting-times_out skipped left later

-- A request that is sent on such a stream and times out, when some of the late replies have come
-- during its wait and the others are still to come, leaves those and its own reply behind, and the
-- stream is free for the next request.
pub send_recv-times_out :
    {M : Type 0} (s : Inbox M) (skipped left : List M) (later : List (Arrival M))
    → s.stale_replies ≡ length (s.inbox ++ (skipped ++ left))
    → s.peeked ≡ none
    → s.recv_active ≡ false
    → s.is_closed ≡ false
    → send_recv s (ok tt) (map arrives skipped ++ times_out ∷ later)
      ≡ some (err recv_timeout, record s { inbox = []; stale_replies = length left + 1 })
unfolding send_recv take_raw read_raw
send_recv-times_out s skipped left later n p r c =
    ground
      (arith, read_queued-all s.inbox (skipped ++ left), read_waiting-times_out skipped left later)
