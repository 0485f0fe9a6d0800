-- ===== src/Stream.antt =====
-- src/stream.rs: receiving on a stream, and the reply to a request.
--
-- The messages of the stream have a type of their own. `inbox` holds those that were delivered. What comes
-- while the code waits for a message is an argument: a message, the end of the stream or of the connection,
-- or the timeout. Locks and counters are left out.
pub mod Replies
use adaptivemsg_rust.Base.{
  ℕ, zero, suc, ◌+◌, ◌-◌, List, [], ◌∷◌, ◌++◌, Option, some, none, Bool, true, false, ltb,
  if◌then◌else◌,
}
use adaptivemsg_rust.Error.{Error, Result, ok, err, panicked, closed, recv_timeout, concurrent_recv}

pub record Inbox (M : Type 0) : Type 0 where
  pub inbox : List M
  pub peeked : Option M
  pub stale_replies : ℕ
  pub recv_active : Bool
  pub is_closed : Bool

pub data Arrival (M : Type 0) : Type 0 where
  arrives : M → Arrival M
  ends : Arrival M
  times_out : Arrival M

module _ {M : Type 0} where
  -- The `loop` of `read_raw` over the messages that come while it waits; `next_inbox` is its body. `skip` is
  -- the number of stale replies left. The result has what was not read.
  abbrev pub read_waiting : ℕ → List (Arrival M) → Option (Result M × ℕ)
  read_waiting skip [] = none
  read_waiting skip (ends ∷ later) = some (err closed, skip)
  read_waiting skip (times_out ∷ later) = some (err recv_timeout, skip)
  read_waiting zero (arrives m ∷ later) = some (ok m, 0)
  read_waiting (suc skip) (arrives m ∷ later) = read_waiting skip later

  -- The same loop over the messages in the inbox: what they give, the stale replies left and the rest.
  abbrev pub read_queued : ℕ → List M → Option M × ℕ × List M
  read_queued skip [] = (none, skip, [])
  read_queued zero (m ∷ ms) = (some m, 0, ms)
  read_queued (suc skip) (m ∷ ms) = read_queued skip ms

  -- `none` is a wait that goes on.
  unfoldable pub read_raw : Inbox M → List (Arrival M) → Option (Result M × Inbox M)
  read_raw s arrivals =
      let (found, skip, rest) = read_queued s.stale_replies s.inbox in
      let s' = record s { inbox = rest; stale_replies = skip } in
      elim found [
        | some m ↦ some (ok m, s')
        | none ↦ if s.is_closed then some (err closed, s') else elim (read_waiting skip arrivals) [
          | none ↦ none
          | some (r, skip') ↦ some (r, record s' { stale_replies = skip' })
        ]
      ]

  unfoldable pub take_raw : Inbox M → List (Arrival M) → Option (Result M × Inbox M)
  unfolding read_raw
  take_raw s arrivals = elim s.peeked [
    | some m ↦ some (ok m, record s { peeked = none })
    | none ↦ read_raw s arrivals
  ]

  -- `recv_guard`, and the guard's drop.
  abbrev pub recv_guard : Inbox M → Result (Inbox M)
  recv_guard s = if s.recv_active then err concurrent_recv else ok (record s { recv_active = true })

  abbrev pub drop_guard : Option (Result M × Inbox M) → Option (Result M × Inbox M)
  drop_guard none = none
  drop_guard (some (r, s)) = some (r, record s { recv_active = false })

  unfoldable pub recv_raw : Inbox M → List (Arrival M) → Option (Result M × Inbox M)
  unfolding take_raw
  recv_raw s arrivals = elim (recv_guard s) [
    | err e ↦ some (err e, s)
    | panicked ↦ some (panicked, s)
    | ok s' ↦ drop_guard (take_raw s' arrivals)
  ]

  -- `peek_wire`, for the message whose wire name it returns.
  abbrev pub peeked_now : Option (Result M × Inbox M) → Option (Result M × Inbox M)
  peeked_now none = none
  peeked_now (some (ok m, s)) = some (ok m, record s { peeked = some m })
  peeked_now (some (err e, s)) = some (err e, s)
  peeked_now (some (panicked, s)) = some (panicked, s)

  unfoldable pub peek_wire : Inbox M → List (Arrival M) → Option (Result M × Inbox M)
  unfolding read_raw
  peek_wire s arrivals = elim (recv_guard s) [
    | err e ↦ some (err e, s)
    | panicked ↦ some (panicked, s)
    | ok s' ↦
        drop_guard
          (elim s'.peeked [ some m ↦ some (ok m, s') | none ↦ peeked_now (read_raw s' arrivals) ])
  ]

  -- A timeout counts its reply as stale.
  abbrev pub count_stale : Option (Result M × Inbox M) → Option (Result M × Inbox M)
  count_stale none = none
  count_stale (some (ok m, s)) = some (ok m, s)
  count_stale (some (panicked, s)) = some (panicked, s)
  count_stale (some (err e, s)) =
      some
        (err e, elim e [ recv_timeout ↦ record s { stale_replies = s.stale_replies + 1 } | _ ↦ s ])

  -- `send_recv` up to the reply; `sent` is the result of sending the request.
  unfoldable pub send_recv :
      Inbox M → Result (Unit {0}) → List (Arrival M) → Option (Result M × Inbox M)
  unfolding take_raw
  send_recv s sent arrivals = elim (recv_guard s) [
    | err e ↦ some (err e, s)
    | panicked ↦ some (panicked, s)
    | ok s' ↦ elim sent [
      | err e ↦ some (err e, s)
      | panicked ↦ some (panicked, s)
      | ok u ↦ drop_guard (count_stale (take_raw s' arrivals))
    ]
  ]
