-- ===== src/Connection.antt =====
-- src/connection.rs: the streams of a connection (ConnectionInner). src/stream.rs: opening and closing one.
--
-- A stream is shared by handles, so the streams stand in the store `streams`, and a handle is a position in
-- it. `stream_contexts` maps a stream's ID to its handle, newest first. `incoming` holds the payloads that a
-- stream's decode task has not taken; the task runs while `decoding`, and an empty payload is the FIN.
-- `opened` and `closed_streams` record the calls of `on_new_stream` and `on_close_stream`. Queues have room:
-- waiting for it changes no state. Counters are left out.
pub mod Table
pub mod Inbound
pub mod Validity
use adaptivemsg_rust.Base.{
  ℕ, zero, suc, ◌+◌, ◌-◌, ◌%◌, ◌^◌, bit_and, List, [], ◌∷◌, ◌++◌, Option, some, none, Bool, true,
  false, ltb, ◌==◌, ◌&&◌, ◌||◌, not, if◌then◌else◌, length, get_elem?, is_empty, any, map,
}
use adaptivemsg_rust.Error.{Error, Result, ok, err, panicked, closed}
use adaptivemsg_rust.Frame.{frame_flag_fin}
use adaptivemsg_rust.RecoveryProtocol.{control_stream_id}
use adaptivemsg_rust.Writer.{OutboundFrame, plain, recovery}

abbrev pub default_stream_id : ℕ
default_stream_id = 0

abbrev pub max_stream_id : ℕ
max_stream_id = control_stream_id - 1

pub record Stream : Type 0 where
  pub id : ℕ
  pub incoming : List (List ℕ)
  pub decoding : Bool
  pub is_closed : Bool
  pub fin_started : Bool

pub record Connection : Type 0 where
  pub streams : List Stream
  pub stream_contexts : List (ℕ × ℕ)
  pub default_stream : Option ℕ
  pub closed_peer_streams : List ℕ
  pub next_stream_id : ℕ
  pub closing : Bool
  pub is_closed : Bool
  pub opened : List ℕ
  pub closed_streams : List ℕ

-- The map's `get`, `remove` and the set's `insert`, `remove` and `contains`.
abbrev pub get : List (ℕ × ℕ) → ℕ → Option ℕ
get [] id = none
get ((k, v) ∷ t) id = if k == id then some v else get t id

abbrev pub erase : List (ℕ × ℕ) → ℕ → List (ℕ × ℕ)
erase [] id = []
erase ((k, v) ∷ t) id = if k == id then erase t id else (k, v) ∷ erase t id

abbrev pub contains : List ℕ → ℕ → Bool
contains s id = any (λ x. x == id) s

abbrev pub without : List ℕ → ℕ → List ℕ
without [] id = []
without (x ∷ s) id = if x == id then without s id else x ∷ without s id

abbrev pub update : List Stream → ℕ → (Stream → Stream) → List Stream
update [] i f = []
update (s ∷ ss) zero f = f s ∷ ss
update (s ∷ ss) (suc i) f = s ∷ update ss i f

abbrev pub is_some {ℓ} : {A : Type ℓ} → Option A → Bool
is_some none = false
is_some (some a) = true

-- `StreamInner::new` and `StreamInner::new_closed`
abbrev pub new_stream_inner : ℕ → Stream
new_stream_inner id = record {
  id = id;
  incoming = [];
  decoding = true;
  is_closed = false;
  fin_started = false;
}

abbrev pub new_closed : Stream
new_closed = record {
  id = control_stream_id;
  incoming = [];
  decoding = false;
  is_closed = true;
  fin_started = true;
}

-- A stream in the store that is not registered.
abbrev pub add_closed : Connection → Connection × ℕ
add_closed c = (record c { streams = c.streams ++ new_closed ∷ [] }, length c.streams)

-- `make_stream`: the stream's handle, unless the connection is closed or the ID is taken.
unfoldable pub make_stream : Connection → ℕ → Connection × Option ℕ
make_stream c stream_id =
    if c.is_closed || is_some (get c.stream_contexts stream_id) then (c, none) else (
      record c {
        streams = c.streams ++ new_stream_inner stream_id ∷ [];
        stream_contexts = (stream_id, length c.streams) ∷ c.stream_contexts;
        default_stream =
            if stream_id == default_stream_id then some (length c.streams) else c.default_stream;
      },
      some (length c.streams),
    )

unfoldable pub new_stream : Connection → Connection × ℕ
unfolding make_stream
new_stream c =
    let stream_id = c.next_stream_id in
    let c' = record c { next_stream_id = (c.next_stream_id + 1) % 2 ^ 64 } in
    if ltb max_stream_id stream_id
    then add_closed c'
    else (let (c'', made) = make_stream c' stream_id in
        elim made [ some handle ↦ (c'', handle) | none ↦ add_closed c'' ])

unfoldable pub lookup_stream_ctx : Connection → ℕ → Option ℕ
lookup_stream_ctx c stream_id =
    if stream_id == default_stream_id && is_some c.default_stream
    then c.default_stream
    else get c.stream_contexts stream_id

-- `get_stream_ctx` and `get_stream`
unfoldable pub get_stream : Connection → ℕ → Connection × ℕ
unfolding lookup_stream_ctx make_stream
get_stream c stream_id = elim (lookup_stream_ctx c stream_id) [
  | some handle ↦ (c, handle)
  | none ↦
      (let (c', made) = make_stream c stream_id in
        elim made [
          | some handle ↦ (record c' { opened = c'.opened ++ stream_id ∷ [] }, handle)
          | none ↦ elim (lookup_stream_ctx c' stream_id) [
            | some handle ↦ (c', handle)
            | none ↦ add_closed c'
          ]
        ])
]

unfoldable pub opened_stream : Connection → ℕ → Bool
opened_stream c stream_id = not (stream_id == default_stream_id) && ltb stream_id c.next_stream_id

unfoldable pub inbound_stream : Connection → ℕ → Connection × Option ℕ
unfolding lookup_stream_ctx opened_stream get_stream
inbound_stream c stream_id = elim (lookup_stream_ctx c stream_id) [
  | some handle ↦ (c, some handle)
  | none ↦
      if opened_stream c stream_id || contains c.closed_peer_streams stream_id
      then (c, none)
      else (let (c', handle) = get_stream c stream_id in (c', some handle))
]

-- `StreamInner::close_channels`, which only sets the flag once.
abbrev pub close_channels : Connection → ℕ → Connection
close_channels c handle = record c {
  streams = update c.streams handle (λ s. record s { is_closed = true });
}

-- `remove_stream`: the connection, and whether the stream was registered.
unfoldable pub remove_stream : Connection → ℕ → Connection × Bool
remove_stream c stream_id = elim (get c.stream_contexts stream_id) [
  | none ↦ (c, false)
  | some handle ↦ (
    close_channels (record c { stream_contexts = erase c.stream_contexts stream_id }) handle,
    true,
  )
]

unfoldable pub remove_peer_stream : Connection → ℕ → Connection × Bool
unfolding remove_stream
remove_peer_stream c stream_id =
    remove_stream
      (if not (stream_id == default_stream_id) && is_some (get c.stream_contexts stream_id)
        then record c { closed_peer_streams = stream_id ∷ c.closed_peer_streams }
        else c)
      stream_id

-- `notify_close`, after a stream was removed.
abbrev pub notify_close : Connection × Bool → ℕ → Connection
notify_close (c, true) stream_id = record c { closed_streams = c.closed_streams ++ stream_id ∷ [] }
notify_close (c, false) stream_id = c

-- `incoming_tx.send`: whether the decode task is there to receive.
abbrev pub is_decoding : List Stream → ℕ → Bool
is_decoding ss handle = elim (get_elem? ss handle) [ none ↦ false | some s ↦ s.decoding ]

abbrev pub send_incoming : Connection → ℕ → List ℕ → Connection × Bool
send_incoming c handle payload =
    if is_decoding c.streams handle
    then (
      record c {
        streams = update c.streams handle (λ s. record s { incoming = s.incoming ++ payload ∷ [] });
      },
      true,
    )
    else (c, false)

abbrev pub queue_fin : Connection → ℕ → Connection
queue_fin c handle = (send_incoming c handle []).0

abbrev pub is_fin : ℕ → ℕ → Bool
is_fin stream_id flags =
    not (bit_and flags frame_flag_fin == 0)
    && not (stream_id == default_stream_id)
    && not (stream_id == control_stream_id)

abbrev unreserve : Connection → ℕ → Connection
unreserve c stream_id = record c { closed_peer_streams = without c.closed_peer_streams stream_id }

-- The part of `accept_frame` for the stream that it found.
unfoldable pub deliver : Connection → ℕ → Bool → List ℕ → Connection × Result (Unit {0})
deliver c handle fin payload =
    let (c', sent) = if is_empty payload then (c, true) else send_incoming c handle payload in
    if not sent
    then (c', if c'.is_closed then err closed else ok tt)
    else (if fin then queue_fin c' handle else c', ok tt)

unfoldable pub accept_frame : Connection → ℕ → ℕ → List ℕ → Connection × Result (Unit {0})
unfolding lookup_stream_ctx inbound_stream deliver
accept_frame c stream_id flags payload =
    let fin = is_fin stream_id flags in
    if fin && is_empty payload
    then (
      elim (lookup_stream_ctx c stream_id) [
        | none ↦ unreserve c stream_id
        | some handle ↦ queue_fin (unreserve c stream_id) handle
      ],
      ok tt,
    )
    else (let (c', found) = inbound_stream c stream_id in
        elim found [
          | none ↦ (if fin then unreserve c' stream_id else c', ok tt)
          | some handle ↦ deliver c' handle fin payload
        ])

-- `close_all_streams`
abbrev pub close_handles : List Stream → List (ℕ × ℕ) → List Stream
close_handles ss [] = ss
close_handles ss ((id, handle) ∷ t) =
    close_handles (update ss handle (λ s. record s { is_closed = true })) t

unfoldable pub close_all_streams : Connection → Connection
close_all_streams c = record c {
  streams = close_handles c.streams c.stream_contexts;
  stream_contexts = [];
  default_stream = none;
  closed_streams = c.closed_streams ++ map (λ e. e.0) c.stream_contexts;
}

-- `mark_closed` on these fields.
unfoldable pub mark_closed : Connection → Connection
unfolding close_all_streams
mark_closed c = if c.is_closed then c else close_all_streams (record c { is_closed = true })

abbrev pub queue_fins : Connection → List (ℕ × ℕ) → Connection
queue_fins c [] = c
queue_fins c ((id, handle) ∷ t) = queue_fins (queue_fin c handle) t

-- `close_by_peer` up to its wait: the FIN for every stream.
abbrev pub start_close_by_peer : Connection → Connection
start_close_by_peer c = queue_fins (record c { closing = true }) c.stream_contexts

-- `close_by_peer`: `others` is what the decode tasks and the other tasks do during the wait, which is cut
-- off after a time.
unfoldable pub close_by_peer : (Connection → Connection) → Connection → Connection
unfolding mark_closed
close_by_peer others c =
    if c.closing then mark_closed c else mark_closed (others (start_close_by_peer c))

-- What `enqueue_frame` queues with recovery: any frame, with the channel to tell that it is queued.
abbrev pub with_queued_tx : ℕ → OutboundFrame → Option OutboundFrame
with_queued_tx queued_tx (plain stream_id flags payload) =
    some (recovery stream_id flags payload queued_tx)
with_queued_tx queued_tx (recovery stream_id flags payload other_tx) =
    some (recovery stream_id flags payload queued_tx)
with_queued_tx queued_tx (OutboundFrame.close written) = none

-- `enqueue_frame`: `queue` is the outbound queue. The wait for the answer on `queued_tx` changes no state.
unfoldable pub enqueue_frame :
    Connection → Bool → ℕ → List OutboundFrame → OutboundFrame → Result (List OutboundFrame)
enqueue_frame c recovers queued_tx queue frame =
    if c.closing
    then err closed
    else if not recovers
    then ok (queue ++ frame ∷ [])
    else elim (with_queued_tx queued_tx frame) [ none ↦ err closed | some f ↦ ok (queue ++ f ∷ []) ]

-- `StreamInner::close` up to the task it starts: whether there is one.
unfoldable pub close : Connection → ℕ → Stream → Connection × Bool
unfolding opened_stream remove_peer_stream
close c handle stream =
    if not (opened_stream c stream.id)
    then (notify_close (remove_peer_stream c stream.id) stream.id, false)
    else if stream.fin_started
    then (c, false)
    else (
      record c { streams = update c.streams handle (λ s. record s { fin_started = true }) },
      true,
    )

-- The task that `close` starts: `send_fin`, whose failure is only noted, and the removal.
unfoldable pub send_fin : Connection → Bool → ℕ → List OutboundFrame → ℕ → List OutboundFrame
unfolding enqueue_frame
send_fin c recovers queued_tx queue stream_id =
    elim (enqueue_frame c recovers queued_tx queue (plain stream_id frame_flag_fin [])) [
      | ok queue' ↦ queue'
      | err e ↦ queue
      | panicked ↦ queue
    ]

unfoldable pub finish_close :
    Connection → Bool → ℕ → List OutboundFrame → ℕ → Connection × List OutboundFrame
unfolding send_fin remove_stream
finish_close c recovers queued_tx queue stream_id = (
  notify_close (remove_stream c stream_id) stream_id,
  send_fin c recovers queued_tx queue stream_id,
)

-- One turn of the decode task on the payload that it took: the payload to dispatch, if it is not the FIN.
unfoldable pub decode_step : Connection → ℕ → Connection × Option (List ℕ)
unfolding remove_stream
decode_step c handle = elim (get_elem? c.streams handle) [
  | none ↦ (c, none)
  | some s ↦ elim s.incoming [
    | [] ↦ (c, none)
    | payload ∷ rest ↦
        if is_empty payload
        then (
          notify_close
              (remove_stream
                (record c {
                  streams =
                      update c.streams handle (λ t. record t { incoming = rest; decoding = false });
                })
                s.id)
              s.id,
          none,
        )
        else (
          record c { streams = update c.streams handle (λ t. record t { incoming = rest }) },
          some payload,
        )
  ]
]
