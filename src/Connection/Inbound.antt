-- ===== src/Connection/Inbound.antt =====
-- src/connection.rs: what a received frame does to the streams (accept_frame).
use adaptivemsg_rust.Base.{
  ℕ, zero, suc, ◌≡◌, ap, sym, append-nil, append_assoc, ◌∙◌, ◌≢◌, inl, inr, refl, List, [], ◌∷◌,
  ◌++◌, some, none, Bool, true, false, ◌&&◌, if◌then◌else◌, arith, Bool-cases, is_empty,
}
use adaptivemsg_rust.Error.{ok}
use adaptivemsg_rust.Connection.{
  Connection, Stream, get, contains, without, update, is_fin, make_stream, lookup_stream_ctx,
  get_stream, inbound_stream, remove_stream, remove_peer_stream, deliver, accept_frame,
  send_incoming, is_decoding, default_stream_id,
}
use adaptivemsg_rust.Connection.Table.{get-erase}

-- Nothing is registered under the ID of a stream that this side released, and the peer's FIN is awaited.
abbrev pub IsReleased : Connection → ℕ → Type 0
IsReleased c id =
    (id ≢ default_stream_id)
    × (get c.stream_contexts id ≡ none)
    × (contains c.closed_peer_streams id ≡ true)

-- A registered stream other than the default one is released by `remove_peer_stream`: nothing is
-- registered under its ID, and the ID is reserved until the peer's FIN.
pub remove_peer_stream-IsReleased :
    (c : Connection) (id h : ℕ)
    → id ≢ default_stream_id
    → get c.stream_contexts id ≡ some h
    → IsReleased (remove_peer_stream c id).0 id
unfolding remove_peer_stream remove_stream
remove_peer_stream-IsReleased c id h d e =
    (d, ground (arith, get-erase c.stream_contexts id), ground arith)

lookup-released : (c : Connection) (id : ℕ) → IsReleased c id → lookup_stream_ctx c id ≡ none
unfolding lookup_stream_ctx
lookup-released c id r = ground arith

inbound-released : (c : Connection) (id : ℕ) → IsReleased c id → inbound_stream c id ≡ (c, none)
unfolding inbound_stream
inbound-released c id r = ground (arith, lookup-released c id r)

-- A frame without FIN on a released stream is dropped: the connection is as before, and no stream is opened
-- again.
pub accept_frame-released :
    (c : Connection) (id flags : ℕ) (payload : List ℕ)
    → IsReleased c id
    → is_fin id flags ≡ false
    → accept_frame c id flags payload ≡ (c, ok tt)
unfolding accept_frame
accept_frame-released c id flags payload r nf = ground (arith, inbound-released c id r)

contains-without : (s : List ℕ) (id : ℕ) → contains (without s id) id ≡ false
contains-without [] id = refl
contains-without (x ∷ s) id = ground (arith, contains-without s id)

-- A frame with FIN on a released stream ends the reservation of its ID, and changes nothing else.
pub accept_frame-released_fin :
    (c : Connection) (id flags : ℕ) (payload : List ℕ)
    → IsReleased c id
    → is_fin id flags ≡ true
    → (accept_frame c id flags payload
        ≡ (record c { closed_peer_streams = without c.closed_peer_streams id }, ok tt))
      × (contains (accept_frame c id flags payload).0.closed_peer_streams id ≡ false)
unfolding accept_frame
accept_frame-released_fin c id flags payload r f = (
  ground (
    arith,
    inbound-released c id r,
    lookup-released (record c { closed_peer_streams = without c.closed_peer_streams id }) id,
    lookup-released c id r,
  ),
  ground (
    arith,
    inbound-released c id r,
    lookup-released c id r,
    contains-without c.closed_peer_streams id,
  ),
)

-- What the frame puts behind the payloads of its stream: its own, and the mark of the end with FIN.
abbrev pub arrivals : Bool → List ℕ → List (List ℕ)
arrivals fin payload =
    (if is_empty payload then [] else payload ∷ []) ++ (if fin then [] ∷ [] else [])

update-twice :
    (ss : List Stream) (h : ℕ) (f g k : Stream → Stream)
    → ((s : Stream) → g (f s) ≡ k s)
    → update (update ss h f) h g ≡ update ss h k
update-twice [] h f g k e = refl
update-twice (s ∷ ss) zero f g k e = ground (arith, e s)
update-twice (s ∷ ss) (suc h) f g k e = ground (arith, update-twice ss h f g k e)

update-same :
    (ss : List Stream) (h : ℕ) (k : Stream → Stream) → ((s : Stream) → k s ≡ s) → update ss h k ≡ ss
update-same [] h k e = refl
update-same (s ∷ ss) zero k e = ground (arith, e s)
update-same (s ∷ ss) (suc h) k e = ground (arith, update-same ss h k e)

is_decoding-update :
    (ss : List Stream) (h : ℕ) (f : Stream → Stream)
    → ((s : Stream) → (f s).decoding ≡ s.decoding)
    → is_decoding (update ss h f) h ≡ is_decoding ss h
is_decoding-update [] h f e = refl
is_decoding-update (s ∷ ss) zero f e = ground (arith, e s)
is_decoding-update (s ∷ ss) (suc h) f e = is_decoding-update ss h f e

abbrev more : List (List ℕ) → Stream → Stream
more l s = record s { incoming = s.incoming ++ l }

send_incoming-sent :
    (c : Connection) (h : ℕ) (payload : List ℕ)
    → is_decoding c.streams h ≡ true
    → send_incoming c h payload
      ≡ (record c { streams = update c.streams h (more (payload ∷ [])) }, true)
send_incoming-sent c h payload d = rw d refl

deliver-queued :
    (c : Connection) (h : ℕ) (fin : Bool) (payload : List ℕ)
    → is_decoding c.streams h ≡ true
    → deliver c h fin payload
      ≡ (record c { streams = update c.streams h (more (arrivals fin payload)) }, ok tt)
unfolding deliver
deliver-queued c h false [] d =
    ap (λ (ss : List Stream). (record c { streams = ss }, ok tt))
      (sym (
        update-same c.streams h (more [])
          (λ s. ap (λ l. record s { incoming = l }) (append-nil s.incoming))))
deliver-queued c h true [] d = rw d refl
deliver-queued c h false (x ∷ xs) d = rw d refl
deliver-queued c h true (x ∷ xs) d = rw d (
    ap (λ (r : Connection × Bool). (r.0, ok tt))
      (send_incoming-sent (record c { streams = update c.streams h (more ((x ∷ xs) ∷ [])) }) h []
        (is_decoding-update c.streams h (more ((x ∷ xs) ∷ [])) (λ s. refl) ∙ d))
    ∙ ap (λ (ss : List Stream). (record c { streams = ss }, ok tt))
        (update-twice c.streams h (more ((x ∷ xs) ∷ [])) (more ([] ∷ []))
          (more ((x ∷ xs) ∷ [] ∷ []))
          (λ s.
            ap (λ l. record s { incoming = l })
              (append_assoc s.incoming ((x ∷ xs) ∷ []) ([] ∷ [])))))

inbound-found :
    (c : Connection) (id h : ℕ)
    → lookup_stream_ctx c id ≡ some h
    → inbound_stream c id ≡ (c, some h)
unfolding inbound_stream
inbound-found c id h e = ground arith

-- A frame for a registered stream whose decode task runs is queued behind what is there, and the mark of the
-- end behind it; only a FIN without payload also ends the reservation of the ID.
pub accept_frame-queued :
    (c : Connection) (id flags h : ℕ) (payload : List ℕ)
    → lookup_stream_ctx c id ≡ some h
    → is_decoding c.streams h ≡ true
    → accept_frame c id flags payload ≡ (
      record c {
        streams =
            update c.streams h
              (λ s. record s { incoming = s.incoming ++ arrivals (is_fin id flags) payload });
        closed_peer_streams =
            if is_fin id flags && is_empty payload
            then without c.closed_peer_streams id
            else c.closed_peer_streams;
      },
      ok tt,
    )
unfolding accept_frame
accept_frame-queued c id flags h payload e d =
    elim (Bool-cases (is_fin id flags && is_empty payload)) [
      | inl k ↦
          rw (k, e)
            (ap (λ (r : Connection × Bool). (r.0, ok tt))
                (send_incoming-sent
                  (record c { closed_peer_streams = without c.closed_peer_streams id }) h [] d)
              ∙ ap
                  (λ (l : List (List ℕ)). (
                    record c {
                      streams = update c.streams h (more l);
                      closed_peer_streams = without c.closed_peer_streams id;
                    },
                    ok tt,
                  ))
                  (ground arith))
      | inr k ↦
          ground (arith, inbound-found c id h e, deliver-queued c h (is_fin id flags) payload d)
    ]

-- An open connection accepts every frame.
pub accept_frame-ok :
    (c : Connection) (id flags : ℕ) (payload : List ℕ)
    → c.is_closed ≡ false
    → (accept_frame c id flags payload).1 ≡ ok tt
unfolding accept_frame inbound_stream deliver get_stream make_stream
accept_frame-ok c id flags payload o = ground arith

pub accept_frame-is_closed :
    (c : Connection) (id flags : ℕ) (payload : List ℕ)
    → (accept_frame c id flags payload).0.is_closed ≡ c.is_closed
unfolding accept_frame inbound_stream deliver get_stream make_stream
accept_frame-is_closed c id flags payload = ground arith
