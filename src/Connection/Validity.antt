-- ===== src/Connection/Validity.antt =====
-- src/connection.rs: a received frame keeps the table of streams valid (accept_frame).
use adaptivemsg_rust.Base.{
  ℕ, ◌≡◌, ◌⊎◌, inl, inr, refl, List, [], ◌∷◌, ◌++◌, Bool, ◌&&◌, arith, Bool-cases, Option-cases,
  is_empty,
}
use adaptivemsg_rust.Connection.{
  Connection, without, update, is_fin, new_closed, add_closed, make_stream, lookup_stream_ctx,
  get_stream, inbound_stream, deliver, accept_frame, send_incoming, is_decoding, queue_fin,
}
use adaptivemsg_rust.Connection.Table.{
  IsValid, update-Keeps, append-Keeps, store-IsValid, make_stream-IsValid,
}

send_incoming-IsValid :
    (c : Connection) (h : ℕ) (payload : List ℕ) → IsValid c → IsValid (send_incoming c h payload).0
send_incoming-IsValid c h payload v = elim (Bool-cases (is_decoding c.streams h)) [
  | inl e ↦ rw e (
      store-IsValid c (update c.streams h (λ s. record s { incoming = s.incoming ++ payload ∷ [] }))
        (update-Keeps c.streams h (λ s. record s { incoming = s.incoming ++ payload ∷ [] })
          (λ s. refl))
        v)
  | inr e ↦ rw e v
]

add_closed-IsValid : (c : Connection) → IsValid c → IsValid (add_closed c).0
add_closed-IsValid c v =
    store-IsValid c (c.streams ++ new_closed ∷ []) (append-Keeps c.streams new_closed) v

get_stream-cases :
    (c : Connection) (id : ℕ)
    → ((get_stream c id).0 ≡ c)
      ⊎ ((get_stream c id).0
          ≡ record ((make_stream c id).0) { opened = (make_stream c id).0.opened ++ id ∷ [] })
      ⊎ ((get_stream c id).0 ≡ (make_stream c id).0)
      ⊎ ((get_stream c id).0 ≡ (add_closed (make_stream c id).0).0)
unfolding get_stream
get_stream-cases c id = ground arith

get_stream-IsValid : (c : Connection) (id : ℕ) → IsValid c → IsValid (get_stream c id).0
get_stream-IsValid c id v =
    let m = make_stream-IsValid c id v in
    elim (get_stream-cases c id) [
      | inl e ↦ rw e v
      | inr (inl e) ↦
          rw e (record { table = m.table; default_id = m.default_id; emptied = m.emptied })
      | inr (inr (inl e)) ↦ rw e m
      | inr (inr (inr e)) ↦ rw e (add_closed-IsValid (make_stream c id).0 m)
    ]

inbound_stream-cases :
    (c : Connection) (id : ℕ)
    → ((inbound_stream c id).0 ≡ c) ⊎ ((inbound_stream c id).0 ≡ (get_stream c id).0)
unfolding inbound_stream
inbound_stream-cases c id = ground arith

inbound_stream-IsValid : (c : Connection) (id : ℕ) → IsValid c → IsValid (inbound_stream c id).0
inbound_stream-IsValid c id v = elim (inbound_stream-cases c id) [
  | inl e ↦ rw e v
  | inr e ↦ rw e (get_stream-IsValid c id v)
]

unreserve-IsValid :
    (c : Connection) (s : List ℕ) → IsValid c → IsValid (record c { closed_peer_streams = s })
unreserve-IsValid c s v = record { table = v.table; default_id = v.default_id; emptied = v.emptied }

deliver-cases :
    (c : Connection) (h : ℕ) (fin : Bool) (payload : List ℕ)
    → ((deliver c h fin payload).0 ≡ c)
      ⊎ ((deliver c h fin payload).0 ≡ (send_incoming c h payload).0)
      ⊎ ((deliver c h fin payload).0 ≡ queue_fin c h)
      ⊎ ((deliver c h fin payload).0 ≡ queue_fin (send_incoming c h payload).0 h)
unfolding deliver
deliver-cases c h fin [] = ground arith
deliver-cases c h fin (x ∷ xs) = ground arith

deliver-IsValid :
    (c : Connection) (h : ℕ) (fin : Bool) (payload : List ℕ)
    → IsValid c
    → IsValid (deliver c h fin payload).0
deliver-IsValid c h fin payload v =
    let sent = send_incoming-IsValid c h payload v in
    elim (deliver-cases c h fin payload) [
      | inl e ↦ rw e v
      | inr (inl e) ↦ rw e sent
      | inr (inr (inl e)) ↦ rw e (send_incoming-IsValid c h [] v)
      | inr (inr (inr e)) ↦ rw e (send_incoming-IsValid (send_incoming c h payload).0 h [] sent)
    ]

accept_frame-cases :
    (c : Connection) (id flags : ℕ) (payload : List ℕ)
    → let c' = record c { closed_peer_streams = without c.closed_peer_streams id } in
      let i = (inbound_stream c id).0 in
      let a = (accept_frame c id flags payload).0 in
      (a ≡ c')
      ⊎ ((h : ℕ) × (a ≡ queue_fin c' h))
      ⊎ (a ≡ i)
      ⊎ (a ≡ record i { closed_peer_streams = without i.closed_peer_streams id })
      ⊎ ((h : ℕ) × (a ≡ (deliver i h (is_fin id flags) payload).0))
unfolding accept_frame
accept_frame-cases c id flags payload = elim (Bool-cases (is_fin id flags && is_empty payload)) [
  | inl k ↦ elim (Option-cases (lookup_stream_ctx c id)) [
    | inl e ↦ inl (ground arith)
    | inr (h, e) ↦ inr (inl (h, ground arith))
  ]
  | inr k ↦ elim (Option-cases (inbound_stream c id).1) [
    | inl e ↦ elim (Bool-cases (is_fin id flags)) [
      | inl f ↦ inr (inr (inr (inl (ground arith))))
      | inr f ↦ inr (inr (inl (ground arith)))
    ]
    | inr (h, e) ↦ inr (inr (inr (inr (h, ground arith))))
  ]
]

-- A received frame keeps the table of streams valid.
pub accept_frame-IsValid :
    (c : Connection) (id flags : ℕ) (payload : List ℕ)
    → IsValid c
    → IsValid (accept_frame c id flags payload).0
accept_frame-IsValid c id flags payload v =
    let u = unreserve-IsValid c (without c.closed_peer_streams id) v in
    let i = inbound_stream-IsValid c id v in
    elim (accept_frame-cases c id flags payload) [
      | inl e ↦ rw e u
      | inr (inl (h, e)) ↦ rw e (
          send_incoming-IsValid
            (record c { closed_peer_streams = without c.closed_peer_streams id }) h [] u)
      | inr (inr (inl e)) ↦ rw e i
      | inr (inr (inr (inl e))) ↦ rw e (
          unreserve-IsValid (inbound_stream c id).0
            (without (inbound_stream c id).0.closed_peer_streams id) i)
      | inr (inr (inr (inr (h, e)))) ↦
          rw e (deliver-IsValid (inbound_stream c id).0 h (is_fin id flags) payload i)
    ]
