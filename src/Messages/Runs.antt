-- ===== src/Messages/Runs.antt =====
-- src/stream.rs, src/connection.rs: the runs of a stream: its sends, protocol errors, closes and tasks, in any order.
--
-- `close` sets the flag of the FIN at once and queues the FIN in a task, which is a step of its own, so that sends and
-- errors may come in between.
use adaptivemsg_rust.Base.{
  ℕ, zero, suc, ◌≡◌, refl, ap, ◌∙◌, String, List, [], ◌∷◌, ◌++◌, some, Bool, true, false, ◌||◌, ◌⊎◌,
  inl, inr, arith, get_elem?, Bool-cases,
}
use adaptivemsg_rust.Error.{Result}
use adaptivemsg_rust.Writer.{OutboundFrame}
use adaptivemsg_rust.Connection.{
  Connection, Stream, opened_stream, remove_peer_stream, remove_stream, send_fin, close,
  finish_close, notify_close, update,
}
use adaptivemsg_rust.Messages.{Library, Endpoint, send_boxed, protocol_error, decoded, handler_turn}
use adaptivemsg_rust.Messages.Fin.{
  frame_on, FinLast, NoFin, fin_of, fin_of-start, remove_stream-fin_of, remove_peer_stream-fin_of,
  IsOrdered, IsOrderedEndpoint, IsOrdered-streams, send_fin-IsOrdered, FinLast-append, NoFin-last,
  NoFin-append_other,
}
use adaptivemsg_rust.Messages.Ordered.{
  send_boxed-IsOrdered, protocol_error-IsOrdered, decoded-IsOrdered, handler_turn-IsOrdered,
}

module _ {M Raw : Type 0} (lib : Library M Raw) where
  -- The second component tells whether a close has still to queue its FIN. `others` are the frames of other streams,
  -- and `changes` what happens to the connection besides, which leaves the flag of this stream alone.
  pub data Step : Endpoint M Raw × Bool → Endpoint M Raw × Bool → Type 0 where
    sends :
        {s : Endpoint M Raw} {pending : Bool} (msg : M)
        → Step (s, pending) ((send_boxed lib s msg).1, pending)
    errs :
        {s : Endpoint M Raw} {pending : Bool} (code message : String)
        → Step (s, pending) (protocol_error lib s code message, pending)
    decodes :
        {s : Endpoint M Raw} {pending : Bool} (r : Result Raw)
        → Step (s, pending) ((decoded lib s r).0, pending)
    handles :
        {s : Endpoint M Raw} {pending : Bool} → Step (s, pending) (handler_turn lib s, pending)
    closes :
        {s : Endpoint M Raw} {pending : Bool} (t : Stream)
        → get_elem? s.connection.streams s.handle ≡ some t
        → Step
            (s, pending)
            (
              record s { connection = (close s.connection s.handle t).0 },
              pending || (close s.connection s.handle t).1,
            )
    finishes :
        {s : Endpoint M Raw}
        → Step
            (s, true)
            (
              record s {
                connection = (finish_close s.connection s.recovers 0 s.outbound s.id).0;
                outbound = (finish_close s.connection s.recovers 0 s.outbound s.id).1;
              },
              false,
            )
    others :
        {s : Endpoint M Raw} {pending : Bool} (f : OutboundFrame)
        → frame_on s.id f ≡ false
        → Step (s, pending) (record s { outbound = s.outbound ++ f ∷ [] }, pending)
    changes :
        {s : Endpoint M Raw} {pending : Bool} (c : Connection)
        → fin_of c.streams s.handle ≡ fin_of s.connection.streams s.handle
        → Step (s, pending) (record s { connection = c }, pending)

  pub data Steps : Endpoint M Raw × Bool → Endpoint M Raw × Bool → Type 0 where
    stop : {x : Endpoint M Raw × Bool} → Steps x x
    next : {x y z : Endpoint M Raw × Bool} → Steps x y → Step y z → Steps x z

notify_close-streams : (x : Connection × Bool) (id : ℕ) → (notify_close x id).streams ≡ x.0.streams
notify_close-streams (c, true) id = refl
notify_close-streams (c, false) id = refl

get_elem-fin_of :
    (ss : List Stream) (h : ℕ) (t : Stream)
    → get_elem? ss h ≡ some t
    → fin_of ss h ≡ some t.fin_started
get_elem-fin_of [] h t e = cc e
get_elem-fin_of (s ∷ ss) zero t e = cc e
get_elem-fin_of (s ∷ ss) (suc h) t e = get_elem-fin_of ss h t e

or_false : (b : Bool) → (b || false) ≡ b
or_false true = refl
or_false false = refl

started-IsOrdered :
    (ss : List Stream) (h id : ℕ) (l : List OutboundFrame) (pending pending' : Bool)
    → fin_of ss h ≡ some false
    → IsOrdered ss h id l pending
    → IsOrdered (update ss h (λ s. record s { fin_started = true })) h id l pending'
started-IsOrdered ss h id l pending pending' e v = elim v.registered [
  | inl k ↦ absurd (ground (arith, e, k))
  | inr (k, n) ↦ record {
    registered = inl (fin_of-start ss h false e);
    waiting = λ p. (fin_of-start ss h false e, n);
    last = v.last;
  }
]

close-cases :
    (c : Connection) (h : ℕ) (t : Stream)
    → (close c h t ≡ (notify_close (remove_peer_stream c t.id) t.id, false))
      ⊎ ((close c h t ≡ (c, false))
          ⊎ ((t.fin_started ≡ false)
              × (close c h t ≡ (
                record c { streams = update c.streams h (λ s. record s { fin_started = true }) },
                true,
              ))))
unfolding close
close-cases c h t = elim (Bool-cases (opened_stream c t.id)) [
  | inr e ↦ inl (ground arith)
  | inl e ↦ elim (Bool-cases t.fin_started) [
    | inl k ↦ inr (inl (ground arith))
    | inr k ↦ inr (inr (k, ground arith))
  ]
]

close-IsOrdered :
    (c : Connection) (h id : ℕ) (l : List OutboundFrame) (pending : Bool) (t : Stream)
    → get_elem? c.streams h ≡ some t
    → IsOrdered c.streams h id l pending
    → IsOrdered (close c h t).0.streams h id l (pending || (close c h t).1)
close-IsOrdered c h id l pending t e v = elim (close-cases c h t) [
  | inl k ↦
      rw (k, or_false pending)
        (IsOrdered-streams c.streams (notify_close (remove_peer_stream c t.id) t.id).streams h id l
          pending
          (ap (λ ss. fin_of ss h) (notify_close-streams (remove_peer_stream c t.id) t.id)
            ∙ remove_peer_stream-fin_of c t.id h)
          v)
  | inr (inl k) ↦ rw (k, or_false pending) v
  | inr (inr (f, k)) ↦ rw k (
      started-IsOrdered c.streams h id l pending (pending || true)
        (get_elem-fin_of c.streams h t e ∙ ap some f) v)
]

finish-IsOrdered :
    (c : Connection) (recovers : Bool) (h id : ℕ) (l : List OutboundFrame)
    → IsOrdered c.streams h id l true
    → IsOrdered
        (finish_close c recovers 0 l id).0.streams
        h
        id
        (finish_close c recovers 0 l id).1
        false
unfolding finish_close
finish-IsOrdered c recovers h id l v =
    let (e, n) = v.waiting refl in
    IsOrdered-streams c.streams (notify_close (remove_stream c id) id).streams h id
      (send_fin c recovers 0 l id) false
      (ap (λ ss. fin_of ss h) (notify_close-streams (remove_stream c id) id)
        ∙ remove_stream-fin_of c id h)
      (send_fin-IsOrdered c recovers h id l e n)

other-IsOrdered :
    (ss : List Stream) (h id : ℕ) (l : List OutboundFrame) (pending : Bool) (f : OutboundFrame)
    → frame_on id f ≡ false
    → IsOrdered ss h id l pending
    → IsOrdered ss h id (l ++ f ∷ []) pending
other-IsOrdered ss h id l pending f e v = record {
  registered = elim v.registered [
    | inl k ↦ inl k
    | inr (k, n) ↦ inr (k, NoFin-append_other id l f n e)
  ];
  waiting = λ p. ((v.waiting p).0, NoFin-append_other id l f (v.waiting p).1 e);
  last = FinLast-append id l f v.last e;
}

module _ {M Raw : Type 0} {lib : Library M Raw} where
  Step-IsOrdered :
      {x y : Endpoint M Raw × Bool}
      → Step lib x y
      → IsOrderedEndpoint x.0 x.1
      → IsOrderedEndpoint y.0 y.1
  Step-IsOrdered (sends {s} {pending} msg) v = send_boxed-IsOrdered lib s msg pending v
  Step-IsOrdered (errs {s} {pending} code message) v =
      protocol_error-IsOrdered lib s code message pending v
  Step-IsOrdered (decodes {s} {pending} r) v = decoded-IsOrdered lib s r pending v
  Step-IsOrdered (handles {s} {pending}) v = handler_turn-IsOrdered lib s pending v
  Step-IsOrdered (closes {s} {pending} t e) v =
      close-IsOrdered s.connection s.handle s.id s.outbound pending t e v
  Step-IsOrdered (finishes {s}) v =
      finish-IsOrdered s.connection s.recovers s.handle s.id s.outbound v
  Step-IsOrdered (others {s} {pending} f e) v =
      other-IsOrdered s.connection.streams s.handle s.id s.outbound pending f e v
  Step-IsOrdered (changes {s} {pending} c e) v =
      IsOrdered-streams s.connection.streams c.streams s.handle s.id s.outbound pending e v

  Steps-IsOrdered :
      {x y : Endpoint M Raw × Bool}
      → Steps lib x y
      → IsOrderedEndpoint x.0 x.1
      → IsOrderedEndpoint y.0 y.1
  Steps-IsOrdered stop v = v
  Steps-IsOrdered (next ss st) v = Step-IsOrdered st (Steps-IsOrdered ss v)

-- On every run of a stream that starts before its FIN, with sends, protocol errors, closes and the turns of its tasks
-- in any order, what is queued for the writer holds no frame of the stream behind a FIN of the stream.
pub fin_last :
    {M Raw : Type 0} (lib : Library M Raw) (s t : Endpoint M Raw) (pending : Bool)
    → fin_of s.connection.streams s.handle ≡ some false
    → NoFin s.id s.outbound
    → Steps lib (s, false) (t, pending)
    → FinLast t.id t.outbound
fin_last lib s t pending e n steps =
    (Steps-IsOrdered steps (record {
      registered = inr (e, n);
      waiting = λ p. cc p;
      last = NoFin-last s.id s.outbound n;
    })).last
