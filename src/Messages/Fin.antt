-- ===== src/Messages/Fin.antt =====
-- src/stream.rs: no frame of a stream follows its FIN.
use adaptivemsg_rust.Base.{
  ℕ, zero, suc, ◌≡◌, ◌≢◌, refl, sym, ap, ◌∙◌, List, [], ◌∷◌, ◌++◌, Option, some, none, Bool, true,
  false, not, ◌&&◌, ◌||◌, ◌==◌, if◌then◌else◌, ◌⊎◌, inl, inr, arith, All, All-append, bit_and,
  Bool-cases, Option-cases,
}
use mathlib.Core.Path.{subst}
use adaptivemsg_rust.Error.{Result, ok, err, panicked, closed}
use adaptivemsg_rust.Frame.{frame_flag_fin}
use adaptivemsg_rust.Writer.{OutboundFrame, plain, recovery}
use adaptivemsg_rust.Connection.{
  Connection, Stream, enqueue_frame, remove_peer_stream, remove_stream, send_fin, update, get,
  is_some, default_stream_id,
}
use adaptivemsg_rust.Messages.{
  Library, Endpoint, fin_at, closed_at, encoded, queued, send_boxed, encode_message,
}

-- The stream of a frame, and whether the frame is a FIN.
abbrev pub frame_on : ℕ → OutboundFrame → Bool
frame_on id (plain stream_id flags payload) = stream_id == id
frame_on id (recovery stream_id flags payload queued_tx) = stream_id == id
frame_on id (OutboundFrame.close written) = false

abbrev pub is_fin_frame : OutboundFrame → Bool
is_fin_frame (plain stream_id flags payload) = not (bit_and flags frame_flag_fin == 0)
is_fin_frame (recovery stream_id flags payload queued_tx) = not (bit_and flags frame_flag_fin == 0)
is_fin_frame (OutboundFrame.close written) = false

-- None of the frames is a FIN of the stream; none of them is on the stream.
abbrev pub NoFin : ℕ → List OutboundFrame → Type 0
NoFin id l = All (λ f. (frame_on id f && is_fin_frame f) ≡ false) l

abbrev pub NoFrame : ℕ → List OutboundFrame → Type 0
NoFrame id l = All (λ f. frame_on id f ≡ false) l

-- Behind a FIN of the stream there is no frame on it.
abbrev pub FinLast : ℕ → List OutboundFrame → Type 0
FinLast id [] = Unit {0}
FinLast id (f ∷ l) = ((frame_on id f && is_fin_frame f) ≡ true → NoFrame id l) × FinLast id l

NoFin-FinLast :
    (id : ℕ) (l : List OutboundFrame) (f : OutboundFrame) → NoFin id l → FinLast id (l ++ f ∷ [])
NoFin-FinLast id [] f n = (λ e. tt, tt)
NoFin-FinLast id (x ∷ l) f n = (λ e. cc (e, n.0), NoFin-FinLast id l f n.1)

pub NoFin-last : (id : ℕ) (l : List OutboundFrame) → NoFin id l → FinLast id l
NoFin-last id [] n = tt
NoFin-last id (x ∷ l) n = (λ e. cc (e, n.0), NoFin-last id l n.1)

-- A frame of another stream may follow a FIN.
pub FinLast-append :
    (id : ℕ) (l : List OutboundFrame) (f : OutboundFrame)
    → FinLast id l
    → frame_on id f ≡ false
    → FinLast id (l ++ f ∷ [])
FinLast-append id [] f v e = (λ q. tt, tt)
FinLast-append id (x ∷ l) f v e = (
  λ q. All-append (λ f. frame_on id f ≡ false) l (f ∷ []) (v.0 q) (e, tt),
  FinLast-append id l f v.1 e,
)

-- Whether a stream is in the store, and its flag.
abbrev pub fin_of : List Stream → ℕ → Option Bool
fin_of [] h = none
fin_of (s ∷ ss) zero = some s.fin_started
fin_of (s ∷ ss) (suc h) = fin_of ss h

pub fin_at-fin_of : (ss : List Stream) (h : ℕ) (b : Bool) → fin_of ss h ≡ some b → fin_at ss h ≡ b
fin_at-fin_of [] h b e = cc e
fin_at-fin_of (s ∷ ss) zero b e = cc e
fin_at-fin_of (s ∷ ss) (suc h) b e = fin_at-fin_of ss h b e

fin_of-close :
    (ss : List Stream) (k h : ℕ)
    → fin_of (update ss k (λ s. record s { is_closed = true })) h ≡ fin_of ss h
fin_of-close [] k h = refl
fin_of-close (s ∷ ss) zero zero = refl
fin_of-close (s ∷ ss) zero (suc h) = refl
fin_of-close (s ∷ ss) (suc k) zero = refl
fin_of-close (s ∷ ss) (suc k) (suc h) = fin_of-close ss k h

pub fin_of-start :
    (ss : List Stream) (h : ℕ) (b : Bool)
    → fin_of ss h ≡ some b
    → fin_of (update ss h (λ s. record s { fin_started = true })) h ≡ some true
fin_of-start [] h b e = cc e
fin_of-start (s ∷ ss) zero b e = refl
fin_of-start (s ∷ ss) (suc h) b e = fin_of-start ss h b e

remove_stream-streams :
    (c : Connection) (id : ℕ)
    → ((remove_stream c id).0.streams ≡ c.streams)
      ⊎ ((k : ℕ) × ((remove_stream c id).0.streams
            ≡ update c.streams k (λ s. record s { is_closed = true })))
unfolding remove_stream
remove_stream-streams c id = elim (Option-cases (get c.stream_contexts id)) [
  | inl e ↦ inl (ground arith)
  | inr (k, e) ↦ inr (k, ground arith)
]

pub remove_stream-fin_of :
    (c : Connection) (id h : ℕ) → fin_of (remove_stream c id).0.streams h ≡ fin_of c.streams h
remove_stream-fin_of c id h = elim (remove_stream-streams c id) [
  | inl e ↦ ap (λ ss. fin_of ss h) e
  | inr (k, e) ↦ ap (λ ss. fin_of ss h) e ∙ fin_of-close c.streams k h
]

pub remove_peer_stream-fin_of :
    (c : Connection) (id h : ℕ) → fin_of (remove_peer_stream c id).0.streams h ≡ fin_of c.streams h
unfolding remove_peer_stream
remove_peer_stream-fin_of c id h =
    elim (Bool-cases (not (id == default_stream_id) && is_some (get c.stream_contexts id))) [
      | inl e ↦ rw e (
          remove_stream-fin_of (record c { closed_peer_streams = id ∷ c.closed_peer_streams }) id h)
      | inr e ↦ rw e (remove_stream-fin_of c id h)
    ]

-- What the frames queued so far and the flag say of each other, with `pending` for a close that has set the flag and
-- not yet queued its FIN.
pub record IsOrdered (ss : List Stream) (handle id : ℕ) (outbound : List OutboundFrame)
    (pending : Bool) : Type 0 where
  pub registered :
      (fin_of ss handle ≡ some true) ⊎ ((fin_of ss handle ≡ some false) × NoFin id outbound)
  pub waiting : pending ≡ true → (fin_of ss handle ≡ some true) × NoFin id outbound
  pub last : FinLast id outbound

-- Queueing a frame: it is refused, or it stands last.
pub enqueue_frame-cases :
    (c : Connection) (recovers : Bool) (queue : List OutboundFrame) (id flags : ℕ)
    (payload : List ℕ)
    → (enqueue_frame c recovers 0 queue (plain id flags payload) ≡ err closed)
      ⊎ ((f : OutboundFrame) × (enqueue_frame c recovers 0 queue (plain id flags payload)
            ≡ ok (queue ++ f ∷ []))
          × (is_fin_frame f ≡ not (bit_and flags frame_flag_fin == 0)))
unfolding enqueue_frame
enqueue_frame-cases c recovers queue id flags payload = elim (Bool-cases c.closing) [
  | inl e ↦ inl (ground arith)
  | inr e ↦ elim (Bool-cases recovers) [
    | inl k ↦ inr (recovery id flags payload 0, ground arith, refl)
    | inr k ↦ inr (plain id flags payload, ground arith, refl)
  ]
]

-- What a send may change: it queues one frame that is no FIN, if no FIN was started.
pub record Sends {M Raw : Type 0} (s s' : Endpoint M Raw) : Type 0 where
  pub same : (s'.connection ≡ s.connection) × (s'.handle ≡ s.handle) × (s'.id ≡ s.id)
  pub frames :
      (s'.outbound ≡ s.outbound)
      ⊎ ((fin_at s.connection.streams s.handle ≡ false)
          × (f : OutboundFrame) × (s'.outbound ≡ s.outbound ++ f ∷ [])
          × (is_fin_frame f ≡ false))

module _ {M Raw : Type 0} (lib : Library M Raw) where
  queued-Sends :
      (s : Endpoint M Raw) (payload : List ℕ)
      → fin_at s.connection.streams s.handle ≡ false
      → Sends s (encoded lib s (ok payload)).1
  queued-Sends s payload e =
      elim (enqueue_frame-cases s.connection s.recovers s.outbound s.id 0 payload) [
        | inl k ↦
            subst (λ r. Sends s (queued lib s r).1) (sym k)
              (record { same = (refl, refl, refl); frames = inl refl })
        | inr (f, k, n) ↦
            subst (λ r. Sends s (queued lib s r).1) (sym k)
              (record { same = (refl, refl, refl); frames = inr (e, f, refl, n) })
      ]

  encoded-Sends :
      (s : Endpoint M Raw) (r : Result (List ℕ))
      → fin_at s.connection.streams s.handle ≡ false
      → Sends s (encoded lib s r).1
  encoded-Sends s (ok payload) e = queued-Sends s payload e
  encoded-Sends s (err x) e = record { same = (refl, refl, refl); frames = inl refl }
  encoded-Sends s panicked e = record { same = (refl, refl, refl); frames = inl refl }

  pub send_boxed-Sends : (s : Endpoint M Raw) (msg : M) → Sends s (send_boxed lib s msg).1
  unfolding send_boxed
  send_boxed-Sends s msg =
      let fin = fin_at s.connection.streams s.handle in
      let gone = closed_at s.connection.streams s.handle in
      elim (Bool-cases (fin || gone)) [
        | inl e ↦
            subst
              (λ b.
                Sends s (if b then (err closed, s) else encoded lib s (encode_message lib s msg)).1)
              (sym e) (record { same = (refl, refl, refl); frames = inl refl })
        | inr e ↦
            subst
              (λ b.
                Sends s (if b then (err closed, s) else encoded lib s (encode_message lib s msg)).1)
              (sym e) (encoded-Sends s (encode_message lib s msg) (ground (arith, e)))
      ]

abbrev pub IsOrderedEndpoint : {M Raw : Type 0} → Endpoint M Raw → Bool → Type 0
IsOrderedEndpoint s pending = IsOrdered s.connection.streams s.handle s.id s.outbound pending

NoFin-append :
    (id : ℕ) (l : List OutboundFrame) (f : OutboundFrame)
    → NoFin id l
    → is_fin_frame f ≡ false
    → NoFin id (l ++ f ∷ [])
NoFin-append id l f n e =
    All-append (λ f. (frame_on id f && is_fin_frame f) ≡ false) l (f ∷ []) n (ground arith, tt)

pub NoFin-append_other :
    (id : ℕ) (l : List OutboundFrame) (f : OutboundFrame)
    → NoFin id l
    → frame_on id f ≡ false
    → NoFin id (l ++ f ∷ [])
NoFin-append_other id l f n e =
    All-append (λ f. (frame_on id f && is_fin_frame f) ≡ false) l (f ∷ []) n (ground arith, tt)

pub true_or_false : true ≢ false
true_or_false = λ e. cc

sent-IsOrdered :
    (ss : List Stream) (h id : ℕ) (l : List OutboundFrame) (pending : Bool) (f : OutboundFrame)
    → IsOrdered ss h id l pending
    → fin_at ss h ≡ false
    → is_fin_frame f ≡ false
    → IsOrdered ss h id (l ++ f ∷ []) pending
sent-IsOrdered ss h id l pending f v e n = elim v.registered [
  | inl k ↦ absurd (true_or_false (sym (fin_at-fin_of ss h true k) ∙ e))
  | inr (k, q) ↦ record {
    registered = inr (k, NoFin-append id l f q n);
    waiting = λ p. absurd (true_or_false (sym (fin_at-fin_of ss h true (v.waiting p).0) ∙ e));
    last = NoFin-FinLast id l f q;
  }
]

pub Sends-IsOrdered :
    {M Raw : Type 0} (s s' : Endpoint M Raw) (pending : Bool)
    → Sends s s'
    → IsOrderedEndpoint s pending
    → IsOrderedEndpoint s' pending
Sends-IsOrdered s s' pending t v =
    let v' : IsOrdered s.connection.streams s.handle s.id s'.outbound pending = elim t.frames [
      | inl e ↦ subst (λ l. IsOrdered s.connection.streams s.handle s.id l pending) (sym e) v
      | inr (e, f, k, n) ↦
          subst (λ l. IsOrdered s.connection.streams s.handle s.id l pending) (sym k)
            (sent-IsOrdered s.connection.streams s.handle s.id s.outbound pending f v e n)
    ] in
    rw (t.same.0, t.same.1, t.same.2) v'

pub IsOrdered-streams :
    (ss ss' : List Stream) (h id : ℕ) (l : List OutboundFrame) (pending : Bool)
    → fin_of ss' h ≡ fin_of ss h
    → IsOrdered ss h id l pending
    → IsOrdered ss' h id l pending
IsOrdered-streams ss ss' h id l pending e v = record {
  registered = rw e v.registered;
  waiting = rw e v.waiting;
  last = v.last;
}

-- A FIN is queued, or refused, once its flag is set.
pub send_fin-IsOrdered :
    (c : Connection) (recovers : Bool) (h id : ℕ) (l : List OutboundFrame)
    → fin_of c.streams h ≡ some true
    → NoFin id l
    → IsOrdered c.streams h id (send_fin c recovers 0 l id) false
unfolding send_fin
send_fin-IsOrdered c recovers h id l e n =
    elim (enqueue_frame-cases c recovers l id frame_flag_fin []) [
      | inl k ↦
          rw (send_fin, k)
            (record { registered = inl e; waiting = λ p. cc p; last = NoFin-last id l n })
      | inr (f, k, q) ↦
          rw (send_fin, k)
            (record { registered = inl e; waiting = λ p. cc p; last = NoFin-FinLast id l f n })
    ]
