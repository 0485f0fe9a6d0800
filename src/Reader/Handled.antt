-- ===== src/Reader/Handled.antt =====
-- src/recovery_runtime.rs: what the reader task of a recoverable connection makes of one frame.
use adaptivemsg_rust.Base.{
  ℕ, ◌+◌, ◌≡◌, ◌≢◌, refl, List, [], ◌∷◌, Bool, true, false, ◌==◌, ◌⊎◌, inl, inr, arith, leb→le,
  ==_iff, String, if◌then◌else◌, Bool-cases, leb, max, ◌≤◌,
}
use adaptivemsg_rust.Error.{Error, Result, ok, err, panicked}
use adaptivemsg_rust.Recovery.{last_received, ack_received}
use adaptivemsg_rust.Recovery.Ack.{note_received-last_received}
use adaptivemsg_rust.RecoveryProtocol.{
  parse_control_payload, control_type_ack, control_type_ping, control_type_close,
}
use adaptivemsg_rust.Connection.{Connection, accept_frame, deliver}
use adaptivemsg_rust.Transport.{Link, shut}
use adaptivemsg_rust.Reader.{Receiver, note, handle_recovery_data_frame, handle_control_frame}
use adaptivemsg_rust.Reader.Running.{
  RecoveryReader, Turn, goes_on, finishing, ended, aborted, close_now, peer_closes, fail,
  into_connection, after_control, after_data, failure_recovery_data, failure_recovery_control,
  with_failure,
}

-- Closed, or without the transport of this generation.
abbrev pub IsOver : ℕ → RecoveryReader → Type 0
IsOver gen s = (s.link.closed ≡ true) ⊎ (s.link.transport_gen ≢ gen)

abbrev pub received : RecoveryReader → ℕ
received s = last_received s.receiver.recovery_state

-- A loop that goes on has the last received number, one that has ended leaves the connection over, and it
-- does not panic.
abbrev pub IsSound : ℕ → RecoveryReader × Turn → Type 0
IsSound gen (s, goes_on seq) = seq ≡ last_received s.receiver.recovery_state
IsSound gen (s, finishing) = Unit
IsSound gen (s, ended) = IsOver gen s
IsSound gen (s, aborted) = ⊥

pub shut-closed : (l : Link) → (shut l).closed ≡ true
unfolding shut
shut-closed l = ground arith

pub close_now-closed : (s : RecoveryReader) → (close_now s).link.closed ≡ true
unfolding close_now
close_now-closed s = shut-closed s.link

deliver-ne-panicked :
    (c : Connection) (handle : ℕ) (fin : Bool) (payload : List ℕ)
    → (deliver c handle fin payload).1 ≢ panicked
unfolding deliver
deliver-ne-panicked c handle fin payload = ground arith

parse_control_payload-ne-panicked : (payload : List ℕ) → parse_control_payload payload ≢ panicked
unfolding parse_control_payload
parse_control_payload-ne-panicked [] = λ e. ground arith
parse_control_payload-ne-panicked (kind ∷ rest) = λ e. ground arith

accept_frame-ne-panicked :
    (c : Connection) (stream_id flags : ℕ) (payload : List ℕ)
    → (accept_frame c stream_id flags payload).1 ≢ panicked
unfolding accept_frame
accept_frame-ne-panicked c stream_id flags payload = λ e. ground arith

-- What the handling of a data frame gives: a number that is the last received one, and no panic.
abbrev pub IsReceipt : Receiver Connection × Result ℕ → Type 0
IsReceipt (r, ok seq) = seq ≡ last_received r.recovery_state
IsReceipt (r, err e) = Unit
IsReceipt (r, panicked) = ⊥

note-last_received :
    (r : Receiver Connection) (seq now : ℕ)
    → last_received (note r seq now).recovery_state ≡ max (last_received r.recovery_state) seq
unfolding note last_received
note-last_received r seq now = note_received-last_received r.recovery_state seq now

accepted-IsReceipt :
    (r : Receiver Connection) (accepted : Result (Unit {0})) (streams : Connection) (seq now : ℕ)
    → accepted ≢ panicked
    → last_received r.recovery_state ≤ seq
    → IsReceipt (elim accepted [
      | ok u ↦ (note (record r { streams = streams }) seq now, ok seq)
      | err e ↦ (record r { streams = streams }, err e)
      | panicked ↦ (record r { streams = streams }, panicked)
    ])
accepted-IsReceipt r (ok u) streams seq now n le =
    omega (arith, note-last_received (record r { streams = streams }) seq now)
accepted-IsReceipt r (err e) streams seq now n le = tt
accepted-IsReceipt r panicked streams seq now n le = n refl

pub handle_recovery_data_frame-IsReceipt :
    (r : Receiver Connection) (last_recv_seq stream_id seq flags : ℕ) (payload : List ℕ) (now : ℕ)
    → last_recv_seq ≡ last_received r.recovery_state
    → IsReceipt
        (handle_recovery_data_frame into_connection r last_recv_seq stream_id seq flags payload now)
unfolding handle_recovery_data_frame last_received
handle_recovery_data_frame-IsReceipt r last_recv_seq stream_id seq flags payload now h =
    elim (Bool-cases (seq == 0)) [
      | inl e ↦ rw e tt
      | inr e ↦ elim (Bool-cases (leb seq last_recv_seq)) [
        | inl le ↦
            rw (e, le) (omega (arith, leb→le seq last_recv_seq le, h, note-last_received r seq now))
        | inr gt ↦ elim (Bool-cases (seq == last_recv_seq + 1)) [
          | inr gap ↦ rw (e, gt, gap) tt
          | inl next ↦
              rw (e, gt, next)
                (accepted-IsReceipt r (accept_frame r.streams stream_id flags payload).1
                  (accept_frame r.streams stream_id flags payload).0 seq now
                  (accept_frame-ne-panicked r.streams stream_id flags payload)
                  (omega (arith, (==_iff seq (last_recv_seq + 1)).0 next, h)))
        ]
      ]
    ]

pub after_data-IsSound :
    (describe : Error → String) (gen : ℕ) (s : RecoveryReader)
    (result : Receiver Connection × Result ℕ)
    → IsReceipt result
    → IsSound gen (after_data describe s result)
unfolding fail
after_data-IsSound describe gen s (r, ok seq) h = h
after_data-IsSound describe gen s (r, err e) h =
    inl (
      close_now-closed
        (with_failure (record s { receiver = r }) failure_recovery_data (describe e)))
after_data-IsSound describe gen s (r, panicked) h = h

-- The handling of a control frame neither changes the last received number nor panics.
abbrev pub IsControlled : ℕ → Receiver Connection × Result Bool → Type 0
IsControlled last_recv_seq (r, ok b) = last_recv_seq ≡ last_received r.recovery_state
IsControlled last_recv_seq (r, err e) = Unit
IsControlled last_recv_seq (r, panicked) = ⊥

parsed-cases :
    (x : Result (ℕ × ℕ))
    → x ≢ panicked
    → ((kind : ℕ) × (value : ℕ) × (x ≡ ok (kind, value))) ⊎ ((e : Error) × (x ≡ err e))
parsed-cases (ok (kind, value)) n = inl (kind, value, refl)
parsed-cases (err e) n = inr (e, refl)
parsed-cases panicked n = absurd (n refl)

pub handle_control_frame-IsControlled :
    (r : Receiver Connection) (last_recv_seq : ℕ) (payload : List ℕ)
    → last_recv_seq ≡ last_received r.recovery_state
    → IsControlled last_recv_seq (handle_control_frame r payload)
unfolding handle_control_frame ack_received last_received
handle_control_frame-IsControlled r last_recv_seq payload h =
    elim (parsed-cases (parse_control_payload payload)
      (parse_control_payload-ne-panicked payload)) [
        | inr (e, p) ↦ rw (handle_control_frame, p) tt
        | inl (kind, value, p) ↦ elim (Bool-cases (kind == control_type_ack)) [
          | inl a ↦ rw (handle_control_frame, p, a) h
          | inr a ↦ elim (Bool-cases (kind == control_type_ping)) [
            | inl b ↦ rw (handle_control_frame, p, a, b) h
            | inr b ↦ elim (Bool-cases (kind == control_type_close)) [
              | inl c ↦ rw (handle_control_frame, p, a, b, c) h
              | inr c ↦ rw (handle_control_frame, p, a, b, c) tt
            ]
          ]
        ]
      ]

closes-IsSound :
    (gen : ℕ) (s s' : RecoveryReader) (closing : Bool)
    → IsSound gen (if closing then (close_now s, ended) else (s', finishing))
closes-IsSound gen s s' true = inl (close_now-closed s)
closes-IsSound gen s s' false = tt

peer_closes-IsSound : (gen : ℕ) (s : RecoveryReader) → IsSound gen (peer_closes s)
unfolding peer_closes
peer_closes-IsSound gen s = closes-IsSound gen s _ s.link.closing

pub after_control-IsSound :
    (describe : Error → String) (gen : ℕ) (s : RecoveryReader) (last_recv_seq : ℕ)
    (result : Receiver Connection × Result Bool)
    → IsControlled last_recv_seq result
    → IsSound gen (after_control describe s last_recv_seq result)
unfolding fail
after_control-IsSound describe gen s last_recv_seq (r, ok false) h = h
after_control-IsSound describe gen s last_recv_seq (r, ok true) h =
    peer_closes-IsSound gen (record s { receiver = r })
after_control-IsSound describe gen s last_recv_seq (r, err e) h = inl (
    close_now-closed
      (with_failure (record s { receiver = r }) failure_recovery_control (describe e)))
after_control-IsSound describe gen s last_recv_seq (r, panicked) h = h
