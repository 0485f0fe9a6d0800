-- ===== src/Reader/Ends.antt =====
-- src/recovery_runtime.rs: where the reader task of a recoverable connection gets to.
use adaptivemsg_rust.Base.{
  ℕ, ◌+◌, ◌≡◌, ◌≢◌, refl, sym, ◌∙◌, List, [], ◌∷◌, All, Option, some, none, Bool, true, false, ◌==◌,
  ◌⊎◌, inl, arith, length, String, if◌then◌else◌,
}
use adaptivemsg_rust.Error.{Error, Result, ok, err, panicked}
use adaptivemsg_rust.Recovery.{RecoveryState, last_received}
use adaptivemsg_rust.RecoveryProtocol.{control_stream_id}
use adaptivemsg_rust.Transport.{Link, detach_transport, spawn_reconnect_loop, spawn_server_expiry}
use adaptivemsg_rust.Reader.Handled.{
  IsSound, IsOver, received, close_now-closed, after_control-IsSound, after_data-IsSound,
  handle_control_frame-IsControlled, handle_recovery_data_frame-IsReceipt,
}
use adaptivemsg_rust.Reader.Running.{
  RecoveryReader, Turn, goes_on, finishing, ended, aborted, close_now, fail, reader_detaches,
  is_malformed, read_ends, recovery_reader_turn, recovery_reader, failure_recovery_data,
  failure_recovery_read, with_failure, with_frame_read,
}
use adaptivemsg_rust.Plain.{InboundFrame}

detach_transport-IsOver :
    (l : Link) (state : RecoveryState) (gen : ℕ)
    → ((detach_transport l (some state) gen false).0.closed ≡ true)
      ⊎ ((detach_transport l (some state) gen false).0.transport_gen ≢ gen)
unfolding detach_transport spawn_reconnect_loop spawn_server_expiry
detach_transport-IsOver l state gen = ground arith

reader_detaches-IsOver : (s : RecoveryReader) (gen : ℕ) → IsOver gen (reader_detaches s gen)
unfolding reader_detaches
reader_detaches-IsOver s gen = detach_transport-IsOver s.link s.receiver.recovery_state gen

-- Closed, if the first test holds, and detached otherwise.
close_or_detach :
    (gen : ℕ) (s s' : RecoveryReader) (closing : Bool)
    → IsOver gen (if closing then close_now s else reader_detaches s' gen)
close_or_detach gen s s' true = inl (close_now-closed s)
close_or_detach gen s s' false = reader_detaches-IsOver s' gen

malformed_or :
    (gen : ℕ) (s s' : RecoveryReader) (malformed : Bool)
    → IsOver gen s'
    → IsOver gen (if malformed then close_now s else s')
malformed_or gen s s' true h = inl (close_now-closed s)
malformed_or gen s s' false h = h

read_ends-IsOver :
    (describe : Error → String) (s : RecoveryReader) (gen : ℕ) (e : Option Error)
    → IsOver gen (read_ends describe s gen e)
unfolding read_ends fail
read_ends-IsOver describe s gen none = close_or_detach gen s s s.link.closing
read_ends-IsOver describe s gen (some e) =
    let reading = with_failure s failure_recovery_read (describe e) in
    malformed_or gen (with_failure s failure_recovery_data (describe e))
      (if s.link.closing then close_now s else reader_detaches reading gen) (is_malformed e)
      (close_or_detach gen s reading s.link.closing)

handled-IsSound :
    (gen : ℕ) (controlled received_data : RecoveryReader × Turn) (is_control : Bool)
    → IsSound gen controlled
    → IsSound gen received_data
    → IsSound gen (if is_control then controlled else received_data)
handled-IsSound gen controlled received_data true h k = h
handled-IsSound gen controlled received_data false h k = k

recovery_reader_turn-IsSound :
    (describe : Error → String) (gen header_len : ℕ) (s : RecoveryReader) (last_recv_seq : ℕ)
    (read : Result (Option InboundFrame)) (now : ℕ)
    → last_recv_seq ≡ received s
    → read ≢ panicked
    → IsSound gen (recovery_reader_turn describe gen header_len s last_recv_seq read now)
unfolding recovery_reader_turn
recovery_reader_turn-IsSound describe gen header_len s last_recv_seq (err e) now h n =
    read_ends-IsOver describe s gen (some e)
recovery_reader_turn-IsSound describe gen header_len s last_recv_seq panicked now h n = n refl
recovery_reader_turn-IsSound describe gen header_len s last_recv_seq (ok none) now h n =
    read_ends-IsOver describe s gen none
recovery_reader_turn-IsSound describe gen header_len s last_recv_seq
      (ok (some (stream_id, seq, flags, payload))) now h n =
    let s' = with_frame_read s stream_id (header_len + length payload) in
    handled-IsSound gen _ _ (stream_id == control_stream_id)
      (after_control-IsSound describe gen s' last_recv_seq _
        (handle_control_frame-IsControlled s.receiver last_recv_seq payload h))
      (after_data-IsSound describe gen s' _ (
        handle_recovery_data_frame-IsReceipt s.receiver last_recv_seq stream_id seq flags payload
          now h))

-- A turn before which the other tasks leave the last received number, and whose read does not panic.
abbrev pub IsTurn : (RecoveryReader → RecoveryReader) × Result (Option InboundFrame) × ℕ → Type 0
IsTurn (others, read, now) =
    ((s : RecoveryReader)
      → last_received (others s).receiver.recovery_state ≡ last_received s.receiver.recovery_state)
    × (read ≢ panicked)

loop-IsSound :
    (describe : Error → String) (gen header_len : ℕ) (s : RecoveryReader) (turn : Turn)
    (turns : List ((RecoveryReader → RecoveryReader) × Result (Option InboundFrame) × ℕ))
    → IsSound gen (s, turn)
    → All IsTurn turns
    → IsSound gen (recovery_reader describe gen header_len s turn turns)
unfolding recovery_reader
loop-IsSound describe gen header_len s turn [] h k = h
loop-IsSound describe gen header_len s (goes_on seq) ((others, read, now) ∷ turns) h k =
    loop-IsSound describe gen header_len
      (recovery_reader_turn describe gen header_len (others s) seq read now).0
      (recovery_reader_turn describe gen header_len (others s) seq read now).1 turns
      (recovery_reader_turn-IsSound describe gen header_len (others s) seq read now
        (h ∙ sym (k.0.0 s)) k.0.1)
      k.1
loop-IsSound describe gen header_len s finishing ((others, read, now) ∷ turns) h k =
    inl (close_now-closed (others s))
loop-IsSound describe gen header_len s ended (t ∷ turns) h k = h
loop-IsSound describe gen header_len s aborted (t ∷ turns) h k = h

-- A reader task that starts with the last received number of its connection does not panic. As long as
-- it goes on, its own count is the connection's last received number. When it has ended, the connection
-- is closed or has lost the transport of this generation. The reads do not panic, and other tasks leave
-- the last received number as it is.
pub recovery_reader-IsSound :
    (describe : Error → String) (gen header_len : ℕ) (s : RecoveryReader)
    (turns : List ((RecoveryReader → RecoveryReader) × Result (Option InboundFrame) × ℕ))
    → All IsTurn turns
    → IsSound gen (
        recovery_reader describe gen header_len s
          (goes_on (last_received s.receiver.recovery_state))
          turns)
recovery_reader-IsSound describe gen header_len s turns h =
    loop-IsSound describe gen header_len s (goes_on (received s)) turns refl h
