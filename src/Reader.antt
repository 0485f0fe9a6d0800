-- ===== src/Reader.antt =====
-- src/recovery_runtime.rs: what the reader task of a recoverable connection does with a frame.
--
-- `streams` is the state that `accept_frame` delivers to. `send_signalled` is set where the code wakes the
-- writer.
pub mod Within
pub mod Running
pub mod Handled
pub mod Ends
use adaptivemsg_rust.Base.{ℕ, ◌+◌, List, Bool, true, false, leb, ◌==◌, ◌||◌, not, if◌then◌else◌}
use adaptivemsg_rust.Error.{Result, ok, err, panicked, invalid_message}
use adaptivemsg_rust.Recovery.{RecoveryState, note_received, ack_received}
use adaptivemsg_rust.RecoveryProtocol.{
  parse_control_payload, control_type_ack, control_type_ping, control_type_close,
}

pub record Receiver (S : Type 0) : Type 0 where
  pub recovery_state : RecoveryState
  pub streams : S
  pub send_signalled : Bool

-- `if recovery.note_received(seq) { self.signal_send() }`
unfoldable pub note : {S : Type 0} → Receiver S → ℕ → ℕ → Receiver S
note r seq now =
    let (state, wake) = note_received r.recovery_state seq now in
    record r { recovery_state = state; send_signalled = r.send_signalled || wake }

-- `handle_recovery_data_frame`: the receiver afterwards, and the new last received number. `accept` is
-- `accept_frame`.
unfoldable pub handle_recovery_data_frame :
    {S : Type 0}
    → (ℕ → ℕ → List ℕ → S → Result (Unit {0}) × S)
    → Receiver S
    → ℕ
    → ℕ
    → ℕ
    → ℕ
    → List ℕ
    → ℕ
    → Receiver S × Result ℕ
unfolding note
handle_recovery_data_frame accept r last_recv_seq stream_id seq flags payload now =
    if seq == 0
    then (r, err (invalid_message "recovery data frame missing seq"))
    else if leb seq last_recv_seq
    then (note r seq now, ok last_recv_seq)
    else if not (seq == last_recv_seq + 1)
    then (r, err (invalid_message "recovery frame sequence gap"))
    else (let (accepted, streams) = accept stream_id flags payload r.streams in
        let r' = record r { streams = streams } in
        elim accepted [
          | ok u ↦ (note r' seq now, ok seq)
          | err e ↦ (r', err e)
          | panicked ↦ (r', panicked)
        ])

-- `handle_control_frame`: whether it was CLOSE.
unfoldable pub handle_control_frame : {S : Type 0} → Receiver S → List ℕ → Receiver S × Result Bool
handle_control_frame r payload = elim (parse_control_payload payload) [
  | err e ↦ (r, err e)
  | panicked ↦ (r, panicked)
  | ok (control_type, value) ↦
      if control_type == control_type_ack
      then (
        record r { recovery_state = ack_received r.recovery_state value; send_signalled = true },
        ok false,
      )
      else if control_type == control_type_ping
      then (r, ok false)
      else if control_type == control_type_close
      then (r, ok true)
      else (r, err (invalid_message "unknown control frame type"))
]
