-- ===== src/Recovery/Ack.antt =====
-- Acknowledging received frames: no ACK is forgotten, and none repeats an older one.
use adaptivemsg_rust.Base.{
  ℕ, ◌+◌, ◌^◌, ◌≤◌, ◌<◌, ◌≡◌, ◌≢◌, ◌⊎◌, true, false, some, arith, pos_part, max,
}
use adaptivemsg_rust.Recovery.{RecoveryState, note_received, next_ack_wait, take_pending_ack}

-- While a received frame is not acknowledged, an ACK is due or scheduled.
pub record IsScheduled (s : RecoveryState) : Type 0 where
  pub sent : s.fields.last_ack_sent ≤ s.fields.last_recv_seq
  pub scheduled :
      s.fields.last_ack_sent < s.fields.last_recv_seq → (s.ack_due ≡ true) ⊎ (s.ack_due_at ≢ 0)

-- `note_received` keeps an ACK due or scheduled, as long as the clock, which counts nanoseconds since
-- the connection was set up, and the ACK delay do not overflow 64 bits.
pub note_received-IsScheduled :
    (s : RecoveryState) (seq now : ℕ)
    → IsScheduled s
    → now + pos_part s.ack_delay_nanos < 2 ^ 64
    → IsScheduled (note_received s seq now).0
unfolding note_received
note_received-IsScheduled s seq now v h = ground arith

pub take_pending_ack-IsScheduled :
    (s : RecoveryState) (now now' : ℕ) → IsScheduled s → IsScheduled (take_pending_ack s now now').0
unfolding take_pending_ack
take_pending_ack-IsScheduled s now now' v = ground arith

-- The last received number is the largest one noted.
pub note_received-last_received :
    (s : RecoveryState) (seq now : ℕ)
    → (note_received s seq now).0.fields.last_recv_seq ≡ max s.fields.last_recv_seq seq
unfolding note_received
note_received-last_received s seq now = ground arith

-- An ACK that is taken is for everything received, is larger than the one before it, and is then
-- recorded as sent, with nothing left due.
pub take_pending_ack_lem :
    (s : RecoveryState) (now now' seq : ℕ)
    → (take_pending_ack s now now').1 ≡ some seq
    → let s' = (take_pending_ack s now now').0 in
      (seq ≡ s.fields.last_recv_seq)
      × (s.fields.last_ack_sent < seq)
      × (s'.fields.last_ack_sent ≡ seq)
      × (s'.fields.last_recv_seq ≡ seq)
      × (s'.ack_due ≡ false)
      × (s'.ack_due_at ≡ 0)
unfolding take_pending_ack
take_pending_ack_lem s now now' seq h = ground arith

-- While a received frame is not acknowledged, a writer that sleeps as long as `next_ack_wait` says
-- finds an ACK for everything received.
pub take_pending_ack-next_ack_wait :
    (s : RecoveryState) (now later : ℕ)
    → IsScheduled s
    → s.fields.last_ack_sent < s.fields.last_recv_seq
    → now + next_ack_wait s now ≤ later
    → (take_pending_ack s later later).1 ≡ some s.fields.last_recv_seq
unfolding take_pending_ack next_ack_wait
take_pending_ack-next_ack_wait s now later v h w = ground arith
