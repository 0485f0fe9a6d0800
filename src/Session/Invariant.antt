-- ===== src/Session/Invariant.antt =====
-- What holds between the writer of one side and the reader of the other, and that the writer keeps it.
use adaptivemsg_rust.Base.{
  ℕ, ◌≡◌, ◌≢◌, ◌≤◌, refl, List, [], ◌∷◌, ◌++◌, Bool, true, false, ◌==◌, if◌then◌else◌, length,
  arith, All, map, ◌⊎◌,
}
use adaptivemsg_rust.Replay.{FrameRecord}
use adaptivemsg_rust.RecoveryProtocol.{control_stream_id}
use adaptivemsg_rust.Transport.{detach_transport}
use adaptivemsg_rust.Writer.{Writer, WireFrame, wire_of, write_frame, write, detach_writer}
use adaptivemsg_rust.Session.Between.{Numbered, between}

-- The frames on the wire that are not control frames.
abbrev pub data_frames : List WireFrame → List WireFrame
data_frames [] = []
data_frames (f ∷ fs) =
    if f.stream_id == control_stream_id then data_frames fs else f ∷ data_frames fs

pub data_frames-append :
    (xs ys : List WireFrame) → data_frames (xs ++ ys) ≡ data_frames xs ++ data_frames ys
data_frames-append [] ys = refl
data_frames-append (x ∷ xs) ys = ground (arith, data_frames-append xs ys)

-- `w` writes, the reader has received up to `lr` and delivered `delivered`, and `h` holds all frames that
-- were ever kept for sending, in order. Acknowledged, received, sent and kept frames come in this order;
-- the replay buffer holds what is not acknowledged, and the wire what is sent and not received.
pub record Base (w : Writer) (lr : ℕ) (delivered : List WireFrame) (h : List FrameRecord)
    : Type 0 where
  pub numbered : Numbered 0 h
  pub count : length h ≡ w.next_send_seq
  pub queued :
      w.recovery_state.replay.replay_queue
      ≡ between w.recovery_state.replay.last_acked w.next_send_seq h
  pub acked : w.recovery_state.replay.last_acked ≤ lr
  pub received : lr ≤ w.last_sent_seq
  pub sent : w.last_sent_seq ≤ w.next_send_seq
  pub on_wire : data_frames w.wire ≡ map wire_of (between lr w.last_sent_seq h)
  pub data_only : All (λ f. f.stream_id ≢ control_stream_id) h
  pub got : delivered ≡ map wire_of (between 0 lr h)

-- While a transport is attached, the frames left to replay are those kept and not yet sent.
pub record Inv (w : Writer) (lr : ℕ) (delivered : List WireFrame) (h : List FrameRecord)
    : Type 0 where
  pub base : Base w lr delivered h
  pub to_resume : w.attached ≡ true → w.resume ≡ between w.last_sent_seq w.next_send_seq h

pub write-cases :
    (w : Writer) (f : WireFrame) (io_ok : Bool)
    → (write w f io_ok ≡ (record w { wire = w.wire ++ f ∷ []; dirty = true }, true))
      ⊎ (write w f io_ok ≡ (detach_writer w, false))
unfolding write write_frame
write-cases w f io_ok = ground arith

pub detach_writer-replay :
    (w : Writer) → (detach_writer w).recovery_state.replay ≡ w.recovery_state.replay
unfolding detach_writer detach_transport
detach_writer-replay w = ground arith

module _ {lr : ℕ} {delivered : List WireFrame} {h : List FrameRecord} where
  pub detach_writer-Inv :
      (w : Writer) → Base w lr delivered h → Inv (detach_writer w) lr delivered h
  unfolding detach_writer
  detach_writer-Inv w b = record {
    base = record {
      numbered = b.numbered;
      count = b.count;
      queued = rw (detach_writer-replay w) b.queued;
      acked = rw (detach_writer-replay w) b.acked;
      received = b.received;
      sent = b.sent;
      on_wire = b.on_wire;
      data_only = b.data_only;
      got = b.got;
    };
    to_resume = λ e. cc;
  }
