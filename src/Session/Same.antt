-- ===== src/Session/Same.antt =====
-- Steps of the writer that leave what the session depends on as it is.
use adaptivemsg_rust.Base.{ℕ, ◌≡◌, List, ◌∙◌, sym}
use adaptivemsg_rust.Replay.{FrameRecord}
use adaptivemsg_rust.Writer.{Writer, WireFrame}
use adaptivemsg_rust.Session.Invariant.{Base, Inv}

pub record Same (w w' : Writer) : Type 0 where
  pub next : w'.next_send_seq ≡ w.next_send_seq
  pub replay : w'.recovery_state.replay ≡ w.recovery_state.replay
  pub last_sent : w'.last_sent_seq ≡ w.last_sent_seq
  pub wire : w'.wire ≡ w.wire
  pub attached : w'.attached ≡ w.attached
  pub resume : w'.resume ≡ w.resume

module _ {lr : ℕ} {delivered : List WireFrame} {h : List FrameRecord} where
  pub Same-Base : (w w' : Writer) → Same w w' → Base w lr delivered h → Base w' lr delivered h
  Same-Base w w' s b = record {
    numbered = b.numbered;
    count = rw s.next b.count;
    queued = rw (s.replay, s.next) b.queued;
    acked = rw s.replay b.acked;
    received = rw s.last_sent b.received;
    sent = rw (s.last_sent, s.next) b.sent;
    on_wire = rw (s.wire, s.last_sent) b.on_wire;
    data_only = b.data_only;
    got = b.got;
  }

  pub Same-Inv : (w w' : Writer) → Same w w' → Inv w lr delivered h → Inv w' lr delivered h
  Same-Inv w w' s v = record {
    base = Same-Base w w' s v.base;
    to_resume = λ e. rw (s.resume, s.last_sent, s.next) (v.to_resume (sym s.attached ∙ e));
  }
