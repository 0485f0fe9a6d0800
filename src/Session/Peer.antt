-- ===== src/Session/Peer.antt =====
-- What comes from the peer keeps the invariant: acknowledgements, the number to resume at, and its reads.
use adaptivemsg_rust.Base.{
  ℕ, suc, ◌≡◌, ◌≢◌, ◌≤◌, refl, ap, sym, ◌∙◌, min, List, [], ◌∷◌, ◌++◌, ◌==◌, arith, Bool-cases, map,
  inl, inr,
}
use mathlib.Core.List.{map-append}
use adaptivemsg_rust.Replay.{FrameRecord, ReplayBuffer, frames_after}
use adaptivemsg_rust.Replay
use adaptivemsg_rust.Replay.Acknowledge.{ack-queue}
use adaptivemsg_rust.Recovery.{prepare_resume, ack_received}
use adaptivemsg_rust.Transport.{WriterCommand}
use adaptivemsg_rust.RecoveryProtocol.{control_stream_id}
use adaptivemsg_rust.Writer.{Writer, WireFrame, wire_of, apply}
use adaptivemsg_rust.Session.Between.{
  between, between-empty, between-head, between-split, frames_after-between,
}
use adaptivemsg_rust.Session.Invariant.{Base, Inv, data_frames}

data_frames-control :
    (f : WireFrame) (rest : List WireFrame)
    → f.stream_id ≡ control_stream_id
    → data_frames (f ∷ rest) ≡ data_frames rest
data_frames-control f rest k = ground arith

data_frames-data :
    (f : WireFrame) (rest : List WireFrame)
    → f.stream_id ≢ control_stream_id
    → data_frames (f ∷ rest) ≡ f ∷ data_frames rest
data_frames-data f rest k = ground arith

map-head :
    (l : List FrameRecord) (f : WireFrame) (fs : List WireFrame)
    → map wire_of l ≡ f ∷ fs
    → (x : FrameRecord) × (xs : List FrameRecord) × (l ≡ x ∷ xs)
      × (wire_of x ≡ f)
      × (map wire_of xs ≡ fs)
map-head [] f fs e = cc
map-head (x ∷ xs) f fs e = (x, xs, refl, cc, cc)

module _ {lr : ℕ} {delivered : List WireFrame} {h : List FrameRecord} where
  -- The replay buffer after an acknowledgement of what the peer received.
  ack-queued :
      (w : Writer) (n : ℕ)
      → Base w lr delivered h
      → n ≤ lr
      → let b = (Replay.ack w.recovery_state.replay n).0 in
        (b.replay_queue ≡ between b.last_acked w.next_send_seq h)
        × (b.last_acked ≤ lr)
        × (n ≤ b.last_acked)
  ack-queued w n v le = elim (ack-queue w.recovery_state.replay n) [
    | inl e ↦ rw e.0 (v.queued, v.acked, e.1)
    | inr e ↦ (
      e.2
          ∙ ap (frames_after n) v.queued
          ∙ frames_after-between 0 n w.recovery_state.replay.last_acked w.next_send_seq h v.numbered
              (omega (arith, e.0))
          ∙ ap (λ (m : ℕ). between m w.next_send_seq h) (sym e.1),
      omega (arith, e.1),
      omega (arith, e.1),
    )
  ]

  pub ack_received-Inv :
      (w : Writer) (n : ℕ)
      → Inv w lr delivered h
      → n ≤ lr
      → Inv (record w { recovery_state = ack_received w.recovery_state n }) lr delivered h
  unfolding ack_received
  ack_received-Inv w n v le =
      let q = ack-queued w n v.base le in
      record {
        base = record {
          numbered = v.base.numbered;
          count = v.base.count;
          queued = q.0;
          acked = q.1;
          received = v.base.received;
          sent = v.base.sent;
          on_wire = v.base.on_wire;
          data_only = v.base.data_only;
          got = v.base.got;
        };
        to_resume = v.to_resume;
      }

  -- A new transport resumes at the number that the peer last received.
  pub attach-Inv :
      (w : Writer) (gen : ℕ)
      → Inv w lr delivered h
      → Inv (apply w (WriterCommand.attach gen lr)) lr delivered h
  unfolding apply prepare_resume Replay.snapshot_from
  attach-Inv w gen v =
      let q = ack-queued w (min lr w.next_send_seq) v.base (omega arith) in
      let at : min lr w.next_send_seq ≡ lr = omega (arith, v.base.received, v.base.sent) in
      record {
        base = record {
          numbered = v.base.numbered;
          count = v.base.count;
          queued = q.0;
          acked = q.1;
          received = omega (arith, at);
          sent = omega arith;
          on_wire =
              ap (map wire_of)
                (sym (between-empty lr (min lr w.next_send_seq) h (omega (arith, at))));
          data_only = v.base.data_only;
          got = v.base.got;
        };
        to_resume = λ _.
            ap (frames_after (min lr w.next_send_seq)) q.0
            ∙ frames_after-between 0 (min lr w.next_send_seq)
                (Replay.ack w.recovery_state.replay (min lr w.next_send_seq)).0.last_acked
                w.next_send_seq h v.base.numbered (omega (arith, q.1, at));
      }

  pub detach-Inv :
      (w : Writer) (gen : ℕ)
      → Inv w lr delivered h
      → Inv (apply w (WriterCommand.detach gen)) lr delivered h
  unfolding apply
  detach-Inv w gen v = elim (Bool-cases (gen == w.gen)) [
    | inl e ↦ rw e (record {
      base = record {
        numbered = v.base.numbered;
        count = v.base.count;
        queued = v.base.queued;
        acked = v.base.acked;
        received = v.base.received;
        sent = v.base.sent;
        on_wire = v.base.on_wire;
        data_only = v.base.data_only;
        got = v.base.got;
      };
      to_resume = λ k. cc;
    })
    | inr e ↦ rw e v
  ]

  -- The peer reads a control frame.
  pub read_control-Inv :
      (w : Writer) (f : WireFrame) (rest : List WireFrame)
      → w.wire ≡ f ∷ rest
      → f.stream_id ≡ control_stream_id
      → Inv w lr delivered h
      → Inv (record w { wire = rest }) lr delivered h
  read_control-Inv w f rest e k v = record {
    base = record {
      numbered = v.base.numbered;
      count = v.base.count;
      queued = v.base.queued;
      acked = v.base.acked;
      received = v.base.received;
      sent = v.base.sent;
      on_wire = sym (data_frames-control f rest k) ∙ ap data_frames (sym e) ∙ v.base.on_wire;
      data_only = v.base.data_only;
      got = v.base.got;
    };
    to_resume = v.to_resume;
  }

  -- The data frame that the peer reads is the one after the last that it received.
  pub read_data-Inv :
      (w : Writer) (f : WireFrame) (rest : List WireFrame)
      → w.wire ≡ f ∷ rest
      → f.stream_id ≢ control_stream_id
      → Inv w lr delivered h
      → (f.seq ≡ suc lr) × Inv (record w { wire = rest }) (suc lr) (delivered ++ f ∷ []) h
  read_data-Inv w f rest e k v =
      let (x, xs, c, hf, hr) =
        map-head (between lr w.last_sent_seq h) f (data_frames rest)
          (sym v.base.on_wire ∙ ap data_frames e ∙ data_frames-data f rest k) in
      let head =
        between-head 0 lr w.last_sent_seq h {x = x} {xs = xs} v.base.numbered (omega arith) c in
      (
        ap (λ (g : WireFrame). g.seq) (sym hf) ∙ head.0,
        record {
          base = record {
            numbered = v.base.numbered;
            count = v.base.count;
            queued = v.base.queued;
            acked = omega (arith, v.base.acked);
            received = head.1;
            sent = v.base.sent;
            on_wire = sym hr ∙ ap (map wire_of) head.2;
            data_only = v.base.data_only;
            got =
                ap (λ (l : List WireFrame). l ++ f ∷ []) v.base.got
                ∙ ap (λ (g : WireFrame). map wire_of (between 0 lr h) ++ g ∷ []) (sym hf)
                ∙ sym (
                    ap (map wire_of) (
                      between-split 0 0 lr (suc lr) h v.base.numbered (omega arith) (omega arith)
                      ∙ ap (◌++◌ (between 0 lr h)) head.3)
                    ∙ map-append wire_of (between 0 lr h) (x ∷ []));
          };
          to_resume = v.to_resume;
        },
      )
