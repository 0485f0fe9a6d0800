-- ===== src/Session/Writes.antt =====
-- The writes of the writer task keep the invariant.
use adaptivemsg_rust.Base.{
  ℕ, suc, ◌≡◌, ◌≢◌, ◌≤◌, ap, sym, ◌∙◌, List, [], ◌∷◌, ◌++◌, Bool, arith, map, inl, inr, append-nil,
}
use mathlib.Core.List.{map-append}
use adaptivemsg_rust.Replay.{FrameRecord}
use adaptivemsg_rust.RecoveryProtocol.{control_stream_id}
use adaptivemsg_rust.Writer.{Writer, WireFrame, wire_of, write, write_record}
use adaptivemsg_rust.Session.Between.{between, between-split}
use adaptivemsg_rust.Session.Invariant.{
  Base, Inv, data_frames, data_frames-append, write-cases, detach_writer-Inv,
}

module _ {lr : ℕ} {delivered : List WireFrame} {h : List FrameRecord} where
  -- A control frame on the wire is not data.
  pub control_write-Inv :
      (w : Writer) (f : WireFrame) (io_ok : Bool)
      → f.stream_id ≡ control_stream_id
      → Inv w lr delivered h
      → Inv (write w f io_ok).0 lr delivered h
  control_write-Inv w f io_ok hf v = elim (write-cases w f io_ok) [
    | inl e ↦ rw e (record {
      base = record {
        numbered = v.base.numbered;
        count = v.base.count;
        queued = v.base.queued;
        acked = v.base.acked;
        received = v.base.received;
        sent = v.base.sent;
        data_only = v.base.data_only;
        got = v.base.got;
        on_wire =
            data_frames-append w.wire (f ∷ [])
            ∙ ap (◌++◌ (data_frames w.wire)) (ground arith)
            ∙ append-nil (data_frames w.wire)
            ∙ v.base.on_wire;
      };
      to_resume = v.to_resume;
    })
    | inr e ↦ rw e (detach_writer-Inv w v.base)
  ]

  -- The next frame is written, and becomes the last one sent.
  written-Base :
      (w : Writer) (x : FrameRecord)
      → Base w lr delivered h
      → suc w.last_sent_seq ≤ w.next_send_seq
      → between w.last_sent_seq (suc w.last_sent_seq) h ≡ x ∷ []
      → x.stream_id ≢ control_stream_id
      → data_frames (w.wire ++ wire_of x ∷ []) ≡ map wire_of (between lr (suc w.last_sent_seq) h)
  written-Base w x b le one is_data =
      data_frames-append w.wire (wire_of x ∷ [])
      ∙ ap (◌++◌ (data_frames w.wire)) (ground arith)
      ∙ ap (λ (l : List WireFrame). l ++ map wire_of (x ∷ [])) b.on_wire
      ∙ sym (
          ap (map wire_of) (
            between-split 0 lr w.last_sent_seq (suc w.last_sent_seq) h b.numbered b.received
              (omega arith)
            ∙ ap (◌++◌ (between lr w.last_sent_seq h)) one)
          ∙ map-append wire_of (between lr w.last_sent_seq h) (x ∷ []))

  pub write_record-Inv :
      (w : Writer) (x : FrameRecord) (io_ok : Bool)
      → Base w lr delivered h
      → x.seq ≡ suc w.last_sent_seq
      → suc w.last_sent_seq ≤ w.next_send_seq
      → between w.last_sent_seq (suc w.last_sent_seq) h ≡ x ∷ []
      → x.stream_id ≢ control_stream_id
      → w.resume ≡ between (suc w.last_sent_seq) w.next_send_seq h
      → Inv (write_record w x io_ok) lr delivered h
  unfolding write_record
  write_record-Inv w x io_ok b hx le one is_data rest = elim (write-cases w (wire_of x) io_ok) [
    | inl e ↦ rw e (record {
      base = record {
        numbered = b.numbered;
        count = b.count;
        queued = b.queued;
        acked = b.acked;
        received = omega (arith, b.received);
        sent = omega arith;
        on_wire =
            written-Base w x b le one is_data
            ∙ ap (λ (n : ℕ). map wire_of (between lr n h)) (sym hx);
        data_only = b.data_only;
        got = b.got;
      };
      to_resume = λ _. rest ∙ ap (λ (n : ℕ). between n w.next_send_seq h) (sym hx);
    })
    | inr e ↦ rw e (detach_writer-Inv w b)
  ]
