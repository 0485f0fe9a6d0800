-- ===== src/Session/Live.antt =====
-- A live frame that the writer takes up keeps the invariant.
use adaptivemsg_rust.Base.{
  ℕ, suc, ◌+◌, ◌≡◌, ◌≢◌, ◌≤◌, refl, ap, sym, ◌∙◌, append-nil, List, [], ◌∷◌, ◌++◌, Bool, true,
  false, length, arith, Option, some, none, ◌⊎◌, inl, inr,
}
use adaptivemsg_rust.Replay.{FrameRecord, ReplayBuffer}
use adaptivemsg_rust.RecoveryProtocol.{control_stream_id, build_close_control_payload}
use adaptivemsg_rust.Writer.{
  Writer, WireFrame, stage, stage_data, write_staged, OutboundFrame, plain, recovery, close,
  wire_of, write_frame, write_record, detach_writer, control_frame, finish_on_close, write_live,
}
use adaptivemsg_rust.Writer.Loop.{stage_detached}
use adaptivemsg_rust.Session.Between.{Numbered, between}
use adaptivemsg_rust.Session.Invariant.{
  Inv, data_frames, data_frames-append, write-cases, detach_writer-replay,
}
use adaptivemsg_rust.Session.Same.{Same-Inv}
use adaptivemsg_rust.Session.Staging.{
  made, kept_by, stage_data-cases, kept-write-Inv, kept-Base, grow, grow-same, grow-kept,
}

-- A range inside the history is not empty.
between-none :
    (n b c : ℕ) (h : List FrameRecord)
    → Numbered n h
    → n ≤ b
    → c ≤ n + length h
    → between b c h ≡ []
    → c ≤ b
between-none n b c [] v le lc e = omega arith
between-none n b c (x ∷ xs) v le lc e = ground (arith, between-none (suc n) b c xs v.1)

-- What a write leaves alone.
pub write_record-keeps :
    (w : Writer) (x : FrameRecord) (io_ok : Bool)
    → ((write_record w x io_ok).next_send_seq ≡ w.next_send_seq)
      × ((write_record w x io_ok).recovery_state.replay ≡ w.recovery_state.replay)
unfolding write_record
write_record-keeps w x io_ok = elim (write-cases w (wire_of x) io_ok) [
  | inl e ↦ rw e (refl, refl)
  | inr e ↦ rw e (detach-next w, detach_writer-replay w)
]
  where
    detach-next : (w : Writer) → (detach_writer w).next_send_seq ≡ w.next_send_seq
    detach-next w = unfold detach_writer in refl

write_staged-keeps :
    (w : Writer) (x : FrameRecord) (io_ok : Bool)
    → ((write_staged (w, some x) io_ok).next_send_seq ≡ w.next_send_seq)
      × ((write_staged (w, some x) io_ok).recovery_state.replay ≡ w.recovery_state.replay)
write_staged-keeps w x io_ok = ground (arith, write_record-keeps w x io_ok)

unwritten :
    (r : Writer × Option FrameRecord) (io_ok : Bool) → r.1 ≡ none → write_staged r io_ok ≡ r.0
unwritten (w, none) io_ok e = refl
unwritten (w, some f) io_ok e = cc

write_live-close-cases :
    (w : Writer) (written : ℕ) (io_ok shutdown_ok : Bool)
    → let w' = (write_live w (close written) io_ok shutdown_ok).0 in
      (w' ≡ record w { reports = w.reports ++ (written, false) ∷ [] })
      ⊎ (w' ≡ record w {
        wire = w.wire ++ control_frame build_close_control_payload ∷ [];
        reports = w.reports ++ (written, shutdown_ok) ∷ [];
      })
unfolding write_live finish_on_close write_frame
write_live-close-cases w written io_ok shutdown_ok = ground arith

stage_detached-close :
    (w : Writer) (written : ℕ) (io_ok shutdown_ok : Bool)
    → w.attached ≡ false
    → (stage_detached w (close written) io_ok shutdown_ok).0
      ≡ record w { reports = w.reports ++ (written, false) ∷ [] }
unfolding stage_detached finish_on_close
stage_detached-close w written io_ok shutdown_ok off = ground arith

abbrev pub IsData : OutboundFrame → Type 0
IsData (plain stream_id flags payload) = stream_id ≢ control_stream_id
IsData (recovery stream_id flags payload queued_tx) = stream_id ≢ control_stream_id
IsData (close written) = Unit {0}

module _ {lr : ℕ} {delivered : List WireFrame} {h : List FrameRecord} where
  stage_data-write-Inv :
      (w : Writer) (stream_id flags : ℕ) (payload : List ℕ) (queued_tx : Option ℕ) (io_ok : Bool)
      → stream_id ≢ control_stream_id
      → Inv w lr delivered h
      → w.attached ≡ true
      → w.resume ≡ []
      → let w' = write_staged (stage_data w stream_id flags payload queued_tx) io_ok in
        Inv w' lr delivered (grow w w' h)
  stage_data-write-Inv w stream_id flags payload queued_tx io_ok is_data v at done =
      let f = made w.recovery_state.replay stream_id (w.next_send_seq + 1) flags payload in
      elim (stage_data-cases w stream_id flags payload queued_tx) [
        | inl e ↦ rw e (
            rw
              (grow-kept w (write_staged (kept_by w f queued_tx, some f) io_ok) h
                w.recovery_state.replay.replay_queue f
                (omega (arith, (write_staged-keeps (kept_by w f queued_tx) f io_ok).0))
                (ap (λ (b : ReplayBuffer). b.replay_queue)
                  (write_staged-keeps (kept_by w f queued_tx) f io_ok).1))
              (kept-write-Inv w stream_id flags payload queued_tx io_ok is_data v.base done (
                omega (
                  arith,
                  v.base.sent,
                  v.base.count,
                  between-none 0 w.last_sent_seq w.next_send_seq h v.base.numbered (omega arith)
                      (omega (arith, v.base.count)) (sym (v.to_resume at) ∙ done),
                ))))
        | inr e ↦
            let w' = (stage_data w stream_id flags payload queued_tx).0 in
            rw (unwritten (stage_data w stream_id flags payload queued_tx) io_ok e.0)
              (rw (grow-same w w' h e.1.next) (Same-Inv w w' e.1 v))
      ]

  -- The marker of the end puts CLOSE on the wire, which is not data.
  close-Inv :
      (w : Writer) (reports : List (ℕ × Bool))
      → Inv w lr delivered h
      → Inv
          (record w {
            wire = w.wire ++ control_frame build_close_control_payload ∷ [];
            reports = reports;
          })
          lr
          delivered
          h
  close-Inv w reports v =
      let f = control_frame build_close_control_payload in
      record {
        base = record {
          numbered = v.base.numbered;
          count = v.base.count;
          queued = v.base.queued;
          acked = v.base.acked;
          received = v.base.received;
          sent = v.base.sent;
          data_only = v.base.data_only;
          got = v.base.got;
          on_wire =
              data_frames-append w.wire (f ∷ [])
              ∙ ap (◌++◌ (data_frames w.wire)) (ground arith)
              ∙ append-nil (data_frames w.wire)
              ∙ v.base.on_wire;
        };
        to_resume = v.to_resume;
      }

  -- What becomes of a live frame while nothing is left to replay.
  pub write_live-Inv :
      (w : Writer) (frame : OutboundFrame) (io_ok shutdown_ok : Bool)
      → IsData frame
      → Inv w lr delivered h
      → w.attached ≡ true
      → w.resume ≡ []
      → let w' = (write_live w frame io_ok shutdown_ok).0 in Inv w' lr delivered (grow w w' h)
  unfolding write_live stage finish_on_close
  write_live-Inv w (plain stream_id flags payload) io_ok shutdown_ok is_data v at done =
      stage_data-write-Inv w stream_id flags payload none io_ok is_data v at done
  write_live-Inv w (recovery stream_id flags payload q) io_ok shutdown_ok is_data v at done =
      stage_data-write-Inv w stream_id flags payload (some q) io_ok is_data v at done
  write_live-Inv w (close written) io_ok shutdown_ok is_data v at done =
      elim (write_live-close-cases w written io_ok shutdown_ok) [
        | inl e ↦ rw e (
            rw (grow-same w w h refl) (
              Same-Inv w (record w { reports = w.reports ++ (written, false) ∷ [] })
                (record {
                  next = refl;
                  replay = refl;
                  last_sent = refl;
                  wire = refl;
                  attached = refl;
                  resume = refl;
                })
                v))
        | inr e ↦
            rw e
              (rw (grow-same w w h refl) (close-Inv w (w.reports ++ (written, shutdown_ok) ∷ []) v))
      ]

  stage_data-detached-Inv :
      (w : Writer) (stream_id flags : ℕ) (payload : List ℕ) (queued_tx : Option ℕ)
      → stream_id ≢ control_stream_id
      → Inv w lr delivered h
      → w.attached ≡ false
      → let w' = (stage_data w stream_id flags payload queued_tx).0 in
        Inv w' lr delivered (grow w w' h)
  stage_data-detached-Inv w stream_id flags payload queued_tx is_data v off =
      let f = made w.recovery_state.replay stream_id (w.next_send_seq + 1) flags payload in
      elim (stage_data-cases w stream_id flags payload queued_tx) [
        | inl e ↦ rw e (
            rw
              (grow-kept w (kept_by w f queued_tx) h w.recovery_state.replay.replay_queue f
                (omega arith) refl)
              (record {
                base = kept-Base w stream_id flags payload queued_tx is_data v.base;
                to_resume = λ k. cc;
              }))
        | inr e ↦
            let w' = (stage_data w stream_id flags payload queued_tx).0 in
            rw (grow-same w w' h e.1.next) (Same-Inv w w' e.1 v)
      ]

  -- What becomes of a frame while no transport is attached.
  pub stage_detached-Inv :
      (w : Writer) (frame : OutboundFrame) (io_ok shutdown_ok : Bool)
      → IsData frame
      → Inv w lr delivered h
      → w.attached ≡ false
      → let w' = (stage_detached w frame io_ok shutdown_ok).0 in Inv w' lr delivered (grow w w' h)
  unfolding stage_detached stage finish_on_close
  stage_detached-Inv w (plain stream_id flags payload) io_ok shutdown_ok is_data v off =
      stage_data-detached-Inv w stream_id flags payload none is_data v off
  stage_detached-Inv w (recovery stream_id flags payload q) io_ok shutdown_ok is_data v off =
      stage_data-detached-Inv w stream_id flags payload (some q) is_data v off
  stage_detached-Inv w (close written) io_ok shutdown_ok is_data v off =
      rw (stage_detached-close w written io_ok shutdown_ok off) (
        rw (grow-same w w h refl) (
          Same-Inv w (record w { reports = w.reports ++ (written, false) ∷ [] })
            (record {
              next = refl;
              replay = refl;
              last_sent = refl;
              wire = refl;
              attached = refl;
              resume = refl;
            })
            v))
