-- ===== src/Session/Waiting.antt =====
-- src/recovery_runtime.rs: the frames that wait to be sent stay off the control stream.
use adaptivemsg_rust.Base.{
  ℕ, ◌+◌, ◌≡◌, ◌≢◌, refl, sym, ◌∙◌, List, [], ◌∷◌, Option, some, none, Bool, ltb, arith, All, inl,
  inr, Bool-cases,
}
use mathlib.Core.Path.{subst}
use adaptivemsg_rust.Error.{Result, ok, err, panicked}
use adaptivemsg_rust.Replay.{FrameRecord, Staged, kept, full, ReplayBuffer}
use adaptivemsg_rust.Replay
use adaptivemsg_rust.Recovery.{take_pending_ack}
use adaptivemsg_rust.RecoveryProtocol.{control_stream_id, build_ack_control_payload}
use adaptivemsg_rust.Transport.{WriterCommand}
use adaptivemsg_rust.Writer.{
  Writer, WireFrame, OutboundFrame, plain, recovery, write, write_record, write_staged,
  detach_writer, stage, stage_data, after_stage, outbound, finish_on_close, write_live,
  write_next_live, write_next_data, write_next, apply, control_frame,
}
use adaptivemsg_rust.Writer.Loop.{stage_detached}
use adaptivemsg_rust.Session.Live.{IsData}
use adaptivemsg_rust.Session.Steps.{HasData, List-cases, write_next_live-cases, write_next-cases}

pub record Waits (w w' : Writer) : Type 0 where
  pub held : w'.held ≡ w.held
  pub queue : w'.outbound_rx ≡ w.outbound_rx

pub Waits-HasData : {w w' : Writer} → Waits w w' → HasData w → HasData w'
Waits-HasData v d = record {
  held_data = λ f e. d.held_data f (sym v.held ∙ e);
  queue_data = rw v.queue d.queue_data;
}

pub write-Waits : (w : Writer) (f : WireFrame) (io_ok : Bool) → Waits w (write w f io_ok).0
unfolding write detach_writer
write-Waits w f io_ok = record { held = ground arith; queue = ground arith }

write_record-Waits :
    (w : Writer) (f : FrameRecord) (io_ok : Bool) → Waits w (write_record w f io_ok)
unfolding write_record write detach_writer
write_record-Waits w f io_ok = record { held = ground arith; queue = ground arith }

pub detach_writer-Waits : (w : Writer) → Waits w (detach_writer w)
unfolding detach_writer
detach_writer-Waits w = record { held = refl; queue = refl }

pub apply-Waits : (w : Writer) (cmd : WriterCommand) → Waits w (apply w cmd)
unfolding apply
apply-Waits w (WriterCommand.attach gen seq) = record { held = refl; queue = refl }
apply-Waits w (WriterCommand.detach gen) = record { held = ground arith; queue = ground arith }

outbound-IsData :
    (stream_id flags : ℕ) (payload : List ℕ) (queued_tx : Option ℕ)
    → stream_id ≢ control_stream_id
    → IsData (outbound stream_id flags payload queued_tx)
outbound-IsData stream_id flags payload none d = d
outbound-IsData stream_id flags payload (some tx) d = d

after_stage-HasData :
    (w : Writer) (stream_id flags : ℕ) (queued_tx : Option ℕ) (r : ReplayBuffer × Result Staged)
    → stream_id ≢ control_stream_id
    → HasData w
    → HasData (after_stage w stream_id flags queued_tx r).0
after_stage-HasData w stream_id flags queued_tx (buffer, ok (kept frame)) k d = record {
  held_data = d.held_data;
  queue_data = d.queue_data;
}
after_stage-HasData w stream_id flags queued_tx (buffer, ok (full payload)) k d = record {
  held_data = λ f e. subst IsData (cc e) (outbound-IsData stream_id flags payload queued_tx k);
  queue_data = d.queue_data;
}
after_stage-HasData w stream_id flags queued_tx (buffer, err e) k d = record {
  held_data = d.held_data;
  queue_data = d.queue_data;
}
after_stage-HasData w stream_id flags queued_tx (buffer, panicked) k d = d

stage-HasData : (w : Writer) (f : OutboundFrame) → IsData f → HasData w → HasData (stage w f).0
unfolding stage stage_data
stage-HasData w (plain stream_id flags payload) k d =
    after_stage-HasData w stream_id flags none
      (Replay.stage w.recovery_state.replay stream_id (w.next_send_seq + 1) flags payload) k d
stage-HasData w (recovery stream_id flags payload queued_tx) k d =
    after_stage-HasData w stream_id flags (some queued_tx)
      (Replay.stage w.recovery_state.replay stream_id (w.next_send_seq + 1) flags payload) k d
stage-HasData w (OutboundFrame.close written) k d = d

write_staged-HasData :
    (x : Writer × Option FrameRecord) (io_ok : Bool) → HasData x.0 → HasData (write_staged x io_ok)
write_staged-HasData (w, none) io_ok d = d
write_staged-HasData (w, some frame) io_ok d = elim (Bool-cases (ltb w.last_sent_seq frame.seq)) [
  | inl e ↦ rw e (Waits-HasData (write_record-Waits w frame io_ok) d)
  | inr e ↦ rw e d
]

closing-Waits :
    (w : Writer) (written : ℕ) (io_ok shutdown_ok : Bool)
    → Waits w (finish_on_close w (OutboundFrame.close written) io_ok shutdown_ok).0
unfolding finish_on_close
closing-Waits w written io_ok shutdown_ok = record { held = ground arith; queue = ground arith }

pub write_live-HasData :
    (w : Writer) (f : OutboundFrame) (io_ok shutdown_ok : Bool)
    → IsData f
    → HasData w
    → HasData (write_live w f io_ok shutdown_ok).0
unfolding write_live finish_on_close
write_live-HasData w (plain stream_id flags payload) io_ok shutdown_ok k d =
    write_staged-HasData (stage w (plain stream_id flags payload)) io_ok
      (stage-HasData w (plain stream_id flags payload) k d)
write_live-HasData w (recovery stream_id flags payload queued_tx) io_ok shutdown_ok k d =
    write_staged-HasData (stage w (recovery stream_id flags payload queued_tx)) io_ok
      (stage-HasData w (recovery stream_id flags payload queued_tx) k d)
write_live-HasData w (OutboundFrame.close written) io_ok shutdown_ok k d =
    Waits-HasData (record { held = ground arith; queue = ground arith }) d

pub stage_detached-HasData :
    (w : Writer) (f : OutboundFrame) (io_ok shutdown_ok : Bool)
    → IsData f
    → HasData w
    → HasData (stage_detached w f io_ok shutdown_ok).0
unfolding stage_detached finish_on_close
stage_detached-HasData w (plain stream_id flags payload) io_ok shutdown_ok k d =
    stage-HasData w (plain stream_id flags payload) k d
stage_detached-HasData w (recovery stream_id flags payload queued_tx) io_ok shutdown_ok k d =
    stage-HasData w (recovery stream_id flags payload queued_tx) k d
stage_detached-HasData w (OutboundFrame.close written) io_ok shutdown_ok k d =
    Waits-HasData (record { held = ground arith; queue = ground arith }) d

write_next_live-HasData :
    (w : Writer) (io_ok shutdown_ok : Bool)
    → HasData w
    → HasData (write_next_live w io_ok shutdown_ok).0
write_next_live-HasData w io_ok shutdown_ok d = elim (write_next_live-cases w io_ok shutdown_ok) [
  | inl e ↦ rw e d
  | inr (inl (f, k, e)) ↦ rw e (
      write_live-HasData (record w { held = none }) f io_ok shutdown_ok (d.held_data f k)
        (record { held_data = λ f e. absurd (ground (arith, e)); queue_data = d.queue_data }))
  | inr (inr (f, rest, k, e)) ↦
      let q : All IsData (f ∷ rest) = subst (All IsData) k d.queue_data in
      rw e (
        write_live-HasData (record w { outbound_rx = rest }) f io_ok shutdown_ok q.0
          (record { held_data = d.held_data; queue_data = q.1 }))
]

no_resume :
    (w : Writer) (io_ok shutdown_ok : Bool)
    → w.resume ≡ []
    → (write_next_data w io_ok shutdown_ok).0 ≡ (write_next_live w io_ok shutdown_ok).0
unfolding write_next_data
no_resume w io_ok shutdown_ok e = ground (arith, e)

resume-Waits :
    (w : Writer) (io_ok shutdown_ok : Bool) (x : FrameRecord) (rest : List FrameRecord)
    → w.resume ≡ x ∷ rest
    → Waits w (write_next_data w io_ok shutdown_ok).0
unfolding write_next_data write_record write detach_writer
resume-Waits w io_ok shutdown_ok x rest e = record {
  held = ground (arith, e);
  queue = ground (arith, e);
}

write_next_data-HasData :
    (w : Writer) (io_ok shutdown_ok : Bool)
    → HasData w
    → HasData (write_next_data w io_ok shutdown_ok).0
write_next_data-HasData w io_ok shutdown_ok d = elim (List-cases w.resume) [
  | inl e ↦ rw (no_resume w io_ok shutdown_ok e) (write_next_live-HasData w io_ok shutdown_ok d)
  | inr (x, rest, e) ↦ Waits-HasData (resume-Waits w io_ok shutdown_ok x rest e) d
]

pub write_next-HasData :
    (w : Writer) (now now' : ℕ) (io_ok shutdown_ok : Bool)
    → HasData w
    → HasData (write_next w now now' io_ok shutdown_ok).0
write_next-HasData w now now' io_ok shutdown_ok d =
    let w' = record w { recovery_state = (take_pending_ack w.recovery_state now now').0 } in
    let d' : HasData w' = record { held_data = d.held_data; queue_data = d.queue_data } in
    elim (write_next-cases w now now' io_ok shutdown_ok) [
      | inl (seq, e) ↦
          rw e (
            Waits-HasData (write-Waits w' (control_frame (build_ack_control_payload seq)) io_ok) d')
      | inr e ↦ rw e (write_next_data-HasData w' io_ok shutdown_ok d')
    ]

-- The first frame of the queue is taken.
pub queue_head :
    (w : Writer) (f : OutboundFrame) (rest : List OutboundFrame)
    → w.outbound_rx ≡ f ∷ rest
    → HasData w
    → IsData f × HasData (record w { outbound_rx = rest })
queue_head w f rest e d =
    let q : All IsData (f ∷ rest) = subst (All IsData) e d.queue_data in
    (q.0, record { held_data = d.held_data; queue_data = q.1 })
