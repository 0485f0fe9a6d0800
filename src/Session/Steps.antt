-- ===== src/Session/Steps.antt =====
-- The steps of the writer task keep the invariant.
use adaptivemsg_rust.Base.{
  ℕ, suc, ◌≡◌, ◌≢◌, ◌<◌, refl, sym, ◌∙◌, List, [], ◌∷◌, Bool, true, ltb, leb, ◌&&◌, length, arith,
  All, Option, some, none, ◌⊎◌, inl, inr, Option-cases, Bool-cases,
}
use mathlib.Core.Path.{subst}
use adaptivemsg_rust.Replay.{FrameRecord}
use adaptivemsg_rust.Recovery.{RecoveryState, take_pending_ack}
use adaptivemsg_rust.RecoveryProtocol.{control_stream_id, build_ack_control_payload}
use adaptivemsg_rust.Writer.{
  Writer, WireFrame, OutboundFrame, write, write_record, detach_writer, control_frame, write_live,
  write_next_live, write_next_data, write_next,
}
use adaptivemsg_rust.Session.Between.{between, between-head}
use adaptivemsg_rust.Session.Invariant.{Base, Inv}
use adaptivemsg_rust.Session.Writes.{control_write-Inv, write_record-Inv}
use adaptivemsg_rust.Session.Same.{Same, Same-Inv}
use adaptivemsg_rust.Session.Staging.{grow, grow-same}
use adaptivemsg_rust.Session.Live.{IsData, write_live-Inv, write_record-keeps}

All-between :
    (P : FrameRecord → Type 0) (a b : ℕ) (h : List FrameRecord) → All P h → All P (between a b h)
All-between P a b [] p = tt
All-between P a b (x ∷ xs) p = elim (Bool-cases (ltb a x.seq && leb x.seq b)) [
  | inl e ↦ rw e (p.0, All-between P a b xs p.1)
  | inr e ↦ rw e (All-between P a b xs p.1)
]

-- No frame that waits to be sent claims to be on the control stream.
pub record HasData (w : Writer) : Type 0 where
  pub held_data : (f : OutboundFrame) → w.held ≡ some f → IsData f
  pub queue_data : All IsData w.outbound_rx

pub List-cases {ℓ} :
    {A : Type ℓ} (l : List A) → (l ≡ []) ⊎ ((a : A) × (rest : List A) × (l ≡ a ∷ rest))
List-cases [] = inl refl
List-cases (a ∷ rest) = inr (a, rest, refl)

pub queue-Same :
    {w : Writer} {held : Option OutboundFrame} {queue : List OutboundFrame}
    → Same w (record w { held = held; outbound_rx = queue })
queue-Same = record {
  next = refl;
  replay = refl;
  last_sent = refl;
  wire = refl;
  attached = refl;
  resume = refl;
}

pub write_next_live-cases :
    (w : Writer) (io_ok shutdown_ok : Bool)
    → ((write_next_live w io_ok shutdown_ok).0 ≡ w)
      ⊎ ((f : OutboundFrame) × (w.held ≡ some f)
          × ((write_next_live w io_ok shutdown_ok).0
              ≡ (write_live (record w { held = none }) f io_ok shutdown_ok).0))
      ⊎ ((f : OutboundFrame) × (rest : List OutboundFrame) × (w.outbound_rx ≡ f ∷ rest)
          × ((write_next_live w io_ok shutdown_ok).0
              ≡ (write_live (record w { outbound_rx = rest }) f io_ok shutdown_ok).0))
unfolding write_next_live
write_next_live-cases w io_ok shutdown_ok = elim (Option-cases w.held) [
  | inr (f, e) ↦ inr (inl (f, e, ground arith))
  | inl e ↦ elim (List-cases w.outbound_rx) [
    | inl k ↦ inl (ground arith)
    | inr (f, rest, k) ↦ inr (inr (f, rest, k, ground arith))
  ]
]

write_next_data-cases :
    (w : Writer) (io_ok shutdown_ok : Bool)
    → ((w.resume ≡ [])
        × ((write_next_data w io_ok shutdown_ok).0 ≡ (write_next_live w io_ok shutdown_ok).0))
      ⊎ ((x : FrameRecord) × (rest : List FrameRecord) × (w.resume ≡ x ∷ rest)
          × (w.last_sent_seq < x.seq
              → w.recovery_state.replay.last_acked < x.seq
              → (write_next_data w io_ok shutdown_ok).0
                ≡ write_record
                    (record w {
                      resume = rest;
                      recovery_state = record (w.recovery_state) { resume_depth = length rest };
                    })
                    x
                    io_ok))
unfolding write_next_data
write_next_data-cases w io_ok shutdown_ok = elim (List-cases w.resume) [
  | inl e ↦ inl (e, ground arith)
  | inr (x, rest, e) ↦ inr (x, rest, e, λ a b. ground arith)
]

take_pending_ack-replay :
    (r : RecoveryState) (now now' : ℕ) → (take_pending_ack r now now').0.replay ≡ r.replay
unfolding take_pending_ack
take_pending_ack-replay r now now' = ground arith

after_ack :
    (w : Writer) (now now' : ℕ)
    → Same w (record w { recovery_state = (take_pending_ack w.recovery_state now now').0 })
after_ack w now now' = record {
  next = refl;
  replay = take_pending_ack-replay w.recovery_state now now';
  last_sent = refl;
  wire = refl;
  attached = refl;
  resume = refl;
}

pub write_next-cases :
    (w : Writer) (now now' : ℕ) (io_ok shutdown_ok : Bool)
    → let w' = record w { recovery_state = (take_pending_ack w.recovery_state now now').0 } in
      ((seq : ℕ) × ((write_next w now now' io_ok shutdown_ok).0
          ≡ (write w' (control_frame (build_ack_control_payload seq)) io_ok).0))
      ⊎ ((write_next w now now' io_ok shutdown_ok).0 ≡ (write_next_data w' io_ok shutdown_ok).0)
unfolding write_next
write_next-cases w now now' io_ok shutdown_ok =
    elim (Option-cases (take_pending_ack w.recovery_state now now').1) [
      | inl e ↦ inr (ground arith)
      | inr (seq, e) ↦ inl (seq, ground arith)
    ]

write-next_send_seq :
    (w : Writer) (f : WireFrame) (io_ok : Bool)
    → (write w f io_ok).0.next_send_seq ≡ w.next_send_seq
unfolding write detach_writer
write-next_send_seq w f io_ok = ground arith

module _ {lr : ℕ} {delivered : List WireFrame} {h : List FrameRecord} where
  write_next_live-Inv :
      (w : Writer) (io_ok shutdown_ok : Bool)
      → HasData w
      → Inv w lr delivered h
      → w.attached ≡ true
      → w.resume ≡ []
      → let w' = (write_next_live w io_ok shutdown_ok).0 in Inv w' lr delivered (grow w w' h)
  write_next_live-Inv w io_ok shutdown_ok d v at done =
      elim (write_next_live-cases w io_ok shutdown_ok) [
        | inl e ↦ rw e (rw (grow-same w w h refl) v)
        | inr (inl (f, k, e)) ↦
            let w' = record w { held = none } in
            rw e (
              write_live-Inv w' f io_ok shutdown_ok (d.held_data f k) (Same-Inv w w' queue-Same v)
                at done)
        | inr (inr (f, rest, k, e)) ↦
            let w' = record w { outbound_rx = rest } in
            rw e (
              write_live-Inv w' f io_ok shutdown_ok (subst (All IsData) k d.queue_data).0
                (Same-Inv w w' queue-Same v) at done)
      ]

  -- A frame to replay is written if the peer may lack it.
  replay_next-Inv :
      (w : Writer) (x : FrameRecord) (rest : List FrameRecord) (io_ok : Bool)
      → Inv w lr delivered h
      → w.attached ≡ true
      → w.resume ≡ x ∷ rest
      → Inv
          (write_record
            (record w {
              resume = rest;
              recovery_state = record (w.recovery_state) { resume_depth = length rest };
            })
            x
            io_ok)
          lr
          delivered
          h
  replay_next-Inv w x rest io_ok v at e =
      let w' = record w {
        resume = rest;
        recovery_state = record (w.recovery_state) { resume_depth = length rest };
      } in
      let head =
        between-head 0 w.last_sent_seq w.next_send_seq h {x = x} {xs = rest} v.base.numbered
          (omega arith) (sym (v.to_resume at) ∙ e) in
      let b : Base w' lr delivered h = record {
        numbered = v.base.numbered;
        count = v.base.count;
        queued = v.base.queued;
        acked = v.base.acked;
        received = v.base.received;
        sent = v.base.sent;
        on_wire = v.base.on_wire;
        data_only = v.base.data_only;
        got = v.base.got;
      } in
      write_record-Inv w' x io_ok b head.0 head.1 head.3
        (subst (All λ f. f.stream_id ≢ control_stream_id) head.3 (
          All-between (λ f. f.stream_id ≢ control_stream_id) w.last_sent_seq (suc w.last_sent_seq) h
            v.base.data_only)).0
        head.2

  write_next_data-Inv :
      (w : Writer) (io_ok shutdown_ok : Bool)
      → HasData w
      → Inv w lr delivered h
      → w.attached ≡ true
      → let w' = (write_next_data w io_ok shutdown_ok).0 in Inv w' lr delivered (grow w w' h)
  write_next_data-Inv w io_ok shutdown_ok d v at =
      elim (write_next_data-cases w io_ok shutdown_ok) [
        | inl (e, k) ↦ rw k (write_next_live-Inv w io_ok shutdown_ok d v at e)
        | inr (x, rest, e, k) ↦
            let w' = record w {
              resume = rest;
              recovery_state = record (w.recovery_state) { resume_depth = length rest };
            } in
            let head =
              between-head 0 w.last_sent_seq w.next_send_seq h {x = x} {xs = rest} v.base.numbered
                (omega arith) (sym (v.to_resume at) ∙ e) in
            rw (k (omega (arith, head.0)) (omega (arith, head.0, v.base.acked, v.base.received))) (
              rw (grow-same w (write_record w' x io_ok) h (write_record-keeps w' x io_ok).0)
                (replay_next-Inv w x rest io_ok v at e))
      ]

  pub write_next-Inv :
      (w : Writer) (now now' : ℕ) (io_ok shutdown_ok : Bool)
      → HasData w
      → Inv w lr delivered h
      → w.attached ≡ true
      → let w' = (write_next w now now' io_ok shutdown_ok).0 in Inv w' lr delivered (grow w w' h)
  write_next-Inv w now now' io_ok shutdown_ok d v at =
      let w' = record w { recovery_state = (take_pending_ack w.recovery_state now now').0 } in
      let v' = Same-Inv w w' (after_ack w now now') v in
      elim (write_next-cases w now now' io_ok shutdown_ok) [
        | inl (seq, e) ↦
            let f = control_frame (build_ack_control_payload seq) in
            rw e (
              rw (grow-same w (write w' f io_ok).0 h (write-next_send_seq w' f io_ok))
                (control_write-Inv w' f io_ok refl v'))
        | inr e ↦ rw e (
            write_next_data-Inv w' io_ok shutdown_ok
              (record { held_data = d.held_data; queue_data = d.queue_data }) v' at)
      ]
