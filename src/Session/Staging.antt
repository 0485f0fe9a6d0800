-- ===== src/Session/Staging.antt =====
-- Keeping a new frame, and writing it when the writer has nothing else to send.
use adaptivemsg_rust.Base.{
  ℕ, suc, ◌+◌, ◌≡◌, ◌≢◌, ◌<◌, refl, ap, get_last?, sym, ◌∙◌, List, [], ◌∷◌, ◌++◌, Bool, ◌==◌,
  if◌then◌else◌, length, arith, lt→ltb, map, Option, some, none, ◌⊎◌, inl, inr, append-nil,
  length-append, All-append,
}
use adaptivemsg_rust.Error.{Result, ok, err}
use adaptivemsg_rust.Replay.{FrameRecord, ReplayBuffer, Staged, kept, full}
use adaptivemsg_rust.Replay
use adaptivemsg_rust.RecoveryProtocol.{control_stream_id}
use adaptivemsg_rust.Writer.{
  Writer, WireFrame, stage_data, after_stage, write_staged, tell, OutboundFrame, wire_of,
}
use adaptivemsg_rust.Session.Between.{
  between, between-append, between-empty, between-end, Numbered-append,
}
use adaptivemsg_rust.Session.Invariant.{Base, Inv}
use adaptivemsg_rust.Error.{invalid_message, frame_too_large}
use adaptivemsg_rust.Base.{pos, ◌+ℤ◌}
use adaptivemsg_rust.Session.Writes.{write_record-Inv}
use adaptivemsg_rust.Session.Same.{Same}

-- The record that `Replay.stage` makes.
abbrev pub made : ReplayBuffer → ℕ → ℕ → ℕ → List ℕ → FrameRecord
made b stream_id seq flags payload = record {
  stream_id = stream_id;
  seq = seq;
  flags = flags;
  payload = payload;
  size = pos (b.header_len + length payload);
}

abbrev pub pushed : ReplayBuffer → FrameRecord → ReplayBuffer
pushed b f = record b {
  replay_queue = b.replay_queue ++ f ∷ [];
  used_bytes = b.used_bytes +ℤ f.size;
}

-- A frame is kept at the end of the queue, or the buffer is as before.
stage-cases :
    (b : ReplayBuffer) (stream_id seq flags : ℕ) (payload : List ℕ)
    → let r = Replay.stage b stream_id seq flags payload in
      (r ≡ (
        pushed b (made b stream_id seq flags payload),
        ok (kept (made b stream_id seq flags payload)),
      ))
      ⊎ (r ≡ (b, ok (full payload)))
      ⊎ (r ≡ (b, err (frame_too_large (length payload))))
      ⊎ (r ≡ (b, err (invalid_message "replay frame seq already acknowledged")))
      ⊎ (r ≡ (b, err (invalid_message "replay frame seq must increase monotonically")))
unfolding Replay.stage
stage-cases b stream_id seq flags payload = ground arith

abbrev pub newest : List FrameRecord → List FrameRecord
newest q = elim (get_last? q) [ none ↦ [] | some f ↦ f ∷ [] ]

-- All frames ever kept, after a step of the writer from `w` to `w'`: the step that takes a sequence number
-- adds the frame that is last in the replay buffer.
abbrev pub grow : Writer → Writer → List FrameRecord → List FrameRecord
grow w w' h =
    if w'.next_send_seq == w.next_send_seq
    then h
    else h ++ newest w'.recovery_state.replay.replay_queue

newest-append : (q : List FrameRecord) (f : FrameRecord) → newest (q ++ f ∷ []) ≡ f ∷ []
newest-append [] f = refl
newest-append (x ∷ []) f = refl
newest-append (x ∷ y ∷ q) f = newest-append (y ∷ q) f

pub grow-same :
    (w w' : Writer) (h : List FrameRecord) → w'.next_send_seq ≡ w.next_send_seq → grow w w' h ≡ h
grow-same w w' h e = ground arith

pub grow-kept :
    (w w' : Writer) (h q : List FrameRecord) (f : FrameRecord)
    → w'.next_send_seq ≡ suc w.next_send_seq
    → w'.recovery_state.replay.replay_queue ≡ q ++ f ∷ []
    → grow w w' h ≡ h ++ f ∷ []
grow-kept w w' h q f e k = ground (arith, newest-append q f)

-- A frame numbered above the range adds nothing to it.
between-unchanged :
    (a m : ℕ) (h : List FrameRecord) (f : FrameRecord)
    → m < f.seq
    → between a m (h ++ f ∷ []) ≡ between a m h
between-unchanged a m h f lt =
    between-append a m h (f ∷ [])
    ∙ ap (◌++◌ (between a m h)) (ground arith)
    ∙ append-nil (between a m h)

-- The writer after it kept a frame.
abbrev pub kept_by : Writer → FrameRecord → Option ℕ → Writer
kept_by w f queued_tx = record w {
  recovery_state = record (w.recovery_state) { replay = pushed w.recovery_state.replay f };
  next_send_seq = w.next_send_seq + 1;
  replies = tell w.replies queued_tx (ok tt);
}

unstaged :
    {w : Writer} {held : Option OutboundFrame} {replies : List (ℕ × Result (Unit {0}))}
    → Same w (record w { held = held; replies = replies })
unstaged = record {
  next = refl;
  replay = refl;
  last_sent = refl;
  wire = refl;
  attached = refl;
  resume = refl;
}

pub stage_data-cases :
    (w : Writer) (stream_id flags : ℕ) (payload : List ℕ) (queued_tx : Option ℕ)
    → let f = made w.recovery_state.replay stream_id (w.next_send_seq + 1) flags payload in
      (stage_data w stream_id flags payload queued_tx ≡ (kept_by w f queued_tx, some f))
      ⊎ (((stage_data w stream_id flags payload queued_tx).1 ≡ none)
          × Same w (stage_data w stream_id flags payload queued_tx).0)
unfolding stage_data
stage_data-cases w stream_id flags payload queued_tx =
    let go = after_stage w stream_id flags queued_tx in
    elim (stage-cases w.recovery_state.replay stream_id (w.next_send_seq + 1) flags payload) [
      | inl e ↦ inl (ap go e)
      | inr (inl e) ↦ inr (rw e (refl, unstaged))
      | inr (inr (inl e)) ↦ inr (rw e (refl, unstaged))
      | inr (inr (inr (inl e))) ↦ inr (rw e (refl, unstaged))
      | inr (inr (inr (inr e))) ↦ inr (rw e (refl, unstaged))
    ]

module _ {lr : ℕ} {delivered : List WireFrame} {h : List FrameRecord} where
  -- The history with the new frame.
  pub kept-Base :
      (w : Writer) (stream_id flags : ℕ) (payload : List ℕ) (queued_tx : Option ℕ)
      → stream_id ≢ control_stream_id
      → Base w lr delivered h
      → let f = made w.recovery_state.replay stream_id (w.next_send_seq + 1) flags payload in
        Base
          (record w {
            recovery_state = record (w.recovery_state) {
              replay = pushed w.recovery_state.replay f;
            };
            next_send_seq = w.next_send_seq + 1;
            replies = tell w.replies queued_tx (ok tt);
          })
          lr
          delivered
          (h ++ f ∷ [])
  kept-Base w stream_id flags payload queued_tx is_data b =
      let f = made w.recovery_state.replay stream_id (w.next_send_seq + 1) flags payload in
      record {
        numbered = Numbered-append 0 h f b.numbered (omega (arith, b.count));
        count = omega (arith, length-append h (f ∷ []), b.count);
        queued =
            ap (λ (q : List FrameRecord). q ++ f ∷ [])
              (b.queued
                ∙ between-end 0 w.recovery_state.replay.last_acked w.next_send_seq
                    (w.next_send_seq + 1) h b.numbered (omega (arith, b.count))
                    (omega (arith, b.count)))
            ∙ ap (◌++◌ (between w.recovery_state.replay.last_acked (w.next_send_seq + 1) h))
                (ground (arith, b.acked, b.received, b.sent))
            ∙ sym (
                between-append w.recovery_state.replay.last_acked (w.next_send_seq + 1) h (f ∷ []));
        acked = b.acked;
        received = b.received;
        sent = omega (arith, b.sent);
        on_wire =
            b.on_wire
            ∙ ap (map wire_of)
                (sym (between-unchanged lr w.last_sent_seq h f (omega (arith, b.sent))));
        data_only =
            All-append (λ g. g.stream_id ≢ control_stream_id) h (f ∷ []) b.data_only (is_data, tt);
        got =
            b.got
            ∙ ap (map wire_of)
                (sym (between-unchanged 0 lr h f (omega (arith, b.received, b.sent))));
      }

-- Keeping a frame after the history, which nothing was left to send of, and writing it.
module _ {lr : ℕ} {delivered : List WireFrame} {h : List FrameRecord} where
  pub kept-write-Inv :
      (w : Writer) (stream_id flags : ℕ) (payload : List ℕ) (queued_tx : Option ℕ) (io_ok : Bool)
      → stream_id ≢ control_stream_id
      → Base w lr delivered h
      → w.resume ≡ []
      → w.last_sent_seq ≡ w.next_send_seq
      → let f = made w.recovery_state.replay stream_id (w.next_send_seq + 1) flags payload in
        Inv (write_staged (kept_by w f queued_tx, some f) io_ok) lr delivered (h ++ f ∷ [])
  kept-write-Inv w stream_id flags payload queued_tx io_ok is_data b done all =
      let f = made w.recovery_state.replay stream_id (w.next_send_seq + 1) flags payload in
      let b' = kept-Base w stream_id flags payload queued_tx is_data b in
      let empty : between w.last_sent_seq (suc w.last_sent_seq) h ≡ [] =
        between-end 0 w.last_sent_seq (suc w.last_sent_seq) w.last_sent_seq h b.numbered
          (omega (arith, b.count)) (omega (arith, b.count))
        ∙ between-empty w.last_sent_seq w.last_sent_seq h (omega arith) in
      rw (lt→ltb w.last_sent_seq (w.next_send_seq + 1) (omega arith)) (
        write_record-Inv (kept_by w f queued_tx) f io_ok b' (omega arith) (omega arith)
          (between-append w.last_sent_seq (suc w.last_sent_seq) h (f ∷ [])
            ∙ ap
                (λ (l : List FrameRecord).
                  l ++ between w.last_sent_seq (suc w.last_sent_seq) (f ∷ []))
                empty
            ∙ ground arith)
          is_data
          (done
            ∙ sym (
                between-empty (suc w.last_sent_seq) (w.next_send_seq + 1) (h ++ f ∷ [])
                  (omega arith))))
