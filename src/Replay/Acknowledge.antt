-- ===== src/Replay/Acknowledge.antt =====
-- What `ack` drops and keeps, and what `snapshot_from` selects.
use adaptivemsg_rust.Base.{
  ℕ, ◌+◌, ◌≤◌, ◌<◌, ◌≡◌, refl, ap, +ℤ_comm, List, [], ◌∷◌, ltb, leb, length, arith, ℤ, pos, ◌+ℤ◌,
  ◌-ℤ◌, ◌≤ℤ◌, int_laws, All, ◌⊎◌, inl, inr, Bool-cases, zero-+ℤ, +ℤ_assoc, pos_part, neg_part,
  +ℤ_parts, if◌then◌else◌,
}
use adaptivemsg_rust.Replay.{
  FrameRecord, ReplayBuffer, drop_acked, ack, frames_after, snapshot_from,
}
use adaptivemsg_rust.Replay.Invariant.{IsValid, Above, total}

-- What the loop of `ack` drops and leaves makes up the bytes of the queue.
drop_acked-total :
    (last_seq : ℕ) (queue : List FrameRecord) (dropped : ℤ)
    → total (drop_acked last_seq queue dropped).0 +ℤ (drop_acked last_seq queue dropped).1
      ≡ dropped +ℤ total queue
unfolding drop_acked
drop_acked-total last_seq [] dropped = +ℤ_comm (pos 0) dropped
drop_acked-total last_seq (front ∷ queue) dropped = ground (
  arith,
  drop_acked-total last_seq queue (dropped +ℤ front.size),
  +ℤ_assoc dropped front.size (total queue),
  +ℤ_comm dropped (total (front ∷ queue)),
)

drop_acked-frames_after :
    (last_seq : ℕ) (queue : List FrameRecord) (dropped : ℤ)
    → (drop_acked last_seq queue dropped).0 ≡ frames_after last_seq queue
unfolding drop_acked frames_after
drop_acked-frames_after last_seq [] dropped = refl
drop_acked-frames_after last_seq (front ∷ queue) dropped =
    ground (arith, drop_acked-frames_after last_seq queue (dropped +ℤ front.size))

-- What an acknowledgement leaves of the queue, whatever the buffer's byte count.
pub ack-queue :
    (b : ReplayBuffer) (last_seq : ℕ)
    → ((ack b last_seq).0 ≡ b) × (last_seq ≤ b.last_acked)
      ⊎ (b.last_acked < last_seq)
        × ((ack b last_seq).0.last_acked ≡ last_seq)
        × ((ack b last_seq).0.replay_queue ≡ frames_after last_seq b.replay_queue)
unfolding ack
ack-queue b last_seq = ground (arith, drop_acked-frames_after last_seq b.replay_queue (pos 0))

Above-mono : {m n : ℕ} (queue : List FrameRecord) → m ≤ n → Above n queue → Above m queue
Above-mono [] h a = tt
Above-mono (f ∷ queue) h a = (omega arith, a.1)

pub frames_after-Above :
    (last_seq n : ℕ) (queue : List FrameRecord)
    → Above n queue
    → Above last_seq (frames_after last_seq queue)
unfolding frames_after
frames_after-Above last_seq n [] h = tt
frames_after-Above last_seq n (f ∷ queue) h =
    ground (arith, frames_after-Above last_seq f.seq queue h.1)

frames_after-All {κ} :
    (P : FrameRecord → Type κ) (last_seq : ℕ) (queue : List FrameRecord)
    → All P queue
    → All P (frames_after last_seq queue)
unfolding frames_after
frames_after-All P last_seq [] h = tt
frames_after-All P last_seq (f ∷ queue) h = elim (Bool-cases (leb f.seq last_seq)) [
  | inl e ↦ rw e (frames_after-All P last_seq queue h.1)
  | inr e ↦ rw e h
]

difference : (u x d : ℤ) → x +ℤ d ≡ u → (u -ℤ d ≡ x) × (d ≡ u -ℤ x)
difference u x d h = (rw (← h) (omega int_laws), rw (← h) (omega int_laws))

total-frames_after_le :
    (n last_seq : ℕ) (queue : List FrameRecord)
    → All (λ f. f.size ≡ pos (n + length f.payload)) queue
    → total (frames_after last_seq queue) ≤ℤ total queue
unfolding frames_after
total-frames_after_le n last_seq [] h = omega arith
total-frames_after_le n last_seq (f ∷ queue) h = elim (Bool-cases (leb f.seq last_seq)) [
  | inl e ↦ rw e (
      rw (h.0) (
        omega (
          int_laws,
          +ℤ_parts (pos (n + length f.payload)) (total queue),
          total-frames_after_le n last_seq queue h.1,
        )))
  | inr e ↦ rw e (omega arith)
]

-- An acknowledgement beyond the last one leaves the frames after it, counts their bytes, and returns
-- the bytes freed; any other changes nothing and returns 0.
pub ack_lem :
    (b : ReplayBuffer) (last_seq : ℕ)
    → IsValid b
    → ack b last_seq ≡ (
        if leb last_seq b.last_acked then (b, pos 0) else (
          record b {
            last_acked = last_seq;
            replay_queue = frames_after last_seq b.replay_queue;
            used_bytes = total (frames_after last_seq b.replay_queue);
          },
          b.used_bytes -ℤ total (frames_after last_seq b.replay_queue),
        ))
unfolding ack
ack_lem b last_seq v = ground (
  arith,
  drop_acked-frames_after last_seq b.replay_queue (pos 0),
  drop_acked-total last_seq b.replay_queue (pos 0),
  zero-+ℤ (total b.replay_queue),
  difference b.used_bytes (total (drop_acked last_seq b.replay_queue (pos 0)).0)
      (drop_acked last_seq b.replay_queue (pos 0)).1,
)

acked-IsValid :
    (b : ReplayBuffer) (last_seq : ℕ)
    → IsValid b
    → IsValid (record b {
      last_acked = last_seq;
      replay_queue = frames_after last_seq b.replay_queue;
      used_bytes = total (frames_after last_seq b.replay_queue);
    })
acked-IsValid b last_seq v = record {
  rising = frames_after-Above last_seq b.last_acked b.replay_queue v.rising;
  sized = frames_after-All _ last_seq b.replay_queue v.sized;
  counted = refl;
  bounded = λ h. omega (
    arith,
    total-frames_after_le b.header_len last_seq b.replay_queue v.sized,
    v.bounded h,
    ap pos_part v.counted,
    ap neg_part v.counted,
  );
}

-- `ack` keeps the buffer well formed: numbers rise above the acknowledged one, the byte count is that
-- of the frames left, and it stays within the limit if there is one.
pub ack-IsValid : (b : ReplayBuffer) (last_seq : ℕ) → IsValid b → IsValid (ack b last_seq).0
ack-IsValid b last_seq v = rw (ack_lem b last_seq v) (ground (arith, acked-IsValid b last_seq v))

frames_after-none :
    (n last_seq : ℕ) (queue : List FrameRecord)
    → last_seq ≤ n
    → Above n queue
    → frames_after last_seq queue ≡ queue
unfolding frames_after
frames_after-none n last_seq [] h a = refl
frames_after-none n last_seq (f ∷ queue) h a = ground arith

-- The frames of a queue after a sequence number, whatever the queue's order.
abbrev pub selected : ℕ → List FrameRecord → List FrameRecord
selected last_seq [] = []
selected last_seq (f ∷ queue) =
    if ltb last_seq f.seq then f ∷ selected last_seq queue else selected last_seq queue

selected-all :
    (n last_seq : ℕ) (queue : List FrameRecord)
    → last_seq ≤ n
    → Above n queue
    → selected last_seq queue ≡ queue
selected-all n last_seq [] h a = refl
selected-all n last_seq (f ∷ queue) h a =
    ground (arith, selected-all f.seq last_seq queue (omega arith) a.1)

frames_after-selected :
    (n last_seq : ℕ) (queue : List FrameRecord)
    → Above n queue
    → frames_after last_seq queue ≡ selected last_seq queue
unfolding frames_after
frames_after-selected n last_seq [] a = refl
frames_after-selected n last_seq (f ∷ queue) a =
    ground
      (arith, frames_after-selected f.seq last_seq queue a.1, selected-all f.seq last_seq queue)

-- On a well-formed buffer the binary search of `snapshot_from` finds exactly the kept frames with
-- a sequence number above `last_seq`, in order.
pub snapshot_from-selected :
    (b : ReplayBuffer) (last_seq : ℕ)
    → IsValid b
    → snapshot_from b last_seq ≡ selected last_seq b.replay_queue
unfolding snapshot_from
snapshot_from-selected b last_seq v =
    frames_after-selected b.last_acked last_seq b.replay_queue v.rising
