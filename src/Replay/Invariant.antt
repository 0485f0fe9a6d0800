-- ===== src/Replay/Invariant.antt =====
-- The well-formed replay buffer: what `new`, `stage` and `ack` keep.
use adaptivemsg_rust.Base.{
  ℕ, ◌+◌, ◌<◌, ◌≡◌, refl, sym, ◌∙◌, ap, All-append, List, [], ◌∷◌, ◌++◌, false, length, arith, ℤ,
  pos, ◌+ℤ◌, ◌≤ℤ◌, All, zero-+ℤ, +ℤ-zero, +ℤ_assoc,
}
use adaptivemsg_rust.Replay.{FrameRecord, ReplayBuffer, new, stage, not_after_last}

-- The bytes that the frames of a queue take.
abbrev pub total : List FrameRecord → ℤ
total [] = pos 0
total (f ∷ fs) = f.size +ℤ total fs

-- Sequence numbers rise along the queue and start above `n`.
abbrev pub Above : ℕ → List FrameRecord → Type 0
Above n [] = Unit {0}
Above n (f ∷ fs) = (n < f.seq) × Above f.seq fs

pub record IsValid (b : ReplayBuffer) : Type 0 where
  pub rising : Above b.last_acked b.replay_queue
  pub sized : All (λ f. f.size ≡ pos (b.header_len + length f.payload)) b.replay_queue
  pub counted : b.used_bytes ≡ total b.replay_queue
  pub bounded : pos 1 ≤ℤ b.max_bytes → b.used_bytes ≤ℤ b.max_bytes

pub new-IsValid : (version : ℕ) (max_bytes : ℤ) → IsValid (new version max_bytes)
unfolding new
new-IsValid version max_bytes = record {
  rising = tt;
  sized = tt;
  counted = refl;
  bounded = λ h. omega arith;
}

total-append : (xs ys : List FrameRecord) → total (xs ++ ys) ≡ total xs +ℤ total ys
total-append [] ys = sym (zero-+ℤ (total ys))
total-append (x ∷ xs) ys = rw (total-append xs ys, +ℤ_assoc x.size (total xs) (total ys))

-- Every frame of a rising queue lies before a number that may follow the last one.
below_last :
    (x : FrameRecord) (xs : List FrameRecord) (seq : ℕ)
    → Above x.seq xs
    → not_after_last seq (x ∷ xs) ≡ false
    → x.seq < seq
below_last x [] seq h e = ground arith
below_last x (y ∷ xs) seq h e = omega (arith, below_last y xs seq h.1 e, h.0)

Above-append :
    (n : ℕ) (xs : List FrameRecord) (f : FrameRecord)
    → Above n xs
    → n < f.seq
    → not_after_last f.seq xs ≡ false
    → Above n (xs ++ f ∷ [])
Above-append n [] f h lt e = (lt, tt)
Above-append n (x ∷ []) f h lt e = (h.0, (below_last x [] f.seq h.1 e, tt))
Above-append n (x ∷ y ∷ xs) f h lt e =
    (h.0, Above-append x.seq (y ∷ xs) f h.1 (below_last x (y ∷ xs) f.seq h.1 e) e)

-- The buffer with one more frame.
abbrev push : ReplayBuffer → FrameRecord → ReplayBuffer
push b f = record b { replay_queue = b.replay_queue ++ f ∷ []; used_bytes = b.used_bytes +ℤ f.size }

push-IsValid :
    (b : ReplayBuffer) (f : FrameRecord)
    → IsValid b
    → f.size ≡ pos (b.header_len + length f.payload)
    → (pos 1 ≤ℤ b.max_bytes → b.used_bytes +ℤ f.size ≤ℤ b.max_bytes)
    → b.last_acked < f.seq
    → not_after_last f.seq b.replay_queue ≡ false
    → IsValid (push b f)
push-IsValid b f v size fits fresh after = record {
  rising = Above-append b.last_acked b.replay_queue f v.rising fresh after;
  sized =
      All-append (λ g. g.size ≡ pos (b.header_len + length g.payload)) b.replay_queue (f ∷ [])
        v.sized (size, tt);
  counted =
      ap (λ u. u +ℤ f.size) v.counted
      ∙ sym (
          total-append b.replay_queue (f ∷ []) ∙ ap (◌+ℤ◌ (total b.replay_queue)) (+ℤ-zero f.size));
  bounded = fits;
}

-- `stage` keeps the buffer well formed, on each of its branches: numbers rise above the acknowledged
-- one, the byte count is that of the frames kept, and it stays within the limit if there is one.
pub stage-IsValid :
    (b : ReplayBuffer) (stream_id seq flags : ℕ) (payload : List ℕ)
    → IsValid b
    → IsValid (stage b stream_id seq flags payload).0
unfolding stage
stage-IsValid b stream_id seq flags payload v = ground (
  arith,
  push-IsValid b (record {
    stream_id = stream_id;
    seq = seq;
    flags = flags;
    payload = payload;
    size = pos (b.header_len + length payload);
  }),
)
