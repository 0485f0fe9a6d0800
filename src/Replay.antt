-- ===== src/Replay.antt =====
-- src/replay.rs: the frames kept until the peer acknowledges them.
pub mod Invariant
pub mod Acknowledge
use adaptivemsg_rust.Base.{
  ℕ, ◌+◌, ◌≤◌, List, [], ◌∷◌, ◌++◌, Bool, true, false, ltb, leb, ◌==◌, ◌&&◌, if◌then◌else◌, length,
  Option, some, none, get_last?, ℤ, pos, ◌+ℤ◌, ◌-ℤ◌, ltb_ℤ,
}
use adaptivemsg_rust.Error.{Error, Result, ok, err, panicked, frame_too_large, invalid_message}
use adaptivemsg_rust.Frame.{frame_header_len_for_version, frame_header_len_v3}

pub record FrameRecord : Type 0 where
  pub stream_id : ℕ
  pub seq : ℕ
  pub flags : ℕ
  pub payload : List ℕ
  pub size : ℤ

-- What `stage` did with a frame; `full` hands the payload back.
pub data Staged : Type 0 where
  kept : FrameRecord → Staged
  full : List ℕ → Staged

-- `used_bytes` and `replay_queue` are the fields behind the source's lock.
pub record ReplayBuffer : Type 0 where
  pub header_len : ℕ
  pub max_bytes : ℤ
  pub last_acked : ℕ
  pub used_bytes : ℤ
  pub replay_queue : List FrameRecord

abbrev pub unwrap_or {ℓ} : {A : Type ℓ} → Result A → A → A
unwrap_or (ok a) d = a
unwrap_or (err e) d = d
unwrap_or panicked d = d

unfoldable pub new : ℕ → ℤ → ReplayBuffer
unfolding frame_header_len_for_version
new version max_bytes = record {
  header_len = unwrap_or (frame_header_len_for_version version) frame_header_len_v3;
  max_bytes = max_bytes;
  last_acked = 0;
  used_bytes = pos 0;
  replay_queue = [];
}

-- `back().is_some_and(|last| seq <= last.seq)`
abbrev pub not_after_last : ℕ → List FrameRecord → Bool
not_after_last seq queue = elim (get_last? queue) [ none ↦ false | some last ↦ leb seq last.seq ]

-- The buffer afterwards, and the result.
unfoldable pub stage : ReplayBuffer → ℕ → ℕ → ℕ → List ℕ → ReplayBuffer × Result Staged
stage b stream_id seq flags payload =
    let size : ℤ = pos (b.header_len + length payload) in
    if ltb_ℤ (pos 0) b.max_bytes && ltb_ℤ b.max_bytes (b.used_bytes +ℤ size)
    then (if ltb_ℤ b.max_bytes size
        then (b, err (frame_too_large (length payload)))
        else (b, ok (full payload)))
    else if leb seq b.last_acked
    then (b, err (invalid_message "replay frame seq already acknowledged"))
    else if not_after_last seq b.replay_queue
    then (b, err (invalid_message "replay frame seq must increase monotonically"))
    else (let frame : FrameRecord = record {
      stream_id = stream_id;
      seq = seq;
      flags = flags;
      payload = payload;
      size = size;
    } in
        (
          record b {
            replay_queue = b.replay_queue ++ frame ∷ [];
            used_bytes = b.used_bytes +ℤ size;
          },
          ok (kept frame),
        ))

-- The loop of `ack`: what is left of the queue, and the bytes dropped.
unfoldable pub drop_acked : ℕ → List FrameRecord → ℤ → List FrameRecord × ℤ
drop_acked last_seq [] dropped = ([], dropped)
drop_acked last_seq (front ∷ queue) dropped =
    let rest = drop_acked last_seq queue (dropped +ℤ front.size) in
    if ltb last_seq front.seq then (front ∷ queue, dropped) else rest

unfoldable pub ack : ReplayBuffer → ℕ → ReplayBuffer × ℤ
ack b last_seq =
    if last_seq == 0
    then (b, pos 0)
    else if leb last_seq b.last_acked
    then (b, pos 0)
    else (let (queue, dropped) = drop_acked last_seq b.replay_queue (pos 0) in
        (
          record b {
            last_acked = last_seq;
            replay_queue = queue;
            used_bytes = b.used_bytes -ℤ dropped;
          },
          dropped,
        ))

-- `partition_point` on a queue in the order of sequence numbers: the frames up to `last_seq`
-- are skipped.
unfoldable pub frames_after : ℕ → List FrameRecord → List FrameRecord
frames_after last_seq [] = []
frames_after last_seq (frame ∷ queue) =
    let rest = frames_after last_seq queue in if leb frame.seq last_seq then rest else frame ∷ queue

unfoldable pub snapshot_from : ReplayBuffer → ℕ → List FrameRecord
unfolding frames_after
snapshot_from b last_seq = frames_after last_seq b.replay_queue

pub last_acked_seq : ReplayBuffer → ℕ
last_acked_seq b = b.last_acked

pub queued_count : ReplayBuffer → ℕ
queued_count b = length b.replay_queue
