-- ===== src/Debug/Counted.antt =====
-- src/debug.rs: what the counters and the last failure say after any run of notes.
use adaptivemsg_rust.Base.{
  ℕ, ◌+◌, ◌%◌, ◌^◌, ◌≡◌, refl, String, List, [], ◌∷◌, Option, some, none, true, ◌&&◌, ◌==◌,
  if◌then◌else◌, length, is_empty_text, arith,
}
use adaptivemsg_rust.RecoveryProtocol.{control_stream_id}
use adaptivemsg_rust.Debug.{
  ConnectionDebugCounters, new_connection_counters, FrameCounters, note_frame, FailureTracker,
  note_last, last_noted, note_frame_written, note_frame_read, note_failure, snapshot,
}

-- A call on the counters of a connection: a frame by its stream and its length with the header, or a failure
-- by its code, its reason and the time.
pub data Note : Type 0 where
  written : ℕ → ℕ → Note
  read : ℕ → ℕ → Note
  failed : String → String → ℕ → Note

-- The newest note stands first.
abbrev pub noted : List Note → ConnectionDebugCounters
noted [] = new_connection_counters
noted (written stream_id n ∷ older) = note_frame_written (noted older) stream_id n
noted (read stream_id n ∷ older) = note_frame_read (noted older) stream_id n
noted (failed code reason now ∷ older) = note_failure (noted older) code reason now

-- The frames of one direction.
abbrev pub written_frames : List Note → List (ℕ × ℕ)
written_frames [] = []
written_frames (written stream_id n ∷ older) = (stream_id, n) ∷ written_frames older
written_frames (read stream_id n ∷ older) = written_frames older
written_frames (failed code reason now ∷ older) = written_frames older

abbrev pub read_frames : List Note → List (ℕ × ℕ)
read_frames [] = []
read_frames (written stream_id n ∷ older) = read_frames older
read_frames (read stream_id n ∷ older) = (stream_id, n) ∷ read_frames older
read_frames (failed code reason now ∷ older) = read_frames older

abbrev pub total : List (ℕ × ℕ) → ℕ
total [] = 0
total ((stream_id, n) ∷ older) = n + total older

abbrev pub control_count : List (ℕ × ℕ) → ℕ
control_count [] = 0
control_count ((stream_id, n) ∷ older) =
    (if stream_id == control_stream_id then 1 else 0) + control_count older

-- The code of the newest failure that has one, and the newest reason and time that were noted.
abbrev pub newest_code : List Note → String
newest_code [] = ""
newest_code (written stream_id n ∷ older) = newest_code older
newest_code (read stream_id n ∷ older) = newest_code older
newest_code (failed code reason now ∷ older) =
    if is_empty_text code then newest_code older else code

abbrev pub newest_failure : List Note → String × Option ℕ
newest_failure [] = ("", none)
newest_failure (written stream_id n ∷ older) = newest_failure older
newest_failure (read stream_id n ∷ older) = newest_failure older
newest_failure (failed code reason now ∷ older) =
    if is_empty_text code && is_empty_text reason then newest_failure older else (reason, some now)

-- The counters of one direction, after notes on fresh counters.
pub record IsCount (c : FrameCounters) (l : List (ℕ × ℕ)) : Type 0 where
  pub frames : c.frames ≡ length l % 2 ^ 64
  pub bytes : c.bytes ≡ total l % 2 ^ 64
  pub control_frames : c.control_frames ≡ control_count l % 2 ^ 64

no_frames-IsCount : IsCount (new_connection_counters.written) []
no_frames-IsCount = record { frames = refl; bytes = refl; control_frames = refl }

note_frame-IsCount :
    (c : FrameCounters) (l : List (ℕ × ℕ)) (stream_id n : ℕ)
    → IsCount c l
    → IsCount (note_frame c stream_id n) ((stream_id, n) ∷ l)
unfolding note_frame
note_frame-IsCount c l stream_id n v = record {
  frames = omega (arith, v.frames);
  bytes = omega (arith, v.bytes);
  control_frames = ground (arith, v.control_frames);
}

written-IsCount : (l : List Note) → IsCount (noted l).written (written_frames l)
unfolding note_frame_written note_frame_read note_failure
written-IsCount [] = no_frames-IsCount
written-IsCount (written stream_id n ∷ older) =
    note_frame-IsCount (noted older).written (written_frames older) stream_id n
      (written-IsCount older)
written-IsCount (read stream_id n ∷ older) = written-IsCount older
written-IsCount (failed code reason now ∷ older) = written-IsCount older

read-IsCount : (l : List Note) → IsCount (noted l).read (read_frames l)
unfolding note_frame_written note_frame_read note_failure
read-IsCount [] = no_frames-IsCount
read-IsCount (written stream_id n ∷ older) = read-IsCount older
read-IsCount (read stream_id n ∷ older) =
    note_frame-IsCount (noted older).read (read_frames older) stream_id n (read-IsCount older)
read-IsCount (failed code reason now ∷ older) = read-IsCount older

pub empty_text : (s : String) → is_empty_text s ≡ true → s ≡ ""
empty_text String.[] e = refl
empty_text (String.◌∷◌ c s) e = cc

note_last_lem :
    (last : FailureTracker) (code reason : String) (now : ℕ)
    → last_noted (note_last last code reason now) ≡ (
      if is_empty_text code then (last_noted last).0 else code,
      if is_empty_text code && is_empty_text reason then (last_noted last).1 else reason,
      if is_empty_text code && is_empty_text reason then (last_noted last).2 else some now,
    )
unfolding note_last last_noted
note_last_lem none code reason now = ground (arith, empty_text code)
note_last_lem (some r) code reason now = ground arith

failure_lem :
    (l : List Note)
    → last_noted (noted l).failure ≡ (newest_code l, (newest_failure l).0, (newest_failure l).1)
unfolding note_frame_written note_frame_read note_failure last_noted
failure_lem [] = refl
failure_lem (written stream_id n ∷ older) = failure_lem older
failure_lem (read stream_id n ∷ older) = failure_lem older
failure_lem (failed code reason now ∷ older) =
    ground (arith, note_last_lem (noted older).failure code reason now, failure_lem older)

-- After any run of notes on fresh counters, the snapshot counts the frames, bytes and control frames of each
-- direction, up to wrap-around at 64 bits, and the last failure is the newest one with a code or a reason,
-- shown with the code of the newest failure that has one.
pub snapshot-counts :
    (l : List Note)
    → let s = snapshot (noted l) in
      (s.frames_written ≡ length (written_frames l) % 2 ^ 64)
      × (s.bytes_written ≡ total (written_frames l) % 2 ^ 64)
      × (s.control_frames_written ≡ control_count (written_frames l) % 2 ^ 64)
      × (s.frames_read ≡ length (read_frames l) % 2 ^ 64)
      × (s.bytes_read ≡ total (read_frames l) % 2 ^ 64)
      × (s.control_frames_read ≡ control_count (read_frames l) % 2 ^ 64)
      × (last_noted (noted l).failure ≡ (newest_code l, (newest_failure l).0, (newest_failure l).1))
unfolding snapshot
snapshot-counts l =
    let w = written-IsCount l in
    let r = read-IsCount l in
    (w.frames, w.bytes, w.control_frames, r.frames, r.bytes, r.control_frames, failure_lem l)
