-- ===== src/Plain.antt =====
-- src/connection.rs: the writer task and the reader task of a connection without recovery
-- (spawn_plain_writer, spawn_plain_reader), and the read and write of a frame.
--
-- The transport is the interface of Streaming with tokio's `read`, which may return fewer bytes than it is
-- asked for, and none at the end. The connection's configuration is `version`, `header_len` and `max_frame`;
-- its streams are those of Connection. The clock is left out: a failure is noted at time 0.
pub mod Reader
pub mod Writer
pub mod Reading
pub mod Frames
pub mod Delivery
use adaptivemsg_rust.Base.{
  ℕ, zero, suc, ◌+◌, ◌-◌, ◌%◌, ◌^◌, List, [], ◌∷◌, ◌++◌, Option, some, none, Bool, true, false, ltb,
  leb, ◌==◌, if◌then◌else◌, length, take,
}
use adaptivemsg_rust.Error.{Error, Result, ok, err, panicked, io, unexpected_eof, frame_too_large}
use adaptivemsg_rust.Frame.{build_header, parse_header, Header}
use adaptivemsg_rust.Streaming.{Io, Task, ◌>>=◌, ◌>>◌, lift}
use adaptivemsg_rust.Debug.{ConnectionDebugCounters, note_frame_written}

pub record ConnConfig : Type 0 where
  pub version : ℕ
  pub header_len : ℕ
  pub max_frame : ℕ

-- An `InboundFrame`: the stream, the sequence number, the flags and the payload.
abbrev pub InboundFrame : Type 0
InboundFrame = ℕ × ℕ × ℕ × List ℕ

-- The header, once its last bytes are read.
abbrev pub parsed : ConnConfig → List ℕ → Result (List ℕ) → Result Header
parsed config first (ok rest) = parse_header (first ++ rest) config.version
parsed config first (err e) = err e
parsed config first panicked = panicked

module _ (io : Io) (read : ℕ → io.Reader → Result (List ℕ) × io.Reader) where
  -- The loop of `read_frame` that fills the payload, on `fuel`: `none` is out of fuel. `read_buf` on
  -- `take(remaining)` is a `read` of at most `remaining` bytes.
  unfoldable pub read_payload : ℕ → ℕ → List ℕ → io.Reader → Option (Result (List ℕ) × io.Reader)
  read_payload zero payload_len payload r =
      if ltb (length payload) payload_len then none else some (ok payload, r)
  read_payload (suc fuel) payload_len payload r = elim (ltb (length payload) payload_len) [
    | false ↦ some (ok payload, r)
    | true ↦ elim (read (payload_len - length payload) r).0 [
      | err e ↦ some (err e, (read (payload_len - length payload) r).1)
      | panicked ↦ some (panicked, (read (payload_len - length payload) r).1)
      | ok [] ↦ some (err (Error.io unexpected_eof), (read (payload_len - length payload) r).1)
      | ok (b ∷ bs) ↦
          read_payload fuel payload_len (payload ++ b ∷ bs)
            (read (payload_len - length payload) r).1
    ]
  ]

  abbrev framed :
      Header
      → Option (Result (List ℕ) × io.Reader)
      → Option (Result (Option InboundFrame) × io.Reader)
  framed h none = none
  framed h (some (ok payload, r)) = some (ok (some (h.stream_id, h.seq, h.flags, payload)), r)
  framed h (some (err e, r)) = some (err e, r)
  framed h (some (panicked, r)) = some (panicked, r)

  -- The parts of `read_frame` behind the header, behind its first bytes, and all of it. `none` is out of fuel.
  abbrev pub after_header :
      ConnConfig → Result Header × io.Reader → Option (Result (Option InboundFrame) × io.Reader)
  after_header config (err e, r) = some (err e, r)
  after_header config (panicked, r) = some (panicked, r)
  after_header config (ok h, r) =
      if ltb config.max_frame (h.payload_len % 2 ^ 32)
      then some (err (frame_too_large h.payload_len), r)
      else framed h (read_payload h.payload_len h.payload_len [] r)

  abbrev pub after_first :
      ConnConfig → Result (List ℕ) × io.Reader → Option (Result (Option InboundFrame) × io.Reader)
  after_first config (err e, r) = some (err e, r)
  after_first config (panicked, r) = some (panicked, r)
  after_first config (ok [], r) = some (ok none, r)
  after_first config (ok (b ∷ bs), r) =
      let (rest, r') = io.read_exact (config.header_len - length (b ∷ bs)) r in
      after_header config (parsed config (b ∷ bs) rest, r')

  unfoldable pub read_frame :
      ConnConfig → io.Reader → Option (Result (Option InboundFrame) × io.Reader)
  read_frame config r = after_first config (read config.header_len r)

module _ (io : Io) where
  -- A transport and the counters of its connection.
  abbrev pub Counted : Type 0
  Counted = io.Writer × ConnectionDebugCounters

  abbrev write_all : List ℕ → Task Counted (Unit {0})
  write_all bs (w, d) = ((io.write_all bs w).0, ((io.write_all bs w).1, d))

  abbrev count_written : ℕ → ℕ → Task Counted (Unit {0})
  count_written stream_id n (w, d) = (ok tt, (w, note_frame_written d stream_id n))

  unfoldable pub write_frame_counted : ConnConfig → ℕ → ℕ → ℕ → List ℕ → Task Counted (Unit {0})
  write_frame_counted config stream_id seq flags payload = do
    header ←
        lift (build_header config.version stream_id seq flags (length payload) config.max_frame)
    write_all (take config.header_len header)
    write_all payload
    count_written stream_id (config.header_len + length payload)
