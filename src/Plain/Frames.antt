-- ===== src/Plain/Frames.antt =====
-- src/connection.rs: a frame that write_frame_counted writes is the next one that read_frame reads.
use adaptivemsg_rust.Base.{
  ℕ, ◌+◌, ◌-◌, ◌^◌, ◌%◌, ◌≡◌, ◌≤◌, ◌<◌, refl, ap, sym, ◌∙◌, List, [], ◌∷◌, ◌++◌, append_assoc, some,
  none, length, take, arith, bit_and, length-append, length-take, le→ltb,
}
use adaptivemsg_rust.Base.Bytes.{IsU32}
use adaptivemsg_rust.Error.{Result, ok, err, panicked}
use adaptivemsg_rust.Frame.{
  build_header, parse_header, frame_header_len_for_version, unsupported_frame_flags,
}
use adaptivemsg_rust.Frame.RoundTrip.{header_bytes, parse_header-build_header}
use adaptivemsg_rust.Streaming.{Io, IsWorking}
use adaptivemsg_rust.Debug.{ConnectionDebugCounters, note_frame_written}
use adaptivemsg_rust.Plain.{ConnConfig, read_frame, after_header, write_frame_counted}
use adaptivemsg_rust.Plain.Reading.{IsReading, first_read, read_payload-fills}

-- A frame without its sequence number: the stream, the flags and the payload.
abbrev pub Message : Type 0
Message = ℕ × ℕ × List ℕ

-- The bytes of a frame on the wire.
abbrev pub encode : ConnConfig → Message → List ℕ
encode config (stream_id, flags, payload) =
    elim (build_header config.version stream_id 0 flags (length payload) config.max_frame) [
      | ok h ↦ take config.header_len h ++ payload
      | err e ↦ []
      | panicked ↦ []
    ]

-- The header length is that of the version, and the frame limit a 32-bit number.
pub record IsConfig (config : ConnConfig) : Type 0 where
  pub header_len : frame_header_len_for_version config.version ≡ ok config.header_len
  pub max_frame : IsU32 config.max_frame

-- Its fields fit in the header, and its payload within the limit.
abbrev pub IsSendable : ConnConfig → Message → Type 0
IsSendable config (stream_id, flags, payload) =
    IsU32 stream_id
    × (bit_and flags unsupported_frame_flags ≡ 0)
    × (length payload ≤ config.max_frame)

header_len-bounds :
    (config : ConnConfig) → IsConfig config → (0 < config.header_len) × (config.header_len ≤ 18)
unfolding frame_header_len_for_version
header_len-bounds config c = ground (arith, c.header_len)

sendable-header :
    (config : ConnConfig) (stream_id flags : ℕ) (payload : List ℕ)
    → IsConfig config
    → length payload ≤ config.max_frame
    → (h : List ℕ) × (build_header config.version stream_id 0 flags
          (length payload)
          config.max_frame
        ≡ ok h)
      × (length h ≡ 18)
unfolding build_header
sendable-header config stream_id flags payload c le = (
  header_bytes config.version stream_id 0 flags (length payload),
  ground (arith, c.max_frame),
  ground arith,
)

no_more : (bs l : List ℕ) → bs ++ l ≡ [] → bs ≡ []
no_more [] l e = refl
no_more (b ∷ bs) l e = cc

encoded :
    (config : ConnConfig) (stream_id flags : ℕ) (payload later h : List ℕ) {bs : List ℕ}
    → build_header config.version stream_id 0 flags (length payload) config.max_frame ≡ ok h
    → bs ≡ encode config (stream_id, flags, payload) ++ later
    → bs ≡ take config.header_len h ++ (payload ++ later)
encoded config stream_id flags payload later h k e =
    e ∙ rw (encode, k) (append_assoc (take config.header_len h) payload later)

header-of_parsed :
    (config : ConnConfig) (stream_id flags : ℕ) (payload h : List ℕ)
    → IsConfig config
    → IsSendable config (stream_id, flags, payload)
    → build_header config.version stream_id 0 flags (length payload) config.max_frame ≡ ok h
    → parse_header (take config.header_len h) config.version
      ≡ ok (record { stream_id = stream_id; seq = 0; flags = flags; payload_len = length payload })
header-of_parsed config stream_id flags payload h c s e =
    parse_header-build_header config.version stream_id 0 flags (length payload) config.max_frame
      config.header_len h s.0 (omega arith) s.1 c.header_len e
    ∙ ground arith

module _ (io : Io) (p : IsWorking io) where
  -- The write succeeds, appends the frame's bytes and counts them.
  pub write_frame_counted-writes :
      (config : ConnConfig) (stream_id flags : ℕ) (payload : List ℕ) (w : io.Writer)
      (d : ConnectionDebugCounters)
      → IsConfig config
      → IsSendable config (stream_id, flags, payload)
      → (w' : io.Writer) × (write_frame_counted io config stream_id 0 flags payload (w, d)
          ≡ (ok tt, (w', note_frame_written d stream_id (config.header_len + length payload))))
        × (p.written w' ≡ p.written w ++ encode config (stream_id, flags, payload))
  unfolding write_frame_counted
  write_frame_counted-writes config stream_id flags payload w d c s =
      let (h, e, _) = sendable-header config stream_id flags payload c s.2 in
      let (a, b) = p.write_all_lem w (take config.header_len h) in
      let w1 = (io.write_all (take config.header_len h) w).1 in
      let (a', b') = p.write_all_lem w1 payload in
      (
        (io.write_all payload w1).1,
        ground (arith, e, a, a'),
        rw (encode, e)
            (b'
              ∙ ap (λ l. l ++ payload) b
              ∙ append_assoc (p.written w) (take config.header_len h) payload),
      )

module _ (io : Io) (p : IsWorking io) (read : ℕ → io.Reader → Result (List ℕ) × io.Reader)
    (v : IsReading io p read) where
  after_header-reads :
      (config : ConnConfig) (stream_id flags : ℕ) (payload later : List ℕ) (r : io.Reader)
      → IsConfig config
      → IsSendable config (stream_id, flags, payload)
      → p.pending r ≡ payload ++ later
      → (r' : io.Reader) × (after_header io read config (
        ok (record { stream_id = stream_id; seq = 0; flags = flags; payload_len = length payload }),
        r,
      )
          ≡ some (ok (some (stream_id, 0, flags, payload)), r'))
        × (p.pending r' ≡ later)
  after_header-reads config stream_id flags payload later r c s e =
      let (r', h, q) =
        read_payload-fills p v (length payload) (length payload) [] payload later r (omega arith)
          (omega arith) e in
      (r', rw (le→ltb config.max_frame (length payload % 2 ^ 32) (omega (arith, s.2)), h) refl, q)

  read_frame-header :
      (config : ConnConfig) (header rest : List ℕ) (r : io.Reader)
      → 0 < config.header_len
      → length header ≡ config.header_len
      → p.pending r ≡ header ++ rest
      → (r' : io.Reader) × (read_frame io read config r
          ≡ after_header io read config (parse_header header config.version, r'))
        × (p.pending r' ≡ rest)
  unfolding read_frame
  read_frame-header config header rest r pos len e =
      let hl = config.header_len in
      let (b, bs, more, f, g, q) = first_read p v hl header rest r (omega arith) len e in
      let r1 = (read hl r).1 in
      let left : hl - length (b ∷ bs) ≡ length more =
        omega (arith, ap length g, length-append (b ∷ bs) more, len) in
      let (u, w) = p.read_exact_lem r1 more rest q in
      ((io.read_exact (length more) r1).1, rw (f, left, u, g) refl, w)

  -- What is on the way begins with the frame's bytes: the frame is read, and nothing behind it.
  pub read_frame-reads :
      (config : ConnConfig) (stream_id flags : ℕ) (payload later : List ℕ) (r : io.Reader)
      → IsConfig config
      → IsSendable config (stream_id, flags, payload)
      → p.pending r ≡ encode config (stream_id, flags, payload) ++ later
      → (r' : io.Reader) × (read_frame io read config r
          ≡ some (ok (some (stream_id, 0, flags, payload)), r'))
        × (p.pending r' ≡ later)
  read_frame-reads config stream_id flags payload later r c s e =
      let (h, k, n) = sendable-header config stream_id flags payload c s.2 in
      let len : length (take config.header_len h) ≡ config.header_len =
        omega (arith, length-take config.header_len h, header_len-bounds config c) in
      let (r1, f, g) =
        read_frame-header config (take config.header_len h) (payload ++ later) r
          (omega (arith, header_len-bounds config c)) len
          (encoded config stream_id flags payload later h k e) in
      let (r', u, w) = after_header-reads config stream_id flags payload later r1 c s g in
      (
        r',
        f
            ∙ ap (λ x. after_header io read config (x, r1))
                (header-of_parsed config stream_id flags payload h c s k)
            ∙ u,
        w,
      )

  -- Nothing is on the way.
  pub read_frame-end :
      (config : ConnConfig) (r : io.Reader)
      → IsConfig config
      → p.pending r ≡ []
      → (r' : io.Reader) × (read_frame io read config r ≡ some (ok none, r'))
  unfolding read_frame
  read_frame-end config r c e =
      let (k, f, g, h) = v.read_lem config.header_len r (header_len-bounds config c).0 in
      (
        (read config.header_len r).1,
        rw (k, no_more (v.bytes config.header_len r) _ (sym f ∙ e)) refl,
      )
