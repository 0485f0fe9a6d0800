-- ===== src/Frame/RoundTrip.antt =====
-- `parse_header` reads back what `build_header` writes.
use adaptivemsg_rust.Base.{
  ℕ, ◌≤◌, ◌≡◌, ◌≢◌, ◌⊎◌, inl, inr, List, [], ◌∷◌, ◌++◌, ◌==◌, if◌then◌else◌, bit_and, length, take,
  arith, replicate,
}
use adaptivemsg_rust.Base.Bytes.{to_be_bytes, IsU32, IsU64}
use adaptivemsg_rust.Error.{ok, panicked}
use adaptivemsg_rust.Frame.{
  build_header, frame_header_len_for_version, parse_header, Header, unsupported_frame_flags,
}

-- The header that `build_header` fills in.
abbrev pub header_of : ℕ → ℕ → ℕ → ℕ → ℕ → Header
header_of version stream_id seq flags payload_len = record {
  stream_id = stream_id;
  seq = if version == 3 then seq else 0;
  flags = flags;
  payload_len = payload_len;
}

abbrev pub header_bytes : ℕ → ℕ → ℕ → ℕ → ℕ → List ℕ
header_bytes version stream_id seq flags payload_len =
    version ∷ flags ∷ to_be_bytes 4 stream_id
    ++ (to_be_bytes 4 payload_len ++ (if version == 3 then to_be_bytes 8 seq else replicate 8 0))

build_header-bytes :
    (version stream_id seq flags payload_len max_frame : ℕ) {h : List ℕ}
    → build_header version stream_id seq flags payload_len max_frame ≡ ok h
    → (h ≡ header_bytes version stream_id seq flags payload_len)
      × IsU32 payload_len
      × (payload_len ≤ max_frame)
unfolding build_header
build_header-bytes version stream_id seq flags payload_len max_frame hb = ground arith

pub header_len-cases :
    (version : ℕ) {len : ℕ}
    → frame_header_len_for_version version ≡ ok len
    → ((version ≡ 2) × (len ≡ 10)) ⊎ ((version ≡ 3) × (len ≡ 18))
unfolding frame_header_len_for_version
header_len-cases version h = ground arith

parse_header-bytes_v2 :
    (stream_id seq flags payload_len : ℕ)
    → IsU32 stream_id
    → IsU32 payload_len
    → bit_and flags unsupported_frame_flags ≡ 0
    → parse_header (take 10 (header_bytes 2 stream_id seq flags payload_len)) 2
      ≡ ok (header_of 2 stream_id seq flags payload_len)
unfolding parse_header
parse_header-bytes_v2 stream_id seq flags payload_len hs hp hf = ground arith

parse_header-bytes_v3 :
    (stream_id seq flags payload_len : ℕ)
    → IsU32 stream_id
    → IsU64 seq
    → IsU32 payload_len
    → bit_and flags unsupported_frame_flags ≡ 0
    → parse_header (take 18 (header_bytes 3 stream_id seq flags payload_len)) 3
      ≡ ok (header_of 3 stream_id seq flags payload_len)
unfolding parse_header
parse_header-bytes_v3 stream_id seq flags payload_len hs hq hp hf = ground arith

-- A header that `build_header` accepts, cut to the header length of its version, is read back by
-- `parse_header`: all four fields in version 3, and sequence number 0 in version 2.
pub parse_header-build_header :
    (version stream_id seq flags payload_len max_frame len : ℕ) (h : List ℕ)
    → IsU32 stream_id
    → IsU64 seq
    → bit_and flags unsupported_frame_flags ≡ 0
    → frame_header_len_for_version version ≡ ok len
    → build_header version stream_id seq flags payload_len max_frame ≡ ok h
    → parse_header (take len h) version ≡ ok (header_of version stream_id seq flags payload_len)
parse_header-build_header version stream_id seq flags payload_len max_frame len h hs hq hf hl hb =
    let (bytes, hp, _) = build_header-bytes version stream_id seq flags payload_len max_frame hb in
    elim (header_len-cases version hl) [
      | inl (v, n) ↦
          rw (bytes, v, n) (parse_header-bytes_v2 stream_id seq flags payload_len hs hp hf)
      | inr (v, n) ↦
          rw (bytes, v, n) (parse_header-bytes_v3 stream_id seq flags payload_len hs hq hp hf)
    ]

-- `parse_header` does not panic on the header that its callers hand over: the bytes of a header of
-- the expected version, version 2 or 3.
pub parse_header-ne-panicked :
    (header : List ℕ) (expected_version len : ℕ)
    → frame_header_len_for_version expected_version ≡ ok len
    → length header ≡ len
    → parse_header header expected_version ≢ panicked
unfolding parse_header
parse_header-ne-panicked [] expected_version len hl hn =
    absurd (omega (arith, header_len-cases expected_version hl))
parse_header-ne-panicked (b ∷ []) expected_version len hl hn =
    absurd (omega (arith, header_len-cases expected_version hl))
parse_header-ne-panicked (v ∷ flags ∷ rest) expected_version len hl hn = λ e. ground arith
