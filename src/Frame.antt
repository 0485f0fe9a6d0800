-- ===== src/Frame.antt =====
-- src/frame.rs: the header of a frame, protocol versions 2 and 3.
pub mod RoundTrip
pub mod Accepted
use adaptivemsg_rust.Base.{
  ℕ, ◌+◌, ◌%◌, ◌^◌, ◌-◌, List, [], ◌∷◌, ◌++◌, Bool, ltb, leb, ◌==◌, if◌then◌else◌, bit_and, length,
  take, drop, replicate, get_elem?, Option, some, none,
}
use adaptivemsg_rust.Base.Bytes.{to_be_bytes, from_be_bytes}
use adaptivemsg_rust.Error.{
  Error, Result, ok, err, panicked, require, frame_too_large, unsupported_frame_version,
  invalid_message, ◌>>=◌, ◌>>◌,
}

abbrev pub protocol_version_v2 : ℕ
protocol_version_v2 = 2

abbrev pub protocol_version_v3 : ℕ
protocol_version_v3 = 3

abbrev pub frame_header_len_v2 : ℕ
frame_header_len_v2 = 10

abbrev pub frame_header_len_v3 : ℕ
frame_header_len_v3 = 18

abbrev pub frame_flag_fin : ℕ
frame_flag_fin = 1

-- `!SUPPORTED_FRAME_FLAGS` on a byte: every bit but `FIN`.
abbrev pub unsupported_frame_flags : ℕ
unsupported_frame_flags = 254

abbrev pub u32_max : ℕ
u32_max = 4294967295

abbrev pub index : List ℕ → ℕ → Result ℕ
index bs i = elim (get_elem? bs i) [ none ↦ panicked | some b ↦ ok b ]

unfoldable pub build_header : ℕ → ℕ → ℕ → ℕ → ℕ → ℕ → Result (List ℕ)
build_header version stream_id seq flags payload_len max_frame =
    if ltb u32_max payload_len
    then err (frame_too_large payload_len)
    else if ltb max_frame (payload_len % 2 ^ 32)
    then err (frame_too_large payload_len)
    else ok (
        version ∷ flags ∷ to_be_bytes 4 stream_id
        ++ (to_be_bytes 4 payload_len
            ++ (if version == protocol_version_v3 then to_be_bytes 8 seq else replicate 8 0)))

unfoldable pub frame_header_len_for_version : ℕ → Result ℕ
frame_header_len_for_version version =
    if version == protocol_version_v2
    then ok frame_header_len_v2
    else if version == protocol_version_v3
    then ok frame_header_len_v3
    else err (unsupported_frame_version version)

-- `&bytes[from..to]`
abbrev pub slice : ℕ → ℕ → List ℕ → List ℕ
slice from to bs = take (to - from) (drop from bs)

pub record Header : Type 0 where
  pub stream_id : ℕ
  pub seq : ℕ
  pub flags : ℕ
  pub payload_len : ℕ

unfoldable pub parse_header : List ℕ → ℕ → Result Header
unfolding frame_header_len_for_version
parse_header header expected_version = do
  version ← index header 0
  require (version == expected_version) (unsupported_frame_version version)
  flags ← index header 1
  require (bit_and flags unsupported_frame_flags == 0) (invalid_message "unsupported frame flags")
  expected_len ← frame_header_len_for_version version
  require (leb expected_len (length header)) (invalid_message "invalid frame header length")
  ok (record {
    stream_id = from_be_bytes (slice 2 6 header);
    seq = if version == protocol_version_v3 then from_be_bytes (slice 10 18 header) else 0;
    flags = flags;
    payload_len = from_be_bytes (slice 6 10 header);
  })
