-- ===== src/Protocol.antt =====
-- src/protocol.rs: the handshake that opens a connection.
--
-- The codec registry (codec_by_id) is global state of the process: the test of whether a codec ID is
-- registered is the argument `registered`. A codec ID is a number.
pub mod Select
pub mod Agreement
use adaptivemsg_rust.Base.{
  ℕ, ◌%◌, List, [], ◌∷◌, ◌++◌, Option, some, none, Bool, true, false, ltb, ◌==◌, ◌&&◌, ◌||◌, not,
  if◌then◌else◌, length, any, is_empty,
}
use adaptivemsg_rust.Base.Bytes.{to_be_bytes, from_be_bytes}
use adaptivemsg_rust.Error.{
  Error, Result, ok, err, panicked, require, invalid_message, unsupported_codec,
  unsupported_frame_version, no_common_codec, too_many_codecs, bad_handshake_magic,
}
use adaptivemsg_rust.Error
use adaptivemsg_rust.Frame.{slice, protocol_version_v2, protocol_version_v3}
use adaptivemsg_rust.RecoveryProtocol.{byte_at}
use adaptivemsg_rust.Streaming.{Io, Task, Streams, lift, read_exact, write_all, flush, ◌>>=◌, ◌>>◌}

abbrev pub handshake_header_len : ℕ
handshake_header_len = 12

abbrev pub max_codec_count : ℕ
max_codec_count = 16

pub record HandshakeConfig : Type 0 where
  pub version : ℕ
  pub codec_id : ℕ
  pub max_frame : ℕ

unfoldable pub is_supported_protocol_version : ℕ → Bool
is_supported_protocol_version version =
    version == protocol_version_v2 || version == protocol_version_v3

unfoldable pub supported_protocol_version : Bool → ℕ
supported_protocol_version recovery_enabled =
    if recovery_enabled then protocol_version_v3 else protocol_version_v2

unfoldable pub contains_codec : List ℕ → ℕ → Bool
contains_codec codecs id = any (λ codec. codec == id) codecs

-- The inner loop of `select_codec`: the first supported codec that equals `raw`.
unfoldable pub find_supported : ℕ → List ℕ → Option ℕ
find_supported raw [] = none
find_supported raw (sup ∷ supported) =
    let rest = find_supported raw supported in if raw == sup then some sup else rest

unfoldable pub select_codec : List ℕ → List ℕ → Option ℕ
select_codec [] supported = none
select_codec (raw ∷ client_codecs) supported =
    let rest = select_codec client_codecs supported in
    elim (find_supported raw supported) [ none ↦ rest | some sup ↦ some sup ]

unfoldable pub negotiate_max_frame : ℕ → ℕ → ℕ
negotiate_max_frame client_max server_max =
    if client_max == 0 then 0 else if ltb client_max server_max then client_max else server_max

-- The loop of `validate_codec_list`.
unfoldable pub validate_codecs : (ℕ → Bool) → List ℕ → Result (Unit {0})
validate_codecs registered [] = ok tt
validate_codecs registered (codec ∷ codecs) =
    let rest = validate_codecs registered codecs in
    if codec == 0
    then err (invalid_message "codec ID must be non-zero")
    else if not (registered codec)
    then err (unsupported_codec codec)
    else rest

unfoldable pub validate_codec_list : (ℕ → Bool) → List ℕ → Result (Unit {0})
validate_codec_list registered codecs =
    if is_empty codecs
    then err (invalid_message "codec list must be non-empty")
    else if ltb max_codec_count (length codecs)
    then err (too_many_codecs (length codecs))
    else validate_codecs registered codecs

-- `HANDSHAKE_MAGIC`, "AM".
abbrev pub has_magic : List ℕ → Bool
has_magic bs = byte_at 0 bs == b'A' && byte_at 1 bs == b'M'

-- The twelve bytes of a handshake request.
unfoldable pub request_header : ℕ → List ℕ → ℕ → List ℕ
request_header version codecs max_frame =
    b'A' ∷ b'M' ∷ version ∷ (length codecs % 256) ∷ 0 ∷ 0 ∷ 0 ∷ 0 ∷ to_be_bytes 4 max_frame

-- The twelve bytes of a handshake reply.
unfoldable pub reply_header : ℕ → ℕ → ℕ → ℕ → List ℕ
reply_header accept version codec_id max_frame =
    b'A' ∷ b'M' ∷ accept ∷ version ∷ codec_id ∷ 0 ∷ 0 ∷ 0 ∷ to_be_bytes 4 max_frame

-- The checks of `handshake_client` on the response, with the version that it asked for.
unfoldable pub check_response : (ℕ → Bool) → List ℕ → ℕ → List ℕ → Result HandshakeConfig
check_response registered codecs asked response =
    let accept = byte_at 2 response in
    let version = byte_at 3 response in
    let selected = byte_at 4 response in
    let server_max = from_be_bytes (slice 8 12 response) in
    if not (has_magic response)
    then err bad_handshake_magic
    else if not (version == asked)
    then err (unsupported_frame_version version)
    else if accept == 0
    then err no_common_codec
    else if not (contains_codec codecs selected)
    then err no_common_codec
    else if not (registered selected)
    then err (unsupported_codec selected)
    else ok (record { version = version; codec_id = selected; max_frame = server_max })

module _ (io : Io) (registered : ℕ → Bool) where
  unfoldable pub handshake_client : List ℕ → ℕ → ℕ → Task (Streams io) HandshakeConfig
  handshake_client codecs max_frame version = do
    lift (validate_codec_list registered codecs)
    lift (require (is_supported_protocol_version version) (unsupported_frame_version version))
    write_all io (request_header version codecs max_frame)
    write_all io codecs
    flush io
    response ← read_exact io handshake_header_len
    lift (check_response registered codecs version response)

  unfoldable pub write_handshake_reply : ℕ → ℕ → ℕ → ℕ → Task (Streams io) (Unit {0})
  write_handshake_reply accept version codec_id max_frame = do
    write_all io (reply_header accept version codec_id max_frame)
    flush io

  -- `let _ = write_handshake_reply(…); return Err(e)`: how the write ends does not matter.
  unfoldable pub reject : ℕ → Error → Task (Streams io) HandshakeConfig
  unfolding write_handshake_reply
  reject version e s = (err e, (write_handshake_reply 0 version 0 0 s).1)

  -- The part of `handshake_server` after the version and the codec count are accepted.
  unfoldable pub select_and_reply : List ℕ → ℕ → ℕ → ℕ → ℕ → Task (Streams io) HandshakeConfig
  select_and_reply codecs max_frame version codec_count client_max = do
    client_codecs ← read_exact io codec_count
    let negotiated_max = negotiate_max_frame client_max max_frame
    elim (select_codec client_codecs codecs) [
      | none ↦ reject version no_common_codec
      | some selected ↦ do
        write_handshake_reply 1 version selected negotiated_max
        lift (require (registered selected) (unsupported_codec selected))
        lift (ok (record { version = version; codec_id = selected; max_frame = negotiated_max }))
    ]

  -- The part of `handshake_server` that reads the request's fields.
  unfoldable pub serve_request : List ℕ → ℕ → Bool → List ℕ → Task (Streams io) HandshakeConfig
  serve_request codecs max_frame recovery_enabled request =
      let version = byte_at 2 request in
      let reply_version = supported_protocol_version recovery_enabled in
      let codec_count = byte_at 3 request in
      let client_max = from_be_bytes (slice 8 12 request) in
      if not (is_supported_protocol_version version)
        || (version == protocol_version_v3 && not recovery_enabled)
      then (if ltb 0 codec_count
          then (read_exact io codec_count >>= λ _.
              reject reply_version (unsupported_frame_version version))
          else reject reply_version (unsupported_frame_version version))
      else if codec_count == 0
      then reject version no_common_codec
      else if ltb max_codec_count codec_count
      then (read_exact io codec_count >>= λ _. reject version (too_many_codecs codec_count))
      else select_and_reply codecs max_frame version codec_count client_max

  unfoldable pub handshake_server : List ℕ → ℕ → Bool → Task (Streams io) HandshakeConfig
  handshake_server codecs max_frame recovery_enabled = do
    lift (validate_codec_list registered codecs)
    request ← read_exact io handshake_header_len
    lift (require (has_magic request) bad_handshake_magic)
    serve_request codecs max_frame recovery_enabled request
