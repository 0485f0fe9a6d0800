-- ===== src/Examples/Wire.antt =====
-- The handshake, the attach, the control payloads and the frame header at concrete inputs.
use adaptivemsg_rust.Base.{
  length, All, bit_and, ◌⊎◌, ℕ, ◌≡◌, refl, inr, List, [], ◌∷◌, ◌++◌, some, Bool, true, ◌&&◌, ltb,
  replicate, arith,
}
use adaptivemsg_rust.Error.{ok, err, invalid_message}
use adaptivemsg_rust.Streaming.{write_all, read_exact, flush}
use adaptivemsg_rust.Streaming.Pipe.{pipe, pipe-IsWorking}
use adaptivemsg_rust.Base.Bytes.{IsByte}
use adaptivemsg_rust.Frame.{
  build_header, parse_header, frame_header_len_for_version, unsupported_frame_flags,
}
use adaptivemsg_rust.Frame.RoundTrip.{parse_header-build_header, header_of}
use adaptivemsg_rust.Frame.Accepted.{build_header-parse_header}
use adaptivemsg_rust.Protocol.{
  handshake_client, handshake_server, validate_codec_list, validate_codecs,
  is_supported_protocol_version, request_header, reply_header, serve_request, select_and_reply,
  write_handshake_reply, select_codec, find_supported, negotiate_max_frame,
  supported_protocol_version, check_response, contains_codec,
}
use adaptivemsg_rust.Protocol.Select.{select_codec-first_common}
use adaptivemsg_rust.Protocol.Agreement.{handshake_agreement, outcome}
use adaptivemsg_rust.Recovery.Options.{NegotiatedRecoveryOptions}
use adaptivemsg_rust.RecoveryProtocol.{
  control_type_ack, control_type_ping, control_type_close, AttachRequest, AttachResponse,
  write_attach_request, read_attach_request, write_attach_response, read_attach_response,
  parse_control_payload, encode_negotiated_recovery_options, EncodedNegotiatedRecoveryOptions,
  build_ack_control_payload, build_ping_control_payload, build_close_control_payload,
}
use adaptivemsg_rust.RecoveryProtocol.Attach.{attach_request_roundtrip}
use adaptivemsg_rust.RecoveryProtocol.Response.{attach_response_roundtrip, response_on_wire}
use adaptivemsg_rust.RecoveryProtocol.Control.{
  parse_control_payload-accepts, parse_control_payload-build,
}
use adaptivemsg_rust.RecoveryProtocol.Negotiation.{
  decode-encode, decode-encode_refused, decode_encoded,
}

abbrev three_codecs : ℕ → Bool
three_codecs c = ltb 0 c && ltb c 4

abbrev client_codecs : List ℕ
client_codecs = 3 ∷ 1 ∷ []

abbrev server_codecs : List ℕ
server_codecs = 1 ∷ 2 ∷ []

abbrev client_bytes : List ℕ
client_bytes = b'A' ∷ b'M' ∷ 3 ∷ 2 ∷ 0 ∷ 0 ∷ 0 ∷ 0 ∷ 0 ∷ 0 ∷ 4 ∷ 0 ∷ 3 ∷ 1 ∷ []

abbrev server_bytes : List ℕ
server_bytes = b'A' ∷ b'M' ∷ 1 ∷ 3 ∷ 1 ∷ 0 ∷ 0 ∷ 0 ∷ 0 ∷ 0 ∷ 2 ∷ 0 ∷ []

handshake_agreement_example :
    ((handshake_client pipe three_codecs client_codecs 1024 3 (server_bytes, [])).0
      ≡ outcome 3 512 (some 1))
    × ((handshake_server pipe three_codecs server_codecs 512 true (client_bytes, [])).0
        ≡ outcome 3 512 (some 1))
unfolding handshake_client handshake_server validate_codec_list validate_codecs
    is_supported_protocol_version pipe-IsWorking write_all read_exact flush request_header
    reply_header serve_request select_and_reply write_handshake_reply select_codec find_supported
    negotiate_max_frame supported_protocol_version check_response contains_codec
handshake_agreement_example =
    handshake_agreement pipe pipe-IsWorking three_codecs client_codecs server_codecs 1024 512 3 true
      (server_bytes, []) (client_bytes, []) [] [] refl refl refl (inr refl) (omega arith) refl refl
      refl refl

select_codec-first_common_example : select_codec (3 ∷ 2 ∷ []) (1 ∷ 2 ∷ []) ≡ some 2
unfolding contains_codec
select_codec-first_common_example = select_codec-first_common (3 ∷ 2 ∷ []) (1 ∷ 2 ∷ [])

-- A request to resume after frame 7.
abbrev resume_seven : AttachRequest
resume_seven = record {
  mode = 1;
  connection_id = replicate 16 5;
  resume_secret = replicate 16 9;
  last_recv_seq = 7;
}

attach_request_roundtrip_example :
    (read_attach_request pipe
      ((write_attach_request pipe resume_seven ([], [])).1.1 ++ 4 ∷ [], [])).0
    ≡ ok resume_seven
unfolding pipe-IsWorking
attach_request_roundtrip_example =
    (attach_request_roundtrip pipe pipe-IsWorking resume_seven ([], [])
      ((write_attach_request pipe resume_seven ([], [])).1.1 ++ 4 ∷ [], []) (4 ∷ [])
      (record { id_len = refl; secret_len = refl; seq_fits = omega arith }) refl refl).2

abbrev half_seconds : NegotiatedRecoveryOptions
half_seconds = record {
  ack_every = 64;
  ack_delay = 20000000;
  heartbeat_interval = 500000000;
  heartbeat_timeout = 1000000000;
}

abbrev accepted : AttachResponse
accepted = record {
  status = 0;
  connection_id = replicate 16 5;
  resume_secret = replicate 16 9;
  last_recv_seq = 7;
  negotiated = half_seconds;
}

attach_response_roundtrip_example :
    (read_attach_response pipe ((write_attach_response pipe accepted ([], [])).1.1 ++ [], [])).0
    ≡ ok (response_on_wire accepted)
unfolding pipe-IsWorking
attach_response_roundtrip_example =
    (attach_response_roundtrip pipe pipe-IsWorking accepted ([], [])
      ((write_attach_response pipe accepted ([], [])).1.1 ++ [], []) []
      (record {
        id_len = refl;
        secret_len = refl;
        seq_fits = omega arith;
        every_fits = omega arith;
        negotiable = record {
          acks = omega arith;
          delays = omega arith;
          beats = omega arith;
          patient = ground arith;
        };
        sendable = record {
          delay_fits = omega arith;
          interval_fits = omega arith;
          timeout_fits = omega arith;
        };
        slow = omega arith;
      })
      refl refl).1

parse_control_payload-build_example :
    (parse_control_payload (build_ack_control_payload 300) ≡ ok (1, 300))
    × (parse_control_payload build_ping_control_payload ≡ ok (2, 0))
    × (parse_control_payload build_close_control_payload ≡ ok (3, 0))
parse_control_payload-build_example = parse_control_payload-build 300 (omega arith)

-- An interval of half a millisecond and a timeout of one.
abbrev half_millisecond : NegotiatedRecoveryOptions
half_millisecond = record {
  ack_every = 64;
  ack_delay = 20000000;
  heartbeat_interval = 500000;
  heartbeat_timeout = 1000000;
}

decode-encode_refused_example :
    (e : EncodedNegotiatedRecoveryOptions) × (encode_negotiated_recovery_options half_millisecond
      ≡ ok e)
    × (decode_encoded e ≡ err (invalid_message "negotiated heartbeat_timeout too small"))
decode-encode_refused_example =
    decode-encode_refused half_millisecond
      (record {
        acks = omega arith;
        delays = omega arith;
        beats = omega arith;
        patient = ground arith;
      })
      (record { delay_fits = omega arith; interval_fits = omega arith; timeout_fits = omega arith })
      (omega arith) (omega arith)

-- A version 3 header of stream 7, frame 9, with FIN and 11 bytes of payload.
abbrev nine : List ℕ
nine = 3 ∷ 1 ∷ 0 ∷ 0 ∷ 0 ∷ 7 ∷ 0 ∷ 0 ∷ 0 ∷ 11 ∷ 0 ∷ 0 ∷ 0 ∷ 0 ∷ 0 ∷ 0 ∷ 0 ∷ 9 ∷ []

parse_header-build_header_example : parse_header nine 3 ≡ ok (header_of 3 7 9 1 11)
unfolding build_header frame_header_len_for_version
parse_header-build_header_example =
    parse_header-build_header 3 7 9 1 11 1024 18 nine (omega arith) (omega arith) refl refl refl

nine_bytes : All IsByte nine
nine_bytes = ground arith

build_header-parse_header_example :
    (bit_and 1 unsupported_frame_flags ≡ 0) × (build_header 3 7 9 1 11 1024 ≡ ok nine)
unfolding parse_header
build_header-parse_header_example =
    build_header-parse_header 3 18 1024 nine (header_of 3 7 9 1 11) refl refl nine_bytes refl
      (omega arith)

decode-encode_example :
    (e : EncodedNegotiatedRecoveryOptions) × (encode_negotiated_recovery_options half_seconds
      ≡ ok e)
    × (decode_encoded e ≡ ok half_seconds)
decode-encode_example =
    decode-encode half_seconds
      (record {
        acks = omega arith;
        delays = omega arith;
        beats = omega arith;
        patient = ground arith;
      })
      (record { delay_fits = omega arith; interval_fits = omega arith; timeout_fits = omega arith })
      (omega arith)

parse_control_payload-accepts_example :
    ((2 ≡ control_type_ack) × (length {A = ℕ} (2 ∷ []) ≡ 9))
    ⊎ (((2 ≡ control_type_ping) ⊎ (2 ≡ control_type_close))
        × (◌≡◌ {A = List ℕ} (2 ∷ []) (2 ∷ []))
        × (◌≡◌ {A = ℕ} 0 0))
unfolding parse_control_payload
parse_control_payload-accepts_example = parse_control_payload-accepts (2 ∷ []) 2 0 refl
