-- ===== src/RecoveryProtocol/Response.antt =====
-- The attach response over a working transport.
use adaptivemsg_rust.Base.{
  ℕ, ◌+◌, ◌≡◌, ◌≤◌, refl, ap, ◌∙◌, List, [], ◌++◌, length, length-append, take, drop, arith,
}
use adaptivemsg_rust.Base.Bytes.{
  IsU32, IsU64, to_be_bytes, from_be_bytes, from_be_bytes-u32, from_be_bytes-u64,
}
use adaptivemsg_rust.Error.{ok}
use adaptivemsg_rust.Recovery.Normalized.{IsNegotiable}
use adaptivemsg_rust.Streaming.{Io, IsWorking, Streams}
use adaptivemsg_rust.Streaming.Laws.{write_flush-writes, read_exact-reads}
use adaptivemsg_rust.RecoveryProtocol.{
  AttachResponse, EncodedNegotiatedRecoveryOptions, encode_attach_response, decode_attach_response,
  write_attach_response, read_attach_response,
}
use adaptivemsg_rust.RecoveryProtocol.Attach.{slice-id, slice-secret, drop-rest}
use adaptivemsg_rust.RecoveryProtocol.Negotiation.{
  IsSendable, options_on_wire, encoded_of, encode-encoded_of, decode-encoded_of,
}

-- A response that its receiver accepts.
pub record IsResponse (resp : AttachResponse) : Type 0 where
  pub id_len : length resp.connection_id ≡ 16
  pub secret_len : length resp.resume_secret ≡ 16
  pub seq_fits : IsU64 resp.last_recv_seq
  pub every_fits : IsU32 resp.negotiated.ack_every
  pub negotiable : IsNegotiable resp.negotiated
  pub sendable : IsSendable resp.negotiated
  pub slow : 1000000 ≤ resp.negotiated.heartbeat_interval

-- The response as the peer reads it.
abbrev pub response_on_wire : AttachResponse → AttachResponse
response_on_wire resp = record resp { negotiated = options_on_wire resp.negotiated }

-- What follows the tokens in a response.
abbrev numbers : AttachResponse → EncodedNegotiatedRecoveryOptions → List ℕ
numbers resp e =
    to_be_bytes 8 resp.last_recv_seq
    ++ (to_be_bytes 4 e.ack_every
        ++ (to_be_bytes 4 e.ack_delay_ms
            ++ (to_be_bytes 4 e.heartbeat_interval_ms ++ to_be_bytes 4 e.heartbeat_timeout_ms)))

-- The integer of the response's number part at offset `k`, `n` bytes wide.
abbrev number_at : ℕ → ℕ → List ℕ → ℕ
number_at n k bs = from_be_bytes (take n (drop k bs))

numbers_back :
    (resp : AttachResponse)
    → IsResponse resp
    → let bs = numbers resp (encoded_of resp.negotiated) in
      let e = encoded_of resp.negotiated in
      (number_at 8 0 bs ≡ resp.last_recv_seq)
      × (number_at 4 8 bs ≡ e.ack_every)
      × (number_at 4 12 bs ≡ e.ack_delay_ms)
      × (number_at 4 16 bs ≡ e.heartbeat_interval_ms)
      × (number_at 4 20 bs ≡ e.heartbeat_timeout_ms)
unfolding encoded_of
numbers_back resp v = (
  from_be_bytes-u64 _ v.seq_fits,
  from_be_bytes-u32 _ v.every_fits,
  from_be_bytes-u32 _ (omega arith),
  from_be_bytes-u32 _ (omega arith),
  from_be_bytes-u32 _ (omega arith),
)

-- The integers of a response, found behind the two tokens.
number_at-body :
    (resp : AttachResponse) (e : EncodedNegotiatedRecoveryOptions) (n k m : ℕ)
    → IsResponse resp
    → m ≡ 32 + k
    → number_at n m (resp.connection_id ++ (resp.resume_secret ++ numbers resp e))
      ≡ number_at n k (numbers resp e)
number_at-body resp e n k m v h =
    ap (λ (l : List ℕ). from_be_bytes (take n l))
      (drop-rest resp.status 0 0 0 resp.connection_id resp.resume_secret (numbers resp e) v.id_len
        v.secret_len k m h)

decode-encode_attach_response :
    (resp : AttachResponse)
    → IsResponse resp
    → decode_attach_response (encode_attach_response resp (encoded_of resp.negotiated))
      ≡ ok (response_on_wire resp)
unfolding decode_attach_response encode_attach_response
decode-encode_attach_response resp v =
    let e : EncodedNegotiatedRecoveryOptions = encoded_of resp.negotiated in
    let (q, a, b, c, d) = numbers_back resp v in
    rw (
      number_at-body resp e 4 8 40 v refl ∙ a,
      number_at-body resp e 4 12 44 v refl ∙ b,
      number_at-body resp e 4 16 48 v refl ∙ c,
      number_at-body resp e 4 20 52 v refl ∙ d,
      number_at-body resp e 8 0 32 v refl ∙ q,
      slice-id resp.status 0 0 0 resp.connection_id resp.resume_secret (numbers resp e) v.id_len
          v.secret_len,
      slice-secret resp.status 0 0 0 resp.connection_id resp.resume_secret (numbers resp e) v.id_len
          v.secret_len,
      decode-encoded_of resp.negotiated v.negotiable v.sendable v.slow,
    )

length-encode_attach_response :
    (resp : AttachResponse) (e : EncodedNegotiatedRecoveryOptions)
    → IsResponse resp
    → length (encode_attach_response resp e) ≡ 60
unfolding encode_attach_response
length-encode_attach_response resp e v = omega (
  arith,
  length-append resp.connection_id (resp.resume_secret ++ numbers resp e),
  length-append resp.resume_secret (numbers resp e),
)

module _ (io : Io) (p : IsWorking io) where
  open p use {pending, written}

  read_attach_response-reads :
      (resp : AttachResponse) (t : Streams io) (rest : List ℕ)
      → IsResponse resp
      → pending t.0 ≡ encode_attach_response resp (encoded_of resp.negotiated) ++ rest
      → ((read_attach_response io t).0 ≡ ok (response_on_wire resp))
        × (pending (read_attach_response io t).1.0 ≡ rest)
  unfolding read_attach_response
  read_attach_response-reads resp t rest v ht =
      let e : EncodedNegotiatedRecoveryOptions = encoded_of resp.negotiated in
      ground (
        arith,
        read_exact-reads io p 60 (encode_attach_response resp e) rest t
            (length-encode_attach_response resp e v) ht,
        decode-encode_attach_response resp v,
      )

  write_attach_response-writes :
      (resp : AttachResponse) (s : Streams io)
      → IsResponse resp
      → ((write_attach_response io resp s).0 ≡ ok tt)
        × (written (write_attach_response io resp s).1.1
            ≡ written s.1 ++ encode_attach_response resp (encoded_of resp.negotiated))
  unfolding write_attach_response
  write_attach_response-writes resp s v =
      rw (encode-encoded_of resp.negotiated v.negotiable v.sendable) (
        let (a, b, _) =
          write_flush-writes io p (encode_attach_response resp (encoded_of resp.negotiated)) s in
        (a, b))

  -- Over a working transport, a response with 16-byte tokens, a 64-bit sequence number, a 32-bit
  -- `ack_every`, and negotiable options of at most 2^32 - 1 milliseconds with a heartbeat interval of a
  -- millisecond at least is written, and its reader gets it back with the durations cut to whole milliseconds.
  pub attach_response_roundtrip :
      (resp : AttachResponse) (s t : Streams io) (rest : List ℕ)
      → IsResponse resp
      → written s.1 ≡ []
      → pending t.0 ≡ written (write_attach_response io resp s).1.1 ++ rest
      → ((write_attach_response io resp s).0 ≡ ok tt)
        × ((read_attach_response io t).0 ≡ ok (response_on_wire resp))
        × (pending (read_attach_response io t).1.0 ≡ rest)
  attach_response_roundtrip resp s t rest v hs ht =
      let bs : List ℕ = encode_attach_response resp (encoded_of resp.negotiated) in
      let (done, sent) = write_attach_response-writes resp s v in
      let sent' = sent ∙ ap (λ (w : List ℕ). w ++ bs) hs in
      let (a, b) =
        read_attach_response-reads resp t rest v (ht ∙ ap (λ (w : List ℕ). w ++ rest) sent') in
      (done, a, b)
