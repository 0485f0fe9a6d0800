-- ===== src/Protocol/Agreement.antt =====
-- Both ends of a handshake over a working transport.
use adaptivemsg_rust.Base.{
  ℕ, ◌≡◌, ◌⊎◌, ◌≤◌, refl, ap, ◌∙◌, min, List, [], ◌++◌, append_assoc, Option, some, none, Bool,
  true, length, arith, Option-cases, inl, inr,
}
use adaptivemsg_rust.Base.Bytes.{IsU32}
use adaptivemsg_rust.Error.{Result, ok, err, no_common_codec}
use adaptivemsg_rust.Streaming.{Io, IsWorking, Streams, Task, read_exact, write_all, flush}
use adaptivemsg_rust.Streaming.Laws.{
  write_all-writes, flush-writes, write_flush-writes, read_exact-reads,
}
use adaptivemsg_rust.Protocol.{
  HandshakeConfig, contains_codec, select_codec, negotiate_max_frame, validate_codec_list,
  is_supported_protocol_version, request_header, reply_header, check_response, handshake_client,
  write_handshake_reply, reject, select_and_reply, serve_request, handshake_server, has_magic,
}
use adaptivemsg_rust.Protocol.Select.{
  select_codec-first_common, first_common, first_common-contains, validate_codec_list_lem,
  negotiate_max_frame-min,
}

abbrev config_of : ℕ → ℕ → ℕ → HandshakeConfig
config_of version codec_id max_frame = record {
  version = version;
  codec_id = codec_id;
  max_frame = max_frame;
}

check_response-accept :
    (registered : ℕ → Bool) (codecs : List ℕ) (version c max_frame : ℕ)
    → IsU32 max_frame
    → contains_codec codecs c ≡ true
    → registered c ≡ true
    → check_response registered codecs version (reply_header 1 version c max_frame)
      ≡ ok (config_of version c max_frame)
unfolding check_response reply_header
check_response-accept registered codecs version c max_frame h k r = ground arith

check_response-reject :
    (registered : ℕ → Bool) (codecs : List ℕ) (version c max_frame : ℕ)
    → check_response registered codecs version (reply_header 0 version c max_frame)
      ≡ err no_common_codec
unfolding check_response reply_header
check_response-reject registered codecs version c max_frame = ground arith

has_magic-request_header :
    (version : ℕ) (codecs : List ℕ) (max_frame : ℕ)
    → has_magic (request_header version codecs max_frame) ≡ true
unfolding request_header
has_magic-request_header version codecs max_frame = refl

length-request_header :
    (version : ℕ) (codecs : List ℕ) (max_frame : ℕ)
    → length (request_header version codecs max_frame) ≡ 12
unfolding request_header
length-request_header version codecs max_frame = refl

length-reply_header :
    (accept version codec_id max_frame : ℕ)
    → length (reply_header accept version codec_id max_frame) ≡ 12
unfolding reply_header
length-reply_header accept version codec_id max_frame = refl

-- How a handshake ends on both sides.
abbrev pub outcome : ℕ → ℕ → Option ℕ → Result HandshakeConfig
outcome version max_frame none = err no_common_codec
outcome version max_frame (some c) = ok (config_of version c max_frame)

module _ (io : Io) (p : IsWorking io) (registered : ℕ → Bool) where
  open p use {pending, written}

  -- What the client writes, whatever comes back.
  handshake_client-writes :
      (codecs : List ℕ) (max_frame version : ℕ) (s : Streams io)
      → validate_codec_list registered codecs ≡ ok tt
      → is_supported_protocol_version version ≡ true
      → written (handshake_client io registered codecs max_frame version s).1.1
        ≡ (written s.1 ++ request_header version codecs max_frame) ++ codecs
  unfolding handshake_client read_exact
  handshake_client-writes codecs max_frame version s hv hs =
      let s1 = (write_all io (request_header version codecs max_frame) s).1 in
      let s2 = (write_all io codecs s1).1 in
      ground (
        arith,
        write_all-writes io p (request_header version codecs max_frame) s,
        write_all-writes io p codecs s1,
        flush-writes io p s2,
      )

  -- The client ends as the response decides.
  handshake_client-runs :
      (codecs : List ℕ) (max_frame version : ℕ) (response rest : List ℕ) (s : Streams io)
      → validate_codec_list registered codecs ≡ ok tt
      → is_supported_protocol_version version ≡ true
      → length response ≡ 12
      → pending s.0 ≡ response ++ rest
      → (handshake_client io registered codecs max_frame version s).0
        ≡ check_response registered codecs version response
  unfolding handshake_client
  handshake_client-runs codecs max_frame version response rest s hv hs hl hp =
      let s1 = (write_all io (request_header version codecs max_frame) s).1 in
      let s2 = (write_all io codecs s1).1 in
      let s3 = (flush io s2).1 in
      let w1 = write_all-writes io p (request_header version codecs max_frame) s in
      let w2 = write_all-writes io p codecs s1 in
      let w3 = flush-writes io p s2 in
      let e = ap pending (w3.2 ∙ w2.2 ∙ w1.2) ∙ hp in
      ground (arith, w1, w2, w3, read_exact-reads io p 12 response rest s3 hl e)

  -- The server's reply when no codec is common, or the one selected is registered.
  select_and_reply-runs :
      (codecs client_codecs rest : List ℕ) (max_frame version client_max : ℕ) (t : Streams io)
      → pending t.0 ≡ client_codecs ++ rest
      → (select_codec client_codecs codecs ≡ none
          → ((select_and_reply io registered codecs max_frame version
                (length client_codecs)
                client_max
                t).0
              ≡ err no_common_codec)
            × (written
                  (select_and_reply io registered codecs max_frame version
                    (length client_codecs)
                    client_max
                    t).1.1
                ≡ written t.1 ++ reply_header 0 version 0 0))
        × ((c : ℕ)
            → select_codec client_codecs codecs ≡ some c
            → registered c ≡ true
            → ((select_and_reply io registered codecs max_frame version
                  (length client_codecs)
                  client_max
                  t).0
                ≡ ok (config_of version c (negotiate_max_frame client_max max_frame)))
              × (written
                    (select_and_reply io registered codecs max_frame version
                      (length client_codecs)
                      client_max
                      t).1.1
                  ≡ written t.1
                    ++ reply_header 1 version c (negotiate_max_frame client_max max_frame)))
  unfolding select_and_reply reject write_handshake_reply
  select_and_reply-runs codecs client_codecs rest max_frame version client_max t hp =
      let r = read_exact-reads io p (length client_codecs) client_codecs rest t refl hp in
      let t1 = (read_exact io (length client_codecs) t).1 in
      let w0 = write_flush-writes io p (reply_header 0 version 0 0) t1 in
      (
        (λ e. ground (arith, r, w0)),
        λ c e k. ground (
          arith,
          r,
          write_flush-writes io p
              (reply_header 1 version c (negotiate_max_frame client_max max_frame)) t1,
        ),
      )

  serve_request-request_header :
      (codecs client_codecs : List ℕ) (max_frame client_max version : ℕ) (recovery_enabled : Bool)
      → 1 ≤ length client_codecs
      → length client_codecs ≤ 16
      → IsU32 client_max
      → is_supported_protocol_version version ≡ true
      → (version ≡ 2) ⊎ (recovery_enabled ≡ true)
      → serve_request io registered codecs max_frame recovery_enabled
          (request_header version client_codecs client_max)
        ≡ select_and_reply io registered codecs max_frame version (length client_codecs) client_max
  unfolding serve_request request_header
  serve_request-request_header codecs client_codecs max_frame client_max version rec h1 h2 hm hs
        hr =
      ground arith

  -- What the server does with a client's request.
  handshake_server-runs :
      (codecs client_codecs rest : List ℕ) (max_frame client_max version : ℕ)
      (recovery_enabled : Bool) (t : Streams io)
      → validate_codec_list registered codecs ≡ ok tt
      → 1 ≤ length client_codecs
      → length client_codecs ≤ 16
      → IsU32 client_max
      → is_supported_protocol_version version ≡ true
      → (version ≡ 2) ⊎ (recovery_enabled ≡ true)
      → pending t.0 ≡ request_header version client_codecs client_max ++ (client_codecs ++ rest)
      → (t' : Streams io) × (pending t'.0 ≡ client_codecs ++ rest)
        × (t'.1 ≡ t.1)
        × (handshake_server io registered codecs max_frame recovery_enabled t
            ≡ select_and_reply io registered codecs max_frame version
                (length client_codecs)
                client_max
                t')
  unfolding handshake_server
  handshake_server-runs codecs client_codecs rest max_frame client_max version rec t hv h1 h2 hm hs
        hr hp =
      let hdr : List ℕ = request_header version client_codecs client_max in
      let r =
        read_exact-reads io p 12 hdr (client_codecs ++ rest) t
          (length-request_header version client_codecs client_max) hp in
      let t' = (read_exact io 12 t).1 in
      (
        t',
        r.1,
        r.2,
        ground (
          arith,
          r,
          has_magic-request_header version client_codecs client_max,
          ap (λ (f : Task (Streams io) HandshakeConfig). f t')
              (serve_request-request_header codecs client_codecs max_frame client_max version rec h1
                h2 hm hs hr),
        ),
      )

  -- The two ends of a handshake read what the other writes. If both codec lists are acceptable and the
  -- server takes the client's version, both ends return the same: the client's version, its first codec
  -- that the server supports, and the smaller frame limit, or `NoCommonCodec` if no codec is common.
  pub handshake_agreement :
      (client_codecs server_codecs : List ℕ) (client_max server_max version : ℕ)
      (recovery_enabled : Bool) (s t : Streams io) (rest_s rest_t : List ℕ)
      → validate_codec_list registered client_codecs ≡ ok tt
      → validate_codec_list registered server_codecs ≡ ok tt
      → is_supported_protocol_version version ≡ true
      → (version ≡ 2) ⊎ (recovery_enabled ≡ true)
      → IsU32 client_max
      → written s.1 ≡ []
      → written t.1 ≡ []
      → pending t.0
        ≡ written (handshake_client io registered client_codecs client_max version s).1.1 ++ rest_t
      → pending s.0
        ≡ written (handshake_server io registered server_codecs server_max recovery_enabled t).1.1
          ++ rest_s
      → ((handshake_client io registered client_codecs client_max version s).0
          ≡ outcome version (min client_max server_max) (first_common client_codecs server_codecs))
        × ((handshake_server io registered server_codecs server_max recovery_enabled t).0
            ≡ outcome version
                (min client_max server_max)
                (first_common client_codecs server_codecs))
  handshake_agreement ccs scs cmax smax version rec s t rest_s rest_t hc hs hver hrec hm ws wt pt
        ps =
      let hdr : List ℕ = request_header version ccs cmax in
      let (n1, n16, _) = validate_codec_list_lem registered ccs hc in
      let pt' =
        pt
        ∙ ap (λ (w : List ℕ). w ++ rest_t)
            (handshake_client-writes ccs cmax version s hc hver
              ∙ ap (λ (w : List ℕ). (w ++ hdr) ++ ccs) ws)
        ∙ append_assoc hdr ccs rest_t in
      let (t', pt1, wt1, run) =
        handshake_server-runs scs ccs rest_t smax cmax version rec t hs n1 n16 hm hver hrec pt' in
      let runs = select_and_reply-runs scs ccs rest_t smax version cmax t' pt1 in
      elim (Option-cases (first_common ccs scs)) [
        | inl e ↦
            let (a, b) = runs.0 (select_codec-first_common ccs scs ∙ e) in
            let reply : List ℕ = reply_header 0 version 0 0 in
            rw e (
              client_end reply b (ap written wt1 ∙ wt) run (length-reply_header 0 version 0 0)
                  ∙ check_response-reject registered ccs version 0 0,
              ap (λ (x : Result HandshakeConfig × Streams io). x.0) run ∙ a,
            )
        | inr (c, e) ↦
            let neg : ℕ = negotiate_max_frame cmax smax in
            let (a, b) =
              runs.1 c (select_codec-first_common ccs scs ∙ e)
                (server_knows c (first_common-contains ccs scs c e).1) in
            let reply : List ℕ = reply_header 1 version c neg in
            rw (e, ← negotiate_max_frame-min cmax smax)
              (
                client_end reply b (ap written wt1 ∙ wt) run (length-reply_header 1 version c neg)
                    ∙ check_response-accept registered ccs version c neg
                        (omega (arith, negotiate_max_frame-min cmax smax))
                        (first_common-contains ccs scs c e).0
                        (client_knows c (first_common-contains ccs scs c e).0),
                ap (λ (x : Result HandshakeConfig × Streams io). x.0) run ∙ a,
              )
      ]
    where
      server_knows : (c : ℕ) → contains_codec scs c ≡ true → registered c ≡ true
      server_knows c h = ((validate_codec_list_lem registered scs hs).2 c h).0

      client_knows : (c : ℕ) → contains_codec ccs c ≡ true → registered c ≡ true
      client_knows c h = ((validate_codec_list_lem registered ccs hc).2 c h).0

      client_end :
          (reply : List ℕ) {w0 : List ℕ} {r : Result HandshakeConfig × Streams io}
          → written r.1.1 ≡ w0 ++ reply
          → w0 ≡ []
          → handshake_server io registered scs smax rec t ≡ r
          → length reply ≡ 12
          → (handshake_client io registered ccs cmax version s).0
            ≡ check_response registered ccs version reply
      client_end reply b w run n = handshake_client-runs ccs cmax version reply rest_s s hc hver n (
          ps
          ∙ ap (λ (x : List ℕ). x ++ rest_s)
              (ap (λ (x : Result HandshakeConfig × Streams io). written x.1.1) run
                ∙ b
                ∙ ap (λ (x : List ℕ). x ++ reply) w))
