-- ===== src/RecoveryProtocol/Attach.antt =====
-- The attach request and response over a working transport.
use adaptivemsg_rust.Base.{
  ℕ, zero, suc, ◌+◌, ◌≡◌, refl, ap, ◌∙◌, List, [], ◌∷◌, ◌++◌, length, length-append, take, drop,
  take-append, drop-append, arith,
}
use adaptivemsg_rust.Base.Bytes.{IsU64, to_be_bytes, from_be_bytes, from_be_bytes-u64}
use adaptivemsg_rust.Error.{ok}
use adaptivemsg_rust.Frame.{slice}
use adaptivemsg_rust.Streaming.{Io, IsWorking, Streams}
use adaptivemsg_rust.Streaming.Laws.{write_flush-writes, read_exact-reads}
use adaptivemsg_rust.RecoveryProtocol.{
  AttachRequest, encode_attach_request, decode_attach_request, write_attach_request,
  read_attach_request,
}

pub record IsRequest (req : AttachRequest) : Type 0 where
  pub id_len : length req.connection_id ≡ 16
  pub secret_len : length req.resume_secret ≡ 16
  pub seq_fits : IsU64 req.last_recv_seq

take_at {ℓ} : {A : Type ℓ} (n : ℕ) (xs ys : List A) → length xs ≡ n → take n (xs ++ ys) ≡ xs
take_at n xs ys h = rw (← h) (take-append xs ys)

drop_at {ℓ} : {A : Type ℓ} (n : ℕ) (xs ys : List A) → length xs ≡ n → drop n (xs ++ ys) ≡ ys
drop_at n xs ys h = rw (← h) (drop-append xs ys)

drop_beyond {ℓ} :
    {A : Type ℓ} (m k : ℕ) (xs ys : List A) → m ≡ length xs + k → drop m (xs ++ ys) ≡ drop k ys
drop_beyond m k [] ys e = ap (λ (n : ℕ). drop n ys) (omega arith)
drop_beyond zero k (x ∷ xs) ys e = absurd (omega arith)
drop_beyond (suc m) k (x ∷ xs) ys e = drop_beyond m k xs ys (omega arith)

-- The parts of a buffer behind its first four bytes: two tokens and the rest.
module _ (b0 b1 b2 b3 : ℕ) (id secret rest : List ℕ) (hid : length id ≡ 16)
    (hs : length secret ≡ 16) where
  pub slice-id : slice 4 20 (b0 ∷ b1 ∷ b2 ∷ b3 ∷ (id ++ (secret ++ rest))) ≡ id
  slice-id = take_at 16 id (secret ++ rest) hid

  pub slice-secret : slice 20 36 (b0 ∷ b1 ∷ b2 ∷ b3 ∷ (id ++ (secret ++ rest))) ≡ secret
  slice-secret = ap (take 16) (drop_at 16 id (secret ++ rest) hid) ∙ take_at 16 secret rest hs

  -- The bytes from offset `36 + k` on.
  pub drop-rest : (k m : ℕ) → m ≡ 32 + k → drop m (id ++ (secret ++ rest)) ≡ drop k rest
  drop-rest k m e =
      drop_beyond m (16 + k) id (secret ++ rest) (omega arith)
      ∙ drop_beyond (16 + k) k secret rest (omega arith)

decode-encode_attach_request :
    (req : AttachRequest) → IsRequest req → decode_attach_request (encode_attach_request req) ≡ req
unfolding decode_attach_request encode_attach_request
decode-encode_attach_request req v =
    let seq : List ℕ = to_be_bytes 8 req.last_recv_seq in
    cc (
      slice-id req.mode 0 0 0 req.connection_id req.resume_secret seq v.id_len v.secret_len,
      slice-secret req.mode 0 0 0 req.connection_id req.resume_secret seq v.id_len v.secret_len,
      ap (λ (l : List ℕ). from_be_bytes (take 8 l))
          (drop-rest req.mode 0 0 0 req.connection_id req.resume_secret seq v.id_len v.secret_len 0
            32 refl),
      from_be_bytes-u64 req.last_recv_seq v.seq_fits,
    )

length-encode_attach_request :
    (req : AttachRequest) → IsRequest req → length (encode_attach_request req) ≡ 44
unfolding encode_attach_request
length-encode_attach_request req v = omega (
  arith,
  length-append req.connection_id (req.resume_secret ++ to_be_bytes 8 req.last_recv_seq),
  length-append req.resume_secret (to_be_bytes 8 req.last_recv_seq),
)

module _ (io : Io) (p : IsWorking io) where
  open p use {pending, written}

  read_attach_request-reads :
      (req : AttachRequest) (t : Streams io) (rest : List ℕ)
      → IsRequest req
      → pending t.0 ≡ encode_attach_request req ++ rest
      → ((read_attach_request io t).0 ≡ ok req) × (pending (read_attach_request io t).1.0 ≡ rest)
  unfolding read_attach_request
  read_attach_request-reads req t rest v ht = ground (
    arith,
    read_exact-reads io p 44 (encode_attach_request req) rest t (length-encode_attach_request req v)
        ht,
    decode-encode_attach_request req v,
  )

  -- Over a working transport, an attach request is written as 44 bytes, and a peer that has these bytes
  -- to read gets the same request and leaves what follows them.
  pub attach_request_roundtrip :
      (req : AttachRequest) (s t : Streams io) (rest : List ℕ)
      → IsRequest req
      → written s.1 ≡ []
      → pending t.0 ≡ written (write_attach_request io req s).1.1 ++ rest
      → ((write_attach_request io req s).0 ≡ ok tt)
        × (length (written (write_attach_request io req s).1.1) ≡ 44)
        × ((read_attach_request io t).0 ≡ ok req)
        × (pending (read_attach_request io t).1.0 ≡ rest)
  unfolding write_attach_request
  attach_request_roundtrip req s t rest v hs ht =
      let (done, sent, _) = write_flush-writes io p (encode_attach_request req) s in
      let sent' = sent ∙ ap (λ (w : List ℕ). w ++ encode_attach_request req) hs in
      let (a, b) =
        read_attach_request-reads req t rest v (ht ∙ ap (λ (w : List ℕ). w ++ rest) sent') in
      (done, ap length sent' ∙ length-encode_attach_request req v, a, b)
