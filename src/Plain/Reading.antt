-- ===== src/Plain/Reading.antt =====
-- src/connection.rs: `read_frame` ends, and puts a frame together from reads of any size.
use adaptivemsg_rust.Base.{
  ℕ, zero, suc, ◌+◌, ◌-◌, ◌≡◌, ◌≢◌, ◌≤◌, ◌<◌, refl, ap, sym, ◌∙◌, List, [], ◌∷◌, ◌++◌, append_assoc,
  append-nil, some, none, ltb, length, arith, length-append, lt→ltb, le→ltb, Bool-cases, ◌⊎◌, inl,
  inr,
}
use adaptivemsg_rust.Error.{Error, Result, ok, err, panicked}
use adaptivemsg_rust.Frame.{Header}
use adaptivemsg_rust.Streaming.{Io, IsWorking}
use adaptivemsg_rust.Plain.{ConnConfig, read_payload, read_frame, parsed, after_first, after_header}

le_or_lt : (a b : ℕ) → (a ≤ b) ⊎ (b < a)
le_or_lt a b = omega arith

read-cases :
    (x : Result (List ℕ))
    → ((b : ℕ) × (bs : List ℕ) × (x ≡ ok (b ∷ bs)))
      ⊎ ((x ≡ ok []) ⊎ (((e : Error) × (x ≡ err e)) ⊎ (x ≡ panicked)))
read-cases (ok []) = inr (inl refl)
read-cases (ok (b ∷ bs)) = inl (b, bs, refl)
read-cases (err e) = inr (inr (inl (e, refl)))
read-cases panicked = inr (inr (inr refl))

module _ (io : Io) (read : ℕ → io.Reader → Result (List ℕ) × io.Reader) where
  -- A turn of the loop that reads something.
  read_payload-turn :
      (fuel payload_len : ℕ) (payload : List ℕ) (r : io.Reader) (b : ℕ) (bs : List ℕ)
      → length payload < payload_len
      → (read (payload_len - length payload) r).0 ≡ ok (b ∷ bs)
      → read_payload io read (suc fuel) payload_len payload r
        ≡ read_payload io read fuel payload_len
            (payload ++ b ∷ bs)
            (read (payload_len - length payload) r).1
  unfolding read_payload
  read_payload-turn fuel payload_len payload r b bs lt e =
      rw (read_payload, lt→ltb (length payload) payload_len lt, e) refl

  -- One that reads nothing, and the end of the loop.
  read_payload-stop :
      (fuel payload_len : ℕ) (payload : List ℕ) (r : io.Reader)
      → ((read (payload_len - length payload) r).0 ≡ ok [])
        ⊎ (((e : Error) × ((read (payload_len - length payload) r).0 ≡ err e))
            ⊎ ((read (payload_len - length payload) r).0 ≡ panicked))
      → read_payload io read (suc fuel) payload_len payload r ≢ none
  unfolding read_payload
  read_payload-stop fuel payload_len payload r n =
      elim (Bool-cases (ltb (length payload) payload_len)) [
        | inr k ↦ λ q. ground arith
        | inl k ↦ elim n [
          | inl e ↦ λ q. ground arith
          | inr (inl (x, e)) ↦ λ q. ground arith
          | inr (inr e) ↦ λ q. ground arith
        ]
      ]

  read_payload-end :
      (fuel payload_len : ℕ) (payload : List ℕ) (r : io.Reader)
      → payload_len ≤ length payload
      → read_payload io read fuel payload_len payload r ≡ some (ok payload, r)
  unfolding read_payload
  read_payload-end zero payload_len payload r le =
      rw (read_payload, le→ltb (length payload) payload_len le) refl
  read_payload-end (suc fuel) payload_len payload r le =
      rw (read_payload, le→ltb (length payload) payload_len le) refl

  read_payload-ends :
      (fuel payload_len : ℕ) (payload : List ℕ) (r : io.Reader)
      → payload_len ≤ length payload + fuel
      → read_payload io read fuel payload_len payload r ≢ none
  read_payload-ends zero payload_len payload r le =
      λ e. cc (read_payload-end zero payload_len payload r (omega arith), e)
  read_payload-ends (suc fuel) payload_len payload r le =
      elim (le_or_lt payload_len (length payload)) [
        | inl k ↦ λ e. cc (read_payload-end (suc fuel) payload_len payload r k, e)
        | inr k ↦ elim (read-cases (read (payload_len - length payload) r).0) [
          | inr n ↦ read_payload-stop fuel payload_len payload r n
          | inl (b, bs, e) ↦ λ q.
              read_payload-ends fuel payload_len (payload ++ b ∷ bs)
                (read (payload_len - length payload) r).1
                (omega (arith, length-append payload (b ∷ bs)))
                (sym (read_payload-turn fuel payload_len payload r b bs k e) ∙ q)
        ]
      ]

-- Tokio's `read` on a transport that works: at least one byte of those on the way and at most as many as asked
-- for, or none if there are none.
pub record IsReading (io : Io) (p : IsWorking io)
    (read : ℕ → io.Reader → Result (List ℕ) × io.Reader) : Type 0 where
  pub bytes : ℕ → io.Reader → List ℕ
  pub read_lem :
      (n : ℕ) (r : io.Reader)
      → 0 < n
      → ((read n r).0 ≡ ok (bytes n r))
        × (p.pending r ≡ bytes n r ++ p.pending (read n r).1)
        × (length (bytes n r) ≤ n)
        × (bytes n r ≡ [] → p.pending r ≡ [])

-- A list that begins with two others begins with the longer one.
common_prefix :
    (bs p more later : List ℕ)
    → bs ++ p ≡ more ++ later
    → length bs ≤ length more
    → (more' : List ℕ) × (more ≡ bs ++ more') × (p ≡ more' ++ later)
common_prefix [] p more later e le = (more, refl, e)
common_prefix (b ∷ bs) p [] later e le = absurd (omega arith)
common_prefix (b ∷ bs) p (m ∷ more) later e le =
    let (more', f, g) = common_prefix bs p more later (cc e) (omega arith) in (more', cc (e, f), g)

module _ (io : Io) (read : ℕ → io.Reader → Result (List ℕ) × io.Reader) where
  after_header-ends :
      (config : ConnConfig) (h : Result Header × io.Reader) → after_header io read config h ≢ none
  after_header-ends config (err e, r) = λ q. cc
  after_header-ends config (panicked, r) = λ q. cc
  after_header-ends config (ok h, r) =
      λ q. ground (arith, read_payload-ends io read h.payload_len h.payload_len [] r (omega arith))

  after_first-ends :
      (config : ConnConfig) (first : Result (List ℕ) × io.Reader)
      → after_first io read config first ≢ none
  after_first-ends config (err e, r) = λ q. cc
  after_first-ends config (panicked, r) = λ q. cc
  after_first-ends config (ok [], r) = λ q. cc
  after_first-ends config (ok (b ∷ bs), r) =
      let (rest, r') = io.read_exact (config.header_len - length (b ∷ bs)) r in
      after_header-ends config (parsed config (b ∷ bs) rest, r')

  -- `read_frame` returns on every transport, whatever its reads give: the loop over the payload takes at most
  -- one turn for each byte of it.
  pub read_frame-ends : (config : ConnConfig) (r : io.Reader) → read_frame io read config r ≢ none
  unfolding read_frame
  read_frame-ends config r = after_first-ends config (read config.header_len r)

no_bytes : (more later : List ℕ) → 0 < length more → more ++ later ≢ []
no_bytes [] later pos = λ e. omega arith
no_bytes (m ∷ more) later pos = λ e. cc

List-cases : (l : List ℕ) → (l ≡ []) ⊎ ((b : ℕ) × (bs : List ℕ) × (l ≡ b ∷ bs))
List-cases [] = inl refl
List-cases (b ∷ bs) = inr (b, bs, refl)

module _ {io : Io} (p : IsWorking io) {read : ℕ → io.Reader → Result (List ℕ) × io.Reader}
    (v : IsReading io p read) where
  -- A read gives the first bytes of those on the way.
  pub first_read :
      (n : ℕ) (more later : List ℕ) (r : io.Reader)
      → 0 < length more
      → length more ≡ n
      → p.pending r ≡ more ++ later
      → (b : ℕ) × (bs : List ℕ) × (more' : List ℕ) × ((read n r).0 ≡ ok (b ∷ bs))
        × (more ≡ (b ∷ bs) ++ more')
        × (p.pending (read n r).1 ≡ more' ++ later)
  first_read n more later r pos le e =
      let (k, f, g, h) = v.read_lem n r (omega arith) in
      elim (List-cases (v.bytes n r)) [
        | inl z ↦ absurd (no_bytes more later pos (sym e ∙ h z))
        | inr (b, bs, z) ↦
            let (more', q, u) =
              common_prefix (b ∷ bs) (p.pending (read n r).1) more later
                (ap (λ l. l ++ p.pending (read n r).1) (sym z) ∙ sym f ∙ e)
                (omega (arith, g, le, ap length z)) in
            (b, bs, more', k ∙ ap ok z, q, u)
      ]

  longer :
      (fuel payload_len : ℕ) (payload more more' : List ℕ) (b : ℕ) (bs : List ℕ) (r r' : io.Reader)
      → length payload < payload_len
      → (read (payload_len - length payload) r).0 ≡ ok (b ∷ bs)
      → more ≡ (b ∷ bs) ++ more'
      → read_payload io read fuel payload_len
          (payload ++ b ∷ bs)
          (read (payload_len - length payload) r).1
        ≡ some (ok ((payload ++ b ∷ bs) ++ more'), r')
      → read_payload io read (suc fuel) payload_len payload r ≡ some (ok (payload ++ more), r')
  longer fuel payload_len payload more more' b bs r r' lt k f h =
      rw (f, ← append_assoc payload (b ∷ bs) more')
        (read_payload-turn io read fuel payload_len payload r b bs lt k ∙ h)

  pub read_payload-fills :
      (fuel payload_len : ℕ) (payload more later : List ℕ) (r : io.Reader)
      → length more ≤ fuel
      → payload_len ≡ length payload + length more
      → p.pending r ≡ more ++ later
      → (r' : io.Reader) × (read_payload io read fuel payload_len payload r
          ≡ some (ok (payload ++ more), r'))
        × (p.pending r' ≡ later)
  read_payload-fills fuel payload_len payload [] later r le n e = (
    r,
    rw (append-nil payload) (read_payload-end io read fuel payload_len payload r (omega arith)),
    e,
  )
  read_payload-fills zero payload_len payload (m ∷ more) later r le n e = absurd (omega arith)
  read_payload-fills (suc fuel) payload_len payload (m ∷ more) later r le n e =
      let n' = payload_len - length payload in
      let (b, bs, more', k, f, g) =
        first_read n' (m ∷ more) later r (omega arith) (omega arith) e in
      let len = ap length f ∙ length-append (b ∷ bs) more' in
      let (r', h, q) =
        read_payload-fills fuel payload_len (payload ++ b ∷ bs) more' later (read n' r).1
          (omega (arith, len)) (omega (arith, len, length-append payload (b ∷ bs))) g in
      (r', longer fuel payload_len payload (m ∷ more) more' b bs r r' (omega (arith)) k f h, q)
