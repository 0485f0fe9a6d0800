-- ===== src/Frame/Accepted.antt =====
-- src/frame.rs: what `parse_header` accepts is what `build_header` writes.
use adaptivemsg_rust.Base.{
  ℕ, ◌+◌, ◌-◌, ◌≤◌, ◌≡◌, inl, inr, ap, sym, ◌∙◌, append-nil, List, [], ◌∷◌, ◌++◌, bit_and, length,
  All, arith, replicate,
}
use mathlib.Core.Path.{subst}
use adaptivemsg_rust.Base.Bytes.{IsByte, to_be_bytes, from_be_bytes}
use adaptivemsg_rust.Error.{ok}
use adaptivemsg_rust.Frame.RoundTrip.{header_len-cases}
use adaptivemsg_rust.Frame.{
  build_header, frame_header_len_for_version, parse_header, Header, unsupported_frame_flags,
}

to_be_bytes_4 :
    (a b c d : ℕ)
    → All IsByte (a ∷ b ∷ c ∷ d ∷ [])
    → to_be_bytes 4 (from_be_bytes (a ∷ b ∷ c ∷ d ∷ [])) ≡ a ∷ b ∷ c ∷ d ∷ []
to_be_bytes_4 a b c d v = ground arith

to_be_bytes_8 :
    (a b c d e f g h : ℕ)
    → All IsByte (a ∷ b ∷ c ∷ d ∷ e ∷ f ∷ g ∷ h ∷ [])
    → to_be_bytes 8 (from_be_bytes (a ∷ b ∷ c ∷ d ∷ e ∷ f ∷ g ∷ h ∷ []))
      ≡ a ∷ b ∷ c ∷ d ∷ e ∷ f ∷ g ∷ h ∷ []
to_be_bytes_8 a b c d e f g h v = ground arith

abbrev Rebuilt : ℕ → Header → ℕ → List ℕ → Type 0
Rebuilt version header max_frame rest =
    build_header version header.stream_id header.seq header.flags header.payload_len max_frame
    ≡ ok rest

v2_lem :
    (v flags a b c d e f g h : ℕ) (max_frame : ℕ) (header : Header)
    → All IsByte (a ∷ b ∷ c ∷ d ∷ [])
    → All IsByte (e ∷ f ∷ g ∷ h ∷ [])
    → parse_header (v ∷ flags ∷ a ∷ b ∷ c ∷ d ∷ e ∷ f ∷ g ∷ h ∷ []) 2 ≡ ok header
    → header.payload_len ≤ max_frame
    → Rebuilt 2 header max_frame (v ∷ flags ∷ a ∷ b ∷ c ∷ d ∷ e ∷ f ∷ g ∷ h ∷ replicate 8 0)
unfolding parse_header build_header
v2_lem v flags a b c d e f g h max_frame header p q eq le =
    ground (arith, to_be_bytes_4 a b c d p, to_be_bytes_4 e f g h q)

v3_lem :
    (v flags a b c d e f g h a' b' c' d' e' f' g' h' : ℕ) (max_frame : ℕ) (header : Header)
    → All IsByte (a ∷ b ∷ c ∷ d ∷ [])
    → All IsByte (e ∷ f ∷ g ∷ h ∷ [])
    → All IsByte (a' ∷ b' ∷ c' ∷ d' ∷ e' ∷ f' ∷ g' ∷ h' ∷ [])
    → parse_header
        (v ∷ flags ∷ a ∷ b ∷ c ∷ d ∷ e ∷ f ∷ g ∷ h ∷ a' ∷ b' ∷ c' ∷ d' ∷ e' ∷ f' ∷ g' ∷ h' ∷ [])
        3
      ≡ ok header
    → header.payload_len ≤ max_frame
    → Rebuilt 3 header max_frame
        (v ∷ flags ∷ a ∷ b ∷ c ∷ d ∷ e ∷ f ∷ g ∷ h ∷ a' ∷ b' ∷ c' ∷ d' ∷ e' ∷ f' ∷ g' ∷ h' ∷ [])
unfolding parse_header build_header
v3_lem v flags a b c d e f g h a' b' c' d' e' f' g' h' max_frame header p q r eq le = ground (
  arith,
  to_be_bytes_4 a b c d p,
  to_be_bytes_4 e f g h q,
  to_be_bytes_8 a' b' c' d' e' f' g' h' r,
)

-- A list of bytes by its first four, for a predicate on it.
by_four :
    (P : List ℕ → Type 0) (n : ℕ)
    → ((a b c d : ℕ) (rest : List ℕ)
        → All IsByte (a ∷ b ∷ c ∷ d ∷ [])
        → All IsByte rest
        → length rest ≡ n
        → P (a ∷ b ∷ c ∷ d ∷ rest))
    → (t : List ℕ) → length t ≡ n + 4
    → All IsByte t
    → P t
by_four P n k [] l v = absurd (omega arith)
by_four P n k (a ∷ []) l v = absurd (omega arith)
by_four P n k (a ∷ b ∷ []) l v = absurd (omega arith)
by_four P n k (a ∷ b ∷ c ∷ []) l v = absurd (omega arith)
by_four P n k (a ∷ b ∷ c ∷ d ∷ rest) l v =
    k a b c d rest (v.0, (v.1.0, (v.1.1.0, (v.1.1.1.0, tt)))) v.1.1.1.1 (omega arith)

by_none : (P : List ℕ → Type 0) → P [] → (t : List ℕ) → length t ≡ 0 → P t
by_none P k [] l = k
by_none P k (a ∷ t) l = absurd (omega arith)

v2_header :
    (v flags : ℕ) (t : List ℕ) (max_frame : ℕ) (header : Header)
    → length t ≡ 8
    → All IsByte t
    → parse_header (v ∷ flags ∷ t) 2 ≡ ok header
    → header.payload_len ≤ max_frame
    → Rebuilt 2 header max_frame (v ∷ flags ∷ t ++ replicate 8 0)
v2_header v flags t max_frame header l bytes =
    let goal : List ℕ → Type 0 = λ x.
      parse_header (v ∷ flags ∷ x) 2 ≡ ok header
      → header.payload_len ≤ max_frame
      → Rebuilt 2 header max_frame (v ∷ flags ∷ x ++ replicate 8 0) in
    by_four goal 4
      (λ a b c d rest p u m.
        by_four (λ x. goal (a ∷ b ∷ c ∷ d ∷ x)) 0
          (λ e f g h rest' q u' m'.
            by_none (λ x. goal (a ∷ b ∷ c ∷ d ∷ e ∷ f ∷ g ∷ h ∷ x))
              (v2_lem v flags a b c d e f g h max_frame header p q) rest' m')
          rest m u)
      t l bytes

v3_header :
    (v flags : ℕ) (t : List ℕ) (max_frame : ℕ) (header : Header)
    → length t ≡ 16
    → All IsByte t
    → parse_header (v ∷ flags ∷ t) 3 ≡ ok header
    → header.payload_len ≤ max_frame
    → Rebuilt 3 header max_frame (v ∷ flags ∷ t)
v3_header v flags t max_frame header l bytes =
    let goal : List ℕ → Type 0 = λ x.
      parse_header (v ∷ flags ∷ x) 3 ≡ ok header
      → header.payload_len ≤ max_frame
      → Rebuilt 3 header max_frame (v ∷ flags ∷ x) in
    by_four goal 12
      (λ a b c d r1 p u1 m1.
        by_four (λ x. goal (a ∷ b ∷ c ∷ d ∷ x)) 8
          (λ e f g h r2 q u2 m2.
            by_four (λ x. goal (a ∷ b ∷ c ∷ d ∷ e ∷ f ∷ g ∷ h ∷ x)) 4
              (λ a' b' c' d' r3 w u3 m3.
                by_four (λ x. goal (a ∷ b ∷ c ∷ d ∷ e ∷ f ∷ g ∷ h ∷ a' ∷ b' ∷ c' ∷ d' ∷ x)) 0
                  (λ e' f' g' h' r4 z u4 m4.
                    by_none
                      (λ x.
                        goal (
                          a ∷ b ∷ c ∷ d ∷ e ∷ f ∷ g ∷ h ∷ a' ∷ b' ∷ c' ∷ d' ∷ e' ∷ f' ∷ g' ∷ h'
                          ∷ x))
                      (v3_lem v flags a b c d e f g h a' b' c' d' e' f' g' h' max_frame header p q
                        (w.0, (w.1.0, (w.1.1.0, (w.1.1.1.0, z)))))
                      r4 m4)
                  r3 m3 u3)
              r2 m2 u2)
          r1 m1 u1)
      t l bytes

accepted_flags :
    (v flags version : ℕ) (t : List ℕ) (header : Header)
    → parse_header (v ∷ flags ∷ t) version ≡ ok header
    → bit_and header.flags unsupported_frame_flags ≡ 0
unfolding parse_header
accepted_flags v flags version t header e = ground arith

-- A header of the right length for its version that `parse_header` accepts has no flag but `FIN`, and it is what
-- `build_header` writes for its fields, byte for byte, up to the zeros behind a header of version 2, for each
-- frame limit that its payload length is within. So no two headers are read as the same one, and a header with
-- another version or another flag is refused.
pub build_header-parse_header :
    (version len max_frame : ℕ) (bytes : List ℕ) (header : Header)
    → frame_header_len_for_version version ≡ ok len
    → length bytes ≡ len
    → All IsByte bytes
    → parse_header bytes version ≡ ok header
    → header.payload_len ≤ max_frame
    → (bit_and header.flags unsupported_frame_flags ≡ 0)
      × (build_header version header.stream_id header.seq header.flags header.payload_len max_frame
          ≡ ok (bytes ++ replicate (18 - len) 0))
build_header-parse_header version len max_frame [] header hl n v e le =
    absurd (omega (arith, header_len-cases version hl))
build_header-parse_header version len max_frame (b ∷ []) header hl n v e le =
    absurd (omega (arith, header_len-cases version hl))
build_header-parse_header version len max_frame (b ∷ flags ∷ t) header hl n v e le =
    elim (header_len-cases version hl) [
      | inl (two, ten) ↦ (
        accepted_flags b flags version t header e,
        rw (two, ten)
            (v2_header b flags t max_frame header (omega arith) v.1.1
              (subst (λ x. parse_header (b ∷ flags ∷ t) x ≡ ok header) two e) le),
      )
      | inr (three, eighteen) ↦ (
        accepted_flags b flags version t header e,
        rw (three, eighteen)
            (v3_header b flags t max_frame header (omega arith) v.1.1
                (subst (λ x. parse_header (b ∷ flags ∷ t) x ≡ ok header) three e) le
              ∙ ap (λ x. ok (b ∷ flags ∷ x)) (sym (append-nil t))),
      )
    ]
