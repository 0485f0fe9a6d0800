-- ===== src/Protocol/Select.antt =====
-- The choice of codec and frame limit in the handshake.
use adaptivemsg_rust.Base.{
  ℕ, ◌≡◌, ◌≢◌, ◌≤◌, refl, min, List, [], ◌∷◌, Option, some, none, Bool, true, if◌then◌else◌, length,
  arith,
}
use adaptivemsg_rust.Error.{ok}
use adaptivemsg_rust.Protocol.{
  contains_codec, find_supported, select_codec, negotiate_max_frame, validate_codecs,
  validate_codec_list, max_codec_count,
}

-- The frame limit of a connection is the smaller of both sides' values.
pub negotiate_max_frame-min :
    (client_max server_max : ℕ)
    → negotiate_max_frame client_max server_max ≡ min client_max server_max
unfolding negotiate_max_frame
negotiate_max_frame-min client_max server_max = ground arith

-- The first of the client's codecs that the server supports.
abbrev pub first_common : List ℕ → List ℕ → Option ℕ
first_common [] supported = none
first_common (c ∷ cs) supported =
    if contains_codec supported c then some c else first_common cs supported

find_supported-contains :
    (raw : ℕ) (supported : List ℕ)
    → find_supported raw supported ≡ (if contains_codec supported raw then some raw else none)
unfolding find_supported contains_codec
find_supported-contains raw [] = refl
find_supported-contains raw (sup ∷ supported) =
    ground (arith, find_supported-contains raw supported)

-- `select_codec` takes the client's first codec that the server supports, in the client's order of
-- preference, and nothing if there is none.
pub select_codec-first_common :
    (client_codecs supported : List ℕ)
    → select_codec client_codecs supported ≡ first_common client_codecs supported
unfolding select_codec
select_codec-first_common [] supported = refl
select_codec-first_common (raw ∷ cs) supported =
    ground (arith, find_supported-contains raw supported, select_codec-first_common cs supported)

pub first_common-contains :
    (client_codecs supported : List ℕ) (c : ℕ)
    → first_common client_codecs supported ≡ some c
    → (contains_codec client_codecs c ≡ true) × (contains_codec supported c ≡ true)
unfolding contains_codec
first_common-contains [] supported c h = cc
first_common-contains (x ∷ cs) supported c h = ground (arith, first_common-contains cs supported c)

pub validate_codecs-registered :
    (registered : ℕ → Bool) (codecs : List ℕ) (c : ℕ)
    → validate_codecs registered codecs ≡ ok tt
    → contains_codec codecs c ≡ true
    → (registered c ≡ true) × (c ≢ 0)
unfolding validate_codecs contains_codec
validate_codecs-registered registered [] c h k = cc
validate_codecs-registered registered (x ∷ cs) c h k =
    ground (arith, validate_codecs-registered registered cs c)

-- An accepted codec list has 1 to 16 codecs, and each of them is registered and not zero.
pub validate_codec_list_lem :
    (registered : ℕ → Bool) (codecs : List ℕ)
    → validate_codec_list registered codecs ≡ ok tt
    → (1 ≤ length codecs)
      × (length codecs ≤ max_codec_count)
      × ((c : ℕ) → contains_codec codecs c ≡ true → (registered c ≡ true) × (c ≢ 0))
unfolding validate_codec_list
validate_codec_list_lem registered [] h = cc
validate_codec_list_lem registered (x ∷ cs) h = (
  omega arith,
  ground arith,
  λ c k. validate_codecs-registered registered (x ∷ cs) c (ground arith) k,
)
