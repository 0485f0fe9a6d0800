-- ===== src/Error.antt =====
-- src/error.rs: the library's errors, and Rust's `Result` over them.
use adaptivemsg_rust.Base.{ℕ, String, Bool, true, false, ◌≡◌, ◌≢◌, ◌⊎◌, inl, inr, refl, arith}

-- The kinds of `std::io::Error` that the code tells apart; `other` is any other kind.
pub data IoErrorKind : Type 0 where
  invalid_input unsupported connection_aborted connection_reset : IoErrorKind
  connection_refused unexpected_eof other : IoErrorKind

-- `ConnectTimeout(None)` is `connect_timeout`, `ConnectTimeout(Some(err))` is
-- `connect_timeout_after err`.
pub data Error : Type 0 where
  io : IoErrorKind → Error
  codec : String → Error
  frame_too_large : ℕ → Error
  unsupported_frame_version : ℕ → Error
  unsupported_codec : ℕ → Error
  no_common_codec : Error
  too_many_codecs : ℕ → Error
  bad_handshake_magic : Error
  unknown_message : String → Error
  compact_field_count : ℕ → ℕ → Error
  invalid_message : String → Error
  connect_timeout : Error
  connect_timeout_after : Error → Error
  recv_timeout : Error
  type_mismatch : String → String → Error
  closed : Error
  remote : String → String → Error
  handler_task_busy : Error
  concurrent_recv : Error
  unsupported_transport : String → Error
  resume_rejected : String → Error

-- `panicked` is an index out of range.
pub data Result {ℓ} (A : Type ℓ) : Type ℓ where
  ok : A → Result A
  err : Error → Result A
  panicked : Result A

infixl 5 ◌>>=◌ ◌>>◌
abbrev pub ◌>>=◌ {ℓ κ} : {A : Type ℓ} {B : Type κ} → Result A → (A → Result B) → Result B
ok a >>= f = f a
err e >>= f = err e
panicked >>= f = panicked

abbrev pub ◌>>◌ {ℓ} : {B : Type ℓ} → Result (Unit {0}) → Result B → Result B
m >> k = m >>= λ _. k

-- An early return of `e` unless the test holds.
abbrev pub require : Bool → Error → Result (Unit {0})
require true e = ok tt
require false e = err e

pub Result-cases : (r : Result (Unit {0})) → (r ≡ ok tt) ⊎ (r ≢ ok tt)
Result-cases (ok u) = inl refl
Result-cases (err e) = inr (ground arith)
Result-cases panicked = inr (ground arith)
