-- ===== src/Streaming.antt =====
-- The byte streams that the code reads and writes (tokio's `AsyncRead` and `AsyncWrite`), which are
-- not part of the repository: an interface, and what a working transport does. A task over them is a
-- function from its state to a result and the new state.
pub mod Pipe
pub mod Laws
use adaptivemsg_rust.Base.{ℕ, List, ◌++◌, ◌≡◌, length}
use adaptivemsg_rust.Error.{Result, ok, err, panicked, Error, require}

abbrev pub Task : Type 0 → Type 0 → Type 0
Task S A = S → Result A × S

infixl 5 ◌>>=◌ ◌>>◌
abbrev pub ◌>>=◌ : {S A B : Type 0} → Task S A → (A → Task S B) → Task S B
◌>>=◌ m f s = elim (m s).0 [
  | ok a ↦ f a (m s).1
  | err e ↦ (err e, (m s).1)
  | panicked ↦ (panicked, (m s).1)
]

abbrev pub ◌>>◌ : {S B : Type 0} → Task S (Unit {0}) → Task S B → Task S B
m >> k = m >>= λ _. k

-- A step that leaves the streams alone.
abbrev pub lift : {S A : Type 0} → Result A → Task S A
lift r s = (r, s)

pub record Io : Type 1 where
  pub Reader : Type 0
  pub Writer : Type 0
  pub read_exact : ℕ → Reader → Result (List ℕ) × Reader
  pub write_all : List ℕ → Writer → Result (Unit {0}) × Writer
  pub flush : Writer → Result (Unit {0}) × Writer

-- A transport that works: `read_exact` returns the bytes that are on the way, and `write_all` and
-- `flush` succeed.
pub record IsWorking (io : Io) : Type 1 where
  pub pending : io.Reader → List ℕ
  pub written : io.Writer → List ℕ
  pub read_exact_lem :
      (r : io.Reader) (bs rest : List ℕ)
      → pending r ≡ bs ++ rest
      → ((io.read_exact (length bs) r).0 ≡ ok bs) × (pending (io.read_exact (length bs) r).1 ≡ rest)
  pub write_all_lem :
      (w : io.Writer) (bs : List ℕ)
      → ((io.write_all bs w).0 ≡ ok tt) × (written (io.write_all bs w).1 ≡ written w ++ bs)
  pub flush_lem : (w : io.Writer) → ((io.flush w).0 ≡ ok tt) × (written (io.flush w).1 ≡ written w)

module _ (io : Io) where
  abbrev pub Streams : Type 0
  Streams = io.Reader × io.Writer

  unfoldable pub read_exact : ℕ → Task Streams (List ℕ)
  read_exact n s = let (res, r) = io.read_exact n s.0 in (res, (r, s.1))

  unfoldable pub write_all : List ℕ → Task Streams (Unit {0})
  write_all bs s = let (res, w) = io.write_all bs s.1 in (res, (s.0, w))

  unfoldable pub flush : Task Streams (Unit {0})
  flush s = let (res, w) = io.flush s.1 in (res, (s.0, w))
