-- ===== src/Streaming/Pipe.antt =====
-- Byte lists as a working transport.
use adaptivemsg_rust.Base.{
  ℕ, List, [], ◌++◌, ◌≡◌, refl, length, leb, if◌then◌else◌, take, drop, take-append, drop-append,
  length-append, arith,
}
use adaptivemsg_rust.Error.{Result, ok, err, io, unexpected_eof}
use adaptivemsg_rust.Streaming.{Io, IsWorking}

abbrev pub take_exact : ℕ → List ℕ → Result (List ℕ) × List ℕ
take_exact n bs =
    if leb n (length bs) then (ok (take n bs), drop n bs) else (err (io unexpected_eof), [])

abbrev pub pipe : Io
pipe = record {
  Reader = List ℕ;
  Writer = List ℕ;
  read_exact = take_exact;
  write_all = λ bs w. (ok tt, w ++ bs);
  flush = λ w. (ok tt, w);
}

pub take_exact_lem :
    (r bs rest : List ℕ)
    → r ≡ bs ++ rest
    → (take_exact (length bs) r).0 ≡ ok bs × ((take_exact (length bs) r).1 ≡ rest)
take_exact_lem r bs rest e =
    ground (arith, take-append bs rest, drop-append bs rest, length-append bs rest)

unfoldable pub pipe-IsWorking : IsWorking pipe
pipe-IsWorking = record {
  pending = λ r. r;
  written = λ w. w;
  read_exact_lem = take_exact_lem;
  write_all_lem = λ w bs. (refl, refl);
  flush_lem = λ w. (refl, refl);
}
