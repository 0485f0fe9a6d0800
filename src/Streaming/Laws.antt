-- ===== src/Streaming/Laws.antt =====
-- What tasks do over a working transport.
use adaptivemsg_rust.Base.{ℕ, List, ◌++◌, ◌≡◌, refl, length, arith}
use adaptivemsg_rust.Error.{ok}
use adaptivemsg_rust.Streaming.{Io, IsWorking, Streams, read_exact, write_all, flush, ◌>>◌}

module _ (io : Io) (p : IsWorking io) where
  open p use {pending, written, read_exact_lem, write_all_lem, flush_lem}

  -- A write: the task succeeds and appends to what is written; the reader is as before.
  pub write_all-writes :
      (bs : List ℕ) (s : Streams io)
      → ((write_all io bs s).0 ≡ ok tt)
        × (written (write_all io bs s).1.1 ≡ written s.1 ++ bs)
        × ((write_all io bs s).1.0 ≡ s.0)
  unfolding write_all
  write_all-writes bs s = let (a, b) = write_all_lem s.1 bs in (a, b, refl)

  pub flush-writes :
      (s : Streams io)
      → ((flush io s).0 ≡ ok tt)
        × (written (flush io s).1.1 ≡ written s.1)
        × ((flush io s).1.0 ≡ s.0)
  unfolding flush
  flush-writes s = let (a, b) = flush_lem s.1 in (a, b, refl)

  pub write_flush-writes :
      (bs : List ℕ) (s : Streams io)
      → (((write_all io bs >> flush io) s).0 ≡ ok tt)
        × (written ((write_all io bs >> flush io) s).1.1 ≡ written s.1 ++ bs)
        × (((write_all io bs >> flush io) s).1.0 ≡ s.0)
  write_flush-writes bs s =
      ground (arith, write_all-writes bs s, flush-writes (write_all io bs s).1)

  pub read_exact-reads :
      (n : ℕ) (bs rest : List ℕ) (s : Streams io)
      → length bs ≡ n
      → pending s.0 ≡ bs ++ rest
      → ((read_exact io n s).0 ≡ ok bs)
        × (pending (read_exact io n s).1.0 ≡ rest)
        × ((read_exact io n s).1.1 ≡ s.1)
  unfolding read_exact
  read_exact-reads n bs rest s h e =
      rw (← h) (let (a, b) = read_exact_lem s.0 bs rest e in (a, b, refl))
