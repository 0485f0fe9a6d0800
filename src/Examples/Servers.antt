-- ===== src/Examples/Servers.antt =====
-- Runs of the accept loop and of the counters: src/server.rs, src/debug.rs.
use adaptivemsg_rust.Base.{arith, ◌≡◌, refl, [], ◌∷◌, none, some, true, false, All}
use adaptivemsg_rust.Error.{io, connection_reset, other}
use adaptivemsg_rust.Server.{new, is_peer_error}
use adaptivemsg_rust.Server.Shutdown.{holds}
use adaptivemsg_rust.Server.Accepting.{
  Accept, serve_with_accept, first_accept, Served, attaches, ends, shuts, happens, serve,
}
use adaptivemsg_rust.Server.Waits.{IsWait, serve_with_accept-waits}
use adaptivemsg_rust.Server.Closing.{shutdown-closes}
use adaptivemsg_rust.Debug.{snapshot, last_noted}
use adaptivemsg_rust.Debug.Counted.{written, noted, snapshot-counts}

-- Two failures, an error of a peer and a third failure, in whose wait the signal comes.
serve_with_accept-waits_example :
    ((serve_with_accept first_accept (
        Accept.failed (io other) false
        ∷ Accept.failed (io connection_reset) false
        ∷ Accept.failed (io other) true
        ∷ [])).0.waits
      ≡ 10000000 ∷ 5000000 ∷ [])
    × All IsWait
        (serve_with_accept first_accept (
          Accept.failed (io other) false
          ∷ Accept.failed (io connection_reset) false
          ∷ Accept.failed (io other) true
          ∷ [])).0.waits
unfolding is_peer_error
serve_with_accept-waits_example = serve_with_accept-waits (
    Accept.failed (io other) false
    ∷ Accept.failed (io connection_reset) false
    ∷ Accept.failed (io other) true
    ∷ [])

-- The server shuts down before connection 4 is attached.
abbrev shutting : Served
shutting = record { lifecycle = record { conns = some (2 ∷ []) }; closing = [] }

shutdown-closes_example :
    holds (serve (happens (happens shutting shuts) (attaches 4 (new 4))) (ends 2 ∷ [])).closing 4
    ≡ true
unfolding happens
shutdown-closes_example =
    shutdown-closes (happens shutting shuts) 4 4 (ends 2 ∷ []) (ground arith, tt) refl

snapshot-counts_example :
    ((snapshot (noted (written 3 12 ∷ written 4294967295 20 ∷ []))).frames_written ≡ 2)
    × ((snapshot (noted (written 3 12 ∷ written 4294967295 20 ∷ []))).bytes_written ≡ 32)
    × ((snapshot (noted (written 3 12 ∷ written 4294967295 20 ∷ []))).control_frames_written ≡ 1)
    × ((snapshot (noted (written 3 12 ∷ written 4294967295 20 ∷ []))).frames_read ≡ 0)
    × ((snapshot (noted (written 3 12 ∷ written 4294967295 20 ∷ []))).bytes_read ≡ 0)
    × ((snapshot (noted (written 3 12 ∷ written 4294967295 20 ∷ []))).control_frames_read ≡ 0)
    × (last_noted (noted (written 3 12 ∷ written 4294967295 20 ∷ [])).failure ≡ ("", "", none))
snapshot-counts_example = snapshot-counts (written 3 12 ∷ written 4294967295 20 ∷ [])
