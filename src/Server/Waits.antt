-- ===== src/Server/Waits.antt =====
-- src/server.rs: the waits of the accept loop after failures.
use adaptivemsg_rust.Base.{
  ℕ, zero, suc, ◌*◌, ◌≡◌, ◌≤◌, refl, min, List, [], ◌∷◌, ◌++◌, true, false, if◌then◌else◌, arith,
  All, Bool-cases, inl, inr,
}
use adaptivemsg_rust.Server.{
  next_accept_backoff, is_peer_error, accept_retry_min_backoff, accept_retry_max_backoff,
}
use adaptivemsg_rust.Server.Accepting.{
  Accepts, Accept, signalled, accepted, failed, accept_turn, serve_with_accept, first_accept,
}

abbrev pub power : ℕ → ℕ
power zero = 1
power (suc n) = 2 * power n

-- The wait before the `n`-th retry in a row: from 5 ms, twice as long each time, up to 1 s.
abbrev pub wait_of : ℕ → ℕ
wait_of zero = 0
wait_of (suc n) = min accept_retry_max_backoff (accept_retry_min_backoff * power n)

-- The waits that the loop makes after `n` failures in a row, newest first, up to what ends it: a connection that is
-- accepted starts again from the first, and an error of the peer alone makes no wait.
abbrev pub waits_of : ℕ → List ℕ → List Accept → List ℕ
waits_of n waits [] = waits
waits_of n waits (signalled ∷ later) = waits
waits_of n waits (accepted conn ∷ later) = waits_of 0 waits later
waits_of n waits (failed e signal ∷ later) =
    if is_peer_error e
    then waits_of n waits later
    else if signal
    then wait_of (suc n) ∷ waits
    else waits_of (suc n) (wait_of (suc n) ∷ waits) later

power_positive : (n : ℕ) → 1 ≤ power n
power_positive zero = omega arith
power_positive (suc n) = omega (arith, power_positive n)

next_wait : (n : ℕ) → next_accept_backoff (wait_of n) ≡ wait_of (suc n)
unfolding next_accept_backoff
next_wait zero = refl
next_wait (suc n) = omega (arith, power_positive n)

serve-waits :
    (s : Accepts) (n : ℕ) (l : List Accept)
    → s.backoff ≡ wait_of n
    → (serve_with_accept s l).0.waits ≡ waits_of n s.waits l
unfolding accept_turn
serve-waits s n [] e = refl
serve-waits s n (signalled ∷ later) e = refl
serve-waits s n (accepted conn ∷ later) e =
    serve-waits (record s { backoff = 0; handled = s.handled ++ conn ∷ [] }) 0 later refl
serve-waits s n (failed x signal ∷ later) e = elim (Bool-cases (is_peer_error x)) [
  | inl k ↦ ground (arith, k, serve-waits s n later e)
  | inr k ↦
      let w = wait_of (suc n) in
      let s' = record s { backoff = w; waits = w ∷ s.waits } in
      ground (arith, k, e, next_wait n, serve-waits s' (suc n) later refl)
]

abbrev pub IsWait : ℕ → Type 0
IsWait w = (accept_retry_min_backoff ≤ w) × (w ≤ accept_retry_max_backoff)

wait_of-IsWait : (n : ℕ) → IsWait (wait_of (suc n))
wait_of-IsWait n = (omega (arith, power_positive n), omega arith)

waits_of-IsWait :
    (n : ℕ) (waits : List ℕ) (l : List Accept) → All IsWait waits → All IsWait (waits_of n waits l)
waits_of-IsWait n waits [] h = h
waits_of-IsWait n waits (signalled ∷ later) h = h
waits_of-IsWait n waits (accepted conn ∷ later) h = waits_of-IsWait 0 waits later h
waits_of-IsWait n waits (failed x true ∷ later) h = elim (Bool-cases (is_peer_error x)) [
  | inl k ↦ rw (waits_of, k) (waits_of-IsWait n waits later h)
  | inr k ↦ rw (waits_of, k) (wait_of-IsWait n, h)
]
waits_of-IsWait n waits (failed x false ∷ later) h = elim (Bool-cases (is_peer_error x)) [
  | inl k ↦ rw (waits_of, k) (waits_of-IsWait n waits later h)
  | inr k ↦
      rw (waits_of, k)
        (waits_of-IsWait (suc n) (wait_of (suc n) ∷ waits) later (wait_of-IsWait n, h))
]

-- Whatever the accept loop meets, the waits that it makes, newest first, are those of `waits_of`: after the `n`-th
-- failure in a row it waits 5 ms times two to the `n - 1`, at most 1 s, a connection that is accepted starts the count
-- again, and an error of the peer makes no wait. Each wait is at least 5 ms and at most 1 s.
pub serve_with_accept-waits :
    (l : List Accept)
    → ((serve_with_accept first_accept l).0.waits ≡ waits_of 0 [] l)
      × All IsWait (serve_with_accept first_accept l).0.waits
serve_with_accept-waits l =
    let e = serve-waits first_accept 0 l refl in (e, rw e (waits_of-IsWait 0 [] l tt))
