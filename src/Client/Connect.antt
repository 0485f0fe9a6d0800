-- ===== src/Client/Connect.antt =====
-- src/client.rs: which version a client connects with, and its retries.
use adaptivemsg_rust.Base.{
  ℕ, ◌≡◌, ◌≢◌, ◌*◌, ◌⊎◌, refl, ap, min, List, [], ◌∷◌, ◌++◌, Option, some, none, true, false, arith,
}
use adaptivemsg_rust.Error.{
  Error, connect_timeout, connect_timeout_after, unsupported_frame_version,
}
use adaptivemsg_rust.Frame.{protocol_version_v2, protocol_version_v3}
use adaptivemsg_rust.Client.{
  Attempt, connected, failed, dial, other, Connected, done, gave_up, connect_attempt, connect_with,
  connect_loop, connect_retry_max_backoff, connect_retry_min_backoff, after_wait,
}

-- A client with recovery connects with version 3 alone, unless the server answers that it supports version
-- 2; then the outcome is that of version 2. A client without recovery connects with version 2.
pub connect_attempt_lem :
    (connect : ℕ → Attempt)
    → (connect_attempt connect false ≡ connect protocol_version_v2)
      × ((connect protocol_version_v3
              ≢ failed (other (unsupported_frame_version protocol_version_v2)))
            × (connect_attempt connect true ≡ connect protocol_version_v3)
          ⊎ (connect protocol_version_v3
              ≡ failed (other (unsupported_frame_version protocol_version_v2)))
            × (connect_attempt connect true ≡ connect protocol_version_v2))
unfolding connect_attempt
connect_attempt_lem connect = (ground arith, ground arith)

-- The attempts that failed to dial, with the time that was left after each.
abbrev pub refusals : List (Error × ℕ) → List (Attempt × ℕ)
refusals [] = []
refusals ((e, remaining) ∷ es) = (failed (dial e), remaining) ∷ refusals es

-- The waits after those attempts: doubled each time, up to two seconds and the time that is left.
abbrev pub waits : ℕ → List (Error × ℕ) → List ℕ
waits backoff [] = []
waits backoff ((e, remaining) ∷ es) =
    min backoff remaining ∷ waits (min (backoff * 2) connect_retry_max_backoff) es

-- The error of the last of them.
abbrev pub last_error : Error → List (Error × ℕ) → Error
last_error d [] = d
last_error d ((e, remaining) ∷ es) = last_error e es

loop-connected :
    (b : ℕ) (last : Option Error) (es : List (Error × ℕ)) (c : Connected) (remaining : ℕ)
    (rest : List (Attempt × ℕ))
    → connect_loop true b last (refusals es ++ (connected c, remaining) ∷ rest)
      ≡ (done c, waits b es)
loop-connected b last [] c remaining rest = refl
loop-connected b last ((e, left) ∷ es) c remaining rest =
    ap (after_wait (min b left))
      (loop-connected (min (b * 2) connect_retry_max_backoff) (some e) es c remaining rest)

loop-timeout :
    (b : ℕ) (e : Error) (es : List (Error × ℕ)) (remaining : ℕ) (rest : List (Attempt × ℕ))
    → connect_loop true b
        (some e)
        (refusals es ++ (failed (other connect_timeout), remaining) ∷ rest)
      ≡ (gave_up (connect_timeout_after (last_error e es)), waits b es)
loop-timeout b e [] remaining rest = refl
loop-timeout b e ((e', left) ∷ es) remaining rest =
    ap (after_wait (min b left))
      (loop-timeout (min (b * 2) connect_retry_max_backoff) e' es remaining rest)

-- With a connect timeout, a server that refuses and then accepts is connected to. If the timeout passes
-- instead, the error holds that of the last dial. The waits double from 0.1 s up to 2 s and are no longer
-- than the time that is left.
pub connect_with-retries :
    (e : Error) (left : ℕ) (es : List (Error × ℕ)) (c : Connected) (remaining : ℕ)
    (rest : List (Attempt × ℕ))
    → (connect_with true (refusals ((e, left) ∷ es) ++ (connected c, remaining) ∷ rest)
        ≡ (done c, waits connect_retry_min_backoff ((e, left) ∷ es)))
      × (connect_with true
            (refusals ((e, left) ∷ es) ++ (failed (other connect_timeout), remaining) ∷ rest)
          ≡ (
            gave_up (connect_timeout_after (last_error e es)),
            waits connect_retry_min_backoff ((e, left) ∷ es),
          ))
unfolding connect_with
connect_with-retries e left es c remaining rest = (
  loop-connected connect_retry_min_backoff none ((e, left) ∷ es) c remaining rest,
  ap (after_wait (min connect_retry_min_backoff left))
      (loop-timeout (connect_retry_min_backoff * 2) e es remaining rest),
)
