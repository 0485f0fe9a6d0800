-- ===== src/Reader/Within.antt =====
-- src/recovery_runtime.rs: `read_frame_within`, the wait for a frame of a recoverable connection.
--
-- A wake is the clock's time at which the task runs, and what the read has by then. `deadline` is the time
-- that the sleep is armed for, which is over from then on; it outlives the read.
use adaptivemsg_rust.Base.{
  ℕ, ◌+◌, ◌≡◌, ◌≤◌, refl, List, [], ◌∷◌, Option, some, none, Bool, leb, ◌==◌, ◌&&◌, not,
  if◌then◌else◌, arith,
}
use adaptivemsg_rust.Error.{Result, err, recv_timeout}

-- The result, if there is one after these wakes, and the deadline then.
unfoldable pub read_frame_within {ℓ} :
    {F : Type ℓ} → ℕ → ℕ → ℕ → List (ℕ × Option (Result F)) → Option (Result F) × ℕ
read_frame_within timeout read_started deadline [] = (none, deadline)
read_frame_within timeout read_started deadline ((now, some frame) ∷ wakes) = (some frame, deadline)
read_frame_within timeout read_started deadline ((now, none) ∷ wakes) =
    let expires : ℕ = read_started + timeout in
    let fired : Bool = leb deadline now && not (timeout == 0) in
    let rearmed = read_frame_within timeout read_started expires wakes in
    let waiting = read_frame_within timeout read_started deadline wakes in
    if fired
    then (if leb expires now then (some (err recv_timeout), deadline) else rearmed)
    else waiting

-- A read with a deadline of its own, armed when it starts.
unfoldable pub read_by_deadline {ℓ} :
    {F : Type ℓ} → ℕ → ℕ → List (ℕ × Option (Result F)) → Option (Result F)
read_by_deadline timeout read_started [] = none
read_by_deadline timeout read_started ((now, some frame) ∷ wakes) = some frame
read_by_deadline timeout read_started ((now, none) ∷ wakes) =
    let waiting = read_by_deadline timeout read_started wakes in
    if leb (read_started + timeout) now && not (timeout == 0)
    then some (err recv_timeout)
    else waiting

-- If the deadline left by earlier reads is not later than that of this read, then the read ends as with a
-- deadline of its own, at the same wake, and the deadline it leaves is not later than that of a read that
-- starts at or after it.
pub read_frame_within-by_deadline {ℓ} :
    {F : Type ℓ} (timeout read_started deadline : ℕ) (wakes : List (ℕ × Option (Result F)))
    (next_started : ℕ)
    → deadline ≤ read_started + timeout
    → read_started ≤ next_started
    → ((read_frame_within timeout read_started deadline wakes).0
        ≡ read_by_deadline timeout read_started wakes)
      × ((read_frame_within timeout read_started deadline wakes).1 ≤ next_started + timeout)
unfolding read_frame_within read_by_deadline
read_frame_within-by_deadline timeout read_started deadline [] next_started le later =
    (refl, omega arith)
read_frame_within-by_deadline timeout read_started deadline ((now, some frame) ∷ wakes) next_started
      le later =
    (refl, omega arith)
read_frame_within-by_deadline timeout read_started deadline ((now, none) ∷ wakes) next_started le
      later =
    let re =
      read_frame_within-by_deadline timeout read_started (read_started + timeout) wakes next_started
        (omega arith) later in
    let wait =
      read_frame_within-by_deadline timeout read_started deadline wakes next_started le later in
    (ground (arith, re.0, wait.0), ground (arith, re.1, wait.1))
