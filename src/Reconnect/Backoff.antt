-- ===== src/Reconnect/Backoff.antt =====
-- src/recovery_runtime.rs: the waits between resume attempts, and when the attempts end.
use adaptivemsg_rust.Base.{
  ℕ, zero, suc, ◌≡◌, ◌*◌, refl, min, max, List, [], ◌∷◌, ◌++◌, Option, some, none, Bool, true,
  false, arith, All, length,
}
use adaptivemsg_rust.Error.{Error}
use adaptivemsg_rust.Recovery.{RecoveryState}
use adaptivemsg_rust.Reconnect.{is_terminal, attached, rejected, retry, reconnect_until_attached}

-- The waits after `n` failures.
abbrev pub backoffs : ℕ → ℕ → ℕ → List ℕ
backoffs b m zero = []
backoffs b m (suc n) = b ∷ backoffs (min (b * 2) m) m n

abbrev pub failures : List Error → List (Option (Error × Bool))
failures [] = []
failures (e ∷ es) = some (e, false) ∷ failures es

abbrev pub IsTransient : Error → Type 0
IsTransient e = is_terminal e ≡ false

retry-failures :
    (b m : ℕ) (es : List Error) (rest : List (Option (Error × Bool)))
    → All IsTransient es
    → retry b m (failures es ++ none ∷ rest) ≡ (attached, backoffs b m (length es))
retry-failures b m [] rest h = refl
retry-failures b m (e ∷ es) rest h = ground (arith, retry-failures (min (b * 2) m) m es rest h.1)

retry-rejected :
    (b m : ℕ) (es : List Error) (e : Error) (closes : Bool) (rest : List (Option (Error × Bool)))
    → All IsTransient es
    → is_terminal e ≡ true
    → retry b m (failures es ++ some (e, closes) ∷ rest) ≡ (rejected, backoffs b m (length es))
retry-rejected b m [] e closes rest h k = ground arith
retry-rejected b m (x ∷ es) e closes rest h k =
    ground (arith, retry-rejected (min (b * 2) m) m es e closes rest h.1 k)

-- While the connection stays open, the attempts go on until one attaches or is rejected for good,
-- whatever transient errors come first, and the waits in between double from the least up to the
-- greatest.
pub reconnect_until_attached_lem :
    (r : RecoveryState) (es : List Error) (e : Error) (closes : Bool)
    (rest : List (Option (Error × Bool)))
    → All IsTransient es
    → is_terminal e ≡ true
    → let ws =
        backoffs r.reconnect_min_backoff
          (max r.reconnect_max_backoff r.reconnect_min_backoff)
          (length es) in
      (reconnect_until_attached r false (failures es ++ none ∷ rest) ≡ (attached, ws))
      × (reconnect_until_attached r false (failures es ++ some (e, closes) ∷ rest) ≡ (rejected, ws))
unfolding reconnect_until_attached
reconnect_until_attached_lem r es e closes rest h k = (
  retry-failures r.reconnect_min_backoff (max r.reconnect_max_backoff r.reconnect_min_backoff) es
      rest h,
  retry-rejected r.reconnect_min_backoff (max r.reconnect_max_backoff r.reconnect_min_backoff) es e
      closes rest h k,
)
