-- ===== src/Base/Bytes.antt =====
-- Big-endian integers as byte lists (`to_be_bytes` and `from_be_bytes`).
use Prim.Native.Nat.{ℕ, zero, suc, ◌+◌, ◌*◌, ◌/◌, ◌%◌, ◌^◌, ◌<◌}
use mathlib.Core.Path.{◌≡◌, refl, ap}
use mathlib.Core.List.{List, [], ◌∷◌}
use native.Mathlib.Omega.{arith}
use adaptivemsg_rust.Base.Lists.{length}

abbrev pub IsByte : ℕ → Type 0
IsByte b = b < 256

abbrev pub IsU16 : ℕ → Type 0
IsU16 v = v < 2 ^ 16

abbrev pub IsU32 : ℕ → Type 0
IsU32 v = v < 2 ^ 32

abbrev pub IsU64 : ℕ → Type 0
IsU64 v = v < 2 ^ 64

abbrev pub to_be_bytes : ℕ → ℕ → List ℕ
to_be_bytes zero v = []
to_be_bytes (suc k) v = (v / 256 ^ k % 256) ∷ to_be_bytes k v

abbrev pub from_be_bytes : List ℕ → ℕ
from_be_bytes [] = 0
from_be_bytes (b ∷ bs) = b * 256 ^ length bs + from_be_bytes bs

pub length-to_be_bytes : (k v : ℕ) → length (to_be_bytes k v) ≡ k
length-to_be_bytes zero v = refl
length-to_be_bytes (suc k) v = ap suc (length-to_be_bytes k v)

pub from_be_bytes-u32 : (v : ℕ) → IsU32 v → from_be_bytes (to_be_bytes 4 v) ≡ v
from_be_bytes-u32 v h = omega arith

pub from_be_bytes-u64 : (v : ℕ) → IsU64 v → from_be_bytes (to_be_bytes 8 v) ≡ v
from_be_bytes-u64 v h = omega arith
