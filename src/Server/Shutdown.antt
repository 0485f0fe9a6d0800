-- ===== src/Server/Shutdown.antt =====
-- src/server.rs: the connections that a shutdown closes (Lifecycle).
use adaptivemsg_rust.Base.{
  ℕ, Bool-cases, Option-cases, inl, inr, ◌≡◌, ◌≢◌, refl, List, [], ◌∷◌, Option, some, none, Bool,
  true, false, ◌==◌, if◌then◌else◌, arith, All, any,
}

-- A connection is known by its address.
pub record Lifecycle : Type 0 where
  pub conns : Option (List ℕ)

abbrev pub new_lifecycle : Lifecycle
new_lifecycle = record { conns = some [] }

abbrev pub remove : List ℕ → ℕ → List ℕ
remove [] a = []
remove (x ∷ xs) a = if x == a then remove xs a else x ∷ remove xs a

unfoldable pub track : Lifecycle → ℕ → Lifecycle × Bool
track l conn = elim l.conns [
  | none ↦ (l, false)
  | some conns ↦ (record { conns = some (conn ∷ remove conns conn) }, true)
]

unfoldable pub untrack : Lifecycle → ℕ → Lifecycle
untrack l conn = elim l.conns [
  | none ↦ l
  | some conns ↦ record { conns = some (remove conns conn) }
]

unfoldable pub stop : Lifecycle → Lifecycle × List ℕ
stop l = (record { conns = none }, elim l.conns [ none ↦ [] | some conns ↦ conns ])

pub data Event : Type 0 where
  tracked untracked : ℕ → Event

abbrev pub run : Lifecycle → List Event → Lifecycle
run l [] = l
run l (tracked c ∷ es) = run (track l c).0 es
run l (untracked c ∷ es) = run (untrack l c) es

abbrev pub IsOther : ℕ → Event → Type 0
IsOther conn (tracked c) = Unit {0}
IsOther conn (untracked c) = c ≢ conn

abbrev pub holds : List ℕ → ℕ → Bool
holds xs a = any (λ x. x == a) xs

remove-other : (xs : List ℕ) (a b : ℕ) → b ≢ a → holds xs a ≡ true → holds (remove xs b) a ≡ true
remove-other [] a b d h = h
remove-other (x ∷ xs) a b d h = ground (arith, remove-other xs a b d)

unfoldable pub held : Lifecycle → ℕ → Bool
held l a = elim l.conns [ none ↦ false | some xs ↦ holds xs a ]

held_remove :
    (l : Lifecycle) (a c : ℕ)
    → c ≢ a
    → held l a ≡ true
    → (xs : List ℕ) × (l.conns ≡ some xs) × (holds (remove xs c) a ≡ true)
unfolding held
held_remove l a c d h = elim (Option-cases l.conns) [
  | inl e ↦ ground arith
  | inr (xs, e) ↦ (xs, e, remove-other xs a c d (ground arith))
]

pub track-held : (l : Lifecycle) (a c : ℕ) → held l a ≡ true → held (track l c).0 a ≡ true
unfolding held track
track-held l a c h = elim (Bool-cases (c == a)) [
  | inl e ↦ ground arith
  | inr e ↦ ground (arith, held_remove l a c)
]

pub untrack-held : (l : Lifecycle) (a c : ℕ) → c ≢ a → held l a ≡ true → held (untrack l c) a ≡ true
unfolding held untrack
untrack-held l a c d h = ground (arith, held_remove l a c)

run-held :
    (l : Lifecycle) (a : ℕ) (es : List Event)
    → All (IsOther a) es
    → held l a ≡ true
    → held (run l es) a ≡ true
run-held l a [] o h = h
run-held l a (tracked c ∷ es) o h = run-held (track l c).0 a es o.1 (track-held l a c h)
run-held l a (untracked c ∷ es) o h = run-held (untrack l c) a es o.1 (untrack-held l a c o.0 h)

pub just_tracked : (l : Lifecycle) (a : ℕ) → (track l a).1 ≡ true → held (track l a).0 a ≡ true
unfolding held track
just_tracked l a t = ground arith

pub stop-held : (l : Lifecycle) (a : ℕ) → held l a ≡ true → holds (stop l).1 a ≡ true
unfolding held stop
stop-held l a h = ground arith

-- The shutdown closes a connection that was tracked before it, unless the connection was untracked
-- since. Once it has begun, `track` refuses every connection.
pub stop-track :
    (l : Lifecycle) (conn : ℕ) (es : List Event)
    → (track l conn).1 ≡ true
    → All (IsOther conn) es
    → (holds (stop (run (track l conn).0 es)).1 conn ≡ true)
      × ((c : ℕ) → (track (stop (run (track l conn).0 es)).0 c).1 ≡ false)
unfolding track stop
stop-track l conn es t o = (
  stop-held (run (track l conn).0 es) conn
      (run-held (track l conn).0 conn es o (just_tracked l conn t)),
  λ c. refl,
)
