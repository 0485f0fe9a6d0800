-- ===== src/Server/Closing.antt =====
-- src/server.rs: a shutdown leaves no connection open, whatever the order of its steps and those of handle_conn.
use adaptivemsg_rust.Base.{
  ℕ, ◌≡◌, ◌≢◌, refl, List, [], ◌∷◌, ◌++◌, none, true, false, ◌||◌, ◌⊎◌, inl, inr, arith, All,
  Bool-cases,
}
use adaptivemsg_rust.Server.{new, resumed, refused}
use adaptivemsg_rust.Server.Shutdown.{
  Lifecycle, track, stop, held, holds, track-held, untrack-held, just_tracked, stop-held,
}
use adaptivemsg_rust.Server.Accepting.{
  Served, Happening, attaches, ends, shuts, happens, serve, tracked,
}

abbrev pub IsOther : ℕ → Happening → Type 0
IsOther conn (attaches handle a) = Unit {0}
IsOther conn (ends c) = c ≢ conn
IsOther conn shuts = Unit {0}

-- A connection that is tracked or told to close.
abbrev Accounted : Served → ℕ → Type 0
Accounted s conn = (held s.lifecycle conn ≡ true) ⊎ (holds s.closing conn ≡ true)

holds-append : (xs ys : List ℕ) (a : ℕ) → holds (xs ++ ys) a ≡ (holds xs a || holds ys a)
holds-append [] ys a = refl
holds-append (x ∷ xs) ys a = ground (arith, holds-append xs ys a)

tracked-Accounted :
    (s : Served) (conn c : ℕ)
    → Accounted s conn
    → Accounted (tracked s c (track s.lifecycle c)) conn
tracked-Accounted s conn c (inl h) = elim (Bool-cases (track s.lifecycle c).1) [
  | inl e ↦ rw (tracked, e) (inl (track-held s.lifecycle conn c h))
  | inr e ↦ rw (tracked, e) (inl (track-held s.lifecycle conn c h))
]
tracked-Accounted s conn c (inr h) = elim (Bool-cases (track s.lifecycle c).1) [
  | inl e ↦ rw (tracked, e) (inr h)
  | inr e ↦ rw (tracked, e) (inr (ground (arith, h)))
]

attached-Accounted :
    (s : Served) (conn : ℕ) → Accounted (tracked s conn (track s.lifecycle conn)) conn
attached-Accounted s conn = elim (Bool-cases (track s.lifecycle conn).1) [
  | inl e ↦ rw (tracked, e) (inl (just_tracked s.lifecycle conn e))
  | inr e ↦ rw (tracked, e) (inr (ground arith))
]

happens-Accounted :
    (s : Served) (conn : ℕ) (h : Happening)
    → IsOther conn h
    → Accounted s conn
    → Accounted (happens s h) conn
unfolding happens
happens-Accounted s conn (attaches handle (new c)) o v = tracked-Accounted s conn c v
happens-Accounted s conn (attaches handle resumed) o v = v
happens-Accounted s conn (attaches handle refused) o (inl h) = inl h
happens-Accounted s conn (attaches handle refused) o (inr h) = inr (ground (arith, h))
happens-Accounted s conn (ends c) o (inl h) = inl (untrack-held s.lifecycle conn c o h)
happens-Accounted s conn (ends c) o (inr h) = inr h
happens-Accounted s conn shuts o (inl h) =
    inr (
      ground
        (arith, holds-append (stop s.lifecycle).1 s.closing conn, stop-held s.lifecycle conn h))
happens-Accounted s conn shuts o (inr h) =
    inr (ground (arith, holds-append (stop s.lifecycle).1 s.closing conn, h))

serve-Accounted :
    (s : Served) (conn : ℕ) (hs : List Happening)
    → All (IsOther conn) hs
    → Accounted s conn
    → Accounted (serve s hs) conn
serve-Accounted s conn [] o v = v
serve-Accounted s conn (h ∷ hs) o v =
    serve-Accounted (happens s h) conn hs o.1 (happens-Accounted s conn h o.0 v)

not_held : (l : Lifecycle) (conn : ℕ) → l.conns ≡ none → held l conn ≡ false
unfolding held
not_held l conn e = ground (arith, e)

-- A connection that `handle_conn` starts at any time, before or after the shutdown, is told to close if the server has
-- shut down in the end, unless it ended by itself in between.
pub shutdown-closes :
    (s : Served) (handle conn : ℕ) (hs : List Happening)
    → All (IsOther conn) hs
    → (serve (happens s (attaches handle (new conn))) hs).lifecycle.conns ≡ none
    → holds (serve (happens s (attaches handle (new conn))) hs).closing conn ≡ true
unfolding happens
shutdown-closes s handle conn hs o e =
    elim (serve-Accounted (happens s (attaches handle (new conn))) conn hs o
      (attached-Accounted s conn)) [
        | inr h ↦ h
        | inl h ↦ absurd (
            ground (
              arith,
              h,
              not_held (serve (happens s (attaches handle (new conn))) hs).lifecycle conn e,
            ))
      ]
