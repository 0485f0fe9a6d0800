-- ===== src/Transport/Generation.antt =====
-- Generations: a connection has one current transport, and only an event of that transport acts on it.
use adaptivemsg_rust.Base.{
  ℕ, suc, ◌+◌, ◌^◌, ◌≡◌, ◌<◌, ◌≤◌, ap, ◌∙◌, List, [], ◌∷◌, length, Option, some, Bool, true, false,
  arith, ◌⊎◌, inl, inr, Bool-cases,
}
use adaptivemsg_rust.Recovery.{RecoveryState}
use adaptivemsg_rust.Transport.{Link, shut, attach_transport_parts, expire, detach_transport}

-- While attached, the connection is open and its reader is that of the current generation.
pub record IsCurrent (l : Link) : Type 0 where
  pub open_ : l.transport_attached ≡ true → l.closed ≡ false
  pub reader : l.transport_attached ≡ true → l.current_reader ≡ some l.transport_gen

-- Attaching, detaching, expiry and closing keep the transport current.
pub attach-IsCurrent :
    (l : Link) (recovery_enabled : Bool) (seq : ℕ)
    → IsCurrent l
    → IsCurrent (attach_transport_parts l recovery_enabled seq)
unfolding attach_transport_parts
attach-IsCurrent l recovery_enabled seq v = ground arith

pub detach-IsCurrent :
    (l : Link) (recovery : Option RecoveryState) (gen : ℕ) (abort_reader : Bool)
    → IsCurrent l
    → IsCurrent (detach_transport l recovery gen abort_reader).0
unfolding detach_transport shut
detach-IsCurrent l recovery gen abort_reader v = ground arith

-- What happens to the transport of a connection: an attach by whether recovery is on and the peer's last
-- number, a detach by the recovery state, the generation and whether the reader is aborted, the end of a time
-- to live by its generation, and a close.
pub data Event : Type 0 where
  attaches : Bool → ℕ → Event
  detaches : Option RecoveryState → ℕ → Bool → Event
  expires : ℕ → Event
  closes : Event

abbrev pub run : Link → List Event → Link
run l [] = l
run l (attaches recovery_enabled seq ∷ later) =
    run (attach_transport_parts l recovery_enabled seq) later
run l (detaches recovery gen abort_reader ∷ later) =
    run (detach_transport l recovery gen abort_reader).0 later
run l (expires gen ∷ later) = run (expire l gen) later
run l (closes ∷ later) = run (shut l) later

-- The generation is over: the connection is closed or has a later one, which leaves room for `n` more.
abbrev IsPast : ℕ → ℕ → Link → Type 0
IsPast old n l = (l.closed ≡ true) ⊎ ((old < l.transport_gen) × (l.transport_gen + n < 2 ^ 64))

attach-IsPast :
    (old n : ℕ) (l : Link) (recovery_enabled : Bool) (seq : ℕ)
    → (l.closed ≡ true) ⊎ ((old ≤ l.transport_gen) × (l.transport_gen + suc n < 2 ^ 64))
    → IsPast old n (attach_transport_parts l recovery_enabled seq)
unfolding attach_transport_parts
attach-IsPast old n l recovery_enabled seq (inl h) = inl (ground arith)
attach-IsPast old n l recovery_enabled seq (inr (h, k)) = elim (Bool-cases l.closed) [
  | inl e ↦ inl (ground arith)
  | inr e ↦ inr (ground arith, ground arith)
]

detach-closed :
    (l : Link) (recovery : Option RecoveryState) (gen : ℕ) (abort_reader : Bool)
    → l.closed ≡ true
    → detach_transport l recovery gen abort_reader ≡ (l, recovery)
unfolding detach_transport
detach-closed l recovery gen abort_reader h = ground arith

detach-transport_gen :
    (l : Link) (recovery : Option RecoveryState) (gen : ℕ) (abort_reader : Bool)
    → ((detach_transport l recovery gen abort_reader).0.transport_gen ≡ l.transport_gen)
      ⊎ ((detach_transport l recovery gen abort_reader).0.transport_gen ≡ l.transport_gen + 1)
unfolding detach_transport shut
detach-transport_gen l recovery gen abort_reader = ground arith

detach-IsPast :
    (old n : ℕ) (l : Link) (recovery : Option RecoveryState) (gen : ℕ) (abort_reader : Bool)
    → IsPast old (suc n) l
    → IsPast old n (detach_transport l recovery gen abort_reader).0
detach-IsPast old n l recovery gen abort_reader (inl h) =
    inl (ap (λ x. x.0.closed) (detach-closed l recovery gen abort_reader h) ∙ h)
detach-IsPast old n l recovery gen abort_reader (inr (h, k)) = inr (
  omega (arith, detach-transport_gen l recovery gen abort_reader),
  omega (arith, detach-transport_gen l recovery gen abort_reader),
)

expire-IsPast :
    (old n : ℕ) (l : Link) (gen : ℕ) → IsPast old (suc n) l → IsPast old n (expire l gen)
unfolding expire shut
expire-IsPast old n l gen (inl h) = inl (ground arith)
expire-IsPast old n l gen (inr (h, k)) = inr (ground arith, ground arith)

shut-IsPast : (old n : ℕ) (l : Link) → IsPast old (suc n) l → IsPast old n (shut l)
unfolding shut
shut-IsPast old n l h = inl (ground arith)

weaker-IsPast :
    (old n : ℕ) (l : Link)
    → IsPast old (suc n) l
    → (l.closed ≡ true) ⊎ ((old ≤ l.transport_gen) × (l.transport_gen + suc n < 2 ^ 64))
weaker-IsPast old n l (inl h) = inl h
weaker-IsPast old n l (inr (h, k)) = inr (omega arith, omega arith)

run-IsPast :
    (old : ℕ) (l : Link) (later : List Event)
    → IsPast old (length later) l
    → IsPast old 0 (run l later)
run-IsPast old l [] h = h
run-IsPast old l (attaches recovery_enabled seq ∷ later) h =
    run-IsPast old (attach_transport_parts l recovery_enabled seq) later (
      attach-IsPast old (length later) l recovery_enabled seq
        (weaker-IsPast old (length later) l h))
run-IsPast old l (detaches recovery gen abort_reader ∷ later) h =
    run-IsPast old (detach_transport l recovery gen abort_reader).0 later
      (detach-IsPast old (length later) l recovery gen abort_reader h)
run-IsPast old l (expires gen ∷ later) h =
    run-IsPast old (expire l gen) later (expire-IsPast old (length later) l gen h)
run-IsPast old l (closes ∷ later) h =
    run-IsPast old (shut l) later (shut-IsPast old (length later) l h)

detach-past :
    (old : ℕ) (l : Link) (recovery : Option RecoveryState) (abort_reader : Bool)
    → IsPast old 0 l
    → detach_transport l recovery old abort_reader ≡ (l, recovery)
unfolding detach_transport
detach-past old l recovery abort_reader (inl h) = detach-closed l recovery old abort_reader h
detach-past old l recovery abort_reader (inr (h, k)) = ground arith

-- Once a transport is attached, a detach for any generation up to the one before that attach changes nothing,
-- whatever attaches, detaches, expiries and closes come in between. So a late failure of an old transport, and
-- one of a transport that was detached already, do not disturb the new one. Each event takes at most one
-- generation, and generations are taken not to overflow 64 bits.
pub detach_transport_stale :
    (l : Link) (recovery : Option RecoveryState) (old : ℕ) (recovery_enabled abort_reader : Bool)
    (seq : ℕ) (later : List Event)
    → old ≤ l.transport_gen
    → l.transport_gen + suc (length later) < 2 ^ 64
    → let l' = run (attach_transport_parts l recovery_enabled seq) later in
      detach_transport l' recovery old abort_reader ≡ (l', recovery)
detach_transport_stale l recovery old recovery_enabled abort_reader seq later h k =
    detach-past old (run (attach_transport_parts l recovery_enabled seq) later) recovery
      abort_reader
      (run-IsPast old (attach_transport_parts l recovery_enabled seq) later
        (attach-IsPast old (length later) l recovery_enabled seq (inr (h, k))))
