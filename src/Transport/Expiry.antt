-- ===== src/Transport/Expiry.antt =====
-- src/recovery_runtime.rs: the time to live of a detached connection.
use adaptivemsg_rust.Base.{
  ℕ, ◌+◌, ◌^◌, ◌≡◌, ◌<◌, ◌≤◌, refl, ap, ◌∙◌, List, [], ◌∷◌, ◌++◌, All, All-append, append-nil, sym,
  ◌%◌, some, Bool, true, false, leb, ◌==◌, if◌then◌else◌, arith, ◌⊎◌, inl, inr, Bool-cases,
}
use adaptivemsg_rust.Recovery.{RecoveryState, server}
use adaptivemsg_rust.Transport.{
  Link, Spawned, recovery_reader, plain_reader, reconnect_loop, server_expiry, shut,
  attach_transport_parts, expire, detach_transport, spawn_server_expiry,
}

-- What a task that was started does to the connection once `elapsed` has passed: the expiry ends its sleep.
abbrev pub run_expiry : ℕ → Link → Spawned → Link
run_expiry elapsed l (server_expiry gen ttl) = if leb ttl elapsed then expire l gen else l
run_expiry elapsed l (recovery_reader gen) = l
run_expiry elapsed l (plain_reader gen) = l
run_expiry elapsed l reconnect_loop = l

abbrev pub run_expiries : ℕ → Link → List Spawned → Link
run_expiries elapsed l [] = l
run_expiries elapsed l (t ∷ ts) = run_expiries elapsed (run_expiry elapsed l t) ts

-- An expiry, if the task is one, is for a generation up to `gen`.
abbrev pub IsUpTo : ℕ → Spawned → Type 0
IsUpTo gen (server_expiry g ttl) = g ≤ gen
IsUpTo gen (recovery_reader g) = Unit
IsUpTo gen (plain_reader g) = Unit
IsUpTo gen reconnect_loop = Unit

-- Expiries for older generations do nothing, and none acts on a closed connection.
expire-older : (l : Link) (gen g : ℕ) → g ≤ gen → gen < l.transport_gen → expire l g ≡ l
unfolding expire
expire-older l gen g h k = ground arith

expire-closed : (l : Link) (g : ℕ) → l.closed ≡ true → expire l g ≡ l
unfolding expire
expire-closed l g h = ground arith

either : {A : Type 0} (b : Bool) (x y : A) → x ≡ y → (if b then x else y) ≡ y
either true x y h = h
either false x y h = refl

run_expiry-older :
    (elapsed : ℕ) (l : Link) (gen : ℕ) (t : Spawned)
    → IsUpTo gen t
    → (gen < l.transport_gen) ⊎ (l.closed ≡ true)
    → run_expiry elapsed l t ≡ l
run_expiry-older elapsed l gen (server_expiry g ttl) h (inl k) =
    either (leb ttl elapsed) (expire l g) l (expire-older l gen g h k)
run_expiry-older elapsed l gen (server_expiry g ttl) h (inr k) =
    either (leb ttl elapsed) (expire l g) l (expire-closed l g k)
run_expiry-older elapsed l gen (recovery_reader g) h k = refl
run_expiry-older elapsed l gen (plain_reader g) h k = refl
run_expiry-older elapsed l gen reconnect_loop h k = refl

run_expiries-older :
    (elapsed : ℕ) (l : Link) (gen : ℕ) (ts later : List Spawned)
    → All (IsUpTo gen) ts
    → (gen < l.transport_gen) ⊎ (l.closed ≡ true)
    → run_expiries elapsed l (ts ++ later) ≡ run_expiries elapsed l later
run_expiries-older elapsed l gen [] later h k = refl
run_expiries-older elapsed l gen (t ∷ ts) later h k =
    ap (λ x. run_expiries elapsed x (ts ++ later)) (run_expiry-older elapsed l gen t h.0 k)
    ∙ run_expiries-older elapsed l gen ts later h.1 k

-- The expiry that a detach at `gen` starts.
abbrev started : RecoveryState → ℕ → List Spawned
started r gen = if r.detached_ttl == 0 then [] else server_expiry (gen + 1) r.detached_ttl ∷ []

-- A detach of the current transport of an open server connection.
server_detached :
    (l : Link) (r : RecoveryState) (gen : ℕ) (abort_reader : Bool)
    → r.role ≡ server
    → l.closed ≡ false
    → l.transport_gen ≡ gen
    → let d = (detach_transport l (some r) gen abort_reader).0 in
      (d.transport_gen ≡ gen + 1)
      × (d.closed ≡ (r.detached_ttl == 0))
      × (d.spawned ≡ l.spawned ++ started r gen)
unfolding detach_transport spawn_server_expiry shut
server_detached l r gen abort_reader hr hc hg =
    (ground arith, ground arith, ground (arith, append-nil l.spawned))

-- The expiry of a detached connection, when `elapsed` has passed.
started-closes :
    (elapsed : ℕ) (d : Link) (r : RecoveryState) (gen : ℕ)
    → d.transport_gen ≡ gen + 1
    → d.closed ≡ (r.detached_ttl == 0)
    → (run_expiries elapsed d (started r gen)).closed ≡ leb r.detached_ttl elapsed
unfolding expire shut
started-closes elapsed d r gen hg hc = elim (Bool-cases (r.detached_ttl == 0)) [
  | inl e ↦ rw e (ground arith)
  | inr e ↦ rw e (ground arith)
]

started-IsUpTo : (r : RecoveryState) (gen : ℕ) → All (IsUpTo (gen + 1)) (started r gen)
started-IsUpTo r gen = elim (Bool-cases (r.detached_ttl == 0)) [
  | inl e ↦ rw e tt
  | inr e ↦ rw e (omega arith, tt)
]

IsUpTo-later : (gen : ℕ) (t : Spawned) → IsUpTo gen t → IsUpTo (gen + 1) t
IsUpTo-later gen (server_expiry g ttl) h = omega arith
IsUpTo-later gen (recovery_reader g) h = tt
IsUpTo-later gen (plain_reader g) h = tt
IsUpTo-later gen reconnect_loop h = tt

All-later : (gen : ℕ) (ts : List Spawned) → All (IsUpTo gen) ts → All (IsUpTo (gen + 1)) ts
All-later gen [] h = tt
All-later gen (t ∷ ts) h = (IsUpTo-later gen t h.0, All-later gen ts h.1)

-- An attach takes the next generation, if the connection is open, and starts a reader alone.
attach-IsOlder :
    (d : Link) (recovery_enabled : Bool) (seq gen : ℕ)
    → d.transport_gen ≡ gen + 1
    → gen + 2 < 2 ^ 64
    → (gen + 1 < (attach_transport_parts d recovery_enabled seq).transport_gen)
      ⊎ ((attach_transport_parts d recovery_enabled seq).closed ≡ true)
unfolding attach_transport_parts
attach-IsOlder d recovery_enabled seq gen h k = elim (Bool-cases d.closed) [
  | inl e ↦ inr (ground arith)
  | inr e ↦ inl (ground arith)
]

reader-IsUpTo :
    (gen g : ℕ) (recovery_enabled : Bool)
    → IsUpTo gen (if recovery_enabled then recovery_reader g else plain_reader g)
reader-IsUpTo gen g true = tt
reader-IsUpTo gen g false = tt

attach-IsUpTo :
    (d : Link) (recovery_enabled : Bool) (seq gen : ℕ)
    → All (IsUpTo gen) d.spawned
    → All (IsUpTo gen) (attach_transport_parts d recovery_enabled seq).spawned
unfolding attach_transport_parts
attach-IsUpTo d recovery_enabled seq gen h = elim (Bool-cases d.closed) [
  | inl e ↦ rw (attach_transport_parts, e) h
  | inr e ↦
      rw (attach_transport_parts, e)
        (All-append (IsUpTo gen) d.spawned _ h
          (reader-IsUpTo gen ((d.transport_gen + 1) % 2 ^ 64) recovery_enabled, tt))
]

-- The current transport of an open server connection is detached, and the expiries that were started for it
-- before are for generations up to that one. Then the connection closes when its time to live has passed and
-- not before, at once if that is zero, by what the detach started alone. If a transport was attached meanwhile,
-- then no expiry that was started does anything, however much time has passed. Generations are taken not to
-- overflow 64 bits.
pub detach_transport-expire :
    (l : Link) (r : RecoveryState) (gen seq : ℕ) (recovery_enabled abort_reader : Bool)
    (elapsed : ℕ)
    → r.role ≡ server
    → l.closed ≡ false
    → l.transport_gen ≡ gen
    → gen + 2 < 2 ^ 64
    → All (IsUpTo gen) l.spawned
    → let d = (detach_transport l (some r) gen abort_reader).0 in
      let a = attach_transport_parts d recovery_enabled seq in
      ((run_expiries elapsed d d.spawned).closed ≡ leb r.detached_ttl elapsed)
      × (d.closed ≡ (r.detached_ttl == 0))
      × (run_expiries elapsed a a.spawned ≡ a)
detach_transport-expire l r gen seq recovery_enabled abort_reader elapsed hr hc hg hb v =
    let d = (detach_transport l (some r) gen abort_reader).0 in
    let a = attach_transport_parts d recovery_enabled seq in
    let (gen_lem, closed_lem, spawned_lem) = server_detached l r gen abort_reader hr hc hg in
    let up_to : All (IsUpTo (gen + 1)) d.spawned = rw spawned_lem (
      All-append (IsUpTo (gen + 1)) l.spawned (started r gen) (All-later gen l.spawned v)
        (started-IsUpTo r gen)) in
    (
      ap (λ ts. (run_expiries elapsed d ts).closed) spawned_lem
          ∙ ap (λ x. x.closed)
              (run_expiries-older elapsed d gen l.spawned (started r gen) v
                (inl (omega (arith, gen_lem))))
          ∙ started-closes elapsed d r gen gen_lem closed_lem,
      closed_lem,
      ap (run_expiries elapsed a) (sym (append-nil a.spawned))
          ∙ run_expiries-older elapsed a (gen + 1) a.spawned []
              (attach-IsUpTo d recovery_enabled seq (gen + 1) up_to)
              (attach-IsOlder d recovery_enabled seq gen gen_lem hb),
    )
