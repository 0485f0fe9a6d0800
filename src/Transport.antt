-- ===== src/Transport.antt =====
-- src/recovery_runtime.rs: attaching and detaching the transport of a connection.
--
-- `Link` holds the fields of `ConnectionInner` that belong to its transport. A transport is known by its
-- generation. What a method starts on the runtime is recorded in `spawned`, what it sends to the writer
-- task in `writer_cmds`. Counters and logs are left out.
pub mod Generation
pub mod Expiry
use adaptivemsg_rust.Base.{
  ℕ, ◌+◌, ◌%◌, ◌^◌, List, [], ◌∷◌, ◌++◌, Option, some, none, Bool, true, false, ◌==◌, ◌&&◌, ◌||◌,
  not, if◌then◌else◌,
}
use adaptivemsg_rust.Recovery.{RecoveryState, RecoveryRole, client, server}

pub data WriterCommand : Type 0 where
  attach : ℕ → ℕ → WriterCommand
  detach : ℕ → WriterCommand

-- The tasks that the methods start: a reader for a generation, the reconnect loop, and the expiry of a
-- detached connection at a generation after its time to live.
pub data Spawned : Type 0 where
  recovery_reader plain_reader : ℕ → Spawned
  reconnect_loop : Spawned
  server_expiry : ℕ → ℕ → Spawned

pub record Link : Type 0 where
  pub closed : Bool
  pub closing : Bool
  pub transport_gen : ℕ
  pub transport_attached : Bool
  pub current_reader : Option ℕ
  pub writer_cmds : List WriterCommand
  pub send_signalled : Bool
  pub spawned : List Spawned

-- The part of `mark_closed` on these fields.
unfoldable pub shut : Link → Link
shut l =
    if l.closed
    then l
    else record l { closed = true; transport_attached = false; current_reader = none }

-- `recovery_enabled` is `is_recovery_enabled`.
unfoldable pub attach_transport_parts : Link → Bool → ℕ → Link
attach_transport_parts l recovery_enabled peer_last_recv_seq =
    if l.closed
    then l
    else (let gen : ℕ = (l.transport_gen + 1) % 2 ^ 64 in
        record l {
          transport_gen = gen;
          current_reader = some gen;
          writer_cmds = l.writer_cmds ++ attach gen peer_last_recv_seq ∷ [];
          transport_attached = true;
          send_signalled = true;
          spawned =
              l.spawned
              ++ (if recovery_enabled then recovery_reader gen else plain_reader gen) ∷ [];
        })

-- `spawn_reconnect_loop` up to the task: only one loop runs at a time.
unfoldable pub spawn_reconnect_loop : Link → RecoveryState → Link × RecoveryState
spawn_reconnect_loop l r = elim r.role [
  | server ↦ (l, r)
  | client ↦ if r.reconnect_active then (l, r) else (
    record l { spawned = l.spawned ++ reconnect_loop ∷ [] },
    record r { reconnect_active = true },
  )
]

unfoldable pub spawn_server_expiry : Link → RecoveryState → ℕ → Link
unfolding shut
spawn_server_expiry l r detached_gen =
    if r.detached_ttl == 0
    then shut l
    else record l { spawned = l.spawned ++ server_expiry detached_gen r.detached_ttl ∷ [] }

-- The task that `spawn_server_expiry` starts, once its sleep is over.
unfoldable pub expire : Link → ℕ → Link
unfolding shut
expire l detached_gen = if not l.closed && l.transport_gen == detached_gen then shut l else l

-- `current_reader_abort` is taken if it is aborted on detaching.
abbrev pub take_reader : Option ℕ → Bool → Option ℕ
take_reader reader true = none
take_reader reader false = reader

-- `recovery` is `none` on a connection without recovery.
unfoldable pub detach_transport :
    Link → Option RecoveryState → ℕ → Bool → Link × Option RecoveryState
unfolding spawn_reconnect_loop spawn_server_expiry
detach_transport l recovery gen abort_reader =
    if l.closed
    then (l, recovery)
    else if not (l.transport_gen == gen)
    then (l, recovery)
    else (let l' = record l {
      transport_gen = gen + 1;
      transport_attached = false;
      current_reader = take_reader l.current_reader abort_reader;
      writer_cmds = l.writer_cmds ++ detach gen ∷ [];
    } in
        elim recovery [
          | none ↦ (l', none)
          | some r ↦ elim r.role [
            | client ↦ let (l'', r') = spawn_reconnect_loop l' r in (l'', some r')
            | server ↦ (spawn_server_expiry l' r (gen + 1), some r)
          ]
        ])
