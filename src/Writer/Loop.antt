-- ===== src/Writer/Loop.antt =====
-- src/recovery_runtime.rs: the outer loop of the writer task, by what wakes it.
--
-- A wait ends with one event, which is an argument: the connection closes, a command or a frame or a signal
-- comes, or the sleep is over. A closed channel is `closes`. A frame comes only while none is held.
use adaptivemsg_rust.Base.{
  ℕ, ltb, not, ◌==◌, ◌||◌, if◌then◌else◌, Option, some, none, Bool, true, false, List, [], ◌∷◌,
}
use adaptivemsg_rust.RecoveryProtocol.{build_ping_control_payload}
use adaptivemsg_rust.Recovery.{next_ack_wait, heartbeat_interval}
use adaptivemsg_rust.Transport.{WriterCommand}
use adaptivemsg_rust.Writer.{
  Writer, OutboundFrame, finish_on_close, stage, write_live, write_next, write, control_frame,
  detach_writer, apply,
}

pub data Event : Type 0 where
  closes signals sleeps : Event
  command : WriterCommand → Event
  frame : OutboundFrame → Event

-- A frame that comes while no transport is attached.
unfoldable pub stage_detached : Writer → OutboundFrame → Bool → Bool → Writer × Option (Unit {0})
unfolding finish_on_close stage
stage_detached w f io_ok shutdown_ok =
    let (w', passed) = finish_on_close w f io_ok shutdown_ok in
    elim passed [ none ↦ (w', none) | some f' ↦ ((stage w' f').0, some tt) ]

unfoldable pub wait_detached : Writer → Event → Bool → Bool → Writer × Option (Unit {0})
unfolding apply stage_detached
wait_detached w Event.closes io_ok shutdown_ok = (w, none)
wait_detached w (command cmd) io_ok shutdown_ok = (apply w cmd, some tt)
wait_detached w (frame f) io_ok shutdown_ok = stage_detached w f io_ok shutdown_ok
wait_detached w Event.signals io_ok shutdown_ok = (w, if w.link.closing then none else some tt)
wait_detached w Event.sleeps io_ok shutdown_ok = (w, some tt)

-- The wait, and whether it is for the heartbeat.
unfoldable pub min_wait : ℕ → ℕ → ℕ × Bool
min_wait ack_wait heartbeat_wait =
    if heartbeat_wait == 0
    then (ack_wait, false)
    else if ack_wait == 0 || ltb heartbeat_wait ack_wait
    then (heartbeat_wait, true)
    else (ack_wait, false)

-- `flush_and_wait` after the flush.
unfoldable pub wait_attached : Writer → ℕ → Event → Bool → Bool → Writer × Option (Unit {0})
unfolding apply write_live min_wait next_ack_wait heartbeat_interval write
wait_attached w now Event.closes io_ok shutdown_ok = (w, none)
wait_attached w now Event.signals io_ok shutdown_ok = (w, some tt)
wait_attached w now (command cmd) io_ok shutdown_ok = (apply w cmd, some tt)
wait_attached w now (frame f) io_ok shutdown_ok = write_live w f io_ok shutdown_ok
wait_attached w now Event.sleeps io_ok shutdown_ok =
    if (min_wait (next_ack_wait w.recovery_state now) (heartbeat_interval w.recovery_state)).1
    then ((write w (control_frame build_ping_control_payload) io_ok).0, some tt)
    else (w, some tt)

unfoldable pub flush_and_wait : Writer → Bool → ℕ → Event → Bool → Bool → Writer × Option (Unit {0})
unfolding wait_attached detach_writer
flush_and_wait w flush_ok now e io_ok shutdown_ok =
    let w' = record w { dirty = false } in
    if w.dirty
    then (if flush_ok
        then wait_attached w' now e io_ok shutdown_ok
        else (detach_writer w', some tt))
    else wait_attached w now e io_ok shutdown_ok

abbrev pub apply_all : Writer → List WriterCommand → Writer
apply_all w [] = w
apply_all w (cmd ∷ cmds) = apply_all (apply w cmd) cmds

-- What follows on the result of `write_next`.
abbrev pub then_wait :
    Writer × Option Bool → (Writer → Writer × Option (Unit {0})) → Writer × Option (Unit {0})
then_wait (w, none) wait = (w, none)
then_wait (w, some true) wait = (w, some tt)
then_wait (w, some false) wait = wait w

-- `step`: `cmds` are the commands that are there to take, `e` is what ends the wait, and `now`, `now'` and
-- `later` are the clock's readings.
unfoldable pub step :
    Writer
    → List WriterCommand
    → ℕ
    → ℕ
    → ℕ
    → Event
    → Bool
    → Bool
    → Bool
    → Writer × Option (Unit {0})
unfolding wait_detached write_next flush_and_wait
step w cmds now now' later e flush_ok io_ok shutdown_ok =
    if w.link.closed
    then (w, none)
    else if not w.attached
    then wait_detached w e io_ok shutdown_ok
    else (let w' = apply_all w cmds in
        if not w'.attached
        then (w', some tt)
        else then_wait (write_next w' now now' io_ok shutdown_ok)
            λ w''. flush_and_wait w'' flush_ok later e io_ok shutdown_ok)
