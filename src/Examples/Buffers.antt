-- ===== src/Examples/Buffers.antt =====
-- The replay buffer, the ACK schedule and the generations at concrete inputs.
use adaptivemsg_rust.Base.{
  ℕ, ◌+ℤ◌, ◌≡◌, refl, inr, [], ◌∷◌, some, none, true, false, replicate, arith, pos,
}
use adaptivemsg_rust.Replay.{FrameRecord, ReplayBuffer, snapshot_from, ack, stage}
use adaptivemsg_rust.Replay.Invariant.{IsValid, stage-IsValid}
use adaptivemsg_rust.Replay.Acknowledge.{snapshot_from-selected, ack-IsValid}
use adaptivemsg_rust.Recovery.{
  RecoveryState, note_received, take_pending_ack, next_ack_wait, server,
}
use adaptivemsg_rust.Recovery.Ack.{
  IsScheduled, note_received-IsScheduled, take_pending_ack-next_ack_wait,
}
use adaptivemsg_rust.Transport.{Link, attach_transport_parts, detach_transport}
use adaptivemsg_rust.Transport.Generation.{run, attaches, detaches, detach_transport_stale}
use adaptivemsg_rust.Transport.Expiry.{run_expiries, detach_transport-expire}

abbrev frame : ℕ → FrameRecord
frame seq = record { stream_id = 1; seq = seq; flags = 0; payload = 65 ∷ 66 ∷ []; size = pos 20 }

-- Frames 3 and 4 in a buffer with room for 64 bytes.
abbrev three_four : ReplayBuffer
three_four = record {
  header_len = 18;
  max_bytes = pos 64;
  last_acked = 2;
  used_bytes = pos 40;
  replay_queue = frame 3 ∷ frame 4 ∷ [];
}

three_four-IsValid : IsValid three_four
unfolding ◌+ℤ◌
three_four-IsValid = record {
  rising = (omega arith, (omega arith, tt));
  sized = (refl, (refl, tt));
  counted = refl;
  bounded = λ h. omega arith;
}

stage-IsValid_example : IsValid (stage three_four 1 5 0 (67 ∷ [])).0
stage-IsValid_example = stage-IsValid three_four 1 5 0 (67 ∷ []) three_four-IsValid

ack-IsValid_example : IsValid (ack three_four 3).0
ack-IsValid_example = ack-IsValid three_four 3 three_four-IsValid

snapshot_from-selected_example : snapshot_from three_four 3 ≡ frame 4 ∷ []
snapshot_from-selected_example = snapshot_from-selected three_four 3 three_four-IsValid

abbrev client_state : RecoveryState
client_state = record {
  role = server;
  connection_id = replicate 16 5;
  resume_secret = replicate 16 9;
  replay = three_four;
  resume_depth = 0;
  reconnect_min_backoff = 0;
  reconnect_max_backoff = 0;
  reconnect_timeout = none;
  detached_ttl = 30;
  reconnect_active = false;
  ack_every = 64;
  ack_due = false;
  ack_due_at = 900;
  ack_delay_nanos = pos 100;
  heartbeat_interval_nanos = pos 1000;
  heartbeat_timeout_nanos = pos 2000;
  has_resume_connector = false;
  has_registry = true;
  fields = record {
    shared = record {
      ack_every = 64;
      ack_delay = 100;
      heartbeat_interval = 1000;
      heartbeat_timeout = 2000;
    };
    last_recv_seq = 6;
    last_ack_sent = 4;
    ack_pending = 2;
  };
}

client_state-IsScheduled : IsScheduled client_state
client_state-IsScheduled = record { sent = omega arith; scheduled = λ h. inr (ground arith) }

note_received-IsScheduled_example : IsScheduled (note_received client_state 7 850).0
note_received-IsScheduled_example =
    note_received-IsScheduled client_state 7 850 client_state-IsScheduled (omega arith)

take_pending_ack-next_ack_wait_example : (take_pending_ack client_state 900 900).1 ≡ some 6
unfolding next_ack_wait
take_pending_ack-next_ack_wait_example =
    take_pending_ack-next_ack_wait client_state 850 900 client_state-IsScheduled (omega arith)
      (omega arith)

abbrev attached_link : Link
attached_link = record {
  closed = false;
  closing = false;
  transport_gen = 4;
  transport_attached = true;
  current_reader = some 4;
  writer_cmds = [];
  send_signalled = false;
  spawned = [];
}

-- Generation 4 is detached and replaced by 6, which is lost in turn; 4 is detached late.
abbrev reattached : Link
reattached =
    run
      (attach_transport_parts (detach_transport attached_link (some client_state) 4 false).0 true 6)
      (detaches (some client_state) 6 true ∷ attaches true 6 ∷ [])

detach_transport_stale_example :
    detach_transport reattached (some client_state) 4 true ≡ (reattached, some client_state)
unfolding detach_transport
detach_transport_stale_example =
    detach_transport_stale (detach_transport attached_link (some client_state) 4 false).0
      (some client_state) 4 true true 6 (detaches (some client_state) 6 true ∷ attaches true 6 ∷ [])
      (omega arith) (omega arith)

reattached_test : (reattached.transport_gen ≡ 8) × (reattached.closed ≡ false)
unfolding detach_transport attach_transport_parts
reattached_test = (refl, refl)

detach_transport-expire_example :
    ((run_expiries 30
        (detach_transport attached_link (some client_state) 4 true).0
        (detach_transport attached_link (some client_state) 4 true).0.spawned).closed
      ≡ true)
    × ((detach_transport attached_link (some client_state) 4 true).0.closed ≡ false)
    × (run_expiries 30
          (attach_transport_parts
            (detach_transport attached_link (some client_state) 4 true).0
            true
            6)
          (attach_transport_parts
            (detach_transport attached_link (some client_state) 4 true).0
            true
            6).spawned
        ≡ attach_transport_parts
            (detach_transport attached_link (some client_state) 4 true).0
            true
            6)
detach_transport-expire_example =
    detach_transport-expire attached_link client_state 4 6 true true 30 refl refl refl (omega arith)
      tt
