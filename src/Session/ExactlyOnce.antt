-- ===== src/Session/ExactlyOnce.antt =====
-- src/recovery_runtime.rs, src/replay.rs: frames are delivered exactly once and in order.
use adaptivemsg_rust.Base.{
  ℕ, zero, suc, ◌+◌, ◌≡◌, ◌≢◌, ◌≤◌, refl, ap, sym, ◌∙◌, List, [], ◌∷◌, ◌++◌, length, arith, map,
}
use mathlib.Core.List.{map-append}
use mathlib.Core.Path.{subst}
use adaptivemsg_rust.Error.{Result, ok}
use adaptivemsg_rust.Replay.{FrameRecord}
use adaptivemsg_rust.RecoveryProtocol.{control_stream_id}
use adaptivemsg_rust.Writer.{WireFrame, wire_of}
use adaptivemsg_rust.Reader.{Receiver, handle_recovery_data_frame}
use adaptivemsg_rust.Session.Between.{between, between-empty, between-start}
use adaptivemsg_rust.Session.Invariant.{Inv, detach_writer-Inv}
use adaptivemsg_rust.Session.Same.{Same-Inv}
use adaptivemsg_rust.RecoveryProtocol.{build_ping_control_payload}
use adaptivemsg_rust.Writer.{control_frame}
use adaptivemsg_rust.Session.Live.{stage_detached-Inv, write_live-Inv}
use adaptivemsg_rust.Session.Writes.{control_write-Inv}
use adaptivemsg_rust.Session.Steps.{HasData, queue-Same, write_next-Inv}
use adaptivemsg_rust.Session.Waiting.{
  queue_head, Waits-HasData, write-Waits, apply-Waits, detach_writer-Waits, write_next-HasData,
  stage_detached-HasData, write_live-HasData,
}
use adaptivemsg_rust.Transport.{WriterCommand}
use adaptivemsg_rust.Session.Peer.{
  ack_received-Inv, attach-Inv, detach-Inv, read_control-Inv, read_data-Inv,
}
use adaptivemsg_rust.Session.Between.{Numbered}
use adaptivemsg_rust.Base.{take}
use adaptivemsg_rust.Session.Delivery.{
  Arrived, accept, content, Session, read_data, received_last, Step, queues, writes, fails,
  attaches, stages, writes_live, pings, detaches, acknowledges, reads_control, reads_data, Steps,
  stop, next, IsFresh,
}

-- The frames delivered, with the numbers they came with.
record IsValid (s : Session) : Type 0 where
  pub delivered : List WireFrame
  pub inv : Inv s.writer s.last_recv_seq delivered s.history
  pub streams : s.receiver.streams ≡ map content delivered
  pub waiting : HasData s.writer

IsFresh-IsValid : (s : Session) → IsFresh s → IsValid s
IsFresh-IsValid s f = record {
  delivered = [];
  inv = record {
    base = record {
      numbered = rw f.nothing_sent.2 tt;
      count = rw f.nothing_sent.2 (sym f.nothing_sent.0);
      queued = rw f.nothing_sent.2 f.nothing_kept.0;
      acked = omega (arith, f.nothing_kept.1);
      received = omega (arith, f.nothing_received.0);
      sent = omega (arith, f.nothing_sent.1);
      on_wire = rw (f.nothing_written.0, f.nothing_sent.2) refl;
      data_only = rw f.nothing_sent.2 tt;
      got = rw f.nothing_sent.2 refl;
    };
    to_resume = λ _. rw f.nothing_sent.2 f.nothing_written.1;
  };
  streams = f.nothing_received.1;
  waiting = record {
    held_data = λ g e. absurd (ground (arith, e, f.nothing_waiting.0));
    queue_data = rw f.nothing_waiting.1 tt;
  };
}

-- What the reader does with the frame after the last one.
map-compose :
    (g : WireFrame → Arrived) (k : FrameRecord → WireFrame) (l : List FrameRecord)
    → map g (map k l) ≡ map (λ f. g (k f)) l
map-compose g k [] = refl
map-compose g k (x ∷ l) = ap (◌∷◌ (g (k x))) (map-compose g k l)

accepted :
    (r : Receiver (List Arrived)) (f : WireFrame) (lr now : ℕ)
    → f.seq ≡ suc lr
    → let a = handle_recovery_data_frame accept r lr f.stream_id f.seq f.flags f.payload now in
      (a.1 ≡ ok (suc lr)) × (a.0.streams ≡ r.streams ++ content f ∷ [])
unfolding handle_recovery_data_frame
accepted r f lr now e = ground arith

read_data-IsValid :
    (s : Session) (f : WireFrame) (rest : List WireFrame) (now : ℕ)
    → s.writer.wire ≡ f ∷ rest
    → f.stream_id ≢ control_stream_id
    → IsValid s
    → IsValid (read_data s f rest now).0 × ((read_data s f rest now).1 ≡ ok (suc s.last_recv_seq))
read_data-IsValid s f rest now e k v =
    let (seq, inv) = read_data-Inv s.writer f rest e k v.inv in
    let a = accepted s.receiver f s.last_recv_seq now seq in
    (
      record {
        delivered = v.delivered ++ f ∷ [];
        inv =
            subst
              (λ (r : Result ℕ).
                Inv (record (s.writer) { wire = rest }) (received_last s.last_recv_seq r)
                  (v.delivered ++ f ∷ []) s.history)
              (sym a.0) inv;
        streams =
            a.1
            ∙ ap (λ (l : List Arrived). l ++ content f ∷ []) v.streams
            ∙ sym (map-append content v.delivered (f ∷ []));
        waiting = Waits-HasData (record { held = refl; queue = refl }) v.waiting;
      },
      a.0,
    )

Step-IsValid : {s t : Session} → Step s t → IsValid s → IsValid t
Step-IsValid {s} (queues queue q) v = record {
  delivered = v.delivered;
  inv =
      Same-Inv s.writer (record (s.writer) { outbound_rx = queue })
        (record {
          next = refl;
          replay = refl;
          last_sent = refl;
          wire = refl;
          attached = refl;
          resume = refl;
        })
        v.inv;
  streams = v.streams;
  waiting = record { held_data = v.waiting.held_data; queue_data = q };
}
Step-IsValid {s} (writes now now' io_ok shutdown_ok at) v = record {
  delivered = v.delivered;
  inv = write_next-Inv s.writer now now' io_ok shutdown_ok v.waiting v.inv at;
  streams = v.streams;
  waiting = write_next-HasData s.writer now now' io_ok shutdown_ok v.waiting;
}
Step-IsValid {s} fails v = record {
  delivered = v.delivered;
  inv = detach_writer-Inv s.writer v.inv.base;
  streams = v.streams;
  waiting = Waits-HasData (detach_writer-Waits s.writer) v.waiting;
}
Step-IsValid {s} (stages frame rest io_ok shutdown_ok e off) v =
    let w = record (s.writer) { outbound_rx = rest } in
    record {
      delivered = v.delivered;
      inv =
          stage_detached-Inv w frame io_ok shutdown_ok
            (queue_head s.writer frame rest e v.waiting).0 (Same-Inv s.writer w queue-Same v.inv)
            off;
      streams = v.streams;
      waiting =
          stage_detached-HasData w frame io_ok shutdown_ok
            (queue_head s.writer frame rest e v.waiting).0
            (queue_head s.writer frame rest e v.waiting).1;
    }
Step-IsValid {s} (writes_live frame rest io_ok shutdown_ok e at done) v =
    let w = record (s.writer) { outbound_rx = rest } in
    record {
      delivered = v.delivered;
      inv =
          write_live-Inv w frame io_ok shutdown_ok (queue_head s.writer frame rest e v.waiting).0
            (Same-Inv s.writer w queue-Same v.inv) at done;
      streams = v.streams;
      waiting =
          write_live-HasData w frame io_ok shutdown_ok
            (queue_head s.writer frame rest e v.waiting).0
            (queue_head s.writer frame rest e v.waiting).1;
    }
Step-IsValid {s} (pings io_ok) v = record {
  delivered = v.delivered;
  inv = control_write-Inv s.writer (control_frame build_ping_control_payload) io_ok refl v.inv;
  streams = v.streams;
  waiting =
      Waits-HasData (write-Waits s.writer (control_frame build_ping_control_payload) io_ok)
        v.waiting;
}
Step-IsValid {s} (attaches gen) v = record {
  delivered = v.delivered;
  inv = attach-Inv s.writer gen v.inv;
  streams = v.streams;
  waiting =
      Waits-HasData (apply-Waits s.writer (WriterCommand.attach gen s.last_recv_seq)) v.waiting;
}
Step-IsValid {s} (detaches gen) v = record {
  delivered = v.delivered;
  inv = detach-Inv s.writer gen v.inv;
  streams = v.streams;
  waiting = Waits-HasData (apply-Waits s.writer (WriterCommand.detach gen)) v.waiting;
}
Step-IsValid {s} (acknowledges n le) v = record {
  delivered = v.delivered;
  inv = ack_received-Inv s.writer n v.inv le;
  streams = v.streams;
  waiting = Waits-HasData (record { held = refl; queue = refl }) v.waiting;
}
Step-IsValid {s} (reads_control f rest e k) v = record {
  delivered = v.delivered;
  inv = read_control-Inv s.writer f rest e k v.inv;
  streams = v.streams;
  waiting = Waits-HasData (record { held = refl; queue = refl }) v.waiting;
}
Step-IsValid {s} (reads_data f rest now e k) v = (read_data-IsValid s f rest now e k v).0

Steps-IsValid : {s t : Session} → Steps s t → IsValid s → IsValid t
Steps-IsValid stop v = v
Steps-IsValid (next ss st) v = Step-IsValid st (Steps-IsValid ss v)

between-take :
    (n m k : ℕ) (h : List FrameRecord) → Numbered n h → m ≡ n + k → between n m h ≡ take k h
between-take n m zero h v e = between-empty n m h (omega arith)
between-take n m (suc k) [] v e = refl
between-take n m (suc k) (x ∷ xs) v e =
    ground (
      arith,
      between-take (suc n) m k xs v.1 (omega arith),
      between-start (suc n) n (suc n) m xs v.1,
    )

-- On every session that starts fresh, whatever transports are attached, lost and resumed on the way, and
-- whatever writes fail: what the receiver's streams got is the frames that the writer kept for sending, in
-- that order, each once, up to the last received number. That number counts frames the writer kept.
pub delivered_in_order :
    (s t : Session)
    → IsFresh s
    → Steps s t
    → (t.receiver.streams ≡ map (λ f. content (wire_of f)) (take t.last_recv_seq t.history))
      × (t.last_recv_seq ≤ length t.history)
delivered_in_order s t f steps =
    let v = Steps-IsValid steps (IsFresh-IsValid s f) in
    (
      v.streams
          ∙ ap (map content) v.inv.base.got
          ∙ map-compose content wire_of (between 0 t.last_recv_seq t.history)
          ∙ ap (map (λ f. content (wire_of f))) (
              between-take 0 t.last_recv_seq t.last_recv_seq t.history v.inv.base.numbered
                (omega arith)),
      omega (arith, v.inv.base.received, v.inv.base.sent, v.inv.base.count),
    )

-- On such a session the reader never sees a gap: each data frame on the way is accepted when it is read, and
-- its number becomes the last received one.
pub read_data-ok :
    (s t : Session) (f : WireFrame) (rest : List WireFrame) (now : ℕ)
    → IsFresh s
    → Steps s t
    → t.writer.wire ≡ f ∷ rest
    → f.stream_id ≢ control_stream_id
    → ((read_data t f rest now).1 ≡ ok (suc t.last_recv_seq))
      × ((read_data t f rest now).0.last_recv_seq ≡ f.seq)
      × ((read_data t f rest now).0.receiver.streams ≡ t.receiver.streams ++ content f ∷ [])
read_data-ok s t f rest now fresh steps e k =
    let v = Steps-IsValid steps (IsFresh-IsValid s fresh) in
    let (seq, inv) = read_data-Inv t.writer f rest e k v.inv in
    let a = accepted t.receiver f t.last_recv_seq now seq in
    (a.0, ap (received_last t.last_recv_seq) a.0 ∙ sym seq, a.1)
