-- ===== src/Plain/Delivery.antt =====
-- src/connection.rs: what the writer task of one side writes, the reader task of the other hands to its
-- streams.
use adaptivemsg_rust.Base.{
  ℕ, suc, ◌+◌, ◌≡◌, refl, ap, sym, ◌∙◌, List, [], ◌∷◌, ◌++◌, map, append_assoc, append-nil, some,
  true, false, length, All, String, arith,
}
use adaptivemsg_rust.Error.{Error, Result, ok}
use adaptivemsg_rust.Streaming.{Io, IsWorking}
use adaptivemsg_rust.Debug.{ConnectionDebugCounters, note_frame_written, note_frame_read}
use adaptivemsg_rust.Writer.{OutboundFrame, plain}
use adaptivemsg_rust.Connection.{
  Connection, accept_frame, mark_closed, close_all_streams, start_close_by_peer, close_by_peer,
}
use adaptivemsg_rust.Connection.Inbound.{accept_frame-ok, accept_frame-is_closed}
use adaptivemsg_rust.Plain.{ConnConfig, write_frame_counted}
use adaptivemsg_rust.Plain.Reader.{PlainReader, plain_reader_turn, plain_reader}
use adaptivemsg_rust.Plain.Writer.{
  PlainWriter, after_frame, on_outbound, write_plain_frame_no_flush, write_batch, plain_writer_turn,
  outbound_ready,
}
use adaptivemsg_rust.Plain.Reading.{IsReading}
use adaptivemsg_rust.Plain.Frames.{
  Message, encode, IsConfig, IsSendable, write_frame_counted-writes, read_frame-reads,
  read_frame-end,
}

abbrev pub as_plain : Message → OutboundFrame
as_plain (stream_id, flags, payload) = plain stream_id flags payload

abbrev pub encode_all : ConnConfig → List Message → List ℕ
encode_all config [] = []
encode_all config (m ∷ ms) = encode config m ++ encode_all config ms

abbrev pub accept_all : List Message → Connection → Connection
accept_all [] c = c
accept_all ((stream_id, flags, payload) ∷ ms) c =
    accept_all ms (accept_frame c stream_id flags payload).0

abbrev pub all_written :
    ConnConfig → List Message → ConnectionDebugCounters → ConnectionDebugCounters
all_written config [] d = d
all_written config ((stream_id, flags, payload) ∷ ms) d =
    all_written config ms (note_frame_written d stream_id (config.header_len + length payload))

abbrev pub all_read : ConnConfig → List Message → ConnectionDebugCounters → ConnectionDebugCounters
all_read config [] d = d
all_read config ((stream_id, flags, payload) ∷ ms) d =
    all_read config ms (note_frame_read d stream_id (config.header_len + length payload))

module _ (io : Io) (p : IsWorking io) (shutdown : io.Writer → Result (Unit {0}) × io.Writer)
    (describe : Error → String) where
  write_batch-plain :
      (config : ConnConfig) (stream_id flags : ℕ) (payload : List ℕ) (queue : List OutboundFrame)
      (w w' : io.Writer) (d : ConnectionDebugCounters) (s : PlainWriter io shutdown describe)
      → write_frame_counted io config stream_id 0 flags payload (w, s.debug) ≡ (ok tt, (w', d))
      → write_batch io shutdown describe config (plain stream_id flags payload ∷ queue) w s
        ≡ write_batch io shutdown describe config queue w'
            (record s { writer = some w'; outbound_rx = queue; debug = d })
  unfolding write_batch write_plain_frame_no_flush
  write_batch-plain config stream_id flags payload queue w w' d s e =
      ap
        (after_frame io shutdown describe (write_batch io shutdown describe config queue)
          (record s { outbound_rx = queue }))
        e

  write_batch-end :
      (config : ConnConfig) (w : io.Writer) (s : PlainWriter io shutdown describe)
      → write_batch io shutdown describe config [] w s
        ≡ (record s { outbound_rx = []; writer = some (io.flush w).1 }, true)
  unfolding write_batch
  write_batch-end config w s = rw ((p.flush_lem w).0) refl

  write_batch-writes :
      (config : ConnConfig) (ms : List Message) (w : io.Writer)
      (s : PlainWriter io shutdown describe)
      → IsConfig config
      → All (IsSendable config) ms
      → (w' : io.Writer) × (write_batch io shutdown describe config (map as_plain ms) w s ≡ (
        record s { writer = some w'; outbound_rx = []; debug = all_written config ms s.debug },
        true,
      ))
        × (p.written w' ≡ p.written w ++ encode_all config ms)
  write_batch-writes config [] w s c v =
      let (a, b) = p.flush_lem w in
      ((io.flush w).1, write_batch-end config w s, b ∙ sym (append-nil (p.written w)))
  write_batch-writes config ((stream_id, flags, payload) ∷ ms) w s c v =
      let (w1, f, g) =
        write_frame_counted-writes io p config stream_id flags payload w s.debug c v.0 in
      let s' = record s {
        writer = some w1;
        outbound_rx = map as_plain ms;
        debug = note_frame_written s.debug stream_id (config.header_len + length payload);
      } in
      let (w', h, k) = write_batch-writes config ms w1 s' c v.1 in
      (
        w',
        write_batch-plain config stream_id flags payload (map as_plain ms) w w1
              (note_frame_written s.debug stream_id (config.header_len + length payload)) s f
            ∙ h,
        k
            ∙ ap (λ l. l ++ encode_all config ms) g
            ∙ append_assoc (p.written w) (encode config (stream_id, flags, payload))
                (encode_all config ms),
      )

module _ (io : Io) (p : IsWorking io) (read : ℕ → io.Reader → Result (List ℕ) × io.Reader)
    (v : IsReading io p read) (describe : Error → String) (others : Connection → Connection) where
  plain_reader_turn-reads :
      (config : ConnConfig) (stream_id flags : ℕ) (payload later : List ℕ)
      (s : PlainReader io read describe others)
      → IsConfig config
      → IsSendable config (stream_id, flags, payload)
      → p.pending s.reader ≡ encode config (stream_id, flags, payload) ++ later
      → s.connection.is_closed ≡ false
      → (r : io.Reader) × (plain_reader_turn io read describe others config s
          ≡ some (
            record s {
              connection = (accept_frame s.connection stream_id flags payload).0;
              debug = note_frame_read s.debug stream_id (config.header_len + length payload);
              reader = r;
            },
            true,
          ))
        × (p.pending r ≡ later)
  unfolding plain_reader_turn
  plain_reader_turn-reads config stream_id flags payload later s c sendable e o =
      let (r, f, g) =
        read_frame-reads io p read v config stream_id flags payload later s.reader c sendable e in
      (r, rw (plain_reader_turn, f, accept_frame-ok s.connection stream_id flags payload o) refl, g)

  plain_reader-ends :
      (config : ConnConfig) (s : PlainReader io read describe others)
      → IsConfig config
      → p.pending s.reader ≡ []
      → (r : io.Reader) × (plain_reader_turn io read describe others config s
          ≡ some (record s { connection = close_by_peer others s.connection; reader = r }, false))
  unfolding plain_reader_turn
  plain_reader-ends config s c e =
      let (r, f) = read_frame-end io p read v config s.reader c e in
      (r, rw (plain_reader_turn, f) refl)

  plain_reader-reads :
      (config : ConnConfig) (ms : List Message) (s : PlainReader io read describe others)
      → IsConfig config
      → All (IsSendable config) ms
      → p.pending s.reader ≡ encode_all config ms
      → s.connection.is_closed ≡ false
      → (r : io.Reader) × (plain_reader io read describe others config (suc (length ms)) s
          ≡ some (
            record s {
              connection = close_by_peer others (accept_all ms s.connection);
              debug = all_read config ms s.debug;
              reader = r;
            },
            false,
          ))
  plain_reader-reads config [] s c sendable e o =
      let (r, f) = plain_reader-ends config s c e in (r, rw (plain_reader, f) refl)
  plain_reader-reads config ((stream_id, flags, payload) ∷ ms) s c sendable e o =
      let (r1, f, g) =
        plain_reader_turn-reads config stream_id flags payload (encode_all config ms) s c sendable.0
          e o in
      let s' = record s {
        connection = (accept_frame s.connection stream_id flags payload).0;
        debug = note_frame_read s.debug stream_id (config.header_len + length payload);
        reader = r1;
      } in
      let (r, h) =
        plain_reader-reads config ms s' c sendable.1 g
          (accept_frame-is_closed s.connection stream_id flags payload ∙ o) in
      (r, rw (plain_reader, f) h)

module _ (io : Io) (p : IsWorking io) (shutdown : io.Writer → Result (Unit {0}) × io.Writer)
    (describe : Error → String) where
  plain_writer_turn-writes :
      (config : ConnConfig) (m : Message) (ms : List Message) (w : io.Writer)
      (s : PlainWriter io shutdown describe)
      → IsConfig config
      → All (IsSendable config) (m ∷ ms)
      → s.writer ≡ some w
      → s.outbound_rx ≡ map as_plain (m ∷ ms)
      → (w' : io.Writer) × (plain_writer_turn io shutdown describe config s outbound_ready ≡ (
        record s {
          writer = some w';
          outbound_rx = [];
          debug = all_written config (m ∷ ms) s.debug;
        },
        true,
      ))
        × (p.written w' ≡ p.written w ++ encode_all config (m ∷ ms))
  unfolding plain_writer_turn
  plain_writer_turn-writes config m ms w s c v a q =
      let (w', f, g) = write_batch-writes io p shutdown describe config (m ∷ ms) w s c v in
      (
        w',
        ap (λ x. on_outbound io shutdown describe config s x s.outbound_rx) a
            ∙ ap (on_outbound io shutdown describe config s (some w)) q
            ∙ f,
        g,
      )

some_injective : {A : Type 0} {a b : A} → some a ≡ some b → a ≡ b
some_injective e = cc e

mark_closed-is_closed : (c : Connection) → (mark_closed c).is_closed ≡ true
unfolding mark_closed close_all_streams
mark_closed-is_closed c = ground arith

close_by_peer-is_closed :
    (others : Connection → Connection) (c : Connection) → (close_by_peer others c).is_closed ≡ true
unfolding close_by_peer
close_by_peer-is_closed others c =
    ground (arith, mark_closed-is_closed c, mark_closed-is_closed (others (start_close_by_peer c)))

-- A writer task whose queue holds some frames, each within the limits, writes them all in one batch to a working
-- transport that has nothing written to it yet, and counts them. A reader task on what was written, whose
-- connection is not closed, hands these frames to its connection in the same order, counts them, and then ends by
-- the peer's close, in one turn for each frame and one more. It leaves the connection closed, whatever other tasks
-- do to it during the wait of that close. How many bytes a read gives does not matter.
pub plain_delivery :
    (io : Io) (p : IsWorking io) (read : ℕ → io.Reader → Result (List ℕ) × io.Reader)
    (v : IsReading io p read) (shutdown : io.Writer → Result (Unit {0}) × io.Writer)
    (describe : Error → String) (others : Connection → Connection) (config : ConnConfig)
    (m : Message) (ms : List Message) (w w' : io.Writer) (s : PlainWriter io shutdown describe)
    (t : PlainReader io read describe others)
    → IsConfig config
    → All (IsSendable config) (m ∷ ms)
    → s.writer ≡ some w
    → s.outbound_rx ≡ map as_plain (m ∷ ms)
    → p.written w ≡ []
    → (plain_writer_turn io shutdown describe config s outbound_ready).0.writer ≡ some w'
    → p.pending t.reader ≡ p.written w'
    → t.connection.is_closed ≡ false
    → (plain_writer_turn io shutdown describe config s outbound_ready ≡ (
      record s { writer = some w'; outbound_rx = []; debug = all_written config (m ∷ ms) s.debug },
      true,
    ))
      × ((r : io.Reader) × (plain_reader io read describe others config (suc (length (m ∷ ms))) t
            ≡ some (
              record t {
                connection = close_by_peer others (accept_all (m ∷ ms) t.connection);
                debug = all_read config (m ∷ ms) t.debug;
                reader = r;
              },
              false,
            )))
      × ((close_by_peer others (accept_all (m ∷ ms) t.connection)).is_closed ≡ true)
plain_delivery io p read v shutdown describe others config m ms w w' s t c sendable a q fresh b e
      o =
    let (x, f, g) =
      plain_writer_turn-writes io p shutdown describe config m ms w s c sendable a q in
    let same : x ≡ w' = some_injective (sym (ap (λ y. y.0.writer) f) ∙ b) in
    (
      f
          ∙ ap
              (λ y. (
                record s {
                  writer = some y;
                  outbound_rx = [];
                  debug = all_written config (m ∷ ms) s.debug;
                },
                true,
              ))
              same,
      plain_reader-reads io p read v describe others config (m ∷ ms) t c sendable
          (e ∙ ap p.written (sym same) ∙ g ∙ ap (λ l. l ++ encode_all config (m ∷ ms)) fresh) o,
      close_by_peer-is_closed others (accept_all (m ∷ ms) t.connection),
    )
