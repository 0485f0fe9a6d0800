-- ===== src/Examples/Plain.antt =====
-- Runs of a connection without recovery: src/connection.rs, src/debug.rs.
use adaptivemsg_rust.Base.{
  ℕ, ◌≡◌, ◌≢◌, ◌≤◌, ◌<◌, refl, ap, sym, List, [], ◌∷◌, map, min, take, drop, take-append-drop,
  length, length-take, some, none, true, false, arith, String,
}
use adaptivemsg_rust.Error.{Error, Result, ok}
use adaptivemsg_rust.Frame.{build_header, parse_header, frame_header_len_for_version}
use adaptivemsg_rust.Streaming.Pipe.{pipe, pipe-IsWorking}
use adaptivemsg_rust.Connection.{Connection, close_by_peer}
use adaptivemsg_rust.Debug.{new_connection_counters}
use adaptivemsg_rust.Plain.{ConnConfig, read_frame, read_payload}
use adaptivemsg_rust.Plain.Reader.{PlainReader, plain_reader}
use adaptivemsg_rust.Plain.Writer.{PlainWriter, plain_writer_turn, outbound_ready}
use adaptivemsg_rust.Plain.Reading.{IsReading, read_frame-ends}
use adaptivemsg_rust.Plain.Frames.{Message, IsConfig}
use adaptivemsg_rust.Plain.Delivery.{
  as_plain, encode_all, accept_all, all_written, all_read, plain_delivery,
}

-- At most three bytes at a time.
abbrev read_some : ℕ → List ℕ → Result (List ℕ) × List ℕ
read_some n r = (ok (take (min n 3) r), drop (min n 3) r)

empty_take : (n : ℕ) (r : List ℕ) → 0 < n → take n r ≡ [] → r ≡ []
empty_take n [] lt e = refl
empty_take n (b ∷ r) lt e = absurd (omega (arith, length-take n (b ∷ r), ap length e))

read_some_lem : (n : ℕ) (r : List ℕ) → length (take (min n 3) r) ≤ n
read_some_lem n r = omega (arith, length-take (min n 3) r)

read_some-IsReading : IsReading pipe pipe-IsWorking read_some
unfolding pipe-IsWorking
read_some-IsReading = record {
  bytes = λ n r. take (min n 3) r;
  read_lem = λ n r pos. (
    refl,
    sym (take-append-drop (min n 3) r),
    read_some_lem n r,
    empty_take (min n 3) r (omega arith),
  );
}

abbrev version_2 : ConnConfig
version_2 = record { version = 2; header_len = 10; max_frame = 64 }

frame_header_len_v2_lem : frame_header_len_for_version 2 ≡ ok 10
unfolding frame_header_len_for_version
frame_header_len_v2_lem = refl

version_2-IsConfig : IsConfig version_2
version_2-IsConfig = record { header_len = frame_header_len_v2_lem; max_frame = omega arith }

abbrev read_frame_input : List ℕ
read_frame_input = 2 ∷ 0 ∷ 0 ∷ 0 ∷ 0 ∷ 7 ∷ 0 ∷ 0 ∷ 0 ∷ 2 ∷ 8 ∷ 9 ∷ []

read_frame-ends_example : read_frame pipe read_some version_2 read_frame_input ≢ none
read_frame-ends_example = read_frame-ends pipe read_some version_2 read_frame_input

read_frame_test :
    read_frame pipe read_some version_2 read_frame_input
    ≡ some (ok (some (7, 0, 0, 8 ∷ 9 ∷ [])), [])
unfolding read_frame parse_header read_payload
read_frame_test = refl

abbrev no_streams : Connection
no_streams = record {
  streams = [];
  stream_contexts = [];
  default_stream = none;
  closed_peer_streams = [];
  next_stream_id = 1;
  closing = false;
  is_closed = false;
  opened = [];
  closed_streams = [];
}

abbrev describe : Error → String
describe e = "error"

abbrev no_others : Connection → Connection
no_others c = c

abbrev shutdown : List ℕ → Result (Unit {0}) × List ℕ
shutdown w = (ok tt, w)

abbrev first : Message
first = (7, 0, 8 ∷ 9 ∷ [])

abbrev second : Message
second = (7, 1, [])

abbrev sender : PlainWriter pipe shutdown describe
sender = record {
  writer = some [];
  outbound_rx = map as_plain (first ∷ second ∷ []);
  debug = new_connection_counters;
  replies = [];
  reports = [];
  connection = no_streams;
}

abbrev receiver : PlainReader pipe read_some describe no_others
receiver = record {
  connection = no_streams;
  debug = new_connection_counters;
  reader = encode_all version_2 (first ∷ second ∷ []);
}

plain_delivery_example :
    (plain_writer_turn pipe shutdown describe version_2 sender outbound_ready ≡ (
      record sender {
        writer = some (encode_all version_2 (first ∷ second ∷ []));
        outbound_rx = [];
        debug = all_written version_2 (first ∷ second ∷ []) new_connection_counters;
      },
      true,
    ))
    × ((r : List ℕ) × (plain_reader pipe read_some describe no_others version_2 3 receiver
          ≡ some (
            record receiver {
              connection = close_by_peer no_others (accept_all (first ∷ second ∷ []) no_streams);
              debug = all_read version_2 (first ∷ second ∷ []) new_connection_counters;
              reader = r;
            },
            false,
          )))
    × ((close_by_peer no_others (accept_all (first ∷ second ∷ []) no_streams)).is_closed ≡ true)
unfolding plain_writer_turn pipe-IsWorking build_header
plain_delivery_example =
    plain_delivery pipe pipe-IsWorking read_some read_some-IsReading shutdown describe no_others
      version_2 first (second ∷ []) [] (encode_all version_2 (first ∷ second ∷ [])) sender receiver
      version_2-IsConfig ((omega arith, refl, omega arith), ((omega arith, refl, omega arith), tt))
      refl refl refl refl refl refl
