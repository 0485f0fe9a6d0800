-- ===== src/Messages/Decoding.antt =====
-- src/connection.rs: the decode task hands the messages of a stream to its inbox, in order, up to the FIN.
use adaptivemsg_rust.Base.{ℕ, ◌≡◌, List, [], ◌∷◌, ◌++◌, false, is_empty}
use adaptivemsg_rust.Error.{ok}
use adaptivemsg_rust.Connection.{Connection, update}
use adaptivemsg_rust.Messages.{Library, Endpoint, count}
use adaptivemsg_rust.Debug.{add_data_messages_received}

module _ {M Raw : Type 0} (lib : Library M Raw) where
  -- Each payload is the envelope of a message without a handler.
  abbrev pub Decode : List (List ℕ) → List Raw → Type 0
  Decode [] [] = Unit {0}
  Decode [] (raw ∷ raws) = Path ℕ 0 1
  Decode (payload ∷ payloads) [] = Path ℕ 0 1
  Decode (payload ∷ payloads) (raw ∷ raws) =
      (is_empty payload ≡ false)
      × (lib.decode_envelope payload ≡ ok raw)
      × (lib.has_handler raw ≡ false)
      × Decode payloads raws

abbrev rest_of : Connection → ℕ → List (List ℕ) → Connection
rest_of c h rest = record c { streams = update c.streams h (λ t. record t { incoming = rest }) }

module _ {M Raw : Type 0} (lib : Library M Raw) where
  -- The endpoint after a message was put in its inbox.
  abbrev received : Endpoint M Raw → List (List ℕ) → Raw → Endpoint M Raw
  received s rest raw =
      count lib
        (record s { connection = rest_of s.connection s.handle rest; inbox = s.inbox ++ raw ∷ [] })
        add_data_messages_received
