-- ===== src/RecoveryProtocol/Control.antt =====
-- Control payloads.
use adaptivemsg_rust.Base.{ℕ, ◌≡◌, ◌⊎◌, List, [], ◌∷◌, arith, length}
use adaptivemsg_rust.Base.Bytes.{IsU64}
use adaptivemsg_rust.Error.{ok}
use adaptivemsg_rust.RecoveryProtocol.{
  build_ack_control_payload, build_ping_control_payload, build_close_control_payload,
  parse_control_payload, control_type_ack, control_type_ping, control_type_close,
}

-- The three control payloads are parsed back: an ACK with its sequence number, PING and CLOSE.
pub parse_control_payload-build :
    (seq : ℕ)
    → IsU64 seq
    → (parse_control_payload (build_ack_control_payload seq) ≡ ok (control_type_ack, seq))
      × (parse_control_payload build_ping_control_payload ≡ ok (control_type_ping, 0))
      × (parse_control_payload build_close_control_payload ≡ ok (control_type_close, 0))
unfolding parse_control_payload build_ack_control_payload build_ping_control_payload
    build_close_control_payload
parse_control_payload-build seq h = (ground arith, ground arith, ground arith)

-- What `parse_control_payload` accepts is an ACK of nine bytes, or PING or CLOSE alone, with value 0.
pub parse_control_payload-accepts :
    (payload : List ℕ) (kind value : ℕ)
    → parse_control_payload payload ≡ ok (kind, value)
    → ((kind ≡ control_type_ack) × (length payload ≡ 9))
      ⊎ (((kind ≡ control_type_ping) ⊎ (kind ≡ control_type_close))
          × (payload ≡ kind ∷ [])
          × (value ≡ 0))
unfolding parse_control_payload
parse_control_payload-accepts [] kind value h = cc
parse_control_payload-accepts (k ∷ []) kind value h = ground arith
parse_control_payload-accepts (k ∷ b ∷ rest) kind value h = ground arith
