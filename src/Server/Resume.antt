-- ===== src/Server/Resume.antt =====
-- src/server.rs: what a resume request can do.
use adaptivemsg_rust.Base.{
  ℕ, zero, suc, ◌≡◌, ◌≢◌, ◌⊎◌, inl, inr, sym, ◌∙◌, List, [], ◌∷◌, All, length, Option, none, some,
  true, false, get_elem?, arith, Option-cases,
}
use mathlib.Core.Path.{subst}
use adaptivemsg_rust.Error.{Result-cases, ok}
use adaptivemsg_rust.Streaming.{Io, Streams}
use adaptivemsg_rust.Protocol.{HandshakeConfig}
use adaptivemsg_rust.Recovery.{RecoveryState}
use adaptivemsg_rust.RecoveryProtocol.{AttachRequest, write_attach_response}
use adaptivemsg_rust.Server.Tokens.{tokens_equal_sound, tokens_equal_self}
use adaptivemsg_rust.Server.{
  Server, Known, resumed, refused, find, resume_target, tokens_equal, move_transport,
  resume_response, attach_resume,
}

-- Connection `i` may be resumed by `request`: it is the one that the request names, it is open, its codec is
-- the negotiated one, and the request has its secret.
pub record IsResumable (server : Server) (config : HandshakeConfig) (request : AttachRequest)
    (i : ℕ) (conn : Known) (recovery : RecoveryState) : Type 0 where
  pub named : find server.recovery_conns request.connection_id ≡ some i
  pub stored : get_elem? server.conns i ≡ some conn
  pub recovers : conn.recovery_state ≡ some recovery
  pub is_open : conn.is_closed ≡ false
  pub same_codec : conn.codec_id ≡ config.codec_id
  pub secret : recovery.resume_secret ≡ request.resume_secret

-- The secret of a connection, if it has one, is a token of 16 bytes.
abbrev TokenIn : Option RecoveryState → Type 0
TokenIn none = Unit
TokenIn (some recovery) = length recovery.resume_secret ≡ 16

abbrev pub HasToken : Known → Type 0
HasToken conn = TokenIn conn.recovery_state

stored-HasToken :
    (conns : List Known) (i : ℕ) (conn : Known)
    → All HasToken conns
    → get_elem? conns i ≡ some conn
    → HasToken conn
stored-HasToken [] i conn v e = ground arith
stored-HasToken (c ∷ conns) zero conn v e = let same : c ≡ conn = cc e in subst HasToken same v.0
stored-HasToken (c ∷ conns) (suc i) conn v e = stored-HasToken conns i conn v.1 e

resume_target-tokens :
    (server : Server) (config : HandshakeConfig) (request : AttachRequest) (i : ℕ) (conn : Known)
    (recovery : RecoveryState)
    → resume_target server config request ≡ some (i, conn, recovery)
    → (get_elem? server.conns i ≡ some conn)
      × (conn.recovery_state ≡ some recovery)
      × (tokens_equal recovery.resume_secret request.resume_secret ≡ true)
unfolding resume_target
resume_target-tokens server config request i conn recovery e =
    (ground arith, ground arith, ground arith)

token-length :
    (conn : Known) (recovery : RecoveryState)
    → HasToken conn
    → conn.recovery_state ≡ some recovery
    → length recovery.resume_secret ≡ 16
token-length conn recovery v e = subst TokenIn e v

resume_target-IsResumable :
    (server : Server) (config : HandshakeConfig) (request : AttachRequest) (i : ℕ) (conn : Known)
    (recovery : RecoveryState)
    → All HasToken server.conns
    → length request.resume_secret ≡ 16
    → resume_target server config request ≡ some (i, conn, recovery)
    → IsResumable server config request i conn recovery
unfolding resume_target
resume_target-IsResumable server config request i conn recovery v n e =
    let (stored_lem, recovers_lem, equal) =
      resume_target-tokens server config request i conn recovery e in
    record {
      named = ground arith;
      stored = stored_lem;
      recovers = recovers_lem;
      is_open = ground arith;
      same_codec = ground arith;
      secret =
          tokens_equal_sound recovery.resume_secret request.resume_secret
            (token-length conn recovery (stored-HasToken server.conns i conn v stored_lem)
                recovers_lem
              ∙ sym n)
            equal;
    }

same_target :
    (x y : ℕ × Known × RecoveryState)
    → ◌≡◌ {A = Option (ℕ × Known × RecoveryState)} (some x) (some y)
    → x.2 ≡ y.2
same_target x y e = cc

IsResumable-resume_target :
    (server : Server) (config : HandshakeConfig) (request : AttachRequest) (i : ℕ) (conn : Known)
    (recovery : RecoveryState)
    → IsResumable server config request i conn recovery
    → resume_target server config request ≡ some (i, conn, recovery)
unfolding resume_target
IsResumable-resume_target server config request i conn recovery v =
    ground (arith, v, tokens_equal_self request.resume_secret)

-- Secrets are tokens of 16 bytes. A resume either moves the transport to a connection that is resumable: open,
-- with the negotiated codec, named by the request, and with the very secret of the request. Or it is refused,
-- and then the server's connections are as before, and if some connection is resumable, the response could not
-- be written.
pub attach_resume_lem :
    (io : Io) (server : Server) (config : HandshakeConfig) (request : AttachRequest)
    (s : Streams io)
    → All HasToken server.conns
    → length request.resume_secret ≡ 16
    → ((attach_resume io server config request s).0 ≡ refused)
        × ((attach_resume io server config request s).1 ≡ server)
        × ((i : ℕ) (conn : Known) (recovery : RecoveryState)
            → IsResumable server config request i conn recovery
            → (write_attach_response io (resume_response recovery) s).0 ≢ ok tt)
      ⊎ ((i : ℕ) × (conn : Known) × (recovery : RecoveryState) × IsResumable server config request i
            conn recovery
          × ((attach_resume io server config request s).0 ≡ resumed)
          × ((attach_resume io server config request s).1
              ≡ move_transport server i conn request.last_recv_seq))
unfolding attach_resume
attach_resume_lem io server config request s v n =
    elim (Option-cases (resume_target server config request)) [
      | inl e ↦ inl (
        ground arith,
        ground arith,
        λ i conn recovery r w.
            ground (arith, e, IsResumable-resume_target server config request i conn recovery r),
      )
      | inr ((i, conn, recovery), e) ↦
          elim (Result-cases (write_attach_response io (resume_response recovery) s).0) [
            | inl w ↦ inr (
              i,
              conn,
              recovery,
              resume_target-IsResumable server config request i conn recovery v n e,
              ground arith,
              ground arith,
            )
            | inr w ↦ inl (
              ground arith,
              ground arith,
              λ i' conn' recovery' r w'. w (
                  subst (λ x. (write_attach_response io (resume_response x) s).0 ≡ ok tt)
                    (same_target (i', conn', recovery') (i, conn, recovery)
                      (sym (IsResumable-resume_target server config request i' conn' recovery' r)
                        ∙ e))
                    w'),
            )
          ]
    ]
