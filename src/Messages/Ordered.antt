-- ===== src/Messages/Ordered.antt =====
-- src/stream.rs: whatever is sent on a stream and however it is closed, no frame of it follows its FIN.
use adaptivemsg_rust.Base.{
  ◌≡◌, sym, ◌∙◌, String, List, [], ◌∷◌, ◌++◌, Option, some, none, Bool, true, false, not, ◌||◌, ◌⊎◌,
  inl, inr, arith, Bool-cases,
}
use adaptivemsg_rust.Error.{Result, ok, err, panicked}
use adaptivemsg_rust.Debug.{add_handler_calls}
use adaptivemsg_rust.Connection.{opened_stream, remove_peer_stream, remove_stream, send_fin}
use adaptivemsg_rust.Messages.{
  Library, Endpoint, protocol_noted, note_decode_error, taken, to_handler, closed_at, count, fin_at,
  send_boxed, protocol_error, end_stream, remove, queue_own_fin, start_fin, reply_sent,
  dispatch_raw, handler_turn, decoded, inbox_q, handler_q, handled, handler_failed, run_job,
}
use adaptivemsg_rust.Messages.Fin.{
  fin_at-fin_of, fin_of-start, remove_stream-fin_of, remove_peer_stream-fin_of, IsOrderedEndpoint,
  IsOrdered-streams, send_fin-IsOrdered, send_boxed-Sends, Sends-IsOrdered, true_or_false,
}

module _ {M Raw : Type 0} (lib : Library M Raw) where
  end_stream-cases :
      (s : Endpoint M Raw)
      → (end_stream lib s ≡ record s { connection = (remove_peer_stream s.connection s.id).0 })
        ⊎ ((end_stream lib s ≡ remove lib s)
            ⊎ ((fin_at s.connection.streams s.handle ≡ false)
                × (end_stream lib s ≡ remove lib (queue_own_fin lib (start_fin lib s)))))
  unfolding end_stream
  end_stream-cases s = elim (Bool-cases (opened_stream s.connection s.id)) [
    | inr e ↦ inl (ground arith)
    | inl e ↦ elim (Bool-cases (fin_at s.connection.streams s.handle)) [
      | inl k ↦ inr (inl (ground arith))
      | inr k ↦ inr (inr (k, ground arith))
    ]
  ]

  fin_ends-IsOrdered :
      (s : Endpoint M Raw) (pending : Bool)
      → fin_at s.connection.streams s.handle ≡ false
      → IsOrderedEndpoint s pending
      → IsOrderedEndpoint (remove lib (queue_own_fin lib (start_fin lib s))) pending
  fin_ends-IsOrdered s pending k v = elim v.registered [
    | inl q ↦ absurd (true_or_false (sym (fin_at-fin_of s.connection.streams s.handle true q) ∙ k))
    | inr (q, n) ↦
        let c = (start_fin lib s).connection in
        let b =
          send_fin-IsOrdered c s.recovers s.handle s.id s.outbound
            (fin_of-start s.connection.streams s.handle false q) n in
        IsOrdered-streams c.streams (remove_stream c s.id).0.streams s.handle s.id
          (send_fin c s.recovers 0 s.outbound s.id) pending (remove_stream-fin_of c s.id s.handle)
          (record {
            registered = b.registered;
            waiting = λ p. absurd (
                true_or_false
                  (sym (fin_at-fin_of s.connection.streams s.handle true (v.waiting p).0) ∙ k));
            last = b.last;
          })
  ]

  pub end_stream-IsOrdered :
      (s : Endpoint M Raw) (pending : Bool)
      → IsOrderedEndpoint s pending
      → IsOrderedEndpoint (end_stream lib s) pending
  end_stream-IsOrdered s pending v = elim (end_stream-cases s) [
    | inl e ↦ rw e (
        IsOrdered-streams s.connection.streams (remove_peer_stream s.connection s.id).0.streams
          s.handle s.id s.outbound pending (remove_peer_stream-fin_of s.connection s.id s.handle) v)
    | inr (inl e) ↦ rw e (
        IsOrdered-streams s.connection.streams (remove_stream s.connection s.id).0.streams s.handle
          s.id s.outbound pending (remove_stream-fin_of s.connection s.id s.handle) v)
    | inr (inr (k, e)) ↦ rw e (fin_ends-IsOrdered s pending k v)
  ]

  reply_sent-IsOrdered :
      (x : Result (Unit {0}) × Endpoint M Raw) (pending : Bool)
      → IsOrderedEndpoint (x.1) pending
      → IsOrderedEndpoint (reply_sent lib x) pending
  reply_sent-IsOrdered (ok u, s) pending v = v
  reply_sent-IsOrdered (err e, s) pending v = v
  reply_sent-IsOrdered (panicked, s) pending v = v

  pub send_boxed-IsOrdered :
      (s : Endpoint M Raw) (msg : M) (pending : Bool)
      → IsOrderedEndpoint s pending
      → IsOrderedEndpoint (send_boxed lib s msg).1 pending
  send_boxed-IsOrdered s msg pending v =
      Sends-IsOrdered s (send_boxed lib s msg).1 pending (send_boxed-Sends lib s msg) v

  pub protocol_error-IsOrdered :
      (s : Endpoint M Raw) (code message : String) (pending : Bool)
      → IsOrderedEndpoint s pending
      → IsOrderedEndpoint (protocol_error lib s code message) pending
  unfolding protocol_error
  protocol_error-IsOrdered s code message pending v =
      let s' = protocol_noted lib s code message in
      let sent = send_boxed lib s' (lib.error_reply code message) in
      end_stream-IsOrdered (reply_sent lib sent) pending (
        reply_sent-IsOrdered sent pending
          (send_boxed-IsOrdered s' (lib.error_reply code message) pending v))

  taken-IsOrdered :
      (gone : Bool) (s s' : Endpoint M Raw) (pending : Bool)
      → IsOrderedEndpoint s pending
      → IsOrderedEndpoint s' pending
      → IsOrderedEndpoint (taken lib gone s s').1 pending
  taken-IsOrdered true s s' pending v v' = v
  taken-IsOrdered false s s' pending v v' = v'

  to_handler-IsOrdered :
      (s : Endpoint M Raw) (r : Result M) (pending : Bool)
      → IsOrderedEndpoint s pending
      → IsOrderedEndpoint (to_handler lib s r) pending
  unfolding handler_q
  to_handler-IsOrdered s (ok msg) pending v =
      taken-IsOrdered (not s.has_handler_task || closed_at s.connection.streams s.handle) s
        (record s { handler_jobs = s.handler_jobs ++ msg ∷ [] }) pending v v
  to_handler-IsOrdered s (err e) pending v =
      protocol_error-IsOrdered (note_decode_error lib s e) "codec_error" (lib.describe e) pending v
  to_handler-IsOrdered s panicked pending v = v

  dispatch_raw-IsOrdered :
      (s : Endpoint M Raw) (raw : Raw) (pending : Bool)
      → IsOrderedEndpoint s pending
      → IsOrderedEndpoint (dispatch_raw lib s raw) pending
  unfolding dispatch_raw inbox_q
  dispatch_raw-IsOrdered s raw pending v = elim (Bool-cases (lib.has_handler raw)) [
    | inl e ↦ rw (dispatch_raw, e) (to_handler-IsOrdered s (lib.decode_raw raw) pending v)
    | inr e ↦
        rw (dispatch_raw, e)
          (taken-IsOrdered (closed_at s.connection.streams s.handle) s
            (record s { inbox = s.inbox ++ raw ∷ [] }) pending v v)
  ]

  pub decoded-IsOrdered :
      (s : Endpoint M Raw) (r : Result Raw) (pending : Bool)
      → IsOrderedEndpoint s pending
      → IsOrderedEndpoint (decoded lib s r).0 pending
  decoded-IsOrdered s (ok raw) pending v = dispatch_raw-IsOrdered s raw pending v
  decoded-IsOrdered s (err e) pending v =
      protocol_error-IsOrdered (note_decode_error lib s e) "codec_error" (lib.describe e) pending v
  decoded-IsOrdered s panicked pending v = v

  handled-IsOrdered :
      (s : Endpoint M Raw) (r : Result (Option M)) (pending : Bool)
      → IsOrderedEndpoint s pending
      → IsOrderedEndpoint (handled lib s r) pending
  handled-IsOrdered s (ok (some reply)) pending v = send_boxed-IsOrdered s reply pending v
  handled-IsOrdered s (ok none) pending v = send_boxed-IsOrdered s lib.ok_reply pending v
  handled-IsOrdered s (err e) pending v =
      send_boxed-IsOrdered (handler_failed lib s e)
        (lib.error_reply "handler_error" (lib.describe e)) pending v
  handled-IsOrdered s panicked pending v = v

  jobs-IsOrdered :
      (s : Endpoint M Raw) (jobs : List M) (pending : Bool)
      → IsOrderedEndpoint s pending
      → IsOrderedEndpoint (run_job lib s jobs) pending
  jobs-IsOrdered s [] pending v = v
  jobs-IsOrdered s (job ∷ jobs) pending v =
      handled-IsOrdered (count lib (record s { handler_jobs = jobs }) add_handler_calls)
        (lib.handle job) pending v

  pub handler_turn-IsOrdered :
      (s : Endpoint M Raw) (pending : Bool)
      → IsOrderedEndpoint s pending
      → IsOrderedEndpoint (handler_turn lib s) pending
  unfolding handler_turn
  handler_turn-IsOrdered s pending v = jobs-IsOrdered s s.handler_jobs pending v
