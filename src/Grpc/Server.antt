-- ===== src/Grpc/Server.antt =====
-- The server interceptors of pkg/logger/grpc/interceptor.go.
use kit_logger.Base.{ℕ, ◌+◌, Option, none, some, List, [], ◌∷◌, String, if◌then◌else◌}
use kit_logger.Base.Int.{pos}
use kit_logger.Slog.{int, nil, cons}
use kit_logger.Grpc.Defs.{
  CallError, Panic, Texts, Options, resolve, skipped, extract_request_id, Call, Line, call_fields,
  Outcome, returned, panicked, payload_fields, finish_call,
}

-- the request id of a handler's context: the one found, or the one that the context had
abbrev pub context_id : Option String → Option String → Option String
context_id (some id) old = some id
context_id none old = old

module _ {M : Type 0} (tx : Texts M) where
  -- `UnaryServerInterceptor`. A handler reads the request id of its context; `no_reply` is the nil
  -- reply.
  unfoldable pub unary_server :
      Options → Call → M → M → Option String → (Option String → Outcome M) → Outcome M × List Line
  unary_server opts call req no_reply ctx_id handler =
      if skipped (resolve opts) call.method
      then (handler ctx_id, [])
      else (let id = extract_request_id call.metadata (resolve opts).keys in
          let (result, line) =
            finish_call tx opts call (call_fields call nil id) no_reply
              (λ resp err. payload_fields tx opts.log_payloads err req resp)
              (handler (context_id id ctx_id)) in
          (result, line ∷ []))

-- `grpc.ServerStream`, on its state `S`
pub record ServerStream (S M : Type 0) : Type 0 where
  pub recv_msg : S → (Option CallError × M) × S
  pub send_msg : M → S → Option CallError × S

-- `wrappedServerStream`; the counters are those of int64, and do not reach its end
pub record Wrapped (S : Type 0) : Type 0 where
  pub inner : S
  pub recv_msgs : ℕ
  pub sent_msgs : ℕ

-- What a stream handler does: it receives and sends, and goes on by the results.
pub data StreamProgram (M : Type 0) : Type 0 where
  return : Option CallError → StreamProgram M
  raise : Panic → StreamProgram M
  recv : (Option CallError → M → StreamProgram M) → StreamProgram M
  send : M → (Option CallError → StreamProgram M) → StreamProgram M

abbrev pub count_ok : Option CallError → ℕ → ℕ
count_ok none n = n + 1
count_ok (some e) n = n

module _ {S M : Type 0} (ss : ServerStream S M) where
  -- `RecvMsg`
  unfoldable pub wrapped_recv : Wrapped S → (Option CallError × M) × Wrapped S
  wrapped_recv w =
      let ((e, m), s) = ss.recv_msg w.inner in
      ((e, m), record w { inner = s; recv_msgs = count_ok e w.recv_msgs })

  -- `SendMsg`
  unfoldable pub wrapped_send : M → Wrapped S → Option CallError × Wrapped S
  wrapped_send m w =
      let (e, s) = ss.send_msg m w.inner in
      (e, record w { inner = s; sent_msgs = count_ok e w.sent_msgs })

  -- `handler(srv, wrapped)`
  unfoldable pub run_stream : StreamProgram M → Wrapped S → Outcome (Unit {0}) × Wrapped S
  run_stream (return err) w = (returned tt err, w)
  run_stream (raise p) w = (panicked p, w)
  run_stream (recv next) w = let ((e, m), w') = wrapped_recv w in run_stream (next e m) w'
  run_stream (send m next) w = let (e, w') = wrapped_send m w in run_stream (next e) w'

  -- `StreamServerInterceptor`
  unfoldable pub stream_server :
      Texts M
      → Options
      → Call
      → Option String
      → (Option String → StreamProgram M)
      → S
      → (Outcome (Unit {0}) × S) × List Line
  stream_server tx opts call ctx_id handler s =
      let fresh : Wrapped S = record { inner = s; recv_msgs = 0; sent_msgs = 0 } in
      if skipped (resolve opts) call.method
      then (let (o, w) = run_stream (handler ctx_id) fresh in ((o, w.inner), []))
      else (let id = extract_request_id call.metadata (resolve opts).keys in
          let (o, w) = run_stream (handler (context_id id ctx_id)) fresh in
          let counts =
            cons "msg_received" (int (pos w.recv_msgs))
              (cons "msg_sent" (int (pos w.sent_msgs)) nil) in
          let (result, line) =
            finish_call tx opts call (call_fields call counts id) tt (λ resp err. nil) o in
          ((result, w.inner), line ∷ []))
