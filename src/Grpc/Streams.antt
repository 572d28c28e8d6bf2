-- ===== src/Grpc/Streams.antt =====
-- The stream interceptor of a server, and the request id that goes from a client to a server, in
-- pkg/logger/grpc/interceptor.go.
use kit_logger.Base.{
  ℕ, ◌+◌, ◌≡◌, refl, ◌∙◌, false, Option, none, some, List, [], ◌∷◌, String, arith,
}
use kit_logger.Base.Int.{pos}
use kit_logger.Slog.{Value, str, int, Attrs, nil, cons, append}
use kit_logger.GlobalFields.{lookup_field}
use kit_logger.Grpc.Defs.{
  Code, CallError, status_error, Texts, convert, Options, resolve, skipped, extract_request_id,
  Call, Line, call_fields, Outcome, returned, panicked, finish_call,
}
use kit_logger.Grpc.Server.{
  context_id, ServerStream, Wrapped, StreamProgram, return, raise, recv, send, count_ok,
  wrapped_recv, wrapped_send, run_stream, stream_server,
}
use kit_logger.Grpc.Handled.{client_sees, level_of, lookup-call_fields, finish_call_lem}

-- what one call of a stream returned
pub data Passed : Type 0 where
  got : Option CallError → Passed
  put : Option CallError → Passed

pub received : List Passed → ℕ
received [] = 0
received (got e ∷ ps) = count_ok e (received ps)
received (put e ∷ ps) = received ps

pub sent : List Passed → ℕ
sent [] = 0
sent (got e ∷ ps) = sent ps
sent (put e ∷ ps) = count_ok e (sent ps)

module _ {S M : Type 0} (ss : ServerStream S M) where
  -- the handler's own run on the stream, with what each call returned
  pub run_direct : StreamProgram M → S → Outcome (Unit {0}) × S × List Passed
  run_direct (return err) s = (returned tt err, s, [])
  run_direct (raise p) s = (panicked p, s, [])
  run_direct (recv next) s =
      let ((e, m), s') = ss.recv_msg s in
      let (o, s'', ps) = run_direct (next e m) s' in (o, s'', got e ∷ ps)
  run_direct (send m next) s =
      let (e, s') = ss.send_msg m s in
      let (o, s'', ps) = run_direct (next e) s' in (o, s'', put e ∷ ps)

  -- the wrapper of a stream with its counters
  abbrev at : S → ℕ → ℕ → Wrapped S
  at s m n = record { inner = s; recv_msgs = m; sent_msgs = n }

  -- the run of the handler on the wrapper, from the handler's own run
  abbrev added : Outcome (Unit {0}) × S × List Passed → ℕ → ℕ → Outcome (Unit {0}) × Wrapped S
  added (o, s, ps) m n = (o, at s (m + received ps) (n + sent ps))

  same_counts :
      (o : Outcome (Unit {0})) (s : S) {m m' n n' : ℕ}
      → m ≡ m'
      → n ≡ n'
      → ◌≡◌ {A = Outcome (Unit {0}) × Wrapped S} (o, at s m n) (o, at s m' n')
  same_counts o s e e' = rw (e, e') refl

  count_ok-add : (e : Option CallError) (m n : ℕ) → count_ok e m + n ≡ m + count_ok e n
  count_ok-add none m n = omega arith
  count_ok-add (some e) m n = refl

  run_stream-added :
      (p : StreamProgram M) (s : S) (m n : ℕ)
      → run_stream ss p (at s m n) ≡ added (run_direct p s) m n
  unfolding run_direct run_stream wrapped_recv wrapped_send received sent
  run_stream-added (return err) s m n = same_counts (returned tt err) s (omega arith) (omega arith)
  run_stream-added (raise p) s m n = same_counts (panicked p) s (omega arith) (omega arith)
  run_stream-added (recv next) s m n =
      let ((e, msg), s') = ss.recv_msg s in
      let (o, s'', ps) = run_direct (next e msg) s' in
      run_stream-added (next e msg) s' (count_ok e m) n
      ∙ same_counts o s'' (count_ok-add e m (received ps)) refl
  run_stream-added (send msg next) s m n =
      let (e, s') = ss.send_msg msg s in
      let (o, s'', ps) = run_direct (next e) s' in
      run_stream-added (next e) s' m (count_ok e n)
      ∙ same_counts o s'' refl (count_ok-add e n (sent ps))

  run_stream-run_direct :
      (p : StreamProgram M) (s : S)
      → (let (o, s', ps) = run_direct p s in
          run_stream ss p (at s 0 0) ≡ (o, at s' (received ps) (sent ps)))
  run_stream-run_direct p s =
      let (o, s', ps) = run_direct p s in
      run_stream-added p s 0 0 ∙ same_counts o s' (omega arith) (omega arith)

  finish_call-lookup :
      {R : Type 0} (tx : Texts M) (opts : Options) (call : Call) (fields : Attrs) (no_reply : R)
      (payloads : R → Option CallError → Attrs) (o : Outcome R) (k : String) (v : Option Value)
      → ((rest : Attrs) → lookup_field k (append fields rest) ≡ v)
      → lookup_field k (finish_call tx opts call fields no_reply payloads o).1.fields ≡ v
  unfolding finish_call
  finish_call-lookup tx opts call fields no_reply payloads (panicked p) k v h = h _
  finish_call-lookup tx opts call fields no_reply payloads (returned resp err) k v h = h _

  -- A stream that is not skipped, with recovery, where the code of a status error is its own: the
  -- wrapped stream ends as in the handler's own run on the stream, and the client gets the handler's
  -- error, or an Internal error in place of a panic. Exactly one line is logged: its code is that of
  -- the error which the client gets, its level is the error level for a panic and the level of that
  -- code otherwise, and it counts the messages that were received and sent without an error.
  pub stream_server_lem :
      (tx : Texts M)
      → ((c : Code) (t : String) → tx.code_of (status_error c t) ≡ c)
      → (opts : Options) (call : Call) (ctx_id : Option String)
        (handler : Option String → StreamProgram M) (s : S)
      → opts.disable_panic_recovery ≡ false
      → skipped (resolve opts) call.method ≡ false
      → (let ((result, left), lines) = stream_server ss tx opts call ctx_id handler s in
          let id = extract_request_id call.metadata (resolve opts).keys in
          let (o, s', ps) = run_direct (handler (context_id id ctx_id)) s in
          let (_, err) = client_sees tt o in
          (result ≡ returned tt err)
          × (left ≡ s')
          × (line : Line) × (lines ≡ line ∷ [])
          × (lookup_field "code" line.fields ≡ some (str (tx.code_name (convert tx err))))
          × (line.level ≡ level_of tx opts o)
          × (lookup_field "msg_received" line.fields ≡ some (int (pos (received ps))))
          × (lookup_field "msg_sent" line.fields ≡ some (int (pos (sent ps)))))
  unfolding stream_server call_fields lookup_field
  stream_server_lem tx statuses opts call ctx_id handler s on logged =
      let id = extract_request_id call.metadata (resolve opts).keys in
      let p = handler (context_id id ctx_id) in
      let (o, s', ps) = run_direct p s in
      let counts =
        cons "msg_received" (int (pos (received ps))) (cons "msg_sent" (int (pos (sent ps))) nil) in
      let fields = call_fields call counts id in
      let none_of : Unit {0} → Option CallError → Attrs = λ resp err. nil in
      let (result, code, level) =
        finish_call_lem tx statuses opts call fields tt none_of o on
          (λ rest. lookup-call_fields call counts id rest refl) in
      rw (logged, run_stream-run_direct p s)
        (
          result,
          refl,
          _,
          refl,
          code,
          level,
          finish_call-lookup tx opts call fields tt none_of o "msg_received" _ (λ rest. refl),
          finish_call-lookup tx opts call fields tt none_of o "msg_sent" _ (λ rest. refl),
        )
