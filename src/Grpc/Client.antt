-- ===== src/Grpc/Client.antt =====
-- The client interceptors of pkg/logger/grpc/interceptor.go.
use kit_logger.Base.{
  ℕ, ◌+◌, Bool, true, false, not, Option, none, some, List, [], ◌∷◌, ◌++◌, String, ◌==◌,
  if◌then◌else◌,
}
use kit_logger.Base.Int.{pos}
use kit_logger.Slog.{str, int, nil, cons, append}
use kit_logger.Grpc.Defs.{
  Code, ok, canceled, deadline_exceeded, CallError, eof, ctx_canceled, ctx_deadline, status_error,
  other_error, Texts, convert, Options, resolve, skipped, Call, Line, text_field, int_field,
  payload_fields, grpc_call,
}

-- the key of the outgoing metadata: `r.keys[0]`
abbrev pub first_key : List String → String
first_key [] = ""
first_key (k ∷ ks) = k

-- what is appended to the outgoing metadata
unfoldable pub outgoing : List String → Option String → Option (String × String)
outgoing keys none = none
outgoing keys (some id) = some (first_key keys, id)

module _ {M : Type 0} (tx : Texts M) where
  -- `UnaryClientInterceptor`. The invoker gets the pair that is appended to the outgoing metadata.
  unfoldable pub unary_client :
      Options
      → Call
      → M
      → M
      → Option String
      → (Option (String × String) → Option CallError)
      → Option CallError × List Line
  unary_client opts call req reply id invoker =
      if skipped (resolve opts) call.method
      then (invoker none, [])
      else (let err = invoker (outgoing (resolve opts).keys id) in
          let fields = cons "method" (str call.method) (
            cons "duration_ms" (int (pos call.elapsed_ms)) (
              cons "code" (str (tx.code_name (convert tx err))) (
                append (text_field "request_id" id) (
                  append (int_field "deadline_ms" call.deadline_ms) (
                    append
                      (text_field "error"
                        (elim err [ none ↦ none | some e ↦ some (tx.error_text e) ]))
                      (payload_fields tx opts.log_payloads err req reply)))))) in
          (err, grpc_call ((resolve opts).level_for (convert tx err)) fields ∷ []))

-- `wrappedClientStream`, with the lines that it has logged
pub record ClientStream : Type 0 where
  pub server_streams : Bool
  pub finalized : Bool
  pub recv_msgs : ℕ
  pub sent_msgs : ℕ
  pub lines : List Line

-- What opening a stream gives: the stream of a skipped method as it is, an error with its line, or a
-- wrapped stream.
pub data Opened : Type 0 where
  not_wrapped : Option CallError → Opened
  failed : CallError → Line → Opened
  wrapped : ClientStream → Opened

-- What happens to a client stream, by what the wrapped stream returns: a SendMsg, a RecvMsg, a
-- CloseSend, or the end of the call's context that the watcher sees.
pub data Event : Type 0 where
  sent : Option CallError → Event
  received : Option CallError → Event
  closed : Option CallError → Event
  context_done : CallError → Event

-- `code` and `errMsg` of `logEnd`; `status.FromContextError` on the two errors of a context
unfoldable pub end_code : {M : Type 0} → Texts M → Option CallError → Code
end_code tx none = ok
end_code tx (some eof) = ok
end_code tx (some ctx_canceled) = canceled
end_code tx (some ctx_deadline) = deadline_exceeded
end_code tx (some (status_error c s)) = tx.code_of (status_error c s)
end_code tx (some (other_error n)) = tx.code_of (other_error n)

unfoldable pub end_message : {M : Type 0} → Texts M → Option CallError → String
end_message tx none = ""
end_message tx (some eof) = ""
end_message tx (some ctx_canceled) = tx.error_text ctx_canceled
end_message tx (some ctx_deadline) = tx.error_text ctx_deadline
end_message tx (some (status_error c s)) = tx.error_text (status_error c s)
end_message tx (some (other_error n)) = tx.error_text (other_error n)

module _ {M : Type 0} (tx : Texts M) (opts : Options) (call : Call) (id : Option String) where
  -- `logEnd`
  unfoldable pub log_end : Option CallError → ℕ → ℕ → Line
  log_end err recv_msgs sent_msgs = grpc_call ((resolve opts).level_for (end_code tx err)) (
      cons "method" (str call.method) (
        cons "duration_ms" (int (pos call.elapsed_ms)) (
          cons "code" (str (tx.code_name (end_code tx err))) (
            cons "msg_received" (int (pos recv_msgs)) (
              cons "msg_sent" (int (pos sent_msgs)) (
                append (text_field "request_id" id) (
                  if not (end_message tx err == "")
                  then cons "error" (str (end_message tx err)) nil
                  else nil)))))))

  -- `finalize`
  unfoldable pub finalize : Option CallError → ClientStream → ClientStream
  finalize err s = if s.finalized then s else record s {
    finalized = true;
    lines = s.lines ++ log_end err s.recv_msgs s.sent_msgs ∷ [];
  }

  -- `SendMsg`
  unfoldable pub client_send : Option CallError → ClientStream → ClientStream
  client_send (some e) s = finalize (some e) s
  client_send none s = record s { sent_msgs = s.sent_msgs + 1 }

  -- `RecvMsg`
  unfoldable pub client_recv : Option CallError → ClientStream → ClientStream
  client_recv (some e) s = finalize (some e) s
  client_recv none s =
      let s' = record s { recv_msgs = s.recv_msgs + 1 } in
      if not s.server_streams then finalize none s' else s'

  -- `CloseSend`
  unfoldable pub client_close : Option CallError → ClientStream → ClientStream
  client_close (some e) s = finalize (some e) s
  client_close none s = s

  -- one event; `watchContext` waits for the context or for the stream to be finalized
  unfoldable pub client_step : Event → ClientStream → ClientStream
  client_step (sent e) s = client_send e s
  client_step (received e) s = client_recv e s
  client_step (closed e) s = client_close e s
  client_step (context_done e) s = finalize (some e) s

  unfoldable pub client_run : List Event → ClientStream → ClientStream
  client_run [] s = s
  client_run (e ∷ es) s = client_run es (client_step e s)

  -- the line for a stream that is not established
  unfoldable pub not_established : CallError → Line
  not_established e = grpc_call ((resolve opts).level_for (tx.code_of e)) (
      cons "method" (str call.method) (
        cons "duration_ms" (int (pos call.elapsed_ms)) (
          cons "code" (str (tx.code_name (tx.code_of e)))
            (cons "error" (str (tx.error_text e)) (text_field "request_id" id)))))

  -- `StreamClientInterceptor`, by what the streamer returns
  unfoldable pub stream_client : Bool → (Option (String × String) → Option CallError) → Opened
  stream_client server_streams streamer =
      if skipped (resolve opts) call.method
      then not_wrapped (streamer none)
      else elim (streamer (outgoing (resolve opts).keys id)) [
        | none ↦ wrapped (record {
          server_streams = server_streams;
          finalized = false;
          recv_msgs = 0;
          sent_msgs = 0;
          lines = [];
        })
        | some e ↦ failed e (not_established e)
      ]
