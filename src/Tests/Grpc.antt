-- ===== src/Tests/Grpc.antt =====
-- The gRPC interceptors on small handlers and streams.
use kit_logger.Base.{
  ℕ, ◌+◌, ◌≡◌, refl, true, false, Option, none, some, List, [], ◌∷◌, ◌++◌, String, ◌==◌, eq_refl,
  if◌then◌else◌,
}
use kit_logger.Base.Int.{pos}
use kit_logger.Slog.{str, int}
use kit_logger.GlobalFields.{lookup_field}
use kit_logger.Grpc.{
  Code, ok, unknown, unavailable, CallError, eof, ctx_canceled, ctx_deadline, status_error,
  other_error, Texts, convert, Options, resolve, skipped, Metadata, extract_request_id, Call, Line,
  Outcome, returned, panicked,
}
use kit_logger.Grpc.Server.{
  context_id, unary_server, ServerStream, StreamProgram, return, recv, send, stream_server,
}
use kit_logger.Grpc.Client.{
  Event, sent, received, closed, context_done, log_end, client_run, unary_client,
}
use kit_logger.Grpc.Handled.{client_sees, level_of, unary_server_lem}
use kit_logger.Grpc.Streams as Streams
use kit_logger.Grpc.Streams.{run_direct, stream_server_lem}
use kit_logger.Grpc.Finalize.{
  send_ok, recv_ok, close_ok, AllGoing, at_once, then_, cut_off, received_in, sent_in, last_message,
  client_run-log_end, send_eof_logs_ok,
}
use kit_logger.Grpc.RequestId.{error_of, request_id-round_trip}

abbrev code_of_error : CallError → Code
code_of_error (status_error c s) = c
code_of_error eof = unknown
code_of_error ctx_canceled = unknown
code_of_error ctx_deadline = unknown
code_of_error (other_error n) = unknown

abbrev named : Code → String
named c = "code"

abbrev texts : Texts ℕ
texts = record {
  code_of = code_of_error;
  code_name = named;
  error_text = λ e. "error";
  panic_value = λ p. "panic";
  payload = λ m. int (pos m);
}

statuses : (c : Code) (s : String) → texts.code_of (status_error c s) ≡ c
statuses c s = refl

abbrev opts : Options
opts = record {
  level_for = none;
  metadata_keys = [];
  disable_panic_recovery = false;
  skip_methods = "/health" ∷ [];
  log_payloads = false;
}

abbrev md : Metadata
md k = if k == "x-request-id" then "req-1" ∷ [] else []

abbrev call : Call
call = record {
  method = "/orders";
  metadata = some md;
  peer = none;
  deadline_ms = none;
  elapsed_ms = 3;
  stack = "";
}

not_skipped : skipped (resolve opts) call.method ≡ false
unfolding skipped resolve
not_skipped = refl

-- a handler that panics without a request id
abbrev handler : Option String → Outcome ℕ
handler (some id) = returned 7 (some (status_error unavailable "later"))
handler none = panicked 1

unary_server_lem_example :
    (let (result, lines) = unary_server texts opts call 5 0 none handler in
      let o = handler (context_id (extract_request_id (some md) (resolve opts).keys) none) in
      let (reply, err) = client_sees 0 o in
      (result ≡ returned reply err)
      × (line : Line) × (lines ≡ line ∷ [])
      × (lookup_field "code" line.fields ≡ some (str (texts.code_name (convert texts err))))
      × (line.level ≡ level_of texts opts o))
unary_server_lem_example =
    unary_server_lem texts statuses opts call 5 0 none handler refl not_skipped

-- a stream that yields its messages in turn and then its end, and takes what is sent
abbrev stream : ServerStream (List ℕ) ℕ
stream = record { recv_msg = next; send_msg = λ m s. (none, s) }
  where
    next : List ℕ → (Option CallError × ℕ) × List ℕ
    next [] = ((some eof, 0), [])
    next (m ∷ ms) = ((none, m), ms)

-- a handler that answers one message
abbrev echo : Option String → StreamProgram ℕ
echo id = recv (λ e m. send m (λ e'. return e'))

stream_server_lem_example :
    (let ((result, left), lines) = stream_server stream texts opts call none echo (4 ∷ []) in
      let id = extract_request_id (some md) (resolve opts).keys in
      let (o, s', ps) = run_direct stream (echo (context_id id none)) (4 ∷ []) in
      let (_, err) = client_sees tt o in
      (result ≡ returned tt err)
      × (left ≡ s')
      × (line : Line) × (lines ≡ line ∷ [])
      × (lookup_field "code" line.fields ≡ some (str (texts.code_name (convert texts err))))
      × (line.level ≡ level_of texts opts o)
      × (lookup_field "msg_received" line.fields ≡ some (int (pos (Streams.received ps))))
      × (lookup_field "msg_sent" line.fields ≡ some (int (pos (Streams.sent ps)))))
stream_server_lem_example =
    stream_server_lem stream texts statuses opts call none echo (4 ∷ []) refl not_skipped

abbrev before : List Event
before = sent none ∷ received none ∷ closed none ∷ []

before-AllGoing : AllGoing true before
before-AllGoing = then_ send_ok (then_ (recv_ok refl) (then_ close_ok at_once))

client_run-log_end_example :
    (client_run texts opts call none
      (before ++ context_done ctx_canceled ∷ received (some eof) ∷ [])
      (record {
        server_streams = true;
        finalized = false;
        recv_msgs = 0;
        sent_msgs = 0;
        lines = [];
      })).lines
    ≡ log_end texts opts call none
        (some ctx_canceled)
        (received_in before + last_message (some ctx_canceled))
        (sent_in before)
      ∷ []
client_run-log_end_example =
    client_run-log_end texts opts call none true before (context_done ctx_canceled)
      (some ctx_canceled) (received (some eof) ∷ []) before-AllGoing cut_off

send_eof_logs_ok_example :
    (line : Line) × ((client_run texts opts call none
        (before ++ sent (some eof) ∷ received (some (status_error unavailable "gone")) ∷ [])
        (record {
          server_streams = true;
          finalized = false;
          recv_msgs = 0;
          sent_msgs = 0;
          lines = [];
        })).lines
      ≡ line ∷ [])
    × (lookup_field "code" line.fields ≡ some (str (texts.code_name ok)))
    × (line.level ≡ (resolve opts).level_for ok)
send_eof_logs_ok_example =
    send_eof_logs_ok texts opts call none true before (status_error unavailable "gone") []
      before-AllGoing

-- a transport that makes every error a status error
abbrev status_of : Option CallError → Option CallError
status_of none = none
status_of (some e) = some (status_error (code_of_error e) "error")

-- a transport that delivers the appended pair
abbrev deliver : Option (String × String) → Metadata
deliver none key = []
deliver (some (k, v)) key = if k == key then v ∷ [] else []

arrives : (k : String) → deliver (some (k, "req-1")) k ≡ "req-1" ∷ []
arrives k = rw (eq_refl k) refl

request_id-round_trip_example :
    (let serve = (λ (pair : Option (String × String)). status_of (
        error_of
          (unary_server texts opts
            (record call { metadata = some (deliver pair) })
            5
            0
            none
            handler).0)) in
      (unary_client texts opts call 5 0 (some "req-1") serve).0
      ≡ status_of (client_sees 0 (handler (some "req-1"))).1)
request_id-round_trip_example =
    request_id-round_trip texts statuses opts opts call call 5 0 0 "req-1" deliver status_of handler
      refl refl not_skipped not_skipped (λ e. absurd (cc)) (arrives "x-request-id")
