-- ===== src/Grpc/Finalize.antt =====
-- The end of a client stream and its line in pkg/logger/grpc/interceptor.go.
use kit_logger.Base.{
  ℕ, ◌+◌, ◌≡◌, refl, ap, ◌∙◌, Bool, true, false, not, Option, none, some, List, [], ◌∷◌, ◌++◌,
  String, arith, if◌then◌else◌,
}
use kit_logger.Slog.{str}
use kit_logger.GlobalFields.{lookup_field}
use kit_logger.Grpc.Defs.{ok, CallError, eof, Texts, Options, resolve, Call, Line}
use kit_logger.Grpc.Client.{
  ClientStream, Event, sent, received, closed, context_done, log_end, end_code, finalize,
  client_send, client_recv, client_close, client_step, client_run,
}

-- What of an event ends the stream's log: an error, or the only message of a stream that the server
-- does not stream.
pub data Ending (server_streams : Bool) : Event → Option CallError → Type 0 where
  send_failed : {e : CallError} → Ending server_streams (sent (some e)) (some e)
  recv_failed : {e : CallError} → Ending server_streams (received (some e)) (some e)
  close_failed : {e : CallError} → Ending server_streams (closed (some e)) (some e)
  cut_off : {e : CallError} → Ending server_streams (context_done e) (some e)
  only_message : server_streams ≡ false → Ending server_streams (received none) none

-- an event that does not end it
pub data Going (server_streams : Bool) : Event → Type 0 where
  send_ok : Going server_streams (sent none)
  recv_ok : server_streams ≡ true → Going server_streams (received none)
  close_ok : Going server_streams (closed none)

pub data AllGoing (server_streams : Bool) : List Event → Type 0 where
  at_once : AllGoing server_streams []
  then_ :
      {e : Event} {es : List Event}
      → Going server_streams e
      → AllGoing server_streams es
      → AllGoing server_streams (e ∷ es)

-- the messages that an event has received and sent without an error
abbrev pub received_by : Event → ℕ
received_by (received none) = 1
received_by (received (some e)) = 0
received_by (sent o) = 0
received_by (closed o) = 0
received_by (context_done e) = 0

abbrev pub sent_by : Event → ℕ
sent_by (sent none) = 1
sent_by (sent (some e)) = 0
sent_by (received o) = 0
sent_by (closed o) = 0
sent_by (context_done e) = 0

pub received_in : List Event → ℕ
received_in [] = 0
received_in (e ∷ es) = received_by e + received_in es

pub sent_in : List Event → ℕ
sent_in [] = 0
sent_in (e ∷ es) = sent_by e + sent_in es

-- the messages that an ending event itself has received
abbrev pub last_message : Option CallError → ℕ
last_message none = 1
last_message (some e) = 0

module _ {M : Type 0} (tx : Texts M) (opts : Options) (call : Call) (id : Option String) where
  abbrev after : List Event → ClientStream → ClientStream
  after es s = client_run tx opts call id es s

  abbrev step : Event → ClientStream → ClientStream
  step e s = client_step tx opts call id e s

  -- the stream as it is opened
  abbrev fresh : Bool → ℕ → ℕ → ClientStream
  fresh streams m n = record {
    server_streams = streams;
    finalized = false;
    recv_msgs = m;
    sent_msgs = n;
    lines = [];
  }

  client_run-append :
      (es fs : List Event) (s : ClientStream) → after (es ++ fs) s ≡ after fs (after es s)
  unfolding client_run
  client_run-append [] fs s = refl
  client_run-append (e ∷ es) fs s = client_run-append es fs (step e s)

  finalize-finalized :
      (o : Option CallError) (s : ClientStream)
      → s.finalized ≡ true
      → finalize tx opts call id o s ≡ s
  unfolding finalize
  finalize-finalized o s h = rw h refl

  same_lines :
      {t s : ClientStream} → t ≡ s → s.finalized ≡ true → (t.finalized ≡ true) × (t.lines ≡ s.lines)
  same_lines e h = (ap (λ r. r.finalized) e ∙ h, ap (λ r. r.lines) e)

  maybe-finalized :
      (b : Bool) (s : ClientStream)
      → s.finalized ≡ true
      → (let t = if b then finalize tx opts call id none s else s in
          (t.finalized ≡ true) × (t.lines ≡ s.lines))
  maybe-finalized true s h = same_lines (finalize-finalized none s h) h
  maybe-finalized false s h = (h, refl)

  step-finalized :
      (e : Event) (s : ClientStream)
      → s.finalized ≡ true
      → ((step e s).finalized ≡ true) × ((step e s).lines ≡ s.lines)
  unfolding client_step client_send client_recv client_close
  step-finalized (sent none) s h = (h, refl)
  step-finalized (sent (some e)) s h = same_lines (finalize-finalized (some e) s h) h
  step-finalized (received none) s h =
      maybe-finalized (not s.server_streams) (record s { recv_msgs = s.recv_msgs + 1 }) h
  step-finalized (received (some e)) s h = same_lines (finalize-finalized (some e) s h) h
  step-finalized (closed none) s h = (h, refl)
  step-finalized (closed (some e)) s h = same_lines (finalize-finalized (some e) s h) h
  step-finalized (context_done e) s h = same_lines (finalize-finalized (some e) s h) h

  run-finalized :
      (es : List Event) (s : ClientStream) → s.finalized ≡ true → (after es s).lines ≡ s.lines
  unfolding client_run
  run-finalized [] s h = refl
  run-finalized (e ∷ es) s h =
      let (h', same) = step-finalized e s h in run-finalized es (step e s) h' ∙ same

  fresh_counts : (b : Bool) {m m' n n' : ℕ} → m ≡ m' → n ≡ n' → fresh b m n ≡ fresh b m' n'
  fresh_counts b e e' = rw (e, e') refl

  step-Going :
      {b : Bool} {e : Event} (m n : ℕ)
      → Going b e
      → step e (fresh b m n) ≡ fresh b (m + received_by e) (n + sent_by e)
  unfolding client_step client_send client_recv client_close
  step-Going m n send_ok = fresh_counts _ (omega arith) refl
  step-Going m n (recv_ok on) = rw on (fresh_counts _ refl (omega arith))
  step-Going m n close_ok = fresh_counts _ (omega arith) (omega arith)

  run-AllGoing :
      {b : Bool} {es : List Event} (m n : ℕ)
      → AllGoing b es
      → after es (fresh b m n) ≡ fresh b (m + received_in es) (n + sent_in es)
  unfolding client_run received_in sent_in
  run-AllGoing m n at_once = fresh_counts _ (omega arith) (omega arith)
  run-AllGoing {es = e ∷ es} m n (then_ g gs) =
      ap (after es) (step-Going m n g)
      ∙ run-AllGoing (m + received_by e) (n + sent_by e) gs
      ∙ fresh_counts _ (omega arith) (omega arith)

  no_last :
      (o : Option CallError) (m n : ℕ)
      → log_end tx opts call id o m n ∷ [] ≡ log_end tx opts call id o (m + 0) n ∷ []
  no_last o m n = let e : m + 0 ≡ m = omega arith in rw e refl

  step-Ending :
      {b : Bool} {e : Event} {o : Option CallError}
      → Ending b e o
      → (m n : ℕ)
      → ((step e (fresh b m n)).finalized ≡ true)
        × ((step e (fresh b m n)).lines ≡ log_end tx opts call id o (m + last_message o) n ∷ [])
  unfolding client_step client_send client_recv client_close finalize
  step-Ending send_failed m n = (refl, no_last _ m n)
  step-Ending recv_failed m n = (refl, no_last _ m n)
  step-Ending close_failed m n = (refl, no_last _ m n)
  step-Ending cut_off m n = (refl, no_last _ m n)
  step-Ending (only_message off) m n = rw off (refl, refl)

  -- A client stream logs exactly one line, whatever ends it and whatever happens afterwards: its
  -- events being `es` without an ending one, then `e` which ends it by `o`, then any others, the line
  -- is that of the end `o` with the messages received and sent in `es`, and with the one that `e`
  -- receives where it ends the stream without an error.
  pub client_run-log_end :
      (b : Bool) (es : List Event) (e : Event) (o : Option CallError) (rest : List Event)
      → AllGoing b es
      → Ending b e o
      → (after (es ++ e ∷ rest) (fresh b 0 0)).lines
        ≡ log_end tx opts call id o (received_in es + last_message o) (sent_in es) ∷ []
  unfolding client_run
  client_run-log_end b es e o rest g end =
      let at_end =
        run-AllGoing 0 0 g
        ∙ fresh_counts b {m' = received_in es} {n' = sent_in es} (omega arith) (omega arith) in
      let (done, line) = step-Ending end (received_in es) (sent_in es) in
      ap (λ s. s.lines)
        (client_run-append es (e ∷ rest) (fresh b 0 0) ∙ ap (after (e ∷ rest)) at_end)
      ∙ run-finalized rest (step e (fresh b (received_in es) (sent_in es))) done
      ∙ line

  -- A stream that nothing has ended has logged nothing.
  pub client_run-open :
      (b : Bool) (es : List Event) → AllGoing b es → (after es (fresh b 0 0)).lines ≡ []
  client_run-open b es g = ap (λ s. s.lines) (run-AllGoing 0 0 g)

  -- A SendMsg that returns io.EOF, on a stream that nothing has ended, makes OK the code and the level
  -- of the only line of the stream, also where the server has failed the stream with the error `e`,
  -- which the RecvMsg after it returns.
  pub send_eof_logs_ok :
      (b : Bool) (es : List Event) (e : CallError) (rest : List Event)
      → AllGoing b es
      → (line : Line) × ((after
            (es ++ sent (some eof) ∷ received (some e) ∷ rest)
            (fresh b 0 0)).lines
          ≡ line ∷ [])
        × (lookup_field "code" line.fields ≡ some (str (tx.code_name ok)))
        × (line.level ≡ (resolve opts).level_for ok)
  unfolding log_end end_code lookup_field
  send_eof_logs_ok b es e rest g = (
    log_end tx opts call id (some eof) (received_in es + 0) (sent_in es),
    client_run-log_end b es (sent (some eof)) (some eof) (received (some e) ∷ rest) g send_failed,
    refl,
    refl,
  )
