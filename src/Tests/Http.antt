-- ===== src/Tests/Http.antt =====
-- The HTTP middleware on a small writer and small handlers.
use kit_logger.Base.{
  ℕ, ◌≤◌, ◌<◌, ◌≡◌, ◌≢◌, ◌⊎◌, refl, subst, Bool, true, false, Option, none, some, List, [], ◌∷◌,
  ◌++◌, length, codes, arith, ltb, String, if◌then◌else◌,
}
use kit_logger.Base.Int.{pos}
use kit_logger.Slog.{int}
use kit_logger.GlobalFields.{lookup_field}
use kit_logger.Http.{
  generated, resolve_request_id, level_for_of, prepare_response, new_recorder, run, Panic,
  other_panic, Program, finish, raise, write_header, write, Options, Request, Line, serve,
  logged_status,
}
use kit_logger.Http.Writer.{Written, Writer, Sends, NetHttp, wire_status}
use kit_logger.Http.Recording.{IsFinal, NoFlush, run_plain, run-run_plain, expected_status}
use kit_logger.Http.Divergence.{informational-status_code}
use kit_logger.Http.Requests.{IsPrintable, resolve_request_id-IsPrintable, level_of, serve-logs}

-- a response whose header is not sent yet, or sent with a status, and its body
data Wire : Type 0 where
  waiting : List ℕ → Wire
  sending : ℕ → List ℕ → Wire

abbrev put_header : ℕ → Wire → Wire
put_header c (waiting body) = if ltb c 200 then waiting body else sending c body
put_header c (sending s body) = sending s body

abbrev put_body : List ℕ → Wire → Written × Wire
put_body b (waiting body) = ((length b, none), sending 200 (body ++ b))
put_body b (sending s body) = ((length b, none), sending s (body ++ b))

-- an empty source writes nothing
abbrev copy_body : List ℕ → Wire → Written × Wire
copy_body [] w = ((0, none), w)
copy_body (c ∷ cs) w = put_body (c ∷ cs) w

abbrev push_out : Wire → Wire
push_out (waiting body) = sending 200 body
push_out (sending s body) = sending s body

abbrev wire : Writer Wire
wire = record {
  set_header = λ k v w. w;
  write_header = put_header;
  write = put_body;
  flush = some push_out;
  hijack = none;
  push = none;
  read_from = none;
  copy = copy_body;
}

abbrev is_sent : Wire → Bool
is_sent (waiting body) = false
is_sent (sending s body) = true

abbrev sent_status : Wire → ℕ
sent_status (waiting body) = 0
sent_status (sending s body) = s

body-Sends : (b : List ℕ) → Sends wire is_sent sent_status (put_body b)
body-Sends b = record { implicit = first; kept = later }
  where
    first : (w : Wire) → is_sent w ≡ false → put_body b w ≡ put_body b (put_header 200 w)
    first (waiting body) h = refl
    first (sending s body) h = refl

    later :
        (w : Wire)
        → is_sent w ≡ true
        → (is_sent (put_body b w).1 ≡ true) × (sent_status (put_body b w).1 ≡ sent_status w)
    later (waiting body) h = absurd (cc)
    later (sending s body) h = (refl, refl)

copy-Sends : (b : List ℕ) → b ≢ [] → Sends wire is_sent sent_status (copy_body b)
copy-Sends [] some_bytes = absurd (some_bytes refl)
copy-Sends (c ∷ cs) some_bytes = body-Sends (c ∷ cs)

flush-Sends : Sends {R = Unit {0}} wire is_sent sent_status (λ w. (tt, push_out w))
flush-Sends = record { implicit = first; kept = later }
  where
    first :
        (w : Wire)
        → is_sent w ≡ false
        → ◌≡◌ {A = Unit {0} × Wire} (tt, push_out w) (tt, push_out (put_header 200 w))
    first (waiting body) h = refl
    first (sending s body) h = refl

    later :
        (w : Wire)
        → is_sent w ≡ true
        → (is_sent (push_out w) ≡ true) × (sent_status (push_out w) ≡ sent_status w)
    later (waiting body) h = absurd (cc)
    later (sending s body) h = (refl, refl)

final_law :
    (code : ℕ) (w : Wire)
    → 200 ≤ code
    → code ≤ 999
    → is_sent w ≡ false
    → (is_sent (put_header code w) ≡ true) × (sent_status (put_header code w) ≡ code)
final_law code (waiting body) ok short h =
    let e : ltb code 200 ≡ false = ground arith in rw e (refl, refl)
final_law code (sending s body) ok short h = absurd (cc)

superfluous_law : (code : ℕ) (w : Wire) → is_sent w ≡ true → put_header code w ≡ w
superfluous_law code (waiting body) h = absurd (cc)
superfluous_law code (sending s body) h = refl

informational_law :
    (code : ℕ) (w : Wire)
    → 101 < code
    → code < 200
    → is_sent w ≡ false
    → is_sent (put_header code w) ≡ false
informational_law code (waiting body) low high h =
    let e : ltb code 200 ≡ true = ground arith in rw e refl
informational_law code (sending s body) low high h = absurd (cc)

abbrev SendsIf : Option (Wire → Wire) → Type 0
SendsIf none = Unit {0}
SendsIf (some f) = Sends {R = Unit {0}} wire is_sent sent_status (λ w. (tt, f w))

flush_law :
    (f : Wire → Wire)
    → some push_out ≡ some f
    → Sends {R = Unit {0}} wire is_sent sent_status (λ w. (tt, f w))
flush_law f h = subst SendsIf h flush-Sends

no_read_from :
    (f : List ℕ → Wire → Written × Wire)
    → none ≡ some f
    → (b : List ℕ) → b ≢ []
    → Sends wire is_sent sent_status (f b)
no_read_from f h b some_bytes = absurd (cc)

abbrev net : NetHttp wire
net = record {
  committed = is_sent;
  sent = sent_status;
  final = final_law;
  superfluous = superfluous_law;
  informational = informational_law;
  header_map = λ k v w. refl;
  writes = body-Sends;
  copies = copy-Sends;
  reads = no_read_from;
  flushes = flush_law;
}

-- a handler that answers 404 with two bytes, and panics on a short write
abbrev after_write : Written → Program
after_write (n, none) = finish
after_write (n, some e) = raise (other_panic n)

abbrev not_found : Program
not_found = write_header 404 (write (1 ∷ 2 ∷ []) after_write)

not_found-IsFinal : IsFinal not_found
not_found-IsFinal = (omega arith, omega arith, checked)
  where
    checked : (r : Written) → IsFinal (after_write r)
    checked (n, none) = tt
    checked (n, some e) = tt

not_found-NoFlush : NoFlush not_found
not_found-NoFlush = checked
  where
    checked : (r : Written) → NoFlush (after_write r)
    checked (n, none) = tt
    checked (n, some e) = tt

abbrev opts : Options
opts = record {
  request_id_header = "";
  disable_response_id_header = false;
  level_for = none;
  skip_paths = "/healthz" ∷ [];
}

abbrev req : Request
req = record {
  method = "GET";
  path = "/orders";
  inbound_id = "req-1";
  gen = generated "x";
  ctx_err = none;
  elapsed_ms = 7;
  stack = "";
}

run-run_plain_example :
    ((run wire not_found (new_recorder (waiting []))).0.inner
      ≡ (run_plain wire not_found (waiting [])).0)
    × ((run wire not_found (new_recorder (waiting []))).1
        ≡ (run_plain wire not_found (waiting [])).1)
run-run_plain_example = run-run_plain net not_found (waiting []) not_found-IsFinal

informational-status_code_example :
    (run wire (write_header 103 (write_header 404 not_found)) (new_recorder (waiting []))
      ≡ run wire (write_header 103 not_found) (new_recorder (waiting [])))
    × (let p = write_header 103 (write_header 404 finish) in
        (logged_status
            (run wire p (new_recorder (waiting []))).0
            (run wire p (new_recorder (waiting []))).1
          ≡ 103)
        × (wire_status net (run wire p (new_recorder (waiting []))).0.inner ≡ 200)
        × (wire_status net (run_plain wire p (waiting [])).0 ≡ 404))
informational-status_code_example =
    informational-status_code net 103 404 not_found (waiting []) (omega arith) (omega arith)
      (omega arith) (omega arith) refl

resolve_request_id-IsPrintable_example :
    (resolve_request_id "req-1" (generated "x") ≡ "")
    ⊎ (IsPrintable (codes (resolve_request_id "req-1" (generated "x")))
        × (length (codes (resolve_request_id "req-1" (generated "x"))) ≤ 200))
resolve_request_id-IsPrintable_example = resolve_request_id-IsPrintable "req-1" (generated "x")

abbrev printed : Panic → String
printed p = "panic"

abbrev handled : String → Program
handled id = not_found

serve-logs_example :
    (let served = serve wire printed opts req handled (waiting []) in
      let plain =
        run_plain wire not_found
          (prepare_response wire opts (resolve_request_id "req-1" (generated "x")) (waiting [])) in
      (served.recorder.inner ≡ plain.0)
      × (served.panicked ≡ plain.1)
      × (line : Line) × (served.lines ≡ line ∷ [])
      × (lookup_field "status" line.fields ≡ some (int (pos (expected_status net plain))))
      × (line.level ≡ level_of (level_for_of none) plain.1 (expected_status net plain)))
serve-logs_example =
    serve-logs net printed opts req handled (waiting []) not_found-IsFinal not_found-NoFlush refl
      refl
