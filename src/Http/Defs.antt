-- ===== src/Http/Defs.antt =====
-- The definitions of pkg/logger/httpmw/middleware.go. A request id is a text of code points: one that
-- is usable has a byte for each, and one with any other character is not usable in either reading.
use kit_logger.Base.{
  ℕ, ◌+◌, Bool, true, false, not, ◌&&◌, ◌||◌, Option, none, some, List, [], ◌∷◌, length, leb, ltb,
  String, ◌==◌, codes, if◌then◌else◌,
}
use kit_logger.Base.Int.{ℤ, pos}
use kit_logger.Slog.{Attrs, nil, cons, str, int, append, level_info, level_warn, level_error}
use kit_logger.Http.Writer.{WriteError, not_supported, Written, Writer}

abbrev pub default_request_id_header : String
default_request_id_header = "X-Request-Id"

abbrev pub max_request_id_len : ℕ
max_request_id_len = 200

abbrev pub all_printable : List ℕ → Bool
all_printable [] = true
all_printable (c ∷ cs) = not (ltb c 0x20 || ltb 0x7e c) && all_printable cs

-- `usableRequestID`
unfoldable pub usable_request_id : String → Bool
usable_request_id id =
    if id == "" || ltb max_request_id_len (length (codes id))
    then false
    else all_printable (codes id)

-- what a call of the id generator does
pub data Gen : Type 0 where
  generated : String → Gen
  gen_failed : Gen
  gen_panicked : Gen

-- `safeGen`
unfoldable pub safe_gen : Gen → Option String
safe_gen (generated id) = some id
safe_gen gen_failed = none
safe_gen gen_panicked = none

-- `resolveRequestID`
unfoldable pub resolve_request_id : String → Gen → String
resolve_request_id inbound gen =
    if usable_request_id inbound
    then inbound
    else elim (safe_gen gen) [ none ↦ "" | some id ↦ if not (usable_request_id id) then "" else id ]

-- `defaultLevelFor`
unfoldable pub default_level_for : ℕ → ℤ
default_level_for status =
    if leb 500 status then level_error else if leb 400 status then level_warn else level_info

-- `responseRecorder`
pub record Recorder (W : Type 0) : Type 0 where
  pub inner : W
  pub status : ℕ
  pub bytes : ℕ
  pub wrote_header : Bool

abbrev pub new_recorder : {W : Type 0} → W → Recorder W
new_recorder w = record { inner = w; status = 0; bytes = 0; wrote_header = false }

-- `statusCode`
unfoldable pub status_code : {W : Type 0} → Recorder W → ℕ
status_code rr = if not rr.wrote_header then 200 else rr.status

-- the wrapped writer's own ReadFrom, or io.Copy
abbrev pub read_by :
    {W : Type 0}
    → Option (List ℕ → W → Written × W)
    → (List ℕ → W → Written × W)
    → List ℕ
    → W
    → Written × W
read_by none copy = copy
read_by (some f) copy = f

abbrev pub flush_by : {W : Type 0} → Option (W → W) → W → W
flush_by none w = w
flush_by (some f) w = f w

-- counts what an operation on the wrapped writer wrote
abbrev pub counted : {W : Type 0} → Recorder W → Written × W → Written × Recorder W
counted rr (r, w) = (r, record rr { inner = w; bytes = rr.bytes + r.0 })

module _ {W : Type 0} (wr : Writer W) where
  -- `WriteHeader`
  unfoldable pub record_write_header : ℕ → Recorder W → Recorder W
  record_write_header code rr =
      if rr.wrote_header
      then rr
      else record rr { inner = wr.write_header code rr.inner; status = code; wrote_header = true }

  -- `if !rw.wroteHeader { rw.WriteHeader(http.StatusOK) }`
  abbrev pub ensure_header : Recorder W → Recorder W
  ensure_header rr = if not rr.wrote_header then record_write_header 200 rr else rr

  -- `Write`
  unfoldable pub record_write : List ℕ → Recorder W → Written × Recorder W
  record_write b rr = let rr' = ensure_header rr in counted rr' (wr.write b rr'.inner)

  -- `Flush`
  unfoldable pub record_flush : Recorder W → Recorder W
  record_flush rr = record rr { inner = flush_by wr.flush rr.inner }

  -- `Hijack`
  unfoldable pub record_hijack : Recorder W → Option WriteError × Recorder W
  record_hijack rr = elim wr.hijack [
    | none ↦ (some not_supported, rr)
    | some f ↦ let (e, w) = f rr.inner in (e, record rr { inner = w })
  ]

  -- `Push`
  unfoldable pub record_push : String → Recorder W → Option WriteError × Recorder W
  record_push target rr = elim wr.push [
    | none ↦ (some not_supported, rr)
    | some f ↦ let (e, w) = f target rr.inner in (e, record rr { inner = w })
  ]

  -- `ReadFrom`
  unfoldable pub record_read_from : List ℕ → Recorder W → Written × Recorder W
  record_read_from b rr =
      let rr' = ensure_header rr in counted rr' (read_by wr.read_from wr.copy b rr'.inner)

-- a value that a handler panics with
pub data Panic : Type 0 where
  abort_handler : Panic
  other_panic : ℕ → Panic

-- What a handler does with the response: calls, the later ones by what the earlier ones return, and
-- at last it returns or panics.
pub data Program : Type 0 where
  finish : Program
  raise : Panic → Program
  write_header : ℕ → Program → Program
  write : List ℕ → (Written → Program) → Program
  read_from : List ℕ → (Written → Program) → Program
  flush : Program → Program

module _ {W : Type 0} (wr : Writer W) where
  -- `next.ServeHTTP(rr, r)`
  unfoldable pub run : Program → Recorder W → Recorder W × Option Panic
  run finish rr = (rr, none)
  run (raise p) rr = (rr, some p)
  run (write_header c rest) rr = run rest (record_write_header wr c rr)
  run (write b rest) rr = let (r, rr') = record_write wr b rr in run (rest r) rr'
  run (read_from b rest) rr = let (r, rr') = record_read_from wr b rr in run (rest r) rr'
  run (flush rest) rr = run rest (record_flush wr rr)

-- `Options`, but for the logger; a generator is given with each request
pub record Options : Type 0 where
  pub request_id_header : String
  pub disable_response_id_header : Bool
  pub level_for : Option (ℕ → ℤ)
  pub skip_paths : List String

-- What the middleware reads of one request: the generator's answer, the error of its context once the
-- handler is done, the elapsed milliseconds, and the stack.
pub record Request : Type 0 where
  pub method : String
  pub path : String
  pub inbound_id : String
  pub gen : Gen
  pub ctx_err : Option String
  pub elapsed_ms : ℕ
  pub stack : String

-- one call of the logger's Log
pub record Line : Type 0 where
  pub level : ℤ
  pub message : String
  pub fields : Attrs

-- what is left after a request: the recorder, the lines logged, and the panic that goes on
pub record Served (W : Type 0) : Type 0 where
  pub recorder : Recorder W
  pub lines : List Line
  pub panicked : Option Panic

abbrev pub contains : List String → String → Bool
contains [] path = false
contains (p ∷ ps) path = p == path || contains ps path

abbrev pub or_default : String → String → String
or_default s fallback = if s == "" then fallback else s

-- the fields of every line
unfoldable pub base_fields : {W : Type 0} → Request → String → ℕ → Recorder W → Attrs
base_fields req id status rr = cons "method" (str req.method) (
    cons "path" (str req.path) (
      cons "status" (int (pos status)) (
        cons "duration_ms" (int (pos req.elapsed_ms)) (
          cons "bytes_written" (int (pos rr.bytes)) (
            cons "request_id" (str id)
              (elim req.ctx_err [ none ↦ nil | some e ↦ cons "context_err" (str e) nil ]))))))

abbrev pub is_abort : Panic → Bool
is_abort abort_handler = true
is_abort (other_panic n) = false

-- the level and the further fields of a line
unfoldable pub finish_line : (Panic → String) → (ℕ → ℤ) → Request → ℕ → Attrs → Option Panic → Line
finish_line panic_value level_for req status fields none = record {
  level = level_for status;
  message = "http_request";
  fields = fields;
}
finish_line panic_value level_for req status fields (some p) = record {
  level = level_error;
  message = "http_request";
  fields =
      append (append fields (cons "panic" (str (panic_value p)) nil))
        (if not (is_abort p) then cons "stack" (str req.stack) nil else nil);
}

-- the status that is logged
unfoldable pub logged_status : {W : Type 0} → Recorder W → Option Panic → ℕ
logged_status rr none = status_code rr
logged_status rr (some p) = if not rr.wrote_header then 500 else status_code rr

-- the level function of the options
abbrev pub level_for_of : Option (ℕ → ℤ) → ℕ → ℤ
level_for_of none = default_level_for
level_for_of (some f) = f

-- the response's id header
unfoldable pub prepare_response : {W : Type 0} → Writer W → Options → String → W → W
prepare_response wr opts id w =
    if not opts.disable_response_id_header && not (id == "")
    then wr.set_header (or_default opts.request_id_header default_request_id_header) id w
    else w

-- `New`, with `panicValue` as a parameter. The handler reads the request id from its context.
unfoldable pub serve :
    {W : Type 0}
    → Writer W
    → (Panic → String)
    → Options
    → Request
    → (String → Program)
    → W
    → Served W
serve wr panic_value opts req handler w =
    let id = resolve_request_id req.inbound_id req.gen in
    let (rr, panicked) = run wr (handler id) (new_recorder (prepare_response wr opts id w)) in
    let status = logged_status rr panicked in
    record {
      recorder = rr;
      lines =
          if contains opts.skip_paths req.path
          then []
          else finish_line panic_value (level_for_of opts.level_for) req status
              (base_fields req id status rr) panicked
            ∷ [];
      panicked = panicked;
    }
