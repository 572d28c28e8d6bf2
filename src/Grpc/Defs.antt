-- ===== src/Grpc/Defs.antt =====
-- The definitions of pkg/logger/grpc/interceptor.go. What grpc-go and the runtime provide is a
-- parameter; an interceptor returns the lines that it logs beside its result.
use kit_logger.Base.{
  ℕ, Bool, false, ◌||◌, Option, none, some, List, [], ◌∷◌, String, ◌==◌, if◌then◌else◌,
}
use kit_logger.Base.Int.{ℤ, pos}
use kit_logger.Slog.{Value, str, int, Attrs, nil, cons, append, level_info, level_warn, level_error}

-- `codes.Code`
pub data Code : Type 0 where
  ok canceled unknown invalid_argument deadline_exceeded not_found already_exists : Code
  permission_denied resource_exhausted failed_precondition aborted out_of_range : Code
  unimplemented internal unavailable data_loss unauthenticated : Code
  other_code : ℕ → Code

abbrev pub default_metadata_keys : List String
default_metadata_keys = "x-request-id" ∷ "x-correlation-id" ∷ []

-- `defaultLevelFor`
unfoldable pub default_level_for : Code → ℤ
default_level_for ok = level_info
default_level_for canceled = level_warn
default_level_for deadline_exceeded = level_warn
default_level_for unavailable = level_warn
default_level_for resource_exhausted = level_warn
default_level_for invalid_argument = level_warn
default_level_for not_found = level_warn
default_level_for already_exists = level_warn
default_level_for permission_denied = level_warn
default_level_for unauthenticated = level_warn
default_level_for failed_precondition = level_warn
default_level_for out_of_range = level_warn
default_level_for aborted = level_warn
default_level_for unknown = level_error
default_level_for internal = level_error
default_level_for unimplemented = level_error
default_level_for data_loss = level_error
default_level_for (other_code n) = level_error

-- An error of a call: io.EOF, an error of the context, a status error by its code and text, or any
-- other. `status.Error` makes a status error.
pub data CallError : Type 0 where
  eof : CallError
  ctx_canceled ctx_deadline : CallError
  status_error : Code → String → CallError
  other_error : ℕ → CallError

-- a value that a handler panics with
abbrev pub Panic : Type 0
Panic = ℕ

-- What grpc-go and Go give: `status.Convert(err).Code()` of an error, `Code.String`, `Error`, the text
-- of a panic, and a payload as a value.
pub record Texts (M : Type 0) : Type 0 where
  pub code_of : CallError → Code
  pub code_name : Code → String
  pub error_text : CallError → String
  pub panic_value : Panic → String
  pub payload : M → Value

-- `status.Convert(err).Code()`, which is OK for no error
abbrev pub convert : {M : Type 0} → Texts M → Option CallError → Code
convert tx none = ok
convert tx (some e) = tx.code_of e

-- `Options`, but for the logger
pub record Options : Type 0 where
  pub level_for : Option (Code → ℤ)
  pub metadata_keys : List String
  pub disable_panic_recovery : Bool
  pub skip_methods : List String
  pub log_payloads : Bool

-- `resolved`
pub record Resolved : Type 0 where
  pub level_for : Code → ℤ
  pub keys : List String
  pub skip : List String

abbrev or_default_level : Option (Code → ℤ) → Code → ℤ
or_default_level none = default_level_for
or_default_level (some f) = f

abbrev pub or_default_keys : List String → List String
or_default_keys [] = default_metadata_keys
or_default_keys (k ∷ ks) = k ∷ ks

-- `resolve`
unfoldable pub resolve : Options → Resolved
resolve opts = record {
  level_for = or_default_level opts.level_for;
  keys = or_default_keys opts.metadata_keys;
  skip = opts.skip_methods;
}

abbrev pub contains : List String → String → Bool
contains [] m = false
contains (k ∷ ks) m = k == m || contains ks m

-- `skipped`
unfoldable pub skipped : Resolved → String → Bool
skipped r method = contains r.skip method

-- `metadata.MD`: the values of a key
abbrev pub Metadata : Type 0
Metadata = String → List String

abbrev pub first_of : List String → Option String
first_of [] = none
first_of (v ∷ vs) = if v == "" then none else some v

-- the value of this key, or what the later ones give
abbrev pub or_later : Option String → Option String → Option String
or_later rest (some v) = some v
or_later rest none = rest

-- the loop of `extractRequestID`
unfoldable pub extract_loop : Metadata → List String → Option String
extract_loop md [] = none
extract_loop md (k ∷ ks) = or_later (extract_loop md ks) (first_of (md k))

-- `extractRequestID`
unfoldable pub extract_request_id : Option Metadata → List String → Option String
extract_request_id none keys = none
extract_request_id (some md) keys = extract_loop md keys

-- What an interceptor reads of its call: its method, the incoming metadata, the peer's address, the
-- milliseconds to the deadline, the elapsed ones, and the stack.
pub record Call : Type 0 where
  pub method : String
  pub metadata : Option Metadata
  pub peer : Option String
  pub deadline_ms : Option ℤ
  pub elapsed_ms : ℕ
  pub stack : String

-- one call of the logger's Log
pub record Line : Type 0 where
  pub level : ℤ
  pub message : String
  pub fields : Attrs

abbrev pub text_field : String → Option String → Attrs
text_field key none = nil
text_field key (some s) = cons key (str s) nil

abbrev pub int_field : String → Option ℤ → Attrs
int_field key none = nil
int_field key (some n) = cons key (int n) nil

-- `fields` of an interceptor up to its call's outcome, `counts` being those of a stream
unfoldable pub call_fields : Call → Attrs → Option String → Attrs
call_fields call counts id = cons "method" (str call.method) (
    cons "duration_ms" (int (pos call.elapsed_ms)) (
      append counts (
        append (text_field "request_id" id)
          (append (text_field "peer" call.peer) (int_field "deadline_ms" call.deadline_ms)))))

-- what a handler does: it returns, with a reply or an error, or panics
pub data Outcome (R : Type 0) : Type 0 where
  returned : R → Option CallError → Outcome R
  panicked : Panic → Outcome R

abbrev pub grpc_call : ℤ → Attrs → Line
grpc_call level fields = record { level = level; message = "grpc_call"; fields = fields }

abbrev pub internal_error : CallError
internal_error = status_error internal "internal error"

module _ {M : Type 0} (tx : Texts M) where
  -- the fields of a handler's panic
  unfoldable pub panic_fields : Call → Panic → Attrs
  panic_fields call p =
      cons "code" (str (tx.code_name internal))
        (cons "panic" (str (tx.panic_value p)) (cons "stack" (str call.stack) nil))

  -- the code and the error of a call
  unfoldable pub result_fields : Option CallError → Attrs
  result_fields err =
      cons "code" (str (tx.code_name (convert tx err)))
        (elim err [ none ↦ nil | some e ↦ cons "error" (str (tx.error_text e)) nil ])

  -- the payloads of a call that has returned no error
  unfoldable pub payload_fields : Bool → Option CallError → M → M → Attrs
  payload_fields log_payloads (some e) req resp = nil
  payload_fields log_payloads none req resp =
      if log_payloads
      then cons "request" (tx.payload req) (cons "response" (tx.payload resp) nil)
      else nil

  -- the deferred function of a server interceptor: the result of the call and the line
  unfoldable pub finish_call :
      {R : Type 0}
      → Options
      → Call
      → Attrs
      → R
      → (R → Option CallError → Attrs)
      → Outcome R
      → Outcome R × Line
  finish_call opts call fields no_reply payloads (panicked p) = (
    if opts.disable_panic_recovery then panicked p else returned no_reply (some internal_error),
    grpc_call level_error (append fields (panic_fields call p)),
  )
  finish_call opts call fields no_reply payloads (returned resp err) = (
    returned resp err,
    grpc_call ((resolve opts).level_for (convert tx err))
        (append fields (append (result_fields err) (payloads resp err))),
  )
