-- ===== src/Grpc/Handled.antt =====
-- What the server interceptors of pkg/logger/grpc/interceptor.go return and log for one call.
use kit_logger.Base.{
  ◌≡◌, refl, ◌∙◌, false, Option, none, some, [], ◌∷◌, String, ◌==◌, Bool-cases, inl, inr,
}
use kit_logger.Base.Int.{ℤ}
use kit_logger.Slog.{str, Attrs, nil, cons, append, level_error}
use kit_logger.GlobalFields.{lookup_field}
use kit_logger.Grpc.Defs.{
  Code, internal, CallError, status_error, Texts, convert, Options, resolve, skipped,
  extract_request_id, Call, Line, text_field, int_field, call_fields, Outcome, returned, panicked,
  panic_fields, result_fields, payload_fields, finish_call, internal_error,
}
use kit_logger.Grpc.Server.{context_id, unary_server}

-- the reply and the error that the client gets of a handler's outcome, with recovery
pub client_sees : {R : Type 0} → R → Outcome R → R × Option CallError
client_sees no_reply (panicked p) = (no_reply, some internal_error)
client_sees no_reply (returned resp err) = (resp, err)

-- the level of the line
pub level_of : {M R : Type 0} → Texts M → Options → Outcome R → ℤ
level_of tx opts (panicked p) = level_error
level_of tx opts (returned resp err) = (resolve opts).level_for (convert tx err)

skip_absent :
    (k : String) (xs ys : Attrs)
    → lookup_field k xs ≡ none
    → lookup_field k (append xs ys) ≡ lookup_field k ys
unfolding lookup_field
skip_absent k nil ys h = refl
skip_absent k (cons j v rest) ys h = elim (Bool-cases (j == k)) [
  | inl same ↦ cc (rw same at h)
  | inr other ↦ rw other (skip_absent k rest ys (rw other at h))
]

absent-append :
    (k : String) (xs ys : Attrs)
    → lookup_field k xs ≡ none
    → lookup_field k ys ≡ none
    → lookup_field k (append xs ys) ≡ none
absent-append k xs ys h h' = skip_absent k xs ys h ∙ h'

no_id : (o : Option String) → lookup_field "code" (text_field "request_id" o) ≡ none
unfolding lookup_field
no_id none = refl
no_id (some id) = refl

no_peer : (o : Option String) → lookup_field "code" (text_field "peer" o) ≡ none
unfolding lookup_field
no_peer none = refl
no_peer (some a) = refl

no_deadline : (o : Option ℤ) → lookup_field "code" (int_field "deadline_ms" o) ≡ none
unfolding lookup_field
no_deadline none = refl
no_deadline (some d) = refl

pub lookup-call_fields :
    (call : Call) (counts : Attrs) (id : Option String) (rest : Attrs)
    → lookup_field "code" counts ≡ none
    → lookup_field "code" (append (call_fields call counts id) rest) ≡ lookup_field "code" rest
unfolding call_fields lookup_field
lookup-call_fields call counts id rest h =
    let late = int_field "deadline_ms" call.deadline_ms in
    let peer = append (text_field "peer" call.peer) late in
    let named = append (text_field "request_id" id) peer in
    skip_absent "code" (append counts named) rest (
      absent-append "code" counts named h (
        absent-append "code" (text_field "request_id" id) peer (no_id id) (
          absent-append "code" (text_field "peer" call.peer) late (no_peer call.peer)
            (no_deadline call.deadline_ms))))

no_counts : lookup_field "code" nil ≡ none
unfolding lookup_field
no_counts = refl

module _ {M : Type 0} (tx : Texts M)
    (statuses : (c : Code) (s : String) → tx.code_of (status_error c s) ≡ c) where
  pub finish_call_lem :
      {R : Type 0} (opts : Options) (call : Call) (fields : Attrs) (no_reply : R)
      (payloads : R → Option CallError → Attrs) (o : Outcome R)
      → opts.disable_panic_recovery ≡ false
      → ((rest : Attrs) → lookup_field "code" (append fields rest) ≡ lookup_field "code" rest)
      → (let (result, line) = finish_call tx opts call fields no_reply payloads o in
          let (reply, err) = client_sees no_reply o in
          (result ≡ returned reply err)
          × (lookup_field "code" line.fields ≡ some (str (tx.code_name (convert tx err))))
          × (line.level ≡ level_of tx opts o))
  unfolding finish_call client_sees level_of panic_fields result_fields lookup_field
  finish_call_lem opts call fields no_reply payloads (panicked p) on skip =
      (rw on refl, skip _ ∙ rw (statuses internal "internal error") refl, refl)
  finish_call_lem opts call fields no_reply payloads (returned resp err) on skip =
      (refl, skip _, refl)

  -- A unary call that is not skipped, with recovery, where the code of a status error is its own: the
  -- client gets the handler's reply and error, or an Internal error in place of a panic. Exactly one
  -- line is logged; its code is that of the error which the client gets, and its level is the error
  -- level for a panic and the level of that code otherwise. The handler's context carries the request
  -- id of the metadata.
  pub unary_server_lem :
      (opts : Options) (call : Call) (req no_reply : M) (ctx_id : Option String)
      (handler : Option String → Outcome M)
      → opts.disable_panic_recovery ≡ false
      → skipped (resolve opts) call.method ≡ false
      → (let (result, lines) = unary_server tx opts call req no_reply ctx_id handler in
          let o =
            handler (context_id (extract_request_id call.metadata (resolve opts).keys) ctx_id) in
          let (reply, err) = client_sees no_reply o in
          (result ≡ returned reply err)
          × (line : Line) × (lines ≡ line ∷ [])
          × (lookup_field "code" line.fields ≡ some (str (tx.code_name (convert tx err))))
          × (line.level ≡ level_of tx opts o))
  unfolding unary_server
  unary_server_lem opts call req no_reply ctx_id handler on logged =
      let id = extract_request_id call.metadata (resolve opts).keys in
      let (result, code, level) =
        finish_call_lem opts call (call_fields call nil id) no_reply
          (λ resp err. payload_fields tx opts.log_payloads err req resp)
          (handler (context_id id ctx_id)) on
          (λ rest. lookup-call_fields call nil id rest no_counts) in
      rw logged (result, _, refl, code, level)
