-- ===== src/Http/Requests.antt =====
-- What the middleware of pkg/logger/httpmw/middleware.go logs for one request, and the request ids
-- that it accepts.
use kit_logger.Base.{
  ℕ, ◌≤◌, ◌≡◌, ◌⊎◌, refl, ap, ◌∙◌, true, false, not, ◌&&◌, Option, none, some, List, [], ◌∷◌,
  length, arith, String, ◌==◌, codes, Bool-cases, Option-cases, inl, inr,
}
use kit_logger.Base.Int.{ℤ, pos}
use kit_logger.Slog.{int, level_error}
use kit_logger.GlobalFields.{lookup_field}
use kit_logger.Http.Writer.{Writer, NetHttp}
use kit_logger.Http.Recording.{
  IsFinal, NoFlush, run_plain, run-run_plain, expected_status, run-logged_status,
}
use kit_logger.Http.Defs.{
  all_printable, usable_request_id, Gen, safe_gen, resolve_request_id, level_for_of,
  prepare_response, Recorder, new_recorder, run, Panic, Program, Options, Request, Line, contains,
  base_fields, finish_line, logged_status, serve,
}

-- A text of printable ASCII, not empty and not too long: it cannot end a header or a line.
pub data IsPrintable : List ℕ → Type 0 where
  no_more : IsPrintable []
  printable : {c : ℕ} {cs : List ℕ} → 0x20 ≤ c → c ≤ 0x7e → IsPrintable cs → IsPrintable (c ∷ cs)

all_printable-IsPrintable : (cs : List ℕ) → all_printable cs ≡ true → IsPrintable cs
all_printable-IsPrintable [] h = no_more
all_printable-IsPrintable (c ∷ cs) h =
    printable (ground arith) (ground arith) (all_printable-IsPrintable cs (ground arith))

usable_request_id-IsPrintable :
    (id : String) → usable_request_id id ≡ true → IsPrintable (codes id) × (length (codes id) ≤ 200)
unfolding usable_request_id
usable_request_id-IsPrintable id h = elim (Bool-cases (all_printable (codes id))) [
  | inl ok ↦ (all_printable-IsPrintable (codes id) ok, ground arith)
  | inr bad ↦ absurd (ground arith)
]

-- Whatever the client sends and whatever the generator does, the request id is empty, or printable
-- ASCII of at most 200 characters.
pub resolve_request_id-IsPrintable :
    (inbound : String) (gen : Gen)
    → (resolve_request_id inbound gen ≡ "")
      ⊎ (IsPrintable (codes (resolve_request_id inbound gen))
          × (length (codes (resolve_request_id inbound gen)) ≤ 200))
unfolding resolve_request_id
resolve_request_id-IsPrintable inbound gen = elim (Bool-cases (usable_request_id inbound)) [
  | inl ok ↦ rw ok (inr (usable_request_id-IsPrintable inbound ok))
  | inr bad ↦ elim (Option-cases (safe_gen gen)) [
    | inl failed ↦ rw (bad, failed) (inl refl)
    | inr (id, made) ↦ elim (Bool-cases (usable_request_id id)) [
      | inl ok ↦ rw (bad, made, ok) (inr (usable_request_id-IsPrintable id ok))
      | inr unusable ↦ rw (bad, made, unusable) (inl refl)
    ]
  ]
]

-- the level of a line: that of its status, or the error level after a panic
abbrev pub level_of : (ℕ → ℤ) → Option Panic → ℕ → ℤ
level_of level_for none status = level_for status
level_of level_for (some p) status = level_error

finish_line_lem :
    {W : Type 0} (panic_value : Panic → String) (level_for : ℕ → ℤ) (req : Request) (id : String)
    (status : ℕ) (rr : Recorder W) (o : Option Panic)
    → (let line = finish_line panic_value level_for req status (base_fields req id status rr) o in
        (lookup_field "status" line.fields ≡ some (int (pos status)))
        × (line.level ≡ level_of level_for o status))
unfolding finish_line base_fields lookup_field
finish_line_lem panic_value level_for req id status rr none = (refl, refl)
finish_line_lem panic_value level_for req id status rr (some p) = (refl, refl)

module _ {W : Type 0} {wr : Writer W} (net : NetHttp wr) (panic_value : Panic → String)
    (opts : Options) (req : Request) (handler : String → Program) (w : W) where
  abbrev id_of : String
  id_of = resolve_request_id req.inbound_id req.gen

  -- the handler's own run, without the recorder
  abbrev plain : W × Option Panic
  plain = run_plain wr (handler id_of) (prepare_response wr opts id_of w)

  prepare_response-committed : net.committed (prepare_response wr opts id_of w) ≡ net.committed w
  unfolding prepare_response
  prepare_response-committed =
      elim (Bool-cases (not opts.disable_response_id_header && not (id_of == ""))) [
        | inl named ↦ rw named (net.header_map _ id_of w)
        | inr unnamed ↦ rw unnamed refl
      ]

  -- A request that is not skipped, with a handler that sets final statuses of at most 999, reads from
  -- no empty source and does not flush, on a writer that has sent nothing: the client gets what the handler's own run sends, the handler's
  -- panic goes on, and exactly one line is logged, with the status that the client gets or 500 for a
  -- panic before the header, and at the level of that status or the error level for a panic.
  pub serve-logs :
      IsFinal (handler id_of)
      → NoFlush (handler id_of)
      → net.committed w ≡ false
      → contains opts.skip_paths req.path ≡ false
      → (let served = serve wr panic_value opts req handler w in
          (served.recorder.inner ≡ plain.0)
          × (served.panicked ≡ plain.1)
          × (line : Line) × (served.lines ≡ line ∷ [])
          × (lookup_field "status" line.fields ≡ some (int (pos (expected_status net plain))))
          × (line.level
              ≡ level_of (level_for_of opts.level_for) plain.1 (expected_status net plain)))
  unfolding serve
  serve-logs f n free logged =
      let start = prepare_response wr opts id_of w in
      let free' = prepare_response-committed ∙ free in
      let (e, q) = run-run_plain net (handler id_of) start f in
      let is = run-logged_status net (handler id_of) start f n free' in
      let (rr, o) = run wr (handler id_of) (new_recorder start) in
      let (field, level) =
        finish_line_lem panic_value (level_for_of opts.level_for) req id_of (logged_status rr o) rr
          o in
      let line =
        finish_line panic_value (level_for_of opts.level_for) req (logged_status rr o)
          (base_fields req id_of (logged_status rr o) rr) o in
      (
        e,
        q,
        line,
        rw logged refl,
        field ∙ ap (λ s. some (int (pos s))) is,
        level
            ∙ ap (λ s. level_of (level_for_of opts.level_for) o s) is
            ∙ ap (λ p. level_of (level_for_of opts.level_for) p (expected_status net plain)) q,
      )
