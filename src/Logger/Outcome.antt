-- ===== src/Logger/Outcome.antt =====
-- What one call of a log method does, on every path, and what derived loggers are.
use mathlib.Core.List.{append-nil}
use kit_logger.Base.{
  ℕ, ◌+◌, ◌≡◌, refl, sym, ap, subst, ◌∙◌, Bool, true, false, not, ◌&&◌, Option, none, some, List,
  [], ◌∷◌, ◌++◌, String, ◌==◌, if◌then◌else◌, Bool-cases, inl, inr, arith,
}
use kit_logger.Base.Int.{ℤ, pos, negsuc}
use mathlib.Core.Path.{fun_ext}
use kit_logger.Slog.{background, nil, Context, Record, add_attrs}
use kit_logger.Rate.{Arg, should_log}
use kit_logger.Rate.Options.{fields, last_rate_limit, last_counter, extract_log_options_lem}
use kit_logger.Lifecycle.{is_stopping, reject_record}
use kit_logger.Logger.Defs.{
  Services, SlogLogger, Shared, context_attrs, with_caller_skip, report, with_count, log_rate_aware,
  emit, emit_context, log, log_plain, with_, with_filtered,
}

module _ {H S L A : Type 0} (sv : Services H S L A) (l : SlogLogger H A) (ctx : Context) (level : ℤ)
    (msg : String) (args : List (Arg A)) (now time : ℕ) where
  -- the record of the call, with the given arguments
  abbrev pub record_with : List (Arg A) → Record
  record_with all =
      add_attrs
        (record {
          time = time;
          level = level;
          message = msg;
          pc = sv.caller_pc l.caller_skip;
          attrs = nil;
        })
        (sv.attrs_of all)

  -- whether the counter hook is called with a name
  abbrev pub counted : Option String → List String
  counted none = []
  counted (some name) = if not (name == "") && l.has_hook then name ∷ [] else []

  -- The paths of one call. A level that is off and a logger that stops keep the rate limit, the
  -- counters and the world; a suppressed record changes the rate limit alone; any other record is
  -- one call of the handler and at most one of the counter hook.
  pub data Outcome (st : Shared S L A) : Shared S L A → Type 0 where
    disabled : sv.handler.enabled l.handler ctx level st.world ≡ false → Outcome st st
    stopped :
        sv.handler.enabled l.handler ctx level st.world ≡ true
        → is_stopping st.lifecycle ≡ true
        → Outcome st (record st { lifecycle = reject_record st.lifecycle })
    suppressed :
        sv.handler.enabled l.handler ctx level st.world ≡ true
        → is_stopping st.lifecycle ≡ false
        → (should_log sv.limiter (last_rate_limit none args) now st.rate).0.0 ≡ false
        → Outcome st
            (record st { rate = (should_log sv.limiter (last_rate_limit none args) now st.rate).1 })
    delivered :
        sv.handler.enabled l.handler ctx level st.world ≡ true
        → is_stopping st.lifecycle ≡ false
        → (n : ℕ) → (add : Bool)
        → (should_log sv.limiter (last_rate_limit none args) now st.rate).0 ≡ (true, n, add)
        → Outcome st (record st {
          rate = (should_log sv.limiter (last_rate_limit none args) now st.rate).1;
          counters = st.counters ++ counted (last_counter none args);
          world =
              (sv.handler.handle l.handler ctx
                (record_with
                  (with_count sv add n (fields args) ++ context_attrs l st.extractor ctx))
                st.world).1;
        })

  report-counted :
      (name : Option String) (st : Shared S L A)
      → record st { counters = st.counters ++ counted name } ≡ report sv l name st
  unfolding report
  report-counted none st = ap (λ cs. record st { counters = cs }) (append-nil st.counters)
  report-counted (some name) st = elim (Bool-cases (not (name == "") && l.has_hook)) [
    | inl calls ↦ rw calls refl
    | inr quiet ↦ rw quiet (ap (λ cs. record st { counters = cs }) (append-nil st.counters))
  ]

  decided-Outcome :
      (st : Shared S L A) (b : Bool × ℕ × Bool)
      → sv.handler.enabled l.handler ctx level st.world ≡ true
      → is_stopping st.lifecycle ≡ false
      → (should_log sv.limiter (last_rate_limit none args) now st.rate).0 ≡ b
      → Outcome st (log sv (some ctx) level l msg args now time st)
  unfolding log log_rate_aware emit_context emit
  decided-Outcome st (false, n, add) on going e =
      let (fe, re, ce) = extract_log_options_lem args in
      rw (on, log, going, log_rate_aware, re, e) (suppressed on going (ap (λ b. b.0) e))
  decided-Outcome st (true, n, add) on going e =
      let (fe, re, ce) = extract_log_options_lem args in
      rw (on, log, going, log_rate_aware, re, e, fe, ce)
        (subst (Outcome st) (report-counted (last_counter none args) _)
          (delivered on going n add e))

  -- Every call of `Log` and of the methods with a context takes one of these paths: a call that is
  -- not enabled, or comes after the shutdown has begun, or is suppressed, reaches no handler and no
  -- counter hook; any other calls the handler once, with the fields of the arguments, the count of
  -- the suppressed records if it is to be reported, and the fields of the context.
  pub log-Outcome :
      (st : Shared S L A) → Outcome st (log sv (some ctx) level l msg args now time st)
  unfolding log log_rate_aware
  log-Outcome st = elim (Bool-cases (sv.handler.enabled l.handler ctx level st.world)) [
    | inr off ↦ rw (off, log) (disabled off)
    | inl on ↦ elim (Bool-cases (is_stopping st.lifecycle)) [
      | inl ending ↦ rw (on, log, ending, log_rate_aware) (stopped on ending)
      | inr going ↦ decided-Outcome st _ on going refl
    ]
  ]

module _ {H S L A : Type 0} (sv : Services H S L A) where
  fields_idempotent : (args : List (Arg A)) → fields (fields args) ≡ fields args
  unfolding fields
  fields_idempotent [] = refl
  fields_idempotent (Arg.field a ∷ args) = ap (◌∷◌ (Arg.field a)) (fields_idempotent args)
  fields_idempotent (Arg.with_rate_limit o ∷ args) = fields_idempotent args
  fields_idempotent (Arg.with_counter name ∷ args) = fields_idempotent args

  -- Where no field is extracted from the background context, `Debug`, `Info`, `Warn` and `Error` do
  -- what `Log` does with a nil context at their level.
  pub log_plain-log :
      (level : ℤ) (l : SlogLogger H A) (msg : String) (args : List (Arg A)) (now time : ℕ)
      (st : Shared S L A)
      → context_attrs l st.extractor background ≡ []
      → log_plain sv level l msg args now time st ≡ log sv none level l msg args now time st
  unfolding log_plain log emit_context
  log_plain-log level l msg args now time st no_fields =
      ap
        (λ f.
          if sv.handler.enabled l.handler background level st.world
          then log_rate_aware sv l args now f st
          else st)
        (fun_ext λ filtered. fun_ext λ w.
          ap (λ all. emit sv l background (sv.caller_pc l.caller_skip) level msg time all w)
            (sym (append-nil filtered) ∙ ap (λ ks. filtered ++ ks) (sym no_fields)))

  -- Rate-limit and counter options that are passed to With are stripped: the derived logger is the
  -- one that the other arguments give.
  pub with_-fields :
      (args : List (Arg A)) (l : SlogLogger H A) → with_ sv args l ≡ with_ sv (fields args) l
  unfolding with_
  with_-fields args l =
      let (fe, _, _) = extract_log_options_lem args in
      let (fe', _, _) = extract_log_options_lem (fields args) in
      ap (λ f. with_filtered sv f l) (fe ∙ sym (fe' ∙ fields_idempotent args))

-- Skips add up, and a skip that is not positive returns the logger itself.
pub with_caller_skip_adds :
    {H A : Type 0} (l : SlogLogger H A) (m n k : ℕ)
    → with_caller_skip (pos m) (with_caller_skip (negsuc k) (with_caller_skip (pos n) l))
      ≡ with_caller_skip (pos (n + m)) l
unfolding with_caller_skip
with_caller_skip_adds l m n k = ap (λ s. record l { caller_skip = s }) (omega arith)
