-- ===== src/Logger/Defs.antt =====
-- The definitions of pkg/logger/slog_logger.go. What loggers share is passed explicitly; the
-- readings of the clock are arguments of a call: `now` in `shouldLog`, `time` in `emit`.
use kit_logger.Base.{
  ℕ, ◌+◌, Bool, true, false, not, ◌&&◌, Option, none, some, List, [], ◌∷◌, ◌++◌, String, ◌==◌,
  if◌then◌else◌,
}
use kit_logger.Base.Int.{ℤ, pos, negsuc}
use kit_logger.Slog.{Attrs, nil, Context, background, Record, add_attrs, Handler}
use kit_logger.Rate.{Arg, field, RateState, should_log, extract_log_options}
use kit_logger.Rate.Limiter.{Limiter}
use kit_logger.Lifecycle.{LifecycleGroup, is_stopping, reject_record, or_background}

-- What the logger uses and does not contain: its handler chain, the limiters, how `Record.Add` and
-- `Logger.With` read arguments as attributes, the two values that it adds itself, and
-- `runtime.Callers` by the number of extra frames.
pub record Services (H S L A : Type 0) : Type 0 where
  pub handler : Handler H S
  pub limiter : Limiter L
  pub attrs_of : List (Arg A) → Attrs
  pub text : String → A
  pub number : ℤ → A
  pub caller_pc : ℕ → ℕ

-- a `ContextFieldExtractorFunc`
abbrev pub Extractor : Type 0 → Type 0
Extractor A = Context → List (Arg A)

-- `SlogLogger`, but for what it shares; `has_hook` is `counterHook != nil`
pub record SlogLogger (H A : Type 0) : Type 0 where
  pub handler : H
  pub has_hook : Bool
  pub context_fields : Option (Extractor A)
  pub caller_skip : ℕ

-- What all derived loggers share, the names that the counter hook was called with, the process-wide
-- extractor, and the world behind the handlers.
pub record Shared (S L A : Type 0) : Type 0 where
  pub rate : Option (RateState L)
  pub lifecycle : Option (LifecycleGroup S)
  pub counters : List String
  pub extractor : Option (Extractor A)
  pub world : S

-- `contextAttrs`
unfoldable pub context_attrs :
    {H A : Type 0} → SlogLogger H A → Option (Extractor A) → Context → List (Arg A)
context_attrs l fallback ctx = elim l.context_fields [
  | some extract ↦ extract ctx
  | none ↦ elim fallback [ none ↦ [] | some extract ↦ extract ctx ]
]

-- `WithCallerSkip`
unfoldable pub with_caller_skip : {H A : Type 0} → ℤ → SlogLogger H A → SlogLogger H A
with_caller_skip (pos n) l = record l { caller_skip = l.caller_skip + n }
with_caller_skip (negsuc n) l = l

module _ {H S L A : Type 0} (sv : Services H S L A) where
  -- the counter's part of `logRateAware`
  unfoldable pub report : SlogLogger H A → Option String → Shared S L A → Shared S L A
  report l none st = st
  report l (some name) st =
      if not (name == "") && l.has_hook
      then record st { counters = st.counters ++ name ∷ [] }
      else st

  -- the arguments that `logRateAware` emits
  unfoldable pub with_count : Bool → ℕ → List (Arg A) → List (Arg A)
  with_count true suppressed args =
      args ++ field (sv.text "suppressed_count") ∷ field (sv.number (pos suppressed)) ∷ []
  with_count false suppressed args = args

  -- `logRateAware`
  unfoldable pub log_rate_aware :
      SlogLogger H A → List (Arg A) → ℕ → (List (Arg A) → S → S) → Shared S L A → Shared S L A
  log_rate_aware l args now emit st =
      if is_stopping st.lifecycle
      then record st { lifecycle = reject_record st.lifecycle }
      else (let x = extract_log_options args in
          let (decision, rate) = should_log sv.limiter x.rate_limit now st.rate in
          let (allow, suppressed, add) = decision in
          let limited = record st { rate = rate } in
          if allow
          then report l x.counter
              (record limited { world = emit (with_count add suppressed x.filtered) st.world })
          else limited)

  -- `emit`
  unfoldable pub emit : SlogLogger H A → Context → ℕ → ℤ → String → ℕ → List (Arg A) → S → S
  emit l ctx pc level msg time args w =
      let r : Record = record { time = time; level = level; message = msg; pc = pc; attrs = nil } in
      (sv.handler.handle l.handler ctx (add_attrs r (sv.attrs_of args)) w).1

  -- `emitContext`
  unfoldable pub emit_context :
      SlogLogger H A → Option (Extractor A) → Context → ℕ → ℤ → String → ℕ → List (Arg A) → S → S
  emit_context l fallback ctx pc level msg time args w =
      emit l ctx pc level msg time (args ++ context_attrs l fallback ctx) w

  -- `Debug`, `Info`, `Warn` and `Error`, by their level
  unfoldable pub log_plain :
      ℤ → SlogLogger H A → String → List (Arg A) → ℕ → ℕ → Shared S L A → Shared S L A
  log_plain level l msg args now time st =
      if sv.handler.enabled l.handler background level st.world
      then log_rate_aware l args now
          (λ filtered w. emit l background (sv.caller_pc l.caller_skip) level msg time filtered w)
          st
      else st

  -- `Log`, and by its level `DebugContext`, `InfoContext`, `WarnContext` and `ErrorContext`
  unfoldable pub log :
      Option Context
      → ℤ
      → SlogLogger H A
      → String
      → List (Arg A)
      → ℕ
      → ℕ
      → Shared S L A
      → Shared S L A
  log given level l msg args now time st =
      let ctx = or_background given in
      if sv.handler.enabled l.handler ctx level st.world
      then log_rate_aware l args now
          (λ filtered w.
            emit_context l st.extractor ctx (sv.caller_pc l.caller_skip) level msg time filtered w)
          st
      else st

  -- `slog.Logger.With`: the logger itself for no arguments
  unfoldable pub with_filtered : List (Arg A) → SlogLogger H A → SlogLogger H A
  with_filtered [] l = l
  with_filtered (a ∷ rest) l = record l {
    handler = sv.handler.with_attrs l.handler (sv.attrs_of (a ∷ rest));
  }

  -- `With`
  unfoldable pub with_ : List (Arg A) → SlogLogger H A → SlogLogger H A
  with_ args l = with_filtered (extract_log_options args).filtered l

  -- `WithContext`
  unfoldable pub with_context : Option (Extractor A) → Context → SlogLogger H A → SlogLogger H A
  with_context fallback ctx l = elim (context_attrs l fallback ctx) [
    | [] ↦ l
    | a ∷ rest ↦ with_ (a ∷ rest) l
  ]
