-- ===== src/Config/Problems.antt =====
-- What a configuration without problems gives, for pkg/logger/config.go and config_types.go.
use kit_logger.Base.{
  ℕ, ◌≡◌, ◌⊎◌, inl, inr, refl, sym, ap, ◌∙◌, Bool, true, false, not, ◌&&◌, ◌||◌, Option, none, some,
  List, [], ◌∷◌, ◌++◌, String, ◌==◌, eq_iff, arith, nat_eq, Bool-cases,
}
use kit_logger.Base.Int.{ℤ, pos, ltb_ℤ, int_eq, int_eq_iff}
use kit_logger.Slog.{level_info}
use kit_logger.Sampling.{Floats}
use kit_logger.Lifecycle.{Shape}
use kit_logger.Config.Types.{
  Words, format_text, Problem, parse_level, resolve_level, reconcile, level_disagrees,
}
use kit_logger.Config.Defs.{
  Config, is_set, is_empty, when, reported, joined, settings, ignored, checks, validate_config,
}
use kit_logger.Config.Assembly.{new_with_error}

parts : {A : Type 0} (xs ys : List A) → xs ++ ys ≡ [] → (xs ≡ []) × (ys ≡ [])
parts [] ys h = (refl, h)
parts (x ∷ xs) ys h = absurd (cc)

-- every list of a list of lists is empty
abbrev Each : {A : Type 0} → List (List A) → Type 0
Each [] = Unit {0}
Each (xs ∷ rest) = (xs ≡ []) × Each rest

each : {A : Type 0} (xss : List (List A)) → joined xss ≡ [] → Each xss
each [] h = tt
each (xs ∷ rest) h = let (now, later) = parts xs (joined rest) h in (now, each rest later)

not_when : {A : Type 0} (b : Bool) (x : A) → when b x ≡ [] → b ≡ false
not_when true x h = absurd (cc)
not_when false x h = refl

not_set : {A : Type 0} (o : Option A) → is_set o ≡ false → o ≡ none
not_set none h = refl
not_set (some x) h = absurd (cc)

no_members : {A : Type 0} (xs : List A) → not (is_empty xs) ≡ false → xs ≡ []
no_members [] h = refl
no_members (x ∷ xs) h = absurd (cc)

unreported : {A : Type 0} (r : A × Option Problem) → reported r ≡ [] → r.1 ≡ none
unreported (v, none) h = refl
unreported (v, some e) h = absurd (cc)

module _ (ws : Words) where
  reconcile-agrees :
      (label : String) (typed : ℤ) (clash : Problem) (r : ℤ × Option Problem)
      → (reconcile ws label int_eq level_info typed clash r).1 ≡ none
      → (r ≡ ((reconcile ws label int_eq level_info typed clash r).0, none))
        × ((typed ≡ level_info) ⊎ (typed ≡ (reconcile ws label int_eq level_info typed clash r).0))
  reconcile-agrees label typed clash (parsed, some e) h = absurd (cc)
  reconcile-agrees label typed clash (parsed, none) h =
      elim (Bool-cases (int_eq typed level_info)) [
        | inl same ↦ rw same (refl, inl ((int_eq_iff typed level_info).0 same))
        | inr other ↦ elim (Bool-cases (int_eq typed parsed)) [
          | inl same ↦ rw (other, same) (refl, inr ((int_eq_iff typed parsed).0 same))
          | inr differs ↦ absurd (let clash_there = rw (other, differs) at h in cc)
        ]
      ]

  resolve_level-agrees :
      (label : String) (typed : ℤ) (legacy : String)
      → (resolve_level ws label typed legacy).1 ≡ none
      → (let (l, _) = resolve_level ws label typed legacy in
          ((legacy ≡ "") × (l ≡ typed))
          ⊎ ((parse_level ws legacy ≡ (l, none)) × ((typed ≡ level_info) ⊎ (typed ≡ l))))
  unfolding resolve_level
  resolve_level-agrees label typed legacy h = elim (Bool-cases (legacy == "")) [
    | inl blank ↦ rw blank (inl ((eq_iff legacy "").0 blank, refl))
    | inr given ↦ rw given (
        inr (
          reconcile-agrees label typed (level_disagrees label typed legacy) (parse_level ws legacy)
            (rw given at h)))
  ]

-- No setting is there that Validate reports beside a PipelineOverride. AddSource and FilterMode, which
-- no stage reads then either, are not among those that it reports.
pub record IsBare {F : Type 0} (cfg : Config F) : Type 0 where
  pub handler : cfg.handler ≡ none
  pub sink : cfg.sink ≡ none
  pub filter_rules : cfg.filter_rules ≡ []
  pub global_fields : cfg.global_fields ≡ []
  pub sampling : cfg.sampling.enabled ≡ false
  pub buffer_size : ltb_ℤ (pos 0) cfg.buffer_size ≡ false
  pub hook : cfg.hook ≡ none
  pub metrics_handler : cfg.metrics_handler ≡ none
  pub writer : cfg.writer ≡ none
  pub format : (cfg.format ≡ format_text) × (cfg.format_string ≡ "")
  pub level : (cfg.level ≡ level_info) × (cfg.level_string ≡ "")

left_out : {A : Type 0} (o : Option A) (name : String) → when (is_set o) name ≡ [] → o ≡ none
left_out o name h = not_set o (not_when (is_set o) name h)

left_empty :
    {A : Type 0} (xs : List A) (name : String) → when (not (is_empty xs)) name ≡ [] → xs ≡ []
left_empty xs name h = no_members xs (not_when (not (is_empty xs)) name h)

default_format :
    (f : ℕ) (s : String)
    → (not (nat_eq f format_text) || not (s == "")) ≡ false
    → (f ≡ format_text) × (s ≡ "")
default_format f s h = (ground arith, ground (arith, eq_iff s ""))

default_level :
    (l : ℤ) (s : String)
    → (not (int_eq l level_info) || not (s == "")) ≡ false
    → (l ≡ level_info) × (s ≡ "")
default_level l s h = (ground (arith, int_eq_iff l level_info), ground (arith, eq_iff s ""))

module _ {F : Type 0} (cfg : Config F) where
  ignored-IsBare : ignored cfg ≡ [] → IsBare cfg
  unfolding ignored settings
  ignored-IsBare h =
      let (
        handler,
        (
          sink,
          (
            rules,
            (fields, (sampling, (buffer, (hook, (metrics, (writer, (format, (level, _)))))))),
          ),
        ),
      ) =
        each (settings cfg) h in
      record {
        handler = left_out cfg.handler "Handler" handler;
        sink = left_out cfg.sink "Sink" sink;
        filter_rules = left_empty cfg.filter_rules "FilterRules" rules;
        global_fields = left_empty cfg.global_fields "GlobalFields" fields;
        sampling = not_when cfg.sampling.enabled "Sampling" sampling;
        buffer_size = not_when (ltb_ℤ (pos 0) cfg.buffer_size) "BufferSize" buffer;
        hook = left_out cfg.hook "Hook" hook;
        metrics_handler = left_out cfg.metrics_handler "MetricsHandler" metrics;
        writer = left_out cfg.writer "Writer" writer;
        format = default_format cfg.format cfg.format_string (not_when _ "Format" format);
        level = default_level cfg.level cfg.level_string (not_when _ "Level" level);
      }

  module _ (ws : Words) (fl : Floats F) where
    -- Where the constructor reports no problem, PipelineOverride is set only if the settings that
    -- Validate names beside it are left alone: Handler, Sink, FilterRules, GlobalFields, Hook,
    -- MetricsHandler and Writer are not set, Sampling is off, BufferSize is not positive, and Format
    -- and Level are the defaults, with no text given for them.
    pub override-IsBare :
        (L : Type 0) (shape : ℕ → Shape) (opts : List ℕ)
        → (new_with_error ws {L = L} fl shape cfg opts).problems ≡ []
        → is_set cfg.pipeline_override ≡ true
        → IsBare cfg
    unfolding new_with_error validate_config checks
    override-IsBare L shape opts clean set =
        let (_, (kept, _)) =
          each (checks ws fl cfg) (parts (validate_config ws fl cfg) _ clean).0 in
        ignored-IsBare (
          no_members (ignored cfg)
            (ap (λ b. b && not (is_empty (ignored cfg))) (sym set) ∙ not_when _ _ kept))

    -- Where the constructor reports no problem, the level of the logger is the typed one if there is
    -- no level text; otherwise it is the one that the text names, and the typed one is the same or the
    -- default.
    pub new_with_error-level :
        (L : Type 0) (shape : ℕ → Shape) (opts : List ℕ)
        → (let built = new_with_error ws {L = L} fl shape cfg opts in
            built.problems ≡ []
            → ((cfg.level_string ≡ "") × (built.level ≡ cfg.level))
              ⊎ ((parse_level ws cfg.level_string ≡ (built.level, none))
                  × ((cfg.level ≡ level_info) ⊎ (cfg.level ≡ built.level))))
    unfolding new_with_error validate_config checks
    new_with_error-level L shape opts clean =
        let (_, (_, (level, _))) =
          each (checks ws fl cfg) (parts (validate_config ws fl cfg) _ clean).0 in
        resolve_level-agrees ws "Level" cfg.level cfg.level_string
          (unreported (resolve_level ws "Level" cfg.level cfg.level_string) level)
