-- ===== src/Config/Defs.antt =====
-- `Config` and `Validate` of pkg/logger/config.go. A handler that the caller gives is its number.
use kit_logger.Base.{
  ℕ, Bool, true, false, not, ◌&&◌, ◌||◌, Option, none, some, List, [], ◌∷◌, ◌++◌, String, ◌==◌,
  nat_eq, ltb,
}
use kit_logger.Base.Int.{ℤ, pos, ltb_ℤ, int_eq}
use kit_logger.Slog.{Context, Record, level_info}
use kit_logger.Filter.{FilterRule, Mode}
use kit_logger.Sampling.{Floats, SamplingConfig, validate}
use kit_logger.Config.Types.{
  Words, format_text, format_console, Problem, both_handlers, override_ignores, not_a_format,
  negative_buffer, source_is_ignored, bad_sampling, resolve_level, resolve_format,
}

-- `SamplingConfig` of the configuration
pub record SamplingSettings (F : Type 0) : Type 0 where
  pub enabled : Bool
  pub interval : ℤ
  pub min_level : ℤ
  pub min_level_string : String
  pub probability : F
  pub key_func : Option (Context → Record → String)
  pub max_keys : ℤ

-- `Config`. What `MetricsHandler` and `ContextHandler` return is the caller's: the handler that they
-- wrap around the chain, or nil, and the error of `MetricsHandler`. `Keys` has no effect.
pub record Config (F : Type 0) : Type 0 where
  pub buffer_size : ℤ
  pub filter_rules : List FilterRule
  pub filter_mode : Mode
  pub format : ℕ
  pub format_string : String
  pub global_fields : List (String × String)
  pub add_source : Bool
  pub sink : Option ℕ
  pub handler : Option ℕ
  pub pipeline_override : Option ℕ
  pub hook : Option (Context → Record → Context × Bool)
  pub metrics_handler : Option (Option ℕ × Option ℕ)
  pub level : ℤ
  pub level_string : String
  pub rate_limit_max_keys : ℤ
  pub sampling : SamplingSettings F
  pub writer : Option ℕ
  pub context_handler : Option (Option ℕ)
  pub log_initialization : Bool

abbrev pub is_set : {A : Type 0} → Option A → Bool
is_set none = false
is_set (some x) = true

abbrev pub is_empty : {A : Type 0} → List A → Bool
is_empty [] = true
is_empty (x ∷ xs) = false

-- `_, ok := cfg.GlobalFields[key]`
unfoldable pub has_field : String → List (String × String) → Bool
has_field key [] = false
has_field key ((k, v) ∷ rest) = k == key || has_field key rest

-- `if c { errs = append(errs, e) }`
abbrev pub when : {A : Type 0} → Bool → A → List A
when true x = x ∷ []
when false x = []

abbrev pub reported : {A : Type 0} → A × Option Problem → List Problem
reported (v, none) = []
reported (v, some e) = e ∷ []

-- what is appended to a slice in turn
abbrev pub joined : {A : Type 0} → List (List A) → List A
joined [] = []
joined (xs ∷ rest) = xs ++ joined rest

module _ {F : Type 0} where
  -- the settings that PipelineOverride makes meaningless, each one by its name where it is set
  unfoldable pub settings : Config F → List (List String)
  settings cfg =
      when (is_set cfg.handler) "Handler"
      ∷ when (is_set cfg.sink) "Sink"
      ∷ when (not (is_empty cfg.filter_rules)) "FilterRules"
      ∷ when (not (is_empty cfg.global_fields)) "GlobalFields"
      ∷ when cfg.sampling.enabled "Sampling"
      ∷ when (ltb_ℤ (pos 0) cfg.buffer_size) "BufferSize"
      ∷ when (is_set cfg.hook) "Hook"
      ∷ when (is_set cfg.metrics_handler) "MetricsHandler"
      ∷ when (is_set cfg.writer) "Writer"
      ∷ when (not (nat_eq cfg.format format_text) || not (cfg.format_string == "")) "Format"
      ∷ when (not (int_eq cfg.level level_info) || not (cfg.level_string == "")) "Level"
      ∷ []

  -- `ignored` of `Validate`
  unfoldable pub ignored : Config F → List String
  ignored cfg = joined (settings cfg)

  -- what `Validate` gives to the sampling handler's check
  unfoldable pub sampling_part : Config F → ℤ → SamplingConfig F
  sampling_part cfg min_level = record {
    interval = cfg.sampling.interval;
    min_level = min_level;
    probability = cfg.sampling.probability;
    key_func = cfg.sampling.key_func;
    max_keys = cfg.sampling.max_keys;
  }

  -- the checks of `Validate` in their order
  unfoldable pub checks : Words → Floats F → Config F → List (List Problem)
  checks ws fl cfg =
      when (is_set cfg.handler && is_set cfg.sink) both_handlers
      ∷ when (is_set cfg.pipeline_override && not (is_empty (ignored cfg)))
          (override_ignores (ignored cfg))
      ∷ reported (resolve_level ws "Level" cfg.level cfg.level_string)
      ∷ reported (resolve_format ws "Format" cfg.format cfg.format_string)
      ∷ when (ltb format_console cfg.format) (not_a_format cfg.format)
      ∷ when (ltb_ℤ cfg.buffer_size (pos 0)) (negative_buffer cfg.buffer_size)
      ∷ when (has_field "source" cfg.global_fields && cfg.add_source) source_is_ignored
      ∷ reported (
          resolve_level ws "Sampling.MinLevel" cfg.sampling.min_level cfg.sampling.min_level_string)
      ∷ when (cfg.sampling.enabled && not (is_empty (validate fl (sampling_part cfg (pos 0)))))
          bad_sampling
      ∷ []

  -- `Config.Validate`: the errors that it joins
  unfoldable pub validate_config : Words → Floats F → Config F → List Problem
  validate_config ws fl cfg = joined (checks ws fl cfg)
