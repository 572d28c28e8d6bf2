-- ===== src/Config/Types.antt =====
-- The definitions of pkg/logger/config_types.go. A `Level` is a signed number and a `Format` is its
-- number. `strings.ToLower` and the numerals of `fmt` are parameters.
use kit_logger.Base.{
  ℕ, Bool, not, ◌&&◌, ◌||◌, Option, none, some, List, String, ◌==◌, nat_eq, if◌then◌else◌,
}
use kit_logger.Base.Int.{ℤ, int_eq}
use kit_logger.Slog.{level_debug, level_info, level_warn, level_error}

-- What the standard library does with texts: `strings.ToLower`, and the texts `level(N)` and
-- `format(N)` that `fmt.Sprintf` makes.
pub record Words : Type 0 where
  pub to_lower : String → String
  pub level_number : ℤ → String
  pub format_number : ℕ → String

-- `Format`
abbrev pub format_text : ℕ
format_text = 0

abbrev pub format_json : ℕ
format_json = 1

abbrev pub format_console : ℕ
format_console = 2

-- What `Validate`, the parsers and the constructor report. `label` is the field's name.
pub data Problem : Type 0 where
  invalid_level : String → Problem
  invalid_format : String → Problem
  in_field : String → Problem → Problem
  level_disagrees : String → ℤ → String → Problem
  format_disagrees : String → ℕ → String → Problem
  both_handlers : Problem
  override_ignores : List String → Problem
  not_a_format : ℕ → Problem
  negative_buffer : ℤ → Problem
  source_is_ignored : Problem
  bad_sampling : Problem
  metrics_failed : ℕ → Problem
  metrics_gave_nil : Problem

-- the switch of `ParseLevel`
unfoldable pub level_named : String → Option ℤ
level_named s =
    if s == ""
    then some level_info
    else if s == "debug"
    then some level_debug
    else if s == "info"
    then some level_info
    else if s == "warn" || s == "warning"
    then some level_warn
    else if s == "error"
    then some level_error
    else none

-- the switch of `ParseFormat`
unfoldable pub format_named : String → Option ℕ
format_named s =
    if s == "" || s == "text"
    then some format_text
    else if s == "json"
    then some format_json
    else if s == "console"
    then some format_console
    else none

-- the level and the error of `ParseLevel`, and the format and the error of `ParseFormat`
abbrev pub or_invalid_level : String → Option ℤ → ℤ × Option Problem
or_invalid_level s (some l) = (l, none)
or_invalid_level s none = (level_info, some (invalid_level s))

abbrev pub or_invalid_format : String → Option ℕ → ℕ × Option Problem
or_invalid_format s (some f) = (f, none)
or_invalid_format s none = (format_text, some (invalid_format s))

module _ (ws : Words) where
  -- `Level.String`
  unfoldable pub level_string : ℤ → String
  level_string l =
      if int_eq l level_debug
      then "debug"
      else if int_eq l level_info
      then "info"
      else if int_eq l level_warn
      then "warn"
      else if int_eq l level_error
      then "error"
      else ws.level_number l

  -- `ParseLevel`
  unfoldable pub parse_level : String → ℤ × Option Problem
  parse_level s = or_invalid_level s (level_named (ws.to_lower s))

  -- `Format.String`
  unfoldable pub format_string : ℕ → String
  format_string f =
      if nat_eq f format_text
      then "text"
      else if nat_eq f format_json
      then "json"
      else if nat_eq f format_console
      then "console"
      else ws.format_number f

  -- `ParseFormat`
  unfoldable pub parse_format : String → ℕ × Option Problem
  parse_format s = or_invalid_format s (format_named (ws.to_lower s))

  -- an `UnmarshalText` into a variable that holds `old`
  abbrev stored : {A : Type 0} → A → A × Option Problem → A × Option Problem
  stored old (parsed, some e) = (old, some e)
  stored old (parsed, none) = (parsed, none)

  -- `Level.UnmarshalText` and `Level.MarshalText`
  unfoldable pub unmarshal_level : ℤ → String → ℤ × Option Problem
  unmarshal_level old text = stored old (parse_level text)

  unfoldable pub marshal_level : ℤ → String × Option Problem
  marshal_level l = (level_string l, none)

  -- `Format.UnmarshalText` and `Format.MarshalText`
  unfoldable pub unmarshal_format : ℕ → String → ℕ × Option Problem
  unmarshal_format old text = stored old (parse_format text)

  unfoldable pub marshal_format : ℕ → String × Option Problem
  marshal_format f = (format_string f, none)

  -- The two resolvers, by what the parser and the comparison with the zero value give: `resolveLevel`
  -- and `resolveFormat` have the same body.
  abbrev pub reconcile :
      {A : Type 0}
      → String
      → (A → A → Bool)
      → A
      → A
      → Problem
      → A × Option Problem
      → A × Option Problem
  reconcile label eq zero_value typed clash (parsed, some e) = (typed, some (in_field label e))
  reconcile label eq zero_value typed clash (parsed, none) =
      if not (eq typed zero_value) && not (eq typed parsed)
      then (typed, some clash)
      else (parsed, none)

  -- `resolveLevel`
  unfoldable pub resolve_level : String → ℤ → String → ℤ × Option Problem
  resolve_level label typed legacy =
      if legacy == ""
      then (typed, none)
      else reconcile label int_eq level_info typed (level_disagrees label typed legacy)
          (parse_level legacy)

  -- `resolveFormat`
  unfoldable pub resolve_format : String → ℕ → String → ℕ × Option Problem
  resolve_format label typed legacy =
      if legacy == ""
      then (typed, none)
      else reconcile label nat_eq format_text typed (format_disagrees label typed legacy)
          (parse_format legacy)
