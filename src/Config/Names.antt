-- ===== src/Config/Names.antt =====
-- The texts of levels and formats in pkg/logger/config_types.go, written and read.
use kit_logger.Base.{ℕ, ◌≡◌, refl, ap, ◌∙◌, none, some, String}
use kit_logger.Base.Int.{ℤ}
use kit_logger.Slog.{level_debug, level_info, level_warn, level_error}
use kit_logger.Config.Types.{
  Words, format_text, format_json, format_console, or_invalid_level, or_invalid_format,
  level_string, parse_level, level_named, format_string, format_named, parse_format,
  unmarshal_level, marshal_level, unmarshal_format, marshal_format,
}

-- a level with a name
pub data IsNamed : ℤ → Type 0 where
  debug_level : IsNamed level_debug
  info_level : IsNamed level_info
  warn_level : IsNamed level_warn
  error_level : IsNamed level_error

-- a format with a name
pub data IsFormat : ℕ → Type 0 where
  text_format : IsFormat format_text
  json_format : IsFormat format_json
  console_format : IsFormat format_console

-- `strings.ToLower` leaves a name that is lower case already.
pub record KeepsNames (ws : Words) : Type 0 where
  pub debug : ws.to_lower "debug" ≡ "debug"
  pub info : ws.to_lower "info" ≡ "info"
  pub warn : ws.to_lower "warn" ≡ "warn"
  pub error : ws.to_lower "error" ≡ "error"
  pub text : ws.to_lower "text" ≡ "text"
  pub json : ws.to_lower "json" ≡ "json"
  pub console : ws.to_lower "console" ≡ "console"

module _ (ws : Words) (names : KeepsNames ws) where
  parsed_level :
      (s : String) (l : ℤ)
      → ws.to_lower s ≡ s
      → level_named s ≡ some l
      → parse_level ws s ≡ (l, none)
  unfolding parse_level
  parsed_level s l lower named = ap (or_invalid_level s) (ap level_named lower ∙ named)

  parsed_format :
      (s : String) (f : ℕ)
      → ws.to_lower s ≡ s
      → format_named s ≡ some f
      → parse_format ws s ≡ (f, none)
  unfolding parse_format
  parsed_format s f lower named = ap (or_invalid_format s) (ap format_named lower ∙ named)

  parse_level-level_string : (l : ℤ) → IsNamed l → parse_level ws (level_string ws l) ≡ (l, none)
  unfolding level_string level_named
  parse_level-level_string l debug_level = parsed_level "debug" l names.debug refl
  parse_level-level_string l info_level = parsed_level "info" l names.info refl
  parse_level-level_string l warn_level = parsed_level "warn" l names.warn refl
  parse_level-level_string l error_level = parsed_level "error" l names.error refl

  parse_format-format_string :
      (f : ℕ) → IsFormat f → parse_format ws (format_string ws f) ≡ (f, none)
  unfolding format_string format_named
  parse_format-format_string f text_format = parsed_format "text" f names.text refl
  parse_format-format_string f json_format = parsed_format "json" f names.json refl
  parse_format-format_string f console_format = parsed_format "console" f names.console refl

  -- A level or a format with a name is read back from the text that it is written as, whatever the
  -- variable held that it is read into.
  pub unmarshal-marshal :
      (l old_level : ℤ) (f old_format : ℕ)
      → IsNamed l
      → IsFormat f
      → (unmarshal_level ws old_level (marshal_level ws l).0 ≡ (l, none))
        × (unmarshal_format ws old_format (marshal_format ws f).0 ≡ (f, none))
  unfolding unmarshal_level unmarshal_format marshal_level marshal_format
  unmarshal-marshal l old_level f old_format named is =
      (rw (parse_level-level_string l named) refl, rw (parse_format-format_string f is) refl)
