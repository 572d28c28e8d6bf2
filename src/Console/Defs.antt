-- ===== src/Console/Defs.antt =====
-- The definitions of pkg/logger/handler/console_handler.go. A text is the numbers of its characters,
-- and a buffer is such a text; the mutex makes a call of Handle one step.
use kit_logger.Base.{
  ℕ, Bool, false, not, ◌||◌, Option, none, some, List, [], ◌∷◌, ◌++◌, String, ◌==◌, codes, nat_eq,
  if◌then◌else◌,
}
use kit_logger.Base.Int.{ℤ, leb_ℤ, int_eq}
use kit_logger.Slog.{
  Value, str, int, nil_value, other, log_valuer, group, Attrs, nil, cons, is_nil, Record, Op,
  attrs_op, group_op, level_debug, level_info, level_warn, level_error,
}
use kit_logger.GlobalFields.{filter_valid_attrs}

abbrev pub Text : Type 0
Text = List ℕ

-- What the standard library does: `Time.Format`, `Level.String`, `Value.String`, `filepath.Base`,
-- `unicode.IsSpace`, `unicode.IsControl` and `strconv.Quote`.
pub record Texts : Type 0 where
  pub time_text : ℕ → Text
  pub level_name : ℤ → Text
  pub value_string : Value → Text
  pub base_name : Text → Text
  pub is_space : ℕ → Bool
  pub is_control : ℕ → Bool
  pub quote : Text → Text

-- `ConsoleHandler`, but for its writer and the layout of the time
pub record ConsoleHandler : Type 0 where
  pub level : ℤ
  pub color : Bool
  pub ops : List Op

-- `ConsoleOptions`, with what the level reads now
pub record ConsoleOptions : Type 0 where
  pub level : Option ℤ
  pub no_color : Bool
  pub force_color : Bool

-- `NewConsoleHandler`
unfoldable pub new_console_handler : Bool → ConsoleOptions → ConsoleHandler
new_console_handler is_terminal opts = record {
  level = elim opts.level [ none ↦ level_info | some l ↦ l ];
  color = if opts.no_color then false else opts.force_color || is_terminal;
  ops = [];
}

-- `Enabled`
unfoldable pub console_enabled : ConsoleHandler → ℤ → Bool
console_enabled h level = leb_ℤ h.level level

-- `WithAttrs`
unfoldable pub console_with_attrs : ConsoleHandler → Attrs → ConsoleHandler
console_with_attrs h attrs =
    let valid = filter_valid_attrs attrs in
    if is_nil valid then h else record h { ops = h.ops ++ attrs_op valid ∷ [] }

-- `WithGroup`
unfoldable pub console_with_group : ConsoleHandler → String → ConsoleHandler
console_with_group h name = if name == "" then h else record h { ops = h.ops ++ group_op name ∷ [] }

-- an escape sequence, by its code
abbrev pub ansi : Text → Text
ansi code = 0x1b ∷ b'[' ∷ code ++ b'm' ∷ []

abbrev pub ansi_reset : Text
ansi_reset = ansi (b'0' ∷ [])

abbrev pub ansi_dim : Text
ansi_dim = ansi (b'2' ∷ [])

abbrev pub ansi_bold : Text
ansi_bold = ansi (b'1' ∷ [])

abbrev pub ansi_red : Text
ansi_red = ansi (b'3' ∷ b'1' ∷ [])

abbrev pub ansi_yellow : Text
ansi_yellow = ansi (b'3' ∷ b'3' ∷ [])

abbrev pub ansi_green : Text
ansi_green = ansi (b'3' ∷ b'2' ∷ [])

abbrev pub ansi_cyan : Text
ansi_cyan = ansi (b'3' ∷ b'6' ∷ [])

-- `paint`; the first argument is whether colors are on
unfoldable pub paint : Bool → Text → Text → Text → Text
paint color buf code s = if not color then buf ++ s else buf ++ code ++ s ++ ansi_reset

-- `levelColor`
unfoldable pub level_color : ℤ → Text
level_color l =
    if leb_ℤ level_error l
    then ansi_red
    else if leb_ℤ level_warn l
    then ansi_yellow
    else if leb_ℤ level_info l
    then ansi_green
    else ansi_cyan

abbrev pub any_char : (ℕ → Bool) → Text → Bool
any_char f [] = false
any_char f (c ∷ cs) = f c || any_char f cs

-- the prefix of a group's members
abbrev pub nested : Text → String → Text
nested prefix key = if key == "" then prefix else prefix ++ codes key ++ b'.' ∷ []

module _ (tx : Texts) where
  -- `levelLabel`
  unfoldable pub level_label : ℤ → Text
  level_label l =
      if int_eq l level_debug
      then codes "DBG"
      else if int_eq l level_info
      then codes "INF"
      else if int_eq l level_warn
      then codes "WRN"
      else if int_eq l level_error
      then codes "ERR"
      else tx.level_name l

  -- the test of `quoteIfNeeded`
  unfoldable pub wants_quotes : ℕ → Bool
  wants_quotes r = tx.is_space r || nat_eq r b'"' || nat_eq r b'=' || tx.is_control r

  -- `quoteIfNeeded`
  unfoldable pub quote_if_needed : Text → Text
  quote_if_needed [] = b'"' ∷ b'"' ∷ []
  quote_if_needed (c ∷ cs) = if any_char wants_quotes (c ∷ cs) then tx.quote (c ∷ cs) else c ∷ cs

  -- the loop of `sourceLocation`, by `file` and `line`
  unfoldable pub source_parts : Attrs → Text → Text → Text × Text
  source_parts nil file line = (file, line)
  source_parts (cons k v rest) file line =
      source_parts rest (if k == "file" then tx.base_name (tx.value_string v) else file)
        (if k == "line" then tx.value_string v else line)

  abbrev pub located : Text × Text → Option Text
  located ([], line) = none
  located (c ∷ file, []) = some (c ∷ file)
  located (c ∷ file, d ∷ line) = some (c ∷ file ++ b':' ∷ d ∷ line)

  -- `sourceLocation`
  unfoldable pub source_location : Attrs → Option Text
  source_location members = located (source_parts members [] [])

  -- a group of the name `source` at the top level, where it names a location
  abbrev pub place_of : Text → String → Attrs → Option Text
  place_of [] key members = if key == "source" then source_location members else none
  place_of (c ∷ prefix) key members = none

  module _ (color : Bool) where
    -- a value that is no group
    unfoldable pub append_value : Text → String → Value → Text × Text → Text × Text
    append_value prefix key v (buf, source) =
        let buf' = paint color (buf ++ b' ' ∷ []) ansi_dim (prefix ++ codes key ++ b'=' ∷ []) in
        let val = quote_if_needed (tx.value_string v) in
        (
          if key == "error" || key == "err" then paint color buf' ansi_red val else buf' ++ val,
          source,
        )

    abbrev pub or_members : Option Text → Text × Text → Text × Text → Text × Text
    or_members (some loc) (buf, source) inner =
        (buf, paint color (source ++ b' ' ∷ []) ansi_dim (codes "source=" ++ loc))
    or_members none out inner = inner

    -- `appendAttr`, on `buf` and `source`
    unfoldable mutual
      pub append_attr : Text → String → Value → Text × Text → Text × Text
      append_attr prefix key (log_valuer v) out = append_attr prefix key v out
      append_attr prefix key (group members) out =
          let inner = append_members (nested prefix key) members out in
          if is_nil members then out else or_members (place_of prefix key members) out inner
      append_attr prefix key nil_value out =
          if key == "" then out else append_value prefix key nil_value out
      append_attr prefix key (str s) out = append_value prefix key (str s) out
      append_attr prefix key (int i) out = append_value prefix key (int i) out
      append_attr prefix key (other i) out = append_value prefix key (other i) out

      -- a loop over attributes
      pub append_members : Text → Attrs → Text × Text → Text × Text
      append_members prefix nil out = out
      append_members prefix (cons k v rest) out =
          append_members prefix rest (append_attr prefix k v out)

    -- the loop over `h.ops`, and the attributes of the record
    unfoldable pub append_ops : Text → List Op → Attrs → Text × Text → Text × Text
    append_ops prefix [] attrs out = append_members prefix attrs out
    append_ops prefix (group_op name ∷ ops) attrs out =
        append_ops (prefix ++ codes name ++ b'.' ∷ []) ops attrs out
    append_ops prefix (attrs_op held ∷ ops) attrs out =
        append_ops prefix ops attrs (append_members prefix held out)

    -- the time, the level and the message; the zero time is left out
    unfoldable pub heading : Record → Text
    heading r =
        let timed =
          if nat_eq r.time 0
          then []
          else paint color [] ansi_dim (tx.time_text r.time) ++ b' ' ∷ [] in
        paint color (paint color timed (level_color r.level) (level_label r.level) ++ b' ' ∷ [])
          ansi_bold (codes r.message)

    unfoldable pub line_of : List Op → Record → Text
    line_of ops r =
        let (buf, source) = append_ops [] ops r.attrs (heading r, []) in buf ++ source ++ b'\n' ∷ []

  -- `Handle`: what is written to the writer, in one call of Write
  unfoldable pub console_handle : ConsoleHandler → Record → Text
  console_handle h r = line_of h.color h.ops r
