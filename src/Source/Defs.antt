-- ===== src/Source/Defs.antt =====
-- The definitions of pkg/logger/handler/source_handler.go and component_handler.go. Function names
-- are their bytes. `runtime.CallersFrames` and `filepath.Base` are parameters.
use kit_logger.Base.{
  ℕ, zero, suc, ◌+◌, Bool, true, false, not, ◌&&◌, Option, none, some, List, [], ◌∷◌, String, ◌==◌,
  length, take, drop, leb, nat_eq, if◌then◌else◌,
}
use kit_logger.Base.Int.{ℤ}
use kit_logger.Slog.{
  Attrs, str, int, nil, cons, group_value, Context, Record, add_attrs, Handler, Error,
}

-- `strings.LastIndex` of one byte
unfoldable pub last_index : ℕ → List ℕ → Option ℕ
last_index c [] = none
last_index c (x ∷ xs) = elim (last_index c xs) [
  | some i ↦ some (suc i)
  | none ↦ if nat_eq x c then some 0 else none
]

-- `simplifyFuncName`
unfoldable pub simplify_func_name : List ℕ → List ℕ
simplify_func_name fn = elim (last_index b'/' fn) [ none ↦ fn | some i ↦ drop (i + 1) fn ]

-- `strings.TrimPrefix(s, "func")`
unfoldable pub trim_func : List ℕ → List ℕ
trim_func (a ∷ b ∷ c ∷ d ∷ rest) =
    if nat_eq a b'f' && nat_eq b b'u' && nat_eq c b'n' && nat_eq d b'c'
    then rest
    else a ∷ b ∷ c ∷ d ∷ rest
trim_func s = s

abbrev pub all_digits : List ℕ → Bool
all_digits [] = true
all_digits (r ∷ rest) = leb b'0' r && leb r b'9' && all_digits rest

-- `isClosureSuffix`
unfoldable pub is_closure_suffix : List ℕ → Bool
is_closure_suffix s = elim (trim_func s) [ [] ↦ false | r ∷ rest ↦ all_digits (r ∷ rest) ]

-- the loop of `shortFuncName`, with fuel
unfoldable pub short_loop : ℕ → List ℕ → Option (List ℕ)
short_loop zero fn = none
short_loop (suc fuel) fn = elim (last_index b'.' fn) [
  | none ↦ some fn
  | some i ↦
      let rest = short_loop fuel (take i fn) in
      if not (is_closure_suffix (drop (i + 1) fn)) then some fn else rest
]

-- `shortFuncName`. Each round shortens the name, so its length bounds the rounds.
unfoldable pub short_func_name : List ℕ → Option (List ℕ)
short_func_name fn = let name = simplify_func_name fn in short_loop (length name + 1) name

-- `runtime.Frame`
pub record Frame : Type 0 where
  pub function : List ℕ
  pub file : String
  pub line : ℤ

-- What the runtime and path/filepath do: the frame of a PC, the base name of a path, and the text
-- of a name's bytes.
pub record Runtime : Type 0 where
  pub frame_of : ℕ → Frame
  pub base_name : String → String
  pub text_of : List ℕ → String

module _ (rt : Runtime) where
  abbrev function_text : Option (List ℕ) → String
  function_text none = ""
  function_text (some name) = rt.text_of name

  -- the record that `SourceHandler.Handle` forwards
  unfoldable pub with_source : Record → Record
  with_source r =
      let frame = rt.frame_of r.pc in
      if nat_eq r.pc 0
      then r
      else if frame.file == ""
      then r
      else add_attrs r (
          cons "source"
            (group_value (
              cons "function" (str (function_text (short_func_name frame.function)))
                (cons "file" (str (rt.base_name frame.file)) (cons "line" (int frame.line) nil))))
            nil)

  -- the record that `ComponentHandler.Handle` forwards
  unfoldable pub with_component : Record → Record
  with_component r =
      let frame = rt.frame_of r.pc in
      if nat_eq r.pc 0
      then r
      else if frame.file == ""
      then r
      else add_attrs r (
          cons "component"
            (group_value (
              cons "file" (str (rt.base_name frame.file)) (
                cons "line" (int frame.line)
                  (cons "func" (str (rt.text_of (simplify_func_name frame.function))) nil))))
            nil)

  module _ {H S : Type 0} (next : Handler H S) where
    -- `SourceHandler.Handle`
    unfoldable pub source_handle : H → Context → Record → S → Option Error × S
    source_handle h ctx r w = next.handle h ctx (with_source r) w

    -- `ComponentHandler.Handle`
    unfoldable pub component_handle : H → Context → Record → S → Option Error × S
    component_handle h ctx r w = next.handle h ctx (with_component r) w

    -- `WithAttrs` and `WithGroup` of both handlers
    unfoldable pub source_with_attrs : H → Attrs → H
    source_with_attrs h attrs = next.with_attrs h attrs

    unfoldable pub source_with_group : H → String → H
    source_with_group h name = next.with_group h name

    -- `SourceHandler`, as its client sees it
    unfoldable pub source_handler : Handler H S
    source_handler = record {
      enabled = λ h ctx level w. next.enabled h ctx level w;
      handle = source_handle;
      with_attrs = source_with_attrs;
      with_group = source_with_group;
    }

    -- `ComponentHandler`, as its client sees it
    unfoldable pub component_handler : Handler H S
    component_handler = record source_handler { handle = component_handle }
