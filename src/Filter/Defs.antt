-- ===== src/Filter/Defs.antt =====
-- The definitions of pkg/logger/handler/filter_handler.go, as a decorator of a handler `next`.
use Prim.Native.String.{◌++◌ as str_append}
use kit_logger.Base.{
  Bool, true, false, ◌&&◌, ◌||◌, not, Option, none, some, List, [], ◌∷◌, ◌++◌, String, ◌==◌,
  if◌then◌else◌,
}
use kit_logger.Slog.{
  Value, str, int, nil_value, other, log_valuer, group, Attrs, nil, cons, group_value, Context,
  Record, add_attrs, new_record, Handler, Error, Op, attrs_op, group_op,
}

abbrev pub default_redaction_replacement : String
default_redaction_replacement = "[REDACTED]"

-- `Mode`
pub data Mode : Type 0 where
  mode_drop mode_redact : Mode

abbrev pub is_redact : Mode → Bool
is_redact mode_drop = false
is_redact mode_redact = true

-- `FilterRule`
pub record FilterRule : Type 0 where
  pub key : String
  pub value : String
  pub replacement : String

-- `FilterHandler`
pub record FilterHandler (H : Type 0) : Type 0 where
  pub next : H
  pub rules : List FilterRule
  pub mode : Mode
  pub ops : List Op

-- `NewFilterHandlerWithMode`
unfoldable pub new_filter_handler_with_mode :
    {H : Type 0} → H → List FilterRule → Mode → FilterHandler H
new_filter_handler_with_mode next rules mode = record {
  next = next;
  rules = rules;
  mode = mode;
  ops = [];
}

-- What the standard library does with texts and values: `strings.EqualFold`, and `Value.String`.
pub record Texts : Type 0 where
  pub equal_fold : String → String → Bool
  pub value_string : Value → String

-- `strings.Join(path, ".")`
abbrev pub join_path : List String → String
join_path [] = ""
join_path (p ∷ []) = p
join_path (p ∷ q ∷ rest) = str_append p (str_append "." (join_path (q ∷ rest)))

-- `full` of `matchRule`
unfoldable pub full_key : List String → String → String
full_key [] key = key
full_key (p ∷ rest) key = str_append (join_path (p ∷ rest)) (str_append "." key)

module _ (tx : Texts) where
  -- the loop of `matchRule`
  unfoldable pub match_loop : String → String → Value → List FilterRule → Option FilterRule
  match_loop full key v [] = none
  match_loop full key v (rule ∷ rules) =
      let rest = match_loop full key v rules in
      if not (tx.equal_fold key rule.key) && not (tx.equal_fold full rule.key)
      then rest
      else if rule.value == "" || tx.value_string v == rule.value
      then some rule
      else rest

  -- `matchRule`
  unfoldable pub match_rule : List FilterRule → List String → String → Value → Option FilterRule
  match_rule rules path key v = match_loop (full_key path key) key v rules

  -- the replacement of a matched value
  unfoldable pub replace_by : FilterRule → Value
  replace_by rule =
      str (if rule.replacement == "" then default_redaction_replacement else rule.replacement)

  -- one round of the loop of `filterAttrs` on a value that is no group
  unfoldable pub filter_leaf : Mode → List FilterRule → List String → String → Value → Value × Bool
  filter_leaf mode rules path key v = elim (match_rule rules path key v) [
    | none ↦ (v, false)
    | some rule ↦ (if is_redact mode then replace_by rule else v, true)
  ]

  -- `filterAttrs`. In ModeDrop it changes nothing, so its early return there is left out.
  unfoldable mutual
    pub filter_value : Mode → List FilterRule → List String → String → Value → Value × Bool
    filter_value mode rules path key (group members) =
        let (sub, hit) = filter_attrs mode rules (path ++ key ∷ []) members in
        (if hit && is_redact mode then group_value sub else group members, hit)
    filter_value mode rules path key (str s) = filter_leaf mode rules path key (str s)
    filter_value mode rules path key (int n) = filter_leaf mode rules path key (int n)
    filter_value mode rules path key nil_value = filter_leaf mode rules path key nil_value
    filter_value mode rules path key (other n) = filter_leaf mode rules path key (other n)
    filter_value mode rules path key (log_valuer v) = filter_leaf mode rules path key (log_valuer v)

    pub filter_attrs : Mode → List FilterRule → List String → Attrs → Attrs × Bool
    filter_attrs mode rules path nil = (nil, false)
    filter_attrs mode rules path (cons key v rest) =
        let (v', hit) = filter_value mode rules path key v in
        let (rest', hit_rest) = filter_attrs mode rules path rest in
        (cons key v' rest', hit || hit_rest)

  module _ {H S : Type 0} (next : Handler H S) where
    -- the loop of `Handle` over the held calls: the derived handler and the path, or nothing if
    -- the record is dropped
    unfoldable pub replay_ops :
        Mode → List FilterRule → List Op → H → List String → Option (H × List String)
    replay_ops mode rules [] inner path = some (inner, path)
    replay_ops mode rules (group_op name ∷ ops) inner path =
        replay_ops mode rules ops (next.with_group inner name) (path ++ name ∷ [])
    replay_ops mode rules (attrs_op held ∷ ops) inner path =
        let (attrs, hit) = filter_attrs mode rules path held in
        let rest = replay_ops mode rules ops (next.with_attrs inner attrs) path in
        if hit && not (is_redact mode) then none else rest

    -- the end of `Handle`: the record's own attributes
    unfoldable pub filter_record :
        Mode → List FilterRule → H → List String → Context → Record → S → Option Error × S
    filter_record mode rules inner path ctx r w =
        let (attrs, hit) = filter_attrs mode rules path r.attrs in
        if hit
        then if is_redact mode
          then next.handle inner ctx (add_attrs (new_record r) attrs) w
          else (none, w)
        else next.handle inner ctx r w

    -- `Handle`
    unfoldable pub filter_handle : FilterHandler H → Context → Record → S → Option Error × S
    filter_handle h ctx r w = elim h.rules [
      | [] ↦ next.handle h.next ctx r w
      | rule ∷ rules ↦ elim (replay_ops h.mode h.rules h.ops h.next []) [
        | none ↦ (none, w)
        | some (inner, path) ↦ filter_record h.mode h.rules inner path ctx r w
      ]
    ]

    -- `WithAttrs`
    unfoldable pub filter_with_attrs : FilterHandler H → Attrs → FilterHandler H
    filter_with_attrs h attrs = elim h.rules [
      | [] ↦ record h { next = next.with_attrs h.next attrs; ops = [] }
      | rule ∷ rules ↦ record h { ops = h.ops ++ attrs_op attrs ∷ [] }
    ]

    -- `WithGroup`
    unfoldable pub filter_with_group : FilterHandler H → String → FilterHandler H
    filter_with_group h name = elim h.rules [
      | [] ↦ record h { next = next.with_group h.next name; ops = [] }
      | rule ∷ rules ↦ record h { ops = h.ops ++ group_op name ∷ [] }
    ]

    -- the decorated handler, as its client sees it
    unfoldable pub filter_handler : Handler (FilterHandler H) S
    filter_handler = record {
      enabled = λ h ctx level w. next.enabled h.next ctx level w;
      handle = filter_handle;
      with_attrs = filter_with_attrs;
      with_group = filter_with_group;
    }
