-- ===== src/Slog.antt =====
-- What the program uses of log/slog, context and errors: values, attributes, records, contexts,
-- error values and the `slog.Handler` interface. A handler is a value of a type `H`, and a call of
-- it reads and changes a world of type `S`, which holds the mutable state behind the handlers.
use kit_logger.Base.{ℕ, String, ◌≡◌, ap, refl, Bool, true, false, ◌||◌, Option, none, some}
use kit_logger.Base.Int.{ℤ, pos, negsuc}

-- `slog.Value`. `nil_value` is the zero Value; `other` is a value of a kind that the program only
-- passes on, by a number that identifies it; `log_valuer v` is a LogValuer whose LogValue is `v`.
mutual
  pub data Value : Type 0 where
    str : String → Value
    int : ℤ → Value
    nil_value : Value
    other : ℕ → Value
    log_valuer : Value → Value
    group : Attrs → Value

  -- `[]slog.Attr`, an attribute being a key and a value
  pub data Attrs : Type 0 where
    nil : Attrs
    cons : String → Value → Attrs → Attrs

-- `slog.Value.Resolve`
abbrev pub resolve : Value → Value
resolve (log_valuer v) = resolve v
resolve v = v

abbrev pub append : Attrs → Attrs → Attrs
append nil bs = bs
append (cons k v rest) bs = cons k v (append rest bs)

abbrev pub is_nil : Attrs → Bool
is_nil nil = true
is_nil (cons k v rest) = false

-- `Value.isEmptyGroup`
abbrev pub is_empty_group : Value → Bool
is_empty_group (group as') = is_nil as'
is_empty_group _ = false

abbrev pub cons_unless : Bool → String → Value → Attrs → Attrs
cons_unless true k v rest = rest
cons_unless false k v rest = cons k v rest

-- `slog.GroupValue` and `Record.AddAttrs` leave out the empty groups.
abbrev pub drop_empty_groups : Attrs → Attrs
drop_empty_groups nil = nil
drop_empty_groups (cons k v rest) = cons_unless (is_empty_group v) k v (drop_empty_groups rest)

abbrev pub group_value : Attrs → Value
group_value as' = group (drop_empty_groups as')

pub append-nil : (xs : Attrs) → append xs nil ≡ xs
append-nil nil = refl
append-nil (cons k v rest) = ap (cons k v) (append-nil rest)

pub append_assoc : (xs ys zs : Attrs) → append (append xs ys) zs ≡ append xs (append ys zs)
append_assoc nil ys zs = refl
append_assoc (cons k v rest) ys zs = ap (cons k v) (append_assoc rest ys zs)

-- `context.Context`: the background context, or one of the caller's.
pub data Context : Type 0 where
  background : Context
  request : ℕ → Context

-- Error values. `child i e` is e wrapped with the index of a MultiHandler's child.
mutual
  pub data Error : Type 0 where
    err_buffer_full : Error
    err_shutdown : Error
    err_logger_shutdown : Error
    ctx_err : Error
    failure : ℕ → Error
    child : ℕ → Error → Error
    joined : Errors → Error

  pub data Errors : Type 0 where
    none_left : Errors
    and_then : Error → Errors → Errors

-- `errors.Join`: nil if there is no error among its arguments
abbrev pub join : Errors → Option Error
join none_left = none
join (and_then e es) = some (joined (and_then e es))

-- `errors.Is(err, handler.ErrShutdown)`, through wrapped and joined errors
unfoldable mutual
  pub is_shutdown : Error → Bool
  is_shutdown err_shutdown = true
  is_shutdown err_buffer_full = false
  is_shutdown err_logger_shutdown = false
  is_shutdown ctx_err = false
  is_shutdown (failure n) = false
  is_shutdown (child i e) = is_shutdown e
  is_shutdown (joined es) = any_shutdown es

  pub any_shutdown : Errors → Bool
  any_shutdown none_left = false
  any_shutdown (and_then e es) = is_shutdown e || any_shutdown es

-- `slog.Record`
pub record Record : Type 0 where
  pub time : ℕ
  pub level : ℤ
  pub message : String
  pub pc : ℕ
  pub attrs : Attrs

-- `Record.AddAttrs`
abbrev pub add_attrs : Record → Attrs → Record
add_attrs r as' = record r { attrs = append r.attrs (drop_empty_groups as') }

-- `slog.NewRecord` with the fields of a record, and no attribute
abbrev pub new_record : Record → Record
new_record r = record r { attrs = nil }

-- `slog.Handler`
pub record Handler (H S : Type 0) : Type 0 where
  pub enabled : H → Context → ℤ → S → Bool
  pub handle : H → Context → Record → S → Option Error × S
  pub with_attrs : H → Attrs → H
  pub with_group : H → String → H

abbrev pub level_debug : ℤ
level_debug = negsuc 3

abbrev pub level_info : ℤ
level_info = pos 0

abbrev pub level_warn : ℤ
level_warn = pos 4

abbrev pub level_error : ℤ
level_error = pos 8

-- A WithAttrs or WithGroup call that a handler holds until a record arrives: `filterOp`, `dedupOp`
-- and `globalFieldsOp`.
pub data Op : Type 0 where
  attrs_op : Attrs → Op
  group_op : String → Op
