-- ===== src/GlobalFields/Nesting.antt =====
-- Held groups and attributes are nested as slog nests them.
use kit_logger.Base.{◌≡◌, refl, ap, List, [], ◌∷◌, ◌++◌, String, if◌then◌else◌}
use kit_logger.Slog.{Attrs, nil, cons, append, is_nil, group_value, Op, attrs_op, group_op}
use kit_logger.GlobalFields.Defs.{nest}

-- One more WithAttrs before the record is the same as attributes in front of the record's own.
pub nest-attrs :
    (ops : List Op) (held attrs : Attrs)
    → nest (ops ++ attrs_op held ∷ []) attrs ≡ nest ops (append held attrs)
unfolding nest
nest-attrs [] held attrs = refl
nest-attrs (attrs_op earlier ∷ ops) held attrs = ap (append earlier) (nest-attrs ops held attrs)
nest-attrs (group_op name ∷ ops) held attrs = rw (nest-attrs ops held attrs)

-- One more WithGroup before the record is the same as one group around the record's attributes,
-- which is left out if there are none.
pub nest-group :
    (ops : List Op) (name : String) (attrs : Attrs)
    → nest (ops ++ group_op name ∷ []) attrs
      ≡ nest ops (if is_nil attrs then nil else cons name (group_value attrs) nil)
unfolding nest
nest-group [] name nil = refl
nest-group [] name (cons k v rest) = refl
nest-group (attrs_op earlier ∷ ops) name attrs = ap (append earlier) (nest-group ops name attrs)
nest-group (group_op outer ∷ ops) name attrs = rw (nest-group ops name attrs)
