-- ===== src/GlobalFields/Defs.antt =====
-- The definitions of pkg/logger/handler/global_fields_handler.go, as a decorator of a handler.
use Prim.Native.Nat.{Ordering}
use Prim.Native.String.{compare}
use kit_logger.Base.{
  Bool, true, false, not, ◌||◌, Option, none, some, List, [], ◌∷◌, ◌++◌, String, ◌==◌,
  if◌then◌else◌,
}
use kit_logger.Slog.{
  Value, str, Attrs, nil, cons, append, is_nil, group_value, Context, Record, add_attrs, new_record,
  Handler, Error, Op, attrs_op, group_op,
}

-- `filterValidAttrs`
unfoldable pub filter_valid_attrs : Attrs → Attrs
filter_valid_attrs nil = nil
filter_valid_attrs (cons k v rest) =
    let valid = filter_valid_attrs rest in if k == "" then valid else cons k v valid

-- `GlobalFieldsHandler`
pub record GlobalFieldsHandler (H : Type 0) : Type 0 where
  pub next : H
  pub fields : Attrs
  pub override : Bool
  pub ops : List Op

-- `slices.SortFunc` by `strings.Compare` of the keys
abbrev pub is_before : String → String → Bool
is_before j k = elim (compare j k) [ Ordering.gt ↦ false | _ ↦ true ]

unfoldable pub insert_by_key : String → Value → Attrs → Attrs
insert_by_key k v nil = cons k v nil
insert_by_key k v (cons j w rest) =
    if is_before k j then cons k v (cons j w rest) else cons j w (insert_by_key k v rest)

unfoldable pub sort_by_key : Attrs → Attrs
sort_by_key nil = nil
sort_by_key (cons k v rest) = insert_by_key k v (sort_by_key rest)

-- the pairs of a Go map, in the order of its iteration, as string attributes
abbrev pub string_attrs : List (String × String) → Attrs
string_attrs [] = nil
string_attrs ((k, v) ∷ fields) = cons k (str v) (string_attrs fields)

-- `NewGlobalFieldsHandler`
unfoldable pub new_global_fields_handler :
    {H : Type 0} → H → List (String × String) → Bool → GlobalFieldsHandler H
new_global_fields_handler next fields override = record {
  next = next;
  fields = sort_by_key (filter_valid_attrs (string_attrs fields));
  override = override;
  ops = [];
}

-- `lookup`: the field that the binary search over the sorted fields finds
unfoldable pub lookup_field : String → Attrs → Option Value
lookup_field k nil = none
lookup_field k (cons j v rest) = if j == k then some v else lookup_field k rest

-- `hasKey`
unfoldable pub has_key : Attrs → String → Bool
has_key nil key = false
has_key (cons k v rest) key = k == key || has_key rest key

-- the first loop of `merge`
unfoldable pub merge_loop : Attrs → Bool → Attrs → Attrs → Attrs
merge_loop fields override out nil = out
merge_loop fields override out (cons k v rest) =
    merge_loop fields override
      (elim (lookup_field k fields) [
        | none ↦ append out (cons k v nil)
        | some g ↦
            if not override
            then append out (cons k v nil)
            else if has_key out k
            then out
            else append out (cons k g nil)
      ])
      rest

-- the second loop of `merge`: the fields that the record does not carry
unfoldable pub missing_fields : Attrs → Attrs → Attrs
missing_fields attrs nil = nil
missing_fields attrs (cons k g rest) =
    let later = missing_fields attrs rest in if has_key attrs k then later else cons k g later

-- `merge`
unfoldable pub merge : Attrs → Bool → Attrs → Attrs
merge fields override attrs =
    append (merge_loop fields override nil attrs) (missing_fields attrs fields)

-- the test for the fast path of `Handle`
unfoldable pub collides : Attrs → Attrs → Bool
collides fields nil = false
collides fields (cons k v rest) =
    let later = collides fields rest in
    elim (lookup_field k fields) [ none ↦ later | some g ↦ true ]

-- the loop of `handleGrouped`, from the last held call to the first
unfoldable pub nest : List Op → Attrs → Attrs
nest [] attrs = attrs
nest (attrs_op held ∷ ops) attrs = append held (nest ops attrs)
nest (group_op name ∷ ops) attrs =
    let inner = nest ops attrs in if is_nil inner then inner else cons name (group_value inner) nil

module _ {H S : Type 0} (next : Handler H S) where
  -- `handleGrouped`
  unfoldable pub handle_grouped : GlobalFieldsHandler H → Context → Record → S → Option Error × S
  handle_grouped h ctx r w =
      next.handle h.next ctx (add_attrs (add_attrs (new_record r) h.fields) (nest h.ops r.attrs)) w

  -- `Handle`
  unfoldable pub global_handle : GlobalFieldsHandler H → Context → Record → S → Option Error × S
  global_handle h ctx r w = if is_nil h.fields then next.handle h.next ctx r w else elim h.ops [
    | op ∷ ops ↦ handle_grouped h ctx r w
    | [] ↦
        if not (collides h.fields r.attrs)
        then next.handle h.next ctx (add_attrs r h.fields) w
        else next.handle h.next ctx (add_attrs (new_record r) (merge h.fields h.override r.attrs)) w
  ]

  -- `WithAttrs`
  unfoldable pub global_with_attrs : GlobalFieldsHandler H → Attrs → GlobalFieldsHandler H
  global_with_attrs h attrs =
      let valid = filter_valid_attrs attrs in
      if is_nil valid then h else elim h.ops [
        | [] ↦ record h { next = next.with_attrs h.next valid; ops = [] }
        | op ∷ ops ↦ record h { ops = h.ops ++ attrs_op valid ∷ [] }
      ]

  -- `WithGroup`
  unfoldable pub global_with_group : GlobalFieldsHandler H → String → GlobalFieldsHandler H
  global_with_group h name =
      if name == ""
      then h
      else if is_nil h.fields
      then record h { next = next.with_group h.next name; ops = [] }
      else record h { ops = h.ops ++ group_op name ∷ [] }

  -- the decorated handler, as its client sees it
  unfoldable pub global_fields_handler : Handler (GlobalFieldsHandler H) S
  global_fields_handler = record {
    enabled = λ h ctx level w. next.enabled h.next ctx level w;
    handle = global_handle;
    with_attrs = global_with_attrs;
    with_group = global_with_group;
  }
