-- ===== src/Dedup/Defs.antt =====
-- The definitions of pkg/logger/handler/dedup_handler.go. A `dedupNode` is its keys in order, each
-- with its entry. The pointer `cur` of `Handle` only moves down the tree, so the tree is rebuilt on
-- the way back up.
use Prim.Native.String.{◌++◌ as str_append}
use kit_logger.Base.{
  Bool, true, false, ◌&&◌, ◌||◌, not, Option, none, some, List, [], ◌∷◌, ◌++◌, String, ◌==◌,
  if◌then◌else◌,
}
use kit_logger.Slog.{
  Value, str, int, nil_value, other, log_valuer, group, Attrs, nil, cons, is_nil, group_value,
  Context, Record, add_attrs, new_record, Handler, Error, Op, attrs_op, group_op,
}
use kit_logger.GlobalFields.{filter_valid_attrs}

unfoldable pub contains : String → List String → Bool
contains k [] = false
contains k (j ∷ js) = j == k || contains k js

-- `dedupNode` and `dedupEntry`
mutual
  pub data Entry : Type 0 where
    scalar : Value → Bool → Entry
    subtree : Node → Bool → Entry

  pub data Node : Type 0 where
    empty : Node
    entry : String → Entry → Node → Node

-- `entries[k]`
unfoldable pub find : String → Node → Option Entry
find k empty = none
find k (entry j e rest) = if j == k then some e else find k rest

-- write to `entries[k]`; a new key goes to the end of `keys`
unfoldable pub update : String → Entry → Node → Node
update k e empty = entry k e empty
update k e (entry j f rest) = if j == k then entry j e rest else entry j f (update k e rest)

-- the node that `child` returns: a detached one below a pinned scalar
unfoldable pub child_of : String → Node → Node
child_of k n = elim (find k n) [
  | none ↦ empty
  | some (scalar v pinned) ↦ empty
  | some (subtree sub pinned) ↦ sub
]

-- what `child` leaves in the parent, once the child's members are known. `pin` is the assignment
-- `n.entries[a.Key].pinned = true` of `insert`.
unfoldable pub put_child : String → Node → Bool → Node → Node
put_child k sub pin n = elim (find k n) [
  | none ↦ update k (subtree sub pin) n
  | some (scalar v true) ↦ n
  | some (scalar v false) ↦ update k (subtree sub pin) n
  | some (subtree old pinned) ↦ update k (subtree sub (pinned || pin)) n
]

abbrev pub is_pinned : Entry → Bool
is_pinned (scalar v pinned) = pinned
is_pinned (subtree sub pinned) = pinned

-- `e.pinned && !pinned` of the entry with the key
unfoldable pub is_blocked : String → Bool → Node → Bool
is_blocked k pinned n = elim (find k n) [ none ↦ false | some e ↦ is_pinned e && not pinned ]

-- `insert` of a value that is no group, and no zero Attr
unfoldable pub insert_scalar : String → Value → Bool → Node → Node
insert_scalar k v pinned n = elim (find k n) [
  | none ↦ update k (scalar v pinned) n
  | some e ↦ if is_pinned e && not pinned then n else update k (scalar v (is_pinned e || pinned)) n
]

-- `insert`
unfoldable mutual
  pub insert_value : String → Value → Bool → Node → Node
  insert_value k (group members) pinned n =
      let inlined = insert_all members pinned n in
      let sub = insert_all members pinned (child_of k n) in
      if k == ""
      then inlined
      else if is_nil members
      then n
      else if is_blocked k pinned n
      then n
      else put_child k sub pinned n
  insert_value k (log_valuer v) pinned n = insert_value k v pinned n
  insert_value k nil_value pinned n = if k == "" then n else insert_scalar k nil_value pinned n
  insert_value k (str s) pinned n = insert_scalar k (str s) pinned n
  insert_value k (int i) pinned n = insert_scalar k (int i) pinned n
  insert_value k (other i) pinned n = insert_scalar k (other i) pinned n

  pub insert_all : Attrs → Bool → Node → Node
  insert_all nil pinned n = n
  insert_all (cons k v rest) pinned n = insert_all rest pinned (insert_value k v pinned n)

abbrev pub renamed : List String → String → String
renamed reserved k = if contains k reserved then str_append "attr." k else k

-- `materialize`. A nested level has no reserved key.
unfoldable mutual
  pub materialize : List String → Node → Attrs
  materialize reserved empty = nil
  materialize reserved (entry k e rest) =
      materialize_entry (renamed reserved k) e (materialize reserved rest)

  pub materialize_entry : String → Entry → Attrs → Attrs
  materialize_entry key (scalar v pinned) rest = cons key v rest
  materialize_entry key (subtree sub pinned) rest =
      let members = materialize [] sub in
      if is_nil members then rest else cons key (group_value members) rest

-- `DedupHandler`
pub record DedupHandler (H : Type 0) : Type 0 where
  pub next : H
  pub pinned : Attrs
  pub reserved : List String
  pub ops : List Op

abbrev drop_blank : List String → List String
drop_blank [] = []
drop_blank (k ∷ ks) = let rest = drop_blank ks in if k == "" then rest else k ∷ rest

-- `NewDedupHandler`
unfoldable pub new_dedup_handler : {H : Type 0} → H → Attrs → List String → DedupHandler H
new_dedup_handler next pinned reserved = record {
  next = next;
  pinned = filter_valid_attrs pinned;
  reserved = "time" ∷ "level" ∷ "msg" ∷ drop_blank reserved;
  ops = [];
}

-- the held calls and the record's attributes, put into the node that `cur` points at
unfoldable pub build : Node → List Op → Attrs → Node
build n [] attrs = insert_all attrs false n
build n (attrs_op held ∷ ops) attrs = build (insert_all held false n) ops attrs
build n (group_op name ∷ ops) attrs = put_child name (build (child_of name n) ops attrs) false n

-- neither a group nor a LogValuer
abbrev pub is_plain : Value → Bool
is_plain (group members) = false
is_plain (log_valuer v) = false
is_plain _ = true

-- `isClean`; `seen` are the keys so far
unfoldable pub is_clean_from : List String → List String → Attrs → Bool
is_clean_from reserved seen nil = true
is_clean_from reserved seen (cons k v rest) =
    let clean_rest = is_clean_from reserved (seen ++ k ∷ []) rest in
    if not (is_plain v)
    then false
    else if contains k reserved || contains k seen
    then false
    else clean_rest

abbrev pub is_empty_list : {A : Type 0} → List A → Bool
is_empty_list [] = true
is_empty_list (x ∷ xs) = false

-- the attributes of the record that `Handle` rebuilds
unfoldable pub resolve_attrs : {H : Type 0} → DedupHandler H → Attrs → Attrs
resolve_attrs h attrs = materialize h.reserved (build (insert_all h.pinned true empty) h.ops attrs)

module _ {H S : Type 0} (next : Handler H S) where
  -- `Handle`
  unfoldable pub dedup_handle : DedupHandler H → Context → Record → S → Option Error × S
  dedup_handle h ctx r w =
      if is_empty_list h.ops && (is_nil h.pinned && is_clean_from h.reserved [] r.attrs)
      then next.handle h.next ctx r w
      else next.handle h.next ctx (add_attrs (new_record r) (resolve_attrs h r.attrs)) w

  -- `WithAttrs`
  unfoldable pub dedup_with_attrs : DedupHandler H → Attrs → DedupHandler H
  dedup_with_attrs h attrs =
      let valid = filter_valid_attrs attrs in
      if is_nil valid then h else record h { ops = h.ops ++ attrs_op valid ∷ [] }

  -- `WithGroup`
  unfoldable pub dedup_with_group : DedupHandler H → String → DedupHandler H
  dedup_with_group h name = if name == "" then h else record h { ops = h.ops ++ group_op name ∷ [] }

  -- the decorated handler, as its client sees it
  unfoldable pub dedup_handler : Handler (DedupHandler H) S
  dedup_handler = record {
    enabled = λ h ctx level w. next.enabled h.next ctx level w;
    handle = dedup_handle;
    with_attrs = dedup_with_attrs;
    with_group = dedup_with_group;
  }
