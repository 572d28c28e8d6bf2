-- ===== src/Dedup/Unique/Tree.antt =====
-- The tree's invariant: no node has a key twice. Every insertion keeps it.
use kit_logger.Base.{
  ◌≡◌, refl, subst, Bool, true, false, ◌&&◌, ◌||◌, not, Option, none, some, List, [], ◌∷◌, String,
  ◌==◌, eq_iff, arith, if◌then◌else◌, Bool-cases, Option-cases, inl, inr,
}
use kit_logger.Slog.{
  Value, str, int, nil_value, other, log_valuer, group, Attrs, nil, cons, is_nil, Op, attrs_op,
  group_op,
}
use kit_logger.Dedup.Defs.{
  Entry, Node, scalar, subtree, empty, entry, find, update, child_of, put_child, is_pinned,
  is_blocked, insert_scalar, insert_value, insert_all, build,
}

abbrev pub has_key : String → Attrs → Bool
has_key x nil = false
has_key x (cons k v rest) = k == x || has_key x rest

-- Attributes with no key twice, at any level.
abbrev mutual
  pub UniqueValue : Value → Type 0
  UniqueValue (group members) = UniqueAttrs members
  UniqueValue (str s) = Unit
  UniqueValue (int i) = Unit
  UniqueValue nil_value = Unit
  UniqueValue (other i) = Unit
  UniqueValue (log_valuer v) = Unit

  pub UniqueAttrs : Attrs → Type 0
  UniqueAttrs nil = Unit
  UniqueAttrs (cons k v rest) = (has_key k rest ≡ false) × UniqueValue v × UniqueAttrs rest

-- Trees with no key twice in a node.
abbrev mutual
  pub UniqueEntry : Entry → Type 0
  UniqueEntry (scalar v pinned) = UniqueValue v
  UniqueEntry (subtree sub pinned) = UniqueNode sub

  pub UniqueNode : Node → Type 0
  UniqueNode empty = Unit
  UniqueNode (entry k e rest) = (find k rest ≡ none) × UniqueEntry e × UniqueNode rest

pub find-update :
    (j k : String) (e : Entry) (n : Node)
    → find j (update k e n) ≡ (if k == j then some e else find j n)
unfolding find update
find-update j k e empty = refl
find-update j k e (entry i f rest) =
    ground (arith, eq_iff k j, eq_iff i k, eq_iff i j, find-update j k e rest)

update-UniqueNode :
    (k : String) (e : Entry) (n : Node) → UniqueEntry e → UniqueNode n → UniqueNode (update k e n)
unfolding update find
update-UniqueNode k e empty u v = (refl, u, tt)
update-UniqueNode k e (entry i f rest) u v = elim (Bool-cases (i == k)) [
  | inl same ↦ rw same (v.0, u, v.2)
  | inr apart ↦
      let other_way : (k == i) ≡ false = ground (arith, eq_iff k i, eq_iff i k) in
      rw apart (rw (find-update i k e rest, other_way) v.0, v.1, update-UniqueNode k e rest u v.2)
]

find-UniqueEntry :
    (k : String) (n : Node) (e : Entry) → UniqueNode n → find k n ≡ some e → UniqueEntry e
unfolding find
find-UniqueEntry k empty e u h = absurd (ground arith)
find-UniqueEntry k (entry i f rest) e u h = elim (Bool-cases (i == k)) [
  | inl same ↦ let p : f ≡ e = ground arith in subst UniqueEntry p u.1
  | inr apart ↦ find-UniqueEntry k rest e u.2 (ground arith)
]

child_of-UniqueNode : (k : String) (n : Node) → UniqueNode n → UniqueNode (child_of k n)
unfolding child_of
child_of-UniqueNode k n u = go (find k n) refl
  where
    go :
        (o : Option Entry)
        → find k n ≡ o
        → UniqueNode (elim o [
          | none ↦ empty
          | some (scalar v pinned) ↦ empty
          | some (subtree sub pinned) ↦ sub
        ])
    go none h = tt
    go (some (scalar v pinned)) h = tt
    go (some (subtree sub pinned)) h = find-UniqueEntry k n (subtree sub pinned) u h

put_child-UniqueNode :
    (k : String) (sub : Node) (pin : Bool) (n : Node)
    → UniqueNode sub
    → UniqueNode n
    → UniqueNode (put_child k sub pin n)
unfolding put_child
put_child-UniqueNode k sub pin n us u = go (find k n)
  where
    go :
        (o : Option Entry)
        → UniqueNode (elim o [
          | none ↦ update k (subtree sub pin) n
          | some (scalar v true) ↦ n
          | some (scalar v false) ↦ update k (subtree sub pin) n
          | some (subtree old pinned) ↦ update k (subtree sub (pinned || pin)) n
        ])
    go none = update-UniqueNode k (subtree sub pin) n us u
    go (some (scalar v true)) = u
    go (some (scalar v false)) = update-UniqueNode k (subtree sub pin) n us u
    go (some (subtree old pinned)) = update-UniqueNode k (subtree sub (pinned || pin)) n us u

insert_scalar-UniqueNode :
    (k : String) (v : Value) (pinned : Bool) (n : Node)
    → UniqueValue v
    → UniqueNode n
    → UniqueNode (insert_scalar k v pinned n)
unfolding insert_scalar
insert_scalar-UniqueNode k v pinned n uv u = elim (Option-cases (find k n)) [
  | inl new ↦ rw (new, insert_scalar) (update-UniqueNode k (scalar v pinned) n uv u)
  | inr (e, found) ↦ elim (Bool-cases (is_pinned e && not pinned)) [
    | inl blocked ↦ rw (found, insert_scalar, blocked) u
    | inr free ↦
        rw (found, insert_scalar, free)
          (update-UniqueNode k (scalar v (is_pinned e || pinned)) n uv u)
  ]
]

if-UniqueNode :
    (b : Bool) (m n : Node) → UniqueNode m → UniqueNode n → UniqueNode (if b then m else n)
if-UniqueNode true m n um un = um
if-UniqueNode false m n um un = un

mutual
  unfolding insert_value

  insert_value-UniqueNode :
      (k : String) (v : Value) (pinned : Bool) (n : Node)
      → UniqueNode n
      → UniqueNode (insert_value k v pinned n)
  insert_value-UniqueNode k (group members) pinned n u =
      if-UniqueNode (k == "") _ _ (insert_all-UniqueNode members pinned n u) (
        if-UniqueNode (is_nil members) _ _ u (
          if-UniqueNode (is_blocked k pinned n) _ _ u (
            put_child-UniqueNode k (insert_all members pinned (child_of k n)) pinned n
              (insert_all-UniqueNode members pinned (child_of k n) (child_of-UniqueNode k n u)) u)))
  insert_value-UniqueNode k (log_valuer v) pinned n u = insert_value-UniqueNode k v pinned n u
  insert_value-UniqueNode k nil_value pinned n u =
      if-UniqueNode (k == "") _ _ u (insert_scalar-UniqueNode k nil_value pinned n tt u)
  insert_value-UniqueNode k (str s) pinned n u = insert_scalar-UniqueNode k (str s) pinned n tt u
  insert_value-UniqueNode k (int i) pinned n u = insert_scalar-UniqueNode k (int i) pinned n tt u
  insert_value-UniqueNode k (other i) pinned n u =
      insert_scalar-UniqueNode k (other i) pinned n tt u

  insert_all-UniqueNode :
      (attrs : Attrs) (pinned : Bool) (n : Node)
      → UniqueNode n
      → UniqueNode (insert_all attrs pinned n)
  insert_all-UniqueNode nil pinned n u = u
  insert_all-UniqueNode (cons k v rest) pinned n u =
      insert_all-UniqueNode rest pinned (insert_value k v pinned n)
        (insert_value-UniqueNode k v pinned n u)

pub insert_all_unique :
    (attrs : Attrs) (pinned : Bool) (n : Node)
    → UniqueNode n
    → UniqueNode (insert_all attrs pinned n)
insert_all_unique attrs pinned n u = insert_all-UniqueNode attrs pinned n u

pub build-UniqueNode :
    (n : Node) (ops : List Op) (attrs : Attrs) → UniqueNode n → UniqueNode (build n ops attrs)
unfolding build
build-UniqueNode n [] attrs u = insert_all_unique attrs false n u
build-UniqueNode n (attrs_op held ∷ ops) attrs u =
    build-UniqueNode (insert_all held false n) ops attrs (insert_all_unique held false n u)
build-UniqueNode n (group_op name ∷ ops) attrs u =
    put_child-UniqueNode name (build (child_of name n) ops attrs) false n
      (build-UniqueNode (child_of name n) ops attrs (child_of-UniqueNode name n u)) u
