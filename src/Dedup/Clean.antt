-- ===== src/Dedup/Clean.antt =====
-- The fast path of `Handle` agrees with the tree: a clean record comes back from it as it is.
use kit_logger.Base.{
  ◌≡◌, refl, sym, ◌∙◌, Bool, true, false, ◌||◌, none, List, [], ◌∷◌, ◌++◌, String, ◌==◌, arith,
  Bool-cases, inl, inr,
}
use kit_logger.Slog.{
  Value, str, int, nil_value, other, log_valuer, group, Attrs, nil, cons, append, append-nil,
  append_assoc,
}
use kit_logger.Dedup.Defs.{
  Entry, Node, scalar, subtree, empty, entry, find, update, insert_scalar, insert_value, insert_all,
  contains, materialize, materialize_entry, is_plain, is_clean_from,
}
use kit_logger.Dedup.Unique.Tree.{find-update}

-- no attribute is the zero Attr, which slog ignores
abbrev pub has_zero : Attrs → Bool
has_zero nil = false
has_zero (cons k nil_value rest) = k == "" || has_zero rest
has_zero (cons k v rest) = has_zero rest

insert_scalar-new :
    (k : String) (v : Value) (n : Node)
    → find k n ≡ none
    → insert_scalar k v false n ≡ update k (scalar v false) n
unfolding insert_scalar
insert_scalar-new k v n new = rw (new, insert_scalar)

-- A plain value under a new key goes to the end of the node.
insert_value-plain :
    (k : String) (v : Value) (rest : Attrs) (n : Node)
    → is_plain v ≡ true
    → has_zero (cons k v rest) ≡ false
    → find k n ≡ none
    → insert_value k v false n ≡ update k (scalar v false) n
unfolding insert_value
insert_value-plain k (group members) rest n plain zero new = cc
insert_value-plain k (log_valuer v) rest n plain zero new = cc
insert_value-plain k nil_value rest n plain zero new =
    ground (arith, insert_scalar-new k nil_value n new)
insert_value-plain k (str s) rest n plain zero new = insert_scalar-new k (str s) n new
insert_value-plain k (int i) rest n plain zero new = insert_scalar-new k (int i) n new
insert_value-plain k (other i) rest n plain zero new = insert_scalar-new k (other i) n new

has_zero-rest :
    (k : String) (v : Value) (rest : Attrs)
    → has_zero (cons k v rest) ≡ false
    → has_zero rest ≡ false
has_zero-rest k nil_value rest h = ground arith
has_zero-rest k (group members) rest h = h
has_zero-rest k (log_valuer v) rest h = h
has_zero-rest k (str s) rest h = h
has_zero-rest k (int i) rest h = h
has_zero-rest k (other i) rest h = h

materialize_entry-append :
    (key : String) (e : Entry) (xs ys : Attrs)
    → materialize_entry key e (append xs ys) ≡ append (materialize_entry key e xs) ys
unfolding materialize_entry
materialize_entry-append key (scalar v pinned) xs ys = refl
materialize_entry-append key (subtree sub pinned) xs ys = ground arith

materialize-update :
    (reserved : List String) (k : String) (v : Value) (n : Node)
    → contains k reserved ≡ false
    → find k n ≡ none
    → materialize reserved (update k (scalar v false) n)
      ≡ append (materialize reserved n) (cons k v nil)
unfolding materialize update find
materialize-update reserved k v empty plain new = rw plain
materialize-update reserved k v (entry j e rest) plain new = elim (Bool-cases (j == k)) [
  | inl same ↦ absurd (ground arith)
  | inr apart ↦
      rw (apart, materialize-update reserved k v rest plain (rw apart at new))
        (materialize_entry-append _ e (materialize reserved rest) (cons k v nil))
]

contains-append :
    (x k : String) (seen : List String) → contains x (seen ++ k ∷ []) ≡ (contains x seen || k == x)
unfolding contains
contains-append x k [] = ground arith
contains-append x k (j ∷ seen) = ground (arith, contains-append x k seen)

clean_tree :
    (reserved seen : List String) (attrs : Attrs) (n : Node)
    → is_clean_from reserved seen attrs ≡ true
    → has_zero attrs ≡ false
    → ((x : String) → contains x seen ≡ false → find x n ≡ none)
    → materialize reserved (insert_all attrs false n) ≡ append (materialize reserved n) attrs
unfolding is_clean_from insert_all
clean_tree reserved seen nil n clean zero new = sym (append-nil (materialize reserved n))
clean_tree reserved seen (cons k v rest) n clean zero new =
    let clean_rest : is_clean_from reserved (seen ++ k ∷ []) rest ≡ true = ground arith in
    let plain : is_plain v ≡ true = ground arith in
    let free : contains k reserved ≡ false = ground arith in
    let unseen : contains k seen ≡ false = ground arith in
    let absent = new k unseen in
    let still_new : (x : String)
        → contains x (seen ++ k ∷ []) ≡ false
        → find x (update k (scalar v false) n) ≡ none =
      λ x u. ground (arith, contains-append x k seen, find-update x k (scalar v false) n, new x) in
    rw (insert_value-plain k v rest n plain zero absent) (
      clean_tree reserved (seen ++ k ∷ []) rest (update k (scalar v false) n) clean_rest
        (has_zero-rest k v rest zero) still_new
      ∙ rw (materialize-update reserved k v n free absent)
          (append_assoc (materialize reserved n) (cons k v nil) rest))

-- For a record without the zero Attr that `isClean` lets pass, the fast path agrees with the tree:
-- rendering the tree of its attributes gives them back unchanged.
pub is_clean-materialize :
    (reserved : List String) (attrs : Attrs)
    → is_clean_from reserved [] attrs ≡ true
    → has_zero attrs ≡ false
    → materialize reserved (insert_all attrs false empty) ≡ attrs
unfolding materialize find
is_clean-materialize reserved attrs clean zero =
    clean_tree reserved [] attrs empty clean zero (λ x u. refl)
