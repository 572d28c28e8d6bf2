-- ===== src/Dedup/Pinned.antt =====
-- Pinned attributes never lose.
use kit_logger.Base.{
  ◌≡◌, Bool, true, false, ◌&&◌, ◌||◌, not, Option, none, some, List, [], ◌∷◌, String, ◌==◌, eq_iff,
  if◌then◌else◌, Bool-cases, inl, inr,
}
use kit_logger.Slog.{
  Value, str, int, nil_value, other, log_valuer, group, Attrs, nil, cons, is_nil, Op, attrs_op,
  group_op,
}
use kit_logger.Dedup.Defs.{
  Entry, Node, scalar, subtree, find, update, child_of, put_child, is_pinned, is_blocked,
  insert_scalar, insert_value, insert_all, build,
}
use kit_logger.Dedup.Unique.Tree.{find-update}

-- `n` holds the pinned scalar `v` under `k`.
abbrev pub Holds : String → Value → Node → Type 0
Holds k v n = find k n ≡ some (scalar v true)

module _ (k : String) (v : Value) where
  if-Holds : (b : Bool) (m n : Node) → Holds k v m → Holds k v n → Holds k v (if b then m else n)
  if-Holds true m n hm hn = hm
  if-Holds false m n hm hn = hn

  update-Holds :
      (j : String) (e : Entry) (n : Node)
      → (j == k) ≡ false
      → Holds k v n
      → Holds k v (update j e n)
  update-Holds j e n apart h = rw (find-update k j e n, apart) h

  found_at :
      (j : String) (n : Node) → (j == k) ≡ true → Holds k v n → find j n ≡ some (scalar v true)
  found_at j n same h = let p : j ≡ k = (eq_iff j k).0 same in rw p h

  put_child-Holds :
      (j : String) (sub : Node) (n : Node) → Holds k v n → Holds k v (put_child j sub false n)
  unfolding put_child
  put_child-Holds j sub n h = elim (Bool-cases (j == k)) [
    | inl same ↦ rw (found_at j n same h, put_child) h
    | inr apart ↦ go apart (find j n)
  ]
    where
      go :
          (j == k) ≡ false
          → (o : Option Entry)
          → Holds k v (elim o [
            | none ↦ update j (subtree sub false) n
            | some (scalar u true) ↦ n
            | some (scalar u false) ↦ update j (subtree sub false) n
            | some (subtree old pinned) ↦ update j (subtree sub (pinned || false)) n
          ])
      go apart none = update-Holds j (subtree sub false) n apart h
      go apart (some (scalar u true)) = h
      go apart (some (scalar u false)) = update-Holds j (subtree sub false) n apart h
      go apart (some (subtree old pinned)) =
          update-Holds j (subtree sub (pinned || false)) n apart h

  insert_scalar-Holds :
      (j : String) (u : Value) (n : Node) → Holds k v n → Holds k v (insert_scalar j u false n)
  unfolding insert_scalar
  insert_scalar-Holds j u n h = elim (Bool-cases (j == k)) [
    | inl same ↦ rw (found_at j n same h, insert_scalar) h
    | inr apart ↦ go apart (find j n)
  ]
    where
      go :
          (j == k) ≡ false
          → (o : Option Entry)
          → Holds k v (elim o [
            | none ↦ update j (scalar u false) n
            | some e ↦
                if is_pinned e && not false then n else update j (scalar u (is_pinned e || false)) n
          ])
      go apart none = update-Holds j (scalar u false) n apart h
      go apart (some e) =
          if-Holds (is_pinned e && not false) n (update j (scalar u (is_pinned e || false)) n) h
            (update-Holds j (scalar u (is_pinned e || false)) n apart h)

  mutual
    unfolding insert_value

    insert_value-Holds :
        (j : String) (u : Value) (n : Node) → Holds k v n → Holds k v (insert_value j u false n)
    insert_value-Holds j (group members) n h =
        if-Holds (j == "") (insert_all members false n) _ (insert_all-Holds members n h) (
          if-Holds (is_nil members) n _ h (
            if-Holds (is_blocked j false n) n _ h
              (put_child-Holds j (insert_all members false (child_of j n)) n h)))
    insert_value-Holds j (log_valuer u) n h = insert_value-Holds j u n h
    insert_value-Holds j nil_value n h =
        if-Holds (j == "") n _ h (insert_scalar-Holds j nil_value n h)
    insert_value-Holds j (str s) n h = insert_scalar-Holds j (str s) n h
    insert_value-Holds j (int i) n h = insert_scalar-Holds j (int i) n h
    insert_value-Holds j (other i) n h = insert_scalar-Holds j (other i) n h

    insert_all-Holds :
        (attrs : Attrs) (n : Node) → Holds k v n → Holds k v (insert_all attrs false n)
    insert_all-Holds nil n h = h
    insert_all-Holds (cons j u rest) n h =
        insert_all-Holds rest (insert_value j u false n) (insert_value-Holds j u n h)

  -- A scalar that is pinned under a key keeps its value, whatever held attributes, groups and
  -- record attributes are put into the tree after it.
  pub build-Holds :
      (n : Node) (ops : List Op) (attrs : Attrs) → Holds k v n → Holds k v (build n ops attrs)
  unfolding build
  build-Holds n [] attrs h = insert_all-Holds attrs n h
  build-Holds n (attrs_op held ∷ ops) attrs h =
      build-Holds (insert_all held false n) ops attrs (insert_all-Holds held n h)
  build-Holds n (group_op name ∷ ops) attrs h =
      put_child-Holds name (build (child_of name n) ops attrs) n h
