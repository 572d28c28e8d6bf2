-- ===== src/Dedup/Unique/Output.antt =====
-- What `materialize` renders from a tree without repeated keys, and the record that `Handle`
-- forwards.
use Prim.Native.String.{◌++◌ as str_append}
use text.Mathlib.TextLemmas.{append_cancel_left}
use kit_logger.Base.{
  ◌≡◌, ◌≢◌, refl, sym, subst, Bool, true, false, ◌&&◌, ◌||◌, none, some, List, [], ◌∷◌, ◌++◌,
  String, ◌==◌, eq_iff, arith, if◌then◌else◌, Bool-cases, inl, inr,
}
use kit_logger.Slog.{
  Value, str, int, nil_value, other, log_valuer, group, Attrs, nil, cons, is_nil, is_empty_group,
  drop_empty_groups, group_value, Context, Record, Handler,
}
use kit_logger.Dedup.Defs.{
  Entry, Node, scalar, subtree, empty, entry, find, insert_all, build, contains, renamed,
  materialize, materialize_entry, is_plain, is_clean_from, DedupHandler, resolve_attrs,
  dedup_handle, is_empty_list,
}
use kit_logger.Dedup.Unique.Tree.{
  has_key, UniqueValue, UniqueAttrs, UniqueEntry, UniqueNode, insert_all_unique, build-UniqueNode,
}

if-UniqueAttrs :
    (b : Bool) (xs ys : Attrs)
    → UniqueAttrs xs
    → UniqueAttrs ys
    → UniqueAttrs (if b then xs else ys)
if-UniqueAttrs true xs ys ux uy = ux
if-UniqueAttrs false xs ys ux uy = uy

has_key-drop_empty_groups :
    (x : String) (attrs : Attrs)
    → has_key x attrs ≡ false
    → has_key x (drop_empty_groups attrs) ≡ false
has_key-drop_empty_groups x nil h = refl
has_key-drop_empty_groups x (cons k v rest) h = ground (arith, has_key-drop_empty_groups x rest)

drop_empty_groups-UniqueAttrs :
    (attrs : Attrs) → UniqueAttrs attrs → UniqueAttrs (drop_empty_groups attrs)
drop_empty_groups-UniqueAttrs nil u = tt
drop_empty_groups-UniqueAttrs (cons k v rest) u = elim (Bool-cases (is_empty_group v)) [
  | inl gone ↦ rw gone (drop_empty_groups-UniqueAttrs rest u.2)
  | inr kept ↦
      rw kept (has_key-drop_empty_groups k rest u.0, u.1, drop_empty_groups-UniqueAttrs rest u.2)
]

has_key-materialize_entry :
    (x key : String) (e : Entry) (rest : Attrs)
    → (key == x) ≡ false
    → has_key x rest ≡ false
    → has_key x (materialize_entry key e rest) ≡ false
unfolding materialize_entry
has_key-materialize_entry x key (scalar v pinned) rest a b = ground arith
has_key-materialize_entry x key (subtree sub pinned) rest a b = ground arith

find-entry_self : (k : String) (e : Entry) (rest : Node) → find k (entry k e rest) ≡ some e
unfolding find
find-entry_self k e rest = ground (arith, eq_iff k k)

find-entry_none :
    (j k : String) (e : Entry) (rest : Node) → find j (entry k e rest) ≡ none → find j rest ≡ none
unfolding find
find-entry_none j k e rest h = ground arith

-- A key that no top-level entry is rendered under does not occur.
has_key-materialize :
    (reserved : List String) (x : String) (n : Node)
    → ((j : String) → find j n ≢ none → (renamed reserved j == x) ≡ false)
    → has_key x (materialize reserved n) ≡ false
unfolding materialize
has_key-materialize reserved x empty h = refl
has_key-materialize reserved x (entry k e rest) h =
    has_key-materialize_entry x (renamed reserved k) e (materialize reserved rest)
      (h k (λ p. cc (find-entry_self k e rest)))
      (has_key-materialize reserved x rest
        (λ j there. h j (λ p. there (find-entry_none j k e rest p))))

-- No top-level key is the new name of a reserved key.
abbrev pub NoClash : List String → Node → Type 0
NoClash reserved n =
    (k : String) → contains k reserved ≡ true → find (str_append "attr." k) n ≡ none

NoClash-nil : (n : Node) → NoClash [] n
unfolding contains
NoClash-nil n k c = cc

renamed_apart :
    (reserved : List String) (n : Node) (j k : String)
    → NoClash reserved n
    → find j n ≢ none
    → find k n ≢ none
    → j ≢ k
    → (renamed reserved j == renamed reserved k) ≡ false
renamed_apart reserved n j k clear hj hk apart =
    elim (Bool-cases (renamed reserved j == renamed reserved k)) [
      | inr different ↦ different
      | inl same ↦ absurd (clash ((eq_iff _ _).0 same))
    ]
  where
    clash : renamed reserved j ≡ renamed reserved k → ⊥
    clash e = elim (Bool-cases (contains j reserved)) [
      | inl cj ↦ elim (Bool-cases (contains k reserved)) [
        | inl ck ↦ apart (append_cancel_left "attr." j k (rw (cj, ck) at e))
        | inr ck ↦
            let p : str_append "attr." j ≡ k = rw (cj, ck) at e in
            hk (subst (λ t. find t n ≡ none) p (clear j cj))
      ]
      | inr cj ↦ elim (Bool-cases (contains k reserved)) [
        | inl ck ↦
            let p : j ≡ str_append "attr." k = rw (cj, ck) at e in
            hj (subst (λ t. find t n ≡ none) (sym p) (clear k ck))
        | inr ck ↦ apart (rw (cj, ck) at e)
      ]
    ]

find-none_ne : (j k : String) (n : Node) → find j n ≢ none → find k n ≡ none → j ≢ k
find-none_ne j k n there absent p = there (subst (λ t. find t n ≡ none) (sym p) absent)

find-entry_there :
    (j k : String) (e : Entry) (rest : Node) → find j rest ≢ none → find j (entry k e rest) ≢ none
find-entry_there j k e rest there p = there (find-entry_none j k e rest p)

mutual
  unfolding materialize

  materialize-UniqueAttrs :
      (reserved : List String) (n : Node)
      → UniqueNode n
      → NoClash reserved n
      → UniqueAttrs (materialize reserved n)
  materialize-UniqueAttrs reserved empty u clear = tt
  materialize-UniqueAttrs reserved (entry k e rest) u clear =
      materialize_entry-UniqueAttrs (renamed reserved k) e (materialize reserved rest) u.1
        (has_key-materialize reserved (renamed reserved k) rest (λ j there.
          renamed_apart reserved (entry k e rest) j k clear (find-entry_there j k e rest there)
            (λ p. cc (find-entry_self k e rest)) (find-none_ne j k rest there u.0)))
        (materialize-UniqueAttrs reserved rest u.2 (λ j c. find-entry_none _ k e rest (clear j c)))

  materialize_entry-UniqueAttrs :
      (key : String) (e : Entry) (rest : Attrs)
      → UniqueEntry e
      → has_key key rest ≡ false
      → UniqueAttrs rest
      → UniqueAttrs (materialize_entry key e rest)
  materialize_entry-UniqueAttrs key (scalar v pinned) rest u absent ur = (absent, u, ur)
  materialize_entry-UniqueAttrs key (subtree sub pinned) rest u absent ur =
      let members = materialize [] sub in
      let um = materialize-UniqueAttrs [] sub u (NoClash-nil sub) in
      if-UniqueAttrs (is_nil members) rest (cons key (group_value members) rest) ur
        (absent, drop_empty_groups-UniqueAttrs members um, ur)

contains-append :
    (x k : String) (seen : List String) → contains x (seen ++ k ∷ []) ≡ (contains x seen || k == x)
unfolding contains
contains-append x k [] = ground arith
contains-append x k (j ∷ seen) = ground (arith, contains-append x k seen)

-- No key of a clean record is reserved or among those seen before it.
pub is_clean_from-has_key :
    (reserved seen : List String) (attrs : Attrs) (x : String)
    → is_clean_from reserved seen attrs ≡ true
    → contains x seen ≡ true
    → has_key x attrs ≡ false
unfolding is_clean_from
is_clean_from-has_key reserved seen nil x c s = refl
is_clean_from-has_key reserved seen (cons k v rest) x c s = ground (
  arith,
  eq_iff k x,
  contains-append x k seen,
  is_clean_from-has_key reserved (seen ++ k ∷ []) rest x,
)

is_plain-UniqueValue : (v : Value) → is_plain v ≡ true → UniqueValue v
is_plain-UniqueValue (group members) h = cc
is_plain-UniqueValue (log_valuer v) h = tt
is_plain-UniqueValue (str s) h = tt
is_plain-UniqueValue (int i) h = tt
is_plain-UniqueValue nil_value h = tt
is_plain-UniqueValue (other i) h = tt

is_clean_from-UniqueAttrs :
    (reserved seen : List String) (attrs : Attrs)
    → is_clean_from reserved seen attrs ≡ true
    → UniqueAttrs attrs
unfolding is_clean_from
is_clean_from-UniqueAttrs reserved seen nil c = tt
is_clean_from-UniqueAttrs reserved seen (cons k v rest) c =
    let clean_rest : is_clean_from reserved (seen ++ k ∷ []) rest ≡ true = ground arith in
    let plain : is_plain v ≡ true = ground arith in
    let last_seen : contains k (seen ++ k ∷ []) ≡ true =
      ground (arith, contains-append k k seen, eq_iff k k) in
    (
      is_clean_from-has_key reserved (seen ++ k ∷ []) rest k clean_rest last_seen,
      is_plain-UniqueValue v plain,
      is_clean_from-UniqueAttrs reserved (seen ++ k ∷ []) rest clean_rest,
    )

module _ {H S : Type 0} (next : Handler H S) where
  -- If the tree of the record holds no key that a reserved key is renamed to, the next handler is
  -- called once, with the time, level, message and PC of the record, and with attributes in which
  -- no key stands twice at any level.
  pub dedup_handle-UniqueAttrs :
      (h : DedupHandler H) (ctx : Context) (r : Record) (w : S)
      → NoClash h.reserved (build (insert_all h.pinned true empty) h.ops r.attrs)
      → (attrs : Attrs) × (dedup_handle next h ctx r w
          ≡ next.handle h.next ctx (record r { attrs = attrs }) w)
        × UniqueAttrs attrs
  unfolding dedup_handle resolve_attrs
  dedup_handle-UniqueAttrs h ctx r w clear =
      let tree = build (insert_all h.pinned true empty) h.ops r.attrs in
      let unique =
        build-UniqueNode (insert_all h.pinned true empty) h.ops r.attrs
          (insert_all_unique h.pinned true empty tt) in
      elim (Bool-cases
        (is_empty_list h.ops && (is_nil h.pinned && is_clean_from h.reserved [] r.attrs))) [
          | inl fast ↦
              (r.attrs, rw fast, is_clean_from-UniqueAttrs h.reserved [] r.attrs (ground arith))
          | inr slow ↦ (
            drop_empty_groups (materialize h.reserved tree),
            rw slow,
            drop_empty_groups-UniqueAttrs (materialize h.reserved tree)
                (materialize-UniqueAttrs h.reserved tree unique clear),
          )
        ]
