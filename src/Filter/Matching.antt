-- ===== src/Filter/Matching.antt =====
-- What `filterAttrs` finds and what it leaves as it is.
use kit_logger.Base.{
  ◌≡◌, ◌∙◌, refl, ap, Bool, true, false, ◌||◌, Option, none, some, List, [], ◌∷◌, ◌++◌, String,
  arith,
}
use kit_logger.Slog.{Value, str, int, nil_value, other, log_valuer, group, Attrs, nil, cons}
use kit_logger.Filter.Defs.{
  Mode, FilterRule, Texts, match_rule, filter_leaf, filter_value, filter_attrs,
}

abbrev pub is_some : {A : Type 0} → Option A → Bool
is_some none = false
is_some (some a) = true

-- Some value outside of a group, at any depth, matches a rule.
unfoldable mutual
  pub hits_value : Texts → List FilterRule → List String → String → Value → Bool
  hits_value tx rules path key (group members) = hits tx rules (path ++ key ∷ []) members
  hits_value tx rules path key (str s) = is_some (match_rule tx rules path key (str s))
  hits_value tx rules path key (int n) = is_some (match_rule tx rules path key (int n))
  hits_value tx rules path key nil_value = is_some (match_rule tx rules path key nil_value)
  hits_value tx rules path key (other n) = is_some (match_rule tx rules path key (other n))
  hits_value tx rules path key (log_valuer v) =
      is_some (match_rule tx rules path key (log_valuer v))

  pub hits : Texts → List FilterRule → List String → Attrs → Bool
  hits tx rules path nil = false
  hits tx rules path (cons key v rest) = hits_value tx rules path key v || hits tx rules path rest

abbrev pub keys : Attrs → List String
keys nil = []
keys (cons key v rest) = key ∷ keys rest

module _ (tx : Texts) (mode : Mode) (rules : List FilterRule) where
  filter_leaf-hit :
      (path : List String) (key : String) (v : Value)
      → (filter_leaf tx mode rules path key v).1 ≡ is_some (match_rule tx rules path key v)
  unfolding filter_leaf
  filter_leaf-hit path key v = ground arith

  filter_leaf-same :
      (path : List String) (key : String) (v : Value)
      → is_some (match_rule tx rules path key v) ≡ false
      → (filter_leaf tx mode rules path key v).0 ≡ v
  unfolding filter_leaf
  filter_leaf-same path key v h = ground arith

  mutual
    unfolding filter_value hits_value

    filter_value-hits :
        (path : List String) (key : String) (v : Value)
        → (filter_value tx mode rules path key v).1 ≡ hits_value tx rules path key v
    filter_value-hits path key (group members) = filter_attrs-hits (path ++ key ∷ []) members
    filter_value-hits path key (str s) = filter_leaf-hit path key (str s)
    filter_value-hits path key (int n) = filter_leaf-hit path key (int n)
    filter_value-hits path key nil_value = filter_leaf-hit path key nil_value
    filter_value-hits path key (other n) = filter_leaf-hit path key (other n)
    filter_value-hits path key (log_valuer v) = filter_leaf-hit path key (log_valuer v)

    filter_attrs-hits :
        (path : List String) (attrs : Attrs)
        → (filter_attrs tx mode rules path attrs).1 ≡ hits tx rules path attrs
    filter_attrs-hits path nil = refl
    filter_attrs-hits path (cons key v rest) =
        cc (filter_value-hits path key v, filter_attrs-hits path rest)

  pub filter_attrs_hit :
      (path : List String) (attrs : Attrs)
      → (filter_attrs tx mode rules path attrs).1 ≡ hits tx rules path attrs
  filter_attrs_hit path attrs = filter_attrs-hits path attrs

  mutual
    unfolding filter_value hits_value

    filter_value-same :
        (path : List String) (key : String) (v : Value)
        → hits_value tx rules path key v ≡ false
        → (filter_value tx mode rules path key v).0 ≡ v
    filter_value-same path key (group members) h =
        ground (arith, filter_attrs_hit (path ++ key ∷ []) members)
    filter_value-same path key (str s) h = filter_leaf-same path key (str s) h
    filter_value-same path key (int n) h = filter_leaf-same path key (int n) h
    filter_value-same path key nil_value h = filter_leaf-same path key nil_value h
    filter_value-same path key (other n) h = filter_leaf-same path key (other n) h
    filter_value-same path key (log_valuer v) h = filter_leaf-same path key (log_valuer v) h

    filter_attrs-same :
        (path : List String) (attrs : Attrs)
        → hits tx rules path attrs ≡ false
        → (filter_attrs tx mode rules path attrs).0 ≡ attrs
    filter_attrs-same path nil h = refl
    filter_attrs-same path (cons key v rest) h =
        ground (arith, filter_value-same path key v, filter_attrs-same path rest)

  -- Without a match the attributes come back as they are, in either mode.
  pub filter_attrs_same :
      (path : List String) (attrs : Attrs)
      → hits tx rules path attrs ≡ false
      → (filter_attrs tx mode rules path attrs).0 ≡ attrs
  filter_attrs_same path attrs h = filter_attrs-same path attrs h

  -- The top-level keys of filtered attributes are those of the attributes given, in either mode:
  -- none is added, dropped, renamed or moved.
  pub keys-filter_attrs :
      (path : List String) (attrs : Attrs)
      → keys (filter_attrs tx mode rules path attrs).0 ≡ keys attrs
  unfolding filter_attrs
  keys-filter_attrs path nil = refl
  keys-filter_attrs path (cons key v rest) = ap (◌∷◌ key) (keys-filter_attrs path rest)

-- If no rule matches the LogValuer itself but one matches a member of the group that it stands
-- for, the plain group is a hit, and the LogValuer goes through unchanged and is none.
pub log_valuer_passes :
    (tx : Texts) (mode : Mode) (rules : List FilterRule) (path : List String) (key : String)
    (members : Attrs)
    → match_rule tx rules path key (log_valuer (group members)) ≡ none
    → hits tx rules path (cons key (group members) nil) ≡ true
    → ((filter_attrs tx mode rules path (cons key (group members) nil)).1 ≡ true)
      × (filter_attrs tx mode rules path (cons key (log_valuer (group members)) nil)
          ≡ (cons key (log_valuer (group members)) nil, false))
log_valuer_passes tx mode rules path key members unseen secret =
    let wrapped = cons key (log_valuer (group members)) nil in
    let quiet : hits tx rules path wrapped ≡ false = unfold hits_value in rw unseen in
    (
      filter_attrs_hit tx mode rules path (cons key (group members) nil) ∙ secret,
      pair_eq (filter_attrs tx mode rules path wrapped)
          (filter_attrs_same tx mode rules path wrapped quiet)
          (filter_attrs_hit tx mode rules path wrapped ∙ quiet),
    )
  where
    pair_eq : {A B : Type 0} (p : A × B) {a : A} {b : B} → p.0 ≡ a → p.1 ≡ b → p ≡ (a, b)
    pair_eq (x, y) e f = cc
