-- ===== src/Filter/Secrets.antt =====
-- Redaction as non-interference: what comes out does not depend on the values that rules match.
use kit_logger.Base.{
  ◌≡◌, refl, sym, ◌∙◌, Bool, true, false, some, List, [], ◌∷◌, ◌++◌, String, arith,
}
use kit_logger.Slog.{Value, str, int, nil_value, other, log_valuer, group, Attrs, nil, cons}
use kit_logger.Filter.Defs.{
  mode_redact, FilterRule, Texts, match_rule, replace_by, filter_leaf, filter_value, filter_attrs,
}
use kit_logger.Filter.Matching.{filter_attrs_hit, filter_attrs_same}

abbrev pub is_group : Value → Bool
is_group (group members) = true
is_group _ = false

-- Two lists of attributes that differ only in values outside of groups that one rule matches in
-- both.
mutual
  pub data SameButSecret (tx : Texts) (rules : List FilterRule)
      : List String → String → Value → Value → Type 0 where
    same_value :
        {path : List String} {key : String} {v : Value} → SameButSecret tx rules path key v v
    secret :
        {path : List String} {key : String} {v v' : Value} (rule : FilterRule)
        → is_group v ≡ false
        → is_group v' ≡ false
        → match_rule tx rules path key v ≡ some rule
        → match_rule tx rules path key v' ≡ some rule
        → SameButSecret tx rules path key v v'
    in_group :
        {path : List String} {key : String} {members members' : Attrs}
        → SameButSecrets tx rules (path ++ key ∷ []) members members'
        → SameButSecret tx rules path key (group members) (group members')

  pub data SameButSecrets (tx : Texts) (rules : List FilterRule)
      : List String → Attrs → Attrs → Type 0 where
    both_nil : {path : List String} → SameButSecrets tx rules path nil nil
    both_cons :
        {path : List String} {key : String} {v v' : Value} {rest rest' : Attrs}
        → SameButSecret tx rules path key v v'
        → SameButSecrets tx rules path rest rest'
        → SameButSecrets tx rules path (cons key v rest) (cons key v' rest')

module _ (tx : Texts) (rules : List FilterRule) where
  filter_value-leaf :
      (path : List String) (key : String) (v : Value)
      → is_group v ≡ false
      → filter_value tx mode_redact rules path key v ≡ filter_leaf tx mode_redact rules path key v
  unfolding filter_value
  filter_value-leaf path key (group members) h = cc
  filter_value-leaf path key (str s) h = refl
  filter_value-leaf path key (int n) h = refl
  filter_value-leaf path key nil_value h = refl
  filter_value-leaf path key (other n) h = refl
  filter_value-leaf path key (log_valuer v) h = refl

  filter_leaf-secret :
      (path : List String) (key : String) (v : Value) (rule : FilterRule)
      → match_rule tx rules path key v ≡ some rule
      → filter_leaf tx mode_redact rules path key v ≡ (replace_by tx rule, true)
  unfolding filter_leaf
  filter_leaf-secret path key v rule h = rw (h, filter_leaf)

  group_interference :
      (path : List String) (key : String) (members members' : Attrs)
      → filter_attrs tx mode_redact rules (path ++ key ∷ []) members
        ≡ filter_attrs tx mode_redact rules (path ++ key ∷ []) members'
      → filter_value tx mode_redact rules path key (group members)
        ≡ filter_value tx mode_redact rules path key (group members')
  unfolding filter_value
  group_interference path key members members' e =
      let p = path ++ key ∷ [] in
      ground (
        arith,
        filter_attrs_hit tx mode_redact rules p members,
        filter_attrs_hit tx mode_redact rules p members',
        filter_attrs_same tx mode_redact rules p members,
        filter_attrs_same tx mode_redact rules p members',
      )

  mutual
    unfolding filter_value

    value_interference :
        {path : List String} {key : String} {v v' : Value}
        → SameButSecret tx rules path key v v'
        → filter_value tx mode_redact rules path key v
          ≡ filter_value tx mode_redact rules path key v'
    value_interference same_value = refl
    value_interference {path} {key} {v} {v'} (secret rule a a' m m') =
        filter_value-leaf path key v a
        ∙ filter_leaf-secret path key v rule m
        ∙ sym (filter_value-leaf path key v' a' ∙ filter_leaf-secret path key v' rule m')
    value_interference {path} {key} (in_group {members} {members'} g) =
        group_interference path key members members' (attrs_interference g)

    attrs_interference :
        {path : List String} {attrs attrs' : Attrs}
        → SameButSecrets tx rules path attrs attrs'
        → filter_attrs tx mode_redact rules path attrs
          ≡ filter_attrs tx mode_redact rules path attrs'
    attrs_interference both_nil = refl
    attrs_interference (both_cons s t) = rw (value_interference s, attrs_interference t)

  -- Redaction tells nothing of a secret: two lists of attributes that differ only in values which
  -- are no groups, and which the same rule matches, come out of ModeRedact equal, at any depth of
  -- groups.
  pub redaction_hides :
      (path : List String) (attrs attrs' : Attrs)
      → SameButSecrets tx rules path attrs attrs'
      → filter_attrs tx mode_redact rules path attrs ≡ filter_attrs tx mode_redact rules path attrs'
  redaction_hides path attrs attrs' same = attrs_interference same
