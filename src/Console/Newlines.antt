-- ===== src/Console/Newlines.antt =====
-- The line ends of the texts that pkg/logger/handler/console_handler.go puts together.
use kit_logger.Base.{
  ℕ, suc, ◌+◌, ◌≡◌, refl, Bool, true, false, Option, none, some, List, [], ◌∷◌, ◌++◌, String, codes,
  nat_eq, arith, if◌then◌else◌, Bool-cases, inl, inr,
}
use kit_logger.Base.Int.{ℤ}
use kit_logger.Slog.{
  Value, str, int, nil_value, other, log_valuer, group, Attrs, nil, cons, Op, attrs_op, group_op,
}
use kit_logger.Console.Defs.{
  Text, Texts, ansi_reset, paint, level_color, level_label, any_char, wants_quotes, quote_if_needed,
  place_of,
}

-- the line ends of a text
unfoldable pub newlines : Text → ℕ
newlines [] = 0
newlines (c ∷ cs) = if nat_eq c 10 then suc (newlines cs) else newlines cs

abbrev pub newlines_of : Option Text → ℕ
newlines_of none = 0
newlines_of (some s) = newlines s

-- What the standard library does not put into a text: the time and the names of levels have no line
-- end, a line end is a space, and a quoted text has none.
pub record SingleLine (tx : Texts) : Type 0 where
  pub time : (t : ℕ) → newlines (tx.time_text t) ≡ 0
  pub level : (l : ℤ) → newlines (tx.level_name l) ≡ 0
  pub space : tx.is_space 10 ≡ true
  pub quoted : (s : Text) → newlines (tx.quote s) ≡ 0

-- The keys of the attributes have no line end, and neither does the location that a group named
-- source gives. Of the values elsewhere nothing is asked.
abbrev mutual
  pub IsPlainKey : Texts → String → Value → Type 0
  IsPlainKey tx k (log_valuer v) = IsPlainKey tx k v
  IsPlainKey tx k (group members) =
      (newlines (codes k) ≡ 0)
      × (newlines_of (place_of tx [] k members) ≡ 0)
      × HasPlainKeys tx members
  IsPlainKey tx k nil_value = newlines (codes k) ≡ 0
  IsPlainKey tx k (str s) = newlines (codes k) ≡ 0
  IsPlainKey tx k (int i) = newlines (codes k) ≡ 0
  IsPlainKey tx k (other i) = newlines (codes k) ≡ 0

  pub HasPlainKeys : Texts → Attrs → Type 0
  HasPlainKeys tx nil = Unit {0}
  HasPlainKeys tx (cons k v rest) = IsPlainKey tx k v × HasPlainKeys tx rest

abbrev pub OpsPlainKeys : Texts → List Op → Type 0
OpsPlainKeys tx [] = Unit {0}
OpsPlainKeys tx (group_op name ∷ ops) = (newlines (codes name) ≡ 0) × OpsPlainKeys tx ops
OpsPlainKeys tx (attrs_op held ∷ ops) = HasPlainKeys tx held × OpsPlainKeys tx ops

pub newlines-append : (xs ys : Text) → newlines (xs ++ ys) ≡ newlines xs + newlines ys
unfolding newlines
newlines-append [] ys = omega arith
newlines-append (x ∷ xs) ys = ground (arith, newlines-append xs ys)

no_end : newlines ansi_reset ≡ 0
unfolding newlines
no_end = refl

pub paint-newlines :
    (color : Bool) (buf code s : Text)
    → newlines code ≡ 0
    → newlines (paint color buf code s) ≡ newlines buf + newlines s
unfolding paint
paint-newlines false buf code s h = newlines-append buf s
paint-newlines true buf code s h =
    let e1 = newlines-append (buf ++ code ++ s) ansi_reset in
    let e2 = newlines-append (buf ++ code) s in
    let e3 = newlines-append buf code in let e4 = no_end in omega arith

pub level_color-newlines : (l : ℤ) → newlines (level_color l) ≡ 0
unfolding level_color newlines
level_color-newlines l = ground arith

module _ (tx : Texts) (single : SingleLine tx) where
  pub level_label-newlines : (l : ℤ) → newlines (level_label tx l) ≡ 0
  unfolding level_label newlines
  level_label-newlines l = ground (arith, single.level l)

  end_wants_quotes : (c : ℕ) → c ≡ 10 → wants_quotes tx c ≡ true
  unfolding wants_quotes
  end_wants_quotes c e = rw (e, single.space) refl

  unquoted : (cs : Text) → any_char (wants_quotes tx) cs ≡ false → newlines cs ≡ 0
  unfolding newlines
  unquoted [] h = refl
  unquoted (c ∷ cs) h = elim (Bool-cases (nat_eq c 10)) [
    | inl end ↦ absurd (let quoted = end_wants_quotes c (ground arith) in ground arith)
    | inr plain ↦ rw plain (unquoted cs (ground arith))
  ]

  pub quote_if_needed-newlines : (s : Text) → newlines (quote_if_needed tx s) ≡ 0
  unfolding quote_if_needed newlines
  quote_if_needed-newlines [] = refl
  quote_if_needed-newlines (c ∷ cs) = elim (Bool-cases (any_char (wants_quotes tx) (c ∷ cs))) [
    | inl wanted ↦ rw wanted (single.quoted (c ∷ cs))
    | inr not_wanted ↦ rw not_wanted (unquoted (c ∷ cs) not_wanted)
  ]
