-- ===== src/Console/Colors.antt =====
-- The colors of pkg/logger/handler/console_handler.go, beside the line without them.
use kit_logger.Base.{
  ℕ, ◌≡◌, refl, subst, true, false, ◌||◌, Option, none, some, List, [], ◌∷◌, ◌++◌, String, ◌==◌,
  codes, nat_eq, if◌then◌else◌, Bool-cases, inl, inr,
}
use kit_logger.Base.Int.{ℤ, leb_ℤ}
use kit_logger.Slog.{
  Value, str, int, nil_value, other, log_valuer, group, Attrs, nil, cons, Record, Op, attrs_op,
  group_op, level_info, level_warn, level_error,
}
use kit_logger.Console.Defs.{
  Text, Texts, ConsoleHandler, ansi_reset, ansi_dim, ansi_bold, ansi_red, ansi_yellow, ansi_green,
  ansi_cyan, paint, level_color, level_label, quote_if_needed, place_of, nested, or_members,
  append_value, append_attr, append_members, append_ops, heading, line_of, console_handle,
}

-- one of the escape sequences of the handler
pub data IsEscape : Text → Type 0 where
  reset_code : IsEscape ansi_reset
  dim_code : IsEscape ansi_dim
  bold_code : IsEscape ansi_bold
  red_code : IsEscape ansi_red
  yellow_code : IsEscape ansi_yellow
  green_code : IsEscape ansi_green
  cyan_code : IsEscape ansi_cyan

-- The second text is the first one, with escape sequences put in.
pub data Painted : Text → Text → Type 0 where
  ended : Painted [] []
  same : {c : ℕ} {p q : Text} → Painted p q → Painted (c ∷ p) (c ∷ q)
  escape : {e p q : Text} → IsEscape e → Painted p q → Painted p (e ++ q)

append_assoc : (xs ys zs : Text) → xs ++ ys ++ zs ≡ xs ++ (ys ++ zs)
append_assoc [] ys zs = refl
append_assoc (x ∷ xs) ys zs = rw (append_assoc xs ys zs) refl

Painted-append : {p q p' q' : Text} → Painted p q → Painted p' q' → Painted (p ++ p') (q ++ q')
Painted-append ended b = b
Painted-append (same a) b = same (Painted-append a b)
Painted-append {q' = q'} (escape {e = e} {q = q} is a) b =
    rw (append_assoc e q q') (escape is (Painted-append a b))

Painted-same : (p : Text) → Painted p p
Painted-same [] = ended
Painted-same (c ∷ p) = same (Painted-same p)

Painted-then : {p q : Text} → Painted p q → (s : Text) → Painted (p ++ s) (q ++ s)
Painted-then a s = Painted-append a (Painted-same s)

append-nil : (xs : Text) → xs ++ [] ≡ xs
append-nil [] = refl
append-nil (x ∷ xs) = rw (append-nil xs) refl

Painted-end : {e : Text} → IsEscape e → Painted [] e
Painted-end {e = e} is = subst (Painted []) (append-nil e) (escape is ended)

Painted-escape : {p q e : Text} → Painted p q → IsEscape e → Painted p (q ++ e)
Painted-escape ended is = Painted-end is
Painted-escape (same a) is = same (Painted-escape a is)
Painted-escape {e = e} (escape {e = d} {q = q} is' a) is =
    rw (append_assoc d q e) (escape is' (Painted-escape a is))

paint-Painted :
    {p q : Text} (e s : Text)
    → IsEscape e
    → Painted p q
    → Painted (paint false p e s) (paint true q e s)
unfolding paint
paint-Painted e s is a = Painted-escape (Painted-then (Painted-escape a is) s) reset_code

level_color-IsEscape : (l : ℤ) → IsEscape (level_color l)
unfolding level_color
level_color-IsEscape l = elim (Bool-cases (leb_ℤ level_error l)) [
  | inl high ↦ rw high red_code
  | inr below ↦ elim (Bool-cases (leb_ℤ level_warn l)) [
    | inl warn ↦ rw (below, warn) yellow_code
    | inr lower ↦ elim (Bool-cases (leb_ℤ level_info l)) [
      | inl info ↦ rw (below, lower, info) green_code
      | inr debug ↦ rw (below, lower, debug) cyan_code
    ]
  ]
]

-- both buffers
pub record Both (a b : Text × Text) : Type 0 where
  buf : Painted a.0 b.0
  source : Painted a.1 b.1

module _ (tx : Texts) where
  append_value-Both :
      (prefix : Text) (key : String) (v : Value) (a b : Text × Text)
      → Both a b
      → Both (append_value tx false prefix key v a) (append_value tx true prefix key v b)
  unfolding append_value
  append_value-Both prefix key v (buf, source) (buf', source') both =
      let val = quote_if_needed tx (tx.value_string v) in
      let named =
        paint-Painted ansi_dim (prefix ++ codes key ++ b'=' ∷ []) dim_code
          (Painted-then both.buf (b' ' ∷ [])) in
      elim (Bool-cases (key == "error" || key == "err")) [
        | inl red ↦
            rw red
              (record { buf = paint-Painted ansi_red val red_code named; source = both.source })
        | inr plain ↦ rw plain (record { buf = Painted-then named val; source = both.source })
      ]

  or_members-Both :
      (o : Option Text) (a b a' b' : Text × Text)
      → Both a b
      → Both a' b'
      → Both (or_members tx false o a a') (or_members tx true o b b')
  or_members-Both (some loc) (buf, source) (buf', source') a' b' both inner = record {
    buf = both.buf;
    source =
        paint-Painted ansi_dim (codes "source=" ++ loc) dim_code
          (Painted-then both.source (b' ' ∷ []));
  }
  or_members-Both none a b a' b' both inner = inner

  mutual
    unfolding append_attr append_members

    append_attr-Both :
        (prefix : Text) (key : String) (v : Value) (a b : Text × Text)
        → Both a b
        → Both (append_attr tx false prefix key v a) (append_attr tx true prefix key v b)
    append_attr-Both prefix key (log_valuer v) a b both = append_attr-Both prefix key v a b both
    append_attr-Both prefix key (group nil) a b both = both
    append_attr-Both prefix key (group (cons k v rest)) a b both =
        or_members-Both (place_of tx prefix key (cons k v rest)) a b _ _ both
          (append_members-Both (nested prefix key) (cons k v rest) a b both)
    append_attr-Both prefix key nil_value a b both = elim (Bool-cases (key == "")) [
      | inl blank ↦ rw blank both
      | inr named ↦ rw named (append_value-Both prefix key nil_value a b both)
    ]
    append_attr-Both prefix key (str s) a b both = append_value-Both prefix key (str s) a b both
    append_attr-Both prefix key (int i) a b both = append_value-Both prefix key (int i) a b both
    append_attr-Both prefix key (other i) a b both = append_value-Both prefix key (other i) a b both

    append_members-Both :
        (prefix : Text) (attrs : Attrs) (a b : Text × Text)
        → Both a b
        → Both (append_members tx false prefix attrs a) (append_members tx true prefix attrs b)
    append_members-Both prefix nil a b both = both
    append_members-Both prefix (cons k v rest) a b both =
        append_members-Both prefix rest _ _ (append_attr-Both prefix k v a b both)

  append_ops-Both :
      (prefix : Text) (ops : List Op) (attrs : Attrs) (a b : Text × Text)
      → Both a b
      → Both (append_ops tx false prefix ops attrs a) (append_ops tx true prefix ops attrs b)
  unfolding append_ops
  append_ops-Both prefix [] attrs a b both = append_members-Both prefix attrs a b both
  append_ops-Both prefix (group_op name ∷ ops) attrs a b both =
      append_ops-Both (prefix ++ codes name ++ b'.' ∷ []) ops attrs a b both
  append_ops-Both prefix (attrs_op held ∷ ops) attrs a b both =
      append_ops-Both prefix ops attrs _ _ (append_members-Both prefix held a b both)

  heading-Painted : (r : Record) → Painted (heading tx false r) (heading tx true r)
  unfolding heading
  heading-Painted r = paint-Painted ansi_bold (codes r.message) bold_code (
      Painted-then
        (paint-Painted (level_color r.level) (level_label tx r.level) (level_color-IsEscape r.level)
          timed)
        (b' ' ∷ []))
    where
      timed :
          Painted
            (if nat_eq r.time 0
              then []
              else paint false [] ansi_dim (tx.time_text r.time) ++ b' ' ∷ [])
            (if nat_eq r.time 0
              then []
              else paint true [] ansi_dim (tx.time_text r.time) ++ b' ' ∷ [])
      timed = elim (Bool-cases (nat_eq r.time 0)) [
        | inl zero_time ↦ rw zero_time ended
        | inr shown ↦
            rw shown (
              Painted-then (paint-Painted ansi_dim (tx.time_text r.time) dim_code ended)
                (b' ' ∷ []))
      ]

  -- With colors, the line is the one without colors, with escape sequences of the handler put in: the
  -- colors take away, add or reorder nothing of the text.
  pub console_handle-Painted :
      (h : ConsoleHandler) (r : Record)
      → Painted
          (console_handle tx (record h { color = false }) r)
          (console_handle tx (record h { color = true }) r)
  unfolding console_handle line_of
  console_handle-Painted h r =
      let both =
        append_ops-Both [] h.ops r.attrs (heading tx false r, []) (heading tx true r, [])
          (record { buf = heading-Painted r; source = ended }) in
      Painted-then (Painted-append both.buf both.source) (b'\n' ∷ [])
