-- ===== src/Console/Lines.antt =====
-- How many lines one record becomes in pkg/logger/handler/console_handler.go.
use kit_logger.Base.{
  ℕ, ◌+◌, ◌≡◌, refl, ◌∙◌, Bool, false, ◌||◌, Option, none, some, List, [], ◌∷◌, ◌++◌, String, ◌==◌,
  codes, nat_eq, arith, if◌then◌else◌, Bool-cases, inl, inr,
}
use kit_logger.Slog.{
  Value, str, int, nil_value, other, log_valuer, group, Attrs, nil, cons, Record, Op, attrs_op,
  group_op,
}
use kit_logger.Console.Defs.{
  Text, Texts, ConsoleHandler, ansi_dim, ansi_bold, ansi_red, paint, level_color, level_label,
  quote_if_needed, place_of, nested, or_members, append_value, append_attr, append_members,
  append_ops, heading, line_of, console_handle,
}
use kit_logger.Console.Newlines.{
  newlines, newlines_of, SingleLine, IsPlainKey, HasPlainKeys, OpsPlainKeys, newlines-append,
  paint-newlines, level_color-newlines, level_label-newlines, quote_if_needed-newlines,
}

module _ (tx : Texts) (single : SingleLine tx) where
  -- the line ends of both buffers
  abbrev total : Text × Text → ℕ
  total (buf, source) = newlines buf + newlines source

  space_dot : (s : Text) (c : ℕ) → nat_eq c 10 ≡ false → newlines (s ++ c ∷ []) ≡ newlines s
  unfolding newlines
  space_dot s c h = ground (arith, newlines-append s (c ∷ []))

  red_dim : (newlines ansi_dim ≡ 0) × (newlines ansi_red ≡ 0) × (newlines ansi_bold ≡ 0)
  unfolding newlines
  red_dim = (refl, refl, refl)

  -- a name at the end of a prefix, with one more character
  named-newlines :
      (prefix : Text) (key : String) (c : ℕ)
      → nat_eq c 10 ≡ false
      → newlines prefix ≡ 0
      → newlines (codes key) ≡ 0
      → newlines (prefix ++ codes key ++ c ∷ []) ≡ 0
  named-newlines prefix key c plain p k =
      space_dot (prefix ++ codes key) c plain
      ∙ (let e = newlines-append prefix (codes key) in omega arith)

  module _ (color : Bool) where
    append_value-total :
        (prefix : Text) (key : String) (v : Value) (out : Text × Text)
        → newlines prefix ≡ 0
        → newlines (codes key) ≡ 0
        → total (append_value tx color prefix key v out) ≡ total out
    unfolding append_value
    append_value-total prefix key v (buf, source) p k =
        let name = prefix ++ codes key ++ b'=' ∷ [] in
        let val = quote_if_needed tx (tx.value_string v) in
        let buf' = paint color (buf ++ b' ' ∷ []) ansi_dim name in
        let (dim, red, _) = red_dim in
        let e1 = paint-newlines color (buf ++ b' ' ∷ []) ansi_dim name dim in
        let e2 = space_dot buf b' ' refl in
        let e3 = named-newlines prefix key b'=' refl p k in
        let e4 = quote_if_needed-newlines tx single (tx.value_string v) in
        let e5 = newlines-append buf' val in
        let e6 = paint-newlines color buf' ansi_red val red in
        elim (Bool-cases (key == "error" || key == "err")) [
          | inl err ↦ rw err (omega arith)
          | inr plain ↦ rw plain (omega arith)
        ]

    or_members-total :
        (o : Option Text) (out inner : Text × Text)
        → newlines_of o ≡ 0
        → total inner ≡ total out
        → total (or_members tx color o out inner) ≡ total out
    unfolding newlines
    or_members-total none out inner plain e = e
    or_members-total (some loc) (buf, source) inner plain e =
        let (dim, _, _) = red_dim in
        let e1 = paint-newlines color (source ++ b' ' ∷ []) ansi_dim (codes "source=" ++ loc) dim in
        let e2 = space_dot source b' ' refl in
        let e3 : newlines (codes "source=" ++ loc) ≡ newlines loc = refl in omega arith

    place-newlines :
        (prefix : Text) (key : String) (members : Attrs)
        → newlines_of (place_of tx [] key members) ≡ 0
        → newlines_of (place_of tx prefix key members) ≡ 0
    place-newlines [] key members h = h
    place-newlines (c ∷ prefix) key members h = refl

    nested-newlines :
        (prefix : Text) (key : String)
        → newlines prefix ≡ 0
        → newlines (codes key) ≡ 0
        → newlines (nested prefix key) ≡ 0
    nested-newlines prefix key p k = elim (Bool-cases (key == "")) [
      | inl blank ↦ rw blank p
      | inr named ↦ rw named (named-newlines prefix key b'.' refl p k)
    ]

    mutual
      unfolding append_attr append_members

      append_attr-total :
          (prefix : Text) (key : String) (v : Value) (out : Text × Text)
          → newlines prefix ≡ 0
          → IsPlainKey tx key v
          → total (append_attr tx color prefix key v out) ≡ total out
      append_attr-total prefix key (log_valuer v) out p k = append_attr-total prefix key v out p k
      append_attr-total prefix key (group nil) out p k = refl
      append_attr-total prefix key (group (cons j v rest)) out p (k, place, members) =
          or_members-total (place_of tx prefix key (cons j v rest)) out _
            (place-newlines prefix key (cons j v rest) place)
            (append_members-total (nested prefix key) (cons j v rest) out
              (nested-newlines prefix key p k) members)
      append_attr-total prefix key nil_value out p k = elim (Bool-cases (key == "")) [
        | inl blank ↦ rw blank refl
        | inr named ↦ rw named (append_value-total prefix key nil_value out p k)
      ]
      append_attr-total prefix key (str s) out p k = append_value-total prefix key (str s) out p k
      append_attr-total prefix key (int i) out p k = append_value-total prefix key (int i) out p k
      append_attr-total prefix key (other i) out p k =
          append_value-total prefix key (other i) out p k

      append_members-total :
          (prefix : Text) (attrs : Attrs) (out : Text × Text)
          → newlines prefix ≡ 0
          → HasPlainKeys tx attrs
          → total (append_members tx color prefix attrs out) ≡ total out
      append_members-total prefix nil out p keys = refl
      append_members-total prefix (cons k v rest) out p (first, later) =
          append_members-total prefix rest (append_attr tx color prefix k v out) p later
          ∙ append_attr-total prefix k v out p first

    append_ops-total :
        (prefix : Text) (ops : List Op) (attrs : Attrs) (out : Text × Text)
        → newlines prefix ≡ 0
        → OpsPlainKeys tx ops
        → HasPlainKeys tx attrs
        → total (append_ops tx color prefix ops attrs out) ≡ total out
    unfolding append_ops
    append_ops-total prefix [] attrs out p ok keys = append_members-total prefix attrs out p keys
    append_ops-total prefix (group_op name ∷ ops) attrs out p (plain, ok) keys =
        append_ops-total (prefix ++ codes name ++ b'.' ∷ []) ops attrs out
          (named-newlines prefix name b'.' refl p plain) ok keys
    append_ops-total prefix (attrs_op held ∷ ops) attrs out p (first, ok) keys =
        append_ops-total prefix ops attrs (append_members tx color prefix held out) p ok keys
        ∙ append_members-total prefix held out p first

    timed-newlines :
        (r : Record)
        → newlines (
            if nat_eq r.time 0
            then []
            else paint color [] ansi_dim (tx.time_text r.time) ++ b' ' ∷ [])
          ≡ 0
    unfolding newlines
    timed-newlines r = elim (Bool-cases (nat_eq r.time 0)) [
      | inl zero_time ↦ rw zero_time refl
      | inr shown ↦
          let painted = paint color [] ansi_dim (tx.time_text r.time) in
          let (dim, _, _) = red_dim in
          let e1 = paint-newlines color [] ansi_dim (tx.time_text r.time) dim in
          let e2 = space_dot painted b' ' refl in
          let e3 = single.time r.time in rw shown (omega arith)
    ]

    heading-newlines : (r : Record) → newlines (heading tx color r) ≡ newlines (codes r.message)
    unfolding heading
    heading-newlines r =
        let timed =
          if nat_eq r.time 0
          then []
          else paint color [] ansi_dim (tx.time_text r.time) ++ b' ' ∷ [] in
        let labelled = paint color timed (level_color r.level) (level_label tx r.level) in
        let (_, _, bold) = red_dim in
        let e1 = paint-newlines color (labelled ++ b' ' ∷ []) ansi_bold (codes r.message) bold in
        let e2 = space_dot labelled b' ' refl in
        let e3 =
          paint-newlines color timed (level_color r.level) (level_label tx r.level)
            (level_color-newlines r.level) in
        let e4 = timed-newlines r in let e5 = level_label-newlines tx single r.level in omega arith

  -- Where the time and the names of levels have no line end, a line end is a space and a quoted text has
  -- none, the keys have none, and a group named source gives no location with one: a record becomes as
  -- many lines as its message has. No other value of its attributes, whatever its text, adds a line.
  pub console_handle-newlines :
      (h : ConsoleHandler) (r : Record)
      → OpsPlainKeys tx h.ops
      → HasPlainKeys tx r.attrs
      → newlines (console_handle tx h r) ≡ newlines (codes r.message) + 1
  unfolding console_handle line_of newlines
  console_handle-newlines h r ok keys =
      let (buf, source) = append_ops tx h.color [] h.ops r.attrs (heading tx h.color r, []) in
      let e1 = append_ops-total h.color [] h.ops r.attrs (heading tx h.color r, []) refl ok keys in
      let e2 = heading-newlines h.color r in
      let e3 = newlines-append (buf ++ source) (b'\n' ∷ []) in
      let e4 = newlines-append buf source in omega arith
