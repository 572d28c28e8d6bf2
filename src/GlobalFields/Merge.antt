-- ===== src/GlobalFields/Merge.antt =====
-- What `merge` makes of the record's attributes and the global fields.
use kit_logger.Base.{
  ℕ, suc, ◌+◌, ◌≡◌, refl, sym, ap, ◌∙◌, Bool, true, false, ◌||◌, none, some, String, ◌==◌, eq_iff,
  arith, if◌then◌else◌, Bool-cases, inl, inr, Option-cases,
}
use kit_logger.Slog.{Value, Attrs, nil, cons, append, append-nil, append_assoc}
use kit_logger.GlobalFields.Defs.{
  lookup_field, has_key, merge_loop, missing_fields, merge, collides,
}

-- how often a key stands at the top level
abbrev pub count_key : String → Attrs → ℕ
count_key x nil = 0
count_key x (cons k v rest) = let n = count_key x rest in if k == x then suc n else n

-- no key twice
abbrev pub Distinct : Attrs → Type 0
Distinct nil = Unit
Distinct (cons k v rest) = (has_key rest k ≡ false) × Distinct rest

count_key-append :
    (x : String) (xs ys : Attrs) → count_key x (append xs ys) ≡ count_key x xs + count_key x ys
count_key-append x nil ys = omega arith
count_key-append x (cons k v rest) ys = ground (arith, count_key-append x rest ys)

has_key-count : (x : String) (xs : Attrs) → has_key xs x ≡ false → count_key x xs ≡ 0
unfolding has_key
has_key-count x nil h = refl
has_key-count x (cons k v rest) h = ground (arith, has_key-count x rest)

keep_loop : (fields out attrs : Attrs) → merge_loop fields false out attrs ≡ append out attrs
unfolding merge_loop
keep_loop fields out nil = sym (append-nil out)
keep_loop fields out (cons k v rest) = elim (Option-cases (lookup_field k fields)) [
  | inl e ↦
      rw e
        (keep_loop fields (append out (cons k v nil)) rest ∙ append_assoc out (cons k v nil) rest)
  | inr (g, e) ↦
      rw e
        (keep_loop fields (append out (cons k v nil)) rest ∙ append_assoc out (cons k v nil) rest)
]

-- Without override the record's attributes stay as they are, and the fields that the record does
-- not carry follow in their order.
pub merge_keep :
    (fields attrs : Attrs) → merge fields false attrs ≡ append attrs (missing_fields attrs fields)
unfolding merge
merge_keep fields attrs =
    ap (λ l. append l (missing_fields attrs fields)) (keep_loop fields nil attrs)

lookup_field-has_key :
    (k : String) (fields : Attrs) → lookup_field k fields ≡ none → has_key fields k ≡ false
unfolding lookup_field has_key
lookup_field-has_key k nil h = refl
lookup_field-has_key k (cons j v rest) h = ground (arith, lookup_field-has_key k rest)

free_loop :
    (fields : Attrs) (override : Bool) (out attrs : Attrs)
    → collides fields attrs ≡ false
    → merge_loop fields override out attrs ≡ append out attrs
unfolding merge_loop collides
free_loop fields override out nil h = sym (append-nil out)
free_loop fields override out (cons k v rest) h =
    let new : lookup_field k fields ≡ none = ground arith in
    rw new (
      free_loop fields override (append out (cons k v nil)) rest (ground arith)
      ∙ append_assoc out (cons k v nil) rest)

has_key_apart :
    (fields attrs : Attrs) (k : String) (g : Value)
    → collides (cons k g fields) attrs ≡ false
    → (has_key attrs k ≡ false) × (collides fields attrs ≡ false)
unfolding collides lookup_field has_key
has_key_apart fields nil k g h = (refl, refl)
has_key_apart fields (cons j v rest) k g h =
    ground (arith, has_key_apart fields rest k g, eq_iff j k, eq_iff k j)

free_missing :
    (fields attrs : Attrs) → collides fields attrs ≡ false → missing_fields attrs fields ≡ fields
unfolding missing_fields
free_missing nil attrs h = refl
free_missing (cons k g rest) attrs h =
    ground (arith, has_key_apart rest attrs k g h, free_missing rest attrs)

-- The fast path agrees with `merge`: with no common key the fields simply follow the attributes.
pub merge_free :
    (fields : Attrs) (override : Bool) (attrs : Attrs)
    → collides fields attrs ≡ false
    → merge fields override attrs ≡ append attrs fields
unfolding merge
merge_free fields override attrs h =
    rw (free_loop fields override nil attrs h, free_missing fields attrs h)

has_key-append :
    (x : String) (xs ys : Attrs) → has_key (append xs ys) x ≡ (has_key xs x || has_key ys x)
unfolding has_key
has_key-append x nil ys = refl
has_key-append x (cons k v rest) ys = ground (arith, has_key-append x rest ys)

other_key :
    (fields : Attrs) (k x : String) (g : Value)
    → lookup_field k fields ≡ none
    → lookup_field x fields ≡ some g
    → (k == x) ≡ false
other_key fields k x g e f = ground (arith, eq_iff k x)

-- how often a global key stands in the first loop's output, from an output that has it as often
override_loop :
    (fields out attrs : Attrs) (x : String) (g : Value)
    → lookup_field x fields ≡ some g
    → count_key x out ≡ (if has_key out x then 1 else 0)
    → count_key x (merge_loop fields true out attrs)
      ≡ (if has_key out x || has_key attrs x then 1 else 0)
unfolding merge_loop has_key
override_loop fields out nil x g f c = ground arith
override_loop fields out (cons k v rest) x g f c = elim (Option-cases (lookup_field k fields)) [
  | inl e ↦
      let out' = append out (cons k v nil) in
      let apart : (k == x) ≡ false = other_key fields k x g e f in
      rw e (
        ground (
          arith,
          override_loop fields out' rest x g f,
          count_key-append x out (cons k v nil),
          has_key-append x out (cons k v nil),
        ))
  | inr (g', e) ↦
      let out' = append out (cons k g' nil) in
      elim (Bool-cases (has_key out k)) [
        | inl again ↦
            rw (e, again) (ground (arith, override_loop fields out rest x g f c, eq_iff k x))
        | inr first ↦
            rw (e, first)
              (ground (
                arith,
                override_loop fields out' rest x g f,
                count_key-append x out (cons k g' nil),
                has_key-append x out (cons k g' nil),
                eq_iff k x,
              ))
      ]
]

count_missing :
    (x : String) (fields attrs : Attrs)
    → count_key x (missing_fields attrs fields)
      ≡ (if has_key attrs x then 0 else count_key x fields)
unfolding missing_fields
count_missing x nil attrs = ground arith
count_missing x (cons k g rest) attrs = ground (arith, count_missing x rest attrs, eq_iff k x)

count-Distinct :
    (x : String) (g : Value) (fields : Attrs)
    → Distinct fields
    → lookup_field x fields ≡ some g
    → count_key x fields ≡ 1
unfolding lookup_field
count-Distinct x g nil d f = cc
count-Distinct x g (cons k v rest) d f =
    ground (arith, eq_iff k x, has_key-count x rest, count-Distinct x g rest d.1)

-- With override, and with global fields of distinct keys, the key of every global field stands
-- exactly once in the merged attributes, also where the record repeats it.
pub merge_override_once :
    (fields attrs : Attrs) (x : String) (g : Value)
    → Distinct fields
    → lookup_field x fields ≡ some g
    → count_key x (merge fields true attrs) ≡ 1
unfolding merge has_key
merge_override_once fields attrs x g d f = ground (
  arith,
  count_key-append x (merge_loop fields true nil attrs) (missing_fields attrs fields),
  override_loop fields nil attrs x g f,
  count_missing x fields attrs,
  count-Distinct x g fields d f,
)

-- Without override a key that the record carries stands in the merged attributes as often as in
-- the record: a repeated one stays repeated.
pub merge_keeps_repeats :
    (fields attrs : Attrs) (x : String)
    → has_key attrs x ≡ true
    → count_key x (merge fields false attrs) ≡ count_key x attrs
merge_keeps_repeats fields attrs x h = ground (
  arith,
  merge_keep fields attrs,
  count_key-append x attrs (missing_fields attrs fields),
  count_missing x fields attrs,
)
