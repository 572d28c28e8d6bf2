-- ===== src/Source/Names.antt =====
-- The loop of `shortFuncName` ends, and what it leaves.
use mathlib.Core.List.{append-nil, append_assoc}
use kit_logger.Base.{
  ℕ, zero, suc, ◌+◌, ◌<◌, ◌≡◌, refl, sym, ap, ◌∙◌, inl, inr, true, false, none, some, List, [], ◌∷◌,
  ◌++◌, length, take, drop, length-take-le, take-append-drop, arith, Bool-cases, Option-cases,
}
use kit_logger.Source.Defs.{
  last_index, simplify_func_name, is_closure_suffix, short_loop, short_func_name,
}

last_index-lt : (c : ℕ) (xs : List ℕ) (i : ℕ) → last_index c xs ≡ some i → i < length xs
unfolding last_index
last_index-lt c [] i h = absurd (ground arith)
last_index-lt c (x ∷ xs) i h = elim (Option-cases (last_index c xs)) [
  | inl e ↦ ground arith
  | inr (j, e) ↦ let below = last_index-lt c xs j e in ground arith
]

-- What remains of a name: closure suffixes, each with the dot before it, are cut off its end, for as
-- long as there is one.
pub data Shortens : List ℕ → List ℕ → Type 0 where
  no_dot : {fn : List ℕ} → last_index b'.' fn ≡ none → Shortens fn fn
  no_closure :
      {fn : List ℕ} (i : ℕ)
      → last_index b'.' fn ≡ some i
      → is_closure_suffix (drop (i + 1) fn) ≡ false
      → Shortens fn fn
  cut :
      {fn name : List ℕ} (i : ℕ)
      → last_index b'.' fn ≡ some i
      → is_closure_suffix (drop (i + 1) fn) ≡ true
      → Shortens (take i fn) name
      → Shortens fn name

short_loop_total :
    (fuel : ℕ) (fn : List ℕ)
    → length fn < fuel
    → (name : List ℕ) × (short_loop fuel fn ≡ some name) × Shortens fn name
unfolding short_loop
short_loop_total zero fn h = elim h [ ]
short_loop_total (suc fuel) fn h = elim (Option-cases (last_index b'.' fn)) [
  | inl e ↦ (fn, rw (e, short_loop) refl, no_dot e)
  | inr (i, e) ↦ elim (Bool-cases (is_closure_suffix (drop (i + 1) fn))) [
    | inr short ↦ (fn, rw (e, short_loop, short) refl, no_closure i e short)
    | inl closure ↦
        let below = last_index-lt b'.' fn i e in
        let (name, same, shortens) =
          short_loop_total fuel (take i fn) (omega (arith, length-take-le i fn)) in
        (name, rw (e, short_loop, closure) same, cut i e closure shortens)
  ]
]

Shortens-prefix : {fn name : List ℕ} → Shortens fn name → (rest : List ℕ) × (fn ≡ name ++ rest)
Shortens-prefix {fn = fn} (no_dot e) = ([], sym (append-nil fn))
Shortens-prefix {fn = fn} (no_closure i e c) = ([], sym (append-nil fn))
Shortens-prefix {fn = fn} {name = name} (cut i e c s) =
    let (rest, same) = Shortens-prefix s in
    (
      rest ++ drop i fn,
      sym (take-append-drop i fn)
          ∙ ap (λ t. t ++ drop i fn) same
          ∙ append_assoc name rest (drop i fn),
    )

-- `shortFuncName` ends for every name. Its result is a beginning of the name without its package path:
-- what is left after closure suffixes have been cut off the end, each with the dot before it, until no
-- dot is left or what follows the last dot is no closure suffix.
pub short_func_name_total :
    (fn : List ℕ)
    → (name : List ℕ) × (rest : List ℕ) × (short_func_name fn ≡ some name)
      × Shortens (simplify_func_name fn) name
      × (simplify_func_name fn ≡ name ++ rest)
unfolding short_func_name
short_func_name_total fn =
    let full = simplify_func_name fn in
    let (name, same, shortens) = short_loop_total (length full + 1) full (omega arith) in
    let (rest, whole) = Shortens-prefix shortens in (name, rest, same, shortens, whole)
