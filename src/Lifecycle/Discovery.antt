-- ===== src/Lifecycle/Discovery.antt =====
-- Which handlers of a chain pkg/logger/lifecycle.go finds to flush and shut down.
use mathlib.Core.List.{append-nil}
use kit_logger.Base.{
  ℕ, zero, suc, ◌+◌, ◌<◌, ◌≡◌, refl, ap, Bool, true, false, Option, none, some, List, [], ◌∷◌, ◌++◌,
  ◌⊎◌, ◌↔◌, sym, subst, if◌then◌else◌, inl, inr, arith,
}
use kit_logger.Lifecycle.Defs.{
  Unwraps, is_opaque, to_one, to_many, Shape, max_unwrap_depth, walk_all, walk, collect_flushers,
}

-- membership in a list of handlers
pub data In {A : Type 0} (x : A) : List A → Type 0 where
  here : {xs : List A} → In x (x ∷ xs)
  there : {y : A} {xs : List A} → In x xs → In x (y ∷ xs)

-- what a handler unwraps to
pub next : Unwraps → List (Option ℕ)
next is_opaque = []
next (to_one h) = h ∷ []
next (to_many hs) = hs

-- `k` is reached from `h` by unwrapping `n` times.
pub data Unwrap (shape : ℕ → Shape) : ℕ → Option ℕ → ℕ → Type 0 where
  same : {h : ℕ} → Unwrap shape zero (some h) h
  further :
      {n h k : ℕ} {g : Option ℕ}
      → In g (next (shape h).unwraps)
      → Unwrap shape n g k
      → Unwrap shape (suc n) (some h) k

In-left : {A : Type 0} {x : A} (xs ys : List A) → In x xs → In x (xs ++ ys)
In-left xs ys here = here
In-left (x ∷ xs) ys (there i) = there (In-left xs ys i)

In-right : {A : Type 0} {x : A} (xs ys : List A) → In x ys → In x (xs ++ ys)
In-right [] ys i = i
In-right (x ∷ xs) ys i = there (In-right xs ys i)

In-either : {A : Type 0} {x : A} (xs ys : List A) → In x (xs ++ ys) → In x xs ⊎ In x ys
In-either [] ys i = inr i
In-either (x ∷ xs) ys here = inl here
In-either (x ∷ xs) ys (there i) = elim (In-either xs ys i) [ inl j ↦ inl (there j) | inr j ↦ inr j ]

walk_all-In :
    (f : Option ℕ → List ℕ) (hs : List (Option ℕ)) {g : Option ℕ} {k : ℕ}
    → In g hs
    → In k (f g)
    → In k (walk_all f hs)
unfolding walk_all
walk_all-In f [] j i = elim j [ ]
walk_all-In f (h ∷ hs) here i = In-left (f h) (walk_all f hs) i
walk_all-In f (h ∷ hs) (there j) i = In-right (f h) (walk_all f hs) (walk_all-In f hs j i)

walk_all-from :
    (f : Option ℕ → List ℕ) (hs : List (Option ℕ)) {k : ℕ}
    → In k (walk_all f hs)
    → (g : Option ℕ) × In g hs × In k (f g)
unfolding walk_all
walk_all-from f [] i = elim i [ ]
walk_all-from f (h ∷ hs) {k = k} i = elim (In-either (f h) (walk_all f hs) i) [
  | inl j ↦ (h, here, j)
  | inr j ↦ let (g, m, i) = walk_all-from f hs j in (g, there m, i)
]

walk-unwraps :
    (f : Option ℕ → List ℕ) (u : Unwraps)
    → (elim u [ is_opaque ↦ [] | to_one g ↦ f g | to_many gs ↦ walk_all f gs ])
      ≡ walk_all f (next u)
unfolding walk_all next
walk-unwraps f is_opaque = refl
walk-unwraps f (to_one g) = sym (append-nil (f g))
walk-unwraps f (to_many gs) = refl

-- a walk is the handler itself, if it is a Flusher, before the walks of what it unwraps to
walk-next :
    (shape : ℕ → Shape) (left h : ℕ)
    → walk shape (suc left) (some h)
      ≡ (if (shape h).flusher then h ∷ [] else [])
        ++ walk_all (walk shape left) (next (shape h).unwraps)
unfolding walk next walk_all
walk-next shape left h =
    ap (λ ks. (if (shape h).flusher then h ∷ [] else []) ++ ks)
      (walk-unwraps (walk shape left) (shape h).unwraps)

self-In : (b : Bool) (h : ℕ) {k : ℕ} → In k (if b then h ∷ [] else []) → (b ≡ true) × (k ≡ h)
self-In true h here = (refl, refl)
self-In true h (there i) = elim i [ ]
self-In false h i = elim i [ ]

walk-In :
    (shape : ℕ → Shape) (left n : ℕ) {h : Option ℕ} {k : ℕ}
    → n < left
    → Unwrap shape n h k
    → (shape k).flusher ≡ true
    → In k (walk shape left h)
walk-In shape zero n lt u on = absurd (ground arith)
walk-In shape (suc left) zero lt (same {h = h}) on = rw (walk-next shape left h, on) here
walk-In shape (suc left) (suc n) lt (further {h = h} i u) on = rw (walk-next shape left h) (
    In-right (if (shape h).flusher then h ∷ [] else [])
      (walk_all (walk shape left) (next (shape h).unwraps))
      (walk_all-In (walk shape left) (next (shape h).unwraps) i
        (walk-In shape left n (ground arith) u on)))

walk-from :
    (shape : ℕ → Shape) (left : ℕ) (h : Option ℕ) {k : ℕ}
    → In k (walk shape left h)
    → (n : ℕ) × (n < left) × Unwrap shape n h k × ((shape k).flusher ≡ true)
unfolding walk
walk-from shape zero h i = elim i [ ]
walk-from shape (suc left) none i = elim i [ ]
walk-from shape (suc left) (some h) {k = k} i =
    let self = if (shape h).flusher then h ∷ [] else [] in
    let below = walk_all (walk shape left) (next (shape h).unwraps) in
    elim (In-either self below (subst (λ ks. In k ks) (walk-next shape left h) i)) [
      | inl j ↦ let (on, e) = self-In (shape h).flusher h j in (0, ground arith, rw e same, rw e on)
      | inr j ↦
          let (g, j', m) = walk_all-from (walk shape left) (next (shape h).unwraps) j in
          let (n, lt, u, on) = walk-from shape left g m in (suc n, ground arith, further j' u, on)
    ]

-- A handler is collected exactly if it is a Flusher and is reached from the root by at most 32
-- unwrappings, whatever the shape of the chain, cycles included.
pub collect_flushers_iff :
    (shape : ℕ → Shape) (root : Option ℕ) (k : ℕ)
    → In k (collect_flushers shape root)
      ↔ ((n : ℕ) × (n < max_unwrap_depth + 1) × Unwrap shape n root k × ((shape k).flusher ≡ true))
unfolding collect_flushers
collect_flushers_iff shape root k = (
  λ i. walk-from shape (max_unwrap_depth + 1) root i,
  λ (n, lt, u, on). walk-In shape (max_unwrap_depth + 1) n lt u on,
)
