-- ===== src/Evict/Maps.antt =====
-- Laws of the association lists that stand for Go's maps.
use kit_logger.Base.{
  ℕ, zero, suc, ◌+◌, ◌≡◌, ◌↔◌, refl, subst, Bool, true, false, none, some, List, [], ◌∷◌, length,
  drop, keep, arith, if◌then◌else◌, Bool-cases, inl, inr, ◌≢◌,
}
use package.kit_logger.Evict.{lookup, insert, drop_older, drop_any, drop_oldest}

-- a Boolean test that decides equality
abbrev pub Decides : {A : Type 0} → (A → A → Bool) → Type 0
Decides {A} eq = (a b : A) → (eq a b ≡ true) ↔ (a ≡ b)

-- a property of every entry
abbrev pub All {ℓ} : {A : Type ℓ} → (A → Type 0) → List A → Type 0
All P [] = Unit
All P (x ∷ xs) = P x × All P xs

module _ {A : Type 0} (P : A → Type 0) where
  pub All-keep : (p : A → Bool) (xs : List A) → All P xs → All P (keep p xs)
  unfolding keep
  All-keep p [] h = tt
  All-keep p (x ∷ xs) h = elim (Bool-cases (p x)) [
    | inl e ↦ rw e (h.0, All-keep p xs h.1)
    | inr e ↦ rw e (All-keep p xs h.1)
  ]

  pub All-drop : (n : ℕ) (xs : List A) → All P xs → All P (drop n xs)
  All-drop zero xs h = h
  All-drop (suc n) [] h = tt
  All-drop (suc n) (x ∷ xs) h = All-drop n xs h.1

-- No key stands twice.
abbrev pub Unique : {K V : Type 0} → (K → K → Bool) → List (K × V) → Type 0
Unique eq [] = Unit
Unique eq ((k, v) ∷ m) = (lookup eq k m ≡ none) × Unique eq m

module _ {K V : Type 0} (eq : K → K → Bool) (p : V → Bool) where
  pub lookup-keep-none :
      (k : K) (m : List (K × V)) → lookup eq k m ≡ none → lookup eq k (keep (λ e. p e.1) m) ≡ none
  unfolding lookup keep
  lookup-keep-none k [] h = refl
  lookup-keep-none k ((i, w) ∷ m) h = ground (arith, lookup-keep-none k m)

  pub Unique-keep : (m : List (K × V)) → Unique eq m → Unique eq (keep (λ e. p e.1) m)
  unfolding keep
  Unique-keep [] u = tt
  Unique-keep ((i, w) ∷ m) u = elim (Bool-cases (p w)) [
    | inl e ↦ rw e (lookup-keep-none i m u.0, Unique-keep m u.1)
    | inr e ↦ rw e (Unique-keep m u.1)
  ]

module _ {K V : Type 0} (eq : K → K → Bool) where
  pub Unique-drop : (n : ℕ) (m : List (K × V)) → Unique eq m → Unique eq (drop n m)
  Unique-drop zero m u = u
  Unique-drop (suc n) [] u = tt
  Unique-drop (suc n) (e ∷ m) u = Unique-drop n m u.1

  pub lookup-drop-none :
      (n : ℕ) (k : K) (m : List (K × V)) → lookup eq k m ≡ none → lookup eq k (drop n m) ≡ none
  unfolding lookup
  lookup-drop-none zero k m h = h
  lookup-drop-none (suc n) k [] h = refl
  lookup-drop-none (suc n) k ((i, w) ∷ m) h = lookup-drop-none n k m (ground arith)

module _ {K V : Type 0} (eq : K → K → Bool) (decides : Decides eq) where
  pub lookup-insert :
      (k j : K) (v : V) (m : List (K × V))
      → lookup eq j (insert eq k v m) ≡ (if eq k j then some v else lookup eq j m)
  unfolding lookup insert
  lookup-insert k j v [] = refl
  lookup-insert k j v ((i, w) ∷ m) =
      ground (arith, decides k j, decides i k, decides i j, lookup-insert k j v m)

  pub lookup-insert_self :
      (k : K) (v : V) (m : List (K × V)) → lookup eq k (insert eq k v m) ≡ some v
  lookup-insert_self k v m = rw (lookup-insert k k v m, (decides k k).1 refl)

  pub lookup-insert_ne :
      (k j : K) (v : V) (m : List (K × V)) → k ≢ j → lookup eq j (insert eq k v m) ≡ lookup eq j m
  lookup-insert_ne k j v m h = ground (arith, lookup-insert k j v m, decides k j)

  -- Writing to a key that is there keeps the size; a new key adds one.
  pub length-insert :
      (k : K) (v : V) (m : List (K × V))
      → length (insert eq k v m) ≡ elim (lookup eq k m) [ none ↦ length m + 1 | some w ↦ length m ]
  unfolding lookup insert
  length-insert k v [] = omega arith
  length-insert k v ((i, w) ∷ m) = ground (arith, length-insert k v m)

  pub All-insert :
      (P : K × V → Type 0) (k : K) (v : V) (m : List (K × V))
      → ((j : K) → P (j, v))
      → All P m
      → All P (insert eq k v m)
  unfolding insert
  All-insert P k v [] h a = (h k, tt)
  All-insert P k v ((i, w) ∷ m) h a = elim (Bool-cases (eq i k)) [
    | inl e ↦ rw e (h i, a.1)
    | inr e ↦ rw e (a.0, All-insert P k v m h a.1)
  ]

  -- What a lookup finds has the property of every entry.
  pub All-lookup :
      (P : V → Type 0) (k : K) (m : List (K × V)) (v : V)
      → All (λ e. P e.1) m
      → lookup eq k m ≡ some v
      → P v
  unfolding lookup
  All-lookup P k [] v a h = absurd (ground arith)
  All-lookup P k ((i, w) ∷ m) v a h = elim (Bool-cases (eq i k)) [
    | inl e ↦ let p : w ≡ v = ground arith in subst P p a.0
    | inr e ↦ All-lookup P k m v a.1 (ground arith)
  ]

  Unique-insert-none :
      (i k : K) (v : V) (m : List (K × V))
      → (eq k i ≡ false)
      → lookup eq i m ≡ none
      → lookup eq i (insert eq k v m) ≡ none
  Unique-insert-none i k v m other absent = rw (lookup-insert k i v m, other) absent

  pub Unique-insert : (k : K) (v : V) (m : List (K × V)) → Unique eq m → Unique eq (insert eq k v m)
  unfolding insert lookup
  Unique-insert k v [] u = (refl, tt)
  Unique-insert k v ((i, w) ∷ m) u = elim (Bool-cases (eq i k)) [
    | inl e ↦ rw e u
    | inr e ↦ rw e (
      Unique-insert-none i k v m (ground (arith, decides i k, decides k i)) u.0,
      Unique-insert k v m u.1,
    )
  ]

  -- A filter by value hides the keys whose values it drops, and no other.
  pub lookup-keep :
      (p : V → Bool) (k : K) (m : List (K × V))
      → Unique eq m
      → lookup eq k (keep (λ e. p e.1) m)
        ≡ elim (lookup eq k m) [ none ↦ none | some v ↦ if p v then some v else none ]
  unfolding lookup keep
  lookup-keep p k [] u = refl
  lookup-keep p k ((i, w) ∷ m) u = elim (Bool-cases (eq i k)) [
    | inl e ↦
        let absent : lookup eq k m ≡ none =
          subst (λ j. lookup eq j m ≡ none) ((decides i k).0 e) u.0 in
        ground (arith, lookup-keep-none eq p k m)
    | inr e ↦ ground (arith, lookup-keep p k m u.1)
  ]

module _ {K V : Type 0} (seen : V → ℕ) (target : ℕ) where
  pub All-drop_oldest :
      (P : K × V → Type 0) (m : List (K × V)) → All P m → All P (drop_oldest seen target m)
  unfolding drop_oldest drop_any drop_older
  All-drop_oldest P m h = All-drop P _ _ (All-keep P _ m h)

  pub Unique-drop_oldest :
      (eq : K → K → Bool) (m : List (K × V)) → Unique eq m → Unique eq (drop_oldest seen target m)
  unfolding drop_oldest drop_any drop_older
  Unique-drop_oldest eq m u = Unique-drop eq _ _ (Unique-keep eq _ m u)

  pub lookup-drop_oldest-none :
      (eq : K → K → Bool) (k : K) (m : List (K × V))
      → lookup eq k m ≡ none
      → lookup eq k (drop_oldest seen target m) ≡ none
  unfolding drop_oldest drop_any drop_older
  lookup-drop_oldest-none eq k m h = lookup-drop-none eq _ k _ (lookup-keep-none eq _ k m h)
