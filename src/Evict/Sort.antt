-- ===== src/Evict/Sort.antt =====
-- `slices.SortFunc` on timestamps, and the rank of an element of the sorted buffer.
use kit_logger.Base.{
  ℕ, zero, suc, ◌-◌, ◌≤◌, ◌<◌, ◌≡◌, refl, List, [], ◌∷◌, length, get_or, ltb, leb, arith,
  if◌then◌else◌,
}

insert_sorted : ℕ → List ℕ → List ℕ
insert_sorted x [] = x ∷ []
insert_sorted x (y ∷ ys) = if leb x y then x ∷ y ∷ ys else y ∷ insert_sorted x ys

unfoldable pub sort : List ℕ → List ℕ
unfolding insert_sorted
sort [] = []
sort (x ∷ xs) = insert_sorted x (sort xs)

-- How many of the numbers are at least `c`.
abbrev pub count_from : ℕ → List ℕ → ℕ
count_from c [] = 0
count_from c (x ∷ xs) = let n = count_from c xs in if leb c x then suc n else n

-- How many are more than `c`.
abbrev pub count_above : ℕ → List ℕ → ℕ
count_above c [] = 0
count_above c (x ∷ xs) = let n = count_above c xs in if ltb c x then suc n else n

abbrev Below : ℕ → List ℕ → Type 0
Below b [] = Unit
Below b (x ∷ xs) = (b ≤ x) × Below b xs

abbrev IsSorted : List ℕ → Type 0
IsSorted [] = Unit
IsSorted (x ∷ xs) = Below x xs × IsSorted xs

count_from-insert_sorted :
    (c x : ℕ) (ys : List ℕ) → count_from c (insert_sorted x ys) ≡ count_from c (x ∷ ys)
unfolding insert_sorted
count_from-insert_sorted c x [] = refl
count_from-insert_sorted c x (y ∷ ys) = ground (arith, count_from-insert_sorted c x ys)

count_above-insert_sorted :
    (c x : ℕ) (ys : List ℕ) → count_above c (insert_sorted x ys) ≡ count_above c (x ∷ ys)
unfolding insert_sorted
count_above-insert_sorted c x [] = refl
count_above-insert_sorted c x (y ∷ ys) = ground (arith, count_above-insert_sorted c x ys)

count_from-sort : (c : ℕ) (xs : List ℕ) → count_from c (sort xs) ≡ count_from c xs
unfolding sort
count_from-sort c [] = refl
count_from-sort c (x ∷ xs) =
    ground (arith, count_from-insert_sorted c x (sort xs), count_from-sort c xs)

count_above-sort : (c : ℕ) (xs : List ℕ) → count_above c (sort xs) ≡ count_above c xs
unfolding sort
count_above-sort c [] = refl
count_above-sort c (x ∷ xs) =
    ground (arith, count_above-insert_sorted c x (sort xs), count_above-sort c xs)

length-insert_sorted : (x : ℕ) (ys : List ℕ) → length (insert_sorted x ys) ≡ suc (length ys)
unfolding insert_sorted
length-insert_sorted x [] = refl
length-insert_sorted x (y ∷ ys) = ground (arith, length-insert_sorted x ys)

pub length-sort : (xs : List ℕ) → length (sort xs) ≡ length xs
unfolding sort
length-sort [] = refl
length-sort (x ∷ xs) = omega (arith, length-insert_sorted x (sort xs), length-sort xs)

Below-trans : (a b : ℕ) (xs : List ℕ) → a ≤ b → Below b xs → Below a xs
Below-trans a b [] h l = tt
Below-trans a b (x ∷ xs) h l = (omega arith, Below-trans a b xs h l.1)

Below-insert_sorted : (b x : ℕ) (ys : List ℕ) → b ≤ x → Below b ys → Below b (insert_sorted x ys)
unfolding insert_sorted
Below-insert_sorted b x [] h l = (h, tt)
Below-insert_sorted b x (y ∷ ys) h l = ground (arith, Below-insert_sorted b x ys)

insert_sorted-IsSorted : (x : ℕ) (ys : List ℕ) → IsSorted ys → IsSorted (insert_sorted x ys)
unfolding insert_sorted
insert_sorted-IsSorted x [] s = (tt, tt)
insert_sorted-IsSorted x (y ∷ ys) s =
    ground (arith, insert_sorted-IsSorted x ys, Below-insert_sorted y x ys, Below-trans x y ys)

sort-IsSorted : (xs : List ℕ) → IsSorted (sort xs)
unfolding sort
sort-IsSorted [] = tt
sort-IsSorted (x ∷ xs) = insert_sorted-IsSorted x (sort xs) (sort-IsSorted xs)

count_from_of_Below : (b : ℕ) (xs : List ℕ) → Below b xs → count_from b xs ≡ length xs
count_from_of_Below b [] h = refl
count_from_of_Below b (x ∷ xs) h = ground (arith, count_from_of_Below b xs h.1)

get_or-ge_of_Below : (b i : ℕ) (xs : List ℕ) → Below b xs → i < length xs → b ≤ get_or xs i 0
get_or-ge_of_Below b i [] h l = absurd (omega arith)
get_or-ge_of_Below b zero (x ∷ xs) h l = h.0
get_or-ge_of_Below b (suc i) (x ∷ xs) h l = get_or-ge_of_Below b i xs h.1 (omega arith)

-- From its place on, a sorted list holds nothing smaller than an element.
rank_from :
    (i : ℕ) (xs : List ℕ)
    → IsSorted xs
    → i < length xs
    → length xs - i ≤ count_from (get_or xs i 0) xs
rank_from i [] s h = absurd (omega arith)
rank_from zero (x ∷ xs) s h = ground (arith, count_from_of_Below x xs s.0)
rank_from (suc i) (x ∷ xs) s h = ground (arith, rank_from i xs s.1)

count_above-of_le : (c x : ℕ) (xs : List ℕ) → count_above c xs ≤ length xs
count_above-of_le c x [] = omega arith
count_above-of_le c x (y ∷ ys) = ground (arith, count_above-of_le c x ys)

-- Above an element of a sorted list there is only what stands behind it.
rank_above :
    (i : ℕ) (xs : List ℕ)
    → IsSorted xs
    → i < length xs
    → count_above (get_or xs i 0) xs < length xs - i
rank_above i [] s h = absurd (omega arith)
rank_above zero (x ∷ xs) s h = ground (arith, count_above-of_le x x xs)
rank_above (suc i) (x ∷ xs) s h = ground (arith, rank_above i xs s.1, get_or-ge_of_Below x i xs s.0)

-- In a buffer of `n` timestamps, at least `target` are not before the cutoff.
pub target-le-count_from :
    (target n : ℕ) (xs : List ℕ)
    → n ≡ length xs
    → 0 < target
    → target ≤ n
    → target ≤ count_from (get_or (sort xs) (n - target) 0) xs
target-le-count_from target n xs e p h = omega (
  arith,
  rank_from (n - target) (sort xs) (sort-IsSorted xs) (omega (arith, length-sort xs)),
  count_from-sort (get_or (sort xs) (n - target) 0) xs,
  length-sort xs,
)

-- Fewer than `target` timestamps are after the cutoff.
pub count_above-lt-target :
    (target n : ℕ) (xs : List ℕ)
    → n ≡ length xs
    → 0 < target
    → target ≤ n
    → count_above (get_or (sort xs) (n - target) 0) xs < target
count_above-lt-target target n xs e p h = omega (
  arith,
  rank_above (n - target) (sort xs) (sort-IsSorted xs) (omega (arith, length-sort xs)),
  count_above-sort (get_or (sort xs) (n - target) 0) xs,
  length-sort xs,
)
