-- ===== src/Evict/Bounds.antt =====
-- What the forced eviction pass leaves: how many entries, and which.
use kit_logger.Base.{
  ℕ, suc, ◌+◌, ◌-◌, ◌≤◌, ◌<◌, ◌≡◌, refl, ap, List, [], ◌∷◌, length, keep, length-drop, nat_eq,
  arith, if◌then◌else◌,
}
use kit_logger.Evict.Sort.{count_from, count_above, target-le-count_from, count_above-lt-target}
use package.kit_logger.Evict.{stamps, cutoff, drop_older, drop_any, drop_oldest}

-- How many of the numbers are `c`.
abbrev pub count_equal : ℕ → List ℕ → ℕ
count_equal c [] = 0
count_equal c (x ∷ xs) = let n = count_equal c xs in if nat_eq c x then suc n else n

count_from-split : (c : ℕ) (xs : List ℕ) → count_from c xs ≡ count_above c xs + count_equal c xs
count_from-split c [] = omega arith
count_from-split c (x ∷ xs) = ground (arith, count_from-split c xs)

module _ {K V : Type 0} (seen : V → ℕ) where
  length-stamps : (m : List (K × V)) → length m ≡ length (stamps seen m)
  length-stamps [] = refl
  length-stamps (e ∷ m) = ap suc (length-stamps m)

  length-drop_older :
      (c : ℕ) (m : List (K × V)) → length (drop_older seen c m) ≡ count_from c (stamps seen m)
  unfolding drop_older keep
  length-drop_older c [] = refl
  length-drop_older c (e ∷ m) = ground (arith, length-drop_older c m)

  module _ (target : ℕ) (m : List (K × V)) (positive : 0 < target) (fits : target ≤ length m) where
    cutoff_rank :
        (target ≤ count_from (cutoff seen target m) (stamps seen m))
        × (count_above (cutoff seen target m) (stamps seen m) < target)
    unfolding cutoff
    cutoff_rank = (
      target-le-count_from target (length m) (stamps seen m) (length-stamps m) positive fits,
      count_above-lt-target target (length m) (stamps seen m) (length-stamps m) positive fits,
    )

    -- The forced pass of an eviction, asked for a positive number of entries that does not exceed
    -- those there are, leaves exactly that many, however many share an instant.
    pub length-drop_oldest : length (drop_oldest seen target m) ≡ target
    unfolding drop_oldest drop_any
    length-drop_oldest =
        let rest = drop_older seen (cutoff seen target m) m in
        omega (
          arith,
          length-drop (length rest - target) rest,
          length-drop_older (cutoff seen target m) m,
          cutoff_rank,
        )

    -- With no two entries of one instant the pass drops only what is before the cutoff.
    pub drop_oldest-exact :
        ((c : ℕ) → count_equal c (stamps seen m) ≤ 1)
        → drop_oldest seen target m ≡ drop_older seen (cutoff seen target m) m
    unfolding drop_oldest drop_any
    drop_oldest-exact distinct =
        let c = cutoff seen target m in
        let nothing : length (drop_older seen c m) - target ≡ 0 = omega (
          arith,
          length-drop_older c m,
          count_from-split c (stamps seen m),
          distinct c,
          cutoff_rank,
        ) in
        rw nothing
