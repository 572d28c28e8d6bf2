-- ===== src/Evict.antt =====
-- The bounded maps of pkg/logger/rate.go and pkg/logger/handler/sampling_handler.go: Go maps as
-- association lists, and the eviction pass that both files write out. A list holds the entries in
-- the order in which the runtime iterates over the map; Go leaves that order open.
pub mod Bounds
pub mod Maps
mod Sort
pub use Sort.{sort}
use kit_logger.Base.{
  ℕ, zero, suc, ◌-◌, Bool, not, Option, none, some, List, [], ◌∷◌, map, length, get_or, drop, keep,
  ltb, leb, if◌then◌else◌,
}

-- `m[k]`, and `m[k] = v`, by a Boolean equality of keys
module _ {K V : Type 0} (eq : K → K → Bool) where
  unfoldable pub lookup : K → List (K × V) → Option V
  lookup k [] = none
  lookup k ((j, v) ∷ m) = if eq j k then some v else lookup k m

  unfoldable pub insert : K → V → List (K × V) → List (K × V)
  insert k v [] = (k, v) ∷ []
  insert k v ((j, w) ∷ m) = if eq j k then (j, v) ∷ m else (j, w) ∷ insert k v m

module _ {K V : Type 0} (seen : V → ℕ) where
  -- the timestamps of the entries, in iteration order: `evictBuf`
  abbrev pub stamps : List (K × V) → List ℕ
  stamps = map (λ e. seen e.1)

  -- `evictBuf[len(evictBuf)-target]` of the sorted buffer
  unfoldable pub cutoff : ℕ → List (K × V) → ℕ
  cutoff target m = get_or (sort (stamps m)) (length m - target) 0

  -- delete what was last seen before the cutoff
  unfoldable pub drop_older : ℕ → List (K × V) → List (K × V)
  drop_older limit = keep (λ e. leb limit (seen e.1))

  -- `for k := range m { if len(m) <= target { break }; delete(m, k) }`
  unfoldable pub drop_any : ℕ → List (K × V) → List (K × V)
  drop_any target m = drop (length m - target) m

  -- The forced pass, for a positive target: the oldest first, then any.
  unfoldable pub drop_oldest : ℕ → List (K × V) → List (K × V)
  drop_oldest target m = drop_any target (drop_older (cutoff target m) m)
