-- ===== src/Rate/Limiter.antt =====
-- `rate.Limiter` of golang.org/x/time/rate, which the program calls and does not contain.
use kit_logger.Base.{ℕ, ◌+◌, ◌≤◌, ◌<◌, ◌≡◌, Bool, true, false}
use kit_logger.Base.Int.{ℤ, pos}

pub record Limiter (L : Type 0) : Type 0 where
  -- `rate.NewLimiter(rate.Every(interval), 1)`
  pub new : ℤ → L
  -- `AllowN(now, 1)`
  pub allow_n : L → ℕ → Bool × L

-- What the package documents of a token bucket of size one: it starts full, an event at or after
-- one interval past the last allowed event finds a token, an earlier one does not.
-- `Spent i t l`: the limiter `l` refills every `i` and allowed its last event at `t`.
pub record Bucket {L : Type 0} (lim : Limiter L) : Type 1 where
  pub Spent : ℕ → ℕ → L → Type 0
  pub starts_full :
      (i now : ℕ)
      → 0 < i
      → ((lim.allow_n (lim.new (pos i)) now).0 ≡ true)
        × Spent i now (lim.allow_n (lim.new (pos i)) now).1
  pub too_early :
      (i t now : ℕ) (l : L)
      → Spent i t l
      → t ≤ now
      → now < t + i
      → ((lim.allow_n l now).0 ≡ false) × Spent i t (lim.allow_n l now).1
  pub refilled :
      (i t now : ℕ) (l : L)
      → Spent i t l
      → t + i ≤ now
      → ((lim.allow_n l now).0 ≡ true) × Spent i now (lim.allow_n l now).1
