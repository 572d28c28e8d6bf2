-- ===== src/Rate/Tracks.antt =====
-- The entry of a limited key, and what one look at the clock and the bucket makes of it.
use Prim.Native.Nat.{◌^◌}
use kit_logger.Base.{
  ℕ, ◌+◌, ◌≤◌, ◌<◌, ◌≡◌, refl, true, false, some, ltb, arith, if◌then◌else◌, Bool-cases, inl, inr,
}
use kit_logger.Base.Int.{pos, int_eq}
use kit_logger.Rate.Limiter.{Limiter, Bucket}
use kit_logger.Rate.Defs.{RateLimitOpt, RateEntry, RateState, is_positive_i64, touch_entry, consult}

-- `e` is the entry of a limited key: its limiter allowed its last event at `t`, not after the last
-- time that the key was seen, and the count has not left the positive int64.
pub record Tracks {L : Type 0} {lim : Limiter L} (b : Bucket lim) (i t n : ℕ) (e : RateEntry L)
    : Type 0 where
  pub positive : 0 < i
  pub interval : e.interval ≡ pos i
  pub limiter : (l : L) × (e.limiter ≡ some l) × b.Spent i t l
  pub seen : t ≤ e.last_seen
  pub count : e.suppressed ≡ n
  pub in_range : n + 1 < 2 ^ 63

-- the clock of a decision on a tracked key: it does not go back
abbrev pub clamped : {L : Type 0} → ℕ → RateEntry L → ℕ
clamped clock e = if ltb clock e.last_seen then e.last_seen else clock

pub touch_entry-local :
    {L : Type 0} (lim : Limiter L) (opt : RateLimitOpt) (clock : ℕ) (e : RateEntry L)
    (s s' : RateState L)
    → (touch_entry lim opt clock e s).1 ≡ (touch_entry lim opt clock e s').1
unfolding touch_entry
touch_entry-local lim opt clock e s s' = ground arith

module _ {L : Type 0} {lim : Limiter L} (b : Bucket lim) where
  pub touch_entry-Tracks :
      (opt : RateLimitOpt) (clock i t n : ℕ) (e : RateEntry L) (s : RateState L)
      → Tracks b i t n e
      → ((touch_entry lim opt clock e s).0 ≡ clamped clock e)
        × ((touch_entry lim opt clock e s).2.limiters ≡ s.limiters)
        × ((touch_entry lim opt clock e s).1.last_seen ≡ clamped clock e)
        × (e.last_seen ≤ clamped clock e)
        × Tracks b i t n (touch_entry lim opt clock e s).1
  unfolding touch_entry
  touch_entry-Tracks opt clock i t n e s h =
      let later : e.last_seen ≤ clamped clock e = ground arith in
      let kept : t ≤ clamped clock e = ground (arith, h.seen) in
      elim (Bool-cases (int_eq e.interval opt.interval)) [
        | inl same ↦ rw same (
          refl,
          refl,
          refl,
          later,
          record {
            positive = h.positive;
            interval = h.interval;
            limiter = h.limiter;
            seen = kept;
            count = h.count;
            in_range = h.in_range;
          },
        )
        | inr other ↦ rw other (
          refl,
          refl,
          refl,
          later,
          record {
            positive = h.positive;
            interval = h.interval;
            limiter = h.limiter;
            seen = kept;
            count = h.count;
            in_range = h.in_range;
          },
        )
      ]

  pub consult_early :
      (now i t n : ℕ) (e : RateEntry L)
      → Tracks b i t n e
      → e.last_seen ≡ now
      → n + 2 < 2 ^ 63
      → now < t + i
      → ((consult lim now e).0 ≡ false)
        × ((consult lim now e).1 ≡ 0)
        × ((consult lim now e).2 ≡ false)
        × Tracks b i t (n + 1) (consult lim now e).3
  unfolding consult
  consult_early now i t n e h seen range early =
      let (l, has, spent) = h.limiter in
      let (denied, spent') = b.too_early i t now l spent (omega (arith, h.seen)) early in
      rw (has, consult, denied)
        (
          refl,
          refl,
          refl,
          record {
            positive = h.positive;
            interval = h.interval;
            limiter = ((lim.allow_n l now).1, refl, spent');
            seen = h.seen;
            count = omega arith;
            in_range = omega arith;
          },
        )

  pub consult_refilled :
      (now i t n : ℕ) (e : RateEntry L)
      → Tracks b i t n e
      → e.last_seen ≡ now
      → t + i ≤ now
      → ((consult lim now e).0 ≡ true)
        × ((consult lim now e).1 ≡ n)
        × ((consult lim now e).2 ≡ ltb 0 n)
        × Tracks b i now 0 (consult lim now e).3
  unfolding consult
  consult_refilled now i t n e h seen late =
      let (l, has, spent) = h.limiter in
      let (allowed, spent') = b.refilled i t now l spent late in
      let tracks : Tracks b i now 0
          (record e { limiter = some (lim.allow_n l now).1; suppressed = 0 }) =
        record {
          positive = h.positive;
          interval = h.interval;
          limiter = ((lim.allow_n l now).1, refl, spent');
          seen = omega arith;
          count = refl;
          in_range = omega arith;
        } in
      elim (Bool-cases (is_positive_i64 e.suppressed)) [
        | inl some_lost ↦
            rw (has, consult, allowed, some_lost) (refl, h.count, ground (arith, h.count), tracks)
        | inr none_lost ↦
            rw (has, consult, allowed, none_lost)
              (
                refl,
                h.count,
                ground (arith, h.count, h.in_range),
                record {
                  positive = h.positive;
                  interval = h.interval;
                  limiter = tracks.limiter;
                  seen = tracks.seen;
                  count = ground (arith, h.count, h.in_range);
                  in_range = omega arith;
                },
              )
      ]
