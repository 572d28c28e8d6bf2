-- ===== src/Rate/Trace.antt =====
-- A key's records over time: `shouldLog` refines a plain throttle.
use Prim.Native.Nat.{◌^◌}
use kit_logger.Base.{
  ℕ, suc, ◌+◌, ◌≤◌, ◌<◌, ◌≡◌, refl, sym, ap, subst, ◌∙◌, Bool, true, false, some, List, [], ◌∷◌,
  length, String, ◌==◌, ltb, leb, arith, if◌then◌else◌, Bool-cases, inl, inr,
}
use kit_logger.Base.Int.{ℤ}
use kit_logger.Evict.{lookup}
use kit_logger.Rate.Limiter.{Limiter, Bucket}
use kit_logger.Rate.Defs.{RateLimitOpt, RateEntry, RateState, decide_key}
use kit_logger.Rate.Tracks.{Tracks, clamped}
use kit_logger.Rate.Limits.{decide_key_early, decide_key_late}

-- One call of a log method with the key: the interval that it gives, and the clock.
abbrev pub Call : Type 0
Call = ℤ × ℕ

-- The decisions of `shouldLog` on the calls with one key, in order.
unfoldable pub run_key :
    {L : Type 0} → Limiter L → String → List Call → RateState L → List (Bool × ℕ × Bool)
run_key lim key [] s = []
run_key lim key ((interval, clock) ∷ calls) s =
    let (r, s') = decide_key lim (record { key = key; interval = interval }) clock s in
    r ∷ run_key lim key calls s'

-- The abstract throttle: after an emission at `t` with `n` suppressed since, a record is emitted
-- from `t + i` on, and reports `n`.
unfoldable pub throttle : ℕ → ℕ → ℕ → List Call → List (Bool × ℕ × Bool)
throttle i t n [] = []
throttle i t n ((_, clock) ∷ calls) =
    let emitted = throttle i clock 0 calls in
    let suppressed = throttle i t (n + 1) calls in
    if leb (t + i) clock then (true, n, ltb 0 n) ∷ emitted else (false, 0, false) ∷ suppressed

-- The clock does not go back.
abbrev pub Ascending : ℕ → List Call → Type 0
Ascending from [] = Unit
Ascending from ((_, clock) ∷ calls) = (from ≤ clock) × Ascending clock calls

-- how many records are suppressed, and how many are reported as suppressed
pub suppressed_total : List (Bool × ℕ × Bool) → ℕ
suppressed_total [] = 0
suppressed_total ((allow, _, _) ∷ rs) =
    let rest = suppressed_total rs in if allow then rest else suc rest

pub reported_total : List (Bool × ℕ × Bool) → ℕ
reported_total [] = 0
reported_total ((_, count, report) ∷ rs) =
    let rest = reported_total rs in if report then count + rest else rest

-- what is suppressed after the last emission, from `n` before it
pub pending : ℕ → List (Bool × ℕ × Bool) → ℕ
pending n [] = n
pending n ((allow, _, _) ∷ rs) = pending (if allow then 0 else n + 1) rs

module _ {L : Type 0} {lim : Limiter L} (b : Bucket lim) (key : String) where
  -- For calls with one key, of which a positive interval `i` was set and an event at `t` was
  -- emitted with `n` suppressed since: on a clock that does not go back and as long as the count
  -- stays within int64, the decisions of `shouldLog` are those of the throttle, whatever intervals
  -- the calls give.
  pub run_key-throttle :
      (i t n : ℕ) (e : RateEntry L) (calls : List Call) (s : RateState L)
      → lookup ◌==◌ key s.limiters ≡ some e
      → Tracks b i t n e
      → Ascending e.last_seen calls
      → n + length calls + 2 < 2 ^ 63
      → run_key lim key calls s ≡ throttle i t n calls
  unfolding run_key throttle
  run_key-throttle i t n e [] s found h up range = refl
  run_key-throttle i t n e ((interval, clock) ∷ calls) s found h up range =
      let opt : RateLimitOpt = record { key = key; interval = interval } in
      let s' = (decide_key lim opt clock s).1 in
      let now : clamped clock e ≡ clock = ground (arith, up.0) in
      elim (Bool-cases (leb (t + i) clock)) [
        | inl late ↦
            let past : t + i ≤ clamped clock e = ground arith in
            let (d, e', held, seen, h') = decide_key_late b opt clock i t n e s found h past in
            rw (d, late)
              (ap (◌∷◌ (true, n, ltb 0 n)) (
                run_key-throttle i clock 0 e' calls s' held (subst (λ c. Tracks b i c 0 e') now h')
                  (subst (λ c. Ascending c calls) (sym (seen ∙ now)) up.1) (omega arith)))
        | inr early ↦
            let within : clamped clock e < t + i = ground arith in
            let (d, e', held, seen, h') =
              decide_key_early b opt clock i t n e s found h (omega arith) within in
            rw (d, early)
              (ap (◌∷◌ (false, 0, false)) (
                run_key-throttle i t (n + 1) e' calls s' held h'
                  (subst (λ c. Ascending c calls) (sym (seen ∙ now)) up.1) (omega arith)))
      ]

throttle_counts :
    (i t n : ℕ) (calls : List Call)
    → n + suppressed_total (throttle i t n calls)
      ≡ reported_total (throttle i t n calls) + pending n (throttle i t n calls)
unfolding throttle suppressed_total reported_total pending
throttle_counts i t n [] = omega arith
throttle_counts i t n ((_, clock) ∷ calls) =
    ground (arith, throttle_counts i clock 0 calls, throttle_counts i t (n + 1) calls)

-- emissions no closer than `i` to one another, and to `t`
abbrev pub Spaced : ℕ → ℕ → List Call → List (Bool × ℕ × Bool) → Type 0
Spaced i t [] rs = Unit
Spaced i t (c ∷ calls) [] = Unit
Spaced i t ((_, clock) ∷ calls) ((true, _, _) ∷ rs) = (t + i ≤ clock) × Spaced i clock calls rs
Spaced i t (c ∷ calls) ((false, _, _) ∷ rs) = Spaced i t calls rs

throttle-Spaced : (i t n : ℕ) (calls : List Call) → Spaced i t calls (throttle i t n calls)
unfolding throttle
throttle-Spaced i t n [] = tt
throttle-Spaced i t n ((x, clock) ∷ calls) = elim (Bool-cases (leb (t + i) clock)) [
  | inl late ↦ rw late (ground arith, throttle-Spaced i clock 0 calls)
  | inr early ↦ rw early (throttle-Spaced i t (n + 1) calls)
]

module _ {L : Type 0} {lim : Limiter L} (b : Bucket lim) (key : String) where
  module _ (i t n : ℕ) (e : RateEntry L) (calls : List Call) (s : RateState L)
      (found : lookup ◌==◌ key s.limiters ≡ some e) (tracked : Tracks b i t n e)
      (ascending : Ascending e.last_seen calls) (in_range : n + length calls + 2 < 2 ^ 63) where
    -- Under the conditions of `run_key-throttle`, no suppressed record is lost or reported twice:
    -- what was pending and what is suppressed is what is reported and what is pending at the end.
    pub run_key_counts :
        (let rs = run_key lim key calls s in
          n + suppressed_total rs ≡ reported_total rs + pending n rs)
    run_key_counts =
        rw (run_key-throttle b key i t n e calls s found tracked ascending in_range)
          (throttle_counts i t n calls)

    -- Under the conditions of `run_key-throttle`, any two records that are emitted are at least
    -- the interval apart.
    pub run_key-Spaced : Spaced i t calls (run_key lim key calls s)
    run_key-Spaced =
        rw (run_key-throttle b key i t n e calls s found tracked ascending in_range)
          (throttle-Spaced i t n calls)
