-- ===== src/Tests/Rate.antt =====
-- A token bucket of size one, and the rate limiter on it: a key that repeats every few instants.
use kit_logger.Base.{
  ℕ, ◌+◌, ◌<◌, ◌≤◌, ◌≡◌, ◌≢◌, refl, Bool, true, false, Option, none, some, List, [], ◌∷◌, ◌==◌,
  arith, leb, keep, length, not, if◌then◌else◌,
}
use kit_logger.Base.Int.{ℤ, pos, negsuc}
use kit_logger.Evict.{lookup}
use kit_logger.Rate.{
  RateLimitOpt, Arg, with_rate_limit, with_counter, field, RateEntry, RateState, new_rate_state,
  decide_key, rate_evict, is_reclaimable,
}
use kit_logger.Rate.Limiter.{Limiter, Bucket}
use kit_logger.Rate.Valid.{IsValid, new_rate_state-IsValid, decide_key-IsValid}
use kit_logger.Rate.Tracks.{Tracks}
use kit_logger.Rate.Eviction.{rate_evict_unobservable}
use kit_logger.Rate.Trace.{Call, Ascending, run_key, throttle, run_key-throttle}

-- a bucket's interval, and the last event that it allowed
abbrev pub Tokens : Type 0
Tokens = ℕ × Option ℕ

abbrev interval_of : ℤ → ℕ
interval_of (pos i) = i
interval_of (negsuc i) = 0

abbrev allow : Tokens → ℕ → Bool × Tokens
allow (i, none) now = (true, (i, some now))
allow (i, some t) now = if leb (t + i) now then (true, (i, some now)) else (false, (i, some t))

abbrev pub bucket : Limiter Tokens
bucket = record { new = λ i. (interval_of i, none); allow_n = allow }

allow_early :
    (i t now : ℕ) (l : Tokens)
    → l ≡ (i, some t)
    → now < t + i
    → ((allow l now).0 ≡ false) × ((allow l now).1 ≡ (i, some t))
allow_early i t now l e early =
    let no : leb (t + i) now ≡ false = ground arith in rw e (rw no (refl, refl))

allow_late :
    (i t now : ℕ) (l : Tokens)
    → l ≡ (i, some t)
    → t + i ≤ now
    → ((allow l now).0 ≡ true) × ((allow l now).1 ≡ (i, some now))
allow_late i t now l e late =
    let yes : leb (t + i) now ≡ true = ground arith in rw e (rw yes (refl, refl))

abbrev laws : Bucket bucket
laws = record {
  Spent = λ i t l. l ≡ (i, some t);
  starts_full = λ i now h. (refl, refl);
  too_early = λ i t now l e after early. allow_early i t now l e early;
  refilled = λ i t now l e late. allow_late i t now l e late;
}

abbrev entry : ℕ → ℕ → RateEntry Tokens
entry seen n = record {
  limiter = some (5, some seen);
  interval = pos 5;
  suppressed = n;
  last_seen = seen;
  conflict_warned = false;
}

abbrev state : RateState Tokens
state = record {
  limiters = ("disk", entry 10 0) ∷ ("net", entry 1 0) ∷ [];
  max_keys = 2;
  evicted = 0;
  invalid_configs = 0;
  conflicts = 0;
  warnings = [];
}

abbrev pub disk : RateLimitOpt
disk = record { key = "disk"; interval = pos 5 }

disk-Tracks : Tracks laws 5 10 0 (entry 10 0)
disk-Tracks = record {
  positive = omega arith;
  interval = refl;
  limiter = ((5, some 10), refl, refl);
  seen = omega arith;
  count = refl;
  in_range = omega arith;
}

abbrev calls : List Call
calls = (pos 5, 11) ∷ (pos 5, 13) ∷ (pos 5, 16) ∷ []

disk-found : lookup ◌==◌ "disk" state.limiters ≡ some (entry 10 0)
unfolding lookup
disk-found = refl

calls-Ascending : Ascending 10 calls
calls-Ascending = (omega arith, (omega arith, (omega arith, tt)))

state-IsValid : IsValid state
unfolding lookup
state-IsValid = record {
  room = omega arith;
  bounded = omega arith;
  unique = (refl, (refl, tt));
  entries = (ground arith, (ground arith, tt));
}

state-freed : length (keep (λ e. not (is_reclaimable 12 e.1)) state.limiters) < state.max_keys
unfolding is_reclaimable keep
state-freed = omega arith

decide_key-IsValid_example : IsValid (decide_key bucket disk 3 (new_rate_state (pos 1))).1
decide_key-IsValid_example =
    decide_key-IsValid bucket disk 3 (new_rate_state (pos 1)) (new_rate_state-IsValid (pos 1))

run_key-throttle_example : run_key bucket "disk" calls state ≡ throttle 5 10 0 calls
run_key-throttle_example =
    run_key-throttle laws "disk" 5 10 0 (entry 10 0) calls state disk-found disk-Tracks
      calls-Ascending (omega arith)

disk≢net : disk.key ≢ "net"
disk≢net = λ e. cc

rate_evict_unobservable_example :
    (run_key bucket "disk" ((pos 5, 13) ∷ (pos 9, 16) ∷ []) (rate_evict 12 state)
      ≡ run_key bucket "disk" ((pos 5, 13) ∷ (pos 9, 16) ∷ []) state)
    × IsValid (rate_evict 12 state)
    × ((rate_evict 12 state).max_keys ≡ state.max_keys)
rate_evict_unobservable_example =
    rate_evict_unobservable laws 12 state state-IsValid state-freed "disk" 13 5 10 0
      ((pos 9, 16) ∷ []) (entry 10 0) disk-found disk-Tracks (omega arith, (omega arith, tt))
      (omega arith) (omega arith)

abbrev args : List (Arg ℕ)
args = field 1 ∷ with_rate_limit disk ∷ field 2 ∷ with_counter "errors" ∷ []
