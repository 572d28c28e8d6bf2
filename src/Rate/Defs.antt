-- ===== src/Rate/Defs.antt =====
-- The definitions of pkg/logger/rate.go. The state of `shouldLog` is passed explicitly, and the
-- clock's reading is its argument.
use Prim.Native.Nat.{◌^◌, ◌%◌}
use kit_logger.Base.{
  ℕ, zero, suc, ◌+◌, ◌-◌, ◌/◌, Bool, true, false, not, ◌&&◌, Option, none, some, List, [], ◌∷◌,
  ◌++◌, length, keep, ltb, nat_eq, if◌then◌else◌, String, ◌==◌,
}
use kit_logger.Base.Int.{ℤ, pos, negsuc, sub_ℕ, ltb_ℤ, leb_ℤ, int_eq}
use kit_logger.Evict.{lookup, insert, drop_oldest}
use kit_logger.Rate.Limiter.{Limiter}

abbrev pub default_rate_limit_max_keys : ℕ
default_rate_limit_max_keys = 4096

-- `RateLimitOpt`
pub record RateLimitOpt : Type 0 where
  pub key : String
  pub interval : ℤ

-- An argument of a log method: one of the two options, or anything else. `A` is Go's `any`.
pub data Arg (A : Type 0) : Type 0 where
  with_rate_limit : RateLimitOpt → Arg A
  with_counter : String → Arg A
  field : A → Arg A

-- `atomic.Uint64.Add`
abbrev pub add_u64 : ℕ → ℕ → ℕ
add_u64 a b = (a + b) % 2 ^ 64

-- `suppressed > 0` of an int64, read as its bit pattern
abbrev pub is_positive_i64 : ℕ → Bool
is_positive_i64 n = ltb 0 n && ltb n (2 ^ 63)

-- what `warn` is called with
pub data Warning : Type 0 where
  key_conflict : String → ℤ → ℤ → Warning
  invalid_interval : String → ℤ → Warning

-- `rateEntry`; `suppressed` is the bit pattern of the int64
pub record RateEntry (L : Type 0) : Type 0 where
  pub limiter : Option L
  pub interval : ℤ
  pub suppressed : ℕ
  pub last_seen : ℕ
  pub conflict_warned : Bool

-- `rateState`, with the warnings that it has printed
pub record RateState (L : Type 0) : Type 0 where
  pub limiters : List (String × RateEntry L)
  pub max_keys : ℕ
  pub evicted : ℕ
  pub invalid_configs : ℕ
  pub conflicts : ℕ
  pub warnings : List Warning

-- `newRateState`
unfoldable pub new_rate_state : {L : Type 0} → ℤ → RateState L
new_rate_state max_keys = record {
  limiters = [];
  max_keys = elim max_keys [
    | pos zero ↦ default_rate_limit_max_keys
    | pos (suc n) ↦ suc n
    | negsuc n ↦ default_rate_limit_max_keys
  ];
  evicted = 0;
  invalid_configs = 0;
  conflicts = 0;
  warnings = [];
}

-- `target` of `evictLocked`. It is cut at 0, as in the source.
unfoldable pub rate_target : ℕ → ℕ
rate_target max_keys =
    let target = max_keys - max_keys / 4 in
    if ltb (max_keys - 1) target then max_keys - 1 else target

module _ {L : Type 0} where
  -- the test of the first pass of `evictLocked`: elapsed, and no unreported count
  unfoldable pub is_reclaimable : ℕ → RateEntry L → Bool
  is_reclaimable now e =
      let elapsed = sub_ℕ now e.last_seen in
      leb_ℤ e.interval (if ltb_ℤ elapsed (pos 0) then pos 0 else elapsed) && nat_eq e.suppressed 0

  -- the passes of `evictLocked` over the map
  unfoldable pub rate_survivors : ℕ → ℕ → List (String × RateEntry L) → List (String × RateEntry L)
  rate_survivors now max_keys m =
      let live = keep (λ e. not (is_reclaimable now e.1)) m in
      let target = rate_target max_keys in
      if ltb (length live) max_keys
      then live
      else if nat_eq target 0
      then []
      else drop_oldest (λ (e : RateEntry L). e.last_seen) target live

  -- `evictLocked`
  unfoldable pub rate_evict : ℕ → RateState L → RateState L
  rate_evict now s =
      if ltb (length s.limiters) s.max_keys
      then s
      else (let rest = rate_survivors now s.max_keys s.limiters in
          record s {
            limiters = rest;
            evicted = add_u64 s.evicted (length s.limiters - length rest);
          })

module _ {L : Type 0} (lim : Limiter L) where
  -- the branch of `shouldLog` for a tracked key: clamp the clock, refresh the entry, report a
  -- conflicting interval. It returns the clamped clock, the entry and the state.
  unfoldable pub touch_entry :
      RateLimitOpt → ℕ → RateEntry L → RateState L → ℕ × RateEntry L × RateState L
  touch_entry opt clock e s =
      let now = if ltb clock e.last_seen then e.last_seen else clock in
      if int_eq e.interval opt.interval then (now, record e { last_seen = now }, s) else (
        now,
        record e { last_seen = now; conflict_warned = true },
        record s {
          conflicts = add_u64 s.conflicts 1;
          warnings =
              if e.conflict_warned
              then s.warnings
              else s.warnings ++ key_conflict opt.key opt.interval e.interval ∷ [];
        },
      )

  -- the branch for a new key, after `evictLocked`
  unfoldable pub create_entry : RateLimitOpt → ℕ → RateState L → RateEntry L × RateState L
  create_entry opt now s =
      if ltb_ℤ (pos 0) opt.interval
      then (
        record {
          limiter = some (lim.new opt.interval);
          interval = opt.interval;
          suppressed = 0;
          last_seen = now;
          conflict_warned = false;
        },
        s,
      )
      else (
        record {
          limiter = none;
          interval = opt.interval;
          suppressed = 0;
          last_seen = now;
          conflict_warned = false;
        },
        record s {
          invalid_configs = add_u64 s.invalid_configs 1;
          warnings = s.warnings ++ invalid_interval opt.key opt.interval ∷ [];
        },
      )

  -- the end of `shouldLog`: whether to emit, the count to report, whether to report it, and the
  -- entry as it is left
  unfoldable pub consult : ℕ → RateEntry L → Bool × ℕ × Bool × RateEntry L
  consult now e = elim e.limiter [
    | none ↦ (true, 0, false, e)
    | some l ↦
        let (allow, l') = lim.allow_n l now in
        if allow
        then if is_positive_i64 e.suppressed
          then (true, e.suppressed, true, record e { limiter = some l'; suppressed = 0 })
          else (true, e.suppressed, false, record e { limiter = some l' })
        else (false, 0, false, record e { limiter = some l'; suppressed = add_u64 e.suppressed 1 })
  ]

  -- the entry that `shouldLog` consults, with the clock, the entry and the state as they are then
  unfoldable pub find_entry : RateLimitOpt → ℕ → RateState L → ℕ × RateEntry L × RateState L
  find_entry opt now s = elim (lookup ◌==◌ opt.key s.limiters) [
    | some e ↦ touch_entry opt now e s
    | none ↦ let (e, s') = create_entry opt now (rate_evict now s) in (now, e, s')
  ]

  -- `shouldLog` past its guards
  unfoldable pub decide_key : RateLimitOpt → ℕ → RateState L → (Bool × ℕ × Bool) × RateState L
  decide_key opt clock s =
      let (now, e, s') = find_entry opt clock s in
      let (allow, count, report, e') = consult now e in
      ((allow, count, report), record s' { limiters = insert ◌==◌ opt.key e' s'.limiters })

  -- `shouldLog`
  unfoldable pub should_log :
      Option RateLimitOpt → ℕ → Option (RateState L) → (Bool × ℕ × Bool) × Option (RateState L)
  should_log opt now none = ((true, 0, false), none)
  should_log none now (some s) = ((true, 0, false), some s)
  should_log (some opt) now (some s) =
      if opt.key == ""
      then ((true, 0, false), some s)
      else (let (r, s') = decide_key opt now s in (r, some s'))

-- `extractLogOptions`: the other arguments, and the last option of each kind
pub record Extracted (A : Type 0) : Type 0 where
  pub filtered : List (Arg A)
  pub rate_limit : Option RateLimitOpt
  pub counter : Option String

module _ {A : Type 0} where
  -- one round of the loop
  unfoldable pub extract_step : Extracted A → Arg A → Extracted A
  extract_step x (with_rate_limit o) = record x { rate_limit = some o }
  extract_step x (with_counter name) = record x { counter = some name }
  extract_step x (field a) = record x { filtered = x.filtered ++ field a ∷ [] }

  unfoldable pub extract_loop : Extracted A → List (Arg A) → Extracted A
  extract_loop x [] = x
  extract_loop x (a ∷ rest) = extract_loop (extract_step x a) rest

  unfoldable pub extract_log_options : List (Arg A) → Extracted A
  extract_log_options = extract_loop (record { filtered = []; rate_limit = none; counter = none })
