-- ===== src/Sampling/Defs.antt =====
-- The definitions of pkg/logger/handler/sampling_handler.go, as a decorator of a handler `next`.
-- The clock's and the random source's readings are arguments of a call.
use Prim.Native.Nat.{◌^◌, ◌%◌}
use kit_logger.Base.{
  ℕ, zero, suc, ◌+◌, ◌-◌, ◌/◌, max, Bool, true, false, not, ◌&&◌, ◌||◌, Option, none, some, List,
  [], ◌∷◌, ◌++◌, length, keep, ltb, nat_eq, if◌then◌else◌, String, ◌==◌,
}
use kit_logger.Base.Int.{ℤ, pos, negsuc, sub_ℕ, ltb_ℤ, leb_ℤ, int_eq}
use kit_logger.Slog.{Context, Record, Handler, Error}
use kit_logger.Evict.{lookup, insert, drop_oldest}

abbrev pub default_sampling_max_keys : ℕ
default_sampling_max_keys = 4096

-- float64, as the program uses it: two constants and the order, which is false at a NaN
pub record Floats (F : Type 0) : Type 0 where
  pub lt : F → F → Bool
  pub le : F → F → Bool
  pub zero_f : F
  pub one_f : F

-- `samplingKey`
pub record SamplingKey : Type 0 where
  pub level : ℤ
  pub text : String

abbrev pub sampling_key_eq : SamplingKey → SamplingKey → Bool
sampling_key_eq a b = int_eq a.level b.level && a.text == b.text

-- `SamplingConfig`. The clock and the random source are not kept: their readings are arguments.
pub record SamplingConfig (F : Type 0) : Type 0 where
  pub interval : ℤ
  pub min_level : ℤ
  pub probability : F
  pub key_func : Option (Context → Record → String)
  pub max_keys : ℤ

-- the problems that `Validate` reports
pub data ConfigError : Type 0 where
  bad_interval bad_probability bad_max_keys : ConfigError

-- `samplingState`
pub record SamplingState : Type 0 where
  pub last : List (SamplingKey × ℕ)
  pub max_keys : ℕ
  pub suppressed : ℕ
  pub evicted : ℕ

-- `SamplingHandler`, but for the state, which derived handlers share
pub record SamplingHandler (H F : Type 0) : Type 0 where
  pub next : H
  pub interval : ℤ
  pub min_level : ℤ
  pub probability : F
  pub key_func : Option (Context → Record → String)

abbrev add_u64 : ℕ → ℕ → ℕ
add_u64 a b = (a + b) % 2 ^ 64

-- `evictionTarget`. A bound is at least 1.
unfoldable pub eviction_target : ℕ → ℕ
eviction_target max_keys = max_keys - max 1 (max_keys / 4)

-- the passes of `evictLocked` over the map
unfoldable pub sampling_survivors : ℕ → ℤ → ℕ → List (SamplingKey × ℕ) → List (SamplingKey × ℕ)
sampling_survivors now interval max_keys m =
    let live = keep (λ e. not (leb_ℤ interval (sub_ℕ now e.1))) m in
    let target = eviction_target max_keys in
    if ltb (length live) max_keys
    then live
    else if nat_eq target 0
    then []
    else drop_oldest (λ (t : ℕ). t) target live

-- `evictLocked`
unfoldable pub sampling_evict : ℕ → ℤ → SamplingState → SamplingState
sampling_evict now interval s =
    if ltb (length s.last) s.max_keys
    then s
    else (let rest = sampling_survivors now interval s.max_keys s.last in
        record s { last = rest; evicted = add_u64 s.evicted (length s.last - length rest) })

-- `elapsed < h.interval`, with the elapsed time clamped at zero
unfoldable pub is_within : ℤ → ℕ → ℕ → Bool
is_within interval now last =
    let elapsed = sub_ℕ now last in
    ltb_ℤ (if ltb_ℤ elapsed (pos 0) then pos 0 else elapsed) interval

-- the key of `allow`
unfoldable pub key_of : {H F : Type 0} → SamplingHandler H F → Context → Record → SamplingKey
key_of h ctx r = elim h.key_func [
  | none ↦ record { level = r.level; text = r.message }
  | some f ↦ record { level = pos 0; text = f ctx r }
]

-- the critical section of `allow`
unfoldable pub allow_key : SamplingKey → ℤ → ℕ → SamplingState → Bool × SamplingState
allow_key key interval now s = elim (lookup sampling_key_eq key s.last) [
  | some last ↦
      if is_within interval now last
      then (false, record s { suppressed = add_u64 s.suppressed 1 })
      else (true, record s { last = insert sampling_key_eq key now s.last })
  | none ↦
      let s' = sampling_evict now interval s in
      (true, record s' { last = insert sampling_key_eq key now s'.last })
]

module _ {F : Type 0} (fl : Floats F) where
  -- `Validate`
  unfoldable pub validate : SamplingConfig F → List ConfigError
  validate c =
      (if ltb_ℤ c.interval (pos 0) then bad_interval ∷ [] else [])
      ++ ((if fl.lt c.probability fl.zero_f || fl.lt fl.one_f c.probability
            then bad_probability ∷ []
            else [])
          ++ (if ltb_ℤ c.max_keys (pos 0) then bad_max_keys ∷ [] else []))

  -- `newSamplingHandler`
  unfoldable pub new_sampling_handler :
      {H : Type 0} → H → SamplingConfig F → SamplingHandler H F × SamplingState × List ConfigError
  new_sampling_handler next c = (
    record {
      next = next;
      interval = if ltb_ℤ c.interval (pos 0) then pos 0 else c.interval;
      min_level = c.min_level;
      probability =
          if fl.le c.probability fl.zero_f || fl.lt fl.one_f c.probability
          then fl.one_f
          else c.probability;
      key_func = c.key_func;
    },
    record {
      last = [];
      max_keys = elim c.max_keys [
        | pos zero ↦ default_sampling_max_keys
        | pos (suc n) ↦ suc n
        | negsuc n ↦ default_sampling_max_keys
      ];
      suppressed = 0;
      evicted = 0;
    },
    validate c,
  )

  -- `allow`: `draw` is what the random source returns, `now` what the clock returns
  unfoldable pub allow :
      {H : Type 0}
      → SamplingHandler H F
      → Context
      → Record
      → F
      → ℕ
      → SamplingState
      → Bool × SamplingState
  allow h ctx r draw now s =
      if fl.lt h.probability fl.one_f && fl.le h.probability draw
      then (false, record s { suppressed = add_u64 s.suppressed 1 })
      else if leb_ℤ h.interval (pos 0)
      then (true, s)
      else allow_key (key_of h ctx r) h.interval now s

  module _ {H S : Type 0} (next : Handler H S) where
    -- `Handle`, over the sampling state and the world of the wrapped handler
    unfoldable pub sampling_handle :
        F
        → ℕ
        → SamplingHandler H F
        → Context
        → Record
        → SamplingState × S
        → Option Error × (SamplingState × S)
    sampling_handle draw now h ctx r (s, w) =
        if ltb_ℤ r.level h.min_level
        then (let (e, w') = next.handle h.next ctx r w in (e, (s, w')))
        else (let (allowed, s') = allow h ctx r draw now s in
            let (e, w') = next.handle h.next ctx r w in
            if allowed then (e, (s', w')) else (none, (s', w)))

    -- The handler as its client sees it, for the readings of one call.
    unfoldable pub sampling : F → ℕ → Handler (SamplingHandler H F) (SamplingState × S)
    sampling draw now = record {
      enabled = λ h ctx level s. next.enabled h.next ctx level s.1;
      handle = sampling_handle draw now;
      with_attrs = λ h as'. record h { next = next.with_attrs h.next as' };
      with_group = λ h name. record h { next = next.with_group h.next name };
    }

-- `TrackedKeys`
unfoldable pub tracked_keys : SamplingState → ℕ
tracked_keys s = length s.last
