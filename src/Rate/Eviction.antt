-- ===== src/Rate/Eviction.antt =====
-- What `evictLocked` of pkg/logger/rate.go may forget, and what a decision leaves alone.
use Prim.Native.Nat.{◌^◌}
use kit_logger.Base.{
  ℕ, ◌+◌, ◌≤◌, ◌<◌, ◌≡◌, ◌≢◌, refl, sym, ap, subst, ◌∙◌, List, ◌∷◌, true, false, not, none, some,
  String, ◌==◌, eq_iff, length, keep, ltb, leb, arith, if◌then◌else◌, Bool-cases, inl, inr,
}
use kit_logger.Base.Int.{pos}
use kit_logger.Evict.{lookup}
use kit_logger.Evict.Maps.{lookup-insert_ne, lookup-keep}
use kit_logger.Rate.Limiter.{Limiter, Bucket}
use kit_logger.Rate.Defs.{
  RateLimitOpt, RateEntry, RateState, is_reclaimable, rate_survivors, rate_evict, touch_entry,
  find_entry, decide_key,
}
use kit_logger.Rate.Valid.{IsValid, rate_evict-IsValid}
use kit_logger.Rate.Trace.{Call, run_key, throttle, Ascending, run_key-throttle}
use kit_logger.Rate.Tracks.{Tracks}
use kit_logger.Rate.Limits.{decide_key_first}

module _ {L : Type 0} {lim : Limiter L} (b : Bucket lim) where
  reclaimable_facts :
      (now i t n : ℕ) (e : RateEntry L)
      → Tracks b i t n e
      → is_reclaimable now e ≡ true
      → (e.last_seen + i ≤ now) × (n ≡ 0)
  unfolding is_reclaimable
  reclaimable_facts now i t n e h r = ground (arith, h.interval, h.count, h.positive)

  -- after the interval, with nothing suppressed, the throttle emits and reports no count
  throttle_late :
      (i t n clock : ℕ) (calls : List Call)
      → t + i ≤ clock
      → n ≡ 0
      → throttle i t n ((pos i, clock) ∷ calls) ≡ (true, 0, false) ∷ throttle i clock 0 calls
  unfolding throttle
  throttle_late i t n clock calls past none_lost =
      let late : leb (t + i) clock ≡ true = ground arith in rw (none_lost, late) refl

  -- the calls with a key that is not tracked
  run_key_first :
      (key : String) (clock i : ℕ) (calls : List Call) (s : RateState L)
      → lookup ◌==◌ key s.limiters ≡ none
      → 0 < i
      → Ascending clock calls
      → length calls + 2 < 2 ^ 63
      → run_key lim key ((pos i, clock) ∷ calls) s ≡ (true, 0, false) ∷ throttle i clock 0 calls
  unfolding run_key
  run_key_first key clock i calls s gone h up range =
      let opt : RateLimitOpt = record { key = key; interval = pos i } in
      let s' = (decide_key lim opt clock s).1 in
      let (d, e, held, seen, tracked) = decide_key_first b opt clock i s gone refl h in
      rw d (
        ap (◌∷◌ (true, 0, false)) (
          run_key-throttle b key i clock 0 e calls s' held tracked
            (subst (λ c. Ascending c calls) (sym seen) up) (omega arith)))

  module _ (now : ℕ) (s : RateState L) (v : IsValid s)
      (freed : length (keep (λ e. not (is_reclaimable now e.1)) s.limiters) < s.max_keys) where
    lookup-rate_evict :
        (key : String) (e : RateEntry L)
        → lookup ◌==◌ key s.limiters ≡ some e
        → lookup ◌==◌ key (rate_evict now s).limiters ≡ (
            if ltb (length s.limiters) s.max_keys
            then some e
            else if not (is_reclaimable now e)
            then some e
            else none)
    unfolding rate_evict rate_survivors
    lookup-rate_evict key e found =
        ground
          (arith, lookup-keep ◌==◌ eq_iff (λ e. not (is_reclaimable now e)) key s.limiters v.unique)

    -- In a well-formed state in which the first pass of the eviction frees a slot: any sequence of calls
    -- with one tracked key, and no other key between them, gets after the eviction the decisions that
    -- it gets without it, if the first call gives the interval of the key's entry, on a clock that does
    -- not go back and as long as the count stays within int64. The state stays well-formed, with the
    -- same limit on the keys.
    pub rate_evict_unobservable :
        (key : String) (clock i t n : ℕ) (calls : List Call) (e : RateEntry L)
        → lookup ◌==◌ key s.limiters ≡ some e
        → Tracks b i t n e
        → Ascending e.last_seen ((pos i, clock) ∷ calls)
        → n + length calls + 3 < 2 ^ 63
        → now ≤ clock
        → (run_key lim key ((pos i, clock) ∷ calls) (rate_evict now s)
            ≡ run_key lim key ((pos i, clock) ∷ calls) s)
          × IsValid (rate_evict now s)
          × ((rate_evict now s).max_keys ≡ s.max_keys)
    rate_evict_unobservable key clock i t n calls e found h up range later =
        let (valid, _, limit) = rate_evict-IsValid now s v in
        let whole =
          run_key-throttle b key i t n e ((pos i, clock) ∷ calls) s found h up (omega arith) in
        (
          elim (Bool-cases (ltb (length s.limiters) s.max_keys)) [
            | inl small ↦ kept (rw small at (lookup-rate_evict key e found)) ∙ sym whole
            | inr full ↦ elim (Bool-cases (is_reclaimable now e)) [
              | inr live ↦ kept (rw (full, live) at (lookup-rate_evict key e found)) ∙ sym whole
              | inl dead ↦
                  let (elapsed, none_lost) = reclaimable_facts now i t n e h dead in
                  let past : t + i ≤ clock = ground (arith, h.seen) in
                  fresh (rw (full, dead) at (lookup-rate_evict key e found))
                  ∙ sym (throttle_late i t n clock calls past none_lost)
                  ∙ sym whole
            ]
          ],
          valid,
          limit,
        )
      where
        kept :
            lookup ◌==◌ key (rate_evict now s).limiters ≡ some e
            → run_key lim key ((pos i, clock) ∷ calls) (rate_evict now s)
              ≡ throttle i t n ((pos i, clock) ∷ calls)
        kept found' =
            run_key-throttle b key i t n e ((pos i, clock) ∷ calls) (rate_evict now s) found' h up
              (omega arith)

        fresh :
            lookup ◌==◌ key (rate_evict now s).limiters ≡ none
            → run_key lim key ((pos i, clock) ∷ calls) (rate_evict now s)
              ≡ (true, 0, false) ∷ throttle i clock 0 calls
        fresh gone =
            run_key_first key clock i calls (rate_evict now s) gone h.positive up.1 (omega arith)

module _ {L : Type 0} (lim : Limiter L) where
  limiters-touch_entry :
      (opt : RateLimitOpt) (clock : ℕ) (e : RateEntry L) (s : RateState L)
      → (touch_entry lim opt clock e s).2.limiters ≡ s.limiters
  unfolding touch_entry
  limiters-touch_entry opt clock e s = ground arith

  -- A record of a tracked key leaves the entry of every other key as it is.
  pub decide_key_other :
      (opt : RateLimitOpt) (clock : ℕ) (e : RateEntry L) (key : String) (s : RateState L)
      → lookup ◌==◌ opt.key s.limiters ≡ some e
      → opt.key ≢ key
      → lookup ◌==◌ key (decide_key lim opt clock s).1.limiters ≡ lookup ◌==◌ key s.limiters
  unfolding decide_key find_entry
  decide_key_other opt clock e key s found other =
      rw (found, find_entry, limiters-touch_entry opt clock e s)
        (lookup-insert_ne ◌==◌ eq_iff opt.key key _ s.limiters other)
