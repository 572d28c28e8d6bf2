-- ===== src/Rate/Limits.antt =====
-- What `shouldLog` of pkg/logger/rate.go decides on one record of a limited key.
use Prim.Native.Nat.{◌^◌}
use kit_logger.Base.{
  ℕ, ◌+◌, ◌≤◌, ◌<◌, ◌≡◌, ◌∙◌, refl, true, false, none, some, ◌==◌, eq_iff, ltb, arith,
}
use kit_logger.Base.Int.{pos, ltb_ℤ}
use kit_logger.Evict.{lookup}
use kit_logger.Evict.Maps.{lookup-insert_self}
use kit_logger.Rate.Limiter.{Limiter, Bucket}
use kit_logger.Rate.Defs.{
  RateLimitOpt, RateEntry, RateState, touch_entry, create_entry, rate_evict, consult, find_entry,
  decide_key,
}
use kit_logger.Rate.Tracks.{
  Tracks, clamped, touch_entry-local, touch_entry-Tracks, consult_early, consult_refilled,
}

module _ {L : Type 0} {lim : Limiter L} (b : Bucket lim) where
  last_seen-consult : (now : ℕ) (e : RateEntry L) → (consult lim now e).3.last_seen ≡ e.last_seen
  unfolding consult
  last_seen-consult now e = ground arith

  -- A decision on a tracked key is `consult` of the touched entry.
  decide_key-consult :
      (opt : RateLimitOpt) (clock i t n : ℕ) (e : RateEntry L) (s : RateState L)
      → lookup ◌==◌ opt.key s.limiters ≡ some e
      → Tracks b i t n e
      → (let r = consult lim (clamped clock e) (touch_entry lim opt clock e s).1 in
          ((decide_key lim opt clock s).0 ≡ (r.0, r.1, r.2))
          × (lookup ◌==◌ opt.key (decide_key lim opt clock s).1.limiters ≡ some r.3)
          × (r.3.last_seen ≡ clamped clock e))
  unfolding decide_key find_entry
  decide_key-consult opt clock i t n e s found h =
      let (now, kept, seen, later, h') = touch_entry-Tracks b opt clock i t n e s h in
      (
        rw (found, find_entry, now),
        rw (found, find_entry, now) (lookup-insert_self ◌==◌ eq_iff _ _ _),
        last_seen-consult (clamped clock e) (touch_entry lim opt clock e s).1 ∙ seen,
      )

  module _ (opt : RateLimitOpt) (clock i t n : ℕ) (e : RateEntry L) (s : RateState L)
      (found : lookup ◌==◌ opt.key s.limiters ≡ some e) (h : Tracks b i t n e) where
    -- A tracked key within its interval: the record is suppressed, and the entry counts it.
    pub decide_key_early :
        n + 2 < 2 ^ 63
        → clamped clock e < t + i
        → ((decide_key lim opt clock s).0 ≡ (false, 0, false))
          × (e' : RateEntry L) × (lookup ◌==◌ opt.key (decide_key lim opt clock s).1.limiters
              ≡ some e')
          × (e'.last_seen ≡ clamped clock e)
          × Tracks b i t (n + 1) e'
    decide_key_early range early =
        let (_, _, seen, _, h') = touch_entry-Tracks b opt clock i t n e s h in
        let e1 = (touch_entry lim opt clock e s).1 in
        let (allow, count, report, h'') =
          consult_early b (clamped clock e) i t n e1 h' seen range early in
        let (decision, held, stamp) = decide_key-consult opt clock i t n e s found h in
        (
          rw (decision, allow, count, report),
          (consult lim (clamped clock e) e1).3,
          held,
          stamp,
          h'',
        )

    -- A tracked key past its interval: the record is emitted, and reports what was suppressed.
    pub decide_key_late :
        t + i ≤ clamped clock e
        → ((decide_key lim opt clock s).0 ≡ (true, n, ltb 0 n))
          × (e' : RateEntry L) × (lookup ◌==◌ opt.key (decide_key lim opt clock s).1.limiters
              ≡ some e')
          × (e'.last_seen ≡ clamped clock e)
          × Tracks b i (clamped clock e) 0 e'
    decide_key_late late =
        let (_, _, seen, _, h') = touch_entry-Tracks b opt clock i t n e s h in
        let e1 = (touch_entry lim opt clock e s).1 in
        let (allow, count, report, h'') =
          consult_refilled b (clamped clock e) i t n e1 h' seen late in
        let (decision, held, stamp) = decide_key-consult opt clock i t n e s found h in
        (
          rw (decision, allow, count, report),
          (consult lim (clamped clock e) e1).3,
          held,
          stamp,
          h'',
        )

module _ {L : Type 0} {lim : Limiter L} (b : Bucket lim) where
  create_entry-limited :
      (opt : RateLimitOpt) (now i : ℕ) (s : RateState L)
      → opt.interval ≡ pos i
      → 0 < i
      → (create_entry lim opt now s).0 ≡ record {
        limiter = some (lim.new (pos i));
        interval = pos i;
        suppressed = 0;
        last_seen = now;
        conflict_warned = false;
      }
  unfolding create_entry
  create_entry-limited opt now i s e h =
      let positive : ltb_ℤ (pos 0) (pos i) ≡ true = ground arith in rw (e, positive)

  -- The first record of a key that is not tracked, with a positive interval, is emitted with no
  -- count reported, and its entry is stored with the interval started.
  pub decide_key_first :
      (opt : RateLimitOpt) (now i : ℕ) (s : RateState L)
      → lookup ◌==◌ opt.key s.limiters ≡ none
      → opt.interval ≡ pos i
      → 0 < i
      → ((decide_key lim opt now s).0 ≡ (true, 0, false))
        × (e' : RateEntry L) × (lookup ◌==◌ opt.key (decide_key lim opt now s).1.limiters ≡ some e')
        × (e'.last_seen ≡ now)
        × Tracks b i now 0 e'
  unfolding decide_key find_entry consult
  decide_key_first opt now i s new e h =
      let (allowed, spent) = b.starts_full i now h in
      let l = (lim.allow_n (lim.new (pos i)) now).1 in
      let fresh = create_entry-limited opt now i (rate_evict now s) e h in
      (
        rw (new, find_entry, fresh, allowed),
        record {
          limiter = some l;
          interval = pos i;
          suppressed = 0;
          last_seen = now;
          conflict_warned = false;
        },
        rw (new, find_entry, fresh, allowed) (lookup-insert_self ◌==◌ eq_iff _ _ _),
        refl,
        record {
          positive = h;
          interval = refl;
          limiter = (l, refl, spent);
          seen = omega arith;
          count = refl;
          in_range = omega arith;
        },
      )

  -- A decision on a tracked key depends on its entry alone.
  pub decide_key-local :
      (opt : RateLimitOpt) (clock i t n : ℕ) (e : RateEntry L) (s s' : RateState L)
      → lookup ◌==◌ opt.key s.limiters ≡ some e
      → lookup ◌==◌ opt.key s'.limiters ≡ some e
      → Tracks b i t n e
      → (decide_key lim opt clock s).0 ≡ (decide_key lim opt clock s').0
  decide_key-local opt clock i t n e s s' found found' h =
      let (d, _, _) = decide_key-consult b opt clock i t n e s found h in
      let (d', _, _) = decide_key-consult b opt clock i t n e s' found' h in
      rw (d, d', touch_entry-local lim opt clock e s s')
