-- ===== src/Rate/Valid.antt =====
-- The invariant of the rate-limit state, and that every decision keeps it.
use kit_logger.Base.{
  ℕ, zero, suc, ◌≤◌, ◌<◌, ◌≡◌, refl, not, none, some, List, [], length, keep, String, ◌==◌, eq_iff,
  ltb, nat_eq, arith, Bool-cases, Option-cases, inl, inr,
}
use kit_logger.Base.Int.{ℤ, pos, negsuc, ◌≤ℤ◌, ◌<ℤ◌, ltb_ℤ, int_eq}
use kit_logger.Evict.{lookup, insert, drop_oldest}
use kit_logger.Evict.Bounds.{length-drop_oldest}
use kit_logger.Evict.Maps.{
  All, Unique, All-keep, Unique-keep, All-drop_oldest, Unique-drop_oldest, length-insert,
  All-insert, Unique-insert, All-lookup,
}
use kit_logger.Rate.Limiter.{Limiter}
use kit_logger.Rate.Defs.{
  RateLimitOpt, RateEntry, RateState, new_rate_state, is_reclaimable, rate_target, rate_survivors,
  rate_evict, touch_entry, create_entry, consult, find_entry, decide_key,
}

-- A limiter is missing exactly for an interval that is not positive, which suppresses nothing.
abbrev pub IsValidEntry : {L : Type 0} → RateEntry L → Type 0
IsValidEntry e = elim e.limiter [
  | none ↦ (e.interval ≤ℤ pos 0) × (e.suppressed ≡ 0)
  | some l ↦ pos 0 <ℤ e.interval
]

pub record IsValid {L : Type 0} (s : RateState L) : Type 0 where
  pub room : 0 < s.max_keys
  pub bounded : length s.limiters ≤ s.max_keys
  pub unique : Unique ◌==◌ s.limiters
  pub entries : All (λ e. IsValidEntry e.1) s.limiters

pub rate_target-lt : (max_keys : ℕ) → 0 < max_keys → rate_target max_keys < max_keys
unfolding rate_target
rate_target-lt max_keys h = ground arith

module _ {L : Type 0} where
  pub new_rate_state-IsValid : (max_keys : ℤ) → IsValid (new_rate_state {L = L} max_keys)
  unfolding new_rate_state
  new_rate_state-IsValid (pos zero) = omega arith
  new_rate_state-IsValid (pos (suc n)) = omega arith
  new_rate_state-IsValid (negsuc n) = omega arith

  length-rate_survivors :
      (now max_keys : ℕ) (m : List (String × RateEntry L))
      → 0 < max_keys
      → length (rate_survivors now max_keys m) < max_keys
  unfolding rate_survivors
  length-rate_survivors now max_keys m h = ground (
    arith,
    rate_target-lt max_keys h,
    length-drop_oldest (λ (e : RateEntry L). e.last_seen) (rate_target max_keys)
        (keep (λ e. not (is_reclaimable now e.1)) m),
  )

  -- What holds of the empty map, of a filtered one and of a forced pass holds of the survivors.
  pub rate_survivors_induction :
      (P : List (String × RateEntry L) → Type 0) (now max_keys : ℕ)
      (m : List (String × RateEntry L))
      → P []
      → P (keep (λ e. not (is_reclaimable now e.1)) m)
      → ((target : ℕ) (live : List (String × RateEntry L))
          → P live
          → P (drop_oldest (λ (e : RateEntry L). e.last_seen) target live))
      → P (rate_survivors now max_keys m)
  unfolding rate_survivors
  rate_survivors_induction P now max_keys m empty kept forced =
      let live = keep (λ e. not (is_reclaimable now e.1)) m in
      let target = rate_target max_keys in
      elim (Bool-cases (ltb (length live) max_keys)) [
        | inl small ↦ rw small kept
        | inr full ↦ rw full (elim (Bool-cases (nat_eq target 0)) [
          | inl all ↦ rw all empty
          | inr some_left ↦ rw some_left (forced target live kept)
        ])
      ]

  -- What eviction leaves: room for one more key.
  pub rate_evict-IsValid :
      (now : ℕ) (s : RateState L)
      → IsValid s
      → IsValid (rate_evict now s)
        × (length (rate_evict now s).limiters < s.max_keys)
        × ((rate_evict now s).max_keys ≡ s.max_keys)
  unfolding rate_evict
  rate_evict-IsValid now s v = elim (Bool-cases (ltb (length s.limiters) s.max_keys)) [
    | inl small ↦ rw small (v, ground arith, refl)
    | inr full ↦
        let fits = length-rate_survivors now s.max_keys s.limiters v.room in
        rw full (
          record {
            room = v.room;
            bounded = omega arith;
            unique =
                rate_survivors_induction (Unique ◌==◌) now s.max_keys s.limiters tt
                  (Unique-keep ◌==◌ (λ e. not (is_reclaimable now e)) s.limiters v.unique)
                  (λ target live u.
                    Unique-drop_oldest (λ (e : RateEntry L). e.last_seen) target ◌==◌ live u);
            entries =
                rate_survivors_induction (All (λ e. IsValidEntry e.1)) now s.max_keys s.limiters tt
                  (All-keep (λ e. IsValidEntry e.1) (λ e. not (is_reclaimable now e.1)) s.limiters
                    v.entries)
                  (λ target live a.
                    All-drop_oldest (λ (e : RateEntry L). e.last_seen) target
                      (λ e. IsValidEntry e.1) live a);
          },
          fits,
          refl,
        )
  ]

-- The state and the entry between the search of `shouldLog` and its decision.
record IsReady {L : Type 0} (key : String) (e : RateEntry L) (s : RateState L) : Type 0 where
  room : 0 < s.max_keys
  fits : (e' : RateEntry L) → length (insert ◌==◌ key e' s.limiters) ≤ s.max_keys
  unique : Unique ◌==◌ s.limiters
  entries : All (λ x. IsValidEntry x.1) s.limiters
  entry : IsValidEntry e

module _ {L : Type 0} (lim : Limiter L) where
  touch_entry-IsReady :
      (opt : RateLimitOpt) (now : ℕ) (e : RateEntry L) (s : RateState L)
      → IsValid s
      → lookup ◌==◌ opt.key s.limiters ≡ some e
      → IsReady opt.key (touch_entry lim opt now e s).1 (touch_entry lim opt now e s).2
  unfolding touch_entry
  touch_entry-IsReady opt now e s v found =
      let valid = All-lookup ◌==◌ eq_iff IsValidEntry opt.key s.limiters e v.entries found in
      let fits : (e' : RateEntry L) → length (insert ◌==◌ opt.key e' s.limiters) ≤ s.max_keys =
        λ e'. ground (arith, length-insert ◌==◌ eq_iff opt.key e' s.limiters) in
      elim (Bool-cases (int_eq e.interval opt.interval)) [
        | inl same ↦ rw same (record {
          room = v.room;
          fits = fits;
          unique = v.unique;
          entries = v.entries;
          entry = valid;
        })
        | inr other ↦ rw other (record {
          room = v.room;
          fits = fits;
          unique = v.unique;
          entries = v.entries;
          entry = valid;
        })
      ]

  create_entry-IsReady :
      (opt : RateLimitOpt) (now : ℕ) (s : RateState L)
      → IsValid s
      → length s.limiters < s.max_keys
      → IsReady opt.key (create_entry lim opt now s).0 (create_entry lim opt now s).1
  unfolding create_entry
  create_entry-IsReady opt now s v small =
      let fits : (e' : RateEntry L) → length (insert ◌==◌ opt.key e' s.limiters) ≤ s.max_keys =
        λ e'. ground (arith, length-insert ◌==◌ eq_iff opt.key e' s.limiters) in
      elim (Bool-cases (ltb_ℤ (pos 0) opt.interval)) [
        | inl positive ↦ rw positive (record {
          room = v.room;
          fits = fits;
          unique = v.unique;
          entries = v.entries;
          entry = ground arith;
        })
        | inr invalid ↦ rw invalid (record {
          room = v.room;
          fits = fits;
          unique = v.unique;
          entries = v.entries;
          entry = ground arith;
        })
      ]

  find_entry-IsReady :
      (opt : RateLimitOpt) (now : ℕ) (s : RateState L)
      → IsValid s
      → IsReady opt.key (find_entry lim opt now s).1 (find_entry lim opt now s).2
  unfolding find_entry
  find_entry-IsReady opt now s v = elim (Option-cases (lookup ◌==◌ opt.key s.limiters)) [
    | inl new ↦
        let (valid, small, same) = rate_evict-IsValid now s v in
        rw (new, find_entry) (create_entry-IsReady opt now (rate_evict now s) valid (omega arith))
    | inr (e, found) ↦ rw (found, find_entry) (touch_entry-IsReady opt now e s v found)
  ]

  consult-IsValidEntry :
      (now : ℕ) (e : RateEntry L) → IsValidEntry e → IsValidEntry (consult lim now e).3
  unfolding consult
  consult-IsValidEntry now e v = ground arith

  -- Every decision keeps the invariant of the state: the map stays within `MaxKeys`, no key stands
  -- twice, and exactly the entries with an interval that is not positive have no limiter and
  -- suppress nothing.
  pub decide_key-IsValid :
      (opt : RateLimitOpt) (clock : ℕ) (s : RateState L)
      → IsValid s
      → IsValid (decide_key lim opt clock s).1
  unfolding decide_key
  decide_key-IsValid opt clock s v =
      let (now, e, s') = find_entry lim opt clock s in
      let ready = find_entry-IsReady opt clock s v in
      let e' = (consult lim now e).3 in
      record {
        room = ready.room;
        bounded = ready.fits e';
        unique = Unique-insert ◌==◌ eq_iff opt.key e' s'.limiters ready.unique;
        entries =
            All-insert ◌==◌ eq_iff (λ x. IsValidEntry x.1) opt.key e' s'.limiters
              (λ j. consult-IsValidEntry now e ready.entry) ready.entries;
      }
