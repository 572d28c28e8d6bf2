-- ===== src/Sampling/Valid.antt =====
-- The invariant of the sampler's state, and that every decision keeps it.
use kit_logger.Base.{
  ℕ, zero, suc, ◌≤◌, ◌<◌, ◌≡◌, not, ◌&&◌, List, [], length, keep, eq_iff, ltb, nat_eq, arith,
  Bool-cases, Option-cases, inl, inr,
}
use kit_logger.Base.Int.{ℤ, pos, negsuc, sub_ℕ, leb_ℤ, int_eq_iff}
use kit_logger.Slog.{Context, Record}
use kit_logger.Evict.{lookup, insert, drop_oldest}
use kit_logger.Evict.Bounds.{length-drop_oldest}
use kit_logger.Evict.Maps.{
  Decides, Unique, Unique-keep, Unique-drop_oldest, length-insert, Unique-insert,
}
use kit_logger.Rate.{rate_target}
use kit_logger.Sampling.Defs.{
  Floats, SamplingKey, sampling_key_eq, SamplingConfig, SamplingState, SamplingHandler,
  eviction_target, sampling_survivors, sampling_evict, new_sampling_handler, key_of, is_within,
  allow_key, allow, default_sampling_max_keys,
}

pub sampling_key_eq_iff : Decides sampling_key_eq
sampling_key_eq_iff a b = ground (arith, int_eq_iff a.level b.level, eq_iff a.text b.text)

pub record IsValid (s : SamplingState) : Type 0 where
  pub room : 0 < s.max_keys
  pub bounded : length s.last ≤ s.max_keys
  pub unique : Unique sampling_key_eq s.last

pub eviction_target-lt : (max_keys : ℕ) → 0 < max_keys → eviction_target max_keys < max_keys
unfolding eviction_target
eviction_target-lt max_keys h = omega arith

-- The sampler and the rate limiter reclaim down to the same number of keys.
pub eviction_target-eq-rate_target :
    (max_keys : ℕ) → eviction_target max_keys ≡ rate_target max_keys
unfolding eviction_target rate_target
eviction_target-eq-rate_target max_keys = ground arith

-- What holds of the empty map, of a filtered one and of a forced pass holds of the survivors.
sampling_survivors_induction :
    (P : List (SamplingKey × ℕ) → Type 0) (now : ℕ) (interval : ℤ) (max_keys : ℕ)
    (m : List (SamplingKey × ℕ))
    → P []
    → P (keep (λ e. not (leb_ℤ interval (sub_ℕ now e.1))) m)
    → ((live : List (SamplingKey × ℕ))
        → max_keys ≤ length live
        → 0 < eviction_target max_keys
        → P live
        → P (drop_oldest (λ (t : ℕ). t) (eviction_target max_keys) live))
    → P (sampling_survivors now interval max_keys m)
unfolding sampling_survivors
sampling_survivors_induction P now interval max_keys m empty kept forced =
    let live = keep (λ e. not (leb_ℤ interval (sub_ℕ now e.1))) m in
    elim (Bool-cases (ltb (length live) max_keys)) [
      | inl small ↦ rw small kept
      | inr full ↦ rw full (elim (Bool-cases (nat_eq (eviction_target max_keys) 0)) [
        | inl all ↦ rw all empty
        | inr some_left ↦ rw some_left (forced live (ground arith) (ground arith) kept)
      ])
    ]

length-sampling_survivors :
    (now : ℕ) (interval : ℤ) (max_keys : ℕ) (m : List (SamplingKey × ℕ))
    → 0 < max_keys
    → length (sampling_survivors now interval max_keys m) < max_keys
unfolding sampling_survivors
length-sampling_survivors now interval max_keys m h = ground (
  arith,
  eviction_target-lt max_keys h,
  length-drop_oldest (λ (t : ℕ). t) (eviction_target max_keys)
      (keep (λ e. not (leb_ℤ interval (sub_ℕ now e.1))) m),
)

-- What eviction leaves: room for one more key.
sampling_evict-IsValid :
    (now : ℕ) (interval : ℤ) (s : SamplingState)
    → IsValid s
    → IsValid (sampling_evict now interval s)
      × (length (sampling_evict now interval s).last < (sampling_evict now interval s).max_keys)
unfolding sampling_evict
sampling_evict-IsValid now interval s v = elim (Bool-cases (ltb (length s.last) s.max_keys)) [
  | inl small ↦ rw small (v, ground arith)
  | inr full ↦
      let fits = length-sampling_survivors now interval s.max_keys s.last v.room in
      rw full (
        record {
          room = v.room;
          bounded = omega arith;
          unique =
              sampling_survivors_induction (Unique sampling_key_eq) now interval s.max_keys s.last
                tt
                (Unique-keep sampling_key_eq (λ t. not (leb_ℤ interval (sub_ℕ now t))) s.last
                  v.unique)
                (λ live _ _ u.
                  Unique-drop_oldest (λ (t : ℕ). t) (eviction_target s.max_keys) sampling_key_eq
                    live u);
        },
        fits,
      )
]

insert-IsValid :
    (key : SamplingKey) (now : ℕ) (s : SamplingState)
    → IsValid s
    → length (insert sampling_key_eq key now s.last) ≤ s.max_keys
    → IsValid (record s { last = insert sampling_key_eq key now s.last })
insert-IsValid key now s v fits = record {
  room = v.room;
  bounded = fits;
  unique = Unique-insert sampling_key_eq sampling_key_eq_iff key now s.last v.unique;
}

allow_key-IsValid :
    (key : SamplingKey) (interval : ℤ) (now : ℕ) (s : SamplingState)
    → IsValid s
    → IsValid (allow_key key interval now s).1
unfolding allow_key
allow_key-IsValid key interval now s v = elim (Option-cases (lookup sampling_key_eq key s.last)) [
  | inl new ↦
      let (v', small) = sampling_evict-IsValid now interval s v in
      let s' = sampling_evict now interval s in
      rw (new, allow_key)
        (insert-IsValid key now s' v'
          (ground (arith, length-insert sampling_key_eq sampling_key_eq_iff key now s'.last)))
  | inr (last, found) ↦
      let hit =
        insert-IsValid key now s v
          (ground (arith, length-insert sampling_key_eq sampling_key_eq_iff key now s.last)) in
      elim (Bool-cases (is_within interval now last)) [
        | inl early ↦
            rw (found, allow_key, early)
              (record { room = v.room; bounded = v.bounded; unique = v.unique })
        | inr late ↦ rw (found, allow_key, late) hit
      ]
]

module _ {H F : Type 0} (fl : Floats F) where
  pub new_sampling_handler-IsValid :
      (next : H) (c : SamplingConfig F) → IsValid (new_sampling_handler fl next c).1
  unfolding new_sampling_handler
  new_sampling_handler-IsValid next c = new_state c.max_keys
    where
      new_state :
          (max_keys : ℤ)
          → IsValid (record {
            last = [];
            max_keys = elim max_keys [
              | pos zero ↦ default_sampling_max_keys
              | pos (suc n) ↦ suc n
              | negsuc n ↦ default_sampling_max_keys
            ];
            suppressed = 0;
            evicted = 0;
          })
      new_state (pos zero) = omega arith
      new_state (pos (suc n)) = omega arith
      new_state (negsuc n) = omega arith

  -- Every decision keeps the map of keys within `MaxKeys`, with no key twice.
  pub allow-IsValid :
      (h : SamplingHandler H F) (ctx : Context) (r : Record) (draw : F) (now : ℕ)
      (s : SamplingState)
      → IsValid s
      → IsValid (allow fl h ctx r draw now s).1
  unfolding allow
  allow-IsValid h ctx r draw now s v =
      elim (Bool-cases (fl.lt h.probability fl.one_f && fl.le h.probability draw)) [
        | inl lost ↦ rw lost (record { room = v.room; bounded = v.bounded; unique = v.unique })
        | inr kept ↦ rw kept (elim (Bool-cases (leb_ℤ h.interval (pos 0))) [
          | inl off ↦ rw off v
          | inr on ↦ rw on (allow_key-IsValid (key_of h ctx r) h.interval now s v)
        ])
      ]
