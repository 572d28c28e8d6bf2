-- ===== src/Sampling/Limits.antt =====
-- One key of the sampler over time: an emission opens an interval, and nothing else does.
use kit_logger.Base.{
  ℕ, ◌+◌, ◌≤◌, ◌<◌, ◌≡◌, ◌≢◌, refl, sym, ◌∙◌, ap, Bool, true, false, not, none, some, List, [], ◌∷◌,
  length, keep, ltb, arith, if◌then◌else◌, Bool-cases, ◌⊎◌, inl, inr,
}
use kit_logger.Base.Int.{ℤ, pos, sub_ℕ, leb_ℤ}
use kit_logger.Evict.{lookup}
use kit_logger.Evict.Maps.{lookup-insert_self, lookup-insert_ne, lookup-keep}
use kit_logger.Sampling.Defs.{
  SamplingKey, sampling_key_eq, SamplingState, is_within, sampling_survivors, sampling_evict,
  allow_key,
}
use kit_logger.Sampling.Valid.{IsValid, sampling_key_eq_iff}

is_within_lem : (i now last : ℕ) → last ≤ now → is_within (pos i) now last ≡ ltb now (last + i)
unfolding is_within
is_within_lem i now last h = ground arith

-- The decisions on the records with one key, at the given instants.
unfoldable pub sample_run : SamplingKey → ℤ → List ℕ → SamplingState → List Bool
sample_run key interval [] s = []
sample_run key interval (now ∷ clocks) s =
    let (allowed, s') = allow_key key interval now s in allowed ∷ sample_run key interval clocks s'

-- The first record at or after each interval's end, counted from the last emission.
unfoldable pub first_of_each : ℕ → ℕ → List ℕ → List Bool
first_of_each i t [] = []
first_of_each i t (now ∷ clocks) =
    let emitted = first_of_each i now clocks in
    let suppressed = first_of_each i t clocks in
    if ltb now (t + i) then false ∷ suppressed else true ∷ emitted

abbrev pub Ascending : ℕ → List ℕ → Type 0
Ascending from [] = Unit
Ascending from (now ∷ clocks) = (from ≤ now) × Ascending now clocks

module _ (key : SamplingKey) (i : ℕ) where
  allow_key_early :
      (now t : ℕ) (s : SamplingState)
      → lookup sampling_key_eq key s.last ≡ some t
      → t ≤ now
      → now < t + i
      → ((allow_key key (pos i) now s).0 ≡ false) × ((allow_key key (pos i) now s).1.last ≡ s.last)
  unfolding allow_key
  allow_key_early now t s found up early =
      let within : is_within (pos i) now t ≡ true = ground (arith, is_within_lem i now t up) in
      (rw (found, allow_key, within), rw (found, allow_key, within))

  allow_key_late :
      (now t : ℕ) (s : SamplingState)
      → lookup sampling_key_eq key s.last ≡ some t
      → t ≤ now
      → t + i ≤ now
      → ((allow_key key (pos i) now s).0 ≡ true)
        × (lookup sampling_key_eq key (allow_key key (pos i) now s).1.last ≡ some now)
  unfolding allow_key
  allow_key_late now t s found up late =
      let past : is_within (pos i) now t ≡ false = ground (arith, is_within_lem i now t up) in
      (
        rw (found, allow_key, past),
        rw (found, allow_key, past) (lookup-insert_self sampling_key_eq sampling_key_eq_iff _ _ _),
      )

  allow_key_first :
      (now : ℕ) (s : SamplingState)
      → lookup sampling_key_eq key s.last ≡ none
      → ((allow_key key (pos i) now s).0 ≡ true)
        × (lookup sampling_key_eq key (allow_key key (pos i) now s).1.last ≡ some now)
  unfolding allow_key
  allow_key_first now s new = (
    rw (new, allow_key),
    rw (new, allow_key) (lookup-insert_self sampling_key_eq sampling_key_eq_iff _ _ _),
  )

  sample_run-tracked :
      (t from : ℕ) (clocks : List ℕ) (s : SamplingState)
      → lookup sampling_key_eq key s.last ≡ some t
      → t ≤ from
      → Ascending from clocks
      → sample_run key (pos i) clocks s ≡ first_of_each i t clocks
  unfolding sample_run first_of_each
  sample_run-tracked t from [] s found low up = refl
  sample_run-tracked t from (now ∷ clocks) s found low up =
      let s' = (allow_key key (pos i) now s).1 in
      let reached : t ≤ now = omega arith in
      elim (Bool-cases (ltb now (t + i))) [
        | inl early ↦
            let (denied, same) = allow_key_early now t s found reached (ground arith) in
            rw (early, denied)
              (ap (◌∷◌ false) (
                sample_run-tracked t now clocks s' (ap (lookup sampling_key_eq key) same ∙ found)
                  reached up.1))
        | inr late ↦
            let (allowed, held) = allow_key_late now t s found reached (ground arith) in
            rw (late, allowed)
              (ap (◌∷◌ true) (sample_run-tracked now now clocks s' held (omega arith) up.1))
      ]

  -- From a key that is not tracked, on a clock that does not go back, exactly the first record and
  -- then the first one after each elapsed interval are emitted.
  pub sample_run-first_of_each :
      (now : ℕ) (clocks : List ℕ) (s : SamplingState)
      → lookup sampling_key_eq key s.last ≡ none
      → Ascending now clocks
      → sample_run key (pos i) (now ∷ clocks) s ≡ true ∷ first_of_each i now clocks
  unfolding sample_run
  sample_run-first_of_each now clocks s new up =
      let (allowed, held) = allow_key_first now s new in
      rw allowed (
        ap (◌∷◌ true)
          (sample_run-tracked now now clocks (allow_key key (pos i) now s).1 held (omega arith) up))

-- A record of a tracked key leaves every other key's timestamp as it is.
pub allow_key_other :
    (key other : SamplingKey) (interval : ℤ) (now t : ℕ) (s : SamplingState)
    → lookup sampling_key_eq key s.last ≡ some t
    → key ≢ other
    → lookup sampling_key_eq other (allow_key key interval now s).1.last
      ≡ lookup sampling_key_eq other s.last
unfolding allow_key
allow_key_other key other interval now t s found apart =
    elim (Bool-cases (is_within interval now t)) [
      | inl early ↦ rw (found, allow_key, early)
      | inr late ↦
          rw (found, allow_key, late)
            (lookup-insert_ne sampling_key_eq sampling_key_eq_iff key other now s.last apart)
    ]

allow_key_decision :
    (key : SamplingKey) (interval : ℤ) (now t : ℕ) (s : SamplingState)
    → lookup sampling_key_eq key s.last ≡ some t
    → (allow_key key interval now s).0 ≡ not (is_within interval now t)
unfolding allow_key
allow_key_decision key interval now t s found = elim (Bool-cases (is_within interval now t)) [
  | inl early ↦ rw (found, allow_key, early)
  | inr late ↦ rw (found, allow_key, late)
]

module _ (now i : ℕ) (s : SamplingState) (v : IsValid s) (positive : 0 < i)
    (freed : length (keep (λ e. not (leb_ℤ (pos i) (sub_ℕ now e.1))) s.last) < s.max_keys) where
  lookup-sampling_evict :
      (key : SamplingKey) (t : ℕ)
      → lookup sampling_key_eq key s.last ≡ some t
      → (lookup sampling_key_eq key (sampling_evict now (pos i) s).last ≡ some t)
        ⊎ ((lookup sampling_key_eq key (sampling_evict now (pos i) s).last ≡ none) × (t + i ≤ now))
  unfolding sampling_evict sampling_survivors
  lookup-sampling_evict key t found = ground (
    arith,
    lookup-keep sampling_key_eq sampling_key_eq_iff (λ u. not (leb_ℤ (pos i) (sub_ℕ now u))) key
        s.last v.unique,
  )

  -- Where the first pass frees a slot, no later decision on a tracked key changes.
  pub sampling_evict_unobservable :
      (key : SamplingKey) (clock t : ℕ)
      → lookup sampling_key_eq key s.last ≡ some t
      → now ≤ clock
      → (allow_key key (pos i) clock (sampling_evict now (pos i) s)).0
        ≡ (allow_key key (pos i) clock s).0
  sampling_evict_unobservable key clock t found later =
      let s' = sampling_evict now (pos i) s in
      elim (lookup-sampling_evict key t found) [
        | inl kept ↦
            allow_key_decision key (pos i) clock t s' kept
            ∙ sym (allow_key_decision key (pos i) clock t s found)
        | inr (gone, elapsed) ↦
            (allow_key_first key i clock s' gone).0
            ∙ sym (allow_key_late key i clock t s found (omega arith) (omega arith)).0
      ]
