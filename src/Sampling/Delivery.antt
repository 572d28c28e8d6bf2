-- ===== src/Sampling/Delivery.antt =====
-- What the sampler delivers: every record is handed on once or counted once, and a configuration
-- that does not ask for sampling never loses one.
use Prim.Native.Nat.{◌^◌, ◌%◌}
use kit_logger.Base.{ℕ, ◌+◌, ◌≡◌, true, false, ◌||◌, none, arith, if◌then◌else◌, ◌⊎◌}
use kit_logger.Base.Int.{ℤ, pos, ltb_ℤ, ◌<ℤ◌, ◌≤ℤ◌}
use kit_logger.Slog.{Context, Record, Handler}
use kit_logger.Sampling.Defs.{
  Floats, SamplingKey, SamplingConfig, SamplingState, SamplingHandler, sampling_evict,
  new_sampling_handler, key_of, allow_key, allow, sampling_handle,
}

suppressed-sampling_evict :
    (now : ℕ) (interval : ℤ) (s : SamplingState)
    → (sampling_evict now interval s).suppressed ≡ s.suppressed
unfolding sampling_evict
suppressed-sampling_evict now interval s = ground arith

-- An allowed record leaves the counter, any other adds one to it.
suppressed-allow_key :
    (key : SamplingKey) (interval : ℤ) (now : ℕ) (s : SamplingState)
    → (allow_key key interval now s).1.suppressed
      ≡ (if (allow_key key interval now s).0 then s.suppressed else (s.suppressed + 1) % 2 ^ 64)
unfolding allow_key
suppressed-allow_key key interval now s = ground (arith, suppressed-sampling_evict now interval s)

module _ {H F : Type 0} (fl : Floats F) where
  suppressed-allow :
      (h : SamplingHandler H F) (ctx : Context) (r : Record) (draw : F) (now : ℕ)
      (s : SamplingState)
      → (allow fl h ctx r draw now s).1.suppressed
        ≡ (if (allow fl h ctx r draw now s).0 then s.suppressed else (s.suppressed + 1) % 2 ^ 64)
  unfolding allow
  suppressed-allow h ctx r draw now s =
      ground (arith, suppressed-allow_key (key_of h ctx r) h.interval now s)

module _ {H F S : Type 0} (fl : Floats F) (next : Handler H S) where
  -- Every record is handed to the wrapped handler once, with the suppressed count as it was, or
  -- changes nothing behind the sampler and is counted as suppressed, modulo 2 ^ 64.
  pub sampling_handle_accounting :
      (draw : F) (now : ℕ) (h : SamplingHandler H F) (ctx : Context) (r : Record)
      (s : SamplingState) (w : S)
      → (let (e, (s', w')) = sampling_handle fl next draw now h ctx r (s, w) in
          ((e ≡ (next.handle h.next ctx r w).0)
            × (w' ≡ (next.handle h.next ctx r w).1)
            × (s'.suppressed ≡ s.suppressed))
          ⊎ ((e ≡ none) × (w' ≡ w) × (s'.suppressed ≡ (s.suppressed + 1) % 2 ^ 64)))
  unfolding sampling_handle
  sampling_handle_accounting draw now h ctx r s w =
      ground (arith, suppressed-allow fl h ctx r draw now s)

  -- A record below the minimal level is handed on, and the sampler does not notice it.
  pub sampling_handle_below :
      (draw : F) (now : ℕ) (h : SamplingHandler H F) (ctx : Context) (r : Record)
      (s : SamplingState) (w : S)
      → r.level <ℤ h.min_level
      → sampling_handle fl next draw now h ctx r (s, w)
        ≡ (let (e, w') = next.handle h.next ctx r w in (e, (s, w')))
  unfolding sampling_handle
  sampling_handle_below draw now h ctx r s w below =
      let test : ltb_ℤ r.level h.min_level ≡ true = ground arith in rw test

  -- A misconfigured sampler fails toward emitting: with an interval that is not positive and a
  -- probability of at most 0 or above 1, where 1 is not below itself, every record is handed to the
  -- wrapped handler and the state stays as it is.
  pub new_sampling_handler_emits :
      (c : SamplingConfig F) (inner : H) (draw : F) (now : ℕ) (ctx : Context) (r : Record)
      (s : SamplingState) (w : S)
      → c.interval ≤ℤ pos 0
      → (fl.le c.probability fl.zero_f || fl.lt fl.one_f c.probability) ≡ true
      → fl.lt fl.one_f fl.one_f ≡ false
      → sampling_handle fl next draw now (new_sampling_handler fl inner c).0 ctx r (s, w)
        ≡ (let (e, w') = next.handle inner ctx r w in (e, (s, w')))
  unfolding sampling_handle new_sampling_handler allow
  new_sampling_handler_emits c inner draw now ctx r s w off unset irreflexive = ground arith
