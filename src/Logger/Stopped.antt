-- ===== src/Logger/Stopped.antt =====
-- A logger whose shutdown has begun, under any sequence of calls of its log methods.
use Prim.Native.Nat.{◌^◌, ◌%◌}
use kit_logger.Base.{
  ℕ, suc, ◌+◌, ◌≡◌, ◌<◌, refl, subst, ◌∙◌, Bool, true, false, Option, none, some, List, [], ◌∷◌,
  String, if◌then◌else◌, Bool-cases, inl, inr, arith,
}
use kit_logger.Base.Int.{ℤ}
use kit_logger.Slog.{background, Context}
use kit_logger.Rate.{Arg}
use kit_logger.Lifecycle.{LifecycleGroup, is_stopping, reject_record, rejected_count, or_background}
use kit_logger.Logger.Defs.{Services, SlogLogger, Shared, log_rate_aware, log, log_plain}

-- One call of a log method: whether it is one of `Debug`, `Info`, `Warn` and `Error`, which take no
-- context, or one of `Log` and the methods with a context; the derived logger that it is made on, its
-- context, level and arguments, and the clock's readings.
pub record LogCall (H A : Type 0) : Type 0 where
  pub plain : Bool
  pub logger : SlogLogger H A
  pub ctx : Option Context
  pub level : ℤ
  pub msg : String
  pub args : List (Arg A)
  pub now : ℕ
  pub time : ℕ

count_step :
    (on : Bool) (r r' e v : ℕ)
    → r' ≡ (r + (if on then 1 else 0)) % 2 ^ 64
    → v ≡ (r' + e) % 2 ^ 64
    → v ≡ (r + (if on then suc e else e)) % 2 ^ 64
count_step true r r' e v h k = omega arith
count_step false r r' e v h k = omega arith

-- the context that a call asks the handler's Enabled with
abbrev pub context_of : {H A : Type 0} → LogCall H A → Context
context_of c = if c.plain then background else or_background c.ctx

module _ {H S L A : Type 0} (sv : Services H S L A) where
  abbrev pub log_call : LogCall H A → Shared S L A → Shared S L A
  log_call c st =
      if c.plain
      then log_plain sv c.level c.logger c.msg c.args c.now c.time st
      else log sv c.ctx c.level c.logger c.msg c.args c.now c.time st

  abbrev pub log_calls : List (LogCall H A) → Shared S L A → Shared S L A
  log_calls [] st = st
  log_calls (c ∷ cs) st = log_calls cs (log_call c st)

  -- how many of the calls are of an enabled level, in the world `w`
  abbrev pub enabled_calls : List (LogCall H A) → S → ℕ
  enabled_calls [] w = 0
  enabled_calls (c ∷ cs) w =
      let rest = enabled_calls cs w in
      if sv.handler.enabled c.logger.handler (context_of c) c.level w then suc rest else rest

  -- `st'` differs from `st` in the count of the rejected records at most, which `n` more make.
  pub record Rejects (n : ℕ) (st st' : Shared S L A) : Type 0 where
    pub rate : st'.rate ≡ st.rate
    pub counters : st'.counters ≡ st.counters
    pub world : st'.world ≡ st.world
    pub stopping : is_stopping st'.lifecycle ≡ true
    pub count : rejected_count st'.lifecycle ≡ (rejected_count st.lifecycle + n) % 2 ^ 64

  reject_record_counts :
      (g : Option (LifecycleGroup S))
      → is_stopping g ≡ true
      → (is_stopping (reject_record g) ≡ true)
        × (rejected_count (reject_record g) ≡ (rejected_count g + 1) % 2 ^ 64)
  unfolding is_stopping reject_record rejected_count
  reject_record_counts none s = cc
  reject_record_counts (some g) s = (s, refl)

  unchanged :
      (st : Shared S L A)
      → is_stopping st.lifecycle ≡ true
      → rejected_count st.lifecycle < 2 ^ 64
      → Rejects 0 st st
  unchanged st s small = record {
    rate = refl;
    counters = refl;
    world = refl;
    stopping = s;
    count = omega arith;
  }

  one_rejected :
      (st : Shared S L A)
      → is_stopping st.lifecycle ≡ true
      → Rejects 1 st (record st { lifecycle = reject_record st.lifecycle })
  one_rejected st s =
      let (s', counts) = reject_record_counts st.lifecycle s in
      record { rate = refl; counters = refl; world = refl; stopping = s'; count = counts }

  log_call-Rejects :
      (c : LogCall H A) (st : Shared S L A)
      → is_stopping st.lifecycle ≡ true
      → rejected_count st.lifecycle < 2 ^ 64
      → Rejects
          (if sv.handler.enabled c.logger.handler (context_of c) c.level st.world then 1 else 0)
          st
          (log_call c st)
  unfolding log log_plain log_rate_aware
  log_call-Rejects c st s small = elim (Bool-cases c.plain) [
    | inl plain ↦
        elim (Bool-cases (sv.handler.enabled c.logger.handler background c.level st.world)) [
          | inr off ↦ rw (plain, off, log_plain) (unchanged st s small)
          | inl on ↦ rw (plain, on, log_plain, s, log_rate_aware) (one_rejected st s)
        ]
    | inr with_context ↦
        elim (Bool-cases
          (sv.handler.enabled c.logger.handler (or_background c.ctx) c.level st.world)) [
            | inr off ↦ rw (with_context, off, log) (unchanged st s small)
            | inl on ↦ rw (with_context, on, log, s, log_rate_aware) (one_rejected st s)
          ]
  ]

  -- Once the shutdown has begun, any sequence of calls of the log methods, with a context or without,
  -- on the logger and on those derived from it takes no rate-limit token, calls no counter hook and reaches no handler, and the count of the
  -- rejected records, a uint64, grows by one for each call of an enabled level.
  pub log_calls-Rejects :
      (cs : List (LogCall H A)) (st : Shared S L A)
      → is_stopping st.lifecycle ≡ true
      → rejected_count st.lifecycle < 2 ^ 64
      → Rejects (enabled_calls cs st.world) st (log_calls cs st)
  log_calls-Rejects [] st s small = record {
    rate = refl;
    counters = refl;
    world = refl;
    stopping = s;
    count = omega arith;
  }
  log_calls-Rejects (c ∷ cs) st s small =
      let first = log_call-Rejects c st s small in
      let st' = log_call c st in
      let small' : rejected_count st'.lifecycle < 2 ^ 64 = omega (arith, first.count) in
      let rest = log_calls-Rejects cs st' first.stopping small' in
      record {
        rate = rest.rate ∙ first.rate;
        counters = rest.counters ∙ first.counters;
        world = rest.world ∙ first.world;
        stopping = rest.stopping;
        count =
            count_step (sv.handler.enabled c.logger.handler (context_of c) c.level st.world)
              (rejected_count st.lifecycle) (rejected_count st'.lifecycle)
              (enabled_calls cs st.world) (rejected_count (log_calls cs st').lifecycle) first.count
              (subst
                (λ w.
                  rejected_count (log_calls cs st').lifecycle
                  ≡ (rejected_count st'.lifecycle + enabled_calls cs w) % 2 ^ 64)
                first.world rest.count);
      }
