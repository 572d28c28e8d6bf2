-- ===== src/Tests/Sampling.antt =====
-- A sampler with an interval of 5 instants, on a record that repeats.
use kit_logger.Base.{ℕ, ◌≡◌, refl, true, none, [], ◌∷◌, arith, ltb, leb}
use kit_logger.Base.Int.{pos}
use kit_logger.Slog.{nil, background, level_info}
use kit_logger.Evict.{lookup}
use kit_logger.Sampling.{
  Floats, SamplingKey, SamplingConfig, SamplingState, SamplingHandler, new_sampling_handler,
  sampling_handle,
}
use kit_logger.Sampling.Limits.{sample_run, first_of_each, sample_run-first_of_each}
use kit_logger.Sampling.Delivery.{new_sampling_handler_emits}
use kit_logger.Tests.Sink.{Sink, sink, record_of}

-- percentages
abbrev percent : Floats ℕ
percent = record { lt = ltb; le = leb; zero_f = 0; one_f = 100 }

abbrev config : SamplingConfig ℕ
config = record {
  interval = pos 5;
  min_level = level_info;
  probability = 100;
  key_func = none;
  max_keys = pos 2;
}

abbrev broken : SamplingConfig ℕ
broken = record {
  interval = pos 0;
  min_level = level_info;
  probability = 0;
  key_func = none;
  max_keys = pos 2;
}

abbrev handler : SamplingHandler Sink ℕ
handler = record {
  next = tt;
  interval = pos 5;
  min_level = level_info;
  probability = 100;
  key_func = none;
}

abbrev login : SamplingKey
login = record { level = level_info; text = "login" }

abbrev fresh : SamplingState
fresh = record { last = []; max_keys = 2; suppressed = 0; evicted = 0 }

sample_run-first_of_each_example :
    sample_run login (pos 5) (3 ∷ 4 ∷ 9 ∷ []) fresh ≡ true ∷ first_of_each 5 3 (4 ∷ 9 ∷ [])
unfolding lookup
sample_run-first_of_each_example =
    sample_run-first_of_each login 5 3 (4 ∷ 9 ∷ []) fresh refl (omega arith, (omega arith, tt))

new_sampling_handler_emits_example :
    sampling_handle percent sink 50 7
      (new_sampling_handler percent tt broken).0
      background
      (record_of nil)
      (fresh, [])
    ≡ (none, (fresh, record_of nil ∷ []))
new_sampling_handler_emits_example =
    new_sampling_handler_emits percent sink broken tt 50 7 background (record_of nil) fresh []
      (ground arith) refl refl
