-- ===== src/Tests/Config.antt =====
-- The configuration and the assembly on small configurations.
use kit_logger.Base.{ℕ, ◌≡◌, refl, true, false, ◌&&◌, ◌||◌, none, some, List, [], ◌∷◌, map, nat_eq}
use kit_logger.Base.Int.{pos}
use kit_logger.Slog.{background, level_info, level_warn}
use kit_logger.Filter.{mode_redact}
use kit_logger.Sampling.{Floats}
use kit_logger.Lifecycle.{Shape, is_opaque, collect_flushers, Flusher, flush_loop, shutdown_loop}
use kit_logger.Config.{
  Words, format_json, unmarshal_level, marshal_level, unmarshal_format, marshal_format,
  SamplingSettings, Config, LifecycleHandler, found, buffer, new_with_error, validate_config,
  checks, ignored, settings, resolve_level, resolve_format, has_field, assemble, assemble_by,
}
use kit_logger.Config.Names.{KeepsNames, warn_level, json_format, unmarshal-marshal}
use kit_logger.Config.Order.{IsOrdered, new_with_error-IsOrdered}
use kit_logger.Config.Presence.{has_rank, decorates, wanted, new_with_error-wanted}
use kit_logger.Config.Problems.{IsBare, override-IsBare}
use kit_logger.Config.Lifetime.{below_buffer, buffer_after_sink}

abbrev words : Words
words = record {
  to_lower = λ s. s;
  level_number = λ l. "level(N)";
  format_number = λ f. "format(N)";
}

names : KeepsNames words
names = record {
  debug = refl;
  info = refl;
  warn = refl;
  error = refl;
  text = refl;
  json = refl;
  console = refl;
}

abbrev floats : Floats ℕ
floats = record { lt = λ a b. false; le = λ a b. true; zero_f = 0; one_f = 1 }

abbrev sampling : SamplingSettings ℕ
sampling = record {
  enabled = false;
  interval = pos 0;
  min_level = level_info;
  min_level_string = "";
  probability = 1;
  key_func = none;
  max_keys = pos 0;
}

-- a sink behind a buffer, with a level text
abbrev buffered : Config ℕ
buffered = record {
  buffer_size = pos 16;
  filter_rules = [];
  filter_mode = mode_redact;
  format = 0;
  format_string = "";
  global_fields = ("service", "orders") ∷ [];
  add_source = true;
  sink = some 4;
  handler = none;
  pipeline_override = none;
  hook = none;
  metrics_handler = none;
  level = level_info;
  level_string = "debug";
  rate_limit_max_keys = pos 0;
  sampling = sampling;
  writer = none;
  context_handler = some (some 9);
  log_initialization = false;
}

-- a chain of the caller, and nothing else
abbrev overriding : Config ℕ
overriding = record buffered {
  buffer_size = pos 0;
  global_fields = [];
  add_source = false;
  sink = none;
  pipeline_override = some 4;
  level_string = "";
}

abbrev shape : ℕ → Shape
shape h = record { flusher = nat_eq h 4; unwraps = is_opaque }

unmarshal-marshal_example :
    (unmarshal_level words level_info (marshal_level words level_warn).0 ≡ (level_warn, none))
    × (unmarshal_format words 0 (marshal_format words format_json).0 ≡ (format_json, none))
unmarshal-marshal_example =
    unmarshal-marshal words names level_warn level_info format_json 0 warn_level json_format

new_with_error-IsOrdered_example :
    IsOrdered 9 (new_with_error words {L = ℕ} floats shape buffered []).chain.stages
new_with_error-IsOrdered_example = new_with_error-IsOrdered words buffered ℕ floats shape []

new_with_error-wanted_example :
    has_rank 6 (new_with_error words {L = ℕ} floats shape buffered []).chain.stages
    ≡ (decorates (some (some 9)) && nat_eq 8 6 || true && wanted buffered 6)
new_with_error-wanted_example = new_with_error-wanted 6 words buffered ℕ floats shape []

no_problems : (new_with_error words {L = ℕ} floats shape overriding []).problems ≡ []
unfolding new_with_error validate_config checks ignored settings resolve_level resolve_format
    has_field assemble assemble_by
no_problems = refl

override-IsBare_example : IsBare overriding
override-IsBare_example = override-IsBare overriding words floats ℕ shape [] no_problems refl

-- each handler notes that it was called
abbrev meaning : LifecycleHandler ℕ → Flusher (List ℕ)
meaning (found n) = record { flush = λ ctx w. (none, n ∷ w); shutdown = λ ctx w. (none, n ∷ w) }
meaning (buffer c) = record {
  flush = λ ctx w. (none, 100 ∷ w);
  shutdown = λ ctx w. (none, 100 ∷ w);
}

buffer_after_sink_example :
    (let own = map meaning (map found (collect_flushers shape (some 4))) in
      let all = map meaning (new_with_error words {L = ℕ} floats shape buffered []).lifecycle in
      let last = meaning (buffer (below_buffer words floats shape buffered 4)) in
      (flush_loop none all background [] ≡ (
        let (e, w') = flush_loop none own background [] in flush_loop e (last ∷ []) background w'))
      × (shutdown_loop none all []
          ≡ (let (e, w') = shutdown_loop none own [] in shutdown_loop e (last ∷ []) w')))
buffer_after_sink_example =
    buffer_after_sink words floats shape buffered 4 ℕ [] meaning background [] refl refl refl
