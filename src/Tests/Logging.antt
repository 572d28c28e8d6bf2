-- ===== src/Tests/Logging.antt =====
-- A logger on the sink, with a rate limit and a counter: one call, and calls after Shutdown.
use kit_logger.Base.{refl, Bool, true, false, none, some, List, [], ◌∷◌, arith}
use kit_logger.Base.Int.{pos}
use kit_logger.Slog.{Value, str, int, Attrs, nil, cons, background, Record, level_info}
use kit_logger.Rate.{Arg, with_rate_limit, with_counter, field, new_rate_state}
use kit_logger.Lifecycle.{LifecycleGroup, is_stopping, rejected_count}
use kit_logger.Logger.{Services, SlogLogger, Shared, log}
use kit_logger.Logger.Outcome.{Outcome, log-Outcome}
use kit_logger.Logger.Stopped.{LogCall, log_calls, Rejects, log_calls-Rejects}
use kit_logger.Tests.Sink.{Sink, sink}
use kit_logger.Tests.Rate.{Tokens, bucket, disk}

-- alternating keys and values
abbrev pairs : List (Arg Value) → Attrs
pairs (field (str k) ∷ field v ∷ rest) = cons k v (pairs rest)
pairs _ = nil

abbrev services : Services Sink (List Record) Tokens Value
services = record {
  handler = sink;
  limiter = bucket;
  attrs_of = pairs;
  text = str;
  number = int;
  caller_pc = λ n. n;
}

abbrev logger : SlogLogger Sink Value
logger = record { handler = tt; has_hook = true; context_fields = none; caller_skip = 0 }

abbrev group_in : Bool → LifecycleGroup (List Record)
group_in stopping = record {
  handlers = [];
  started = stopping;
  completed = false;
  err = none;
  stopping = stopping;
  rejected = 0;
}

abbrev shared : Bool → Shared (List Record) Tokens Value
shared stopping = record {
  rate = some (new_rate_state (pos 2));
  lifecycle = some (group_in stopping);
  counters = [];
  extractor = none;
  world = [];
}

abbrev args : List (Arg Value)
args = field (str "user") ∷ with_rate_limit disk ∷ field (str "ann") ∷ with_counter "logins" ∷ []

log-Outcome_example :
    Outcome services logger background level_info "login" args 3 3
      (shared false)
      (log services (some background) level_info logger "login" args 3 3 (shared false))
log-Outcome_example =
    log-Outcome services logger background level_info "login" args 3 3 (shared false)

abbrev late : LogCall Sink Value
late = record {
  plain = false;
  logger = logger;
  ctx = none;
  level = level_info;
  msg = "login";
  args = args;
  now = 4;
  time = 4;
}

abbrev late_plain : LogCall Sink Value
late_plain = record late { plain = true }

log_calls-Rejects_example :
    Rejects services 2 (shared true) (log_calls services (late ∷ late_plain ∷ []) (shared true))
unfolding is_stopping rejected_count
log_calls-Rejects_example =
    log_calls-Rejects services (late ∷ late_plain ∷ []) (shared true) refl (omega arith)
