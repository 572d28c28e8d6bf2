-- ===== src/Tests/Metrics.antt =====
-- The counter of records on a small run.
use kit_logger.Base.{ℕ, ◌+◌, ◌≡◌, false, List, [], ◌∷◌, String, nat_eq}
use kit_logger.Base.Int.{ℤ}
use kit_logger.Slog.{str, nil, cons, background, Record, attrs_op, group_op}
use kit_logger.Metrics.{Counts, MetricsHandler}
use kit_logger.Metrics.Totals.{Sent, metrics_run, plain_run, of_level, metrics_run-counts}
use kit_logger.Tests.Sink.{Sink, sink, record_of}

abbrev login : Record
login = record_of (cons "user" (str "u") nil)

abbrev level_name : ℤ → String
level_name l = "INFO"

abbrev nothing_counted : Counts
nothing_counted c level = 0

abbrev root : MetricsHandler Sink
root = record { next = tt; counter = 3 }

-- a record of the root, and one of a logger that is derived from it
abbrev twice : List Sent
twice =
    record { ops = []; context = background; sent = login }
    ∷ record {
      ops = group_op "request" ∷ attrs_op (cons "id" (str "7") nil) ∷ [];
      context = background;
      sent = login;
    }
    ∷ []

metrics_run-counts_example :
    ((level : String)
      → (metrics_run level_name sink root twice (nothing_counted, [])).0 3 level
        ≡ 0 + of_level level_name sink root level twice)
    × ((other : ℕ) (level : String)
        → nat_eq other 3 ≡ false
        → (metrics_run level_name sink root twice (nothing_counted, [])).0 other level ≡ 0)
    × ((metrics_run level_name sink root twice (nothing_counted, [])).1
        ≡ plain_run level_name sink root twice [])
metrics_run-counts_example = metrics_run-counts level_name sink root twice nothing_counted []
