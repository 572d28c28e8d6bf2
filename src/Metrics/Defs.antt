-- ===== src/Metrics/Defs.antt =====
-- The definitions of pkg/logger/prometheus/handler.go, as a decorator of a handler `next`. A counter is
-- a number, and what it counts is part of the world; `Level.String` and the registry are parameters.
use kit_logger.Base.{ℕ, ◌+◌, ◌&&◌, Option, none, some, String, ◌==◌, nat_eq, if◌then◌else◌}
use kit_logger.Base.Int.{ℤ}
use kit_logger.Slog.{Context, Record, Handler, Error}

-- the counts of each counter by the text of the level
abbrev pub Counts : Type 0
Counts = ℕ → String → ℕ

-- a collector that a registry holds: a counter by labels, or any other
pub data Collector : Type 0 where
  counter_vec : ℕ → Collector
  other_collector : ℕ → Collector

-- what `reg.Register` answers: nil, an AlreadyRegisteredError with the collector, or another error
pub data Registration : Type 0 where
  registered : Registration
  already_registered : Collector → Registration
  refused : ℕ → Registration

-- the error of `New`
pub data NewError : Type 0 where
  register_failed : ℕ → NewError
  wrong_collector : ℕ → NewError

-- `handlerImpl`
pub record MetricsHandler (H : Type 0) : Type 0 where
  pub next : H
  pub counter : ℕ

-- what `New` returns
pub data Made (H : Type 0) : Type 0 where
  made : MetricsHandler H → Made H
  failed : NewError → Made H

-- the answer of the registry, for the counter that `New` has made
unfoldable pub by_registration : {H : Type 0} → H → ℕ → Registration → Made H
by_registration next counter registered = made (record { next = next; counter = counter })
by_registration next counter (already_registered (counter_vec old)) =
    made (record { next = next; counter = old })
by_registration next counter (already_registered (other_collector c)) = failed (wrong_collector c)
by_registration next counter (refused e) = failed (register_failed e)

-- `New`, with the registry's answer to a new counter where there is a registry
unfoldable pub new_metrics : {H : Type 0} → H → ℕ → Option (ℕ → Registration) → Made H
new_metrics next counter none = made (record { next = next; counter = counter })
new_metrics next counter (some reg) = by_registration next counter (reg counter)

-- `counter.WithLabelValues(level).Inc()`
unfoldable pub increment : ℕ → String → Counts → Counts
increment c level counts d l = if nat_eq d c && l == level then counts d l + 1 else counts d l

module _ {H S : Type 0} (level_string : ℤ → String) (next : Handler H S) where
  -- `Handle`
  unfoldable pub metrics_handle :
      MetricsHandler H → Context → Record → Counts × S → Option Error × (Counts × S)
  metrics_handle h ctx r (counts, w) =
      let (e, w') = next.handle h.next ctx r w in
      (e, (increment h.counter (level_string r.level) counts, w'))

  -- the decorated handler, as its client sees it
  unfoldable pub metrics_handler : Handler (MetricsHandler H) (Counts × S)
  metrics_handler = record {
    enabled = λ h ctx level (counts, w). next.enabled h.next ctx level w;
    handle = metrics_handle;
    with_attrs = λ h attrs. record h { next = next.with_attrs h.next attrs };
    with_group = λ h name. record h { next = next.with_group h.next name };
  }
