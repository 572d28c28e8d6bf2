-- ===== src/Otel/Correlation.antt =====
-- What the handler of pkg/logger/otel/handler.go adds to a record, and when.
use kit_logger.Base.{◌≡◌, refl, Bool, true, false, not, ◌&&◌, ◌||◌}
use kit_logger.Slog.{Record, add_attrs}
use kit_logger.Otel.Defs.{SpanContext, OtelHandler, correlation_attrs}

-- the span is one that the handler puts on records
abbrev pub is_wanted : {H : Type 0} → OtelHandler H → SpanContext → Bool
is_wanted h sc = sc.is_valid && (not h.only_sampled || sc.is_sampled)

-- the record with the identifiers
abbrev enriched : {H : Type 0} → OtelHandler H → SpanContext → Record → Record
enriched h sc r = add_attrs r (correlation_attrs h sc)

refused :
    (valid only sampled : Bool)
    → (not valid || only && not sampled) ≡ not (valid && (not only || sampled))
refused true true true = refl
refused true true false = refl
refused true false sampled = refl
refused false only sampled = refl
