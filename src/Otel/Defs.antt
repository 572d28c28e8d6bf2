-- ===== src/Otel/Defs.antt =====
-- The definitions of pkg/logger/otel/handler.go, as a decorator of a handler `next`.
use kit_logger.Base.{Bool, not, ◌&&◌, ◌||◌, Option, none, some, String, ◌==◌, if◌then◌else◌}
use kit_logger.Base.Int.{ℤ}
use kit_logger.Slog.{
  str, Attrs, nil, cons, is_nil, append, group_value, Context, Record, add_attrs, Handler, Error,
}

abbrev pub default_trace_id_key : String
default_trace_id_key = "trace_id"

abbrev pub default_span_id_key : String
default_span_id_key = "span_id"

abbrev pub default_trace_flags_key : String
default_trace_flags_key = "trace_flags"

-- `Options`
pub record Options : Type 0 where
  pub trace_id_key : String
  pub span_id_key : String
  pub trace_flags : Bool
  pub group : String
  pub only_sampled : Bool

-- What go.opentelemetry.io/otel/trace tells of a context: `SpanContextFromContext`, with the texts of
-- its identifiers.
pub record SpanContext : Type 0 where
  pub is_valid : Bool
  pub is_sampled : Bool
  pub trace_id : String
  pub span_id : String
  pub trace_flags : String

-- `handler`
pub record OtelHandler (H : Type 0) : Type 0 where
  pub next : H
  pub trace_id_key : String
  pub span_id_key : String
  pub trace_flags : Bool
  pub group : String
  pub only_sampled : Bool

-- `orDefault`
unfoldable pub or_default : String → String → String
or_default v fallback = if v == "" then fallback else v

-- `NewHandler`, which panics on a nil handler
unfoldable pub new_handler : {H : Type 0} → Option H → Options → Option (OtelHandler H)
new_handler none opts = none
new_handler (some next) opts = some (record {
  next = next;
  trace_id_key = or_default opts.trace_id_key default_trace_id_key;
  span_id_key = or_default opts.span_id_key default_span_id_key;
  trace_flags = opts.trace_flags;
  group = opts.group;
  only_sampled = opts.only_sampled;
})

-- the attributes of a span, before the group
unfoldable pub span_attrs : {H : Type 0} → OtelHandler H → SpanContext → Attrs
span_attrs h sc =
    append (cons h.trace_id_key (str sc.trace_id) (cons h.span_id_key (str sc.span_id) nil))
      (if h.trace_flags then cons default_trace_flags_key (str sc.trace_flags) nil else nil)

-- `attrs` of `Handle`
unfoldable pub correlation_attrs : {H : Type 0} → OtelHandler H → SpanContext → Attrs
correlation_attrs h sc =
    if not (h.group == "")
    then cons h.group (group_value (span_attrs h sc)) nil
    else span_attrs h sc

module _ {H S : Type 0} (next : Handler H S) (span_of : Context → SpanContext) where
  -- `Handle`
  unfoldable pub otel_handle : OtelHandler H → Context → Record → S → Option Error × S
  otel_handle h ctx r w =
      let sc = span_of ctx in
      if not sc.is_valid || h.only_sampled && not sc.is_sampled
      then next.handle h.next ctx r w
      else next.handle h.next ctx (add_attrs r (correlation_attrs h sc)) w

  -- `WithAttrs`
  unfoldable pub otel_with_attrs : OtelHandler H → Attrs → OtelHandler H
  otel_with_attrs h attrs =
      if is_nil attrs then h else record h { next = next.with_attrs h.next attrs }

  -- `WithGroup`
  unfoldable pub otel_with_group : OtelHandler H → String → OtelHandler H
  otel_with_group h name = if name == "" then h else record h { next = next.with_group h.next name }

  -- `Enabled`
  unfoldable pub otel_enabled : OtelHandler H → Context → ℤ → S → Bool
  otel_enabled h ctx level w = next.enabled h.next ctx level w

  -- the decorated handler, as its client sees it
  unfoldable pub otel_handler : Handler (OtelHandler H) S
  otel_handler = record {
    enabled = otel_enabled;
    handle = otel_handle;
    with_attrs = otel_with_attrs;
    with_group = otel_with_group;
  }
