-- ===== src/Tests/Console.antt =====
-- The console handler and the trace correlation on one record.
use kit_logger.Base.{◌+◌, ◌≡◌, refl, true, false, [], ◌∷◌, codes, nat_eq}
use kit_logger.Base.Int.{pos}
use kit_logger.Slog.{str, int, group, nil, cons, Context, Record, attrs_op, group_op, level_info}
use kit_logger.Console.{Texts, ConsoleHandler, console_handle, source_location, source_parts}
use kit_logger.Console.Colors.{Painted, console_handle-Painted}
use kit_logger.Console.Newlines.{newlines, SingleLine, OpsPlainKeys, HasPlainKeys}
use kit_logger.Console.Lines.{console_handle-newlines}
use kit_logger.Otel.{SpanContext, OtelHandler}

abbrev texts : Texts
texts = record {
  time_text = λ t. [];
  level_name = λ l. [];
  value_string = λ v. 10 ∷ [];
  base_name = λ s. [];
  is_space = λ c. nat_eq c 10;
  is_control = λ c. false;
  quote = λ s. [];
}

abbrev handler : ConsoleHandler
handler = record {
  level = level_info;
  color = true;
  ops = attrs_op (cons "service" (str "orders") nil) ∷ group_op "http" ∷ [];
}

abbrev line_record : Record
line_record = record {
  time = 1;
  level = level_info;
  message = "order created";
  pc = 0;
  attrs = cons "error" (str "a") (cons "source" (group (cons "line" (int (pos 3)) nil)) nil);
}

single : SingleLine texts
unfolding newlines
single = record { time = λ t. refl; level = λ l. refl; space = refl; quoted = λ s. refl }

plain_ops : OpsPlainKeys texts handler.ops
unfolding newlines
plain_ops = ((refl, tt), (refl, tt))

console_handle-Painted_example :
    Painted
      (console_handle texts (record handler { color = false }) line_record)
      (console_handle texts (record handler { color = true }) line_record)
console_handle-Painted_example = console_handle-Painted texts handler line_record

plain_keys : HasPlainKeys texts line_record.attrs
unfolding newlines source_location source_parts
plain_keys = (refl, ((refl, refl, (refl, tt)), tt))

console_handle-newlines_example :
    newlines (console_handle texts handler line_record) ≡ newlines (codes "order created") + 1
console_handle-newlines_example =
    console_handle-newlines texts single handler line_record plain_ops plain_keys

abbrev spans : Context → SpanContext
spans ctx = record {
  is_valid = true;
  is_sampled = true;
  trace_id = "t1";
  span_id = "s1";
  trace_flags = "01";
}

abbrev tracing : OtelHandler (Unit {0})
tracing = record {
  next = tt;
  trace_id_key = "trace_id";
  span_id_key = "span_id";
  trace_flags = false;
  group = "";
  only_sampled = true;
}
