-- ===== src/Tests/Sink.antt =====
-- A terminal handler that keeps the records it gets, and a record.
use kit_logger.Base.{true, none, List, ◌∷◌}
use kit_logger.Slog.{Attrs, Record, Handler, level_info}

-- the level from which a handler takes records
abbrev pub Sink : Type 0
Sink = Unit

abbrev pub sink : Handler Sink (List Record)
sink = record {
  enabled = λ h ctx level w. true;
  handle = λ h ctx r w. (none, r ∷ w);
  with_attrs = λ h attrs. h;
  with_group = λ h name. h;
}

abbrev pub record_of : Attrs → Record
record_of attrs = record { time = 1; level = level_info; message = "login"; pc = 0; attrs = attrs }
