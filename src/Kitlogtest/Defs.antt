-- ===== src/Kitlogtest/Defs.antt =====
-- The definitions of pkg/logger/kitlogtest: test_handler.go and mocklogger.go. The mutex of MockLogger
-- makes each method one step; the callback of TestHandler changes a world `S`.
use kit_logger.Base.{
  ℕ, ◌+◌, Bool, true, false, ◌||◌, Option, some, List, [], ◌∷◌, ◌++◌, String, ◌==◌, if◌then◌else◌,
}
use kit_logger.Base.Int.{ℤ}
use kit_logger.Slog.{
  Attrs, nil, cons, append, is_nil, group_value, Context, Record, add_attrs, new_record, Op,
  attrs_op, group_op, Error, err_logger_shutdown,
}

-- the loop of `TestHandler.Handle`, over the links from the last one
unfoldable pub test_loop : List Op → Attrs → Attrs
test_loop [] attrs = attrs
test_loop (attrs_op held ∷ goas) attrs = test_loop goas (append held attrs)
test_loop (group_op name ∷ goas) attrs =
    let skipped = test_loop goas attrs in
    let nested = test_loop goas (cons name (group_value attrs) nil) in
    if is_nil attrs then skipped else nested

-- the links from the last one, before those of `done`
unfoldable pub from_last : List Op → List Op → List Op
from_last [] done = done
from_last (op ∷ goas) done = from_last goas (op ∷ done)

-- `TestHandler.Handle`
unfoldable pub test_handle :
    {S : Type 0} → (Context → Record → S → S) → List Op → Context → Record → S → S
test_handle callback goas ctx r w =
    callback ctx (add_attrs (new_record r) (test_loop (from_last goas []) r.attrs)) w

-- `TestHandler.WithAttrs`
unfoldable pub test_with_attrs : List Op → Attrs → List Op
test_with_attrs goas attrs = if is_nil attrs then goas else goas ++ attrs_op attrs ∷ []

-- `TestHandler.WithGroup`
unfoldable pub test_with_group : List Op → String → List Op
test_with_group goas name = if name == "" then goas else goas ++ group_op name ∷ []

-- `LogEntry`
pub record LogEntry : Type 0 where
  pub level : ℤ
  pub message : String
  pub args : Attrs
  pub context : Option Context

-- `MockLogger`
pub record MockLogger : Type 0 where
  pub entries : List LogEntry
  pub flush_err : Option Error
  pub shutdown_err : Option Error
  pub flush_calls : ℕ
  pub shutdown_calls : ℕ
  pub shutdown : Bool
  pub rejected : List Error

-- `NewMockLogger`, with the errors that the test sets
unfoldable pub new_mock_logger : Option Error → Option Error → MockLogger
new_mock_logger flush_err shutdown_err = record {
  entries = [];
  flush_err = flush_err;
  shutdown_err = shutdown_err;
  flush_calls = 0;
  shutdown_calls = 0;
  shutdown = false;
  rejected = [];
}

-- `log`, which every log method calls
unfoldable pub mock_log : LogEntry → MockLogger → MockLogger
mock_log e m =
    if m.shutdown
    then record m { rejected = m.rejected ++ err_logger_shutdown ∷ [] }
    else record m { entries = m.entries ++ e ∷ [] }

-- `Flush`, and `Sync`
unfoldable pub mock_flush : MockLogger → Option Error × MockLogger
mock_flush m = (
  if m.shutdown then some err_logger_shutdown else m.flush_err,
  record m { flush_calls = m.flush_calls + 1 },
)

-- `Shutdown`
unfoldable pub mock_shutdown : MockLogger → Option Error × MockLogger
mock_shutdown m =
    (m.shutdown_err, record m { shutdown_calls = m.shutdown_calls + 1; shutdown = true })

-- `HasMessage`
unfoldable pub any_message : List LogEntry → String → Bool
any_message [] expected = false
any_message (e ∷ es) expected = e.message == expected || any_message es expected
