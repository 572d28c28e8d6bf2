-- ===== src/Lifecycle/Closed.antt =====
-- A shared group of pkg/logger/lifecycle.go whose shutdown has begun, under any interleaving of calls.
use kit_logger.Base.{◌≤◌, true, Option, ◌≡◌, length}
use kit_logger.Lifecycle.Steps.{System}

module _ {S : Type 0} where
  -- The gate stays closed, no call passes it or the check of Flush, and a result that is there stays.
  record Closed (s s' : System S) : Type 0 where
    shut : s'.group.stopping ≡ true
    logs : s'.logging ≤ s.logging
    flushes : length s'.flushing ≤ length s.flushing
    final :
        s.group.completed ≡ true
        → (s'.group.completed ≡ true) × (s'.group.err ≡ s.group.err) × (s'.called ≡ s.called)
