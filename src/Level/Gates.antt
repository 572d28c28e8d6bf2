-- ===== src/Level/Gates.antt =====
-- A gate lets a record through as it is, or leaves the world as it is.
use kit_logger.Base.{◌≡◌, false, none, arith, if◌then◌else◌}
use kit_logger.Base.Int.{ℤ, leb_ℤ}
use kit_logger.Slog.{Attrs, Context, Record, Handler}
use kit_logger.Level.Defs.{level_enabled, level_handle, level_handler, set_level}

module _ {H S : Type 0} (next : Handler H S) where
  -- After SetLevel a record is handed on exactly if its level is at least the new one, and Enabled
  -- answers the same for a handler that enables all; a derived handler follows the same variable.
  pub set_level_gates :
      (level old : ℤ) (h : H) (attrs : Attrs) (ctx : Context) (r : Record) (w : S)
      → (let h' = (level_handler next).with_attrs h attrs in
          let (e, w') = next.handle (next.with_attrs h attrs) ctx r w in
          (level_handle next h' ctx r (set_level level (old, w))
            ≡ (if leb_ℤ level r.level then (e, (level, w')) else (none, (level, w))))
          × (level_enabled next h' ctx r.level (set_level level (old, w))
              ≡ (if leb_ℤ level r.level then next.enabled h' ctx r.level w else false)))
  unfolding level_handler level_handle level_enabled set_level
  set_level_gates level old h attrs ctx r w = (ground arith, ground arith)
