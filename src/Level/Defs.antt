-- ===== src/Level/Defs.antt =====
-- The definitions of pkg/logger/level.go and pkg/logger/handler/hook_handler.go. The shared
-- `slog.LevelVar` stands in the world, beside that of the wrapped handler.
use kit_logger.Base.{Bool, ◌&&◌, Option, none, if◌then◌else◌}
use kit_logger.Base.Int.{ℤ, ltb_ℤ, leb_ℤ}
use kit_logger.Slog.{Context, Record, Handler, Error}

module _ {H S : Type 0} (next : Handler H S) where
  -- `levelHandler.Enabled`
  unfoldable pub level_enabled : H → Context → ℤ → ℤ × S → Bool
  level_enabled h ctx level (min_level, w) = leb_ℤ min_level level && next.enabled h ctx level w

  -- `levelHandler.Handle`
  unfoldable pub level_handle : H → Context → Record → ℤ × S → Option Error × (ℤ × S)
  level_handle h ctx r (min_level, w) =
      let (e, w') = next.handle h ctx r w in
      if ltb_ℤ r.level min_level then (none, (min_level, w)) else (e, (min_level, w'))

  -- the gated handler, as its client sees it
  unfoldable pub level_handler : Handler H (ℤ × S)
  level_handler = record {
    enabled = level_enabled;
    handle = level_handle;
    with_attrs = next.with_attrs;
    with_group = next.with_group;
  }

-- `SlogLogger.SetLevel`, on the level variable in the world
unfoldable pub set_level : {S : Type 0} → ℤ → ℤ × S → ℤ × S
set_level level (_, w) = (level, w)

-- `HookHandler`
pub record HookHandler (H : Type 0) : Type 0 where
  pub next : H
  pub hook : Context → Record → Context × Bool

module _ {H S : Type 0} (next : Handler H S) where
  -- `HookHandler.Handle`
  unfoldable pub hook_handle : HookHandler H → Context → Record → S → Option Error × S
  hook_handle h ctx r w =
      let (ctx', ok) = h.hook ctx r in if ok then next.handle h.next ctx' r w else (none, w)

  -- the hooked handler, as its client sees it
  unfoldable pub hook_handler : Handler (HookHandler H) S
  hook_handler = record {
    enabled = λ h ctx level w. next.enabled h.next ctx level w;
    handle = hook_handle;
    with_attrs = λ h attrs. record h { next = next.with_attrs h.next attrs };
    with_group = λ h name. record h { next = next.with_group h.next name };
  }
