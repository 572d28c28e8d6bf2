-- ===== src/Multi/Defs.antt =====
-- The definitions of pkg/logger/handler/multi_handler.go. The children are values of one type of
-- handlers, which act on one world. A record is a value, so `Clone` is the identity.
use kit_logger.Base.{
  ℕ, suc, Bool, true, false, Option, none, some, List, [], ◌∷◌, map, String, if◌then◌else◌,
}
use kit_logger.Base.Int.{ℤ}
use kit_logger.Slog.{
  Attrs, Context, Record, Handler, Error, child, Errors, none_left, and_then, join,
}

-- `errs = append(errs, …)` for the error of child `i`, if there is one
abbrev pub add_error : ℕ → Option Error → Errors → Errors
add_error i none es = es
add_error i (some e) es = and_then (child i e) es

module _ {H S : Type 0} (base : Handler H S) where
  -- `Enabled`
  unfoldable pub multi_enabled : List H → Context → ℤ → S → Bool
  multi_enabled [] ctx level w = false
  multi_enabled (h ∷ hs) ctx level w =
      let rest = multi_enabled hs ctx level w in if base.enabled h ctx level w then true else rest

  -- the loop of `Handle`, from child `i` on: the errors in order, and the world after it
  unfoldable pub multi_loop : ℕ → List H → Context → Record → S → Errors × S
  multi_loop i [] ctx r w = (none_left, w)
  multi_loop i (h ∷ hs) ctx r w =
      let skipped = multi_loop (suc i) hs ctx r w in
      let (e, w') = base.handle h ctx r w in
      let (es, w'') = multi_loop (suc i) hs ctx r w' in
      if base.enabled h ctx r.level w then (add_error i e es, w'') else skipped

  -- `Handle`
  unfoldable pub multi_handle : List H → Context → Record → S → Option Error × S
  multi_handle hs ctx r w = let (es, w') = multi_loop 0 hs ctx r w in (join es, w')

  -- `WithAttrs`
  unfoldable pub multi_with_attrs : List H → Attrs → List H
  multi_with_attrs hs attrs = map (λ h. base.with_attrs h attrs) hs

  -- `WithGroup`
  unfoldable pub multi_with_group : List H → String → List H
  multi_with_group hs name = map (λ h. base.with_group h name) hs

  -- the fan-out, as its client sees it
  unfoldable pub multi_handler : Handler (List H) S
  multi_handler = record {
    enabled = multi_enabled;
    handle = multi_handle;
    with_attrs = multi_with_attrs;
    with_group = multi_with_group;
  }
