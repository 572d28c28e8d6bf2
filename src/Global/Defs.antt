-- ===== src/Global/Defs.antt =====
-- `SetGlobal` and `L` of pkg/logger/config.go, and `EnsureLoggerOnce` of pkg/logger/loggerext.go. Each
-- load, store, compare-and-swap and each end of `globalOnce.Do` is one atomic action; a logger is a
-- number.
use kit_logger.Base.{ℕ, ◌+◌, Bool, true, Option, none, some, if◌then◌else◌}

-- `globalOnce`
pub data Once : Type 0 where
  not_started in_progress complete : Once

-- `globalLogger` and `globalOnce`; `made` are the default loggers that L has constructed
pub record World : Type 0 where
  pub stored : Option ℕ
  pub once : Once
  pub made : ℕ

abbrev pub fresh_world : World
fresh_world = record { stored = none; once = not_started; made = 0 }

-- Where a call of L is: before its first load, before `globalOnce.Do`, inside it before `New` returns,
-- before the compare-and-swap and before the end, before the second load, or returned; `none` is the
-- dereference of a nil pointer.
pub data Call : Type 0 where
  entering at_once building : Call
  storing : ℕ → Call
  finishing reloading : Call
  returned : Option ℕ → Call

-- `SetGlobal` of a logger that is not nil
unfoldable pub set_global : ℕ → World → World
set_global l w = record w { stored = some l }

abbrev pub or_stored : ℕ → Option ℕ → Option ℕ
or_stored l none = some l
or_stored l (some old) = some old

-- `globalLogger.CompareAndSwap(nil, &l)`
unfoldable pub swap_nil : ℕ → World → World
swap_nil l w = record w { stored = or_stored l w.stored }

-- the first load
unfoldable pub first_load : Option ℕ → Call
first_load (some l) = returned (some l)
first_load none = at_once

-- `globalOnce.Do`: the first caller goes in, and another one waits until it is complete
unfoldable pub enter_once : Once → World → Option (Call × World)
enter_once not_started w = some (building, record w { once = in_progress })
enter_once in_progress w = none
enter_once complete w = some (reloading, w)

-- the next action of a call of `L`, `New` giving the logger `l`
unfoldable pub call_step : ℕ → Call → World → Option (Call × World)
call_step l entering w = some (first_load w.stored, w)
call_step l at_once w = enter_once w.once w
call_step l building w = some (storing l, record w { made = w.made + 1 })
call_step l (storing k) w = some (finishing, swap_nil k w)
call_step l finishing w = some (reloading, record w { once = complete })
call_step l reloading w = some (returned w.stored, w)
call_step l (returned o) w = none

-- `EnsureLoggerOnce`, its own `Once` being started or not, `New` giving the logger `l`
unfoldable pub ensure_logger_once : ℕ → Bool × World → Bool × World
ensure_logger_once l (started, w) = if started then (true, w) else (true, set_global l w)
