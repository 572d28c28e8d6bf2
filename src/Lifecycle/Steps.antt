-- ===== src/Lifecycle/Steps.antt =====
-- The actions of the calls that share one group of pkg/logger/lifecycle.go: what happens between two of
-- them is up to the scheduler. No lock holds a log call, a Flush or the goroutine of a shutdown
-- together, so that each call of a handler begins and returns by itself.
use kit_logger.Base.{
  ℕ, suc, ◌+◌, true, false, Option, none, some, List, [], ◌∷◌, ◌++◌, if◌then◌else◌, ◌≡◌,
}
use kit_logger.Slog.{Context, Error}
use kit_logger.Lifecycle.Defs.{
  Flusher, LifecycleGroup, translate_lifecycle_err, keep_first, or_background, is_stopping,
  reject_record, new_lifecycle_group, start_shutdown,
}

-- Where the goroutine of a shutdown is: not started; before the next call of its loop, or inside that
-- call, with the first error and the handlers that are left; or past the write of `err`, or the end.
pub data Drain (S : Type 0) : Type 0 where
  idle : Drain S
  calling : Option Error → List (Flusher S) → Drain S
  inside : Option Error → List (Flusher S) → Drain S
  stored : Drain S
  over : Drain S

-- A Flush that has passed its check: its context, the first error and the handlers that are left.
pub record FlushCall (S : Type 0) : Type 0 where
  pub ctx : Context
  pub first : Option Error
  pub rest : List (Flusher S)

-- The group, its goroutine, how many log calls are past the gate, and the Flushes past their check.
-- `called` and `results` tell the handlers whose Shutdown was called and what those calls returned.
pub record System (S : Type 0) : Type 0 where
  pub group : LifecycleGroup S
  pub drain : Drain S
  pub logging : ℕ
  pub flushing : List (FlushCall S)
  pub called : List (Flusher S)
  pub results : List (Option Error)

module _ {S : Type 0} where
  abbrev pub initial : List (Flusher S) → System S
  initial fs = record {
    group = new_lifecycle_group fs;
    drain = idle;
    logging = 0;
    flushing = [];
    called = [];
    results = [];
  }

  -- the group with one more rejected record
  unfoldable pub rejected_in : Option (LifecycleGroup S) → LifecycleGroup S → LifecycleGroup S
  rejected_in none g = g
  rejected_in (some h) g = h

  -- what `startOnce.Do` does: nothing, or close admission and start the goroutine
  unfoldable pub begin_shutdown : System S → System S
  begin_shutdown s =
      if s.group.started
      then s
      else record s { group = start_shutdown s.group; drain = calling none s.group.handlers }

  -- The next action of the goroutine. `e` is what the handler's Shutdown returns, if it returns.
  unfoldable pub drain_from : Option Error → Drain S → System S → Option (System S)
  drain_from e idle s = none
  drain_from e (calling first []) s =
      some (record s { group = record s.group { err = first }; drain = stored })
  drain_from e (calling first (f ∷ rest)) s =
      some (record s { drain = inside first rest; called = s.called ++ f ∷ [] })
  drain_from e (inside first rest) s = some (record s {
    drain = calling (keep_first first (translate_lifecycle_err e)) rest;
    results = s.results ++ e ∷ [];
  })
  drain_from e stored s =
      some (record s { group = record s.group { completed = true }; drain = over })
  drain_from e over s = none

  -- One action of one of the calls. A log call past the gate, and a handler that a call is inside of,
  -- may do anything to what they write to, which is not part of the state. The gate does not open
  -- again, so that a record is counted as rejected while the logger stops.
  pub data Step : System S → System S → Type 0 where
    log_enters :
        {s : System S}
        → is_stopping (some s.group) ≡ false
        → Step s (record s { logging = s.logging + 1 })
    log_leaves : {s : System S} (n : ℕ) → s.logging ≡ suc n → Step s (record s { logging = n })
    log_rejected :
        {s : System S}
        → is_stopping (some s.group) ≡ true
        → Step s (record s { group = rejected_in (reject_record (some s.group)) s.group })
    flush_enters :
        {s : System S} (ctx : Option Context)
        → is_stopping (some s.group) ≡ false
        → Step s (record s {
          flushing =
              record { ctx = or_background ctx; first = none; rest = s.group.handlers }
              ∷ s.flushing;
        })
    flush_goes_on :
        {s : System S} (before after : List (FlushCall S)) (c : FlushCall S) (f : Flusher S)
        (rest : List (Flusher S)) (e : Option Error)
        → s.flushing ≡ before ++ c ∷ after
        → c.rest ≡ f ∷ rest
        → Step s (record s {
          flushing =
              before
              ++ record c { first = keep_first c.first (translate_lifecycle_err e); rest = rest }
                ∷ after;
        })
    flush_leaves :
        {s : System S} (before after : List (FlushCall S)) (c : FlushCall S)
        → s.flushing ≡ before ++ c ∷ after
        → c.rest ≡ []
        → Step s (record s { flushing = before ++ after })
    shutdown_called : {s : System S} → Step s (begin_shutdown s)
    drains : {s s' : System S} (e : Option Error) → drain_from e s.drain s ≡ some s' → Step s s'

  pub data Reach : System S → System S → Type 0 where
    stay : {s : System S} → Reach s s
    and_step : {s s' s'' : System S} → Reach s s' → Step s' s'' → Reach s s''
