-- ===== src/Lifecycle/Defs.antt =====
-- The definitions of pkg/logger/lifecycle.go. Handlers are nodes of a graph, since a chain may
-- unwrap to itself.
use Prim.Native.Nat.{◌^◌, ◌%◌}
use kit_logger.Base.{
  ℕ, zero, suc, ◌+◌, Bool, true, false, Option, none, some, List, [], ◌∷◌, ◌++◌, if◌then◌else◌,
}
use kit_logger.Slog.{Context, background, Error, err_logger_shutdown, ctx_err, is_shutdown}

-- What a handler exposes besides `slog.Handler`: whether it is a Flusher, and what it unwraps to.
-- A MultiUnwrapper comes before an Unwrapper; `none` is a nil handler.
pub data Unwraps : Type 0 where
  is_opaque : Unwraps
  to_one : Option ℕ → Unwraps
  to_many : List (Option ℕ) → Unwraps

pub record Shape : Type 0 where
  pub flusher : Bool
  pub unwraps : Unwraps

abbrev pub max_unwrap_depth : ℕ
max_unwrap_depth = 32

-- `for _, next := range u.UnwrapAll() { walk(next, depth+1) }`
unfoldable pub walk_all : (Option ℕ → List ℕ) → List (Option ℕ) → List ℕ
walk_all f [] = []
walk_all f (h ∷ hs) = f h ++ walk_all f hs

-- `walk`, with the depths that are left: none if the depth is past the bound
unfoldable pub walk : (ℕ → Shape) → ℕ → Option ℕ → List ℕ
walk shape zero h = []
walk shape (suc left) none = []
walk shape (suc left) (some h) =
    (if (shape h).flusher then h ∷ [] else []) ++ (elim (shape h).unwraps [
      | is_opaque ↦ []
      | to_one next ↦ walk shape left next
      | to_many nexts ↦ walk_all (walk shape left) nexts
    ])

-- `collectFlushers`: depths 0 to maxUnwrapDepth
unfoldable pub collect_flushers : (ℕ → Shape) → Option ℕ → List ℕ
collect_flushers shape h = walk shape (max_unwrap_depth + 1) h

-- `Flusher`, on the world `S` of the pipeline
pub record Flusher (S : Type 0) : Type 0 where
  pub flush : Context → S → Option Error × S
  pub shutdown : Context → S → Option Error × S

-- `lifecycleGroup`. `started` is what startOnce has done, `completed` whether `done` is closed.
pub record LifecycleGroup (S : Type 0) : Type 0 where
  pub handlers : List (Flusher S)
  pub started : Bool
  pub completed : Bool
  pub err : Option Error
  pub stopping : Bool
  pub rejected : ℕ

-- `newLifecycleGroup`
unfoldable pub new_lifecycle_group : {S : Type 0} → List (Flusher S) → LifecycleGroup S
new_lifecycle_group handlers = record {
  handlers = handlers;
  started = false;
  completed = false;
  err = none;
  stopping = false;
  rejected = 0;
}

-- `translateLifecycleErr`
unfoldable pub translate_lifecycle_err : Option Error → Option Error
translate_lifecycle_err none = none
translate_lifecycle_err (some e) = if is_shutdown e then some err_logger_shutdown else some e

-- `if err != nil && first == nil { first = err }`
abbrev pub keep_first : Option Error → Option Error → Option Error
keep_first (some first) e = some first
keep_first none e = e

-- a nil context is the background context
abbrev pub or_background : Option Context → Context
or_background none = background
or_background (some ctx) = ctx

module _ {S : Type 0} where
  -- `isStopping`
  unfoldable pub is_stopping : Option (LifecycleGroup S) → Bool
  is_stopping none = false
  is_stopping (some g) = g.stopping

  -- `rejectRecord`
  unfoldable pub reject_record : Option (LifecycleGroup S) → Option (LifecycleGroup S)
  reject_record none = none
  reject_record (some g) = some (record g { rejected = (g.rejected + 1) % 2 ^ 64 })

  -- `rejectedCount`
  unfoldable pub rejected_count : Option (LifecycleGroup S) → ℕ
  rejected_count none = 0
  rejected_count (some g) = g.rejected

  -- the loop of `flush`
  unfoldable pub flush_loop : Option Error → List (Flusher S) → Context → S → Option Error × S
  flush_loop first [] ctx w = (first, w)
  flush_loop first (f ∷ fs) ctx w =
      let (e, w') = f.flush ctx w in
      flush_loop (keep_first first (translate_lifecycle_err e)) fs ctx w'

  -- `flush`
  unfoldable pub flush_group : Option (LifecycleGroup S) → Option Context → S → Option Error × S
  flush_group none ctx w = (none, w)
  flush_group (some g) ctx w =
      if g.stopping
      then (some err_logger_shutdown, w)
      else flush_loop none g.handlers (or_background ctx) w

  -- `shutdownAllToCompletion`
  unfoldable pub shutdown_loop : Option Error → List (Flusher S) → S → Option Error × S
  shutdown_loop first [] w = (first, w)
  shutdown_loop first (f ∷ fs) w =
      let (e, w') = f.shutdown background w in
      shutdown_loop (keep_first first (translate_lifecycle_err e)) fs w'

  -- `shutdown` up to its wait: once, close admission and start the drain
  unfoldable pub start_shutdown : LifecycleGroup S → LifecycleGroup S
  start_shutdown g = if g.started then g else record g { started = true; stopping = true }

  -- the wait of `shutdown`, by the branch that its select takes: the caller's context, or the end
  -- of the shutdown. Nothing is returned while that branch is not ready.
  unfoldable pub await_shutdown : Bool → LifecycleGroup S → Option (Option Error)
  await_shutdown expired g =
      if expired then some (some ctx_err) else if g.completed then some g.err else none
