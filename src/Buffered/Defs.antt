-- ===== src/Buffered/Defs.antt =====
-- The definitions of pkg/logger/handler/buffered_handler.go: each function is one atomic action on
-- the core, what the locks and the channels make atomic in the source. `R` is what an item carries
-- to the wrapped handler: the context, the record and the derived handler.
use Prim.Native.Nat.{◌^◌, ◌%◌}
use kit_logger.Base.{
  ℕ, zero, suc, ◌+◌, Bool, true, false, ◌||◌, Option, none, some, List, [], ◌∷◌, ◌++◌, length, ltb,
  nat_eq, String, ◌==◌, if◌then◌else◌,
}
use kit_logger.Base.Int.{ℤ, pos, negsuc}
use kit_logger.Slog.{Attrs, is_nil, Handler, Error, err_buffer_full, err_shutdown, ctx_err}

-- `lifecycleState`
pub data LifecycleState : Type 0 where
  running shutting_down stopped : LifecycleState

abbrev pub is_running : LifecycleState → Bool
is_running running = true
is_running shutting_down = false
is_running stopped = false

-- `bufferedItem`: a record, or the barrier of a Flush
pub data Item (R : Type 0) : Type 0 where
  deliver : R → Item R
  barrier : ℕ → Item R

-- The worker's place in `run` and `drain`: in the select of `run`, in `process` (the flag says
-- whether it drains), in the select of `drain`, or returned.
pub data Worker (R : Type 0) : Type 0 where
  waiting : Worker R
  processing : Item R → Bool → Worker R
  draining : Worker R
  finished : Worker R

-- `bufferedCore`. `closed` are the barriers that have been closed, `workerDone` is closed exactly
-- when the worker has finished.
pub record Core (R : Type 0) : Type 0 where
  pub queue : List (Item R)
  pub size : ℕ
  pub state : LifecycleState
  pub shutdown_closed : Bool
  pub worker : Worker R
  pub closed : List ℕ
  pub dropped : ℕ
  pub rejected : ℕ
  pub handler_errors : ℕ
  pub first_err : Option Error

abbrev pub incr_u64 : ℕ → ℕ
incr_u64 n = (n + 1) % 2 ^ 64

-- `NewBufferedHandler`
unfoldable pub new_core : {R : Type 0} → ℤ → Core R
new_core size = record {
  queue = [];
  size = elim size [ pos zero ↦ 1 | pos (suc n) ↦ suc n | negsuc n ↦ 1 ];
  state = running;
  shutdown_closed = false;
  worker = waiting;
  closed = [];
  dropped = 0;
  rejected = 0;
  handler_errors = 0;
  first_err = none;
}

-- which channel a select takes
pub data Ready : Type 0 where
  can_send context_done worker_done timer_fired : Ready

-- where the loop of a Flush is after some rounds: still going, waiting for its barrier, or returned
pub data FlushEnd : Type 0 where
  going awaiting : FlushEnd
  ended : Error → FlushEnd

abbrev pub after_check : Option Error → FlushEnd → FlushEnd
after_check (some e) rest = ended e
after_check none rest = rest

abbrev pub is_closed : ℕ → List ℕ → Bool
is_closed b [] = false
is_closed b (a ∷ as') = nat_eq a b || is_closed b as'

module _ {R : Type 0} where
  -- `Handle`
  unfoldable pub buffered_handle : R → Core R → Option Error × Core R
  buffered_handle r c =
      if is_running c.state
      then if ltb (length c.queue) c.size
        then (none, record c { queue = c.queue ++ deliver r ∷ [] })
        else (some err_buffer_full, record c { dropped = incr_u64 c.dropped })
      else (some err_shutdown, record c { rejected = incr_u64 c.rejected })

  -- `tryEnqueueBarrier`, by the channel that the select takes. Sending waits while the queue is
  -- full, so that choice is there only with room.
  unfoldable pub try_enqueue_barrier : Ready → ℕ → Core R → Option (Bool × Option Error × Core R)
  try_enqueue_barrier ready b c =
      if is_running c.state
      then elim ready [
        | can_send ↦
            if ltb (length c.queue) c.size
            then some (true, none, record c { queue = c.queue ++ barrier b ∷ [] })
            else none
        | context_done ↦ some (false, some ctx_err, c)
        | worker_done ↦ some (false, some err_shutdown, c)
        | timer_fired ↦ some (false, none, c)
      ]
      else some (false, some err_shutdown, c)

  abbrev pub is_finished : Worker R → Bool
  is_finished finished = true
  is_finished waiting = false
  is_finished draining = false
  is_finished (processing i d) = false

  -- the select of `Flush` between two attempts, by the channel that it takes or its default
  unfoldable pub between_attempts : Ready → Core R → Option Error
  between_attempts context_done c = some ctx_err
  between_attempts worker_done c = if is_finished c.worker then some err_shutdown else none
  between_attempts can_send c = none
  between_attempts timer_fired c = none

  -- what an attempt comes to: an error, the barrier in the queue, or a further round. A choice that is
  -- not ready is waited on.
  abbrev pub after_attempt :
      Option (Bool × Option Error × Core R) → Option Error → FlushEnd → FlushEnd
  after_attempt (some (enqueued, some e, c)) check rest = ended e
  after_attempt (some (true, none, c)) check rest = awaiting
  after_attempt (some (false, none, c)) check rest = after_check check rest
  after_attempt none check rest = rest

  -- the loop of `Flush`, over the choices of its two selects and the core that each round finds
  unfoldable pub flush_rounds : ℕ → List (Ready × Ready × Core R) → FlushEnd
  flush_rounds b [] = going
  flush_rounds b ((ready, next, c) ∷ rounds) =
      after_attempt (try_enqueue_barrier ready b c) (between_attempts next c)
        (flush_rounds b rounds)

  -- `takeErr`
  unfoldable pub take_err : Core R → Option Error × Core R
  take_err c = (c.first_err, record c { first_err = none })

  -- `awaitBarrier`, by the channel that the select takes: the barrier, the context, or the
  -- worker's end. Nothing is returned while that channel is not ready.
  unfoldable pub await_barrier : Ready → ℕ → Core R → Option (Option Error × Core R)
  await_barrier can_send b c = if is_closed b c.closed then some (take_err c) else none
  await_barrier context_done b c = some (some ctx_err, c)
  await_barrier worker_done b c =
      if is_finished c.worker
      then if is_closed b c.closed then some (take_err c) else some (some err_shutdown, c)
      else none
  await_barrier timer_fired b c = none

  -- `Shutdown` under the write lock: leave running
  unfoldable pub leave_running : Core R → Core R
  leave_running c = record c { state = if is_running c.state then shutting_down else c.state }

  -- `Shutdown` after the lock: tell the worker, once
  unfoldable pub close_shutdown : Core R → Core R
  close_shutdown c = record c { shutdown_closed = true }

  -- the wait of `Shutdown`
  unfoldable pub await_worker : Ready → Core R → Option (Option Error × Core R)
  await_worker worker_done c = if is_finished c.worker then some (take_err c) else none
  await_worker context_done c = some (some ctx_err, c)
  await_worker can_send c = none
  await_worker timer_fired c = none

  -- `recordErr`
  unfoldable pub record_err : Error → Core R → Core R
  record_err e c = record c {
    handler_errors = incr_u64 c.handler_errors;
    first_err = elim c.first_err [ none ↦ some e | some first ↦ some first ];
  }

  -- the worker receives the next item, in `run` or in `drain`
  unfoldable pub worker_receive : Core R → Option (Core R)
  worker_receive c = elim c.queue [
    | [] ↦ none
    | item ∷ rest ↦ elim c.worker [
      | waiting ↦ some (record c { queue = rest; worker = processing item false })
      | draining ↦ some (record c { queue = rest; worker = processing item true })
      | processing i d ↦ none
      | finished ↦ none
    ]
  ]

  abbrev pub resume : Bool → Worker R
  resume true = draining
  resume false = waiting

  -- the end of `process`: the barrier is closed, or the wrapped handler has returned `outcome`
  unfoldable pub worker_process : Option Error → Core R → Option (Core R)
  worker_process outcome c = elim c.worker [
    | processing (barrier b) d ↦ some (record c { closed = c.closed ++ b ∷ []; worker = resume d })
    | processing (deliver r) d ↦ elim outcome [
      | none ↦ some (record c { worker = resume d })
      | some e ↦ some (record_err e (record c { worker = resume d }))
    ]
    | waiting ↦ none
    | draining ↦ none
    | finished ↦ none
  ]

  -- the select of `run` takes the shutdown channel
  unfoldable pub worker_see_shutdown : Core R → Option (Core R)
  worker_see_shutdown c = elim c.worker [
    | waiting ↦ if c.shutdown_closed then some (record c { worker = draining }) else none
    | processing i d ↦ none
    | draining ↦ none
    | finished ↦ none
  ]

  -- `drain` finds the queue empty, and `run` returns
  unfoldable pub worker_finish : Core R → Option (Core R)
  worker_finish c = elim c.worker [
    | draining ↦ elim c.queue [
      | [] ↦ some (record c { worker = finished; state = stopped })
      | item ∷ rest ↦ none
    ]
    | waiting ↦ none
    | processing i d ↦ none
    | finished ↦ none
  ]

-- `BufferedHandler`: the shared core is the world of the calls, so that a derived handler differs by
-- what it wraps
module _ {H S : Type 0} (next : Handler H S) where
  -- `WithAttrs`
  unfoldable pub buffered_with_attrs : H → Attrs → H
  buffered_with_attrs h attrs = if is_nil attrs then h else next.with_attrs h attrs

  -- `WithGroup`
  unfoldable pub buffered_with_group : H → String → H
  buffered_with_group h name = if name == "" then h else next.with_group h name
