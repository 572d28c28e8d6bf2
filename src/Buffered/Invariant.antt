-- ===== src/Buffered/Invariant.antt =====
-- The invariant of the core and its history, over every interleaving.
use Prim.Native.Nat.{◌^◌, ◌%◌}
use mathlib.Core.List.{append_assoc, append-nil}
use kit_logger.Base.{
  ℕ, ◌+◌, ◌≤◌, ◌≡◌, refl, ap, Bool, true, false, Option, none, some, List, [], ◌∷◌, ◌++◌, length,
  length-append, arith,
}
use kit_logger.Base.Int.{ℤ}
use kit_logger.Slog.{Error, err_buffer_full, err_shutdown}
use kit_logger.Buffered.Defs.{
  LifecycleState, running, shutting_down, stopped, is_running, Item, deliver, barrier, Worker,
  waiting, processing, draining, finished, Core, new_core, buffered_handle, Ready,
  try_enqueue_barrier, take_err, leave_running, close_shutdown, record_err, worker_receive,
  worker_process, worker_see_shutdown, worker_finish, is_finished,
}
use kit_logger.Buffered.Steps.{
  History, start, Step, Reach, accept, drop, reject, flush, flush_fails, report, leave, tell,
  receive, process, see_shutdown, finish, here, next,
}

-- the item that the worker holds
abbrev pub in_flight : {R : Type 0} → Worker R → List (Item R)
in_flight (processing item d) = item ∷ []
in_flight waiting = []
in_flight draining = []
in_flight finished = []

-- the worker has been told to stop
abbrev pub is_draining : {R : Type 0} → Worker R → Bool
is_draining (processing item d) = d
is_draining waiting = false
is_draining draining = true
is_draining finished = true

unfoldable pub records : {R : Type 0} → List (Item R) → List R
records [] = []
records (deliver r ∷ items) = r ∷ records items
records (barrier b ∷ items) = records items

unfoldable pub barriers : {R : Type 0} → List (Item R) → List ℕ
barriers [] = []
barriers (deliver r ∷ items) = barriers items
barriers (barrier b ∷ items) = b ∷ barriers items

abbrev pub is_stopped : LifecycleState → Bool
is_stopped running = false
is_stopped shutting_down = false
is_stopped stopped = true

pub record Inv {R : Type 0} (h : History R) : Type 0 where
  -- what was accepted has been processed, is in the worker's hands or waits, in this order
  pub fifo : h.accepted ≡ h.processed ++ (in_flight h.core.worker ++ h.core.queue)
  pub room : length h.core.queue ≤ h.core.size
  pub closed : h.core.closed ≡ barriers h.processed
  pub told : is_draining h.core.worker ≡ true → h.core.shutdown_closed ≡ true
  pub left : h.core.shutdown_closed ≡ true → is_running h.core.state ≡ false
  pub ended : is_finished h.core.worker ≡ is_stopped h.core.state
  pub drained : is_finished h.core.worker ≡ true → h.core.queue ≡ []
  pub counted : h.submitted ≡ length (records h.accepted) + h.drops + h.rejections
  pub dropped : h.core.dropped ≡ h.drops % 2 ^ 64
  pub rejected : h.core.rejected ≡ h.rejections % 2 ^ 64

pub records-append :
    {R : Type 0} (xs ys : List (Item R)) → records (xs ++ ys) ≡ records xs ++ records ys
unfolding records
records-append [] ys = refl
records-append (deliver r ∷ xs) ys = ap (◌∷◌ r) (records-append xs ys)
records-append (barrier b ∷ xs) ys = records-append xs ys

pub barriers-append :
    {R : Type 0} (xs ys : List (Item R)) → barriers (xs ++ ys) ≡ barriers xs ++ barriers ys
unfolding barriers
barriers-append [] ys = refl
barriers-append (deliver r ∷ xs) ys = barriers-append xs ys
barriers-append (barrier b ∷ xs) ys = ap (◌∷◌ b) (barriers-append xs ys)

module _ {R : Type 0} where
  accept-Inv :
      (h : History R) (r : R) (c : Core R)
      → buffered_handle r h.core ≡ (none, c)
      → Inv h
      → Inv (record h {
        core = c;
        accepted = h.accepted ++ deliver r ∷ [];
        submitted = h.submitted + 1;
      })
  unfolding buffered_handle records
  accept-Inv h r c e i = ground (
    arith,
    append_assoc h.processed (in_flight h.core.worker ++ h.core.queue) (deliver r ∷ []),
    append_assoc (in_flight h.core.worker) h.core.queue (deliver r ∷ []),
    records-append h.accepted (deliver r ∷ []),
    length-append (records h.accepted) (r ∷ []),
    length-append h.core.queue (deliver r ∷ []),
  )

  flush-Inv :
      (h : History R) (b : ℕ) (ready : Ready) (c : Core R) (o : Option Error)
      → try_enqueue_barrier ready b h.core ≡ some (true, o, c)
      → Inv h
      → Inv (record h { core = c; accepted = h.accepted ++ barrier b ∷ [] })
  unfolding try_enqueue_barrier records
  flush-Inv h b ready c o e i = ground (
    arith,
    append_assoc h.processed (in_flight h.core.worker ++ h.core.queue) (barrier b ∷ []),
    append_assoc (in_flight h.core.worker) h.core.queue (barrier b ∷ []),
    records-append h.accepted (barrier b ∷ []),
    append-nil (records h.accepted),
    length-append h.core.queue (barrier b ∷ []),
  )

  receive-Inv :
      (h : History R) (c : Core R)
      → worker_receive h.core ≡ some c
      → Inv h
      → Inv (record h { core = c })
  unfolding worker_receive
  receive-Inv h c e i = ground arith

  process-Inv :
      (h : History R) (item : Item R) (d : Bool) (outcome : Option Error) (c : Core R)
      → h.core.worker ≡ processing item d
      → worker_process outcome h.core ≡ some c
      → Inv h
      → Inv (record h { core = c; processed = h.processed ++ item ∷ [] })
  unfolding worker_process record_err barriers
  process-Inv h item d outcome c w e i = ground (
    arith,
    append_assoc h.processed (item ∷ []) h.core.queue,
    barriers-append h.processed (item ∷ []),
    append-nil (barriers h.processed),
  )

  see_shutdown-Inv :
      (h : History R) (c : Core R)
      → worker_see_shutdown h.core ≡ some c
      → Inv h
      → Inv (record h { core = c })
  unfolding worker_see_shutdown
  see_shutdown-Inv h c e i = ground arith

  finish-Inv :
      (h : History R) (c : Core R)
      → worker_finish h.core ≡ some c
      → Inv h
      → Inv (record h { core = c })
  unfolding worker_finish
  finish-Inv h c e i = ground arith

  refuse-Inv :
      (h : History R) (r : R) (c : Core R)
      → buffered_handle r h.core ≡ (some err_buffer_full, c)
      → Inv h
      → Inv (record h { core = c; submitted = h.submitted + 1; drops = h.drops + 1 })
  unfolding buffered_handle
  refuse-Inv h r c e i = ground arith

  reject-Inv :
      (h : History R) (r : R) (c : Core R)
      → buffered_handle r h.core ≡ (some err_shutdown, c)
      → Inv h
      → Inv (record h { core = c; submitted = h.submitted + 1; rejections = h.rejections + 1 })
  unfolding buffered_handle
  reject-Inv h r c e i = ground arith

  leave-Inv : (h : History R) → Inv h → Inv (record h { core = leave_running h.core })
  unfolding leave_running
  leave-Inv h i = ground arith

  tell-Inv :
      (h : History R)
      → is_running h.core.state ≡ false
      → Inv h
      → Inv (record h { core = close_shutdown h.core })
  unfolding close_shutdown
  tell-Inv h l i = ground arith

  report-Inv : (h : History R) → Inv h → Inv (record h { core = (take_err h.core).1 })
  unfolding take_err
  report-Inv h i = ground arith

  flush_fails-Inv :
      (h : History R) (b : ℕ) (ready : Ready) (c : Core R) (o : Option Error)
      → try_enqueue_barrier ready b h.core ≡ some (false, o, c)
      → Inv h
      → Inv (record h { core = c })
  unfolding try_enqueue_barrier
  flush_fails-Inv h b ready c o e i = ground arith

-- Every action of a caller or of the worker keeps the invariant.
pub Step-Inv : {R : Type 0} {h h' : History R} → Step h h' → Inv h → Inv h'
Step-Inv (accept h r {c} e) i = accept-Inv h r c e i
Step-Inv (drop h r {c} e) i = refuse-Inv h r c e i
Step-Inv (reject h r {c} e) i = reject-Inv h r c e i
Step-Inv (flush h b ready {c} {e = o} e) i = flush-Inv h b ready c o e i
Step-Inv (flush_fails h b ready {c} {e = o} e) i = flush_fails-Inv h b ready c o e i
Step-Inv (report h) i = report-Inv h i
Step-Inv (leave h) i = leave-Inv h i
Step-Inv (tell h l) i = tell-Inv h l i
Step-Inv (receive h {c} e) i = receive-Inv h c e i
Step-Inv (process h item d outcome {c} w e) i = process-Inv h item d outcome c w e i
Step-Inv (see_shutdown h {c} e) i = see_shutdown-Inv h c e i
Step-Inv (finish h {c} e) i = finish-Inv h c e i

pub start-Inv : {R : Type 0} (size : ℤ) → Inv (start {R = R} size)
unfolding new_core records barriers
start-Inv size = ground arith

-- Every interleaving of callers and worker keeps the invariant: what was accepted is what was
-- processed, what the worker holds and what is queued, in this order; the queue keeps its bound;
-- the closed barriers are the processed ones; and every submitted record is accepted, dropped or
-- rejected, as the counters say modulo 2 ^ 64.
pub Reach-Inv : {R : Type 0} {s h : History R} → Inv s → Reach s h → Inv h
Reach-Inv i here = i
Reach-Inv i (next r st) = Step-Inv st (Reach-Inv i r)
