-- ===== src/Tests/Buffered.antt =====
-- A BufferedHandler of size 2: a record, a Flush, a record too many, Shutdown, a record too late.
use kit_logger.Base.{
  Option, some, ℕ, ◌+◌, ◌*◌, ◌≡◌, ◌≤◌, refl, Bool, true, false, none, List, [], ◌∷◌, ◌++◌, length,
}
use kit_logger.Base.Int.{pos}
use kit_logger.Slog.{Error, err_shutdown}
use kit_logger.Buffered.{
  LifecycleState, running, shutting_down, stopped, Item, deliver, barrier, Worker, waiting, Core,
  Ready, new_core, is_closed, can_send, is_finished, buffered_handle, try_enqueue_barrier,
  leave_running, close_shutdown, worker_receive, worker_process, worker_see_shutdown, worker_finish,
  is_running,
}
use kit_logger.Buffered.Steps.{History, start, Step, Reach}
use kit_logger.Buffered.Invariant.{Inv, records, start-Inv, Reach-Inv}
use kit_logger.Buffered.Delivery.{flush_delivers, shutdown_delivers}
use kit_logger.Buffered.Drain.{WorkerStep, WorkerRun, GoesOn, worker_finishes}

abbrev core : List (Item ℕ) → LifecycleState → Bool → Worker ℕ → List ℕ → ℕ → ℕ → Core ℕ
core queue state told worker closed dropped rejected = record {
  queue = queue;
  size = 2;
  state = state;
  shutdown_closed = told;
  worker = worker;
  closed = closed;
  dropped = dropped;
  rejected = rejected;
  handler_errors = 0;
  first_err = none;
}

abbrev both : List (Item ℕ)
both = deliver 7 ∷ barrier 5 ∷ []

abbrev history : Core ℕ → List (Item ℕ) → List (Item ℕ) → ℕ → ℕ → ℕ → History ℕ
history c accepted processed submitted drops rejections = record {
  core = c;
  accepted = accepted;
  processed = processed;
  submitted = submitted;
  drops = drops;
  rejections = rejections;
}

abbrev left : History ℕ
left = history (core both shutting_down false Worker.waiting [] 1 0) both [] 2 1 0

abbrev refused : History ℕ
refused = history (core both shutting_down true Worker.waiting [] 1 1) both [] 3 1 1

abbrev over : History ℕ
over = history (core [] stopped true Worker.finished (5 ∷ []) 1 1) both both 3 1 1

first : Reach (start (pos 2)) left
unfolding buffered_handle new_core try_enqueue_barrier leave_running
first =
    Reach.next
      (Reach.next
        (Reach.next (Reach.next Reach.here (Step.accept (start (pos 2)) 7 refl)) (
          Step.flush
            (history (core (deliver 7 ∷ []) running false Worker.waiting [] 0 0) (deliver 7 ∷ []) []
              1 0 0)
            5 Ready.can_send refl))
        (Step.drop (history (core both running false Worker.waiting [] 0 0) both [] 1 0 0) 9 refl))
      (Step.leave (history (core both running false Worker.waiting [] 1 0) both [] 2 1 0))

rejecting :
    Step (history (core both shutting_down true Worker.waiting [] 1 0) both [] 2 1 0) refused
unfolding buffered_handle
rejecting =
    Step.reject (history (core both shutting_down true Worker.waiting [] 1 0) both [] 2 1 0) 4 refl

closing : Reach (start (pos 2)) refused
unfolding close_shutdown
closing = Reach.next (Reach.next first (Step.tell left refl)) rejecting

draining_step : List (Item ℕ) → Worker ℕ → List ℕ → List (Item ℕ) → History ℕ
draining_step queue worker closed processed =
    history (core queue shutting_down true worker closed 1 1) both processed 3 1 1

whole : Reach (start (pos 2)) over
unfolding draining_step worker_receive worker_process worker_see_shutdown worker_finish
whole =
    Reach.next
      (Reach.next
        (Reach.next
          (Reach.next
            (Reach.next (Reach.next closing (Step.receive refused refl)) (
              Step.process
                (draining_step (barrier 5 ∷ []) (Worker.processing (deliver 7) false) [] [])
                (deliver 7) false none refl refl))
            (Step.see_shutdown (draining_step (barrier 5 ∷ []) Worker.waiting [] (deliver 7 ∷ []))
              refl))
          (Step.receive (draining_step (barrier 5 ∷ []) Worker.draining [] (deliver 7 ∷ [])) refl))
        (Step.process (draining_step [] (Worker.processing (barrier 5) true) [] (deliver 7 ∷ []))
          (barrier 5) true none refl refl))
      (Step.finish (draining_step [] Worker.draining (5 ∷ []) both) refl)

Reach-Inv_example : Inv over
Reach-Inv_example = Reach-Inv (start-Inv (pos 2)) whole

flush_delivers_example : (later : List ℕ) × (records both ≡ records (deliver 7 ∷ []) ++ later)
unfolding kit_logger.Buffered.Invariant.barriers
flush_delivers_example = flush_delivers (pos 2) over whole 5 (deliver 7 ∷ []) [] refl refl refl

shutdown_delivers_example :
    (over.processed ≡ over.accepted)
    × (over.core.queue ≡ [])
    × (over.submitted ≡ length (records over.processed) + over.drops + over.rejections)
shutdown_delivers_example = shutdown_delivers (pos 2) over whole refl

-- a wrapped handler that fails on every record
abbrev failing : ℕ → Option Error
failing n = some err_shutdown

worker_finishes_example :
    ((n : ℕ) × (c : Core ℕ) × WorkerRun failing n refused.core c × (is_finished c.worker ≡ true))
    × ((n : ℕ) (c : Core ℕ)
        → WorkerRun failing n refused.core c
        → (n ≤ 2 * length refused.core.queue + 3) × GoesOn c)
worker_finishes_example = worker_finishes refused.core failing refl

one_receive :
    WorkerRun failing 1 refused.core
      (core (barrier 5 ∷ []) shutting_down true (Worker.processing (deliver 7) false) [] 1 1)
unfolding worker_receive
one_receive = WorkerRun.step (WorkerStep.receive refl) (WorkerRun.done refl)
