-- ===== src/Buffered/Steps.antt =====
-- The core among its callers: every interleaving of their atomic actions, with the history of what
-- was submitted.
use kit_logger.Base.{ℕ, ◌+◌, ◌≡◌, Bool, true, false, Option, none, some, List, [], ◌∷◌, ◌++◌}
use kit_logger.Base.Int.{ℤ}
use kit_logger.Slog.{Error, err_buffer_full, err_shutdown}
use kit_logger.Buffered.Defs.{
  Item, deliver, barrier, Worker, Core, new_core, buffered_handle, Ready, try_enqueue_barrier,
  take_err, is_running, leave_running, close_shutdown, worker_receive, worker_process,
  worker_see_shutdown, worker_finish,
}

-- The core with its history: the items accepted and processed, in order, and how many records were
-- submitted, dropped and rejected.
pub record History (R : Type 0) : Type 0 where
  pub core : Core R
  pub accepted : List (Item R)
  pub processed : List (Item R)
  pub submitted : ℕ
  pub drops : ℕ
  pub rejections : ℕ

abbrev pub start : {R : Type 0} → ℤ → History R
start size = record {
  core = new_core size;
  accepted = [];
  processed = [];
  submitted = 0;
  drops = 0;
  rejections = 0;
}

-- One atomic action of a caller or of the worker.
pub data Step {R : Type 0} : History R → History R → Type 0 where
  accept :
      (h : History R) (r : R) {c : Core R}
      → buffered_handle r h.core ≡ (none, c)
      → Step h (record h {
        core = c;
        accepted = h.accepted ++ deliver r ∷ [];
        submitted = h.submitted + 1;
      })
  drop :
      (h : History R) (r : R) {c : Core R}
      → buffered_handle r h.core ≡ (some err_buffer_full, c)
      → Step h (record h { core = c; submitted = h.submitted + 1; drops = h.drops + 1 })
  reject :
      (h : History R) (r : R) {c : Core R}
      → buffered_handle r h.core ≡ (some err_shutdown, c)
      → Step h (record h { core = c; submitted = h.submitted + 1; rejections = h.rejections + 1 })
  flush :
      (h : History R) (b : ℕ) (ready : Ready) {c : Core R} {e : Option Error}
      → try_enqueue_barrier ready b h.core ≡ some (true, e, c)
      → Step h (record h { core = c; accepted = h.accepted ++ barrier b ∷ [] })
  flush_fails :
      (h : History R) (b : ℕ) (ready : Ready) {c : Core R} {e : Option Error}
      → try_enqueue_barrier ready b h.core ≡ some (false, e, c)
      → Step h (record h { core = c })
  report : (h : History R) → Step h (record h { core = (take_err h.core).1 })
  leave : (h : History R) → Step h (record h { core = leave_running h.core })
  tell :
      (h : History R)
      → is_running h.core.state ≡ false
      → Step h (record h { core = close_shutdown h.core })
  receive :
      (h : History R) {c : Core R} → worker_receive h.core ≡ some c → Step h (record h { core = c })
  process :
      (h : History R) (item : Item R) (draining : Bool) (outcome : Option Error) {c : Core R}
      → h.core.worker ≡ Worker.processing item draining
      → worker_process outcome h.core ≡ some c
      → Step h (record h { core = c; processed = h.processed ++ item ∷ [] })
  see_shutdown :
      (h : History R) {c : Core R}
      → worker_see_shutdown h.core ≡ some c
      → Step h (record h { core = c })
  finish :
      (h : History R) {c : Core R} → worker_finish h.core ≡ some c → Step h (record h { core = c })

pub data Reach {R : Type 0} (s : History R) : History R → Type 0 where
  here : Reach s s
  next : {t u : History R} → Reach s t → Step t u → Reach s u
