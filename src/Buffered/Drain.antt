-- ===== src/Buffered/Drain.antt =====
-- The worker stops: each of its actions brings the end nearer, and after Shutdown it is never stuck.
use kit_logger.Base.{
  ℕ, zero, suc, ◌+◌, ◌*◌, ◌≤◌, ◌<◌, ◌≡◌, ◌⊎◌, refl, ◌++◌, Bool-cases, inl, inr, Bool, true, false,
  Option, none, some, List, [], ◌∷◌, length, arith,
}
use kit_logger.Slog.{Error}
use kit_logger.Buffered.Defs.{
  Item, deliver, barrier, Worker, waiting, processing, draining, finished, Core, is_finished,
  record_err, stopped, resume, worker_receive, worker_process, worker_see_shutdown, worker_finish,
}

-- One action of the worker, if the wrapped handler returns `outcome` for the record at hand.
pub data WorkerStep {R : Type 0} (outcome : Option Error) : Core R → Core R → Type 0 where
  receive : {c c' : Core R} → worker_receive c ≡ some c' → WorkerStep outcome c c'
  process : {c c' : Core R} → worker_process outcome c ≡ some c' → WorkerStep outcome c c'
  see_shutdown : {c c' : Core R} → worker_see_shutdown c ≡ some c' → WorkerStep outcome c c'
  finish : {c c' : Core R} → worker_finish c ≡ some c' → WorkerStep outcome c c'

-- `n` actions of the worker, `outcomes` being what the wrapped handler would return at each of them
pub data WorkerRun {R : Type 0} : (ℕ → Option Error) → ℕ → Core R → Core R → Type 0 where
  done : {outcomes : ℕ → Option Error} {c : Core R} {n : ℕ} → n ≡ 0 → WorkerRun outcomes n c c
  step :
      {outcomes : ℕ → Option Error} {c c' c'' : Core R} {n : ℕ}
      → WorkerStep (outcomes 0) c c'
      → WorkerRun (λ k. outcomes (suc k)) n c' c''
      → WorkerRun outcomes (suc n) c c''

-- how many actions are left at most
pub measure : {R : Type 0} → Core R → ℕ
measure c = 2 * length c.queue + (elim c.worker [
  | waiting ↦ 2
  | processing item true ↦ 2
  | processing item false ↦ 3
  | draining ↦ 1
  | finished ↦ 0
])

worker_decreases :
    {R : Type 0} {outcome : Option Error} {c c' : Core R}
    → WorkerStep outcome c c'
    → measure c' < measure c
unfolding measure worker_receive worker_process record_err worker_see_shutdown worker_finish
worker_decreases (receive e) = ground arith
worker_decreases (process e) = ground arith
worker_decreases (see_shutdown e) = ground arith
worker_decreases (finish e) = ground arith

stays_told :
    {R : Type 0} {outcome : Option Error} {c c' : Core R}
    → WorkerStep outcome c c'
    → c.shutdown_closed ≡ true
    → c'.shutdown_closed ≡ true
unfolding worker_receive worker_process record_err worker_see_shutdown worker_finish
stays_told (receive e) told = ground arith
stays_told (process e) told = ground arith
stays_told (see_shutdown e) told = ground arith
stays_told (finish e) told = ground arith

-- However the worker's selects choose, a run of the worker without new items makes no more actions
-- than its measure says.
pub worker_bounded :
    {R : Type 0} {outcomes : ℕ → Option Error} {n : ℕ} {c c' : Core R}
    → WorkerRun outcomes n c c'
    → n + measure c' ≤ measure c
worker_bounded (done e) = omega arith
worker_bounded (step s r) = omega (arith, worker_decreases s, worker_bounded r)

run_stays_told :
    {R : Type 0} {outcomes : ℕ → Option Error} {n : ℕ} {c c' : Core R}
    → WorkerRun outcomes n c c'
    → c.shutdown_closed ≡ true
    → c'.shutdown_closed ≡ true
run_stays_told (done e) told = told
run_stays_told (step s r) told = run_stays_told r (stays_told s told)

module _ {R : Type 0} (c : Core R) where
  see_shutdown_lem :
      c.worker ≡ waiting
      → c.shutdown_closed ≡ true
      → worker_see_shutdown c ≡ some (record c { worker = draining })
  unfolding worker_see_shutdown
  see_shutdown_lem w told = ground arith

  close_barrier_lem :
      (outcome : Option Error) (b : ℕ) (d : Bool)
      → c.worker ≡ processing (barrier b) d
      → worker_process outcome c
        ≡ some (record c { closed = c.closed ++ b ∷ []; worker = resume d })
  unfolding worker_process
  close_barrier_lem outcome b d w = ground arith

  deliver_lem :
      (outcome : Option Error) (r : R) (d : Bool)
      → c.worker ≡ processing (deliver r) d
      → (c' : Core R) × (worker_process outcome c ≡ some c')
  unfolding worker_process
  deliver_lem none r d w = (record c { worker = resume d }, ground arith)
  deliver_lem (some e) r d w = (record_err e (record c { worker = resume d }), ground arith)

  finish_lem :
      c.worker ≡ draining
      → c.queue ≡ []
      → worker_finish c ≡ some (record c { worker = finished; state = stopped })
  unfolding worker_finish
  finish_lem w q = ground arith

  receive_lem :
      (item : Item R) (rest : List (Item R))
      → c.worker ≡ draining
      → c.queue ≡ item ∷ rest
      → worker_receive c ≡ some (record c { queue = rest; worker = processing item true })
  unfolding worker_receive
  receive_lem item rest w q = ground arith

  -- After Shutdown some action of the worker is possible until it has finished, whatever the wrapped
  -- handler returns.
  worker_progress :
      (outcome : Option Error)
      → c.shutdown_closed ≡ true
      → is_finished c.worker ≡ false
      → (c' : Core R) × WorkerStep outcome c c'
  worker_progress outcome told busy = go c.worker refl c.queue refl
    where
      go :
          (w : Worker R)
          → c.worker ≡ w
          → (q : List (Item R)) → c.queue ≡ q
          → (c' : Core R) × WorkerStep outcome c c'
      go waiting w q e = (_, see_shutdown (see_shutdown_lem w told))
      go (processing (barrier b) d) w q e = (_, process (close_barrier_lem outcome b d w))
      go (processing (deliver r) d) w q e =
          let (c', made) = deliver_lem outcome r d w in (c', process made)
      go draining w [] e = (_, finish (finish_lem w e))
      go draining w (item ∷ rest) e = (_, receive (receive_lem item rest w e))
      go finished w q e = absurd (ground arith)

finishes_within :
    {R : Type 0} (fuel : ℕ) (c : Core R) (outcomes : ℕ → Option Error)
    → measure c ≤ fuel
    → c.shutdown_closed ≡ true
    → (n : ℕ) × (c' : Core R) × WorkerRun outcomes n c c' × (is_finished c'.worker ≡ true)
finishes_within zero c outcomes m told = elim (Bool-cases (is_finished c.worker)) [
  | inl over ↦ (0, c, done refl, over)
  | inr busy ↦
      let (c', s) = worker_progress c none told busy in absurd (omega (arith, worker_decreases s))
]
finishes_within (suc fuel) c outcomes m told = elim (Bool-cases (is_finished c.worker)) [
  | inl over ↦ (0, c, done refl, over)
  | inr busy ↦
      let (c', s) = worker_progress c (outcomes 0) told busy in
      let (n, c'', r, over) =
        finishes_within fuel c' (λ k. outcomes (suc k)) (omega (arith, worker_decreases s))
          (stays_told s told) in
      (suc n, c'', step s r, over)
]

-- The worker has finished, or can go on whatever the wrapped handler returns.
abbrev pub GoesOn : {R : Type 0} → Core R → Type 0
GoesOn {R} c =
    (is_finished c.worker ≡ true)
    ⊎ ((outcome : Option Error) → (c' : Core R) × WorkerStep outcome c c')

goes_on : {R : Type 0} (c : Core R) → c.shutdown_closed ≡ true → GoesOn c
goes_on c told = elim (Bool-cases (is_finished c.worker)) [
  | inl over ↦ inl over
  | inr busy ↦ inr (λ outcome. worker_progress c outcome told busy)
]

-- Once the worker has been told to stop, and whatever the wrapped handler returns for each record:
-- there is a run of the worker that ends with it done, and any run of it, however its selects choose,
-- makes at most two actions for each item that is queued and three more, and ends with the worker done
-- or able to go on, whatever the wrapped handler returns next.
pub worker_finishes :
    {R : Type 0} (c : Core R) (outcomes : ℕ → Option Error)
    → c.shutdown_closed ≡ true
    → ((n : ℕ) × (c' : Core R) × WorkerRun outcomes n c c' × (is_finished c'.worker ≡ true))
      × ((n : ℕ) (c' : Core R)
          → WorkerRun outcomes n c c'
          → (n ≤ 2 * length c.queue + 3) × GoesOn c')
unfolding measure
worker_finishes c outcomes told = (
  finishes_within (measure c) c outcomes (omega arith) told,
  λ n c' r. (ground (arith, worker_bounded r), goes_on c' (run_stays_told r told)),
)
