-- ===== src/Buffered/Delivery.antt =====
-- What Flush and Shutdown promise, over every interleaving.
use mathlib.Core.List.{append-nil}
use kit_logger.Base.{
  ℕ, ◌+◌, ◌≤◌, ◌≡◌, sym, ap, ◌∙◌, true, false, List, [], ◌∷◌, ◌++◌, length, arith,
}
use kit_logger.Base.Int.{ℤ}
use kit_logger.Buffered.Defs.{
  is_running, Item, Worker, deliver, barrier, is_closed, is_finished, buffered_handle,
  try_enqueue_barrier, leave_running, close_shutdown, take_err, record_err, worker_receive,
  worker_process, worker_see_shutdown, worker_finish,
}
use kit_logger.Buffered.Steps.{
  History, start, Step, Reach, accept, drop, reject, flush, flush_fails, report, leave, tell,
  receive, process, see_shutdown, finish,
}
use kit_logger.Buffered.Invariant.{
  in_flight, records, barriers, records-append, start-Inv, Reach-Inv,
}

-- A list that holds a barrier reaches past what stands before the barrier's first place.
past_barrier :
    {R : Type 0} (b : ℕ) (pre post xs ys : List (Item R))
    → pre ++ barrier b ∷ post ≡ xs ++ ys
    → is_closed b (barriers pre) ≡ false
    → is_closed b (barriers xs) ≡ true
    → (zs : List (Item R)) × (xs ≡ pre ++ barrier b ∷ zs)
unfolding barriers
past_barrier b [] post [] ys e fresh there = cc
past_barrier b [] post (x ∷ xs) ys e fresh there = (xs, cc)
past_barrier b (p ∷ pre) post [] ys e fresh there = cc
past_barrier b (deliver r ∷ pre) post (deliver s ∷ xs) ys e fresh there =
    let (zs, same) = past_barrier b pre post xs ys (cc) fresh there in (zs, cc)
past_barrier b (deliver r ∷ pre) post (barrier a ∷ xs) ys e fresh there = cc
past_barrier b (barrier a ∷ pre) post (deliver s ∷ xs) ys e fresh there = cc
past_barrier b (barrier a ∷ pre) post (barrier c ∷ xs) ys e fresh there =
    let (zs, same) = past_barrier b pre post xs ys (cc) (ground arith) (ground arith) in (zs, cc)

in_flight_finished : {R : Type 0} (w : Worker R) → is_finished w ≡ true → in_flight w ≡ []
in_flight_finished w e = ground arith

module _ {R : Type 0} (size : ℤ) (h : History R) (reach : Reach (start size) h) where
  -- In every interleaving, once the barrier of a Flush is closed, every record accepted before it
  -- has been processed, in order, if no earlier barrier has its name.
  pub flush_delivers :
      (b : ℕ) (pre post : List (Item R))
      → h.accepted ≡ pre ++ barrier b ∷ post
      → is_closed b (barriers pre) ≡ false
      → is_closed b h.core.closed ≡ true
      → (later : List R) × (records h.processed ≡ records pre ++ later)
  unfolding records
  flush_delivers b pre post order fresh done =
      let i = Reach-Inv (start-Inv size) reach in
      let (zs, same) =
        past_barrier b pre post h.processed (in_flight h.core.worker ++ h.core.queue)
          (sym order ∙ i.fifo) fresh (rw i.closed at done) in
      (records zs, ap records same ∙ records-append pre (barrier b ∷ zs))

  -- In every interleaving, once the worker is done, everything accepted has been processed, in
  -- order, the queue is empty, and every submitted record is delivered, dropped or rejected.
  pub shutdown_delivers :
      is_finished h.core.worker ≡ true
      → (h.processed ≡ h.accepted)
        × (h.core.queue ≡ [])
        × (h.submitted ≡ length (records h.processed) + h.drops + h.rejections)
  shutdown_delivers done =
      let i = Reach-Inv (start-Inv size) reach in
      let all : h.processed ≡ h.accepted =
        ground (
          arith,
          append-nil h.processed,
          i.fifo,
          i.drained done,
          in_flight_finished h.core.worker,
        ) in
      (all, i.drained done, rw all i.counted)

  -- In every interleaving, the records processed are a prefix of the records accepted, and the
  -- queue keeps its bound.
  pub delivered_prefix :
      (later : List R) × (records h.accepted ≡ records h.processed ++ later)
      × (length h.core.queue ≤ h.core.size)
  delivered_prefix =
      let i = Reach-Inv (start-Inv size) reach in
      let rest = in_flight h.core.worker ++ h.core.queue in
      (records rest, ap records i.fifo ∙ records-append h.processed rest, i.room)

-- From the moment the core has left the running state, no action accepts a record or a barrier, or
-- brings the running state back.
pub closed_for_good :
    {R : Type 0} {h h' : History R}
    → Step h h'
    → is_running h.core.state ≡ false
    → (h'.accepted ≡ h.accepted) × (is_running h'.core.state ≡ false)
unfolding buffered_handle try_enqueue_barrier leave_running close_shutdown take_err worker_receive
    worker_process record_err worker_see_shutdown worker_finish
closed_for_good (accept h r e) off = ground arith
closed_for_good (drop h r e) off = ground arith
closed_for_good (reject h r e) off = ground arith
closed_for_good (flush h b ready e) off = ground arith
closed_for_good (flush_fails h b ready e) off = ground arith
closed_for_good (report h) off = ground arith
closed_for_good (leave h) off = ground arith
closed_for_good (tell h l) off = ground arith
closed_for_good (receive h e) off = ground arith
closed_for_good (process h item d outcome w e) off = ground arith
closed_for_good (see_shutdown h e) off = ground arith
closed_for_good (finish h e) off = ground arith
