-- ===== src/Http/Divergence.antt =====
-- The response recorder of pkg/logger/httpmw/middleware.go on informational statuses and on Flush.
use kit_logger.Base.{ℕ, ◌≤◌, ◌<◌, ◌≡◌, refl, ap, ◌∙◌, false, some, arith}
use kit_logger.Http.Writer.{Writer, NetHttp, wire_status}
use kit_logger.Http.Defs.{
  Program, new_recorder, status_code, logged_status, record_write_header, record_flush, finish,
  write_header, flush, run, flush_by,
}
use kit_logger.Http.Recording.{run_plain}

module _ {W : Type 0} {wr : Writer W} (net : NetHttp wr) where
  -- A status that is set after a Flush: it is logged, and the client has got 200.
  pub flush-status_code :
      (f : W → W)
      → wr.flush ≡ some f
      → (c : ℕ) (w : W) → 200 ≤ c
      → net.committed w ≡ false
      → (status_code (run wr (flush (write_header c finish)) (new_recorder w)).0 ≡ c)
        × (wire_status net (run wr (flush (write_header c finish)) (new_recorder w)).0.inner ≡ 200)
  unfolding run record_flush record_write_header status_code
  flush-status_code f there c w final free =
      let s = net.flushes f there in
      let (done, is) = net.final 200 w (omega arith) (omega arith) free in
      let (done', kept) = s.kept (wr.write_header 200 w) done in
      let first : f w ≡ f (wr.write_header 200 w) = ap (λ r. r.1) (s.implicit w free) in
      let key : wr.write_header c (flush_by wr.flush w) ≡ f (wr.write_header 200 w) =
        ap (λ o. wr.write_header c (flush_by o w)) there
        ∙ ap (wr.write_header c) first
        ∙ net.superfluous c (f (wr.write_header 200 w)) done' in
      (refl, rw key (rw done' (kept ∙ is)))

  -- A handler that sets an informational status and then a final one of at most 999, and then does
  -- anything: behind the recorder the final status is dropped, and the handler runs on as if it had not
  -- set it. If it does nothing more, it gives the client 200 behind the recorder and the final status
  -- without the middleware, and the informational status is the one to be logged.
  pub informational-status_code :
      (i c : ℕ) (rest : Program) (w : W)
      → 101 < i
      → i < 200
      → 200 ≤ c
      → c ≤ 999
      → net.committed w ≡ false
      → (run wr (write_header i (write_header c rest)) (new_recorder w)
          ≡ run wr (write_header i rest) (new_recorder w))
        × (let p = write_header i (write_header c finish) in
            (logged_status (run wr p (new_recorder w)).0 (run wr p (new_recorder w)).1 ≡ i)
            × (wire_status net (run wr p (new_recorder w)).0.inner ≡ 200)
            × (wire_status net (run_plain wr p w).0 ≡ c))
  unfolding run run_plain record_write_header status_code logged_status
  informational-status_code i c rest w low high final short free =
      let free' = net.informational i w low high free in
      let (done, is) = net.final c (wr.write_header i w) final short free' in
      (refl, (refl, rw free' refl, rw done is))
