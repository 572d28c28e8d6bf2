-- ===== src/Http/Recording.antt =====
-- The response recorder of pkg/logger/httpmw/middleware.go, beside the handler's own run and the status
-- that the client gets.
use kit_logger.Base.{
  ℕ, ◌≤◌, ◌≡◌, ◌≢◌, refl, sym, ap, subst, ◌∙◌, true, false, Option, none, some, List, [], arith,
  if◌then◌else◌, Bool-cases, inl, inr,
}
use kit_logger.Http.Writer.{Writer, Written, Sends, NetHttp, wire_status}
use kit_logger.Http.Defs.{
  Recorder, new_recorder, status_code, record_write_header, ensure_header, record_write,
  record_flush, record_read_from, Panic, Program, finish, raise, write_header, write, read_from,
  flush, run, logged_status, counted, read_by, flush_by,
}

-- All statuses that the handler sets are final ones of three digits, and it reads from no empty
-- source. Its Writes may be empty.
abbrev pub IsFinal : Program → Type 0
IsFinal finish = Unit
IsFinal (raise p) = Unit
IsFinal (write_header c rest) = (200 ≤ c) × (c ≤ 999) × IsFinal rest
IsFinal (write b rest) = (r : Written) → IsFinal (rest r)
IsFinal (read_from b rest) = (b ≢ []) × ((r : Written) → IsFinal (rest r))
IsFinal (flush rest) = IsFinal rest

-- The handler does not flush.
abbrev pub NoFlush : Program → Type 0
NoFlush finish = Unit
NoFlush (raise p) = Unit
NoFlush (write_header c rest) = NoFlush rest
NoFlush (write b rest) = (r : Written) → NoFlush (rest r)
NoFlush (read_from b rest) = (r : Written) → NoFlush (rest r)
NoFlush (flush rest) = ⊥

module _ {W : Type 0} (wr : Writer W) where
  -- the handler without the middleware, on the writer itself
  unfoldable pub run_plain : Program → W → W × Option Panic
  run_plain finish w = (w, none)
  run_plain (raise p) w = (w, some p)
  run_plain (write_header c rest) w = run_plain rest (wr.write_header c w)
  run_plain (write b rest) w = let (r, w') = wr.write b w in run_plain (rest r) w'
  run_plain (read_from b rest) w =
      let (r, w') = read_by wr.read_from wr.copy b w in run_plain (rest r) w'
  run_plain (flush rest) w = run_plain rest (flush_by wr.flush w)

module _ {W : Type 0} {wr : Writer W} (net : NetHttp wr) where
  -- A header that the recorder has recorded has been sent.
  Agrees : Recorder W → Type 0
  Agrees rr = rr.wrote_header ≡ true → net.committed rr.inner ≡ true

  -- The recorder knows whether a header has been sent, and its status.
  record Tracks (rr : Recorder W) : Type 0 where
    same : rr.wrote_header ≡ net.committed rr.inner
    status : rr.wrote_header ≡ true → rr.status ≡ net.sent rr.inner

  module _ {R : Type 0} (op : W → R × W) (s : Sends wr net.committed net.sent op)
      (rr : Recorder W) where
    ensured-op :
        Agrees rr
        → (op (ensure_header wr rr).inner ≡ op rr.inner) × (net.committed (op rr.inner).1 ≡ true)
    unfolding Agrees record_write_header
    ensured-op agrees = elim (Bool-cases rr.wrote_header) [
      | inl on ↦ rw on (refl, (s.kept rr.inner (agrees on)).0)
      | inr off ↦ elim (Bool-cases (net.committed rr.inner)) [
        | inl sent ↦ rw off (ap op (net.superfluous 200 rr.inner sent), (s.kept rr.inner sent).0)
        | inr free ↦
            let (done, _) = net.final 200 rr.inner (omega arith) (omega arith) free in
            let e = s.implicit rr.inner free in
            rw off (sym e, rw e (s.kept (wr.write_header 200 rr.inner) done).0)
      ]
    ]

    ensured-Tracks :
        Tracks rr
        → (net.committed (op (ensure_header wr rr).inner).1 ≡ true)
          × ((ensure_header wr rr).wrote_header ≡ true)
          × ((ensure_header wr rr).status ≡ net.sent (op (ensure_header wr rr).inner).1)
    unfolding record_write_header
    ensured-Tracks t = elim (Bool-cases rr.wrote_header) [
      | inl on ↦
          let (done, kept) = s.kept rr.inner (sym t.same ∙ on) in
          rw on (done, refl, t.status on ∙ sym kept)
      | inr off ↦
          let (done, is) = net.final 200 rr.inner (omega arith) (omega arith) (sym t.same ∙ off) in
          let (done', kept) = s.kept (wr.write_header 200 rr.inner) done in
          rw off (done', refl, sym is ∙ sym kept)
    ]

    ensured-on : (ensure_header wr rr).wrote_header ≡ true
    unfolding record_write_header
    ensured-on = ground arith

  reads-Sends :
      (o : Option (List ℕ → W → Written × W))
      → wr.read_from ≡ o
      → (b : List ℕ) → b ≢ []
      → Sends wr net.committed net.sent (read_by o wr.copy b)
  reads-Sends none e b some_bytes = net.copies b some_bytes
  reads-Sends (some f) e b some_bytes = net.reads f e b some_bytes

  flush-committed :
      (o : Option (W → W))
      → wr.flush ≡ o
      → (w : W) → net.committed w ≡ true
      → (net.committed (flush_by o w) ≡ true)
  flush-committed none e w c = c
  flush-committed (some f) e w c = ((net.flushes f e).kept w c).0

  header-Agrees :
      (c : ℕ) (rr : Recorder W)
      → 200 ≤ c
      → c ≤ 999
      → Agrees rr
      → ((record_write_header wr c rr).inner ≡ wr.write_header c rr.inner)
        × Agrees (record_write_header wr c rr)
  unfolding record_write_header Agrees
  header-Agrees c rr final short agrees = elim (Bool-cases rr.wrote_header) [
    | inl on ↦ rw on (sym (net.superfluous c rr.inner (agrees on)), λ _. agrees on)
    | inr off ↦ elim (Bool-cases (net.committed rr.inner)) [
      | inl sent ↦ rw off (refl, λ _. rw (net.superfluous c rr.inner sent) sent)
      | inr free ↦ rw off (refl, λ _. (net.final c rr.inner final short free).0)
    ]
  ]

  -- the two runs of a handler end with the same writer and the same panic
  abbrev SameRun : Recorder W × Option Panic → W × Option Panic → Type 0
  SameRun (rr, p) (w, q) = (rr.inner ≡ w) × (p ≡ q)

  run-Agrees :
      (p : Program) (rr : Recorder W) (w : W)
      → rr.inner ≡ w
      → IsFinal p
      → Agrees rr
      → SameRun (run wr p rr) (run_plain wr p w)
  unfolding run run_plain record_write record_flush record_read_from Agrees
  run-Agrees finish rr w e f a = (e, refl)
  run-Agrees (raise p) rr w e f a = (e, refl)
  run-Agrees (write_header c rest) rr w e f a =
      let (e', a') = header-Agrees c rr f.0 f.1 a in
      run-Agrees rest (record_write_header wr c rr) (wr.write_header c w)
        (e' ∙ ap (wr.write_header c) e) f.2 a'
  run-Agrees (write b rest) rr w e f a =
      let (q, c) = ensured-op (wr.write b) (net.writes b) rr a in
      let q' = q ∙ ap (wr.write b) e in
      let (r, w') = wr.write b w in
      subst
        (λ z.
          SameRun (run wr (rest z.0) (counted (ensure_header wr rr) z).1)
            (run_plain wr (rest r) w'))
        (sym q')
        (run-Agrees (rest r) (counted (ensure_header wr rr) (r, w')).1 w' refl (f r)
          (λ _. subst (λ v. net.committed (wr.write b v).1 ≡ true) e c))
  run-Agrees (read_from b rest) rr w e f a =
      let op = read_by wr.read_from wr.copy b in
      let (q, c) = ensured-op op (reads-Sends wr.read_from refl b f.0) rr a in
      let q' = q ∙ ap op e in
      let (r, w') = op w in
      subst
        (λ z.
          SameRun (run wr (rest z.0) (counted (ensure_header wr rr) z).1)
            (run_plain wr (rest r) w'))
        (sym q')
        (run-Agrees (rest r) (counted (ensure_header wr rr) (r, w')).1 w' refl (f.1 r)
          (λ _. subst (λ v. net.committed (op v).1 ≡ true) e c))
  run-Agrees (flush rest) rr w e f a =
      run-Agrees rest (record_flush wr rr) (flush_by wr.flush w) (ap (flush_by wr.flush) e) f
        (λ on. flush-committed wr.flush refl rr.inner (a on))

  -- A handler that sets final statuses of at most 999 and reads from no empty source does to the
  -- client, behind the recorder, what it does without the middleware: the writer ends the same, and so
  -- does the handler, with the same panic or none.
  pub run-run_plain :
      (p : Program) (w : W)
      → IsFinal p
      → ((run wr p (new_recorder w)).0.inner ≡ (run_plain wr p w).0)
        × ((run wr p (new_recorder w)).1 ≡ (run_plain wr p w).1)
  unfolding Agrees
  run-run_plain p w f = run-Agrees p (new_recorder w) w refl f (λ on. cc)

  header-Tracks :
      (c : ℕ) (rr : Recorder W)
      → 200 ≤ c
      → c ≤ 999
      → Tracks rr
      → Tracks (record_write_header wr c rr)
  unfolding record_write_header
  header-Tracks c rr final short t = elim (Bool-cases rr.wrote_header) [
    | inl on ↦ rw on (record { same = sym on ∙ t.same; status = λ _. t.status on })
    | inr off ↦
        let (done, is) = net.final c rr.inner final short (sym t.same ∙ off) in
        rw off (record { same = sym done; status = λ _. sym is })
  ]

  run-Tracks :
      (p : Program) (rr : Recorder W) → IsFinal p → NoFlush p → Tracks rr → Tracks (run wr p rr).0
  unfolding run record_write record_read_from
  run-Tracks finish rr f n t = t
  run-Tracks (raise p) rr f n t = t
  run-Tracks (write_header c rest) rr f n t =
      run-Tracks rest (record_write_header wr c rr) f.2 n (header-Tracks c rr f.0 f.1 t)
  run-Tracks (write b rest) rr f n t =
      let (done, on, is) = ensured-Tracks (wr.write b) (net.writes b) rr t in
      let (r, _) = wr.write b (ensure_header wr rr).inner in
      run-Tracks (rest r) _ (f r) (n r) (record { same = on ∙ sym done; status = λ _. is })
  run-Tracks (read_from b rest) rr f n t =
      let op = read_by wr.read_from wr.copy b in
      let (done, on, is) = ensured-Tracks op (reads-Sends wr.read_from refl b f.0) rr t in
      let (r, _) = op (ensure_header wr rr).inner in
      run-Tracks (rest r) _ (f.1 r) (n r) (record { same = on ∙ sym done; status = λ _. is })
  run-Tracks (flush rest) rr f n t = absurd n

  status_code-wire_status :
      (rr : Recorder W) → Tracks rr → status_code rr ≡ wire_status net rr.inner
  unfolding status_code
  status_code-wire_status rr t = elim (Bool-cases rr.wrote_header) [
    | inl on ↦ rw (on, sym t.same ∙ on) (t.status on)
    | inr off ↦ rw (off, sym t.same ∙ off) refl
  ]

  -- For a handler that sets final statuses of at most 999, reads from no empty source and does not flush, on a writer that has sent nothing, the
  -- recorder's status is the one that the client gets.
  pub run-status_code :
      (p : Program) (w : W)
      → IsFinal p
      → NoFlush p
      → net.committed w ≡ false
      → status_code (run wr p (new_recorder w)).0
        ≡ wire_status net (run wr p (new_recorder w)).0.inner
  run-status_code p w f n free =
      status_code-wire_status _
        (run-Tracks p (new_recorder w) f n (record { same = sym free; status = λ on. cc }))

  -- The status of a request, by the handler's own run: the one that the client gets, or 500 if the
  -- handler panics before a header is sent.
  unfoldable pub expected_status : W × Option Panic → ℕ
  expected_status (w, none) = wire_status net w
  expected_status (w, some p) = if net.committed w then net.sent w else 500

  logged_status-expected_status :
      (rr : Recorder W) (w : W) (o : Option Panic)
      → Tracks rr
      → rr.inner ≡ w
      → logged_status rr o ≡ expected_status (w, o)
  unfolding logged_status expected_status status_code
  logged_status-expected_status rr w o t e =
      subst (λ v. logged_status rr o ≡ expected_status (v, o)) e (own o)
    where
      own : (o : Option Panic) → logged_status rr o ≡ expected_status (rr.inner, o)
      own none = status_code-wire_status rr t
      own (some p) = elim (Bool-cases rr.wrote_header) [
        | inl on ↦ rw (on, sym t.same ∙ on) (t.status on)
        | inr off ↦ rw (off, sym t.same ∙ off) refl
      ]

  -- For such a handler the logged status is the expected one.
  pub run-logged_status :
      (p : Program) (w : W)
      → IsFinal p
      → NoFlush p
      → net.committed w ≡ false
      → logged_status (run wr p (new_recorder w)).0 (run wr p (new_recorder w)).1
        ≡ expected_status (run_plain wr p w)
  run-logged_status p w f n free =
      let (e, q) = run-run_plain p w f in
      logged_status-expected_status _ (run_plain wr p w).0 _
        (run-Tracks p (new_recorder w) f n (record { same = sym free; status = λ on. cc })) e
      ∙ ap (λ o. expected_status ((run_plain wr p w).0, o)) q
