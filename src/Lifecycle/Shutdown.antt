-- ===== src/Lifecycle/Shutdown.antt =====
-- What holds of the shared group of pkg/logger/lifecycle.go under any interleaving of calls.
use mathlib.Core.Option.{some-injective}
use mathlib.Core.List.{append-nil, append_assoc}
use kit_logger.Base.{
  ◌+◌, Bool, true, false, Option, none, some, List, [], ◌∷◌, ◌++◌, ◌≡◌, inl, inr, refl, ap, sym,
  subst, ◌∙◌, length, length-append, Bool-cases, if◌then◌else◌,
}
use kit_logger.Slog.{Error, is_shutdown}
use kit_logger.Lifecycle.Defs.{
  Flusher, translate_lifecycle_err, keep_first, reject_record, new_lifecycle_group, start_shutdown,
}
use kit_logger.Lifecycle.Calls.{first_error}
use kit_logger.Lifecycle.Steps.{
  Drain, idle, calling, inside, stored, over, System, initial, rejected_in, begin_shutdown,
  drain_from, Step, log_enters, log_leaves, log_rejected, flush_enters, flush_goes_on, flush_leaves,
  shutdown_called, drains, Reach, stay, and_step,
}

-- the error of a shutdown whose handlers returned these results
abbrev pub result_of : List (Option Error) → Option Error
result_of results = translate_lifecycle_err (first_error results)

result_of-snoc :
    (results : List (Option Error)) (e : Option Error)
    → keep_first (result_of results) (translate_lifecycle_err e) ≡ result_of (results ++ e ∷ [])
unfolding first_error translate_lifecycle_err
result_of-snoc [] none = refl
result_of-snoc [] (some e) = refl
result_of-snoc (none ∷ results) e = result_of-snoc results e
result_of-snoc (some x ∷ results) e = elim (Bool-cases (is_shutdown x)) [
  | inl y ↦ rw y refl
  | inr n ↦ rw n refl
]

module _ {S : Type 0} where
  -- What is so while the goroutine is at a point: the flags and the error of the group, the handlers
  -- whose Shutdown was called, and the results.
  unfoldable pub At :
      List (Flusher S)
      → Bool
      → Bool
      → Bool
      → Option Error
      → List (Flusher S)
      → List (Option Error)
      → Drain S
      → Type 0
  At fs started stopping completed err called results idle =
      (started ≡ false) × (stopping ≡ false) × (completed ≡ false) × (called ≡ []) × (results ≡ [])
  At fs started stopping completed err called results (calling first rest) =
      (started ≡ true)
      × (stopping ≡ true)
      × (completed ≡ false)
      × (called ++ rest ≡ fs)
      × (first ≡ result_of results)
      × (length called ≡ length results)
  At fs started stopping completed err called results (inside first rest) =
      (started ≡ true)
      × (stopping ≡ true)
      × (completed ≡ false)
      × (called ++ rest ≡ fs)
      × (first ≡ result_of results)
      × (length called ≡ length results + 1)
  At fs started stopping completed err called results stored =
      (started ≡ true)
      × (stopping ≡ true)
      × (completed ≡ false)
      × (called ≡ fs)
      × (err ≡ result_of results)
      × (length called ≡ length results)
  At fs started stopping completed err called results over =
      (started ≡ true)
      × (stopping ≡ true)
      × (called ≡ fs)
      × (err ≡ result_of results)
      × (length called ≡ length results)

  pub record Inv (fs : List (Flusher S)) (s : System S) : Type 0 where
    pub handlers : s.group.handlers ≡ fs
    pub at :
        At fs s.group.started s.group.stopping s.group.completed s.group.err s.called s.results
          s.drain

  pub initial-Inv : (fs : List (Flusher S)) → Inv fs (initial fs)
  unfolding At new_lifecycle_group
  initial-Inv fs = record { handlers = refl; at = (refl, refl, refl, refl, refl) }

  -- an action of the goroutine
  drain_from-Inv :
      (fs : List (Flusher S)) (e : Option Error) (d : Drain S) (s s' : System S)
      → s.group.handlers ≡ fs
      → At fs s.group.started s.group.stopping s.group.completed s.group.err s.called s.results d
      → drain_from e d s ≡ some s'
      → Inv fs s'
  unfolding At drain_from
  drain_from-Inv fs e idle s s' hs at q = absurd (cc)
  drain_from-Inv fs e (calling first []) s s' hs (on, st, go, whole, is, count) q =
      subst (Inv fs) (some-injective _ _ q)
        (record { handlers = hs; at = (on, st, go, sym (append-nil s.called) ∙ whole, is, count) })
  drain_from-Inv fs e (calling first (f ∷ rest)) s s' hs (on, st, go, whole, is, count) q =
      subst (Inv fs) (some-injective _ _ q) (record {
        handlers = hs;
        at = (
          on,
          st,
          go,
          append_assoc s.called (f ∷ []) rest ∙ whole,
          is,
          length-append s.called (f ∷ []) ∙ ap (λ n. n + 1) count,
        );
      })
  drain_from-Inv fs e (inside first rest) s s' hs (on, st, go, whole, is, count) q =
      subst (Inv fs) (some-injective _ _ q) (record {
        handlers = hs;
        at = (
          on,
          st,
          go,
          whole,
          ap (λ x. keep_first x (translate_lifecycle_err e)) is ∙ result_of-snoc s.results e,
          count ∙ sym (length-append s.results (e ∷ [])),
        );
      })
  drain_from-Inv fs e stored s s' hs (on, st, go, whole, is, count) q =
      subst (Inv fs) (some-injective _ _ q)
        (record { handlers = hs; at = (on, st, whole, is, count) })
  drain_from-Inv fs e over s s' hs at q = absurd (cc)

  begins :
      (fs : List (Flusher S)) (d : Drain S) (s : System S)
      → s.group.handlers ≡ fs
      → s.group.started ≡ false
      → At fs s.group.started s.group.stopping s.group.completed s.group.err s.called s.results d
      → At fs true true s.group.completed s.group.err s.called s.results
          (calling none s.group.handlers)
  unfolding At first_error translate_lifecycle_err
  begins fs idle s hs off (on, st, go, called, results) = (
    refl,
    refl,
    go,
    ap (λ c. c ++ s.group.handlers) called ∙ hs,
    ap result_of (sym results),
    ap length called ∙ sym (ap length results),
  )
  begins fs (calling first rest) s hs off at = absurd (let on = at.0 in cc)
  begins fs (inside first rest) s hs off at = absurd (let on = at.0 in cc)
  begins fs stored s hs off at = absurd (let on = at.0 in cc)
  begins fs over s hs off at = absurd (let on = at.0 in cc)

  begin_shutdown-Inv : (fs : List (Flusher S)) (s : System S) → Inv fs s → Inv fs (begin_shutdown s)
  unfolding begin_shutdown start_shutdown
  begin_shutdown-Inv fs s i =
      let begun : System S = record s {
        group = record s.group { started = true; stopping = true };
        drain = calling none s.group.handlers;
      } in
      let by : Bool → System S = (λ b. if b then s else record s {
        group = if b then s.group else record s.group { started = true; stopping = true };
        drain = calling none s.group.handlers;
      }) in
      elim (Bool-cases s.group.started) [
        | inl on ↦ subst (Inv fs) (sym (ap by on)) i
        | inr off ↦
            subst (Inv fs) (sym (ap by off))
              (record { handlers = i.handlers; at = begins fs s.drain s i.handlers off i.at })
      ]

  Step-Inv : {fs : List (Flusher S)} {s s' : System S} → Step s s' → Inv fs s → Inv fs s'
  unfolding rejected_in reject_record
  Step-Inv (log_enters free) i = record { handlers = i.handlers; at = i.at }
  Step-Inv (log_leaves n e) i = record { handlers = i.handlers; at = i.at }
  Step-Inv (log_rejected shut) i = record { handlers = i.handlers; at = i.at }
  Step-Inv (flush_enters ctx free) i = record { handlers = i.handlers; at = i.at }
  Step-Inv (flush_goes_on before after c f rest e q r) i = record {
    handlers = i.handlers;
    at = i.at;
  }
  Step-Inv (flush_leaves before after c q r) i = record { handlers = i.handlers; at = i.at }
  Step-Inv {fs = fs} {s = s} shutdown_called i = begin_shutdown-Inv fs s i
  Step-Inv {fs = fs} {s = s} {s' = s'} (drains e q) i =
      drain_from-Inv fs e s.drain s s' i.handlers i.at q

  pub Reach-Inv : {fs : List (Flusher S)} {s s' : System S} → Reach s s' → Inv fs s → Inv fs s'
  Reach-Inv stay i = i
  Reach-Inv (and_step r st) i = Step-Inv st (Reach-Inv r i)

  -- The handlers whose Shutdown was called, those that are left, and what the end of the shutdown says.
  abbrev CalledOnce : List (Flusher S) → System S → List (Flusher S) → Type 0
  CalledOnce fs s rest =
      (s.called ++ rest ≡ fs)
      × (s.group.completed ≡ true
          → (rest ≡ [])
            × (length s.results ≡ length fs)
            × (s.group.err ≡ translate_lifecycle_err (first_error s.results)))

  called_once :
      (fs : List (Flusher S)) (d : Drain S) (s : System S)
      → At fs s.group.started s.group.stopping s.group.completed s.group.err s.called s.results d
      → (rest : List (Flusher S)) × CalledOnce fs s rest
  unfolding At
  called_once fs idle s (on, st, go, called, results) =
      (fs, (ap (λ c. c ++ fs) called, λ c. absurd (cc)))
  called_once fs (calling first rest) s (on, st, go, whole, is, count) =
      (rest, (whole, λ c. absurd (cc)))
  called_once fs (inside first rest) s (on, st, go, whole, is, count) =
      (rest, (whole, λ c. absurd (cc)))
  called_once fs stored s (on, st, go, whole, is, count) =
      ([], (append-nil s.called ∙ whole, λ c. absurd (cc)))
  called_once fs over s (on, st, whole, is, count) =
      ([], (append-nil s.called ∙ whole, λ c. (refl, sym count ∙ ap length whole, is)))

  -- In every interleaving of log calls, Flushes and Shutdowns on a new group, whatever the handlers do
  -- and return: the shutdown calls each handler at most once, in their order. Once it has completed it
  -- has called each of them, each call has returned, and the stored result is the first error that one
  -- of those calls returned, a shutdown error of a handler as the logger's.
  pub shutdown-once :
      (fs : List (Flusher S)) {s : System S}
      → Reach (initial fs) s
      → (rest : List (Flusher S)) × (s.called ++ rest ≡ fs)
        × (s.group.completed ≡ true
            → (rest ≡ [])
              × (length s.results ≡ length fs)
              × (s.group.err ≡ translate_lifecycle_err (first_error s.results)))
  shutdown-once fs {s = s} r =
      let i = Reach-Inv r (initial-Inv fs) in
      let (rest, (whole, ended)) = called_once fs s.drain s i.at in (rest, whole, ended)
