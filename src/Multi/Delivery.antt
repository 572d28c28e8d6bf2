-- ===== src/Multi/Delivery.antt =====
-- Which children see a record, and which errors come back.
use kit_logger.Base.{
  ℕ, suc, ◌≡◌, ◌↔◌, refl, ap, true, false, none, some, List, [], ◌∷◌, Bool-cases, Option-cases, inl,
  inr,
}
use kit_logger.Slog.{Context, Record, Handler, Error, child, Errors, none_left, and_then, join}
use kit_logger.Multi.Defs.{multi_loop, multi_handle}

module _ {H S : Type 0} (base : Handler H S) (ctx : Context) (r : Record) where
  -- A delivery: the record passes along the children, each at its turn and once, and a child whose
  -- level is off at that moment is left out. The list holds each error with the child's index.
  pub data Delivers : ℕ → List H → S → List (ℕ × Error) → S → Type 0 where
    end : {i : ℕ} {w : S} → Delivers i [] w [] w
    skip :
        {i : ℕ} {h : H} {hs : List H} {w w' : S} {es : List (ℕ × Error)}
        → base.enabled h ctx r.level w ≡ false
        → Delivers (suc i) hs w es w'
        → Delivers i (h ∷ hs) w es w'
    delivered :
        {i : ℕ} {h : H} {hs : List H} {w w' w'' : S} {es : List (ℕ × Error)}
        → base.enabled h ctx r.level w ≡ true
        → base.handle h ctx r w ≡ (none, w')
        → Delivers (suc i) hs w' es w''
        → Delivers i (h ∷ hs) w es w''
    failed :
        {i : ℕ} {h : H} {hs : List H} {w w' w'' : S} {es : List (ℕ × Error)} {e : Error}
        → base.enabled h ctx r.level w ≡ true
        → base.handle h ctx r w ≡ (some e, w')
        → Delivers (suc i) hs w' es w''
        → Delivers i (h ∷ hs) w ((i, e) ∷ es) w''

  -- the wrapped errors of the children
  pub wrapped : List (ℕ × Error) → Errors
  wrapped [] = none_left
  wrapped ((i, e) ∷ es) = and_then (child i e) (wrapped es)

  -- The loop delivers in that sense, and returns the errors of all children in order.
  pub multi_loop-Delivers :
      (i : ℕ) (hs : List H) (w : S)
      → (es : List (ℕ × Error)) × Delivers i hs w es (multi_loop base i hs ctx r w).1
        × ((multi_loop base i hs ctx r w).0 ≡ wrapped es)
  unfolding multi_loop wrapped
  multi_loop-Delivers i [] w = ([], end, refl)
  multi_loop-Delivers i (h ∷ hs) w = elim (Bool-cases (base.enabled h ctx r.level w)) [
    | inr off ↦
        let (es, d, e) = multi_loop-Delivers (suc i) hs w in (es, rw off (skip off d), rw off e)
    | inl on ↦
        let w' = (base.handle h ctx r w).1 in
        let (es, d, e) = multi_loop-Delivers (suc i) hs w' in
        elim (Option-cases (base.handle h ctx r w).0) [
          | inl fine ↦ (es, rw on (delivered on (ap (λ o. (o, w')) fine) d), rw (on, fine) e)
          | inr (err, bad) ↦ (
            (i, err) ∷ es,
            rw on (failed on (ap (λ o. (o, w')) bad) d),
            rw (on, bad) (ap (and_then (child i err)) e),
          )
        ]
  ]

  join-wrapped : (es : List (ℕ × Error)) → (join (wrapped es) ≡ none) ↔ (es ≡ [])
  unfolding wrapped
  join-wrapped [] = (λ e. refl, λ e. refl)
  join-wrapped (e ∷ es) = (λ p. cc, λ p. cc)

  -- `Handle` passes the record to every child that is enabled at its turn, in order, and returns no
  -- error exactly if none of them failed.
  pub multi_handle-Delivers :
      (hs : List H) (w : S)
      → (es : List (ℕ × Error)) × Delivers 0 hs w es (multi_handle base hs ctx r w).1
        × ((multi_handle base hs ctx r w).0 ≡ join (wrapped es))
        × (((multi_handle base hs ctx r w).0 ≡ none) ↔ (es ≡ []))
  unfolding multi_handle
  multi_handle-Delivers hs w =
      let (es, d, e) = multi_loop-Delivers 0 hs w in (es, d, ap join e, rw e (join-wrapped es))
