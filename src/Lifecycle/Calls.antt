-- ===== src/Lifecycle/Calls.antt =====
-- What Flush and Shutdown of pkg/logger/lifecycle.go call, and the error that they return.
use kit_logger.Base.{false, Option, none, some, List, [], ◌∷◌, ◌≡◌, refl, ap, Bool-cases, inl, inr}
use kit_logger.Slog.{Context, background, Error, is_shutdown}
use kit_logger.Lifecycle.Defs.{
  Flusher, LifecycleGroup, translate_lifecycle_err, keep_first, or_background, flush_loop,
  flush_group, shutdown_loop,
}

-- The first error of a list of results.
unfoldable pub first_error : List (Option Error) → Option Error
first_error [] = none
first_error (none ∷ es) = first_error es
first_error (some e ∷ es) = some e

-- A call of `op` on every handler in order: the results, and the world after the last.
pub call_all :
    {S : Type 0}
    → (Flusher S → S → Option Error × S)
    → List (Flusher S)
    → S
    → List (Option Error) × S
call_all op [] w = ([], w)
call_all op (f ∷ fs) w = let (e, v) = op f w in let (es, u) = call_all op fs v in (e ∷ es, u)

keep_first-first_error :
    (first e : Option Error) (es : List (Option Error))
    → keep_first
        (keep_first first (translate_lifecycle_err e))
        (translate_lifecycle_err (first_error es))
      ≡ keep_first first (translate_lifecycle_err (first_error (e ∷ es)))
unfolding first_error translate_lifecycle_err
keep_first-first_error (some x) e es = refl
keep_first-first_error none none es = refl
keep_first-first_error none (some e) es = elim (Bool-cases (is_shutdown e)) [
  | inl y ↦ rw y refl
  | inr n ↦ rw n refl
]

keep_first-none : (first : Option Error) → first ≡ keep_first first (translate_lifecycle_err none)
unfolding translate_lifecycle_err
keep_first-none none = refl
keep_first-none (some e) = refl

module _ {S : Type 0} where
  flush_loop-call_all :
      (first : Option Error) (fs : List (Flusher S)) (ctx : Context) (w : S)
      → flush_loop first fs ctx w ≡ (
        keep_first first
            (translate_lifecycle_err (first_error (call_all (λ f. f.flush ctx) fs w).0)),
        (call_all (λ f. f.flush ctx) fs w).1,
      )
  unfolding flush_loop call_all first_error
  flush_loop-call_all first [] ctx w = ap (λ e. (e, w)) (keep_first-none first)
  flush_loop-call_all first (f ∷ fs) ctx w =
      rw
        (flush_loop-call_all (keep_first first (translate_lifecycle_err (f.flush ctx w).0)) fs ctx
          (f.flush ctx w).1)
        (ap (λ e. (e, (call_all (λ f. f.flush ctx) fs (f.flush ctx w).1).1))
          (keep_first-first_error first (f.flush ctx w).0
            (call_all (λ f. f.flush ctx) fs (f.flush ctx w).1).0))

  pub shutdown_loop-call_all :
      (first : Option Error) (fs : List (Flusher S)) (w : S)
      → shutdown_loop first fs w ≡ (
        keep_first first
            (translate_lifecycle_err (first_error (call_all (λ f. f.shutdown background) fs w).0)),
        (call_all (λ f. f.shutdown background) fs w).1,
      )
  unfolding shutdown_loop call_all first_error
  shutdown_loop-call_all first [] w = ap (λ e. (e, w)) (keep_first-none first)
  shutdown_loop-call_all first (f ∷ fs) w =
      let (e, v) = f.shutdown background w in
      rw (shutdown_loop-call_all (keep_first first (translate_lifecycle_err e)) fs v) (
        ap (λ e. (e, (call_all (λ f. f.shutdown background) fs v).1))
          (keep_first-first_error first e (call_all (λ f. f.shutdown background) fs v).0))

  -- A Flush before Shutdown calls Flush on every handler, in order and once, whatever they return,
  -- with the background context for a nil one; its result is the first error that one of them
  -- returned, a shutdown error of a handler as the logger's.
  pub flush_group-call_all :
      (g : LifecycleGroup S) (ctx : Option Context) (w : S)
      → g.stopping ≡ false
      → flush_group (some g) ctx w ≡ (
        translate_lifecycle_err
            (first_error (call_all (λ f. f.flush (or_background ctx)) g.handlers w).0),
        (call_all (λ f. f.flush (or_background ctx)) g.handlers w).1,
      )
  unfolding flush_group
  flush_group-call_all g ctx w off =
      rw off (flush_loop-call_all none g.handlers (or_background ctx) w)
