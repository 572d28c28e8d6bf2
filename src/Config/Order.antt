-- ===== src/Config/Order.antt =====
-- The order of the handlers that pkg/logger/config.go builds, and of those that it flushes.
use kit_logger.Base.{
  ℕ, ◌+◌, ◌≤◌, ◌<◌, ◌≡◌, refl, Bool, true, false, not, Option, none, some, List, [], ◌∷◌, arith,
}
use kit_logger.Base.Int.{pos, ltb_ℤ}
use kit_logger.Sampling.{Floats}
use kit_logger.Lifecycle.{Shape}
use kit_logger.Config.Types.{Words}
use kit_logger.Config.Defs.{Config, is_empty}
use kit_logger.Config.Assembly.{
  Stage, dedup_stage, filter_stage, source_stage, sampling_stage, metrics_stage, buffered_stage,
  hook_stage, context_stage, Chain, wrap_when, wrap_some, apply_metrics, filtered, decorate,
  sink_of, assemble_default, assemble_by, assemble, in_context, new_with_error,
}

-- the place of a stage, from the inside
abbrev pub rank : {F : Type 0} → Stage F → ℕ
rank (dedup_stage a) = 1
rank (filter_stage r m) = 2
rank source_stage = 3
rank (sampling_stage c) = 4
rank (metrics_stage m) = 5
rank (buffered_stage n) = 6
rank (hook_stage h) = 7
rank (context_stage h) = 8

-- From the outermost stage, each one has its place further in than the one before, and below `n`.
pub data IsOrdered {F : Type 0} : ℕ → List (Stage F) → Type 0 where
  at_end : {n : ℕ} → IsOrdered n []
  inside :
      {n : ℕ} {s : Stage F} {ss : List (Stage F)}
      → rank s < n
      → IsOrdered (rank s) ss
      → IsOrdered n (s ∷ ss)

module _ {F : Type 0} where
  -- Chains without a stage outside the place `n`.
  abbrev Below : ℕ → Chain F → Type 0
  Below n c = IsOrdered n c.stages

  below-raise : {n m : ℕ} {ss : List (Stage F)} → n ≤ m → IsOrdered n ss → IsOrdered m ss
  below-raise le at_end = at_end
  below-raise le (inside lt rest) = inside (omega arith) rest

  wrap_when-Below :
      (b : Bool) (s : Stage F) (c : Chain F)
      → Below (rank s) c
      → Below (rank s + 1) (wrap_when b s c)
  wrap_when-Below true s c o = inside (omega arith) o
  wrap_when-Below false s c o = below-raise (omega arith) o

  apply_metrics-Below :
      (m : Option (Option ℕ × Option ℕ)) (c : Chain F) → Below 5 c → Below 6 (apply_metrics m c).0
  unfolding apply_metrics
  apply_metrics-Below none c o = below-raise (omega arith) o
  apply_metrics-Below (some (w, some e)) c o = below-raise (omega arith) o
  apply_metrics-Below (some (none, none)) c o = below-raise (omega arith) o
  apply_metrics-Below (some (some m, none)) c o = inside (omega arith) o

  wrap_some-Below :
      {A : Type 0} (o : Option A) (f : A → Stage F) (n : ℕ) (c : Chain F)
      → ((x : A) → rank (f x) ≡ n)
      → Below n c
      → Below (n + 1) (wrap_some o f c)
  wrap_some-Below none f n c e below = below-raise (omega arith) below
  wrap_some-Below (some x) f n c e below =
      inside (let e' = e x in omega arith) (let e' = e x in below-raise (omega arith) below)

  in_context-Below : (o : Option (Option ℕ)) (c : Chain F) → Below 8 c → Below 9 (in_context o c)
  unfolding in_context
  in_context-Below none c o = below-raise (omega arith) o
  in_context-Below (some none) c o = below-raise (omega arith) o
  in_context-Below (some (some h)) c o = inside (omega arith) o

  module _ (ws : Words) (cfg : Config F) where
    filtered-Below : (c : Chain F) → c.stages ≡ [] → Below 5 (filtered ws cfg c)
    unfolding filtered
    filtered-Below c bare = wrap_when-Below cfg.sampling.enabled (sampling_stage _) _ (
        wrap_when-Below cfg.add_source source_stage _ (
          wrap_when-Below (not (is_empty cfg.filter_rules))
            (filter_stage cfg.filter_rules cfg.filter_mode) _
            (inside (omega arith) (rw bare at_end))))

    decorate-Below : (c : Chain F) → c.stages ≡ [] → Below 8 (decorate ws cfg c).0
    unfolding decorate
    decorate-Below c bare =
        wrap_some-Below cfg.hook hook_stage 7 _ (λ h. refl)
          (wrap_when-Below (ltb_ℤ (pos 0) cfg.buffer_size) (buffered_stage cfg.buffer_size) _
            (apply_metrics-Below cfg.metrics_handler _ (filtered-Below c bare)))

    assemble_default-Below :
        (shape : ℕ → Shape) (o : Option ℕ) → Below 8 (assemble_default ws shape cfg o).0
    unfolding assemble_default
    assemble_default-Below shape (some s) = decorate-Below _ refl
    assemble_default-Below shape none = decorate-Below _ refl

    assemble_by-Below : (shape : ℕ → Shape) (o : Option ℕ) → Below 8 (assemble_by ws shape cfg o).0
    unfolding assemble_by
    assemble_by-Below shape (some h) = at_end
    assemble_by-Below shape none = assemble_default-Below shape (sink_of cfg.sink cfg.handler)

    -- The chain has each stage at most once and in the documented order, from the outside: ContextHandler,
    -- Hook, buffer, metrics, sampling, source, filter, dedup.
    pub new_with_error-IsOrdered :
        (L : Type 0) (fl : Floats F) (shape : ℕ → Shape) (opts : List ℕ)
        → IsOrdered 9 (new_with_error ws {L = L} fl shape cfg opts).chain.stages
    unfolding new_with_error assemble
    new_with_error-IsOrdered L fl shape opts =
        in_context-Below cfg.context_handler _ (assemble_by-Below shape cfg.pipeline_override)
