-- ===== src/Config/Lifetime.antt =====
-- The order in which a logger that pkg/logger/config.go builds shuts its handlers down.
use kit_logger.Base.{ℕ, ◌≡◌, refl, ap, ◌∙◌, true, Option, none, some, List, [], ◌∷◌, ◌++◌, map}
use kit_logger.Base.Int.{pos, ltb_ℤ}
use kit_logger.Slog.{Error, Context, background}
use kit_logger.Sampling.{Floats}
use kit_logger.Lifecycle.{
  Shape, Flusher, collect_flushers, translate_lifecycle_err, keep_first, flush_loop, shutdown_loop,
}
use kit_logger.Config.Types.{Words}
use kit_logger.Config.Defs.{Config, when}
use kit_logger.Config.Assembly.{
  Chain, gated, LifecycleHandler, found, buffer, apply_metrics, filtered, decorate, sink_of,
  assemble_default, assemble_by, assemble, new_with_error,
}

map-append : {A B : Type 0} (f : A → B) (xs ys : List A) → map f (xs ++ ys) ≡ map f xs ++ map f ys
map-append f [] ys = refl
map-append f (x ∷ xs) ys = ap (λ zs. f x ∷ zs) (map-append f xs ys)

module _ {S : Type 0} where
  shutdown_loop-append :
      (first : Option Error) (fs gs : List (Flusher S)) (w : S)
      → shutdown_loop first (fs ++ gs) w
        ≡ (let (e, w') = shutdown_loop first fs w in shutdown_loop e gs w')
  unfolding shutdown_loop
  shutdown_loop-append first [] gs w = refl
  shutdown_loop-append first (f ∷ fs) gs w =
      let (e, w') = f.shutdown background w in
      shutdown_loop-append (keep_first first (translate_lifecycle_err e)) fs gs w'

  flush_loop-append :
      (first : Option Error) (fs gs : List (Flusher S)) (ctx : Context) (w : S)
      → flush_loop first (fs ++ gs) ctx w
        ≡ (let (e, w') = flush_loop first fs ctx w in flush_loop e gs ctx w')
  unfolding flush_loop
  flush_loop-append first [] gs ctx w = refl
  flush_loop-append first (f ∷ fs) gs ctx w =
      let (e, w') = f.flush ctx w in
      flush_loop-append (keep_first first (translate_lifecycle_err e)) fs gs ctx w'

module _ {F : Type 0} (ws : Words) (fl : Floats F) (shape : ℕ → Shape) (cfg : Config F)
    (sink : ℕ) where
  -- the chain below the buffer
  abbrev pub below_buffer : Chain F
  below_buffer =
      (apply_metrics cfg.metrics_handler
        (filtered ws cfg (record { stages = []; terminal = gated sink }))).0

  lifecycle_lem :
      (L : Type 0) (opts : List ℕ)
      → cfg.pipeline_override ≡ none
      → sink_of cfg.sink cfg.handler ≡ some sink
      → ltb_ℤ (pos 0) cfg.buffer_size ≡ true
      → (new_with_error ws {L = L} fl shape cfg opts).lifecycle
        ≡ map found (collect_flushers shape (some sink)) ++ buffer below_buffer ∷ []
  unfolding new_with_error assemble assemble_by assemble_default decorate
  lifecycle_lem L opts plain there buffering =
      ap (λ o. (assemble_by ws shape cfg o).1) plain
      ∙ ap (λ o. (assemble_default ws shape cfg o).1) there
      ∙ ap (λ b. map found (collect_flushers shape (some sink)) ++ when b (buffer below_buffer))
          buffering

  -- With a sink and a buffer, Flush and Shutdown run the sink's own flushers first and the buffer,
  -- which still delivers to that sink, last: what the buffer holds comes to the sink after the sink
  -- has been flushed or shut down.
  pub buffer_after_sink :
      {S : Type 0} (L : Type 0) (opts : List ℕ) (meaning : LifecycleHandler F → Flusher S)
      (ctx : Context) (w : S)
      → cfg.pipeline_override ≡ none
      → sink_of cfg.sink cfg.handler ≡ some sink
      → ltb_ℤ (pos 0) cfg.buffer_size ≡ true
      → (let own = map meaning (map found (collect_flushers shape (some sink))) in
          let all = map meaning (new_with_error ws {L = L} fl shape cfg opts).lifecycle in
          let last = meaning (buffer below_buffer) in
          (flush_loop none all ctx w
            ≡ (let (e, w') = flush_loop none own ctx w in flush_loop e (last ∷ []) ctx w'))
          × (shutdown_loop none all w
              ≡ (let (e, w') = shutdown_loop none own w in shutdown_loop e (last ∷ []) w')))
  buffer_after_sink L opts meaning ctx w plain there buffering =
      let own = map found (collect_flushers shape (some sink)) in
      let order =
        ap (map meaning) (lifecycle_lem L opts plain there buffering)
        ∙ map-append meaning own (buffer below_buffer ∷ []) in
      (
        ap (λ fs. flush_loop none fs ctx w) order
            ∙ flush_loop-append none (map meaning own) (meaning (buffer below_buffer) ∷ []) ctx w,
        ap (λ fs. shutdown_loop none fs w) order
            ∙ shutdown_loop-append none (map meaning own) (meaning (buffer below_buffer) ∷ []) w,
      )
