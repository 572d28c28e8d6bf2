-- ===== src/Tests/Shared.antt =====
-- Fan-out, the shared shutdown, discovery and names, at concrete inputs.
use kit_logger.Base.{
  ℕ, ◌+◌, ◌<◌, ◌≡◌, ◌↔◌, refl, Bool, true, false, Option, none, some, List, [], ◌∷◌, ◌++◌, length,
}
use kit_logger.Slog.{nil, background, Error, err_shutdown, err_logger_shutdown, is_shutdown, join}
use kit_logger.Multi.{multi_handle}
use kit_logger.Multi.Delivery.{Delivers, wrapped, multi_handle-Delivers}
use kit_logger.Lifecycle.{
  Unwraps, Shape, max_unwrap_depth, collect_flushers, Flusher, new_lifecycle_group, is_stopping,
  translate_lifecycle_err, start_shutdown,
}
use kit_logger.Lifecycle.Discovery.{In, Unwrap, collect_flushers_iff}
use kit_logger.Lifecycle.Calls.{first_error}
use kit_logger.Lifecycle.Steps.{
  Drain, calling, inside, stored, over, System, initial, begin_shutdown, drain_from, Step, Reach,
}
use kit_logger.Lifecycle.Shutdown.{shutdown-once}
use kit_logger.Source.{short_func_name, simplify_func_name}
use kit_logger.Source.Names.{Shortens, short_func_name_total}
use kit_logger.Tests.Sink.{sink, record_of}

multi_handle-Delivers_example :
    (es : List (ℕ × Error)) × Delivers sink background
      (record_of nil)
      0
      (tt ∷ tt ∷ [])
      []
      es
      (multi_handle sink (tt ∷ tt ∷ []) background (record_of nil) []).1
    × ((multi_handle sink (tt ∷ tt ∷ []) background (record_of nil) []).0
        ≡ join (wrapped sink background (record_of nil) es))
    × (((multi_handle sink (tt ∷ tt ∷ []) background (record_of nil) []).0 ≡ none) ↔ (es ≡ []))
multi_handle-Delivers_example =
    multi_handle-Delivers sink background (record_of nil) (tt ∷ tt ∷ []) []

-- a handler that notes its name on each call, and fails in Shutdown
abbrev noting : ℕ → Flusher (List ℕ)
noting name = record {
  flush = λ ctx w. (none, name ∷ w);
  shutdown = λ ctx w. (some err_shutdown, name ∷ w);
}

abbrev pair : List (Flusher (List ℕ))
pair = noting 1 ∷ noting 2 ∷ []

-- the system with a log call past the gate, after the shutdown has begun
abbrev later :
    Drain (List ℕ)
    → Bool
    → Option Error
    → List (Flusher (List ℕ))
    → List (Option Error)
    → System (List ℕ)
later drain completed err called results = record {
  group = record {
    handlers = pair;
    started = true;
    completed = completed;
    err = err;
    stopping = true;
    rejected = 0;
  };
  drain = drain;
  logging = 1;
  flushing = [];
  called = called;
  results = results;
}

abbrev begun : System (List ℕ)
begun = later (calling none pair) false none [] []

abbrev half : System (List ℕ)
half =
    later (calling (some err_logger_shutdown) (noting 2 ∷ [])) false none (noting 1 ∷ [])
      (some err_shutdown ∷ [])

abbrev closed : System (List ℕ)
closed = later over true (some err_logger_shutdown) pair (some err_shutdown ∷ none ∷ [])

begun-Reach : Reach (initial pair) begun
unfolding new_lifecycle_group start_shutdown begin_shutdown is_stopping
begun-Reach =
    Reach.and_step (Reach.and_step Reach.stay (Step.log_enters {s = initial pair} refl))
      (Step.shutdown_called {s = record (initial pair) { logging = 1 }})

half-Reach : Reach (initial pair) half
unfolding drain_from translate_lifecycle_err is_shutdown
half-Reach =
    Reach.and_step
      (Reach.and_step begun-Reach (
        Step.drains {s = begun}
          {s' = later (inside none (noting 2 ∷ [])) false none (noting 1 ∷ []) []} none refl))
      (Step.drains {s = later (inside none (noting 2 ∷ [])) false none (noting 1 ∷ []) []}
        (some err_shutdown) refl)

-- from a run that ends in `half`, one that ends in `closed`
half_to_closed : {s : System (List ℕ)} → Reach s half → Reach s closed
unfolding drain_from translate_lifecycle_err is_shutdown
half_to_closed before =
    let err = some err_logger_shutdown in
    let got = some err_shutdown ∷ [] in
    let one = later (inside err []) false none pair got in
    let two = later (calling err []) false none pair (some err_shutdown ∷ none ∷ []) in
    let three = later stored false err pair (some err_shutdown ∷ none ∷ []) in
    Reach.and_step
      (Reach.and_step
        (Reach.and_step (Reach.and_step before (Step.drains {s = half} {s' = one} none refl))
          (Step.drains {s = one} {s' = two} none refl))
        (Step.drains {s = two} {s' = three} none refl))
      (Step.drains {s = three} {s' = closed} none refl)

closed-Reach : Reach (initial pair) closed
closed-Reach = half_to_closed half-Reach

shutdown-once_example :
    (rest : List (Flusher (List ℕ))) × (closed.called ++ rest ≡ pair)
    × (closed.group.completed ≡ true
        → (rest ≡ [])
          × (length closed.results ≡ length pair)
          × (closed.group.err ≡ translate_lifecycle_err (first_error closed.results)))
shutdown-once_example = shutdown-once pair closed-Reach

-- a chain that unwraps to itself
abbrev cycle : ℕ → Shape
cycle h = record { flusher = true; unwraps = Unwraps.to_one (some h) }

collect_flushers_iff_example : In 3 (collect_flushers cycle (some 3)) ↔ (
    (n : ℕ) × (n < max_unwrap_depth + 1) × Unwrap cycle n (some 3) 3 × ((cycle 3).flusher ≡ true))
collect_flushers_iff_example = collect_flushers_iff cycle (some 3) 3

abbrev name : List ℕ
name = b'a' ∷ b'/' ∷ b'b' ∷ b'.' ∷ b'f' ∷ b'u' ∷ b'n' ∷ b'c' ∷ b'1' ∷ []

short_func_name_total_example :
    (short : List ℕ) × (rest : List ℕ) × (short_func_name name ≡ some short)
    × Shortens (simplify_func_name name) short
    × (simplify_func_name name ≡ short ++ rest)
short_func_name_total_example = short_func_name_total name

abbrev stamps : List (ℕ × ℕ)
stamps = (1, 5) ∷ (2, 5) ∷ (3, 9) ∷ []
