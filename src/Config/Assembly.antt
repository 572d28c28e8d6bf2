-- ===== src/Config/Assembly.antt =====
-- `decorate`, `dedupOptions` and `NewWithError` of pkg/logger/config.go: which handlers are built, in
-- what order, and which of them the lifecycle flushes. A chain is the handlers from the outermost one;
-- what each of them does is the other modules' matter.
use kit_logger.Base.{
  ℕ, Bool, true, false, not, ◌&&◌, Option, none, some, List, [], ◌∷◌, ◌++◌, String, ◌==◌, nat_eq,
  map, if◌then◌else◌,
}
use kit_logger.Base.Int.{ℤ, pos, ltb_ℤ}
use kit_logger.Slog.{str, Attrs, nil, cons, Context, Record}
use kit_logger.GlobalFields.{is_before}
use kit_logger.Filter.{FilterRule, Mode}
use kit_logger.Sampling.{Floats, SamplingConfig}
use kit_logger.Rate.{RateState, new_rate_state}
use kit_logger.Lifecycle.{Shape, collect_flushers}
use kit_logger.Config.Types.{
  Words, format_json, format_console, Problem, metrics_failed, metrics_gave_nil, level_string,
  format_string, resolve_level, resolve_format,
}
use kit_logger.Config.Defs.{Config, is_empty, when, sampling_part, validate_config}

-- where a terminal handler writes: `os.Stdout`, or the caller's writer
pub data Destination : Type 0 where
  stdout : Destination
  to_writer : ℕ → Destination

-- a decorator, with what its constructor is given
pub data Stage (F : Type 0) : Type 0 where
  dedup_stage : Attrs → Stage F
  filter_stage : List FilterRule → Mode → Stage F
  source_stage : Stage F
  sampling_stage : SamplingConfig F → Stage F
  metrics_stage : ℕ → Stage F
  buffered_stage : ℤ → Stage F
  hook_stage : (Context → Record → Context × Bool) → Stage F
  context_stage : ℕ → Stage F

-- the handler at the end: the caller's own chain, the caller's sink behind the level gate, or one of
-- the default handlers
pub data Terminal : Type 0 where
  verbatim : ℕ → Terminal
  gated : ℕ → Terminal
  json_handler console_handler text_handler : Destination → Terminal

pub record Chain (F : Type 0) : Type 0 where
  pub stages : List (Stage F)
  pub terminal : Terminal

-- `h = New…Handler(h, …)`
abbrev pub wrap : {F : Type 0} → Stage F → Chain F → Chain F
wrap s c = record c { stages = s ∷ c.stages }

abbrev pub wrap_when : {F : Type 0} → Bool → Stage F → Chain F → Chain F
wrap_when true s c = wrap s c
wrap_when false s c = c

abbrev pub wrap_some : {F A : Type 0} → Option A → (A → Stage F) → Chain F → Chain F
wrap_some none f c = c
wrap_some (some x) f c = wrap (f x) c

-- what the lifecycle flushes: a handler of the caller, or the buffer over its chain
pub data LifecycleHandler (F : Type 0) : Type 0 where
  found : ℕ → LifecycleHandler F
  buffer : Chain F → LifecycleHandler F

-- `slices.Sort` of the keys
abbrev pub insert_key : String → List String → List String
insert_key k [] = k ∷ []
insert_key k (j ∷ js) = let rest = insert_key k js in if is_before k j then k ∷ j ∷ js else j ∷ rest

unfoldable pub sort_keys : List String → List String
sort_keys [] = []
sort_keys (k ∷ ks) = insert_key k (sort_keys ks)

-- the keys of the pinned attributes; a Go map is its pairs in the order of its iteration
unfoldable pub pinned_keys : Bool → List (String × String) → List String
pinned_keys add_source [] = []
pinned_keys add_source ((k, v) ∷ rest) =
    let keys = pinned_keys add_source rest in if add_source && k == "source" then keys else k ∷ keys

-- `cfg.GlobalFields[k]`
unfoldable pub field_value : List (String × String) → String → String
field_value [] k = ""
field_value ((j, v) ∷ rest) k = let later = field_value rest k in if j == k then v else later

unfoldable pub pinned_of : List (String × String) → List String → Attrs
pinned_of fields [] = nil
pinned_of fields (k ∷ ks) = cons k (str (field_value fields k)) (pinned_of fields ks)

-- `dedupOptions`: the pinned attributes
unfoldable pub dedup_options : Bool → List (String × String) → Attrs
dedup_options add_source fields = pinned_of fields (sort_keys (pinned_keys add_source fields))

-- what `MetricsHandler` returns: the handler, and the error
unfoldable pub apply_metrics :
    {F : Type 0} → Option (Option ℕ × Option ℕ) → Chain F → Chain F × List Problem
apply_metrics none c = (c, [])
apply_metrics (some (wrapped, some e)) c = (c, metrics_failed e ∷ [])
apply_metrics (some (none, none)) c = (c, metrics_gave_nil ∷ [])
apply_metrics (some (some m, none)) c = (wrap (metrics_stage m) c, [])

-- What the constructor returns: the chain, the level of the level gate, the handlers to flush in their
-- order, the state of the rate limits, the hook of `WithCounterHook`, the level and the format that
-- the initialization record names, and the error.
pub record Built (F L : Type 0) : Type 0 where
  pub chain : Chain F
  pub level : ℤ
  pub lifecycle : List (LifecycleHandler F)
  pub rates : RateState L
  pub counter_hook : Option ℕ
  pub startup : Option (String × String)
  pub problems : List Problem

-- `for _, o := range opts { o(optVal) }`, each option being WithCounterHook
unfoldable pub apply_options : List ℕ → Option ℕ → Option ℕ
apply_options [] hook = hook
apply_options (h ∷ hs) hook = apply_options hs (some h)

-- `newTerminalHandler`
unfoldable pub new_terminal_handler : Destination → ℕ → Terminal
new_terminal_handler w format =
    if nat_eq format format_json
    then json_handler w
    else if nat_eq format format_console
    then console_handler w
    else text_handler w

abbrev pub destination : Option ℕ → Destination
destination none = stdout
destination (some w) = to_writer w

-- `sink := cfg.Sink; if sink == nil { sink = cfg.Handler }`
abbrev pub sink_of : Option ℕ → Option ℕ → Option ℕ
sink_of none handler = handler
sink_of (some s) handler = some s

-- `cfg.ContextHandler(h)`
unfoldable pub in_context : {F : Type 0} → Option (Option ℕ) → Chain F → Chain F
in_context none c = c
in_context (some none) c = c
in_context (some (some h)) c = wrap (context_stage h) c

module _ {F : Type 0} (ws : Words) where
  -- the handlers that `decorate` builds below the metrics
  unfoldable pub filtered : Config F → Chain F → Chain F
  filtered cfg c =
      let (min_level, _) =
        resolve_level ws "Sampling.MinLevel" cfg.sampling.min_level cfg.sampling.min_level_string in
      wrap_when cfg.sampling.enabled (sampling_stage (sampling_part cfg min_level)) (
        wrap_when cfg.add_source source_stage (
          wrap_when (not (is_empty cfg.filter_rules))
            (filter_stage cfg.filter_rules cfg.filter_mode)
            (wrap (dedup_stage (dedup_options cfg.add_source cfg.global_fields)) c)))

  -- `decorate`: the chain, what it adds to the lifecycle, and the error of the metrics
  unfoldable pub decorate : Config F → Chain F → Chain F × List (LifecycleHandler F) × List Problem
  decorate cfg base =
      let (measured, errs) = apply_metrics cfg.metrics_handler (filtered cfg base) in
      let buffering = ltb_ℤ (pos 0) cfg.buffer_size in
      (
        wrap_some cfg.hook hook_stage
            (wrap_when buffering (buffered_stage cfg.buffer_size) measured),
        when buffering (buffer measured),
        errs,
      )

  -- the `default` branch of the `switch` of `NewWithError`, by the sink
  unfoldable pub assemble_default :
      (ℕ → Shape) → Config F → Option ℕ → Chain F × List (LifecycleHandler F) × List Problem
  assemble_default shape cfg (some s) =
      let (h, extra, errs) = decorate cfg (record { stages = []; terminal = gated s }) in
      (h, map found (collect_flushers shape (some s)) ++ extra, errs)
  assemble_default shape cfg none =
      let (format, _) = resolve_format ws "Format" cfg.format cfg.format_string in
      decorate cfg
        (record { stages = []; terminal = new_terminal_handler (destination cfg.writer) format })

  -- the `switch`, by `PipelineOverride`
  unfoldable pub assemble_by :
      (ℕ → Shape) → Config F → Option ℕ → Chain F × List (LifecycleHandler F) × List Problem
  assemble_by shape cfg (some h) = (
    record { stages = []; terminal = verbatim h },
    map found (collect_flushers shape (some h)),
    [],
  )
  assemble_by shape cfg none = assemble_default shape cfg (sink_of cfg.sink cfg.handler)

  unfoldable pub assemble :
      (ℕ → Shape) → Config F → Chain F × List (LifecycleHandler F) × List Problem
  assemble shape cfg = assemble_by shape cfg cfg.pipeline_override

  -- `NewWithError`; the error is that of Validate, joined with that of the metrics
  unfoldable pub new_with_error :
      {L : Type 0} → Floats F → (ℕ → Shape) → Config F → List ℕ → Built F L
  new_with_error fl shape cfg opts =
      let (level, _) = resolve_level ws "Level" cfg.level cfg.level_string in
      let (format, _) = resolve_format ws "Format" cfg.format cfg.format_string in
      let (h, lifecycle, metrics_err) = assemble shape cfg in
      record {
        chain = in_context cfg.context_handler h;
        level = level;
        lifecycle = lifecycle;
        rates = new_rate_state cfg.rate_limit_max_keys;
        counter_hook = apply_options opts none;
        startup =
            if cfg.log_initialization
            then some (level_string ws level, format_string ws format)
            else none;
        problems = validate_config ws fl cfg ++ metrics_err;
      }
