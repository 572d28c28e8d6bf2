-- ===== src/Config/Presence.antt =====
-- Which handlers pkg/logger/config.go builds, and which attributes the innermost one pins.
use kit_logger.Base.{
  ℕ, ◌≡◌, refl, ap, ap, ◌∙◌, Bool, true, false, not, ◌&&◌, ◌||◌, Option, none, some, List, [], ◌∷◌,
  String, ◌==◌, eq_iff, arith, nat_eq, if◌then◌else◌, Bool-cases, inl, inr,
}
use kit_logger.Base.Int.{pos, ltb_ℤ}
use kit_logger.Slog.{str}
use kit_logger.GlobalFields.{lookup_field, is_before}
use kit_logger.Sampling.{Floats}
use kit_logger.Lifecycle.{Shape}
use kit_logger.Config.Types.{Words}
use kit_logger.Config.Defs.{Config, is_set, is_empty, has_field}
use kit_logger.Config.Assembly.{
  Stage, dedup_stage, filter_stage, source_stage, sampling_stage, buffered_stage, hook_stage, Chain,
  wrap, wrap_when, wrap_some, sort_keys, insert_key, pinned_keys, field_value, pinned_of,
  dedup_options, apply_metrics, filtered, decorate, sink_of, assemble_default, assemble_by,
  assemble, in_context, new_with_error,
}
use kit_logger.Config.Order.{rank}

-- the metrics handler returns a handler and no error
abbrev pub instruments : Option (Option ℕ × Option ℕ) → Bool
instruments none = false
instruments (some (w, some e)) = false
instruments (some (none, none)) = false
instruments (some (some m, none)) = true

-- the context handler returns a handler
abbrev pub decorates : Option (Option ℕ) → Bool
decorates none = false
decorates (some none) = false
decorates (some (some h)) = true

-- the stages that the configuration asks for
abbrev pub wanted : {F : Type 0} → Config F → ℕ → Bool
wanted cfg n =
    is_set cfg.hook && nat_eq 7 n
    || (ltb_ℤ (pos 0) cfg.buffer_size && nat_eq 6 n
        || (instruments cfg.metrics_handler && nat_eq 5 n
            || (cfg.sampling.enabled && nat_eq 4 n
                || (cfg.add_source && nat_eq 3 n
                    || (not (is_empty cfg.filter_rules) && nat_eq 2 n || nat_eq 1 n)))))

-- a stage of the place `n` is in the chain
pub has_rank : {F : Type 0} → ℕ → List (Stage F) → Bool
has_rank n [] = false
has_rank n (s ∷ ss) = nat_eq (rank s) n || has_rank n ss

or_false : (b : Bool) → (b || false) ≡ b
or_false true = refl
or_false false = refl

module _ {F : Type 0} (n : ℕ) where
  abbrev has : Chain F → Bool
  has c = has_rank n c.stages

  has-wrap_when :
      (b : Bool) (s : Stage F) (c : Chain F)
      → has (wrap_when b s c) ≡ (b && nat_eq (rank s) n || has c)
  unfolding has_rank
  has-wrap_when true s c = refl
  has-wrap_when false s c = refl

  has-hook :
      (o : Option _) (c : Chain F)
      → has (wrap_some o hook_stage c) ≡ (is_set o && nat_eq 7 n || has c)
  unfolding has_rank
  has-hook none c = refl
  has-hook (some x) c = refl

  has-apply_metrics :
      (m : Option (Option ℕ × Option ℕ)) (c : Chain F)
      → has (apply_metrics m c).0 ≡ (instruments m && nat_eq 5 n || has c)
  unfolding has_rank apply_metrics
  has-apply_metrics none c = refl
  has-apply_metrics (some (w, some e)) c = refl
  has-apply_metrics (some (none, none)) c = refl
  has-apply_metrics (some (some m, none)) c = refl

  has-in_context :
      (o : Option (Option ℕ)) (c : Chain F)
      → has (in_context o c) ≡ (decorates o && nat_eq 8 n || has c)
  unfolding has_rank in_context
  has-in_context none c = refl
  has-in_context (some none) c = refl
  has-in_context (some (some h)) c = refl

  module _ (ws : Words) (cfg : Config F) where
    has-decorate : (c : Chain F) → c.stages ≡ [] → has (decorate ws cfg c).0 ≡ wanted cfg n
    unfolding decorate filtered has_rank
    has-decorate c bare =
        let c1 = wrap (dedup_stage (dedup_options cfg.add_source cfg.global_fields)) c in
        let filter = filter_stage cfg.filter_rules cfg.filter_mode in
        let c2 = wrap_when (not (is_empty cfg.filter_rules)) filter c1 in
        let c3 = wrap_when cfg.add_source source_stage c2 in
        let c4 = filtered ws cfg c in
        let c5 = (apply_metrics cfg.metrics_handler c4).0 in
        let c6 = wrap_when (ltb_ℤ (pos 0) cfg.buffer_size) (buffered_stage cfg.buffer_size) c5 in
        has-hook cfg.hook c6
        ∙ ap (λ b. is_set cfg.hook && nat_eq 7 n || b)
            (has-wrap_when (ltb_ℤ (pos 0) cfg.buffer_size) (buffered_stage cfg.buffer_size) c5
              ∙ ap (λ b. ltb_ℤ (pos 0) cfg.buffer_size && nat_eq 6 n || b)
                  (has-apply_metrics cfg.metrics_handler c4
                    ∙ ap (λ b. instruments cfg.metrics_handler && nat_eq 5 n || b)
                        (has-wrap_when cfg.sampling.enabled (sampling_stage _) c3
                          ∙ ap (λ b. cfg.sampling.enabled && nat_eq 4 n || b)
                              (has-wrap_when cfg.add_source source_stage c2
                                ∙ ap (λ b. cfg.add_source && nat_eq 3 n || b)
                                    (has-wrap_when (not (is_empty cfg.filter_rules)) filter c1
                                      ∙ ap (λ b. not (is_empty cfg.filter_rules) && nat_eq 2 n || b)
                                          (ap (λ ss. nat_eq 1 n || has_rank n ss) bare
                                            ∙ or_false (nat_eq 1 n)))))))

    has-assemble_by :
        (shape : ℕ → Shape) (o : Option ℕ)
        → has (assemble_by ws shape cfg o).0 ≡ (not (is_set o) && wanted cfg n)
    unfolding assemble_by assemble_default has_rank
    has-assemble_by shape (some h) = refl
    has-assemble_by shape none = by_sink (sink_of cfg.sink cfg.handler)
      where
        by_sink : (s : Option ℕ) → has (assemble_default ws shape cfg s).0 ≡ wanted cfg n
        by_sink (some s) = has-decorate _ refl
        by_sink none = has-decorate _ refl

    -- A stage is in the chain exactly if the configuration asks for it: the dedup stage always, each
    -- other one by its setting, the metrics and the context stage where the caller's function returns
    -- a handler and no error. Under PipelineOverride only the context stage is built.
    pub new_with_error-wanted :
        (L : Type 0) (fl : Floats F) (shape : ℕ → Shape) (opts : List ℕ)
        → has_rank n (new_with_error ws {L = L} fl shape cfg opts).chain.stages ≡ (
            decorates cfg.context_handler && nat_eq 8 n
            || not (is_set cfg.pipeline_override) && wanted cfg n)
    unfolding new_with_error assemble
    new_with_error-wanted L fl shape opts =
        has-in_context cfg.context_handler _
        ∙ ap (λ b. decorates cfg.context_handler && nat_eq 8 n || b)
            (has-assemble_by shape cfg.pipeline_override)

-- the key is in the list
abbrev listed : String → List String → Bool
listed k [] = false
listed k (j ∷ js) = j == k || listed k js

swap_or : (a b c : Bool) → (a || (b || c)) ≡ (b || (a || c))
swap_or true true c = refl
swap_or true false c = refl
swap_or false b c = refl

listed-insert_key :
    (k j : String) (ks : List String) → listed k (insert_key j ks) ≡ (j == k || listed k ks)
listed-insert_key k j [] = refl
listed-insert_key k j (i ∷ is) = elim (Bool-cases (is_before j i)) [
  | inl before ↦ rw before refl
  | inr later ↦
      rw later
        (ap (λ b. i == k || b) (listed-insert_key k j is) ∙ swap_or (i == k) (j == k) (listed k is))
]

listed-sort_keys : (k : String) (ks : List String) → listed k (sort_keys ks) ≡ listed k ks
unfolding sort_keys
listed-sort_keys k [] = refl
listed-sort_keys k (j ∷ js) =
    listed-insert_key k j (sort_keys js) ∙ ap (λ b. j == k || b) (listed-sort_keys k js)

listed-pinned_keys :
    (k : String) (add_source : Bool) (fields : List (String × String))
    → listed k (pinned_keys add_source fields)
      ≡ (has_field k fields && not (add_source && k == "source"))
unfolding pinned_keys has_field
listed-pinned_keys k add_source [] = refl
listed-pinned_keys k add_source ((j, v) ∷ rest) =
    ground (
      arith,
      listed-pinned_keys k add_source rest,
      eq_iff j k,
      eq_iff j "source",
      eq_iff k "source",
    )

lookup_field-pinned_of :
    (k : String) (fields : List (String × String)) (ks : List String)
    → lookup_field k (pinned_of fields ks)
      ≡ (if listed k ks then some (str (field_value fields k)) else none)
unfolding lookup_field pinned_of
lookup_field-pinned_of k fields [] = refl
lookup_field-pinned_of k fields (j ∷ js) =
    ground (arith, lookup_field-pinned_of k fields js, eq_iff j k)

-- The innermost handler pins, under each key, the value that the global fields give it, and nothing
-- else; while AddSource is set, it does not pin the key of the source group.
pub lookup-dedup_options :
    (k : String) (add_source : Bool) (fields : List (String × String))
    → lookup_field k (dedup_options add_source fields) ≡ (
        if has_field k fields && not (add_source && k == "source")
        then some (str (field_value fields k))
        else none)
unfolding dedup_options
lookup-dedup_options k add_source fields =
    lookup_field-pinned_of k fields (sort_keys (pinned_keys add_source fields))
    ∙ ap (λ b. if b then some (str (field_value fields k)) else none)
        (listed-sort_keys k (pinned_keys add_source fields)
          ∙ listed-pinned_keys k add_source fields)
