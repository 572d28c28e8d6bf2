-- ===== src/Metrics/Totals.antt =====
-- What the counter of pkg/logger/prometheus/handler.go counts.
use kit_logger.Base.{
  ℕ, ◌+◌, ◌≡◌, refl, ◌∙◌, false, List, [], ◌∷◌, String, ◌==◌, nat_eq, arith, if◌then◌else◌,
}
use kit_logger.Base.Int.{ℤ}
use kit_logger.Slog.{Context, Record, Handler, Op, attrs_op, group_op}
use kit_logger.Filter.Delivery.{derive}
use kit_logger.Metrics.Defs.{Counts, MetricsHandler, increment, metrics_handle, metrics_handler}

-- one record of a run: the With calls that derive its handler from the root, in order, and its context
pub record Sent : Type 0 where
  pub ops : List Op
  pub context : Context
  pub sent : Record

increment-own :
    (c : ℕ) (name level : String) (counts : Counts) (n : ℕ)
    → increment c name counts c level + n ≡ counts c level + (if level == name then n + 1 else n)
unfolding increment
increment-own c name level counts n = ground arith

increment-other :
    (c d : ℕ) (name level : String) (counts : Counts)
    → nat_eq d c ≡ false
    → increment c name counts d level ≡ counts d level
unfolding increment
increment-other c d name level counts h = rw h refl

module _ {H S : Type 0} (level_string : ℤ → String) (next : Handler H S) where
  -- A derived handler has the counter of its root, and the wrapped handler is derived alike.
  derive-root :
      (ops : List Op) (inner : H) (counter : ℕ)
      → derive (metrics_handler level_string next) (record { next = inner; counter = counter }) ops
        ≡ record { next = derive next inner ops; counter = counter }
  unfolding derive metrics_handler
  derive-root [] inner counter = refl
  derive-root (group_op name ∷ ops) inner counter =
      derive-root ops (next.with_group inner name) counter
  derive-root (attrs_op attrs ∷ ops) inner counter =
      derive-root ops (next.with_attrs inner attrs) counter

module _ {H S : Type 0} (level_string : ℤ → String) (next : Handler H S)
    (root : MetricsHandler H) where
  abbrev decorated : Handler (MetricsHandler H) (Counts × S)
  decorated = metrics_handler level_string next

  pub metrics_run : List Sent → Counts × S → Counts × S
  metrics_run [] world = world
  metrics_run (s ∷ ss) world =
      metrics_run ss (decorated.handle (derive decorated root s.ops) s.context s.sent world).1

  -- the same records, through the same With calls, on the wrapped handler itself
  pub plain_run : List Sent → S → S
  plain_run [] w = w
  plain_run (s ∷ ss) w =
      plain_run ss (next.handle (derive next root.next s.ops) s.context s.sent w).1

  -- the records of a level
  pub of_level : String → List Sent → ℕ
  of_level level [] = 0
  of_level level (s ∷ ss) =
      let rest = of_level level ss in if level == level_string s.sent.level then rest + 1 else rest

  -- Over any run of a handler and of those derived from it by WithAttrs and WithGroup, its counter grows under each level by the
  -- number of records of that level, whatever the wrapped handler returns; every other counter stays as
  -- it was, and the wrapped handler sees the records as without the counter.
  pub metrics_run-counts :
      (ss : List Sent) (counts : Counts) (w : S)
      → ((level : String)
          → (metrics_run ss (counts, w)).0 root.counter level
            ≡ counts root.counter level + of_level level ss)
        × ((other : ℕ) (level : String)
            → nat_eq other root.counter ≡ false
            → (metrics_run ss (counts, w)).0 other level ≡ counts other level)
        × ((metrics_run ss (counts, w)).1 ≡ plain_run ss w)
  unfolding metrics_run plain_run of_level metrics_handler metrics_handle
  metrics_run-counts [] counts w = (λ level. omega arith, λ other level h. refl, refl)
  metrics_run-counts (s ∷ ss) counts w =
      let (e, w') = next.handle (derive next root.next s.ops) s.context s.sent w in
      let name = level_string s.sent.level in
      let (own, others, inner) = metrics_run-counts ss (increment root.counter name counts) w' in
      rw (metrics_run, derive-root level_string next s.ops root.next root.counter, metrics_handle)
        (
          λ level. own level ∙ increment-own root.counter name level counts (of_level level ss),
          λ other level h.
              others other level h ∙ increment-other root.counter other name level counts h,
          inner,
        )
