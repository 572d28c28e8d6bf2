-- ===== src/Filter/Delivery.antt =====
-- What `Handle` delivers in each mode.
use kit_logger.Base.{
  ◌≡◌, ◌≢◌, refl, Bool, false, ◌||◌, none, some, List, [], ◌∷◌, ◌++◌, String, arith, if◌then◌else◌,
}
use kit_logger.Slog.{Context, Record, new_record, add_attrs, Handler, Op, attrs_op, group_op}
use kit_logger.Filter.Defs.{
  mode_drop, mode_redact, FilterRule, FilterHandler, Texts, filter_attrs, replay_ops, filter_record,
  filter_handle,
}
use kit_logger.Filter.Matching.{hits, filter_attrs_hit, filter_attrs_same}

-- the path of the record's attributes under the held groups
pub path_after : List String → List Op → List String
path_after path [] = path
path_after path (group_op name ∷ ops) = path_after (path ++ name ∷ []) ops
path_after path (attrs_op attrs ∷ ops) = path_after path ops

-- some held attribute matches a rule
pub held_hits : Texts → List FilterRule → List String → List Op → Bool
held_hits tx rules path [] = false
held_hits tx rules path (group_op name ∷ ops) = held_hits tx rules (path ++ name ∷ []) ops
held_hits tx rules path (attrs_op attrs ∷ ops) =
    hits tx rules path attrs || held_hits tx rules path ops

module _ {H S : Type 0} (next : Handler H S) where
  -- the handler that the held calls derive when they are made as they came
  unfoldable pub derive : H → List Op → H
  derive inner [] = inner
  derive inner (group_op name ∷ ops) = derive (next.with_group inner name) ops
  derive inner (attrs_op attrs ∷ ops) = derive (next.with_attrs inner attrs) ops

module _ {H S : Type 0} (tx : Texts) (next : Handler H S) where
  replay_ops-drop :
      (rules : List FilterRule) (ops : List Op) (inner : H) (path : List String)
      → replay_ops tx next mode_drop rules ops inner path ≡ (
          if held_hits tx rules path ops
          then none
          else some (derive next inner ops, path_after path ops))
  unfolding replay_ops held_hits derive path_after
  replay_ops-drop rules [] inner path = refl
  replay_ops-drop rules (group_op name ∷ ops) inner path =
      replay_ops-drop rules ops (next.with_group inner name) (path ++ name ∷ [])
  replay_ops-drop rules (attrs_op attrs ∷ ops) inner path = ground (
    arith,
    filter_attrs_hit tx mode_drop rules path attrs,
    filter_attrs_same tx mode_drop rules path attrs,
    replay_ops-drop rules ops (next.with_attrs inner attrs) path,
  )

  -- ModeDrop, with at least one rule: a record is discarded exactly if one of its attributes or of
  -- the held ones matches a rule. Otherwise the next handler gets the record as it is, through the
  -- held calls as they came.
  pub filter_handle_drop :
      (h : FilterHandler H) (ctx : Context) (r : Record) (w : S)
      → h.mode ≡ mode_drop
      → h.rules ≢ []
      → filter_handle tx next h ctx r w ≡ (
          if held_hits tx h.rules [] h.ops || hits tx h.rules (path_after [] h.ops) r.attrs
          then (none, w)
          else next.handle (derive next h.next h.ops) ctx r w)
  unfolding filter_handle filter_record
  filter_handle_drop h ctx r w drop rules = ground (
    arith,
    replay_ops-drop h.rules h.ops h.next [],
    filter_attrs_hit tx mode_drop h.rules (path_after [] h.ops) r.attrs,
  )

  -- the held calls with their attributes redacted
  pub redact_ops : List FilterRule → List String → List Op → List Op
  redact_ops rules path [] = []
  redact_ops rules path (group_op name ∷ ops) =
      group_op name ∷ redact_ops rules (path ++ name ∷ []) ops
  redact_ops rules path (attrs_op attrs ∷ ops) =
      attrs_op (filter_attrs tx mode_redact rules path attrs).0 ∷ redact_ops rules path ops

  replay_ops-redact :
      (rules : List FilterRule) (ops : List Op) (inner : H) (path : List String)
      → replay_ops tx next mode_redact rules ops inner path
        ≡ some (derive next inner (redact_ops rules path ops), path_after path ops)
  unfolding replay_ops redact_ops derive path_after
  replay_ops-redact rules [] inner path = refl
  replay_ops-redact rules (group_op name ∷ ops) inner path =
      replay_ops-redact rules ops (next.with_group inner name) (path ++ name ∷ [])
  replay_ops-redact rules (attrs_op attrs ∷ ops) inner path =
      let a = (filter_attrs tx mode_redact rules path attrs).0 in
      ground (arith, replay_ops-redact rules ops (next.with_attrs inner a) path)

  -- ModeRedact, with at least one rule, drops nothing: every record reaches the next handler once,
  -- through the held calls with their attributes redacted, with its time, level, message and PC,
  -- and with redacted attributes if one of its own matches.
  pub filter_handle_redact :
      (h : FilterHandler H) (ctx : Context) (r : Record) (w : S)
      → h.mode ≡ mode_redact
      → h.rules ≢ []
      → (let path = path_after [] h.ops in
          let (attrs, hit) = filter_attrs tx mode_redact h.rules path r.attrs in
          filter_handle tx next h ctx r w
          ≡ next.handle
              (derive next h.next (redact_ops h.rules [] h.ops))
              ctx
              (if hit then add_attrs (new_record r) attrs else r)
              w)
  unfolding filter_handle filter_record
  filter_handle_redact h ctx r w redact rules =
      ground (arith, replay_ops-redact h.rules h.ops h.next [])
