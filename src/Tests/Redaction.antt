-- ===== src/Tests/Redaction.antt =====
-- A filter with one rule, for the key "password", on records that carry it.
use kit_logger.Base.{◌≡◌, ◌≢◌, refl, List, [], ◌∷◌, ◌==◌, String, if◌then◌else◌}
use kit_logger.Slog.{Value, str, group, Attrs, nil, cons, background, add_attrs, group_op}
use kit_logger.Filter.{
  Mode, mode_redact, FilterRule, FilterHandler, Texts, filter_attrs, filter_handle, match_rule,
  match_loop, full_key,
}
use kit_logger.Filter.Secrets.{SameButSecret, SameButSecrets, redaction_hides}
use kit_logger.Filter.Delivery.{path_after, derive, redact_ops, filter_handle_redact}
use kit_logger.Tests.Sink.{Sink, sink, record_of}

abbrev text_of : Value → String
text_of (str s) = s
text_of v = "?"

abbrev texts : Texts
texts = record { equal_fold = ◌==◌; value_string = text_of }

abbrev rule : FilterRule
rule = record { key = "password"; value = ""; replacement = "" }

abbrev rules : List FilterRule
rules = rule ∷ []

abbrev credentials : String → Attrs
credentials secret =
    cons "user" (str "ann") (cons "login" (group (cons "password" (str secret) nil)) nil)

credentials-SameButSecrets :
    SameButSecrets texts rules [] (credentials "hunter2") (credentials "swordfish")
unfolding match_rule match_loop full_key
credentials-SameButSecrets = SameButSecrets.both_cons SameButSecret.same_value (
    SameButSecrets.both_cons
      (SameButSecret.in_group (
        SameButSecrets.both_cons (SameButSecret.secret rule refl refl refl refl)
          SameButSecrets.both_nil))
      SameButSecrets.both_nil)

redaction_hides_example :
    filter_attrs texts mode_redact rules [] (credentials "hunter2")
    ≡ filter_attrs texts mode_redact rules [] (credentials "swordfish")
redaction_hides_example =
    redaction_hides texts rules [] (credentials "hunter2") (credentials "swordfish")
      credentials-SameButSecrets

abbrev filter_in : Mode → FilterHandler Sink
filter_in mode = record { next = tt; rules = rules; mode = mode; ops = group_op "auth" ∷ [] }

rules≢[] : rules ≢ []
rules≢[] = λ e. cc

filter_handle_redact_example :
    (let (attrs, hit) =
        filter_attrs texts mode_redact rules
          (path_after [] (group_op "auth" ∷ []))
          (credentials "hunter2") in
      filter_handle texts sink
        (filter_in mode_redact)
        background
        (record_of (credentials "hunter2"))
        []
      ≡ sink.handle
          (derive sink tt (redact_ops texts sink rules [] (group_op "auth" ∷ [])))
          background
          (if hit then add_attrs (record_of nil) attrs else record_of (credentials "hunter2"))
          [])
filter_handle_redact_example =
    filter_handle_redact texts sink (filter_in mode_redact) background
      (record_of (credentials "hunter2")) [] refl rules≢[]

abbrev hidden : Attrs
hidden = cons "password" (str "hunter2") nil
