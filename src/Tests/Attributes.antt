-- ===== src/Tests/Attributes.antt =====
-- Records with repeated, reserved, pinned and global keys.
use Prim.Native.String.{◌++◌ as str_append}
use kit_logger.Base.{
  ◌≡◌, refl, true, none, [], ◌∷◌, String, ◌==◌, eq_iff, subst, Bool-cases, inl, inr,
}
use kit_logger.Base.Int.{pos}
use kit_logger.Slog.{str, int, Attrs, nil, cons, background, attrs_op}
use kit_logger.GlobalFields.{merge, lookup_field, has_key}
use kit_logger.GlobalFields.Merge.{count_key, Distinct, merge_override_once}
use kit_logger.Dedup.{
  Node, empty, find, contains, insert_all, insert_value, insert_scalar, build, DedupHandler,
  dedup_handle, update, is_blocked,
}
use kit_logger.Dedup.Unique.Tree.{UniqueAttrs}
use kit_logger.Dedup.Unique.Output.{NoClash, dedup_handle-UniqueAttrs}
use kit_logger.Dedup.Pinned.{Holds, build-Holds}
use kit_logger.Tests.Sink.{Sink, sink, record_of}

abbrev repeated : Attrs
repeated = cons "id" (int (pos 1)) (cons "id" (int (pos 2)) nil)

abbrev globals : Attrs
globals = cons "id" (int (pos 0)) (cons "service" (str "api") nil)

globals-Distinct : Distinct globals
unfolding lookup_field has_key
globals-Distinct = (refl, (refl, tt))

merge_override_once_example : count_key "id" (merge globals true repeated) ≡ 1
unfolding lookup_field
merge_override_once_example =
    merge_override_once globals repeated "id" (int (pos 0)) globals-Distinct refl

abbrev dedup : DedupHandler Sink
dedup = record {
  next = tt;
  pinned = cons "service" (str "api") nil;
  ops = [];
  reserved = "time" ∷ [];
}

abbrev timed : Attrs
timed = cons "time" (int (pos 3)) repeated

contains_one : (j k : String) → contains k (j ∷ []) ≡ true → j ≡ k
unfolding contains
contains_one j k c = elim (Bool-cases (j == k)) [ inl same ↦ (eq_iff j k).0 same | inr other ↦ cc ]

free : find "attr.time" (build (insert_all dedup.pinned true empty) dedup.ops timed) ≡ none
unfolding build insert_all insert_value insert_scalar find update is_blocked
free = refl

timed-NoClash : NoClash dedup.reserved (build (insert_all dedup.pinned true empty) dedup.ops timed)
timed-NoClash = λ k c.
    subst
      (λ t.
        find (str_append "attr." t) (build (insert_all dedup.pinned true empty) dedup.ops timed)
        ≡ none)
      (contains_one "time" k c) free

dedup_handle-UniqueAttrs_example :
    (attrs : Attrs) × (dedup_handle sink dedup background (record_of timed) []
      ≡ sink.handle tt background (record_of attrs) [])
    × UniqueAttrs attrs
dedup_handle-UniqueAttrs_example =
    dedup_handle-UniqueAttrs sink dedup background (record_of timed) [] timed-NoClash

abbrev held : Node
held = insert_all (cons "service" (str "api") nil) true empty

held-Holds : Holds "service" (str "api") held
unfolding insert_all insert_value insert_scalar find update is_blocked
held-Holds = refl

build-Holds_example :
    Holds "service"
      (str "api")
      (build held (attrs_op (cons "service" (str "worker") nil) ∷ []) repeated)
build-Holds_example =
    build-Holds "service" (str "api") held (attrs_op (cons "service" (str "worker") nil) ∷ [])
      repeated held-Holds
