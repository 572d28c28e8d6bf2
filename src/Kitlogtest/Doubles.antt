-- ===== src/Kitlogtest/Doubles.antt =====
-- The doubles of pkg/logger/kitlogtest, TestHandler and MockLogger.
use kit_logger.Base.{
  ℕ, suc, ◌+◌, ◌≡◌, refl, sym, ap, ◌∙◌, Bool, true, false, Option, List, [], ◌∷◌, ◌++◌, length,
  String, arith, if◌then◌else◌,
}
use kit_logger.Slog.{
  Attrs, nil, cons, is_nil, group_value, Context, Record, add_attrs, new_record, Op, attrs_op,
  group_op, Error, err_logger_shutdown,
}
use kit_logger.GlobalFields.{nest}
use kit_logger.Kitlogtest.Defs.{
  test_loop, from_last, test_handle, LogEntry, MockLogger, new_mock_logger, mock_log, mock_flush,
  mock_shutdown,
}

by_group :
    (name : String) (goas : List Op) (inner : Attrs)
    → test_loop (group_op name ∷ goas) inner
      ≡ test_loop goas (if is_nil inner then inner else cons name (group_value inner) nil)
unfolding test_loop
by_group name goas nil = refl
by_group name goas (cons k v rest) = refl

test_loop-nest :
    (goas done : List Op) (attrs : Attrs)
    → test_loop (from_last goas done) attrs ≡ test_loop done (nest goas attrs)
unfolding test_loop from_last nest
test_loop-nest [] done attrs = refl
test_loop-nest (attrs_op held ∷ goas) done attrs = test_loop-nest goas (attrs_op held ∷ done) attrs
test_loop-nest (group_op name ∷ goas) done attrs =
    test_loop-nest goas (group_op name ∷ done) attrs ∙ by_group name done (nest goas attrs)

-- The record that the callback of TestHandler gets carries the record's attributes nested under the
-- WithAttrs and WithGroup calls exactly as GlobalFieldsHandler nests them: the backwards loop gives
-- what the recursion over the calls in their order gives.
pub test_handle-nest :
    {S : Type 0} (callback : Context → Record → S → S) (goas : List Op) (ctx : Context) (r : Record)
    (w : S)
    → test_handle callback goas ctx r w
      ≡ callback ctx (add_attrs (new_record r) (nest goas r.attrs)) w
unfolding test_handle test_loop
test_handle-nest callback goas ctx r w =
    ap (λ attrs. callback ctx (add_attrs (new_record r) attrs) w) (test_loop-nest goas [] r.attrs)

-- a call of a method of MockLogger
pub data MockCall : Type 0 where
  logs : LogEntry → MockCall
  flushes shuts_down : MockCall

pub mock_run : List MockCall → MockLogger → MockLogger
mock_run [] m = m
mock_run (logs e ∷ cs) m = mock_run cs (mock_log e m)
mock_run (flushes ∷ cs) m = mock_run cs (mock_flush m).1
mock_run (shuts_down ∷ cs) m = mock_run cs (mock_shutdown m).1

-- the entries of the calls before a Shutdown, and the number of entries after one
pub accepted : List MockCall → List LogEntry
accepted [] = []
accepted (logs e ∷ cs) = e ∷ accepted cs
accepted (flushes ∷ cs) = accepted cs
accepted (shuts_down ∷ cs) = []

pub refused : Bool → List MockCall → ℕ
refused down [] = 0
refused true (logs e ∷ cs) = suc (refused true cs)
refused false (logs e ∷ cs) = refused false cs
refused down (flushes ∷ cs) = refused down cs
refused down (shuts_down ∷ cs) = refused true cs

length-append : {A : Type 0} (xs ys : List A) → length (xs ++ ys) ≡ length xs + length ys
length-append [] ys = omega arith
length-append (x ∷ xs) ys = let e = length-append xs ys in omega arith

append_assoc : {A : Type 0} (xs ys zs : List A) → xs ++ ys ++ zs ≡ xs ++ (ys ++ zs)
append_assoc [] ys zs = refl
append_assoc (x ∷ xs) ys zs = ap (λ r. x ∷ r) (append_assoc xs ys zs)

append-nil : {A : Type 0} (xs : List A) → xs ++ [] ≡ xs
append-nil [] = refl
append-nil (x ∷ xs) = ap (λ r. x ∷ r) (append-nil xs)

mock_log-down :
    (e : LogEntry) (m : MockLogger)
    → m.shutdown ≡ true
    → mock_log e m ≡ record m { rejected = m.rejected ++ err_logger_shutdown ∷ [] }
unfolding mock_log
mock_log-down e m h =
    ap
      (λ b.
        if b
        then record m { rejected = m.rejected ++ err_logger_shutdown ∷ [] }
        else record m { entries = m.entries ++ e ∷ [] })
      h

mock_log-up :
    (e : LogEntry) (m : MockLogger)
    → m.shutdown ≡ false
    → mock_log e m ≡ record m { entries = m.entries ++ e ∷ [] }
unfolding mock_log
mock_log-up e m h =
    ap
      (λ b.
        if b
        then record m { rejected = m.rejected ++ err_logger_shutdown ∷ [] }
        else record m { entries = m.entries ++ e ∷ [] })
      h

run-down :
    (cs : List MockCall) (m : MockLogger)
    → m.shutdown ≡ true
    → ((mock_run cs m).entries ≡ m.entries)
      × (length (mock_run cs m).rejected ≡ length m.rejected + refused true cs)
unfolding mock_run refused mock_flush mock_shutdown
run-down [] m h = (refl, omega arith)
run-down (logs e ∷ cs) m h =
    let m' = record m { rejected = m.rejected ++ err_logger_shutdown ∷ [] } in
    let (same, more) = run-down cs m' h in
    let one = length-append m.rejected (err_logger_shutdown ∷ []) in
    let count : length m'.rejected + refused true cs ≡ length m.rejected + suc (refused true cs) =
      omega arith in
    (
      ap (λ x. (mock_run cs x).entries) (mock_log-down e m h) ∙ same,
      ap (λ x. length (mock_run cs x).rejected) (mock_log-down e m h) ∙ more ∙ count,
    )
run-down (flushes ∷ cs) m h = run-down cs (mock_flush m).1 h
run-down (shuts_down ∷ cs) m h = run-down cs (mock_shutdown m).1 refl

run-up :
    (cs : List MockCall) (m : MockLogger)
    → m.shutdown ≡ false
    → ((mock_run cs m).entries ≡ m.entries ++ accepted cs)
      × (length (mock_run cs m).rejected ≡ length m.rejected + refused false cs)
unfolding mock_run accepted refused mock_flush mock_shutdown
run-up [] m h = (sym (append-nil m.entries), omega arith)
run-up (logs e ∷ cs) m h =
    let m' = record m { entries = m.entries ++ e ∷ [] } in
    let (kept, same) = run-up cs m' h in
    (
      ap (λ x. (mock_run cs x).entries) (mock_log-up e m h)
          ∙ kept
          ∙ append_assoc m.entries (e ∷ []) (accepted cs),
      ap (λ x. length (mock_run cs x).rejected) (mock_log-up e m h) ∙ same,
    )
run-up (flushes ∷ cs) m h = run-up cs (mock_flush m).1 h
run-up (shuts_down ∷ cs) m h =
    let (same, more) = run-down cs (mock_shutdown m).1 refl in
    (same ∙ sym (append-nil m.entries), more)

-- A new MockLogger holds, after any calls, the entries that were logged before the
-- first Shutdown, in their order, and has rejected as many as were logged after it.
pub mock_run-accepted :
    (flush_err shutdown_err : Option Error) (cs : List MockCall)
    → ((mock_run cs (new_mock_logger flush_err shutdown_err)).entries ≡ accepted cs)
      × (length (mock_run cs (new_mock_logger flush_err shutdown_err)).rejected ≡ refused false cs)
unfolding new_mock_logger
mock_run-accepted flush_err shutdown_err cs =
    let (kept, rejects) = run-up cs (new_mock_logger flush_err shutdown_err) refl in
    (kept, rejects ∙ omega arith)
