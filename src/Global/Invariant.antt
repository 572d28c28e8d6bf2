-- ===== src/Global/Invariant.antt =====
-- The invariant of the process-wide logger of pkg/logger/config.go under all interleavings.
use kit_logger.Base.{
  ℕ, ◌+◌, ◌≡◌, refl, subst, Bool, true, false, Option, none, some, List, [], ◌∷◌, ◌++◌, arith,
}
use kit_logger.Global.Defs.{
  Once, not_started, in_progress, complete, World, Call, entering, at_once, building, storing,
  finishing, reloading, returned, or_stored, set_global, swap_nil, first_load, enter_once,
  call_step,
}
use kit_logger.Global.Steps.{System, Step, sets, calls_l, advances, Reach, start, more}

abbrev pub is_some : Option ℕ → Bool
is_some none = false
is_some (some l) = true

-- what a call relies on or has got is a logger
abbrev pub IsSound : Option ℕ → Call → Type 0
IsSound stored entering = Unit {0}
IsSound stored at_once = Unit {0}
IsSound stored building = Unit {0}
IsSound stored (storing l) = Unit {0}
IsSound stored finishing = is_some stored ≡ true
IsSound stored reloading = is_some stored ≡ true
IsSound stored (returned o) = is_some o ≡ true

abbrev pub AllSound : Option ℕ → List Call → Type 0
AllSound stored [] = Unit {0}
AllSound stored (c ∷ cs) = IsSound stored c × AllSound stored cs

-- 1 for a call inside `globalOnce.Do`, and for one whose `New` has not returned
abbrev pub weight_inside : Call → ℕ
weight_inside building = 1
weight_inside (storing l) = 1
weight_inside finishing = 1
weight_inside entering = 0
weight_inside at_once = 0
weight_inside reloading = 0
weight_inside (returned o) = 0

abbrev pub weight_building : Call → ℕ
weight_building building = 1
weight_building (storing l) = 0
weight_building finishing = 0
weight_building entering = 0
weight_building at_once = 0
weight_building reloading = 0
weight_building (returned o) = 0

pub total : (Call → ℕ) → List Call → ℕ
total f [] = 0
total f (c ∷ cs) = f c + total f cs

abbrev pub running : Once → ℕ
running not_started = 0
running in_progress = 1
running complete = 0

abbrev pub unstarted : Once → ℕ
unstarted not_started = 1
unstarted in_progress = 0
unstarted complete = 0

abbrev pub IfComplete : Once → Option ℕ → Type 0
IfComplete not_started stored = Unit {0}
IfComplete in_progress stored = Unit {0}
IfComplete complete stored = is_some stored ≡ true

pub record Inv (s : System) : Type 0 where
  pub one_inside : total weight_inside s.calls ≡ running s.world.once
  pub one_made : s.world.made + total weight_building s.calls + unstarted s.world.once ≡ 1
  pub done : IfComplete s.world.once s.world.stored
  pub sound : AllSound s.world.stored s.calls

total-append : (f : Call → ℕ) (cs ds : List Call) → total f (cs ++ ds) ≡ total f cs + total f ds
unfolding total
total-append f [] ds = omega arith
total-append f (c ∷ cs) ds = let e = total-append f cs ds in omega arith

total-at :
    (f : Call → ℕ) (before after : List Call) (c : Call)
    → total f (before ++ c ∷ after) ≡ total f before + f c + total f after
unfolding total
total-at f before after c = let e = total-append f before (c ∷ after) in omega arith

-- a logger that is stored stays stored
Raises : Option ℕ → Option ℕ → Type 0
Raises old new = is_some old ≡ true → is_some new ≡ true

IsSound-raise : (old new : Option ℕ) (c : Call) → Raises old new → IsSound old c → IsSound new c
unfolding Raises
IsSound-raise old new entering r h = tt
IsSound-raise old new at_once r h = tt
IsSound-raise old new building r h = tt
IsSound-raise old new (storing l) r h = tt
IsSound-raise old new finishing r h = r h
IsSound-raise old new reloading r h = r h
IsSound-raise old new (returned o) r h = h

AllSound-raise :
    (old new : Option ℕ) (cs : List Call) → Raises old new → AllSound old cs → AllSound new cs
AllSound-raise old new [] r h = tt
AllSound-raise old new (c ∷ cs) r (first, rest) =
    (IsSound-raise old new c r first, AllSound-raise old new cs r rest)

pub IsSound-at :
    (st : Option ℕ) (before after : List Call) (c : Call)
    → AllSound st (before ++ c ∷ after)
    → IsSound st c
IsSound-at st [] after c (first, rest) = first
IsSound-at st (b ∷ before) after c (first, rest) = IsSound-at st before after c rest

AllSound-put :
    (old new : Option ℕ) (before after : List Call) (c c' : Call)
    → Raises old new
    → AllSound old (before ++ c ∷ after)
    → IsSound new c'
    → AllSound new (before ++ c' ∷ after)
AllSound-put old new [] after c c' r (first, rest) is = (is, AllSound-raise old new after r rest)
AllSound-put old new (b ∷ before) after c c' r (first, rest) is =
    (IsSound-raise old new b r first, AllSound-put old new before after c c' r rest is)

or_stored-some : (l : ℕ) (o : Option ℕ) → is_some (or_stored l o) ≡ true
or_stored-some l none = refl
or_stored-some l (some old) = refl

if_complete : (o : Once) (st : Option ℕ) → is_some st ≡ true → IfComplete o st
if_complete not_started st h = tt
if_complete in_progress st h = tt
if_complete complete st h = h

-- where a call is inside, the once is in progress
inside_once : (o : Once) (n : ℕ) → n + 1 ≡ running o → (running o ≡ 1) × (unstarted o ≡ 0)
inside_once not_started n h = absurd (omega arith)
inside_once in_progress n h = (refl, refl)
inside_once complete n h = absurd (omega arith)

module _ (before after : List Call) where
  abbrev with_call : Call → World → System
  with_call c w = record { world = w; calls = before ++ c ∷ after }

  put-Inv :
      (c c' : Call) (w w' : World)
      → Inv (with_call c w)
      → Raises w.stored w'.stored
      → IfComplete w'.once w'.stored
      → IsSound w'.stored c'
      → weight_inside c' + running w.once ≡ weight_inside c + running w'.once
      → w'.made + weight_building c' + unstarted w'.once
        ≡ w.made + weight_building c + unstarted w.once
      → Inv (with_call c' w')
  put-Inv c c' w w' inv raise done is inside made =
      let i = inv.one_inside in
      let m = inv.one_made in
      let i1 = total-at weight_inside before after c in
      let i2 = total-at weight_inside before after c' in
      let m1 = total-at weight_building before after c in
      let m2 = total-at weight_building before after c' in
      record {
        one_inside = omega arith;
        one_made = omega arith;
        done = done;
        sound = AllSound-put w.stored w'.stored before after c c' raise inv.sound is;
      }

  -- the invariant holds after an action, where there is one
  abbrev InvAfter : Option (Call × World) → Type 0
  InvAfter none = Unit {0}
  InvAfter (some (c', w')) = Inv (with_call c' w')

  first_load-Inv :
      (o : Option ℕ) (w : World)
      → w.stored ≡ o
      → Inv (with_call entering w)
      → Inv (with_call (first_load o) w)
  unfolding first_load Raises
  first_load-Inv none w e inv = put-Inv entering at_once w w inv (λ h. h) inv.done tt refl refl
  first_load-Inv (some l) w e inv =
      put-Inv entering (returned (some l)) w w inv (λ h. h) inv.done refl refl refl

  enter_once-Inv :
      (o : Once) (w : World) → w.once ≡ o → Inv (with_call at_once w) → InvAfter (enter_once o w)
  unfolding enter_once Raises
  enter_once-Inv not_started w e inv =
      put-Inv at_once building w (record w { once = in_progress }) inv (λ h. h) tt tt (rw e refl)
        (rw e (omega arith))
  enter_once-Inv in_progress w e inv = tt
  enter_once-Inv complete w e inv =
      put-Inv at_once reloading w w inv (λ h. h) inv.done
        (subst (λ o. IfComplete o w.stored) e inv.done) refl refl

  call_step-Inv : (l : ℕ) (c : Call) (w : World) → Inv (with_call c w) → InvAfter (call_step l c w)
  unfolding call_step swap_nil Raises
  call_step-Inv l entering w inv = first_load-Inv w.stored w refl inv
  call_step-Inv l at_once w inv = enter_once-Inv w.once w refl inv
  call_step-Inv l building w inv =
      put-Inv building (storing l) w (record w { made = w.made + 1 }) inv (λ h. h) inv.done tt refl
        (omega arith)
  call_step-Inv l (storing k) w inv =
      let there = or_stored-some k w.stored in
      put-Inv (storing k) finishing w (swap_nil k w) inv (λ h. there) (if_complete w.once _ there)
        there refl refl
  call_step-Inv l finishing w inv =
      let (inside, started) =
        inside_once w.once (total weight_inside before + total weight_inside after) (
          let i = inv.one_inside in
          let i1 = total-at weight_inside before after finishing in omega arith) in
      let there = IsSound-at w.stored before after finishing inv.sound in
      put-Inv finishing reloading w (record w { once = complete }) inv (λ h. h) there there
        (omega arith) (omega arith)
  call_step-Inv l reloading w inv =
      put-Inv reloading (returned w.stored) w w inv (λ h. h) inv.done
        (IsSound-at w.stored before after reloading inv.sound) refl refl
  call_step-Inv l (returned o) w inv = tt

Step-Inv : {s t : System} → Step s t → Inv s → Inv t
unfolding set_global total Raises
Step-Inv {s = s} (sets l) inv = record {
  one_inside = inv.one_inside;
  one_made = inv.one_made;
  done = if_complete s.world.once (some l) refl;
  sound = AllSound-raise s.world.stored (some l) s.calls (λ h. refl) inv.sound;
}
Step-Inv calls_l inv = record {
  one_inside = (let i = inv.one_inside in omega arith);
  one_made = (let m = inv.one_made in omega arith);
  done = inv.done;
  sound = (tt, inv.sound);
}
Step-Inv (advances before after c c' l e) inv =
    subst (InvAfter before after) e (call_step-Inv before after l c _ inv)

pub Reach-Inv : {s : System} → Reach s → Inv s
unfolding total
Reach-Inv start = record { one_inside = refl; one_made = refl; done = tt; sound = tt }
Reach-Inv (more r step) = Step-Inv step (Reach-Inv r)
