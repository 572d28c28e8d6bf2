-- ===== src/Global/Default.antt =====
-- The lazy default of the process-wide logger in pkg/logger/config.go: L and SetGlobal together.
use kit_logger.Base.{
  ℕ, ◌≤◌, ◌≡◌, sym, ap, subst, ◌∙◌, true, Option, none, some, List, ◌∷◌, ◌++◌, arith,
}
use kit_logger.Global.Defs.{
  Once, not_started, in_progress, complete, World, Call, entering, at_once, building, storing,
  finishing, reloading, returned, or_stored, swap_nil, enter_once, call_step,
}
use kit_logger.Global.Steps.{System, Reach}
use kit_logger.Global.Invariant.{is_some, AllSound, IsSound-at, Reach-Inv}

-- what an action leaves stored
abbrev stored_after : Option (Call × World) → Option ℕ
stored_after none = none
stored_after (some (c, w)) = w.stored

enter_once-keeps :
    (o : Once) (w : World) (c' : Call) (w' : World)
    → enter_once o w ≡ some (c', w')
    → w'.stored ≡ w.stored
unfolding enter_once
enter_once-keeps not_started w c' w' e = sym (ap stored_after e)
enter_once-keeps in_progress w c' w' e = absurd (cc)
enter_once-keeps complete w c' w' e = sym (ap stored_after e)

call_step-keeps :
    (l : ℕ) (c : Call) (w : World) (c' : Call) (w' : World) (k : ℕ)
    → call_step l c w ≡ some (c', w')
    → w.stored ≡ some k
    → w'.stored ≡ some k
unfolding call_step swap_nil
call_step-keeps l entering w c' w' k e h = sym (ap stored_after e) ∙ h
call_step-keeps l at_once w c' w' k e h = enter_once-keeps w.once w c' w' e ∙ h
call_step-keeps l building w c' w' k e h = sym (ap stored_after e) ∙ h
call_step-keeps l (storing j) w c' w' k e h = sym (ap stored_after e) ∙ ap (or_stored j) h
call_step-keeps l finishing w c' w' k e h = sym (ap stored_after e) ∙ h
call_step-keeps l reloading w c' w' k e h = sym (ap stored_after e) ∙ h
call_step-keeps l (returned o) w c' w' k e h = absurd (cc)

-- In every state that any interleaving of calls of SetGlobal and of L reaches: at most one default
-- logger has been constructed, every call of L that has returned has returned a logger, and no action
-- of a call of L replaces a logger that is stored.
pub global_logger_lem :
    (s : System)
    → Reach s
    → (s.world.made ≤ 1)
      × ((before after : List Call) (o : Option ℕ)
          → s.calls ≡ before ++ returned o ∷ after
          → is_some o ≡ true)
      × ((l : ℕ) (c c' : Call) (w' : World) (k : ℕ)
          → call_step l c s.world ≡ some (c', w')
          → s.world.stored ≡ some k
          → w'.stored ≡ some k)
global_logger_lem s r =
    let inv = Reach-Inv r in
    (
      (let m = inv.one_made in omega arith),
      λ before after o e.
          IsSound-at s.world.stored before after (returned o)
            (subst (AllSound s.world.stored) e inv.sound),
      λ l c c' w' k e h. call_step-keeps l c s.world c' w' k e h,
    )
