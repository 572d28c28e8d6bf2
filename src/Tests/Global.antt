-- ===== src/Tests/Global.antt =====
-- The process-wide logger on one interleaving: a call of L finds nothing, another one waits for it, and
-- SetGlobal comes before the default is stored.
use kit_logger.Base.{ℕ, ◌≤◌, ◌≡◌, refl, true, Option, some, List, [], ◌∷◌, ◌++◌}
use kit_logger.Global.{
  World, Call, entering, at_once, building, storing, returned, in_progress, set_global, first_load,
  enter_once, call_step,
}
use kit_logger.Global.Steps.{System, sets, calls_l, advances, Reach, start, more}
use kit_logger.Global.Invariant.{is_some}
use kit_logger.Global.Default.{global_logger_lem}

abbrev state : System
state = record {
  world = record { stored = some 7; once = in_progress; made = 1 };
  calls = storing 5 ∷ [];
}

state-Reach : Reach state
unfolding call_step first_load enter_once set_global
state-Reach =
    more
      (more
        (more (more (more start calls_l) (advances [] [] entering at_once 5 refl))
          (advances [] [] at_once building 5 refl))
        (advances [] [] building (storing 5) 5 refl))
      (sets 7)

global_logger_lem_example :
    (state.world.made ≤ 1)
    × ((before after : List Call) (o : Option ℕ)
        → state.calls ≡ before ++ returned o ∷ after
        → is_some o ≡ true)
    × ((l : ℕ) (c c' : Call) (w' : World) (k : ℕ)
        → call_step l c state.world ≡ some (c', w')
        → state.world.stored ≡ some k
        → w'.stored ≡ some k)
global_logger_lem_example = global_logger_lem state state-Reach
