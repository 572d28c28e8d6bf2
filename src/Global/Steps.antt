-- ===== src/Global/Steps.antt =====
-- All interleavings of the calls of L and SetGlobal in pkg/logger/config.go.
use kit_logger.Base.{ℕ, ◌≡◌, some, List, [], ◌∷◌, ◌++◌}
use kit_logger.Global.Defs.{World, fresh_world, Call, entering, set_global, call_step}

-- the shared state and the calls of L so far
pub record System : Type 0 where
  pub world : World
  pub calls : List Call

pub data Step : System → System → Type 0 where
  sets : {s : System} (l : ℕ) → Step s (record s { world = set_global l s.world })
  calls_l : {s : System} → Step s (record s { calls = entering ∷ s.calls })
  advances :
      {w w' : World} (before after : List Call) (c c' : Call) (l : ℕ)
      → call_step l c w ≡ some (c', w')
      → Step
          (record { world = w; calls = before ++ c ∷ after })
          (record { world = w'; calls = before ++ c' ∷ after })

-- the states that are reached from the start of the process
pub data Reach : System → Type 0 where
  start : Reach (record { world = fresh_world; calls = [] })
  more : {s t : System} → Reach s → Step s t → Reach t
