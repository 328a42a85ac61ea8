-- ===== src/App/Daemon.antt =====
-- MenderDaemon.Run of app/daemon.go.
use mender.Prelude.{◌||◌, Bool, true, false, Option, none, some, List, [], ◌∷◌, if◌then◌else◌}
use mender.App.Error.{MenderError}
use mender.App.State.{State}
use mender.App.World.{Env, M, Next, pure, ◌>>=◌}
use mender.App.Transit.{transition_state}

-- The end of the loop: by a fatal error, or by nil; `running` is the state at its top.
pub data Run : Type 0 where
  running : State → Run
  failed : MenderError → Run
  stopped : Run

-- What reaches the daemon in one round: a state that a signal forces, and StopDaemon.
pub record Signal : Type 0 where
  pub force : Option State
  pub stop : Bool

-- The states in which a signal may force another.
abbrev pub may_force : State → Bool
may_force State.idle = true
may_force State.check_wait = true
may_force State.update_check = true
may_force State.inventory_update = true
may_force _ = false

unfoldable pub forced : Option State → State → State
forced none to = to
forced (some s) to = if may_force to then s else to

-- The id of the final state is MenderStateDone.
abbrev pub is_final : State → Bool
is_final State.final = true
is_final _ = false

-- The tests behind TransitionState. Only an errorState has the id MenderStateError.
unfoldable pub after_transition : Next → Run
after_transition (State.error e, cancelled) =
    if e.is_fatal then failed e else if cancelled then stopped else running (State.error e)
after_transition (to, cancelled) = if cancelled || is_final to then stopped else running to

module _ {B : Type 0} (env : Env B) where
  -- The loop, for as many rounds as there are signals.
  unfoldable pub run : List Signal → State → M B Run
  run [] to = pure (running to)
  run (signal ∷ signals) to = do
    next ← transition_state env (forced signal.force to)
    elim (after_transition next) [
      | running s ↦ if signal.stop then pure stopped else run signals s
      | failed e ↦ pure (failed e)
      | stopped ↦ pure stopped
    ]
