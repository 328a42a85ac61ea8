-- ===== src/App/Handle/Errors.antt =====
-- HandleError of each state of app/state.go, handleStateDataError, and the steps that several
-- handlers share.
use mender.Prelude.{
  ℕ, ◌+◌, Bool, true, false, Option, none, some, List, [], ◌∷◌, String, Error, cause, if◌then◌else◌,
  is_max_count_exceeded,
}
use mender.Datastore.StateData.{UpdateInfo, support_eq, supported}
use mender.App.Error.{MenderError, new_fatal_error, new_transient_error}
use mender.App.State.{Status, State, new_status_report}
use mender.App.World.{
  Operation, Call, Env, M, Next, WaitEnd, pure, ask, ◌>>=◌, ◌>>◌, go, call, call_, operate,
  set_broken_artifact_flag,
}

module _ {B : Type 0} (env : Env B) where
  -- updateState.HandleError, the default for most update states.
  unfoldable pub default_error : UpdateInfo → MenderError → M B Next
  default_error u e =
      if support_eq u.supports_rollback supported
      then go (State.rollback u)
      else do set_broken_artifact_flag env u.artifact.artifact_name; go (State.update_error e u)

  -- "Too late to back out now. Just report the error, but do not try to roll back."
  unfoldable pub too_late : UpdateInfo → M B Next
  too_late u = do
    set_broken_artifact_flag env u.artifact.artifact_name
    go (State.update_cleanup u Status.failure)

  unfoldable pub rollback_error : UpdateInfo → MenderError → M B Next
  rollback_error u e = do
    set_broken_artifact_flag env u.artifact.artifact_name
    go (State.update_error e u)

  -- State.HandleError; the last clause is baseState.HandleError.
  unfoldable pub handle_error : State → MenderError → M B Next
  unfolding default_error too_late rollback_error
  handle_error (State.update_store s u) e = go (State.update_cleanup u Status.failure)
  handle_error (State.update_after_store u) e = go (State.update_cleanup u Status.failure)
  handle_error (State.update_install u) e = default_error u e
  handle_error (State.update_commit u n) e = default_error u e
  handle_error (State.update_after_first_commit u) e = too_late u
  handle_error (State.update_after_commit u) e = too_late u
  handle_error (State.update_cleanup u s) e = default_error u e
  handle_error (State.status_report u s n m) e = default_error u e
  handle_error (State.report_error u s) e = go State.idle
  handle_error (State.reboot u) e = default_error u e
  handle_error (State.verify_reboot u) e = default_error u e
  handle_error (State.after_reboot u) e = default_error u e
  handle_error (State.rollback u) e = rollback_error u e
  handle_error (State.rollback_reboot u) e = go (State.verify_rollback_reboot u)
  handle_error (State.verify_rollback_reboot u) e = go (State.rollback_reboot u)
  handle_error (State.after_rollback_reboot u) e = default_error u e
  handle_error _ e = go (State.error e)

  -- handleStateDataError: the next state, unless the store count is exceeded.
  unfoldable pub handle_state_data_error : Next → UpdateInfo → Error → M B Next
  handle_state_data_error next u e =
      if is_max_count_exceeded e
      then (do
        set_broken_artifact_flag env u.artifact.artifact_name
        go (new_status_report u Status.failure))
      else pure next

  -- The errors of a rejected or failing status report, in ReportUpdateStatus of app/mender.go.
  report_failed : Error → Error → M B (Option MenderError)
  report_failed Error.not_authorized e = do
    call_ env Call.remove_auth_token
    pure (some (new_transient_error e))
  report_failed Error.deployment_aborted e = pure (some (new_fatal_error e))
  report_failed _ e = pure (some (new_transient_error e))

  unfoldable pub report_update_status : UpdateInfo → Status → M B (Option MenderError)
  unfolding report_failed
  report_update_status u status = do
    e ← call env (Call.report_status u.id status)
    elim e [ none ↦ pure none | some x ↦ report_failed (cause x) x ]

  -- `merr != nil && merr.IsFatal()`
  abbrev pub is_fatal : Option MenderError → Bool
  is_fatal none = false
  is_fatal (some e) = e.is_fatal

  -- waitState.Wait with a channel for Cancel.
  unfoldable pub wait : State → State → ℕ → M B Next
  wait next same d = do
    end ← ask (Call.wait d) env.wait_reply
    elim end [
      | WaitEnd.timer ↦ pure (next, false)
      | WaitEnd.wakeup ↦ pure (next, false)
      | WaitEnd.cancel ↦ pure (same, true)
    ]

  -- waitState.Wait where the field `cancel` is the nil channel, which is never ready: only the
  -- timer or a wake-up can end the wait.
  unfoldable pub wait_without_cancel : State → ℕ → M B Next
  wait_without_cancel next d = do end ← ask (Call.wait d) env.wait_reply; go next

  -- A loop over the installers that returns at the first error; the ℕ is the index.
  unfoldable pub until_failure : Operation → List String → ℕ → M B (Option Error)
  until_failure op [] n = pure none
  until_failure op (t ∷ ts) n = do
    e ← operate env n op
    elim e [ none ↦ until_failure op ts (n + 1) | some x ↦ pure (some x) ]

  abbrev pub or_first : Option Error → Option Error → Option Error
  or_first none e = e
  or_first (some x) e = some x

  -- A loop over the installers that goes on after an error. It returns the first one.
  unfoldable pub for_all : Operation → List String → ℕ → M B (Option Error)
  for_all op [] n = pure none
  for_all op (t ∷ ts) n = do
    e ← operate env n op
    rest ← for_all op ts (n + 1)
    pure (or_first e rest)
