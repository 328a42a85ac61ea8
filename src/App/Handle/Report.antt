-- ===== src/App/Handle/Report.antt =====
-- The handlers of app/state.go that end an update: the error state, cleanup and the status report.
use mender.Prelude.{ℕ, ◌+◌, ltb, Bool, true, false, none, some, if◌then◌else◌}
use mender.Datastore.StateData.{UpdateInfo}
use mender.App.State.{Status, State, new_status_report}
use mender.App.World.{
  Operation, Call, Env, M, Next, gets, ◌>>=◌, ◌>>◌, set_current, go, call, call_,
}
use mender.App.Handle.Errors.{report_update_status, wait, for_all}
use mender.App.Handle.Commit.{max_try_sending}

abbrev pub is_failure : Status → Bool
is_failure Status.failure = true
is_failure _ = false

module _ {B : Type 0} (env : Env B) where
  -- Failing ArtifactFailure scripts are only logged.
  unfoldable pub handle_update_error : UpdateInfo → M B Next
  handle_update_error u = do
    installers ← gets (λ w. w.installers)
    _ ← for_all env Operation.failure installers 0
    go (State.update_cleanup u Status.failure)

  unfoldable pub handle_update_cleanup : UpdateInfo → Status → M B Next
  handle_update_cleanup u status = do
    call_ env (Call.enable_log u.id)
    installers ← gets (λ w. w.installers)
    e ← for_all env Operation.cleanup installers 0
    elim e [
      | none ↦ go (new_status_report u status)
      | some _ ↦ go (new_status_report u Status.failure)
    ]

  abbrev report_done : M B Next
  report_done = do call_ env Call.disable_log; go State.idle

  -- sendDeploymentLogs, with the handler's reaction. The field `logs` of the state is never set.
  unfoldable pub send_deployment_logs : UpdateInfo → Status → ℕ → ℕ → M B Next
  send_deployment_logs u status tries tries_logs = do
    e ← call env (Call.get_logs u.id)
    elim e [
      | some _ ↦ go (State.report_error u status)
      | none ↦ do
        set_current (State.status_report u status tries (tries_logs + 1))
        sent ← call env (Call.upload_log u.id)
        elim sent [
          | none ↦ report_done
          | some _ ↦ go (
              State.status_report_retry (State.status_report u status tries (tries_logs + 1)) u
                status (tries_logs + 1))
        ]
    ]

  unfoldable pub handle_status_report : UpdateInfo → Status → ℕ → ℕ → M B Next
  handle_status_report u status tries tries_logs = do
    call_ env (Call.enable_log u.id)
    set_current (State.status_report u status (tries + 1) tries_logs)
    merr ← report_update_status env u status
    elim merr [
      | none ↦
          if is_failure status
          then send_deployment_logs u status (tries + 1) tries_logs
          else report_done
      | some m ↦
          if m.is_fatal
          then go (State.report_error u status)
          else go (
              State.status_report_retry (State.status_report u status (tries + 1) tries_logs) u
                status (tries + 1))
    ]

  unfoldable pub handle_status_report_retry : State → UpdateInfo → Status → ℕ → M B Next
  handle_status_report_retry report_state u status tries =
      if ltb tries (max_try_sending env)
      then wait env report_state (State.status_report_retry report_state u status tries)
          env.retry_poll_interval
      else go (State.report_error u status)

  after_report_error : UpdateInfo → Status → State
  after_report_error u Status.success = State.rollback u
  after_report_error u Status.failure = State.idle
  after_report_error u Status.already_installed = State.idle
  after_report_error u _ = State.final

  unfoldable pub handle_report_error : UpdateInfo → Status → M B Next
  unfolding after_report_error
  handle_report_error u status = do
    call_ env (Call.enable_log u.id)
    go (after_report_error u status)
