-- ===== src/App/Transit.antt =====
-- transitionState of app/mender.go with the scripts of app/transition.go, and the dispatch of Handle.
use mender.Prelude.{◌&&◌, not, Bool, true, Option, none, some, Error, other, if◌then◌else◌}
use mender.App.Error.{new_fatal_error, new_transient_error}
use mender.Text.{is_empty}
use mender.App.Transition.{Transition, Action, is_none, is_to_error, ignore_errors, get_name}
use mender.App.State.{Status, State, id, transition, update?, state_status, should_transit}
use mender.App.World.{
  Call, Report, Env, M, Next, pure, gets, ◌>>=◌, ◌>>◌, set_current, call, store_update,
}
use mender.App.Handle.Errors.{handle_error, handle_state_data_error}
use mender.App.Handle.Idle
use mender.App.Handle.Init
use mender.App.Handle.Download
use mender.App.Handle.Install
use mender.App.Handle.Commit
use mender.App.Handle.Report
use mender.App.Handle.Reboot

reported : Option Status → Report
reported none = none
reported (some s) = some (some s)

-- The report wrapper: nil if the state reports nothing or has no update.
unfoldable pub report_of : State → Report
unfolding reported
report_of to = elim (update? to) [ none ↦ none | some u ↦ reported (state_status (id to)) ]

-- "Set the reported status to be the same as the state where the error happened."
abbrev pub status_of_origin : State → Report → Report
status_of_origin from none = none
status_of_origin from (some s) = some (state_status (id from))

module _ {B : Type 0} (env : Env B) where
  -- State.Handle
  unfoldable pub handle : State → M B Next
  handle State.init = Init.handle_init env
  handle State.idle = Idle.handle_idle env
  handle State.authorize = Idle.handle_authorize env
  handle State.authorize_wait = Idle.handle_authorize_wait env
  handle State.check_wait = Idle.handle_check_wait env
  handle State.inventory_update = Idle.handle_inventory_update env
  handle State.update_check = Idle.handle_update_check env
  handle State.final = Idle.handle_final env
  handle (State.error e) = Idle.handle_error_state env e
  handle (State.update_fetch u) = Download.handle_update_fetch env u
  handle (State.update_store s u) = Download.handle_update_store env s u
  handle (State.update_after_store u) = Install.handle_update_after_store env u
  handle (State.fetch_store_retry r u e) = Download.handle_fetch_store_retry env r u e
  handle (State.update_install u) = Install.handle_update_install env u
  handle (State.update_commit u n) = Commit.handle_update_commit env u n
  handle (State.pre_commit_retry r n) = Commit.handle_pre_commit_retry env r n
  handle (State.update_after_first_commit u) = Commit.handle_update_after_first_commit env u
  handle (State.update_after_commit u) = Commit.handle_update_after_commit env u
  handle (State.update_error e u) = Report.handle_update_error env u
  handle (State.update_cleanup u s) = Report.handle_update_cleanup env u s
  handle (State.status_report u s n m) = Report.handle_status_report env u s n m
  handle (State.status_report_retry r u s n) = Report.handle_status_report_retry env r u s n
  handle (State.report_error u s) = Report.handle_report_error env u s
  handle (State.reboot u) = Reboot.handle_reboot env u
  handle (State.verify_reboot u) = Reboot.handle_verify_reboot env u
  handle (State.after_reboot u) = Reboot.handle_after_reboot env u
  handle (State.rollback u) = Reboot.handle_rollback env u
  handle (State.rollback_reboot u) = Reboot.handle_rollback_reboot env u
  handle (State.verify_rollback_reboot u) = Reboot.handle_verify_rollback_reboot env u
  handle (State.after_rollback_reboot u) = Reboot.handle_after_rollback_reboot env u

  -- Transition.Enter, Leave and Error: the scripts of an action. `ignore` is passed to the executor.
  unfoldable pub run_scripts : Transition → Action → Bool → Report → M B (Option Error)
  run_scripts t action ignore report =
      if is_none t
      then pure none
      else if is_empty (get_name t action)
      then pure none
      else call env (Call.execute_all (get_name t action) action ignore report)

  unfoldable pub enter : Transition → Report → M B (Option Error)
  unfolding run_scripts
  enter t report = run_scripts t Action.enter (ignore_errors t) report

  unfoldable pub leave : Transition → Report → M B (Option Error)
  unfolding run_scripts
  leave t report = run_scripts t Action.leave (ignore_errors t) report

  unfoldable pub error : Transition → Report → M B (Option Error)
  unfolding run_scripts
  error t report = run_scripts t Action.error true report

  -- Leaving `from`: `some` is the result of its HandleError.
  unfoldable pub leave_from : State → State → M B (Option Next)
  unfolding report_of
  leave_from from to =
      if not (should_transit from to)
      then pure none
      else if is_to_error (transition to) && not (is_to_error (transition from))
      then (do _ ← error (transition from) (status_of_origin from (report_of to)); pure none)
      else do
        e ← leave (transition from) (report_of to)
        elim e [
          | none ↦ pure none
          | some x ↦ do
            next ←
                handle_error env from (new_transient_error (other "error executing leave script"))
            pure (some next)
        ]

  -- Storing an update state: `some` is what follows from a failure.
  unfoldable pub store_state : State → M B (Option Next)
  store_state to = elim (update? to) [
    | none ↦ pure none
    | some u ↦ do
      e ← store_update env (id to) u
      elim e [
        | none ↦ pure none
        | some x ↦ do
          next ← handle_error env to (new_fatal_error x)
          next' ← handle_state_data_error env next u x
          pure (some next')
      ]
  ]

  -- The status that the enter scripts report: the pointer to the report is shared, so it is the
  -- one that an error transition has set.
  unfoldable pub report_to : State → State → Report
  unfolding report_of
  report_to from to =
      if should_transit from to
        && (is_to_error (transition to) && not (is_to_error (transition from)))
      then status_of_origin from (report_of to)
      else report_of to

  -- Entering `to`: its enter scripts, and then its handler.
  unfoldable pub enter_to : State → State → M B Next
  unfolding report_to
  enter_to from to = if not (should_transit from to) then handle to else do
    e ← enter (transition to) (report_to from to)
    elim e [
      | none ↦ handle to
      | some x ↦ handle_error env to (new_transient_error (other "error calling enter script"))
    ]

  unfoldable pub transition_state : State → M B Next
  transition_state to = do
    from ← gets (λ w. w.current)
    left ← leave_from from to
    elim left [
      | some next ↦ pure next
      | none ↦ do
        set_current to
        stored ← store_state to
        elim stored [ some next ↦ pure next | none ↦ enter_to from to ]
    ]
