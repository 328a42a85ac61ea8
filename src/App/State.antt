-- ===== src/App/State.antt =====
-- The states of app/state.go with their data, and what they are by id, transition and update.
use mender.Prelude.{ℕ, Bool, Option, none, some, Error, ◌==◌, not}
use mender.Datastore.StateData.{MenderState, UpdateInfo}
use mender.App.Error.{MenderError}
use mender.App.Transition.{Transition, number}

-- The statuses of client/client_status.go.
pub data Status : Type 0 where
  installing downloading rebooting success failure already_installed : Status

-- One constructor for each state type. A state holds a copy of its update; `update_store` also the
-- stream of the artifact, and the retry states the state that they return to.
pub data State : Type 0 where
  init idle authorize authorize_wait check_wait inventory_update update_check final : State
  error : MenderError → State
  update_fetch : UpdateInfo → State
  update_store : ℕ → UpdateInfo → State
  update_after_store : UpdateInfo → State
  fetch_store_retry : State → UpdateInfo → Option Error → State
  update_install : UpdateInfo → State
  update_commit : UpdateInfo → ℕ → State
  pre_commit_retry : State → ℕ → State
  update_after_first_commit : UpdateInfo → State
  update_after_commit : UpdateInfo → State
  update_error : MenderError → UpdateInfo → State
  update_cleanup : UpdateInfo → Status → State
  status_report : UpdateInfo → Status → ℕ → ℕ → State
  status_report_retry : State → UpdateInfo → Status → ℕ → State
  report_error : UpdateInfo → Status → State
  reboot : UpdateInfo → State
  verify_reboot : UpdateInfo → State
  after_reboot : UpdateInfo → State
  rollback : UpdateInfo → State
  rollback_reboot : UpdateInfo → State
  verify_rollback_reboot : UpdateInfo → State
  after_rollback_reboot : UpdateInfo → State

-- `New…State` of the states that start with counters at 0.
abbrev pub new_update_commit : UpdateInfo → State
new_update_commit u = State.update_commit u 0

abbrev pub new_status_report : UpdateInfo → Status → State
new_status_report u status = State.status_report u status 0 0

-- State.Id(), as the constructors of the states set it.
unfoldable pub id : State → MenderState
id State.init = MenderState.init
id State.idle = MenderState.idle
id State.authorize = MenderState.authorize
id State.authorize_wait = MenderState.authorize_wait
id State.check_wait = MenderState.check_wait
id State.inventory_update = MenderState.inventory_update
id State.update_check = MenderState.update_check
id State.final = MenderState.done
id (State.error e) = MenderState.error
id (State.update_fetch u) = MenderState.update_fetch
id (State.update_store s u) = MenderState.update_store
id (State.update_after_store u) = MenderState.update_after_store
id (State.fetch_store_retry from u e) = MenderState.fetch_store_retry_wait
id (State.update_install u) = MenderState.update_install
id (State.update_commit u n) = MenderState.update_commit
id (State.pre_commit_retry s n) = MenderState.update_pre_commit_status_report_retry
id (State.update_after_first_commit u) = MenderState.update_after_first_commit
id (State.update_after_commit u) = MenderState.update_after_commit
id (State.update_error e u) = MenderState.update_error
id (State.update_cleanup u s) = MenderState.update_cleanup
id (State.status_report u s n m) = MenderState.update_status_report
id (State.status_report_retry r u s n) = MenderState.status_report_retry
id (State.report_error u s) = MenderState.report_status_error
id (State.reboot u) = MenderState.reboot
id (State.verify_reboot u) = MenderState.after_reboot
id (State.after_reboot u) = MenderState.after_reboot
id (State.rollback u) = MenderState.rollback
id (State.rollback_reboot u) = MenderState.rollback_reboot
id (State.verify_rollback_reboot u) = MenderState.verify_rollback_reboot
id (State.after_rollback_reboot u) = MenderState.after_rollback_reboot

-- NewUpdateCleanupState's choice.
cleanup_transition : Status → Transition
cleanup_transition Status.success = Transition.none
cleanup_transition _ = Transition.error

-- State.Transition()
unfoldable pub transition : State → Transition
unfolding cleanup_transition
transition State.init = Transition.none
transition State.idle = Transition.idle
transition State.authorize = Transition.sync
transition State.authorize_wait = Transition.idle
transition State.check_wait = Transition.idle
transition State.inventory_update = Transition.sync
transition State.update_check = Transition.sync
transition State.final = Transition.none
transition (State.error e) = Transition.error
transition (State.update_fetch u) = Transition.download_enter
transition (State.update_store s u) = Transition.download_enter
transition (State.update_after_store u) = Transition.download_leave
transition (State.fetch_store_retry from u e) = Transition.download_enter
transition (State.update_install u) = Transition.artifact_install
transition (State.update_commit u n) = Transition.artifact_commit_enter
transition (State.pre_commit_retry s n) = Transition.artifact_commit_enter
transition (State.update_after_first_commit u) = Transition.none
transition (State.update_after_commit u) = Transition.artifact_commit_leave
transition (State.update_error e u) = Transition.artifact_failure
transition (State.update_cleanup u s) = cleanup_transition s
transition (State.status_report u s n m) = Transition.none
transition (State.status_report_retry r u s n) = Transition.none
transition (State.report_error u s) = Transition.artifact_failure
transition (State.reboot u) = Transition.artifact_reboot_enter
transition (State.verify_reboot u) = Transition.artifact_reboot_leave
transition (State.after_reboot u) = Transition.artifact_reboot_leave
transition (State.rollback u) = Transition.artifact_rollback
transition (State.rollback_reboot u) = Transition.artifact_rollback_reboot_enter
transition (State.verify_rollback_reboot u) = Transition.artifact_rollback_reboot_leave
transition (State.after_rollback_reboot u) = Transition.artifact_rollback_reboot_leave

-- The type assertion `state.(UpdateState)` with its Update(): the states with such a method.
unfoldable pub update? : State → Option UpdateInfo
update? (State.update_fetch u) = some u
update? (State.update_store s u) = some u
update? (State.update_after_store u) = some u
update? (State.update_install u) = some u
update? (State.update_commit u n) = some u
update? (State.update_after_first_commit u) = some u
update? (State.update_after_commit u) = some u
update? (State.update_error e u) = some u
update? (State.update_cleanup u s) = some u
update? (State.status_report u s n m) = some u
update? (State.status_report_retry r u s n) = some u
update? (State.report_error u s) = some u
update? (State.reboot u) = some u
update? (State.verify_reboot u) = some u
update? (State.after_reboot u) = some u
update? (State.rollback u) = some u
update? (State.rollback_reboot u) = some u
update? (State.verify_rollback_reboot u) = some u
update? (State.after_rollback_reboot u) = some u
update? _ = none

-- The map `stateStatus` of app/mender.go; a missing entry is the empty status.
unfoldable pub state_status : MenderState → Option Status
state_status MenderState.update_fetch = some Status.downloading
state_status MenderState.update_store = some Status.downloading
state_status MenderState.update_install = some Status.installing
state_status MenderState.update_verify = some Status.rebooting
state_status MenderState.update_commit = some Status.rebooting
state_status MenderState.reboot = some Status.rebooting
state_status MenderState.after_reboot = some Status.rebooting
state_status MenderState.rollback = some Status.rebooting
state_status MenderState.rollback_reboot = some Status.rebooting
state_status MenderState.after_rollback_reboot = some Status.rebooting
state_status MenderState.update_error = some Status.failure
state_status _ = none

abbrev pub should_transit : State → State → Bool
should_transit from to = not (number (transition from) == number (transition to))
