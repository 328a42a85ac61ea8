-- ===== src/App/Diagram/Total.antt =====
-- The diagram is complete: every handler follows its arrows.
use mender.Prelude.{◌≡◌, true, arith}
use mender.App.State.{State}
use mender.App.World.{Operation, remove_state_data, Env, World}
use mender.App.Handle.Errors.{handle_error, wait, report_update_status}
use mender.App.Handle.Idle
use mender.App.Handle.Download
use mender.App.Handle.Install
use mender.App.Handle.Commit
use mender.App.Handle.Report
use mender.App.Handle.Reboot
use mender.App.Transit.{handle}
use mender.App.Diagram.Rules.{returns-until_failure, returns-for_all}
use mender.App.Diagram.{kind, is_well_formed, follows}
use mender.App.Diagram.Early.{follows-init, follows-update_store, follows-update_install}
use mender.App.Diagram.Late.{
  follows-update_commit, follows-update_after_first_commit, follows-reboot, follows-rollback,
  follows-rollback_reboot,
}

module _ {B : Type 0} (env : Env B) where
  -- Whatever the environment answers, a handler returns, except that those of the final state, of the
  -- check for an update and of the state behind the first commit may panic. It leads from its state
  -- along an arrow of the diagram, from a retry state again to one that returns to a commit or a
  -- status report, and to a state that claims success only from a restart, a commit, what follows a
  -- commit, a cleanup or a status report.
  pub handle-follows :
      (s : State) (w : World B) → is_well_formed s ≡ true → follows (kind s) (handle env s w) ≡ true
  unfolding handle Idle.handle_idle Idle.handle_authorize Idle.handle_authorize_wait
      Idle.handle_check_wait Idle.handle_inventory_update Idle.handle_update_check Idle.handle_final
      Idle.handle_error_state Download.handle_update_fetch Download.handle_fetch_store_retry
      Install.handle_update_after_store Commit.handle_pre_commit_retry
      Commit.handle_update_after_commit Report.handle_update_error Report.handle_update_cleanup
      Report.handle_status_report Report.send_deployment_logs Report.handle_status_report_retry
      Report.handle_report_error Reboot.handle_verify_reboot Reboot.handle_after_reboot
      Reboot.handle_verify_rollback_reboot Reboot.handle_after_rollback_reboot handle_error wait
      report_update_status remove_state_data
  handle-follows State.init w h = follows-init env w
  handle-follows (State.update_store s u) w h = follows-update_store env s u w
  handle-follows (State.update_install u) w h = follows-update_install env u w
  handle-follows (State.update_commit u n) w h = follows-update_commit env u n w
  handle-follows (State.update_after_first_commit u) w h = follows-update_after_first_commit env u w
  handle-follows (State.reboot u) w h = follows-reboot env u w
  handle-follows (State.rollback u) w h = follows-rollback env u w
  handle-follows (State.rollback_reboot u) w h = follows-rollback_reboot env u w
  handle-follows (State.update_error e u) w h =
      grind (arith, returns-for_all env Operation.failure w.installers 0)
  handle-follows (State.update_cleanup u t) w h =
      grind (arith, returns-for_all env Operation.cleanup w.installers 0)
  handle-follows (State.verify_reboot u) w h =
      grind (arith, returns-until_failure env Operation.verify_reboot w.installers 0)
  handle-follows (State.verify_rollback_reboot u) w h =
      grind (arith, returns-until_failure env Operation.verify_rollback_reboot w.installers 0)
  handle-follows _ w h = ground arith
