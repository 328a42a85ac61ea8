-- ===== src/Examples/Waiting.antt =====
-- Runs of the status reports and their retries.
use mender.Text.{Text, text, contains}
use mender.App.DeploymentLogger.{
  LogManager, new_deployment_log_manager, rotate, rotate_log_file_name,
}
use mender.App.DeploymentLogger.Rotation.{Rotated, rotate-Rotated}
use mender.Prelude.{◌≡◌, refl, true, false, arith, String, List, [], ◌∷◌, ◌++◌}
use mender.App.State.{Status, State}
use mender.App.Transit.{handle}
use mender.App.Handle.Commit.{max_sending_attempts}
use mender.App.Retry.{is_bounded}
use mender.App.Retry.Ends.{left, gets_on, reports_end}
use mender.Examples.{sample, failing_env, world_at}

abbrev last_try : State
last_try = State.status_report sample Status.failure 10 0

last_try_bounded : is_bounded failing_env last_try ≡ true
unfolding max_sending_attempts
last_try_bounded = refl

reports_end_example :
    gets_on failing_env
      (left failing_env last_try)
      (handle failing_env last_try (world_at last_try))
    ≡ true
reports_end_example =
    reports_end failing_env last_try (world_at last_try) refl last_try_bounded refl

-- Six log files of older deployments.
abbrev log_manager : LogManager
log_manager = record (new_deployment_log_manager (text "/data/mender")) {
  deployment_id = text "new";
}

abbrev log_file : String → Text
log_file seq = text "deployments." ++ (text seq ++ text ".old.log")

rotated_name : rotate_log_file_name (log_file "0009") ≡ log_file "0010"
unfolding rotate_log_file_name
rotated_name = refl

abbrev older_files : List Text
older_files =
    log_file "0005"
    ∷ (log_file "0004" ∷ (log_file "0003" ∷ (log_file "0002" ∷ (log_file "0001" ∷ []))))

rotate-Rotated_example :
    Rotated 5
      (log_file "0006" ∷ older_files)
      false
      (rotate log_manager (log_file "0006" ∷ older_files))
unfolding contains
rotate-Rotated_example = rotate-Rotated log_manager (log_file "0006") older_files (omega arith)
