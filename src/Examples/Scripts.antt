-- ===== src/Examples/Scripts.antt =====
-- Runs of state scripts.
use mender.Prelude.{
  ℕ, ◌≡◌, ◌⊎◌, refl, String, true, false, Option, none, some, List, [], ◌∷◌, Error, ok, err,
}
use mender.Text.{atoi, trim_space, contains, text, ℤ}
use mender.Statescript.Name.{is_script_name}
use mender.Statescript.Launcher.{
  Launcher, FileInfo, RunError, exit_error, Event, ScriptEnv, Machine, get,
}
use mender.Statescript.Executor.{execute_all}
use mender.Statescript.Retry.{succeeded}
use mender.Statescript.Order.{RunInOrder}
use mender.Statescript.All.{errors_ignored, run_in_order}

abbrev launcher : Launcher
launcher = record {
  art_scripts_path = "/var/lib/mender/scripts";
  rootfs_scripts_path = "/etc/mender/scripts";
  supported_script_versions = ℤ.pos 2 ∷ ℤ.pos 3 ∷ [];
  timeout = 0;
  retry_interval = 30;
  retry_timeout = 60;
}

abbrev files : List FileInfo
files =
    record { name = "ArtifactInstall_Enter_01_check"; mode = 493 }
    ∷ record { name = "ArtifactInstall_Enter_02"; mode = 493 }
    ∷ record { name = "version"; mode = 420 }
    ∷ []

-- The first run succeeds; behind it a script asks for retries.
abbrev exit_of : List Event → Option RunError × ℕ
exit_of [] = (none, 5)
exit_of (e ∷ es) = (some (exit_error 21), 5)

abbrev script_env : ScriptEnv
script_env = record {
  read_dir = λ h dir. ok files;
  read_file = λ h dir name. ok (text "3\n");
  run = λ h dir name timeout. exit_of h;
  oversleep = λ h. 0;
}

abbrev machine : Machine
machine = record { clock = 100; events = [] }

errors_ignored_example :
    (execute_all script_env launcher "ArtifactInstall" "Enter" true none machine).0 ≡ some none
errors_ignored_example = errors_ignored script_env launcher "ArtifactInstall" "Enter" none machine

run_in_order_example :
    ((e : Error) × ((get script_env launcher [] "ArtifactInstall" "Enter" ≡ err e)
        × (execute_all script_env launcher "ArtifactInstall" "Enter" false none machine
            ≡ (some (some e), machine))))
    ⊎ ((a : List FileInfo × String) × ((get script_env launcher [] "ArtifactInstall" "Enter" ≡ ok a)
          × RunInOrder script_env launcher a.0 []
              (execute_all script_env launcher "ArtifactInstall" "Enter" false none machine)))
run_in_order_example = run_in_order script_env launcher "ArtifactInstall" "Enter" none machine

-- Both scripts are found; the first succeeds, the second exceeds its time.
first_succeeds :
    (succeeded
        (execute_all script_env launcher "ArtifactInstall" "Enter" false none machine).1.events
      ≡ "ArtifactInstall_Enter_01_check" ∷ [])
unfolding execute_all atoi trim_space contains is_script_name
first_succeeds = refl
