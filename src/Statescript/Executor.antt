-- ===== src/Statescript/Executor.antt =====
-- Running scripts: executeScript with its retries, and ExecuteAll of statescript/executor.go.
use Prim.Native.String.{◌++◌ as concat}
use mender.Prelude.{
  ℕ, zero, suc, ◌+◌, ◌-◌, ◌==◌, leb, String, Bool, true, false, Option, none, some, List, [], ◌∷◌,
  Error, other, ok, err, if◌then◌else◌,
}
use mender.Statescript.Launcher.{
  Launcher, FileInfo, RunError, exit_error, no_exit_status, Event, StatusReport, ScriptEnv, Machine,
  is_executable, get, get_retry_interval, get_retry_timeout, get_timeout,
}

abbrev pub ret_code : Option RunError → Option ℕ
ret_code none = some 0
ret_code (some (exit_error n)) = some n
ret_code (some no_exit_status) = none

-- How executeScript goes on behind a run of the script.
pub data Verdict : Type 0 where
  done : Option Error → Verdict
  retry : Verdict

abbrev pub unless_ignored : Bool → String → Option Error
unless_ignored true e = none
unless_ignored false e = some (other e)

abbrev pub exit_retry_later : ℕ
exit_retry_later = 21

unfoldable pub verdict : Bool → Bool → Option ℕ → Verdict
verdict ignore_error in_time none = Verdict.done (unless_ignored ignore_error "error executing")
verdict ignore_error in_time (some code) =
    if code == 0
    then Verdict.done none
    else if code == exit_retry_later
    then (if in_time
        then Verdict.retry
        else Verdict.done (unless_ignored ignore_error "retry time-limit exceeded"))
    else Verdict.done (unless_ignored ignore_error "error executing")

module _ (env : ScriptEnv) (l : Launcher) where
  -- execute, with the exit code.
  abbrev pub run_script : String → String → Machine → Option ℕ × Machine
  run_script dir name m =
      let (e, time) = env.run m.events dir name (get_timeout l) in
      (
        ret_code e,
        record { clock = m.clock + time; events = Event.ran name (ret_code e) ∷ m.events },
      )

  -- time.Sleep waits for the given time at least.
  abbrev pub sleep : ℕ → Machine → Machine
  sleep d m = record {
    clock = m.clock + d + env.oversleep m.events;
    events = Event.slept d ∷ m.events;
  }

  -- The loop of executeScript, with the time of its start, on fuel.
  unfoldable pub execute_loop :
      String → String → Bool → ℕ → ℕ → Machine → Option (Option Error) × Machine
  unfolding verdict
  execute_loop dir name ignore_error start zero m = (none, m)
  execute_loop dir name ignore_error start (suc fuel) m =
      let (code, m') = run_script dir name m in
      elim (verdict ignore_error (leb (m'.clock - start) (get_retry_timeout l)) code) [
        | Verdict.done e ↦ (some e, m')
        | Verdict.retry ↦
            execute_loop dir name ignore_error start fuel (sleep (get_retry_interval l) m')
      ]

  -- Each retry takes a nanosecond at least.
  unfoldable pub execute_script : String → String → Bool → Machine → Option (Option Error) × Machine
  unfolding execute_loop
  execute_script dir name ignore_error m =
      execute_loop dir name ignore_error m.clock (get_retry_timeout l + 2) m

  abbrev pub report_script_status : Option StatusReport → String → Machine → Machine
  report_script_status none text m = m
  report_script_status (some r) text m = record m { events = Event.reported r text ∷ m.events }

  -- The deferred reports: their closures share the variable of the loop.
  unfoldable pub report_finished : Option StatusReport → String → ℕ → Machine → Machine
  report_finished report last zero m = m
  report_finished report last (suc n) m =
      report_finished report last n
        (report_script_status report (concat "finished executing script: " last) m)

  -- The loop of ExecuteAll, with the value of its variable and the number of deferred reports.
  unfoldable pub scripts_loop :
      String
      → Bool
      → Option StatusReport
      → List FileInfo
      → String
      → ℕ
      → Machine
      → Option (Option Error) × Machine
  unfolding execute_script report_finished
  scripts_loop dir ignore_error report [] last deferred m =
      (some none, report_finished report last deferred m)
  scripts_loop dir ignore_error report (s ∷ ss) last deferred m =
      if is_executable s
      then (let (r, m') =
            execute_script dir s.name ignore_error
              (report_script_status report (concat "Executing script: " s.name) m) in
          elim r [
            | none ↦ (none, m')
            | some (some e) ↦ (some (some e), report_finished report s.name (deferred + 1) m')
            | some none ↦ scripts_loop dir ignore_error report ss s.name (deferred + 1) m'
          ])
      else elim ignore_error [
        | true ↦ scripts_loop dir ignore_error report ss s.name deferred m
        | false ↦
            (some (some (other "is not executable")), report_finished report s.name deferred m)
      ]

  unfoldable pub execute_all :
      String → String → Bool → Option StatusReport → Machine → Option (Option Error) × Machine
  unfolding get scripts_loop
  execute_all state action ignore_error report m = elim (get env l m.events state action) [
    | err e ↦ (some (if ignore_error then none else some e), m)
    | ok (scripts, dir) ↦ scripts_loop dir ignore_error report scripts "" 0 m
  ]
