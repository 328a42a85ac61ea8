-- ===== src/Statescript/All.antt =====
-- ExecuteAll as a whole: what it does with errors, and which scripts have run.
use mender.Prelude.{
  ℕ, ◌+◌, ◌≡◌, ◌⊎◌, inl, inr, refl, ap, ◌∙◌, String, Bool-cases, true, false, Option, none, some,
  List, [], ◌∷◌, Error, err, ok, Result,
}
use mender.Statescript.Launcher.{
  Launcher, FileInfo, StatusReport, ScriptEnv, Machine, is_executable, get,
}
use mender.Statescript.Executor.{execute_script, scripts_loop, execute_all}
use mender.Statescript.Retry.{succeeded, execute_script-Ends}
use mender.Statescript.Order.{begun, scripts_loop-next, RunInOrder, scripts_loop-RunInOrder}

module _ (env : ScriptEnv) (l : Launcher) where
  scripts_loop-ignored :
      (dir : String) (report : Option StatusReport) (ss : List FileInfo) (last : String) (n : ℕ)
      (m : Machine)
      → (scripts_loop env l dir true report ss last n m).0 ≡ some none
  unfolding scripts_loop
  scripts_loop-ignored dir report [] last n m = refl
  scripts_loop-ignored dir report (s ∷ ss) last n m =
      let x =
        execute_script-Ends env l dir s.name true (begun env l dir true report s ss last n m) in
      let m' =
        (execute_script env l dir s.name true (begun env l dir true report s ss last n m)).1 in
      elim (Bool-cases (is_executable s)) [
        | inl h ↦
            rw
              (scripts_loop-next env l dir true report s ss last n m h
                (x.returns ∙ ap (λ (z : Option Error). some z) (x.ignored refl)))
              (scripts_loop-ignored dir report ss s.name (n + 1) m')
        | inr h ↦ rw (scripts_loop, h) (scripts_loop-ignored dir report ss s.name n m)
      ]

  Result-cases : {A : Type 0} (r : Result A) → ((e : Error) × (r ≡ err e)) ⊎ ((a : A) × (r ≡ ok a))
  Result-cases (err e) = inl (e, refl)
  Result-cases (ok a) = inr (a, refl)

  -- Where errors are ignored, running the scripts of a state returns, and without an error, whatever
  -- the directory, the scripts and the clock do.
  pub errors_ignored :
      (state action : String) (report : Option StatusReport) (m : Machine)
      → (execute_all env l state action true report m).0 ≡ some none
  unfolding execute_all
  errors_ignored state action report m = elim (Result-cases (get env l m.events state action)) [
    | inl (e, h) ↦ rw (execute_all, h) refl
    | inr (a, h) ↦ rw (execute_all, h) (scripts_loop-ignored a.1 report a.0 "" 0 m)
  ]

  -- Where errors are not ignored, running the scripts of a state returns. It fails at once if the
  -- scripts cannot be listed. Otherwise either all scripts have exited with 0, in the order of the
  -- list, and there is no error; or there is one, the scripts before some script have exited with 0,
  -- in this order, and neither this script nor one behind it has.
  pub run_in_order :
      (state action : String) (report : Option StatusReport) (m : Machine)
      → let r = execute_all env l state action false report m in
        ((e : Error) × ((get env l m.events state action ≡ err e) × (r ≡ (some (some e), m))))
        ⊎ ((a : List FileInfo × String) × ((get env l m.events state action ≡ ok a)
              × RunInOrder env l a.0 (succeeded m.events) r))
  unfolding execute_all
  run_in_order state action report m = elim (Result-cases (get env l m.events state action)) [
    | inl (e, h) ↦ inl (e, (h, rw (execute_all, h) refl))
    | inr (a, h) ↦
        inr (a, (h, rw (execute_all, h) (scripts_loop-RunInOrder env l a.1 report a.0 "" 0 m)))
  ]
