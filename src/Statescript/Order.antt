-- ===== src/Statescript/Order.antt =====
-- The scripts of a transition run to success in the order of their directory, up to the first failure.
use mender.Prelude.{
  ℕ, zero, suc, ◌+◌, ◌≡◌, ◌⊎◌, inl, inr, refl, ap, ◌∙◌, String, Bool, Bool-cases, Option-cases,
  true, false, Option, none, some, List, [], ◌∷◌, ◌++◌, Error, other,
}
use Prim.Native.String.{◌++◌ as concat}
use mathlib.Core.Path.{subst}
use mender.Statescript.Launcher.{
  Launcher, FileInfo, StatusReport, ScriptEnv, Machine, is_executable,
}
use mender.Statescript.Executor.{
  execute_script, report_finished, report_script_status, scripts_loop,
}
use mender.Statescript.Retry.{succeeded, push_all, credit, execute_script-Ends}

module _ (env : ScriptEnv) (l : Launcher) where
  report_finished-succeeded :
      (report : Option StatusReport) (last : String) (n : ℕ) (m : Machine)
      → succeeded (report_finished env l report last n m).events ≡ succeeded m.events
  unfolding report_finished
  report_finished-succeeded report last zero m = refl
  report_finished-succeeded none last (suc n) m = report_finished-succeeded none last n m
  report_finished-succeeded (some r) last (suc n) m =
      report_finished-succeeded (some r) last n
        (report_script_status env l (some r) (concat "finished executing script: " last) m)

  report-succeeded :
      (report : Option StatusReport) (text : String) (m : Machine)
      → succeeded (report_script_status env l report text m).events ≡ succeeded m.events
  report-succeeded none text m = refl
  report-succeeded (some r) text m = refl

  -- The scripts before the first failure have succeeded, those behind it have not run.
  pub record FirstFailure (scripts : List FileInfo) (before : List String)
      (r : Option (Option Error) × Machine) : Type 0 where
    pub done : List FileInfo
    pub failed : FileInfo
    pub rest : List FileInfo
    pub error : Error
    pub split : scripts ≡ done ++ (failed ∷ rest)
    pub returns : r.0 ≡ some (some error)
    pub order : succeeded r.1.events ≡ push_all done before

  abbrev pub RunInOrder : List FileInfo → List String → Option (Option Error) × Machine → Type 0
  RunInOrder scripts before r =
      (r.0 ≡ some none) × (succeeded r.1.events ≡ push_all scripts before)
      ⊎ FirstFailure scripts before r

  RunInOrder-cons :
      (s : FileInfo) (ss : List FileInfo) (before : List String)
      (r : Option (Option Error) × Machine)
      → RunInOrder ss (s.name ∷ before) r
      → RunInOrder (s ∷ ss) before r
  RunInOrder-cons s ss before r (inl h) = inl h
  RunInOrder-cons s ss before r (inr f) = inr (record {
    done = s ∷ f.done;
    failed = f.failed;
    rest = f.rest;
    error = f.error;
    split = ap (λ (xs : List FileInfo). s ∷ xs) f.split;
    returns = f.returns;
    order = f.order;
  })

  module _ (dir : String) (ignore_error : Bool) (report : Option StatusReport) (s : FileInfo)
      (ss : List FileInfo) (last : String) (n : ℕ) (m : Machine) where
    abbrev pub begun : Machine
    begun = report_script_status env l report (concat "Executing script: " s.name) m

    pub scripts_loop-next :
        is_executable s ≡ true
        → (execute_script env l dir s.name ignore_error begun).0 ≡ some none
        → scripts_loop env l dir ignore_error report (s ∷ ss) last n m
          ≡ scripts_loop env l dir ignore_error report ss s.name
              (n + 1)
              (execute_script env l dir s.name ignore_error begun).1
    unfolding scripts_loop
    scripts_loop-next h r = rw (scripts_loop, h, r) refl

    scripts_loop-stop :
        (e : Error)
        → is_executable s ≡ true
        → (execute_script env l dir s.name ignore_error begun).0 ≡ some (some e)
        → scripts_loop env l dir ignore_error report (s ∷ ss) last n m ≡ (
          some (some e),
          report_finished env l report s.name
              (n + 1)
              (execute_script env l dir s.name ignore_error begun).1,
        )
    unfolding scripts_loop report_finished
    scripts_loop-stop e h r = rw (scripts_loop, h, r) refl

  pub scripts_loop-RunInOrder :
      (dir : String) (report : Option StatusReport) (ss : List FileInfo) (last : String) (n : ℕ)
      (m : Machine)
      → RunInOrder ss (succeeded m.events) (scripts_loop env l dir false report ss last n m)
  unfolding scripts_loop
  scripts_loop-RunInOrder dir report [] last n m =
      inl (refl, report_finished-succeeded report last n m)
  scripts_loop-RunInOrder dir report (s ∷ ss) last n m =
      let m0 = report_script_status env l report (concat "Executing script: " s.name) m in
      let x = execute_script-Ends env l dir s.name false m0 in
      let m' = (execute_script env l dir s.name false m0).1 in
      let same = report-succeeded report (concat "Executing script: " s.name) m in
      let credited = λ (r : Option Error) (e : x.result ≡ r).
        x.order refl ∙ ap (λ (r' : Option Error). credit env l r' s.name (succeeded m0.events)) e in
      elim (Bool-cases (is_executable s)) [
        | inr h ↦ inr (record {
          done = [];
          failed = s;
          rest = ss;
          error = other "is not executable";
          split = refl;
          returns = rw (scripts_loop, h) refl;
          order = rw (scripts_loop, h) (report_finished-succeeded report s.name n m);
        })
        | inl h ↦ elim (Option-cases x.result) [
          | inl e ↦
              RunInOrder-cons s ss (succeeded m.events)
                (scripts_loop env l dir false report (s ∷ ss) last n m)
                (rw
                  (scripts_loop-next dir false report s ss last n m h
                    (x.returns ∙ ap (λ (z : Option Error). some z) e))
                  (subst
                    (λ b.
                      RunInOrder ss b (scripts_loop env l dir false report ss s.name (n + 1) m'))
                    (credited none e ∙ ap (λ (b : List String). s.name ∷ b) same)
                    (scripts_loop-RunInOrder dir report ss s.name (n + 1) m')))
          | inr (y, e) ↦
              let stop =
                scripts_loop-stop dir false report s ss last n m y h
                  (x.returns ∙ ap (λ (z : Option Error). some z) e) in
              inr (record {
                done = [];
                failed = s;
                rest = ss;
                error = y;
                split = refl;
                returns = ap (λ (r : Option (Option Error) × Machine). r.0) stop;
                order = rw stop (
                    report_finished-succeeded report s.name (n + 1) m'
                    ∙ (credited (some y) e ∙ same));
              })
        ]
      ]
