-- ===== src/Statescript/Retry.antt =====
-- One script: executeScript comes to an end, and what its end says.
use mender.Prelude.{
  ℕ, zero, suc, ◌+◌, ◌-◌, ◌≤◌, ◌≡◌, ◌⊎◌, inl, inr, refl, leb, ◌==◌, String, Bool, true, false,
  Option, none, some, List, [], ◌∷◌, Error, if◌then◌else◌, arith,
}
use mathlib.Core.Path.{subst}
use mender.Statescript.Launcher.{
  Launcher, FileInfo, Event, ScriptEnv, Machine, get_retry_interval, get_retry_timeout,
}
use mender.Statescript.Executor.{execute_loop, execute_script, verdict, Verdict, run_script, sleep}

interval_pos : (l : Launcher) → 1 ≤ get_retry_interval l
interval_pos l = ground arith

-- The scripts that have exited with 0, the latest first.
abbrev pub is_success : Option ℕ → Bool
is_success none = false
is_success (some code) = code == 0

abbrev pub succeeded : List Event → List String
succeeded [] = []
succeeded (Event.ran name code ∷ es) = if is_success code then name ∷ succeeded es else succeeded es
succeeded (Event.slept d ∷ es) = succeeded es
succeeded (Event.reported r s ∷ es) = succeeded es

-- The names, in their order, upon those before.
abbrev pub push_all : List FileInfo → List String → List String
push_all [] before = before
push_all (s ∷ ss) before = push_all ss (s.name ∷ before)

leb-true : (a b : ℕ) → leb a b ≡ true → a ≤ b
leb-true a b h = ground arith

module _ (env : ScriptEnv) (l : Launcher) where
  abbrev pub credit : Option Error → String → List String → List String
  credit none name before = name ∷ before
  credit (some e) name before = before

  -- The run of a script ends; what is ignored is no error; otherwise it ends without an error exactly
  -- where the script has succeeded.
  pub record Ends (ignore_error : Bool) (name : String) (before : List String)
      (r : Option (Option Error) × Machine) : Type 0 where
    pub result : Option Error
    pub returns : r.0 ≡ some result
    pub ignored : ignore_error ≡ true → result ≡ none
    pub order : ignore_error ≡ false → succeeded r.1.events ≡ credit result name before

  verdict-done :
      (in_time : Bool) (name : String) (code : Option ℕ) (es : List Event) (e : Option Error)
      → verdict false in_time code ≡ Verdict.done e
      → succeeded (Event.ran name code ∷ es) ≡ credit e name (succeeded es)
  unfolding verdict
  verdict-done in_time name code es e h = ground arith

  verdict-retry :
      (in_time ignore_error : Bool) (name : String) (code : Option ℕ) (es : List Event)
      → verdict ignore_error in_time code ≡ Verdict.retry
      → succeeded (Event.ran name code ∷ es) ≡ succeeded es
  unfolding verdict
  verdict-retry in_time ignore_error name code es h = ground arith

  verdict-ignored :
      (in_time ignore_error : Bool) (code : Option ℕ) (e : Option Error)
      → verdict ignore_error in_time code ≡ Verdict.done e
      → ignore_error ≡ true
      → e ≡ none
  unfolding verdict
  verdict-ignored in_time ignore_error code e h i = ground arith

  verdict-in_time :
      (in_time ignore_error : Bool) (code : Option ℕ)
      → verdict ignore_error in_time code ≡ Verdict.retry
      → in_time ≡ true
  unfolding verdict
  verdict-in_time in_time ignore_error code h = ground arith

  Verdict-cases : (v : Verdict) → ((e : Option Error) × (v ≡ Verdict.done e)) ⊎ (v ≡ Verdict.retry)
  Verdict-cases (Verdict.done e) = inl (e, refl)
  Verdict-cases Verdict.retry = inr refl

  module _ (dir name : String) (ignore_error : Bool) where
    execute_loop-Ends :
        (start fuel : ℕ) (m : Machine)
        → start + get_retry_timeout l + 2 ≤ m.clock + fuel
        → start ≤ m.clock
        → 1 ≤ fuel
        → Ends ignore_error name
            (succeeded m.events)
            (execute_loop env l dir name ignore_error start fuel m)
    unfolding execute_loop
    execute_loop-Ends start zero m h s p = absurd (omega arith)
    execute_loop-Ends start (suc fuel) m h s p =
        let (code, m') = run_script env l dir name m in
        let in_time = leb (m'.clock - start) (get_retry_timeout l) in
        elim (Verdict-cases (verdict ignore_error in_time code)) [
          | inl (e, v) ↦ record {
            result = e;
            returns = rw (execute_loop, v) refl;
            ignored = verdict-ignored in_time ignore_error code e v;
            order =
                λ i. rw (execute_loop, v) (verdict-done in_time name code m.events e (rw (← i) v));
          }
          | inr v ↦
              let late =
                leb-true (m'.clock - start) (get_retry_timeout l)
                  (verdict-in_time in_time ignore_error code v) in
              let step = interval_pos l in
              rw (execute_loop, v)
                (subst
                  (λ b. Ends ignore_error name b (
                    execute_loop env l dir name ignore_error start fuel
                      (sleep env l (get_retry_interval l) m')))
                  (verdict-retry in_time ignore_error name code m.events v)
                  (execute_loop-Ends start fuel (sleep env l (get_retry_interval l) m')
                    (omega arith) (omega arith) (omega arith)))
        ]

    pub execute_script-Ends :
        (m : Machine)
        → Ends ignore_error name (succeeded m.events) (execute_script env l dir name ignore_error m)
    unfolding execute_script
    execute_script-Ends m =
        execute_loop-Ends m.clock (get_retry_timeout l + 2) m (omega arith) (omega arith)
          (omega arith)
