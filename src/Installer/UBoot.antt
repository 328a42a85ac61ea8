-- ===== src/Installer/UBoot.antt =====
-- UBootEnv of installer/bootenv.go, over the commands fw_printenv and fw_setenv, which are parameters.
use mender.Prelude.{
  ℕ, ◌+◌, Bool, false, Option, none, some, List, [], ◌∷◌, ◌++◌, Error, other, ok, err, Result,
  if◌then◌else◌,
}
use mender.Text.{Text, text, text_eq, split}
use mender.Installer.BootEnv.{BootVars, BootEnv, value_of}

-- A run of fw_printenv: its lines, and the errors of its pipe or start, and of Wait.
pub record Printed : Type 0 where
  pub start_error : Option Error
  pub lines : List Text
  pub wait_error : Option Error

-- fw_setenv: the errors of its pipe or start, those of writing its n-th line, and what it does with
-- the lines that it was given.
pub record Tools (E : Type 0) : Type 0 where
  pub fw_printenv : List Text → E → Printed
  pub start_error : E → Option Error
  pub print_error : E → ℕ → Option Error
  pub fw_setenv : List Text → E → Option Error × E
  pub is_root : Bool

-- The variables of lines, which later lines override.
unfoldable pub parse_lines : List Text → BootVars → Result BootVars
unfolding split
parse_lines [] vars = ok vars
parse_lines ([] ∷ lines) vars = parse_lines lines vars
parse_lines ((c ∷ s) ∷ lines) vars = elim (split b'=' (c ∷ s)) [
  | name ∷ value ∷ [] ↦ parse_lines lines ((name, value) ∷ vars)
  | _ ↦ err (other "Invalid U-Boot variable or error")
]

abbrev unless_failed : Option Error → Result BootVars → Result BootVars
unless_failed none r = r
unless_failed (some e) (err x) = err x
unless_failed (some e) (ok vars) = err e

unfoldable pub get_environment_variable : Printed → Result BootVars
unfolding parse_lines
get_environment_variable r = elim r.start_error [
  | some e ↦ err e
  | none ↦ unless_failed r.wait_error (parse_lines r.lines [])
]

-- The lines on the pipe of fw_setenv.
abbrev pub set_lines : Text → BootVars → List Text
set_lines separator [] = []
set_lines separator ((n, v) ∷ vars) = (n ++ (separator ++ v)) ∷ set_lines separator vars

module _ {E : Type 0} (tools : Tools E) where
  abbrev pub print_env : Text → E → Result BootVars
  print_env name e = get_environment_variable (tools.fw_printenv (name ∷ []) e)

  -- Whether a variable was read as "1".
  abbrev pub is_one : Text → Result BootVars → Bool
  is_one name (err x) = false
  is_one name (ok vars) = text_eq (value_of name vars) (text "1")

  abbrev pub canary_error : Error
  canary_error = other "Failed mender_saveenv_canary check."

  unfoldable pub check_env_canary : E → Option Error
  unfolding get_environment_variable
  check_env_canary e =
      if is_one (text "mender_check_saveenv_canary")
        (print_env (text "mender_check_saveenv_canary") e)
      then (if is_one (text "mender_saveenv_canary") (print_env (text "mender_saveenv_canary") e)
          then none
          else some canary_error)
      else none

  -- The errors of a user that is not root are wrapped.
  abbrev pub needs_root : Error → Error
  needs_root x = if tools.is_root then x else Error.wrap x

  abbrev pub with_canary : Option Error → Result BootVars → Result BootVars
  with_canary (some x) vars = err (needs_root x)
  with_canary none (err x) = err (needs_root x)
  with_canary none (ok vars) = ok vars

  unfoldable pub read_env : List Text → E → Result BootVars
  unfolding check_env_canary
  read_env names e =
      with_canary (check_env_canary e) (get_environment_variable (tools.fw_printenv names e))

  -- The lines up to the first that cannot be written, and its error.
  abbrev pub print_lines : E → ℕ → List Text → List Text × Option Error
  print_lines e n [] = ([], none)
  print_lines e n (l ∷ ls) = elim (tools.print_error e n) [
    | some x ↦ ([], some x)
    | none ↦ let (done, x) = print_lines e (n + 1) ls in (l ∷ done, x)
  ]

  -- After an error of the pipe the command is not waited for.
  abbrev pub wait_set : List Text × Option Error → E → Option Error × E
  wait_set (lines, some x) e = let (_, e') = tools.fw_setenv lines e in (some x, e')
  wait_set (lines, none) e = elim (tools.fw_setenv lines e).0 [
    | none ↦ (none, (tools.fw_setenv lines e).1)
    | some x ↦ (some (needs_root x), (tools.fw_setenv lines e).1)
  ]

  abbrev pub started : Option Error → BootVars → Text → E → Option Error × E
  started (some x) vars separator e = (some (needs_root x), e)
  started none vars separator e = wait_set (print_lines e 0 (set_lines separator vars)) e

  unfoldable pub write_env_impl : BootVars → Text → E → Option Error × E
  write_env_impl vars separator e = started (tools.start_error e) vars separator e

  abbrev pub probe_name : Text
  probe_name = text "mender_uboot_separator"

  -- What follows the reading of the probe.
  abbrev pub probe_read : Result BootVars → E → Result Text × E
  probe_read (err x) e = (err x, e)
  probe_read (ok vars) e =
      if text_eq (value_of probe_name vars) (text "1")
      then (let (x, e') = write_env_impl ((probe_name, []) ∷ []) (text " ") e in
          (elim x [ none ↦ ok (text " ") | some y ↦ err y ], e'))
      else (ok (text "="), e)

  abbrev pub probe_written : Option Error × E → Result Text × E
  probe_written (some x, e) = (err x, e)
  probe_written (none, e) = probe_read (read_env (probe_name ∷ []) e) e

  unfoldable pub probe_separator : E → Result Text × E
  unfolding write_env_impl read_env
  probe_separator e = probe_written (write_env_impl ((probe_name, text "1") ∷ []) (text " ") e)

  abbrev pub write_with : BootVars → Result Text × E → Option Error × E
  write_with vars (err x, e) = (some x, e)
  write_with vars (ok separator, e) = write_env_impl vars separator e

  -- What follows the check of the canary.
  abbrev pub write_checked : BootVars → Option Error → E → Option Error × E
  write_checked vars (some x) e = (some x, e)
  write_checked vars none e = write_with vars (probe_separator e)

  unfoldable pub write_env : BootVars → E → Option Error × E
  unfolding check_env_canary probe_separator
  write_env vars e = write_checked vars (check_env_canary e) e

  -- The interface that UBootEnv implements.
  abbrev pub u_boot_env : BootEnv E
  u_boot_env = record { read_env = λ names e. (read_env names e, e); write_env = write_env }
