-- ===== src/Installer/Accepted.antt =====
-- Writing to the environment of U-Boot: what a write that succeeds says.
use mender.Prelude.{
  ◌≡◌, ◌⊎◌, Bool, Option, none, some, [], ◌∷◌, Error, ok, err, Result, if◌then◌else◌,
}
use mender.Text.{Text, text}
use mender.Installer.BootEnv.{BootVars, value_of}
use mender.Installer.UBoot.{Tools, print_env, read_env, set_lines, write_env_impl, probe_name}

-- The variable is among those that were read, and its value is "1".
abbrev pub IsOne : Text → Result BootVars → Type 0
IsOne name r = (vars : BootVars) × ((r ≡ ok vars) × (value_of name vars ≡ text "1"))

module _ {E : Type 0} (tools : Tools E) where
  -- The environment does not ask for the check of the canary, or the canary is there.
  abbrev pub HasCanary : E → Type 0
  HasCanary e =
      ¬ (
        IsOne (text "mender_check_saveenv_canary")
          (print_env tools (text "mender_check_saveenv_canary") e))
      ⊎ IsOne (text "mender_saveenv_canary") (print_env tools (text "mender_saveenv_canary") e)

  -- One run of fw_setenv has accepted all the variables with this separator.
  abbrev pub Sets : BootVars → Text → E → E → Type 0
  Sets vars separator before after =
      tools.fw_setenv (set_lines separator vars) before ≡ (none, after)

  -- What was read of the probe decides on the separator, and clears a probe that was read back.
  abbrev pub Decides : Result BootVars → Text → E → E → Type 0
  Decides r separator before after =
      ((separator ≡ text " ")
        × (IsOne (probe_name tools) r
            × Sets (((probe_name tools), []) ∷ []) (text " ") before after))
      ⊎ ((separator ≡ text "=") × (¬ (IsOne (probe_name tools) r) × (after ≡ before)))

  -- The separator has been probed: a probe was written with a space, and read again.
  pub record Probed (e : E) (separator : Text) (after : E) : Type 0 where
    pub probe : E
    pub written : Sets (((probe_name tools), text "1") ∷ []) (text " ") e probe
    pub decided : Decides (read_env tools ((probe_name tools) ∷ []) probe) separator probe after

  -- Clearing the probe, with the answer for the separator.
  abbrev cleared : Option Error → Result Text
  cleared o = elim o [ none ↦ ok (text " ") | some y ↦ err y ]

  -- What follows the comparison of the probe.
  abbrev compared : Bool → E → Result Text × E
  compared b e =
      if b
      then (let (x, e') = write_env_impl tools ((probe_name tools, []) ∷ []) (text " ") e in
          (cleared x, e'))
      else (ok (text "="), e)
