-- ===== src/Installer/BootEnv.antt =====
-- BootEnvReadWriter of installer/bootenv.go: the interface to the variables of the boot loader.
use mender.Prelude.{Option, none, some, List, [], ◌∷◌, Error, Result, if◌then◌else◌}
use mender.Text.{Text, text_eq}

-- BootVars
abbrev pub BootVars : Type 0
BootVars = List (Text × Text)

-- value, ok := vars[name]
abbrev pub lookup : Text → BootVars → Option Text
lookup name [] = none
lookup name ((n, v) ∷ vars) = if text_eq n name then some v else lookup name vars

abbrev pub or_empty : Option Text → Text
or_empty none = []
or_empty (some v) = v

-- vars[name]
abbrev pub value_of : Text → BootVars → Text
value_of name vars = or_empty (lookup name vars)

pub record BootEnv (E : Type 0) : Type 0 where
  pub read_env : List Text → E → Result BootVars × E
  pub write_env : BootVars → E → Option Error × E
