-- ===== src/Installer/Module/Call.antt =====
-- Calls of an update module: ModuleInstaller of installer/modules.go, its callModule, delayKiller and
-- ReadLogger, and the operations that are such calls. The system is a parameter: what a process
-- writes and how it ends, and whether files can be removed.
use mender.Prelude.{
  ℕ, zero, suc, ◌+◌, ◌-◌, ◌*◌, ◌/◌, ◌%◌, ◌==◌, leb, ltb, ◌&&◌, ◌||◌, Bool, true, false, Option,
  none, some, List, [], ◌∷◌, ◌++◌, Error, other, wrap, if◌then◌else◌,
}
use mender.Text.{Text, text, text_eq, is_empty}
use mender.App.World.{RebootAction}
use mender.Statescript.Launcher.{second}

pub record ModuleInstaller : Type 0 where
  pub modules_path : Text
  pub modules_work_path : Text
  pub program_path : Text
  pub module_timeout_secs : ℕ
  pub payload_index : ℕ
  pub update_type : Text

-- The times, in nanoseconds, after which a process is sent SIGTERM and SIGKILL.
pub record DelayKiller : Type 0 where
  pub killer : ℕ
  pub hard_killer : ℕ

abbrev pub new_delay_killer : ℕ → ℕ → DelayKiller
new_delay_killer kill_after kill9_after = record {
  killer = kill_after;
  hard_killer = kill_after + kill9_after;
}

-- A call of a module: the program, the verb, and the tree of the payload.
pub record ModuleCall : Type 0 where
  pub program : Text
  pub verb : Text
  pub tree : Text

-- A process that has not started, or what it has written, piece by piece, and how it has ended.
pub data Run : Type 0 where
  not_started : Error → Run
  ran : List Text → Option Error → Run

pub record ModuleEnv : Type 0 where
  pub join : List Text → Text
  pub run : List ModuleCall → ModuleCall → DelayKiller → Run
  pub remove_all : List ModuleCall → Option Error

-- The calls so far, the latest first, and whether the tree of the payload is there.
pub record ModuleWorld : Type 0 where
  pub calls : List ModuleCall
  pub has_tree : Bool

abbrev pub digit : ℕ → ℕ
digit n = n + b'0'

-- fmt.Sprintf("%04d", n): an int of 64 bits has 19 digits at most.
unfoldable pub padded_loop : ℕ → ℕ → ℕ → Text → Text
padded_loop zero width n digits = digits
padded_loop (suc fuel) width n digits =
    let rest = padded_loop fuel (width - 1) (n / 10) (digit (n % 10) ∷ digits) in
    if leb width 1 && ltb n 10 then digit n ∷ digits else rest

abbrev pub index_of : ℕ → Text
unfolding padded_loop
index_of n = padded_loop 19 4 n []

-- strings.TrimRight(buf, "\n")
unfoldable pub trim_newlines : Text → Text
trim_newlines [] = []
trim_newlines (c ∷ s) =
    let rest = trim_newlines s in if is_empty rest && c == 10 then [] else c ∷ rest

-- ReadLogger
pub record ReadLogger : Type 0 where
  pub output : Text
  pub capture : Bool

abbrev pub new_read_logger : Bool → ReadLogger
new_read_logger capture = record { output = []; capture = capture }

abbrev pub write : Text → ReadLogger → ReadLogger
unfolding trim_newlines
write p rl = if rl.capture then record rl { output = rl.output ++ trim_newlines p } else rl

abbrev pub write_all : List Text → ReadLogger → ReadLogger
write_all [] rl = rl
write_all (p ∷ ps) rl = write_all ps (write p rl)

module _ (env : ModuleEnv) where
  abbrev pub payload_path : ModuleInstaller → Text
  unfolding padded_loop
  payload_path mod' = env.join (
      mod'.modules_work_path
      ∷ (text "payloads" ∷ (index_of mod'.payload_index ∷ (text "tree" ∷ []))))

  abbrev pub killer_of : ModuleInstaller → DelayKiller
  killer_of mod' = new_delay_killer (mod'.module_timeout_secs * second) (60 * second)

  abbrev pub wrapped : Option Error → Option Error
  wrapped none = none
  wrapped (some e) = some (wrap e)

  abbrev pub outcome : Bool → Run → Text × Option Error
  unfolding trim_newlines
  outcome capture (not_started e) = ([], some e)
  outcome capture (ran pieces e) = ((write_all pieces (new_read_logger capture)).output, wrapped e)

  unfoldable pub call_module :
      ModuleInstaller → Text → Bool → ModuleWorld → (Text × Option Error) × ModuleWorld
  unfolding padded_loop trim_newlines
  call_module mod' verb capture w =
      let call : ModuleCall = record {
        program = mod'.program_path;
        verb = verb;
        tree = payload_path mod';
      } in
      (outcome capture (env.run w.calls call (killer_of mod')), record w { calls = call ∷ w.calls })

  -- The operations that only call the module.
  abbrev pub simple_call : Text → ModuleInstaller → ModuleWorld → Option Error × ModuleWorld
  unfolding call_module
  simple_call verb mod' w = let ((output, e), w') = call_module mod' verb false w in (e, w')

  unfoldable pub install_update : ModuleInstaller → ModuleWorld → Option Error × ModuleWorld
  unfolding call_module
  install_update = simple_call (text "ArtifactInstall")

  unfoldable pub reboot : ModuleInstaller → ModuleWorld → Option Error × ModuleWorld
  unfolding call_module
  reboot = simple_call (text "ArtifactReboot")

  unfoldable pub rollback_reboot : ModuleInstaller → ModuleWorld → Option Error × ModuleWorld
  unfolding call_module
  rollback_reboot = simple_call (text "ArtifactRollbackReboot")

  unfoldable pub commit_update : ModuleInstaller → ModuleWorld → Option Error × ModuleWorld
  unfolding call_module
  commit_update = simple_call (text "ArtifactCommit")

  unfoldable pub rollback : ModuleInstaller → ModuleWorld → Option Error × ModuleWorld
  unfolding call_module
  rollback = simple_call (text "ArtifactRollback")

  unfoldable pub verify_reboot : ModuleInstaller → ModuleWorld → Option Error × ModuleWorld
  unfolding call_module
  verify_reboot = simple_call (text "ArtifactVerifyReboot")

  unfoldable pub verify_rollback_reboot : ModuleInstaller → ModuleWorld → Option Error × ModuleWorld
  unfolding call_module
  verify_rollback_reboot = simple_call (text "ArtifactVerifyRollbackReboot")

  unfoldable pub failure : ModuleInstaller → ModuleWorld → Option Error × ModuleWorld
  unfolding call_module
  failure = simple_call (text "ArtifactFailure")

  abbrev pub reboot_reply : Text × Option Error → RebootAction × Option Error
  reboot_reply (output, some e) = (RebootAction.no_reboot, some e)
  reboot_reply (output, none) =
      if is_empty output || text_eq output (text "No")
      then (RebootAction.no_reboot, none)
      else if text_eq output (text "Yes")
      then (RebootAction.reboot_required, none)
      else if text_eq output (text "Automatic")
      then (RebootAction.automatic_reboot, none)
      else (
        RebootAction.no_reboot,
        some (other "Unexpected reply from update module NeedsArtifactReboot query"),
      )

  unfoldable pub needs_reboot :
      ModuleInstaller → ModuleWorld → (RebootAction × Option Error) × ModuleWorld
  unfolding call_module
  needs_reboot mod' w =
      let (r, w') = call_module mod' (text "NeedsArtifactReboot") true w in (reboot_reply r, w')

  abbrev pub rollback_reply : Text × Option Error → Bool × Option Error
  rollback_reply (output, some e) = (false, some e)
  rollback_reply (output, none) =
      if is_empty output || text_eq output (text "No")
      then (false, none)
      else if text_eq output (text "Yes")
      then (true, none)
      else (false, some (other "Unexpected reply from update module SupportsRollback query"))

  unfoldable pub supports_rollback :
      ModuleInstaller → ModuleWorld → (Bool × Option Error) × ModuleWorld
  unfolding call_module
  supports_rollback mod' w =
      let (r, w') = call_module mod' (text "SupportsRollback") true w in (rollback_reply r, w')

  abbrev pub removed : Option Error → ModuleWorld → ModuleWorld
  removed none w = record w { has_tree = false }
  removed (some e) w = w

  -- An error of removing the tree is only logged.
  unfoldable pub cleanup : ModuleInstaller → ModuleWorld → Option Error × ModuleWorld
  unfolding call_module
  cleanup mod' w =
      if w.has_tree
      then (let (e, w') = simple_call (text "Cleanup") mod' w in
          (e, removed (env.remove_all w'.calls) w'))
      else (none, w)
