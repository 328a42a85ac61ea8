-- ===== src/Statescript/Launcher.antt =====
-- The scripts of a transition: Launcher and its get, matchVersion and CheckRootfsScriptsVersion of
-- statescript/executor.go, readVersion of statescript/store.go. Directories and files are answers of
-- an environment that knows all events before.
use Prim.Native.String.{◌++◌ as concat}
use mender.Prelude.{
  ℕ, ◌*◌, ◌/◌, ◌%◌, ◌==◌, ◌&&◌, ◌||◌, not, String, str_eq, Bool, true, false, Option, none, some,
  List, [], ◌∷◌, Error, other, Result, ok, err, is_not_exist, if◌then◌else◌,
}
use mender.Text.{Text, text, ℤ, ◌==ℤ◌, atoi, trim_space, contains}
use mender.Statescript.Name.{is_script_name}

pub record Launcher : Type 0 where
  pub art_scripts_path : String
  pub rootfs_scripts_path : String
  pub supported_script_versions : List ℤ
  pub timeout : ℕ
  pub retry_interval : ℕ
  pub retry_timeout : ℕ

-- time.Second, in nanoseconds.
abbrev pub second : ℕ
second = 1000000000

abbrev or_default : ℕ → ℕ → ℕ
or_default seconds default = if seconds == 0 then default * second else seconds * second

abbrev pub get_retry_interval : Launcher → ℕ
get_retry_interval l = or_default l.retry_interval 60

abbrev pub get_retry_timeout : Launcher → ℕ
get_retry_timeout l = or_default l.retry_timeout 1800

abbrev pub get_timeout : Launcher → ℕ
get_timeout l = or_default l.timeout 3600

-- os.FileInfo
pub record FileInfo : Type 0 where
  pub name : String
  pub mode : ℕ

-- s.Mode()&execBits != 0, with the bits 0100, 0010 and 0001.
abbrev pub is_executable : FileInfo → Bool
is_executable f = f.mode % 2 == 1 || ((f.mode / 8) % 2 == 1 || (f.mode / 64) % 2 == 1)

-- What a script's process ended with: an exit code, or an error that has none.
pub data RunError : Type 0 where
  exit_error : ℕ → RunError
  no_exit_status : RunError

pub record StatusReport : Type 0 where
  pub deployment_id : String
  pub status : String

-- What the executor does: a script ran, and its code; a wait; a report.
pub data Event : Type 0 where
  ran : String → Option ℕ → Event
  slept : ℕ → Event
  reported : StatusReport → String → Event

-- The environment answers, knowing all events before, the latest first.
pub record ScriptEnv : Type 0 where
  pub read_dir : List Event → String → Result (List FileInfo)
  pub read_file : List Event → String → String → Result Text
  -- the end of a script, and how long it ran
  pub run : List Event → String → String → ℕ → Option RunError × ℕ
  -- by how much a wait is longer than asked for
  pub oversleep : List Event → ℕ

-- time.Now, and the events so far.
pub record Machine : Type 0 where
  pub clock : ℕ
  pub events : List Event

abbrev pub parsed : Option ℤ → Result ℤ
parsed none = err (other "strconv.Atoi: parsing")
parsed (some v) = ok v

abbrev pub read_version : Result Text → Result ℤ
read_version (err e) = err e
read_version (ok data') = parsed (atoi (trim_space data'))

abbrev pub elem_of : ℤ → List ℤ → Bool
elem_of v [] = false
elem_of v (w ∷ ws) = w ==ℤ v || elem_of v ws

abbrev pub is_nil : {A : Type 0} → List A → Bool
is_nil [] = true
is_nil (x ∷ xs) = false

unfoldable pub match_version : ℤ → List ℤ → Bool → Option Error
match_version actual supported' has_scripts =
    if not has_scripts || elem_of actual supported'
    then none
    else some (other "The version does not match the versions supported by the client")

-- Whether get takes a file for a script of the state and the action.
unfoldable pub is_chosen : String → String → String → Bool
is_chosen state action name =
    (contains (text name) (text (concat state "_")) && contains (text name) (text action))
    && is_script_name (text name)

-- The directory that has the scripts of a state.
abbrev pub script_dir : Launcher → String → String
script_dir l state =
    if str_eq state "Idle" || (str_eq state "Sync" || str_eq state "Download")
    then l.rootfs_scripts_path
    else l.art_scripts_path

abbrev pub keep : Bool → FileInfo → Result (List FileInfo × ℤ) → Result (List FileInfo × ℤ)
keep chosen f (err e) = err e
keep true f (ok (fs, v)) = ok (f ∷ fs, v)
keep false f (ok (fs, v)) = ok (fs, v)

module _ (env : ScriptEnv) (l : Launcher) where
  -- The version behind a file of the directory.
  abbrev pub version_at : List Event → String → FileInfo → ℤ → Result ℤ
  version_at h dir f version =
      if str_eq f.name "version" then read_version (env.read_file h dir f.name) else ok version

  unfoldable pub get_loop :
      List Event → String → String → String → ℤ → List FileInfo → Result (List FileInfo × ℤ)
  unfolding is_chosen
  get_loop h dir state action version [] = ok ([], version)
  get_loop h dir state action version (f ∷ fs) = elim (version_at h dir f version) [
    | err e ↦ err e
    | ok v ↦ keep (is_chosen state action f.name) f (get_loop h dir state action v fs)
  ]

  abbrev pub checked : String → Result (List FileInfo × ℤ) → Result (List FileInfo × String)
  checked dir (err e) = err e
  checked dir (ok (scripts, version)) =
      elim (match_version version l.supported_script_versions (not (is_nil scripts))) [
        | some e ↦ err e
        | none ↦ ok (scripts, dir)
      ]

  unfoldable pub get : List Event → String → String → Result (List FileInfo × String)
  unfolding get_loop match_version
  get h state action = elim (env.read_dir h (script_dir l state)) [
    | err e ↦ if is_not_exist e then ok ([], "") else err e
    | ok files ↦
        checked (script_dir l state) (get_loop h (script_dir l state) state action (ℤ.pos 0) files)
  ]

  -- What CheckRootfsScriptsVersion says of a version that was read, or not.
  abbrev pub check_version : Result ℤ → Option Error
  check_version (err e) =
      if is_not_exist e then some (other "The statescript version file is missing") else some e
  check_version (ok v) =
      if elem_of v l.supported_script_versions
      then none
      else some (other "unsupported scripts version")

  unfoldable pub check_rootfs_scripts_version : List Event → Option Error
  check_rootfs_scripts_version h = elim (env.read_dir h l.rootfs_scripts_path) [
    | err e ↦ if is_not_exist e then none else some e
    | ok [] ↦ none
    | ok (f ∷ fs) ↦ check_version (read_version (env.read_file h l.rootfs_scripts_path "version"))
  ]
