-- ===== src/App/DeploymentLogger.antt =====
-- The log files of deployments: app/deployment_logger.go. What the system answers (the listing of the
-- directory, the space, opening, reading and closing files) is a parameter that knows all operations
-- before. A file is named by its last element; all are in the directory of the logs.
use mender.Prelude.{
  ℕ, zero, suc, ◌+◌, ◌*◌, ◌-◌, ◌%◌, ◌^◌, leb, ltb, ◌==◌, length, map, Bool, true, false, Option,
  none, some, List, [], ◌∷◌, ◌++◌, Error, other, not_exist, Result, ok, err, if◌then◌else◌,
}
use mender.Text.{Text, text, ℤ, split, atoi, contains}
use mender.Installer.Module.Call.{padded_loop}
pub mod Rotation

-- DeploymentLogManager; the logger is the name of its file.
pub record LogManager : Type 0 where
  pub log_location : Text
  pub deployment_id : Text
  pub logger : Option Text
  pub max_log_files : ℕ
  pub min_log_size_bytes : ℕ
  pub logging_enabled : Bool

abbrev pub new_deployment_log_manager : Text → LogManager
new_deployment_log_manager log_dir_location = record {
  log_location = log_dir_location;
  deployment_id = [];
  logger = none;
  max_log_files = 5;
  min_log_size_bytes = 102400;
  logging_enabled = false;
}

pub data LogOp : Type 0 where
  removed opened closed : Text → LogOp
  renamed appended : Text → Text → LogOp

-- The listing is that of the log files, sorted in reverse order; a file may have lines that are read
-- before reading it fails.
pub record LogEnv : Type 0 where
  pub listing : List LogOp → Result (List Text)
  pub available_blocks : List LogOp → ℕ
  pub block_size : ℕ
  pub can_open : List LogOp → Text → Bool
  pub close_error : List LogOp → Option Error
  pub write_error : List LogOp → Option Error
  pub read_lines : List LogOp → Text → Result (List Text × Option Error)
  pub is_json : Text → Bool

-- fmt.Sprintf("%04d", n)
abbrev pub padded : ℤ → Text
unfolding padded_loop
padded (ℤ.pos n) = padded_loop 19 4 n []
padded (ℤ.negsuc n) = b'-' ∷ padded_loop 19 3 (suc n) []

-- seq + 1, in an int of 64 bits.
abbrev pub next_seq : ℤ → ℤ
next_seq (ℤ.pos n) = if suc n == 2 ^ 63 then ℤ.negsuc (2 ^ 63 - 1) else ℤ.pos (suc n)
next_seq (ℤ.negsuc zero) = ℤ.pos 0
next_seq (ℤ.negsuc (suc n)) = ℤ.negsuc n

abbrev pub log_file_name : ℤ → Text → Text
unfolding padded_loop
log_file_name seq id = text "deployments." ++ (padded seq ++ (text "." ++ (id ++ text ".log")))

abbrev pub with_seq : Text → Text → Option ℤ → Text
unfolding padded_loop
with_seq name id none = name
with_seq name id (some seq) = log_file_name (next_seq seq) id

abbrev pub of_chunks : Text → List Text → Text
unfolding padded_loop atoi
of_chunks name (base ∷ (seq ∷ (id ∷ (ext ∷ [])))) = with_seq name id (atoi seq)
of_chunks name _ = name

unfoldable pub rotate_log_file_name : Text → Text
unfolding padded_loop split atoi
rotate_log_file_name name = of_chunks name (split b'.' name)

abbrev pub path_of : Text → Text → Text
path_of location name = location ++ (b'/' ∷ name)

-- The first files are given up as long as there are too many: those, and the others.
unfoldable pub trim : ℕ → List Text → List Text × List Text
trim max [] = ([], [])
trim max (f ∷ fs) =
    let (old, kept) = trim max fs in
    if ltb max (suc (length fs)) then (f ∷ old, kept) else ([], f ∷ fs)

abbrev pub last_of : Text → List Text → Text
last_of f [] = f
last_of f (g ∷ gs) = last_of g gs

abbrev pub remove_all : List Text → List LogOp
remove_all [] = []
remove_all (f ∷ fs) = LogOp.removed f ∷ remove_all fs

abbrev pub rename_all : List Text → List LogOp
unfolding rotate_log_file_name
rename_all [] = []
rename_all (f ∷ fs) = LogOp.renamed f (rotate_log_file_name f) ∷ rename_all fs

-- What is left by the first loop, after the operations so far; none is an index out of range.
unfoldable pub rotate_rest : LogManager → List LogOp → List Text → Option (List LogOp)
unfolding trim rotate_log_file_name
rotate_rest m ops [] = none
rotate_rest m ops (f ∷ fs) =
    if contains (path_of m.log_location (last_of f fs)) m.deployment_id
    then some ops
    else let (old, kept) = trim (m.max_log_files - 1) (f ∷ fs) in
      some (ops ++ (remove_all old ++ rename_all kept))

-- The operations of Rotate, in order; their errors are ignored.
unfoldable pub rotate : LogManager → List Text → Option (List LogOp)
unfolding trim rotate_rest
rotate m [] = some []
rotate m (f ∷ fs) =
    let (old, kept) = trim m.max_log_files (f ∷ fs) in rotate_rest m (remove_all old) kept

abbrev pub logger_not_initialized : Error
logger_not_initialized = other "logger not initialized"

abbrev pub not_enough_space_for_logs : Error
not_enough_space_for_logs = other "not enough space for storing logs"

-- An error, or none, with the manager and the operations so far; none is a panic.
abbrev pub Logged : Type 0
Logged = Option (Option Error × (LogManager × List LogOp))

module _ (env : LogEnv) where
  abbrev pub write_log : Text → LogManager → List LogOp → Option Error × List LogOp
  write_log line m ops = elim m.logger [
    | none ↦ (some logger_not_initialized, ops)
    | some name ↦ (env.write_error ops, ops ++ (LogOp.appended name line ∷ []))
  ]

  abbrev pub have_enough_space_for_storing_logs : LogManager → List LogOp → Bool
  have_enough_space_for_storing_logs m ops =
      ltb m.min_log_size_bytes ((env.available_blocks ops * env.block_size) % 2 ^ 64)

  abbrev pub rotate_listed : LogManager → Result (List Text) → Option (List LogOp)
  unfolding rotate
  rotate_listed m (err e) = some []
  rotate_listed m (ok files) = rotate m files

  abbrev pub open_logger : LogManager → List LogOp → Logged
  unfolding padded_loop
  open_logger m ops =
      let name = log_file_name (ℤ.pos 1) m.deployment_id in
      if env.can_open ops name
      then some (
        none,
        (record m { logger = some name; logging_enabled = true }, ops ++ (LogOp.opened name ∷ [])),
      )
      else some (some logger_not_initialized, (record m { logger = none }, ops))

  abbrev pub after_rotate : LogManager → List LogOp → Option (List LogOp) → Logged
  unfolding padded_loop
  after_rotate m ops none = none
  after_rotate m ops (some done) = open_logger m (ops ++ done)

  unfoldable pub enable : Text → LogManager → List LogOp → Logged
  unfolding padded_loop rotate
  enable id m ops =
      if m.logging_enabled
      then some (none, (m, ops))
      else if have_enough_space_for_storing_logs m ops
      then (let m' = record m { deployment_id = id } in
          after_rotate m' ops (rotate_listed m' (env.listing ops)))
      else some (some not_enough_space_for_logs, (m, ops))

  abbrev pub close_logger : Text → Option Error → LogManager → List LogOp → Logged
  close_logger name (some e) m ops = some (some e, (m, ops))
  close_logger name none m ops =
      some (none, (record m { logging_enabled = false }, ops ++ (LogOp.closed name ∷ [])))

  -- A manager that logs has a logger.
  unfoldable pub disable : LogManager → List LogOp → Logged
  disable m ops =
      if m.logging_enabled
      then elim m.logger [ none ↦ none | some name ↦ close_logger name (env.close_error ops) m ops ]
      else some (none, (m, ops))

  abbrev pub find_in : LogManager → Text → List Text → Result Text
  find_in m id [] = err not_exist
  find_in m id (f ∷ fs) =
      let rest = find_in m id fs in if contains (path_of m.log_location f) id then ok f else rest

  abbrev pub find_logs_for_specific_id : LogManager → Text → Result (List Text) → Result Text
  find_logs_for_specific_id m id (err e) = err e
  find_logs_for_specific_id m id (ok files) = find_in m id files

  abbrev pub json_lines : List Text → List Text
  json_lines [] = []
  json_lines (l ∷ ls) = let rest = json_lines ls in if env.is_json l then l ∷ rest else rest

  abbrev pub messages : Result (List Text × Option Error) → Result (List Text)
  messages (err e) = err e
  messages (ok (lines, some e)) = err e
  messages (ok (lines, none)) = ok (json_lines lines)

  abbrev pub logs_of : List LogOp → Result Text → Result (List Text)
  logs_of ops (err not_exist) = ok []
  logs_of ops (err e) = err e
  logs_of ops (ok name) = messages (env.read_lines ops name)

  -- The messages of a deployment.
  unfoldable pub get_logs : LogManager → Text → List LogOp → Result (List Text)
  get_logs m id ops = logs_of ops (find_logs_for_specific_id m id (env.listing ops))
