-- ===== src/App/Transition.antt =====
-- app/transition.go: the transitions of the state scripts, and the names of their scripts.
use mender.Text.{Text, text, text_eq, split}
use mender.Prelude.{ℕ, String, ◌&&◌, not, Bool, true, false, List, [], ◌∷◌, if◌then◌else◌}

pub data Transition : Type 0 where
  none idle sync error download_enter download_leave artifact_install : Transition
  artifact_reboot_enter artifact_reboot_leave : Transition
  artifact_commit_enter artifact_commit_leave artifact_rollback : Transition
  artifact_rollback_reboot_enter artifact_rollback_reboot_leave artifact_failure : Transition

abbrev pub is_to_error : Transition → Bool
is_to_error Transition.error = true
is_to_error Transition.artifact_failure = true
is_to_error Transition.artifact_rollback = true
is_to_error Transition.artifact_rollback_reboot_enter = true
is_to_error Transition.artifact_rollback_reboot_leave = true
is_to_error _ = false

-- `t == ToNone`
abbrev pub is_none : Transition → Bool
is_none Transition.none = true
is_none _ = false

-- The integer behind the constant, by which Go compares two transitions.
abbrev pub number : Transition → ℕ
number Transition.none = 0
number Transition.idle = 1
number Transition.sync = 2
number Transition.error = 3
number Transition.download_enter = 4
number Transition.download_leave = 5
number Transition.artifact_install = 6
number Transition.artifact_reboot_enter = 7
number Transition.artifact_reboot_leave = 8
number Transition.artifact_commit_enter = 9
number Transition.artifact_commit_leave = 10
number Transition.artifact_rollback = 11
number Transition.artifact_rollback_reboot_enter = 12
number Transition.artifact_rollback_reboot_leave = 13
number Transition.artifact_failure = 14

unfoldable pub transition_name : Transition → String
transition_name Transition.none = "none"
transition_name Transition.idle = "Idle"
transition_name Transition.sync = "Sync"
transition_name Transition.error = "Error"
transition_name Transition.download_enter = "Download_Enter"
transition_name Transition.download_leave = "Download_Leave"
transition_name Transition.artifact_install = "ArtifactInstall"
transition_name Transition.artifact_reboot_enter = "ArtifactReboot_Enter"
transition_name Transition.artifact_reboot_leave = "ArtifactReboot_Leave"
transition_name Transition.artifact_commit_enter = "ArtifactCommit_Enter"
transition_name Transition.artifact_commit_leave = "ArtifactCommit_Leave"
transition_name Transition.artifact_rollback = "ArtifactRollback"
transition_name Transition.artifact_rollback_reboot_enter = "ArtifactRollbackReboot_Enter"
transition_name Transition.artifact_rollback_reboot_leave = "ArtifactRollbackReboot_Leave"
transition_name Transition.artifact_failure = "ArtifactFailure"

-- "For some states we should ignore errors as recovery is not possible." The action is not used.
unfoldable pub ignore_errors : Transition → Bool
ignore_errors Transition.idle = true
ignore_errors Transition.artifact_rollback = true
ignore_errors Transition.artifact_rollback_reboot_enter = true
ignore_errors Transition.artifact_rollback_reboot_leave = true
ignore_errors Transition.artifact_failure = true
ignore_errors _ = false

pub data Action : Type 0 where
  enter leave error : Action

unfoldable pub action_name : Action → String
action_name Action.enter = "Enter"
action_name Action.leave = "Leave"
action_name Action.error = "Error"

name_of_parts : Text → Action → List Text → Text
unfolding action_name
name_of_parts name action (base ∷ (side ∷ [])) =
    if not (text_eq (text (action_name action)) (text "Error"))
      && not (text_eq side (text (action_name action)))
    then []
    else base
name_of_parts name action _ = name

-- The empty text stands for "no script for this action".
unfoldable pub get_name : Transition → Action → Text
unfolding name_of_parts split transition_name
get_name t action =
    let name = text (transition_name t) in name_of_parts name action (split b'_' name)
