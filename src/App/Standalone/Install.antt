-- ===== src/App/Standalone/Install.antt =====
-- Installing, committing and rolling back in app/standalone.go. A function that the source calls
-- for its effect on the standalone data returns that data.
use mender.Prelude.{
  ℕ, ◌+◌, String, Bool, true, false, Option, none, some, List, [], ◌∷◌, Error, other, ok, err,
  Result, if◌then◌else◌, ◌||◌,
}
use mender.Text.{text, has_prefix}
use mender.Datastore.StateData.{Provides}
use mender.Datastore.Persist.{load_provides}
use mender.App.Transition.{Action}
use mender.App.World.{Operation, RebootAction, Headers}
use mender.App.Depends.{Depend, lookup, verify_artifact_dependencies}
use mender.App.Handle.Download.{delete}
use mender.App.Standalone.Device.{
  StandaloneData, Call, DeviceEnv, S, pure, ask, ◌>>=◌, ◌>>◌, call, call_,
}
use mender.App.Standalone.Finish.{
  break_name, keep_name, determine_rollback_support, do_standalone_rollback_state,
  do_standalone_failure_states, do_standalone_cleanup, call_error_script,
}
use mender.App.Standalone.Restore.{store_standalone_data, restore_standalone_data}

-- The data of a device on which only the installers are known.
abbrev pub only_installers : List String → StandaloneData
only_installers ts = record {
  artifact_name = "";
  artifact_group = "";
  artifact_type_info_provides = [];
  installers = ts;
}

abbrev with_group : Option String → StandaloneData → StandaloneData
with_group none sd = sd
with_group (some g) sd = record sd { artifact_group = g }

-- The name and the group are taken out of the provides.
unfoldable pub take_standalone_provides : Option Provides → StandaloneData → StandaloneData
unfolding delete lookup
take_standalone_provides none sd = sd
take_standalone_provides (some p) sd =
    let q = delete "artifact_name" p in
    with_group (lookup "artifact_group" q)
      (record sd { artifact_type_info_provides = delete "artifact_group" q })

abbrev is_no_reboot : RebootAction → Bool
is_no_reboot RebootAction.no_reboot = true
is_no_reboot _ = false

abbrev pub is_remote : String → Bool
is_remote uri = has_prefix (text uri) (text "http:") || has_prefix (text uri) (text "https:")

module _ {B : Type 0} (env : DeviceEnv B) where
  -- `doStandaloneFailureStates(…); return err`: the error of the failure states is dropped.
  unfoldable pub fail_with : StandaloneData → Bool → Bool → Bool → Error → S B (Option Error)
  fail_with sd rollback failure cleanup x = do
    _ ← do_standalone_failure_states env sd rollback failure cleanup
    pure (some x)

  -- The same behind the error script of a state.
  unfoldable pub fail_in : String → StandaloneData → Bool → Bool → Bool → Error → S B (Option Error)
  unfolding fail_with
  fail_in state sd rollback failure cleanup x = do
    call_error_script env state
    fail_with sd rollback failure cleanup x

  unfoldable pub load_installed_provides : S B (Result Provides)
  load_installed_provides d =
      let (p, s) = load_provides env.json env.faults d.store in (p, record d { store = s })

  unfoldable pub check_depends : Result (Option (List (String × Depend))) → S B (Option Error)
  unfolding load_installed_provides
  check_depends (err e) = pure (some e)
  check_depends (ok none) = pure none
  check_depends (ok (some depends)) = do
    provides ← load_installed_provides
    elim provides [ err e ↦ pure (some e) | ok p ↦ pure (verify_artifact_dependencies depends p) ]

  -- A download that has failed with the error, or its data.
  abbrev pub failed : Option Error → S B (Result StandaloneData)
  failed none = pure (err (other "failed"))
  failed (some x) = pure (err x)

  unfoldable pub store_standalone_payloads : StandaloneData → S B (Result StandaloneData)
  store_standalone_payloads sd = do
    e ← call env Call.store_payloads
    elim e [
      | some x ↦ do f ← fail_in "Download" sd false false true x; failed f
      | none ↦ do
        e' ← call env (Call.execute_all "Download" Action.leave false)
        elim e' [
          | some x ↦ do f ← fail_in "Download" sd false false true x; failed f
          | none ↦ pure (ok sd)
        ]
    ]

  unfoldable pub download_headers : List String → Headers → S B (Result StandaloneData)
  unfolding check_depends
  download_headers ts h = elim h.provides [
    | err e ↦ pure (err e)
    | ok p ↦
        let sd =
          take_standalone_provides p
            (record (only_installers ts) { artifact_name = h.artifact_name }) in
        do
          e ← check_depends h.depends
          elim e [ some x ↦ pure (err x) | none ↦ store_standalone_payloads sd ]
  ]

  unfoldable pub do_standalone_install_states_download : S B (Result StandaloneData)
  do_standalone_install_states_download = do
    e ← call env Call.get_device_type
    elim e [
      | some x ↦ pure (err x)
      | none ↦ do
        e' ← call env (Call.execute_all "Download" Action.enter false)
        elim e' [
          | some x ↦ do call_error_script env "Download"; pure (err x)
          | none ↦ do
            (ts, headers) ← ask Call.read_headers env.headers_reply
            elim headers [
              | err x ↦ do f ← fail_in "Download" (only_installers ts) false false true x; failed f
              | ok h ↦ download_headers ts h
            ]
        ]
    ]

  -- A loop over the installers that stops at the first error.
  unfoldable pub until_failure : Operation → List String → ℕ → S B (Option Error)
  until_failure op [] n = pure none
  until_failure op (t ∷ ts) n = do
    e ← call env (Call.installer n op)
    elim e [ none ↦ until_failure op ts (n + 1) | some x ↦ pure (some x) ]

  unfoldable pub reboot_needed_loop : List String → ℕ → S B (Result Bool)
  reboot_needed_loop [] n = pure (ok false)
  reboot_needed_loop (t ∷ ts) n = do
    answer ← ask (Call.needs_reboot n) (λ h. env.needs_reboot_reply h n)
    elim answer [
      | err e ↦ pure (err e)
      | ok action ↦
          let rest = reboot_needed_loop ts (n + 1) in
          if is_no_reboot action then rest else pure (ok true)
    ]

  abbrev pub determine_reboot_needed : List String → S B (Result Bool)
  determine_reboot_needed installers = reboot_needed_loop installers 0

  -- The end of doStandaloneCommitStates, with the error of the leave scripts.
  unfoldable pub finish_commit : StandaloneData → Option Error → S B (Option Error)
  finish_commit sd none = do_standalone_cleanup env sd
  finish_commit sd (some x) = do
    call_error_script env "ArtifactCommit"
    e ← do_standalone_cleanup env (break_name sd)
    pure (some x)

  -- What follows the commits of the payloads.
  unfoldable pub after_commits : StandaloneData → Option Error → S B (Option Error)
  unfolding finish_commit
  after_commits sd (some x) = fail_in "ArtifactCommit" sd true true true x
  after_commits sd none = do
    e ← call env (Call.execute_all "ArtifactCommit" Action.leave false)
    finish_commit sd e

  -- What follows the enter scripts of the commit.
  unfoldable pub after_commit_enter : StandaloneData → Option Error → S B (Option Error)
  after_commit_enter sd (some x) = fail_in "ArtifactCommit" sd true true true x
  after_commit_enter sd none = do
    e ← until_failure Operation.commit_update sd.installers 0
    after_commits sd e

  unfoldable pub do_standalone_commit_states : StandaloneData → S B (Option Error)
  do_standalone_commit_states sd = do
    e ← call env (Call.execute_all "ArtifactCommit" Action.enter false)
    after_commit_enter sd e

  unfoldable pub commit_restored : Result StandaloneData → S B (Option Error)
  commit_restored (err e) = pure (some e)
  commit_restored (ok sd) = do_standalone_commit_states sd

  unfoldable pub do_standalone_commit : S B (Option Error)
  do_standalone_commit = do restored ← restore_standalone_data env; commit_restored restored

  -- What follows a rollback that returned the error.
  unfoldable pub finish_rollback : StandaloneData → Option Error → S B (Option Error)
  finish_rollback sd none = do_standalone_cleanup env (keep_name sd)
  finish_rollback sd (some x) = do
    (sd', _) ← do_standalone_failure_states env sd false true false
    e ← do_standalone_cleanup env sd'
    pure (some x)

  unfoldable pub do_standalone_rollback : S B (Option Error)
  unfolding finish_rollback
  do_standalone_rollback = do
    restored ← restore_standalone_data env
    elim restored [
      | err e ↦ pure (some e)
      | ok sd ↦ do
        support ← determine_rollback_support env sd.installers
        elim support [
          | err e ↦ pure (some e)
          | ok supports ↦
              if supports
              then (do e ← do_standalone_rollback_state env sd; finish_rollback sd e)
              else pure (some (other "No rollback support"))
        ]
    ]

  -- The exit code that asks for a reboot by hand.
  abbrev pub manual_reboot_required : Error
  manual_reboot_required = other "Manual reboot required"

  abbrev pub reboot_exit : Bool → Bool → S B (Option Error)
  reboot_exit true true = pure (some manual_reboot_required)
  reboot_exit _ _ = pure none

  -- What follows the commit of an update that cannot be rolled back.
  abbrev pub after_commit : Bool → Bool → Option Error → S B (Option Error)
  after_commit reboot_needed reboot_exit_code (some x) = pure (some x)
  after_commit reboot_needed reboot_exit_code none = reboot_exit reboot_needed reboot_exit_code

  -- The handling of an update that was stored: it waits for its commit, or is committed at once.
  unfoldable pub maybe_commit : Bool → Bool → Bool → S B (Option Error)
  maybe_commit true reboot_needed reboot_exit_code = reboot_exit reboot_needed reboot_exit_code
  maybe_commit false reboot_needed reboot_exit_code = do
    e ← do_standalone_commit
    after_commit reboot_needed reboot_exit_code e

  -- What follows the storing of the update.
  unfoldable pub after_store : Bool → Bool → Bool → Option Error → S B (Option Error)
  after_store supports reboot_needed reboot_exit_code (some x) = pure (some x)
  after_store supports reboot_needed reboot_exit_code none =
      maybe_commit supports reboot_needed reboot_exit_code

  unfoldable pub store_installed : StandaloneData → Bool → Bool → Result Bool → S B (Option Error)
  store_installed sd supports reboot_exit_code (err x) = fail_with sd true true true x
  store_installed sd supports reboot_exit_code (ok reboot_needed) = do
    e ← store_standalone_data env sd
    after_store supports reboot_needed reboot_exit_code e

  -- What follows the leave scripts of the installation.
  unfoldable pub after_install_leave :
      StandaloneData → Bool → Bool → Option Error → S B (Option Error)
  unfolding reboot_needed_loop
  after_install_leave sd supports reboot_exit_code (some x) =
      fail_in "ArtifactInstall" sd true true true x
  after_install_leave sd supports reboot_exit_code none = do
    needed ← determine_reboot_needed sd.installers
    store_installed sd supports reboot_exit_code needed

  -- What follows the installation of the payloads.
  unfoldable pub after_installs : StandaloneData → Bool → Bool → Option Error → S B (Option Error)
  after_installs sd supports reboot_exit_code (some x) =
      fail_in "ArtifactInstall" sd true true true x
  after_installs sd supports reboot_exit_code none = do
    e ← call env (Call.execute_all "ArtifactInstall" Action.leave false)
    after_install_leave sd supports reboot_exit_code e

  -- What follows the enter scripts of the installation.
  unfoldable pub after_install_enter :
      StandaloneData → Bool → Bool → Option Error → S B (Option Error)
  after_install_enter sd supports reboot_exit_code (some x) =
      fail_in "ArtifactInstall" sd true true true x
  after_install_enter sd supports reboot_exit_code none = do
    e ← until_failure Operation.install_update sd.installers 0
    after_installs sd supports reboot_exit_code e

  unfoldable pub install_payloads : StandaloneData → Bool → Bool → S B (Option Error)
  install_payloads sd supports reboot_exit_code = do
    e ← call env (Call.execute_all "ArtifactInstall" Action.enter false)
    after_install_enter sd supports reboot_exit_code e

  unfoldable pub do_standalone_install_states : Bool → S B (Option Error)
  do_standalone_install_states reboot_exit_code = do
    downloaded ← do_standalone_install_states_download
    elim downloaded [
      | err x ↦ pure (some x)
      | ok sd ↦ do
        support ← determine_rollback_support env sd.installers
        elim support [
          | err x ↦ fail_with sd false false true x
          | ok supports ↦ install_payloads sd supports reboot_exit_code
        ]
    ]

  -- The image of DoStandaloneInstall, from a server or from a file.
  unfoldable pub fetch_image : Bool → String → S B (Option Error)
  fetch_image true uri = do
    e ← call env Call.new_client
    elim e [ some x ↦ pure (some x) | none ↦ call env (Call.fetch_update uri) ]
  fetch_image false uri = call env (Call.fetch_update_from_file uri)

  unfoldable pub do_standalone_install : String → Bool → S B (Option Error)
  unfolding fetch_image
  do_standalone_install uri reboot_exit_code = do
    e ← fetch_image (is_remote uri) uri
    elim e [
      | some x ↦ pure (some (Error.wrap x))
      | none ↦ do
        e' ← do_standalone_install_states reboot_exit_code
        call_ env Call.close_image
        pure e'
    ]
