-- ===== src/App/Handle/Commit.antt =====
-- The handlers of app/state.go that commit an update.
use mender.Prelude.{
  ℕ, ◌+◌, ◌*◌, ◌/◌, ltb, leb, ◌==◌, String, Bool, false, Option, none, some, List, [], ◌∷◌, Error,
  other, if◌then◌else◌,
}
use mender.Datastore.StateData.{MenderState, UpdateInfo}
use mender.Datastore.Db.{Key, Txn, write_all}
use mender.Datastore.Db
use mender.Datastore.Persist.{store_state_data_and_transaction}
use mender.App.Error.{new_transient_error}
use mender.App.State.{Status, State}
use mender.App.World.{
  Operation, Call, Env, M, Next, done, panic, gets, ◌>>=◌, ◌>>◌, set_current, go, call, call_,
  operate,
}
use mender.App.Handle.Errors.{
  handle_error, handle_state_data_error, report_update_status, wait_without_cancel, for_all,
}

-- minReportSendRetries and maxSendingAttemptsRoof
abbrev pub min_report_send_retries : ℕ
min_report_send_retries = 3

abbrev pub max_sending_attempts_roof : ℕ
max_sending_attempts_roof = 10

-- maxSendingAttempts: the intervals are in nanoseconds.
unfoldable pub max_sending_attempts : ℕ → ℕ → ℕ → ℕ
max_sending_attempts upi rpi min_retries =
    if rpi == 0
    then min_retries
    else if leb (upi / rpi) min_retries
    then min_retries
    else if ltb (upi / rpi * 2) max_sending_attempts_roof
    then upi / rpi * 2
    else max_sending_attempts_roof

module _ {B : Type 0} (env : Env B) where
  -- The transaction function of the commit: the names of the new artifact.
  unfoldable pub write_artifact : UpdateInfo → Txn Bool B (Unit {0})
  unfolding write_all
  write_artifact u =
      Db.◌>>◌ (write_all env.faults Key.artifact_name (env.json.to_bytes u.artifact.artifact_name))
        (Db.◌>>◌
          (write_all env.faults Key.artifact_group (env.json.to_bytes u.artifact.artifact_group))
          (write_all env.faults Key.artifact_type_info_provides
            (env.json.marshal_provides u.artifact.type_info_provides)))

  unfoldable pub store_commit : UpdateInfo → M B (Option Error)
  unfolding write_artifact
  store_commit u w =
      let (e, s) =
        store_state_data_and_transaction env.json env.faults (write_artifact u)
          (record { version = 0; name = MenderState.update_commit; update_info = u }) w.store in
      done e (record w { store = s })

  abbrev pub committed : UpdateInfo → UpdateInfo
  committed u = record u { has_db_schema_update = false }

  -- The handler behind a successful CommitUpdate of the first payload.
  unfoldable pub record_commit : UpdateInfo → ℕ → M B Next
  record_commit u tries = do
    set_current (State.update_commit (committed u) tries)
    e ← store_commit (committed u)
    elim e [
      | none ↦ go (State.update_after_first_commit (committed u))
      | some x ↦
          handle_state_data_error env
            (State.update_error (new_transient_error x) (committed u), false) (committed u) x
    ]

  commit_first : UpdateInfo → ℕ → List String → M B Next
  commit_first u tries [] =
      handle_error env (State.update_commit u tries)
        (new_transient_error (other "GetInstallers() returned empty list? Should not happen"))
  commit_first u tries (t ∷ ts) = do
    e ← operate env 0 Operation.commit_update
    elim e [
      | some x ↦
          handle_error env (State.update_commit u tries)
            (new_transient_error (other "update commit failed"))
      | none ↦ record_commit u tries
    ]

  -- updateCommitState.Handle; sendDeploymentStatus counts the try in the state.
  unfoldable pub handle_update_commit : UpdateInfo → ℕ → M B Next
  unfolding commit_first
  handle_update_commit u tries = do
    call_ env (Call.enable_log u.id)
    e ← call env Call.check_scripts
    elim e [
      | some x ↦
          handle_error env (State.update_commit u tries)
            (new_transient_error (other "update commit failed"))
      | none ↦ do
        set_current (State.update_commit u (tries + 1))
        merr ← report_update_status env u Status.installing
        elim merr [
          | none ↦ do installers ← gets (λ w. w.installers); commit_first u (tries + 1) installers
          | some m ↦
              if m.is_fatal
              then handle_error env (State.update_commit u (tries + 1)) m
              else go (State.pre_commit_retry (State.update_commit u (tries + 1)) (tries + 1))
        ]
    ]

  -- "We are always initializing with triesSending = 1", so one more is allowed.
  abbrev pub max_try_sending : ℕ
  max_try_sending =
      max_sending_attempts env.update_poll_interval env.retry_poll_interval min_report_send_retries
      + 1

  unfoldable pub handle_pre_commit_retry : State → ℕ → M B Next
  unfolding wait_without_cancel
  handle_pre_commit_retry return_to tries =
      if ltb tries max_try_sending
      then wait_without_cancel env return_to env.retry_poll_interval
      else handle_error env return_to
          (new_transient_error (other "Tried sending status report maximum number of times."))

  commit_rest : UpdateInfo → List String → M B Next
  commit_rest u [] = panic
  commit_rest u (t ∷ ts) = do
    e ← for_all env Operation.commit_update ts 1
    elim e [
      | none ↦ go (State.update_after_commit u)
      | some x ↦
          handle_error env (State.update_after_first_commit u)
            (new_transient_error (other "update commit failed"))
    ]

  -- `c.GetInstallers()[1:]` panics on an empty list.
  unfoldable pub handle_update_after_first_commit : UpdateInfo → M B Next
  unfolding commit_rest
  handle_update_after_first_commit u = do
    installers ← gets (λ w. w.installers)
    commit_rest u installers

  unfoldable pub handle_update_after_commit : UpdateInfo → M B Next
  handle_update_after_commit u = go (State.update_cleanup u Status.success)
