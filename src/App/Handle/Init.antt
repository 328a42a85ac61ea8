-- ===== src/App/Handle/Init.antt =====
-- initState of app/state.go: where a restarted client goes on.
use mender.Prelude.{
  String, false, Option, none, some, List, [], Error, other, is_not_exist, is_max_count_exceeded,
  if◌then◌else◌,
}
use mender.Datastore.StateData.{MenderState, UpdateInfo, StateData}
use mender.Datastore.Persist.{load_state_data, zero_state_data}
use mender.App.Error.{MenderError, new_fatal_error}
use mender.App.State.{Status, State, new_status_report}
use mender.App.World.{
  Call, Env, M, Next, done, pure, ◌>>=◌, ◌>>◌, modify, go, call, call_, remove_state_data,
}
use mender.App.Handle.Errors.{handle_state_data_error, default_error}

-- &datastore.UpdateInfo{ID: "unknown"}
abbrev pub unknown_update : UpdateInfo
unknown_update = record zero_state_data.update_info { id = "unknown" }

module _ {B : Type 0} (env : Env B) where
  unfoldable pub load : M B (StateData × Option Error)
  load w =
      let (sd, e, s) = load_state_data env.json env.faults w.store in
      done (sd, e) (record w { store = s })

  -- The update never started: it will be picked up again by the next poll.
  resume_fetch : M B Next
  resume_fetch = do
    e ← remove_state_data env
    elim e [ none ↦ go State.idle | some x ↦ go (State.error (new_fatal_error x)) ]

  -- initState.getNextState: the `switch` on the name of the state that was stored last. `e` is the
  -- error that says where the client was shut down.
  unfoldable pub get_next_state : MenderState → UpdateInfo → MenderError → M B Next
  unfolding resume_fetch default_error
  get_next_state MenderState.update_fetch u e = resume_fetch
  get_next_state MenderState.update_store u e = go (State.update_cleanup u Status.failure)
  get_next_state MenderState.update_after_store u e = go (State.update_cleanup u Status.failure)
  get_next_state MenderState.reboot u e = go (State.verify_reboot u)
  get_next_state MenderState.rollback_reboot u e = go (State.verify_rollback_reboot u)
  get_next_state MenderState.verify_rollback_reboot u e = go (State.verify_rollback_reboot u)
  get_next_state MenderState.after_rollback_reboot u e = go (State.verify_rollback_reboot u)
  get_next_state MenderState.update_after_first_commit u e = go (State.update_after_first_commit u)
  get_next_state MenderState.update_after_commit u e = go (State.update_after_commit u)
  get_next_state MenderState.update_error u e = go (State.update_error e u)
  get_next_state MenderState.update_cleanup u e = go (State.update_cleanup u Status.failure)
  get_next_state _ u e = default_error env u e

  -- RestoreInstallersFromTypeList: one installer for each type, or none at all.
  unfoldable pub restore_installers : List String → M B (Option Error)
  restore_installers types = do
    e ← call env (Call.restore_installers types)
    elim e [
      | none ↦ do modify (λ w. record w { installers = types }); pure none
      | some x ↦ do modify (λ w. record w { installers = [] }); pure (some x)
    ]

  -- The handler behind a record that was loaded.
  unfoldable pub resume : StateData → M B Next
  resume sd = do
    call_ env (Call.enable_log sd.update_info.id)
    e ← restore_installers sd.update_info.artifact.payload_types
    elim e [
      | none ↦
          get_next_state sd.name sd.update_info
            (new_fatal_error (other "Mender shut down in state"))
      | some _ ↦ go (new_status_report sd.update_info Status.failure)
    ]

  -- The handler behind an error of LoadStateData.
  unfoldable pub cannot_load : StateData → Error → M B Next
  cannot_load sd x =
      if is_not_exist x
      then go State.idle
      else if is_max_count_exceeded x
      then (do
        call_ env (Call.enable_log sd.update_info.id)
        handle_state_data_error env (State.idle, false) sd.update_info x)
      else go (State.update_error (new_fatal_error (Error.wrap x)) unknown_update)

  unfoldable pub handle_init : M B Next
  handle_init = do (sd, e) ← load; elim e [ none ↦ resume sd | some x ↦ cannot_load sd x ]
