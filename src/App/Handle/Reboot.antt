-- ===== src/App/Handle/Reboot.antt =====
-- The handlers of app/state.go that reboot and roll back.
use mender.Prelude.{
  ℕ, ◌+◌, String, Bool, true, false, none, some, List, [], ◌∷◌, Error, other, ok, err,
  if◌then◌else◌,
}
use mender.Datastore.StateData.{UpdateInfo, RebootType, get_reboot_requested}
use mender.App.Error.{MenderError, new_fatal_error, new_transient_error}
use mender.App.State.{Status, State, new_update_commit}
use mender.App.World.{
  Operation, Call, Env, M, Next, pure, gets, ask, ◌>>=◌, ◌>>◌, go, call_, operate,
}
use mender.App.Handle.Errors.{handle_error, report_update_status, is_fatal, until_failure}
use mender.App.Handle.Download.{Step, proceed, stop}

module _ {B : Type 0} (env : Env B) where
  stop_with : State → MenderError → M B (Step Bool)
  stop_with self e = do next ← handle_error env self e; pure (stop next)

  -- One payload of a reboot: `system` is systemRebootRequested.
  unfoldable pub reboot_payload : UpdateInfo → ℕ → Bool → M B (Step Bool)
  unfolding stop_with
  reboot_payload u n system = elim (get_reboot_requested u.reboot_requested n) [
    | err e ↦ stop_with (State.reboot u) (new_transient_error (Error.wrap e))
    | ok type ↦ elim type [
      | RebootType.custom ↦ do
        e ← operate env n Operation.reboot
        elim e [ none ↦ pure (proceed system) | some _ ↦ pure (stop (State.rollback u, false)) ]
      | RebootType.automatic ↦ pure (proceed true)
      | _ ↦ pure (proceed system)
    ]
  ]

  unfoldable pub reboot_loop : UpdateInfo → List String → ℕ → Bool → M B (Step Bool)
  reboot_loop u [] n system = pure (proceed system)
  reboot_loop u (t ∷ ts) n system = do
    asked ← reboot_payload u n system
    elim asked [ stop next ↦ pure (stop next) | proceed system' ↦ reboot_loop u ts (n + 1) system' ]

  -- "Final system reboot after reboot scripts have run. Should never return."
  unfoldable pub host_reboot : State → M B Next
  host_reboot self = do
    e ← ask Call.host_reboot env.host_reboot_reply
    handle_error env self (new_transient_error (Error.wrap e))

  reboot_all : UpdateInfo → M B Next
  reboot_all u = do
    installers ← gets (λ w. w.installers)
    asked ← reboot_loop u installers 0 false
    elim asked [
      | stop next ↦ pure next
      | proceed system ↦ if system then host_reboot (State.reboot u) else go (State.verify_reboot u)
    ]

  unfoldable pub handle_reboot : UpdateInfo → M B Next
  unfolding reboot_all
  handle_reboot u = do
    call_ env (Call.enable_log u.id)
    merr ← report_update_status env u Status.rebooting
    if is_fatal env merr then go (State.rollback u) else reboot_all u

  unfoldable pub handle_verify_reboot : UpdateInfo → M B Next
  handle_verify_reboot u = do
    installers ← gets (λ w. w.installers)
    e ← until_failure env Operation.verify_reboot installers 0
    elim e [
      | none ↦ go (State.after_reboot u)
      | some x ↦ handle_error env (State.verify_reboot u) (new_transient_error x)
    ]

  unfoldable pub handle_after_reboot : UpdateInfo → M B Next
  handle_after_reboot u = do call_ env (Call.enable_log u.id); go (new_update_commit u)

  -- The second loop of updateRollbackState.Handle: missing information counts as no reboot.
  unfoldable pub choose_rollback_reboot : List String → ℕ → UpdateInfo → M B Next
  choose_rollback_reboot [] n u =
      go (State.update_error (new_transient_error (other "update error")) u)
  choose_rollback_reboot (t ∷ ts) n u = elim (get_reboot_requested u.reboot_requested n) [
    | err e ↦ choose_rollback_reboot ts (n + 1) u
    | ok type ↦ elim type [
      | RebootType.no_reboot ↦ choose_rollback_reboot ts (n + 1) u
      | RebootType.custom ↦ go (State.rollback_reboot u)
      | RebootType.automatic ↦ go (State.rollback_reboot u)
      | RebootType.corrupt s ↦
          handle_error env (State.rollback u)
            (new_transient_error (other "Unknown reboot type stored in database"))
    ]
  ]

  unfoldable pub handle_rollback : UpdateInfo → M B Next
  handle_rollback u = do
    call_ env (Call.enable_log u.id)
    installers ← gets (λ w. w.installers)
    e ← until_failure env Operation.rollback installers 0
    elim e [
      | some x ↦ handle_error env (State.rollback u) (new_fatal_error x)
      | none ↦ choose_rollback_reboot installers 0 u
    ]

  -- One payload of updateRollbackRebootState.Handle: a failing reboot is only logged.
  unfoldable pub rollback_reboot_payload : UpdateInfo → ℕ → Bool → M B (Step Bool)
  unfolding stop_with
  rollback_reboot_payload u n system = elim (get_reboot_requested u.reboot_requested n) [
    | err e ↦ stop_with (State.rollback_reboot u) (new_transient_error (Error.wrap e))
    | ok type ↦ elim type [
      | RebootType.custom ↦ do _ ← operate env n Operation.rollback_reboot; pure (proceed system)
      | RebootType.automatic ↦ pure (proceed true)
      | _ ↦ pure (proceed system)
    ]
  ]

  unfoldable pub rollback_reboot_loop : UpdateInfo → List String → ℕ → Bool → M B (Step Bool)
  rollback_reboot_loop u [] n system = pure (proceed system)
  rollback_reboot_loop u (t ∷ ts) n system = do
    asked ← rollback_reboot_payload u n system
    elim asked [
      | stop next ↦ pure (stop next)
      | proceed system' ↦ rollback_reboot_loop u ts (n + 1) system'
    ]

  unfoldable pub handle_rollback_reboot : UpdateInfo → M B Next
  handle_rollback_reboot u = do
    call_ env (Call.enable_log u.id)
    installers ← gets (λ w. w.installers)
    asked ← rollback_reboot_loop u installers 0 false
    elim asked [
      | stop next ↦ pure next
      | proceed system ↦
          if system
          then host_reboot (State.rollback_reboot u)
          else go (State.verify_rollback_reboot u)
    ]

  unfoldable pub handle_verify_rollback_reboot : UpdateInfo → M B Next
  handle_verify_rollback_reboot u = do
    installers ← gets (λ w. w.installers)
    e ← until_failure env Operation.verify_rollback_reboot installers 0
    elim e [
      | none ↦ go (State.after_rollback_reboot u)
      | some x ↦ handle_error env (State.verify_rollback_reboot u) (new_transient_error x)
    ]

  unfoldable pub handle_after_rollback_reboot : UpdateInfo → M B Next
  handle_after_rollback_reboot u = do
    call_ env (Call.enable_log u.id)
    go (State.update_error (new_transient_error (other "update error")) u)
