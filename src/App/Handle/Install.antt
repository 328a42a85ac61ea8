-- ===== src/App/Handle/Install.antt =====
-- updateAfterStoreState and updateInstallState of app/state.go.
use mender.Prelude.{
  ℕ, ◌+◌, String, Option, none, some, List, [], ◌∷◌, Error, other, ok, err, if◌then◌else◌,
}
use mender.Datastore.StateData.{
  MenderState, UpdateInfo, RebootType, set_reboot_requested, get_reboot_requested,
}
use mender.App.Error.{MenderError, new_fatal_error, new_transient_error}
use mender.App.State.{Status, State, new_update_commit}
use mender.App.World.{
  Operation, Call, Env, RebootAction, M, Next, pure, gets, ask, ◌>>=◌, ◌>>◌, set_current, go, call,
  store_update,
}
use mender.App.Handle.Errors.{
  handle_error, handle_state_data_error, report_update_status, until_failure,
}
use mender.App.Handle.Download.{Step, proceed, stop}

-- The reboot type that is stored for an answer of NeedsReboot; an unknown answer has none.
abbrev pub requested : RebootAction → Option RebootType
requested RebootAction.no_reboot = some RebootType.no_reboot
requested RebootAction.reboot_required = some RebootType.custom
requested RebootAction.automatic_reboot = some RebootType.automatic
requested (RebootAction.unknown n) = none

module _ {B : Type 0} (env : Env B) where
  stop_with : State → MenderError → M B (Step UpdateInfo)
  stop_with self e = do next ← handle_error env self e; pure (stop next)

  -- The loop of handleRebootType; the answers are written into the state.
  unfoldable pub reboot_type_loop : List String → ℕ → UpdateInfo → M B (Step UpdateInfo)
  unfolding stop_with
  reboot_type_loop [] n u = pure (proceed u)
  reboot_type_loop (t ∷ ts) n u = do
    answer ← ask (Call.needs_reboot n) (λ h. env.needs_reboot_reply h n)
    elim answer [
      | err e ↦ stop_with (State.update_install u) (new_transient_error e)
      | ok action ↦ elim (requested action) [
        | none ↦
            stop_with (State.update_install u)
              (new_fatal_error (other "Unknown reply from NeedsReboot. Should not happen"))
        | some type ↦ elim (set_reboot_requested u.reboot_requested n type) [
          | err e ↦ stop_with (State.update_install u) (new_transient_error (Error.wrap e))
          | ok r ↦ do
            set_current (State.update_install (record u { reboot_requested = r }))
            reboot_type_loop ts (n + 1) (record u { reboot_requested = r })
        ]
      ]
    ]

  unfoldable pub handle_reboot_type : UpdateInfo → M B (Step UpdateInfo)
  handle_reboot_type u = do
    installers ← gets (λ w. w.installers)
    asked ← reboot_type_loop installers 0 u
    elim asked [
      | stop next ↦ pure (stop next)
      | proceed u' ↦ do
        e ← store_update env MenderState.update_install u'
        elim e [
          | none ↦ pure (proceed u')
          | some x ↦ do
            next ← handle_error env (State.update_install u') (new_transient_error x)
            next' ← handle_state_data_error env next u' x
            pure (stop next')
        ]
    ]

  -- The last loop of the handler: reboot if one payload asked for it, else commit.
  unfoldable pub choose_reboot : List String → ℕ → UpdateInfo → M B Next
  choose_reboot [] n u = go (new_update_commit u)
  choose_reboot (t ∷ ts) n u = elim (get_reboot_requested u.reboot_requested n) [
    | err e ↦ handle_error env (State.update_install u) (new_transient_error (Error.wrap e))
    | ok type ↦ elim type [
      | RebootType.no_reboot ↦ choose_reboot ts (n + 1) u
      | RebootType.custom ↦ go (State.reboot u)
      | RebootType.automatic ↦ go (State.reboot u)
      | RebootType.corrupt s ↦
          handle_error env (State.update_install u)
            (new_transient_error (other "Unknown reboot type stored in database"))
    ]
  ]

  unfoldable pub install : UpdateInfo → M B Next
  install u = do
    installers ← gets (λ w. w.installers)
    e ← until_failure env Operation.install_update installers 0
    elim e [
      | some x ↦ handle_error env (State.update_install u) (new_transient_error x)
      | none ↦ do
        asked ← handle_reboot_type u
        elim asked [ stop next ↦ pure next | proceed u' ↦ choose_reboot installers 0 u' ]
    ]

  unfoldable pub handle_update_install : UpdateInfo → M B Next
  handle_update_install u = do
    logging ← call env (Call.enable_log u.id)
    elim logging [
      | some x ↦ go (State.update_error (new_transient_error x) u)
      | none ↦ do
        merr ← report_update_status env u Status.installing
        elim merr [
          | none ↦ install u
          | some m ↦ if m.is_fatal then handle_error env (State.update_install u) m else install u
        ]
    ]

  -- "This state only exists to run Download_Leave."
  unfoldable pub handle_update_after_store : UpdateInfo → M B Next
  handle_update_after_store u = go (State.update_install u)
