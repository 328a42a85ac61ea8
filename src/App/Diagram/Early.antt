-- ===== src/App/Diagram/Early.antt =====
-- The arrows that the handlers follow up to the installation.
use mender.Prelude.{
  ℕ, ◌+◌, ◌≡◌, refl, String, Result, none, some, inl, inr, ok, err, Option-cases, true, List, [],
  ◌∷◌, arith,
}
use mender.Datastore.StateData.{UpdateInfo, MenderState}
use mender.Datastore.Persist.{load_state_data}
use mender.App.Error.{MenderError}
use mender.App.State.{Status}
use mender.App.World.{Env, World, Headers, Call, Operation, store_update, remove_state_data}
use mender.App.Handle.Errors.{
  handle_error, handle_state_data_error, report_update_status, until_failure,
}
use mender.App.Handle.Init
use mender.App.Handle.Download
use mender.App.Handle.Install
use mender.App.Diagram.Rules.{
  returns-store_update, returns-until_failure, returns-report_update_status, follows-continue,
  follows-continue_step,
}
use mender.App.Diagram.{Kind, follows, follows_step}

module _ {B : Type 0} (env : Env B) where
  follows-get_next_state :
      (name : MenderState) (u : UpdateInfo) (e : MenderError) (w : World B)
      → follows Kind.init (Init.get_next_state env name u e w) ≡ true
  unfolding remove_state_data Init.get_next_state
  follows-get_next_state MenderState.update_fetch u e w = ground arith
  follows-get_next_state _ u e w = ground arith

  pub follows-init : (w : World B) → follows Kind.init (Init.handle_init env w) ≡ true
  unfolding Init.handle_init Init.load Init.resume Init.restore_installers Init.cannot_load
      handle_state_data_error
  follows-init w =
      let sd = (load_state_data env.json env.faults w.store).0 in
      grind (arith, follows-get_next_state sd.name sd.update_info)

  follows-supports_rollback_loop :
      (stream : ℕ) (ts : List String) (n : ℕ) (u : UpdateInfo) (w : World B)
      → follows_step Kind.update_store (Download.supports_rollback_loop env stream ts n u w) ≡ true
  unfolding Download.supports_rollback_loop
  follows-supports_rollback_loop stream [] n u w = refl
  follows-supports_rollback_loop stream (t ∷ ts) n u w =
      grind (arith, follows-supports_rollback_loop stream ts (n + 1))

  follows-handle_supports_rollback :
      (stream : ℕ) (u : UpdateInfo) (w : World B)
      → follows_step Kind.update_store (Download.handle_supports_rollback env stream u w) ≡ true
  unfolding store_update Download.handle_supports_rollback handle_state_data_error
  follows-handle_supports_rollback stream u w =
      ground (arith, follows-supports_rollback_loop stream w.installers 0 u w)

  follows-store_payloads :
      (stream : ℕ) (u : UpdateInfo) (w : World B)
      → follows Kind.update_store (Download.store_payloads env stream u w) ≡ true
  unfolding report_update_status Download.store_payloads
  follows-store_payloads stream u w = grind (arith, follows-handle_supports_rollback stream u)

  follows-store_verified :
      (stream : ℕ) (u : UpdateInfo) (r : Result UpdateInfo) (w : World B)
      → follows Kind.update_store (Download.store_verified env stream u r w) ≡ true
  unfolding Download.store_verified handle_state_data_error
  follows-store_verified stream u (err e) w = refl
  follows-store_verified stream u (ok u') w =
      follows-continue Kind.update_store (store_update env MenderState.update_store u' _) _
        (returns-store_update env MenderState.update_store u' _)
        (elim [ none ↦ follows-store_payloads stream u' | some x ↦ λ w'. ground arith ])

  follows-check_headers :
      (stream : ℕ) (u : UpdateInfo) (h : Headers) (w : World B)
      → follows Kind.update_store (Download.check_headers env stream u h w) ≡ true
  unfolding Download.maybe_verify_artifact_depends_and_provides Download.load_installed
      Download.check_headers
  follows-check_headers stream u h w = grind (arith, follows-store_verified stream u)

  pub follows-update_store :
      (stream : ℕ) (u : UpdateInfo) (w : World B)
      → follows Kind.update_store (Download.handle_update_store env stream u w) ≡ true
  unfolding report_update_status Download.handle_update_store Download.update_store
      Download.read_headers
  follows-update_store stream u w = grind (arith, follows-check_headers stream)

  follows-reboot_type_loop :
      (ts : List String) (n : ℕ) (u : UpdateInfo) (w : World B)
      → follows_step Kind.update_install (Install.reboot_type_loop env ts n u w) ≡ true
  unfolding Install.reboot_type_loop handle_error
  follows-reboot_type_loop [] n u w = refl
  follows-reboot_type_loop (t ∷ ts) n u w = grind (arith, follows-reboot_type_loop ts (n + 1))

  follows-handle_reboot_type :
      (u : UpdateInfo) (w : World B)
      → follows_step Kind.update_install (Install.handle_reboot_type env u w) ≡ true
  unfolding store_update Install.handle_reboot_type handle_error handle_state_data_error
  follows-handle_reboot_type u w = ground (arith, follows-reboot_type_loop w.installers 0 u w)

  follows-choose_reboot :
      (ts : List String) (n : ℕ) (u : UpdateInfo) (w : World B)
      → follows Kind.update_install (Install.choose_reboot env ts n u w) ≡ true
  unfolding Install.choose_reboot handle_error
  follows-choose_reboot [] n u w = refl
  follows-choose_reboot (t ∷ ts) n u w = ground (arith, follows-choose_reboot ts (n + 1) u w)

  follows-install :
      (u : UpdateInfo) (w : World B) → follows Kind.update_install (Install.install env u w) ≡ true
  unfolding Install.install handle_error
  follows-install u w =
      follows-continue Kind.update_install
        (until_failure env Operation.install_update w.installers 0 w) _
        (returns-until_failure env Operation.install_update w.installers 0 w)
        (elim [
          | none ↦ λ w'.
              follows-continue_step Kind.update_install (Install.handle_reboot_type env u w') _
                (follows-handle_reboot_type u w') (λ n w''. refl)
                (λ u'. follows-choose_reboot w.installers 0 u')
          | some x ↦ λ w'. ground arith
        ])

  pub follows-update_install :
      (u : UpdateInfo) (w : World B)
      → follows Kind.update_install (Install.handle_update_install env u w) ≡ true
  unfolding Install.handle_update_install handle_error
  follows-update_install u w = elim (Option-cases (env.fails w.calls (Call.enable_log u.id))) [
    | inl e ↦ rw e (
        follows-continue Kind.update_install (report_update_status env u Status.installing _) _
          (returns-report_update_status env u Status.installing _)
          (elim [ none ↦ follows-install u | some m ↦ λ w'. ground (arith, follows-install u w') ]))
    | inr x ↦ rw (x.1)
  ]
