-- ===== src/App/Diagram/Late.antt =====
-- The arrows that the handlers follow from the commit or the reboot on.
use mender.Prelude.{ℕ, ◌+◌, ◌≡◌, refl, String, Bool, true, none, some, List, [], ◌∷◌, arith}
use mender.Datastore.StateData.{UpdateInfo}
use mender.App.World.{Env, World, Operation}
use mender.App.Handle.Errors.{
  handle_error, handle_state_data_error, until_failure, report_update_status,
}
use mender.App.Handle.Commit
use mender.App.Handle.Reboot
use mender.App.Diagram.Rules.{returns-until_failure, follows-continue, follows_step-continue_step}
use mender.App.Diagram.{Kind, follows, follows_step}

module _ {B : Type 0} (env : Env B) where
  pub follows-update_commit :
      (u : UpdateInfo) (n : ℕ) (w : World B)
      → follows Kind.update_commit (Commit.handle_update_commit env u n w) ≡ true
  unfolding report_update_status Commit.store_commit Commit.handle_update_commit
      Commit.record_commit handle_error handle_state_data_error
  follows-update_commit u n w = ground arith

  pub follows-update_after_first_commit :
      (u : UpdateInfo) (w : World B)
      → follows Kind.update_after_first_commit (Commit.handle_update_after_first_commit env u w)
        ≡ true
  unfolding Commit.handle_update_after_first_commit handle_error
  follows-update_after_first_commit u w = ground arith

  follows-reboot_payload :
      (u : UpdateInfo) (n : ℕ) (system : Bool) (w : World B)
      → follows_step Kind.reboot (Reboot.reboot_payload env u n system w) ≡ true
  unfolding Reboot.reboot_payload handle_error
  follows-reboot_payload u n system w = ground arith

  follows-reboot_loop :
      (u : UpdateInfo) (ts : List String) (n : ℕ) (system : Bool) (w : World B)
      → follows_step Kind.reboot (Reboot.reboot_loop env u ts n system w) ≡ true
  unfolding Reboot.reboot_loop
  follows-reboot_loop u [] n system w = refl
  follows-reboot_loop u (t ∷ ts) n system w =
      follows_step-continue_step Kind.reboot (Reboot.reboot_payload env u n system w) _
        (follows-reboot_payload u n system w) (λ m w'. refl)
        (λ system'. follows-reboot_loop u ts (n + 1) system')

  pub follows-reboot :
      (u : UpdateInfo) (w : World B) → follows Kind.reboot (Reboot.handle_reboot env u w) ≡ true
  unfolding report_update_status Reboot.handle_reboot Reboot.host_reboot handle_error
  follows-reboot u w = grind (arith, λ (ts : List String). follows-reboot_loop u ts 0 Bool.false)

  follows-choose_rollback_reboot :
      (ts : List String) (n : ℕ) (u : UpdateInfo) (w : World B)
      → follows Kind.rollback (Reboot.choose_rollback_reboot env ts n u w) ≡ true
  unfolding Reboot.choose_rollback_reboot handle_error
  follows-choose_rollback_reboot [] n u w = refl
  follows-choose_rollback_reboot (t ∷ ts) n u w =
      ground (arith, follows-choose_rollback_reboot ts (n + 1) u w)

  pub follows-rollback :
      (u : UpdateInfo) (w : World B) → follows Kind.rollback (Reboot.handle_rollback env u w) ≡ true
  unfolding Reboot.handle_rollback handle_error
  follows-rollback u w =
      follows-continue Kind.rollback (until_failure env Operation.rollback w.installers 0 _) _
        (returns-until_failure env Operation.rollback w.installers 0 _)
        (elim [
          | none ↦ follows-choose_rollback_reboot w.installers 0 u
          | some x ↦ λ w'. ground arith
        ])

  follows-rollback_reboot_payload :
      (u : UpdateInfo) (n : ℕ) (system : Bool) (w : World B)
      → follows_step Kind.rollback_reboot (Reboot.rollback_reboot_payload env u n system w) ≡ true
  unfolding Reboot.rollback_reboot_payload handle_error
  follows-rollback_reboot_payload u n system w = ground arith

  follows-rollback_reboot_loop :
      (u : UpdateInfo) (ts : List String) (n : ℕ) (system : Bool) (w : World B)
      → follows_step Kind.rollback_reboot (Reboot.rollback_reboot_loop env u ts n system w) ≡ true
  unfolding Reboot.rollback_reboot_loop
  follows-rollback_reboot_loop u [] n system w = refl
  follows-rollback_reboot_loop u (t ∷ ts) n system w =
      follows_step-continue_step Kind.rollback_reboot
        (Reboot.rollback_reboot_payload env u n system w) _
        (follows-rollback_reboot_payload u n system w) (λ m w'. refl)
        (λ system'. follows-rollback_reboot_loop u ts (n + 1) system')

  pub follows-rollback_reboot :
      (u : UpdateInfo) (w : World B)
      → follows Kind.rollback_reboot (Reboot.handle_rollback_reboot env u w) ≡ true
  unfolding Reboot.handle_rollback_reboot Reboot.host_reboot handle_error
  follows-rollback_reboot u w =
      grind (arith, λ (ts : List String). follows-rollback_reboot_loop u ts 0 Bool.false)
