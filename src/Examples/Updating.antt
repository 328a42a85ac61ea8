-- ===== src/Examples/Updating.antt =====
-- Runs of the handlers, of the checks of an artifact and of the state scripts.
use mender.Prelude.{
  ℕ, ◌≡◌, ◌≢◌, ◌⊎◌, ◌↔◌, refl, true, false, some, none, List, [], ◌∷◌, String, ok, other,
  max_count_exceeded, Bool,
}
use mender.Datastore.StateData.{UpdateInfo, not_supported, Provides}
use mender.Datastore.Db.{put_store}
use mender.Datastore.Persist.{store_state_data, existing_count}
use mender.App.Error.{MenderError, new_transient_error}
use mender.App.Transition.{Action, get_name, is_to_error}
use mender.App.State.{State, new_update_commit, transition, id, update?}
use mender.App.World.{Env, World, result, world, Call, done, flag_broken}
use mender.App.Depends.{Depend, lookup, verify_artifact_dependencies}
use mender.App.Handle.Errors.{handle_error}
use mender.App.Handle.Commit.{store_commit, handle_update_commit}
use mender.App.Handle.Download.{take_provides}
use mender.App.Transit.{handle, transition_state, leave_from, status_of_origin, report_of}
use mender.App.Diagram.{Kind, follows}
use mender.App.Diagram.Total.{handle-follows}
use mender.App.Committing.{IsInstalled, Commits, Commits-update_commit, store_commit_atomic}
use mender.App.Broken.{IsFlagged, given_up-IsFlagged}
use mender.App.Success.{ClaimsInstalled, success_needs_commit}
use mender.App.Depends.Correct.{AllSatisfied, verify-iff-AllSatisfied}
use mender.Examples.{
  Stored, json, second_fails, sample, install_data, store_of, env_with, env, failing_env, world_at,
}

abbrev failure_error : MenderError
failure_error = new_transient_error (other "failed")

handle-follows_example :
    follows Kind.update_install
      (handle failing_env (State.update_install sample) (world_at (State.update_install sample)))
    ≡ true
handle-follows_example =
    handle-follows failing_env (State.update_install sample)
      (world_at (State.update_install sample)) refl

store_commit_atomic_example :
    ((world (
          store_commit
            (env_with second_fails)
            sample
            (world_at (new_update_commit sample)))).store.db
        ≡ (world_at (new_update_commit sample)).store.db)
      × (result (store_commit (env_with second_fails) sample (world_at (new_update_commit sample)))
          ≢ some none)
    ⊎ IsInstalled
        (env_with second_fails)
        sample
        (world (
          store_commit
            (env_with second_fails)
            sample
            (world_at (new_update_commit sample)))).store.db
store_commit_atomic_example =
    store_commit_atomic (env_with second_fails) sample (world_at (new_update_commit sample)) refl

abbrev no_rollback : UpdateInfo
no_rollback = record sample { supports_rollback = not_supported }

abbrev flagged_world : World Stored
flagged_world = record (world_at (State.update_install no_rollback)) {
  store = record {
    db = record (world_at State.idle).store.db {
      name_entry = some (Stored.text "release-2_INCONSISTENT");
    };
    ops = 1;
  };
}

given_up_update : update? (State.update_install no_rollback) ≡ some no_rollback
unfolding update?
given_up_update = refl

reboot_update : (u : UpdateInfo) → update? (State.reboot u) ≡ some u
unfolding update?
reboot_update u = refl

given_up_run :
    handle_error env
      (State.update_install no_rollback)
      failure_error
      (world_at (State.update_install no_rollback))
    ≡ done (State.update_error failure_error no_rollback, false) flagged_world
unfolding handle_error flag_broken put_store
given_up_run = refl

given_up-IsFlagged_example : IsFlagged env no_rollback flagged_world
given_up-IsFlagged_example =
    given_up-IsFlagged env (λ n. refl) (State.update_install no_rollback) failure_error
      (world_at (State.update_install no_rollback)) flagged_world
      (State.update_error failure_error no_rollback, false) no_rollback given_up_update refl
      given_up_run refl

abbrev every : ℕ → Bool
every n = true

abbrev provided : Provides
provided = ("artifact_name", "release-2") ∷ ("artifact_group", "stable") ∷ ("checksum", "abc") ∷ []

abbrev with_provides : UpdateInfo
with_provides = record sample {
  artifact = record sample.artifact {
    artifact_group = "stable";
    type_info_provides = ("checksum", "abc") ∷ [];
  };
}

take_provided : take_provides sample (ok (some provided)) ≡ ok with_provides
unfolding take_provides
take_provided = refl

name_provided : lookup "artifact_name" provided ≡ some "release-2"
unfolding lookup
name_provided = refl

abbrev depends : List (String × Depend)
depends =
    ("device_type", Depend.strings []) ∷ ("checksum", Depend.strings ("xyz" ∷ "abc" ∷ [])) ∷ []

verify-iff-AllSatisfied_example :
    (verify_artifact_dependencies depends provided ≡ none) ↔ AllSatisfied depends provided
verify-iff-AllSatisfied_example = verify-iff-AllSatisfied depends provided

to_rollback : is_to_error (transition (State.rollback sample)) ≡ true
unfolding transition
to_rollback = refl

from_install : is_to_error (transition (State.update_install sample)) ≡ false
unfolding transition
from_install = refl

abbrev FromInstallToRollback : Env Stored → World Stored → Type 0
FromInstallToRollback e w =
    (result (leave_from e (State.update_install sample) (State.rollback sample) w) ≡ some none)
    × (((world (leave_from e (State.update_install sample) (State.rollback sample) w)).calls
          ≡ w.calls)
        ⊎ ((world (leave_from e (State.update_install sample) (State.rollback sample) w)).calls
            ≡ Call.execute_all (get_name (transition (State.update_install sample)) Action.error)
                Action.error true
                (status_of_origin (State.update_install sample) (report_of (State.rollback sample)))
              ∷ w.calls))

abbrev looping : UpdateInfo
looping = record sample { state_data_store_count = 70 }

abbrev looping_world : World Stored
looping_world = record (world_at (State.update_install sample)) {
  store = store_of (some (record install_data { update_info = looping }));
}

exceeded_run :
    (store_state_data json
      (env.faults)
      (record { version = 0; name = id (State.reboot looping); update_info = looping })
      looping_world.store).0
    ≡ some max_count_exceeded
unfolding store_state_data existing_count
exceeded_run = refl

success_needs_commit_example : ClaimsInstalled failing_env (new_update_commit sample) (
    transition_state failing_env
      (new_update_commit sample)
      (world_at (State.update_install sample)))
success_needs_commit_example =
    success_needs_commit failing_env (new_update_commit sample)
      (world_at (State.update_install sample)) refl refl refl

Commits-update_commit_example :
    Commits env sample (handle_update_commit env sample 0 (world_at (new_update_commit sample)))
Commits-update_commit_example =
    Commits-update_commit env sample 0 (world_at (new_update_commit sample))
