-- ===== src/App/Standalone/Waiting.antt =====
-- Installing in standalone mode: the update waits for its commit, is committed at once, or is given up.
use mender.Prelude.{
  ℕ, ◌+◌, ◌≡◌, ◌≢◌, ◌⊎◌, Bool, true, false, Option, none, some, Error, ok, err, Result, arith,
}
use mender.Datastore.Db.{Db}
use mender.App.World.{Operation}
use mender.App.Transition.{Action}
use mender.App.Standalone.Device.{StandaloneData, Call, DeviceEnv, Device, call}
use mender.App.Standalone.Restore.{to_stored, store_standalone_data, restore_standalone_data}
use mender.App.Standalone.Install.{until_failure, reboot_needed_loop}
use mender.App.Standalone.Ending.{IsCommitted, IsGivenUp, IsWaiting}

module _ {B : Type 0} (env : DeviceEnv B) where
  -- What was stored is restored, if the installers of its payloads can be created, and both
  -- operations of the database succeed.
  pub restore-store :
      (sd : StandaloneData) (d : Device B)
      → env.faults d.store.ops ≡ none
      → env.faults (d.store.ops + 1) ≡ none
      → env.fails d.calls (Call.create_installers sd.installers) ≡ none
      → (restore_standalone_data env (store_standalone_data env sd d).1).0 ≡ ok sd
  unfolding store_standalone_data restore_standalone_data
  restore-store sd d f g h = ground (arith, env.unmarshal-marshal_standalone (to_stored sd))

module _ {B : Type 0} (env : DeviceEnv B) (quiet : (n : ℕ) → env.faults n ≡ none) where
  abbrev restored : StandaloneData → Option Error → Result StandaloneData
  restored sd none = ok sd
  restored sd (some x) = err x

  -- How the handling of an update that was installed may end, from a given database.
  abbrev pub InstallEnds : StandaloneData → Bool → Type 0 → Db B → Option Error × Device B → Type 0
  InstallEnds sd supports committed before r =
      (((supports ≡ true) ⊎ (r.0 ≢ none)) × IsWaiting env sd before r.1.store.db)
      ⊎ ((((supports ≡ false) × committed) × IsCommitted env sd r.1.store.db)
          ⊎ ((r.0 ≢ none) × IsGivenUp env sd before r.1.store.db))

  -- The device on which the update that is stored is committed.
  abbrev pub at_commit : Device B → Device B
  at_commit d = (restore_standalone_data env d).1

  abbrev pub stored : StandaloneData → Device B → Device B
  stored sd d = at_commit (store_standalone_data env sd d).1

  abbrev pub reboots_known : StandaloneData → Device B → Device B
  reboots_known sd d = stored sd (reboot_needed_loop env sd.installers 0 d).1

  -- The device behind the enter scripts of the installation, behind the installation of the
  -- payloads, and the device on which an update that cannot be rolled back is committed.
  abbrev pub install_enter : Device B → Option Error × Device B
  install_enter d = call env (Call.execute_all "ArtifactInstall" Action.enter false) d

  abbrev pub installs : StandaloneData → Device B → Option Error × Device B
  installs sd d = until_failure env Operation.install_update sd.installers 0 (install_enter d).1

  abbrev pub installed : StandaloneData → Device B → Device B
  installed sd d =
      reboots_known sd (call env (Call.execute_all "ArtifactInstall" Action.leave false) d).1

  -- The enter scripts of the installation, and the installation of the payloads, report no error.
  abbrev pub PayloadsInstall : StandaloneData → Device B → Type 0
  PayloadsInstall sd d = ((install_enter d).0 ≡ none) × ((installs sd d).0 ≡ none)

  -- How an installation may end: without an error of its steps, as above; or it is given up.
  abbrev pub Ends :
      StandaloneData → Bool → Type 0 → Type 0 → Db B → Option Error × Device B → Type 0
  Ends sd supports done committed before r =
      (done
        × ((((supports ≡ true) ⊎ (r.0 ≢ none)) × IsWaiting env sd before r.1.store.db)
            ⊎ (((supports ≡ false) × committed) × IsCommitted env sd r.1.store.db)))
      ⊎ ((r.0 ≢ none) × IsGivenUp env sd before r.1.store.db)
