-- ===== src/Examples/Manual.antt =====
-- Runs of the standalone mode.
use mender.Prelude.{◌≡◌, ◌≢◌, ◌⊎◌, refl, true, Option, none, some, [], ◌∷◌, ok, err, other}
use mender.Datastore.Db.{Faults}
use mender.Datastore.Atomic.{no_faults}
use mender.App.World.{RebootAction}
use mender.App.Standalone.Device.{StandaloneStateData, StandaloneData, DeviceEnv, Device}
use mender.App.Standalone.Finish.{write_cleanup}
use mender.App.Standalone.Restore.{store_standalone_data, restore_standalone_data}
use mender.App.Standalone.Outcome.{write_cleanup_atomic, cleaned}
use mender.App.Standalone.Waiting.{restore-store}
use mender.Examples.{Stored, json, second_fails, store_of}

abbrev unmarshal_standalone : Stored → Option StandaloneStateData
unmarshal_standalone (Stored.standalone sd) = some sd
unmarshal_standalone _ = none

abbrev device_env : Faults → DeviceEnv Stored
device_env faults = record {
  json = json;
  marshal_standalone = Stored.standalone;
  unmarshal_standalone = unmarshal_standalone;
  unmarshal-marshal_standalone = λ sd. refl;
  faults = faults;
  fails = λ h c. none;
  headers_reply = λ h. ([], err (other "no headers"));
  supports_rollback_reply = λ h n. ok true;
  needs_reboot_reply = λ h n. ok RebootAction.no_reboot;
  manifest_reply = λ h. ok "release-1";
  has_dual_rootfs = true;
}

abbrev env : DeviceEnv Stored
env = device_env no_faults

abbrev update : StandaloneData
update = record {
  artifact_name = "release-2";
  artifact_group = "beta";
  artifact_type_info_provides = ("rootfs-image.checksum", "abc") ∷ [];
  installers = "rootfs-image" ∷ [];
}

abbrev device : Device Stored
device = record { store = store_of none; calls = [] }

write_cleanup_atomic_example :
    ((write_cleanup (device_env second_fails) update device).1.store.db ≡ device.store.db)
      × ((write_cleanup (device_env second_fails) update device).0 ≢ none)
    ⊎ ((write_cleanup (device_env second_fails) update device).1.store.db
        ≡ cleaned (device_env second_fails) update device.store.db)
      × ((write_cleanup (device_env second_fails) update device).0 ≡ none)
write_cleanup_atomic_example = write_cleanup_atomic (device_env second_fails) update device

restore-store_example :
    (restore_standalone_data env (store_standalone_data env update device).1).0 ≡ ok update
restore-store_example = restore-store env update device refl refl refl
