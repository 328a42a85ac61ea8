-- ===== src/Examples.antt =====
-- Test data: an encoding whose byte strings keep what they encode, environments, and an update.
use mender.Prelude.{
  ℕ, zero, suc, ◌+◌, String, Bool, true, false, Option, none, some, List, [], ◌∷◌, Error, other, ok,
  err, refl,
}
use mender.Datastore.StateData.{MenderState, UpdateInfo, StateData, Provides, RebootType, supported}
use mender.Datastore.Db.{Store, Faults, Db}
use mender.Datastore.Persist.{Json, put_provide, zero_state_data}
use mender.Datastore.Atomic.{no_faults}
use mender.App.State.{State}
use mender.App.Standalone.Device.{StandaloneStateData}
use mender.App.World.{Env, World, WaitEnd, RebootAction}
mod Authorizing
mod Download
mod Manual
mod Payload
mod Rootfs
mod Scripts
mod Storing
mod Updating
mod Waiting

pub data Stored : Type 0 where
  state : StateData → Stored
  provides : Provides → Stored
  text : String → Stored
  standalone : StandaloneStateData → Stored

abbrev put_all : Provides → Provides → Provides
put_all [] base = base
put_all ((k, v) ∷ p) base = put_all p (put_provide k v base)

abbrev unmarshal : Stored → Option StateData
unmarshal (Stored.state sd) = some sd
unmarshal _ = none

abbrev unmarshal_into : Stored → Provides → Option Provides
unmarshal_into (Stored.provides p) base = some (put_all p base)
unmarshal_into _ base = none

abbrev text_of : Stored → String
text_of (Stored.text s) = s
text_of _ = ""

abbrev pub json : Json Stored
json = record {
  marshal_state = Stored.state;
  unmarshal_state = unmarshal;
  marshal_provides = Stored.provides;
  unmarshal_provides = unmarshal_into;
  to_bytes = Stored.text;
  to_string = text_of;
  unmarshal-marshal = λ sd. refl;
}

-- The second operation fails.
abbrev pub second_fails : Faults
second_fails (suc zero) = some "MDB_MAP_FULL"
second_fails _ = none

abbrev pub sample : UpdateInfo
sample = record {
  artifact = record {
    uri = "https://mender.example/release-2";
    expire = "";
    compatible_devices = "beaglebone" ∷ [];
    payload_types = "rootfs-image" ∷ "single-file" ∷ [];
    artifact_name = "release-2";
    artifact_group = "";
    type_info_provides = ("rootfs-image.checksum", "abc") ∷ [];
  };
  id = "deployment-7";
  reboot_requested = RebootType.custom ∷ RebootType.no_reboot ∷ [];
  supports_rollback = supported;
  state_data_store_count = 3;
  has_db_schema_update = false;
}

abbrev pub waiting_for_commit : UpdateInfo
waiting_for_commit = record sample { has_db_schema_update = true }

abbrev pub install_data : StateData
install_data = record { version = 2; name = MenderState.update_install; update_info = sample }

-- A record as a client of version 1 of the schema has written it.
abbrev pub old_data : StateData
old_data = record { version = 1; name = MenderState.reboot; update_info = sample }

abbrev pub future_data : StateData
future_data = record { version = 3; name = MenderState.idle; update_info = sample }

abbrev pub empty_db : Db Stored
empty_db = record {
  name_entry = some (Stored.text "release-1");
  group_entry = none;
  provides_entry = none;
  token_entry = none;
  standalone_entry = none;
  state_entry = none;
  uncommitted_entry = none;
}

abbrev pub store_of : Option StateData → Store Stored
store_of none = record { db = empty_db; ops = 0 }
store_of (some sd) = record {
  db = record empty_db { state_entry = some (Stored.state sd) };
  ops = 0;
}

abbrev pub env_with : Faults → Env Stored
env_with faults = record {
  json = json;
  faults = faults;
  fails = λ h c. none;
  authorized = λ h. true;
  authorize_reply = λ h. none;
  check_update_reply = λ h. (none, none);
  fetch_reply = λ h. ok 0;
  headers_reply = λ h. ([], err (other "no headers"));
  supports_rollback_reply = λ h n. ok true;
  needs_reboot_reply = λ h n. ok RebootAction.no_reboot;
  host_reboot_reply = λ h. other "reboot";
  time = λ h. 0;
  wait_reply = λ h. WaitEnd.timer;
  update_poll_interval = 1800;
  inventory_poll_interval = 28800;
  retry_poll_interval = 300;
}

abbrev pub env : Env Stored
env = env_with no_faults

-- Nothing that is called succeeds.
abbrev pub failing_env : Env Stored
failing_env = record env { fails = λ h c. some (other "failed") }

abbrev pub world_at : State → World Stored
world_at s = record {
  current = s;
  store = store_of (some install_data);
  last_update_check_attempt = 0;
  last_inventory_update_attempt = 0;
  last_authorize_attempt = 0;
  fetch_install_attempts = 0;
  installers = "rootfs-image" ∷ "single-file" ∷ [];
  calls = [];
}
