-- ===== src/Datastore/Reload.antt =====
-- What a restarted client loads, and the database of the old schema under an update of the client.
use mender.Prelude.{◌≡◌, ◌<◌, true, none, some, arith, [], ◌∷◌, ◌↔◌, ◌⊎◌, ◌+◌, ◌≢◌, not_exist}
use mender.Datastore.StateData.{StateData, supported, custom}
use mender.Datastore.Db.{Store, Faults}
use mender.Datastore.Persist.{Json, existing_count, store_state_data, load_state_data}

module _ {B : Type 0} (json : Json B) where
  -- Storing a record that waits for its commit does not touch the entry that the old client reads.
  state_entry-store_uncommitted :
      (faults : Faults) (sd : StateData) (s : Store B)
      → sd.update_info.has_db_schema_update ≡ true
      → (store_state_data json faults sd s).1.db.state_entry ≡ s.db.state_entry
  unfolding store_state_data existing_count
  state_entry-store_uncommitted faults sd s h = ground arith

  -- A client that finds a record of the old schema, version 0 or 1, leaves that record alone, and
  -- reports an error or works on a record with the facts that the old client implied: one payload, a rootfs image,
  -- which supports rollback and asked for a reboot.
  load_old_schema :
      (faults : Faults) (s : Store B) (b : B) (old : StateData)
      → s.db.state_entry ≡ some b
      → json.unmarshal_state b ≡ some old
      → old.version < 2
      → let loaded = load_state_data json faults s in
        (loaded.2.db.state_entry ≡ s.db.state_entry)
        × ((loaded.1 ≢ none)
            ⊎ (loaded.0.update_info.has_db_schema_update ≡ true)
              × (loaded.0.update_info.supports_rollback ≡ supported)
              × (loaded.0.update_info.reboot_requested ≡ custom ∷ [])
              × (loaded.0.update_info.artifact.payload_types ≡ "rootfs-image" ∷ []))
  unfolding load_state_data
  load_old_schema faults s b old e u v = ground arith

  -- A record of a later version is refused, and the database is left as it was.
  load_unsupported_version :
      (faults : Faults) (s : Store B) (b : B) (old : StateData)
      → s.db.state_entry ≡ some b
      → json.unmarshal_state b ≡ some old
      → 2 < old.version
      → let loaded = load_state_data json faults s in (loaded.2.db ≡ s.db) × (loaded.1 ≢ none)
  unfolding load_state_data
  load_unsupported_version faults s b old e u v = ground arith

  -- Nothing stored is told apart from all other failures: the error is then os.ErrNotExist.
  load_nothing :
      (faults : Faults) (s : Store B)
      → ((load_state_data json faults s).1 ≡ some not_exist)
        ↔ (s.db.state_entry ≡ none) × (faults s.ops ≡ none) × (faults (s.ops + 1) ≡ none)
  unfolding load_state_data
  load_nothing faults s = (ground arith, ground arith)
