-- ===== src/Datastore/Atomic.antt =====
-- What one call of StoreStateData leaves in the database, faults of the database included.
use mender.Prelude.{◌≡◌, ◌≢◌, ◌≤◌, none, some, ◌⊎◌, arith, if◌then◌else◌}
use mender.Datastore.StateData.{StateData}
use mender.Datastore.Db.{Key, Db, Store, Faults, get, put, found, spend, read_store}
use mender.Datastore.Persist.{
  Json, exceeded, bump_count, fill_version, state_key, existing_count, report, store_state_data,
  load_state_data, store_count,
}

abbrev pub no_faults : Faults
no_faults _ = none

module _ {B : Type 0} (json : Json B) where
  -- The database with the record written under its key; the uncommitted copy goes with a record
  -- of the current schema.
  abbrev pub stored : StateData → Db B → Db B
  stored sd d =
      put (if sd.update_info.has_db_schema_update then d else put d Key.state_data_uncommitted none)
        (state_key sd.update_info.has_db_schema_update) (some (json.marshal_state (bump_count sd)))

  -- The record with the count of the entry that the database has.
  abbrev pub counted : StateData → Db B → StateData
  counted sd d =
      existing_count json no_faults (fill_version sd)
        (found (get d (state_key sd.update_info.has_db_schema_update)))

  -- Without faults of the database the record is written, with the count of the entry before it
  -- and one more; the error is the exceeded maximum, or none.
  pub store_state_data_quiet :
      (sd : StateData) (s : Store B)
      → ((store_state_data json no_faults sd s).1.db ≡ stored (counted sd s.db) s.db)
        × ((store_state_data json no_faults sd s).0
            ≡ report json no_faults (exceeded (counted sd s.db)) none)
  unfolding store_state_data existing_count
  store_state_data_quiet sd s = ground arith

  -- The same where reading the entry may fail, which counts as no entry.
  abbrev pub counted_under : Faults → StateData → Store B → StateData
  counted_under faults sd s =
      existing_count json faults (fill_version sd)
        (read_store faults (state_key sd.update_info.has_db_schema_update) (spend s)).0

  -- Whatever faults there are, the database is as before and an error is returned, or it has the
  -- whole of the new record, and the only error is the exceeded maximum.
  pub store_state_data_atomic :
      (faults : Faults) (sd : StateData) (s : Store B)
      → ((store_state_data json faults sd s).1.db ≡ s.db)
          × ((store_state_data json faults sd s).0 ≢ none)
        ⊎ ((store_state_data json faults sd s).1.db ≡ stored (counted_under faults sd s) s.db)
          × ((store_state_data json faults sd s).0
              ≡ report json faults (exceeded (counted_under faults sd s)) none)
  unfolding store_state_data existing_count read_store
  store_state_data_atomic faults sd s = ground arith

  -- Whatever faults there are, loading leaves the database as it was and returns an error, or it
  -- has written back, of the current version, the very record that it returns, with a count from 1 to 70.
  pub load_state_data_atomic :
      (faults : Faults) (s : Store B)
      → let loaded = load_state_data json faults s in
        (loaded.2.db ≡ s.db) × (loaded.1 ≢ none)
        ⊎ (loaded.2.db
            ≡ put s.db
                (state_key loaded.0.update_info.has_db_schema_update)
                (some (json.marshal_state loaded.0)))
          × (loaded.0.version ≡ 2)
          × (1 ≤ store_count loaded.0)
          × (store_count loaded.0 ≤ 70)
  unfolding load_state_data
  load_state_data_atomic faults s = ground arith
