-- ===== src/App/Standalone/Restore.antt =====
-- storeStandaloneData and restoreStandaloneData of app/standalone.go.
use mender.Prelude.{
  ℕ, ◌==◌, Option, none, some, [], ◌∷◌, Error, other, ok, err, Result, if◌then◌else◌, is_not_exist,
}
use mender.Datastore.Db.{Key, put_store, read_store}
use mender.App.Standalone.Device.{
  StandaloneStateData, StandaloneData, Call, DeviceEnv, S, pure, ask, ◌>>=◌, call,
}

-- StandaloneStateDataVersion
abbrev pub standalone_state_data_version : ℕ
standalone_state_data_version = 1

abbrev pub to_stored : StandaloneData → StandaloneStateData
to_stored sd = record {
  version = standalone_state_data_version;
  artifact_name = sd.artifact_name;
  artifact_group = sd.artifact_group;
  artifact_type_info_provides = sd.artifact_type_info_provides;
  payload_types = sd.installers;
}

abbrev pub from_stored : StandaloneStateData → StandaloneData
from_stored sd = record {
  artifact_name = sd.artifact_name;
  artifact_group = sd.artifact_group;
  artifact_type_info_provides = sd.artifact_type_info_provides;
  installers = sd.payload_types;
}

module _ {B : Type 0} (env : DeviceEnv B) where
  unfoldable pub store_standalone_data : StandaloneData → S B (Option Error)
  unfolding put_store
  store_standalone_data sd d =
      let (e, s) =
        put_store env.faults Key.standalone_state (some (env.marshal_standalone (to_stored sd)))
          d.store in
      (e, record d { store = s })

  -- "Instead use the bootloader detection that comes with the dual rootfs module." All errors are
  -- texts; that of no update is ErrorNothingToCommit.
  unfoldable pub handle_pre_database_restore : S B (Result StandaloneData)
  handle_pre_database_restore =
      if env.has_dual_rootfs
      then (do
        e ← call env Call.dual_rootfs_verify_reboot
        elim e [
          | some x ↦ pure (err (other "There is nothing to commit"))
          | none ↦ do
            name ← ask Call.get_manifest_data env.manifest_reply
            elim name [
              | err x ↦ pure (err x)
              | ok n ↦ do
                e' ← call env (Call.create_installers ("rootfs-image" ∷ []))
                elim e' [
                  | some x ↦ pure (err x)
                  | none ↦ pure (
                      ok (record {
                        artifact_name = n;
                        artifact_group = "";
                        artifact_type_info_provides = [];
                        installers = "rootfs-image" ∷ [];
                      }))
                ]
            ]
        ])
      else pure (err (other "There is nothing to commit"))

  -- What follows the decoding of the stored record.
  unfoldable pub restore_decoded : Option StandaloneStateData → S B (Result StandaloneData)
  restore_decoded none = pure (err (other "json"))
  restore_decoded (some sd) =
      if sd.version == standalone_state_data_version
      then (do
        e ← call env (Call.create_installers sd.payload_types)
        elim e [ some x ↦ pure (err x) | none ↦ pure (ok (from_stored sd)) ])
      else pure (err (other "Incompatible version stored in database."))

  unfoldable pub read_standalone : S B (Result B)
  read_standalone d =
      let (b, s) = read_store env.faults Key.standalone_state d.store in (b, record d { store = s })

  unfoldable pub restore_standalone_data : S B (Result StandaloneData)
  unfolding read_standalone read_store restore_decoded
  restore_standalone_data = do
    b ← read_standalone
    elim b [
      | ok b' ↦ restore_decoded (env.unmarshal_standalone b')
      | err e ↦ if is_not_exist e then handle_pre_database_restore else pure (err e)
    ]
