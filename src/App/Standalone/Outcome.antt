-- ===== src/App/Standalone/Outcome.antt =====
-- What the standalone operations leave in the database.
use mender.Prelude.{
  Bool-cases, ℕ, ◌+◌, ◌≡◌, ◌≢◌, ◌⊎◌, inl, inr, refl, String, str_eq, true, false, none, some, List,
  [], ◌∷◌, arith, if◌then◌else◌,
}
use mender.Datastore.StateData.{SupportsRollback, unknown, supported, not_supported}
use mender.Datastore.Db.{Db, Key, put}
use mender.App.World.{Operation}
use mender.App.Transition.{Action}
use mender.App.Standalone.Device.{StandaloneData, Call, DeviceEnv, Device}
use mender.App.Standalone.Finish.{
  failed_name, for_all, write_cleanup, do_standalone_cleanup, break_name, keep_name, or_first,
  determine_rollback_support, do_standalone_failure_states, do_standalone_failure_states_rollback,
  do_standalone_failure_states_failure, do_standalone_rollback_state, rollback_support_loop,
}

module _ {B : Type 0} (env : DeviceEnv B) where
  -- The database with the record of the standalone update removed, and the entries of the installed
  -- artifact written, if it has a name.
  abbrev pub cleaned : StandaloneData → Db B → Db B
  cleaned sd d =
      if str_eq sd.artifact_name ""
      then put d Key.standalone_state none
      else put
          (put
            (put (put d Key.standalone_state none) Key.artifact_name
              (some (env.json.to_bytes sd.artifact_name)))
            Key.artifact_group (some (env.json.to_bytes sd.artifact_group)))
          Key.artifact_type_info_provides
          (some (env.json.marshal_provides sd.artifact_type_info_provides))

  -- Whatever faults the database has, a cleanup leaves it as it was and reports an error, or removes
  -- the record of the update together with writing all entries of the artifact, if it has a name.
  pub write_cleanup_atomic :
      (sd : StandaloneData) (d : Device B)
      → ((write_cleanup env sd d).1.store.db ≡ d.store.db) × ((write_cleanup env sd d).0 ≢ none)
        ⊎ ((write_cleanup env sd d).1.store.db ≡ cleaned sd d.store.db)
          × ((write_cleanup env sd d).0 ≡ none)
  unfolding write_cleanup
  write_cleanup_atomic sd d = ground arith

  store-for_all :
      (op : Operation) (ts : List String) (n : ℕ) (d : Device B)
      → (for_all env op ts n d).1.store ≡ d.store
  unfolding for_all
  store-for_all op [] n d = refl
  store-for_all op (t ∷ ts) n d =
      store-for_all op ts (n + 1) (record d { calls = Call.installer n op ∷ d.calls })

  store-rollback_state :
      (sd : StandaloneData) (d : Device B)
      → (do_standalone_rollback_state env sd d).1.store ≡ d.store
  unfolding do_standalone_rollback_state
  store-rollback_state sd d =
      store-for_all Operation.rollback sd.installers 0
        (record d { calls = Call.execute_all "ArtifactRollback" Action.enter false ∷ d.calls })

  store-failure_states_failure :
      (sd : StandaloneData) (d : Device B)
      → (do_standalone_failure_states_failure env sd d).1.store ≡ d.store
  unfolding do_standalone_failure_states_failure
  store-failure_states_failure sd d =
      store-for_all Operation.failure sd.installers 0
        (record d { calls = Call.execute_all "ArtifactFailure" Action.enter true ∷ d.calls })

  store-rollback_support_loop :
      (ts : List String) (n : ℕ) (r : SupportsRollback) (d : Device B)
      → (rollback_support_loop env ts n r d).1.store ≡ d.store
  unfolding rollback_support_loop
  store-rollback_support_loop [] n r d = refl
  store-rollback_support_loop (t ∷ ts) n r d =
      let w = record d { calls = Call.supports_rollback n ∷ d.calls } in
      ground (
        arith,
        store-rollback_support_loop ts (n + 1) supported w,
        store-rollback_support_loop ts (n + 1) not_supported w,
        store-rollback_support_loop ts (n + 1) r w,
      )

  store-rollback_support :
      (ts : List String) (d : Device B) → (determine_rollback_support env ts d).1.store ≡ d.store
  unfolding determine_rollback_support
  store-rollback_support ts d = store-rollback_support_loop ts 0 unknown d

  store-failure_states_rollback :
      (sd : StandaloneData) (d : Device B)
      → (do_standalone_failure_states_rollback env sd d).1.store ≡ d.store
  unfolding do_standalone_failure_states_rollback
  store-failure_states_rollback sd d =
      grind (arith, store-rollback_support sd.installers d, store-rollback_state sd)

module _ {B : Type 0} (env : DeviceEnv B) (quiet : (n : ℕ) → env.faults n ≡ none) where
  db-write_cleanup :
      (sd : StandaloneData) (d : Device B)
      → ((write_cleanup env sd d).1.store.db ≡ cleaned env sd d.store.db)
        × ((write_cleanup env sd d).0 ≡ none)
  unfolding write_cleanup
  db-write_cleanup sd d = elim (Bool-cases (str_eq sd.artifact_name "")) [
    | inl e ↦
        rw e
          (ground (arith, quiet d.store.ops, quiet (d.store.ops + 1), quiet (d.store.ops + 1 + 1)))
    | inr e ↦ rw e (
        ground (
          arith,
          quiet d.store.ops,
          quiet (d.store.ops + 1),
          quiet (d.store.ops + 1 + 1),
          quiet (d.store.ops + 1 + 1 + 1),
          quiet (d.store.ops + 1 + 1 + 1 + 1),
          quiet (d.store.ops + 1 + 1 + 1 + 1 + 1),
        ))
  ]

  pub db-cleanup :
      (sd : StandaloneData) (d : Device B)
      → (do_standalone_cleanup env sd d).1.store.db ≡ cleaned env sd d.store.db
  unfolding do_standalone_cleanup
  db-cleanup sd d = grind (
    arith,
    db-write_cleanup sd (for_all env Operation.cleanup sd.installers 0 d).1,
    store-for_all env Operation.cleanup sd.installers 0 d,
  )

  -- Failure states with a rollback: the data has a broken name or none.
  pub db-failure_states :
      (sd : StandaloneData) (d : Device B)
      → let r = do_standalone_failure_states env sd true true true d in
        (r.1.store.db ≡ cleaned env r.0.0 d.store.db)
        × ((r.0.0 ≡ break_name sd) ⊎ (r.0.0 ≡ keep_name sd))
  unfolding do_standalone_failure_states
  db-failure_states sd d =
      let (r, d') = do_standalone_failure_states_rollback env sd d in
      let (e, d'') = do_standalone_failure_states_failure env sd d' in
      ground (
        arith,
        store-failure_states_rollback env sd d,
        store-failure_states_failure env sd d',
        db-cleanup (failed_name env true true r.0 (or_first r.1 e) sd) d'',
      )
