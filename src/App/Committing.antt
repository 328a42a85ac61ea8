-- ===== src/App/Committing.antt =====
-- The commit: the new artifact's names are written in the transaction that stores the state.
use mender.Prelude.{
  ℕ, ◌+◌, ◌∷◌, ◌≡◌, ◌≢◌, refl, Error, ◌⊎◌, inl, inr, Bool, true, false, Option, none, some, arith,
  ok,
}
use mender.Datastore.StateData.{MenderState, UpdateInfo, StateData}
use mender.Datastore.Db.{Db, Store, Run, Txn, Faults, write_transaction, spend}
use mender.Datastore.Persist.{
  store_state_data_and_transaction, existing_count, store_body, fill_version, report,
}
use mender.App.World.{Env, World, Next, Outcome, Call, Operation, panicked, done, result, world}
use mender.App.Recovery.{claims_commit}
use mender.App.Handle.Commit.{
  store_commit, write_artifact, record_commit, committed, handle_update_commit,
}
use mender.App.State.{State, Status}
use mender.App.Handle.Errors.{handle_error, handle_state_data_error, report_update_status}

abbrev commit_data : UpdateInfo → StateData
commit_data u = record { version = 0; name = MenderState.update_commit; update_info = u }

-- A transaction leaves the database as it was, or as its closure has made it.
write_transaction_atomic :
    {L B : Type 0} (P : Db B → Type 0) (faults : Faults) (l : L) (body : Txn L B (Unit {0}))
    (s : Store B)
    → ((r : Run L B) → (body r).0 ≡ ok tt → P (body r).1.store.db)
    → ((write_transaction faults l body s).1.store.db ≡ s.db)
        × ((write_transaction faults l body s).0 ≢ none)
      ⊎ P (write_transaction faults l body s).1.store.db
unfolding write_transaction
write_transaction_atomic P faults l body s h =
    ground (arith, h (record { vars = l; store = spend s }))

module _ {B : Type 0} (env : Env B) (u : UpdateInfo) where
  -- The database says that the artifact of the update is installed, and no longer holds a record
  -- of a schema that waits for the commit.
  pub record IsInstalled (d : Db B) : Type 0 where
    pub name : d.name_entry ≡ some (env.json.to_bytes u.artifact.artifact_name)
    pub group : d.group_entry ≡ some (env.json.to_bytes u.artifact.artifact_group)
    pub provides : d.provides_entry ≡ some (env.json.marshal_provides u.artifact.type_info_provides)
    pub no_uncommitted : d.uncommitted_entry ≡ none

  body_IsInstalled :
      (sd : StateData) (r : Run Bool B)
      → sd.update_info.has_db_schema_update ≡ false
      → (store_body env.json env.faults (write_artifact env u) sd r).0 ≡ ok tt
      → IsInstalled (store_body env.json env.faults (write_artifact env u) sd r).1.store.db
  unfolding store_body write_artifact existing_count
  body_IsInstalled sd r h e = ground arith

  report_not_none : (b : Bool) (e : Option Error) → e ≢ none → report env.json env.faults b e ≢ none
  report_not_none true e h = ground arith
  report_not_none false e h = h

  some_not_none : {A : Type 0} (x : Option A) → x ≢ none → some x ≢ some none
  some_not_none none h = absurd (h refl)
  some_not_none (some a) h = ground arith

  -- Whatever faults the database has, storing the commit of an update of the current schema leaves it as it was and reports an error,
  -- or all of the new artifact's entries are written and those of the old schema are gone.
  pub store_commit_atomic :
      (w : World B)
      → u.has_db_schema_update ≡ false
      → ((world (store_commit env u w)).store.db ≡ w.store.db)
          × (result (store_commit env u w) ≢ some none)
        ⊎ IsInstalled (world (store_commit env u w)).store.db
  unfolding store_commit store_state_data_and_transaction
  store_commit_atomic w h =
      elim (write_transaction_atomic IsInstalled env.faults false
        (store_body env.json env.faults (write_artifact env u) (fill_version (commit_data u)))
        w.store (λ r. body_IsInstalled (fill_version (commit_data u)) r h)) [
          | inl x ↦ inl (x.0, some_not_none _ (report_not_none _ _ x.1))
          | inr x ↦ inr x
        ]

module _ {B : Type 0} (env : Env B) where
  committed-IsInstalled :
      (u : UpdateInfo) (d : Db B) → IsInstalled env (committed env u) d → IsInstalled env u d
  committed-IsInstalled u d h = record {
    name = h.name;
    group = h.group;
    provides = h.provides;
    no_uncommitted = h.no_uncommitted;
  }

  store_committed :
      (u : UpdateInfo) (w : World B)
      → result (store_commit env (committed env u) w) ≡ some none
      → IsInstalled env u (world (store_commit env (committed env u) w)).store.db
  store_committed u w e = elim (store_commit_atomic env (committed env u) w refl) [
    | inl x ↦ absurd (x.1 e)
    | inr x ↦ committed-IsInstalled u _ x
  ]

  -- Where a handler goes on towards success, the new artifact is in the database.
  abbrev pub Commits : UpdateInfo → Outcome B Next → Type 0
  Commits u (done n w) = (claims_commit n.0 ≡ false) ⊎ IsInstalled env u w.store.db
  Commits u (panicked w) = ⊥

  Commits-record_commit :
      (u : UpdateInfo) (k : ℕ) (w : World B) → Commits u (record_commit env u k w)
  unfolding record_commit handle_state_data_error store_commit
  Commits-record_commit u k w =
      ground
        (arith, store_committed u (record w { current = State.update_commit (committed env u) k }))

  -- A commit returns, and if it goes on towards success, then the database says that the new
  -- artifact is installed.
  pub Commits-update_commit :
      (u : UpdateInfo) (k : ℕ) (w : World B) → Commits u (handle_update_commit env u k w)
  unfolding handle_update_commit handle_error report_update_status
  Commits-update_commit u k w = ground (
    arith,
    Commits-record_commit u (k + 1) (record w {
      current = State.update_commit u (k + 1);
      calls =
          Call.installer 0 Operation.commit_update
          ∷ (Call.report_status u.id Status.installing
              ∷ (Call.check_scripts ∷ (Call.enable_log u.id ∷ w.calls)));
    }),
  )
