-- ===== src/App/Standalone/Ending.antt =====
-- How a standalone update ends: the database behind installing, committing and rolling back.
use Prim.Native.String.{◌++◌ as concat}
use text.Mathlib.TextLemmas.{append-ne-nil_of_right_ne-nil}
use mender.Prelude.{
  eq_iff, ℕ, ◌+◌, ◌≡◌, ◌≢◌, ◌⊎◌, inl, inr, refl, String, str_eq, true, false, Option, none, some,
  List, [], ◌∷◌, Error, arith, Bool-cases,
}
use mender.Datastore.Db.{Db}
use mender.App.World.{Operation}
use mender.App.Transition.{Action}
use mender.App.Standalone.Device.{StandaloneData, Call, DeviceEnv, Device, call}
use mender.App.Standalone.Finish.{do_standalone_failure_states, break_name, keep_name}
use mender.App.Standalone.Restore.{to_stored}
use mender.App.Standalone.Install.{until_failure, fail_with, fail_in}
use mender.App.Standalone.Outcome.{cleaned, db-failure_states}

module _ {B : Type 0} (env : DeviceEnv B) where
  -- The artifact is recorded as installed, and no update waits.
  pub record IsCommitted (sd : StandaloneData) (db : Db B) : Type 0 where
    pub name : db.name_entry ≡ some (env.json.to_bytes sd.artifact_name)
    pub group : db.group_entry ≡ some (env.json.to_bytes sd.artifact_group)
    pub provides :
        db.provides_entry ≡ some (env.json.marshal_provides sd.artifact_type_info_provides)
    pub no_update : db.standalone_entry ≡ none

  -- No update waits, and the installed artifact is the old one or flagged as inconsistent.
  pub record IsGivenUp (sd : StandaloneData) (before db : Db B) : Type 0 where
    pub no_update : db.standalone_entry ≡ none
    pub name :
        (db.name_entry ≡ before.name_entry)
        ⊎ (db.name_entry ≡ some (env.json.to_bytes (concat sd.artifact_name "_INCONSISTENT")))

  -- The name of the installed artifact is flagged as inconsistent.
  abbrev pub IsFlagged : StandaloneData → Db B → Type 0
  IsFlagged sd db =
      db.name_entry ≡ some (env.json.to_bytes (concat sd.artifact_name "_INCONSISTENT"))

  -- The enter scripts of the commit, and the commits of the payloads behind them, report no error.
  abbrev pub commit_enter : Device B → Option Error × Device B
  commit_enter d = call env (Call.execute_all "ArtifactCommit" Action.enter false) d

  abbrev pub PayloadsCommit : StandaloneData → Device B → Type 0
  PayloadsCommit sd d =
      ((commit_enter d).0 ≡ none)
      × ((until_failure env Operation.commit_update sd.installers 0 (commit_enter d).1).0 ≡ none)

  -- The update waits for its commit, and the installed artifact is the old one.
  pub record IsWaiting (sd : StandaloneData) (before db : Db B) : Type 0 where
    pub update : db.standalone_entry ≡ some (env.marshal_standalone (to_stored sd))
    pub name : db.name_entry ≡ before.name_entry

  pub until_failure-store :
      (op : Operation) (ts : List String) (n : ℕ) (d : Device B)
      → (until_failure env op ts n d).1.store ≡ d.store
  unfolding until_failure
  until_failure-store op [] n d = refl
  until_failure-store op (t ∷ ts) n d = ground (
    arith,
    until_failure-store op ts (n + 1) (record d { calls = Call.installer n op ∷ d.calls }),
  )

module _ {B : Type 0} (env : DeviceEnv B) (quiet : (n : ℕ) → env.faults n ≡ none) where
  suffix_ne : ◌≢◌ {A = String} "_INCONSISTENT" ""
  suffix_ne = ground (arith, eq_iff "_INCONSISTENT" "")

  broken_name : (name : String) → str_eq (concat name "_INCONSISTENT") "" ≡ false
  broken_name name = elim (Bool-cases (str_eq (concat name "_INCONSISTENT") "")) [
    | inl e ↦ absurd (
        append-ne-nil_of_right_ne-nil name suffix_ne
          ((eq_iff (concat name "_INCONSISTENT") "").0 e))
    | inr e ↦ e
  ]

  cleaned-broken :
      (sd : StandaloneData) (db : Db B) → IsGivenUp env sd db (cleaned env (break_name sd) db)
  cleaned-broken sd db = record {
    no_update = ground arith;
    name = inr (rw (broken_name sd.artifact_name));
  }

  cleaned-kept :
      (sd : StandaloneData) (db : Db B) → IsGivenUp env sd db (cleaned env (keep_name sd) db)
  cleaned-kept sd db = record { no_update = refl; name = inl refl }

  cleaned-IsGivenUp :
      (sd sd' : StandaloneData) (db : Db B)
      → (sd' ≡ break_name sd) ⊎ (sd' ≡ keep_name sd)
      → IsGivenUp env sd db (cleaned env sd' db)
  cleaned-IsGivenUp sd sd' db (inl e) = rw e (cleaned-broken sd db)
  cleaned-IsGivenUp sd sd' db (inr e) = rw e (cleaned-kept sd db)

  pub fail_with-IsGivenUp :
      (sd : StandaloneData) (x : Error) (d : Device B)
      → let r = fail_with env sd true true true x d in
        (r.0 ≢ none) × IsGivenUp env sd d.store.db r.1.store.db
  unfolding fail_with
  fail_with-IsGivenUp sd x d =
      let r = do_standalone_failure_states env sd true true true d in
      (
        ground arith,
        rw ((db-failure_states env quiet sd d).0)
            (cleaned-IsGivenUp sd r.0.0 d.store.db (db-failure_states env quiet sd d).1),
      )

  pub fail_in-IsGivenUp :
      (state : String) (sd : StandaloneData) (x : Error) (d : Device B)
      → let r = fail_in env state sd true true true x d in
        (r.0 ≢ none) × IsGivenUp env sd d.store.db r.1.store.db
  unfolding fail_in
  fail_in-IsGivenUp state sd x d = fail_with-IsGivenUp sd x _

  -- A commit with these errors of its steps ends: all have succeeded and the artifact is recorded, or
  -- there is an error and the update is given up, flagged if the payloads were committed.
  abbrev pub Ends : StandaloneData → Type 0 → Db B → Option Error × Device B → Type 0
  Ends sd committed before r =
      (committed × IsCommitted env sd r.1.store.db)
      ⊎ (((r.0 ≢ none) × IsGivenUp env sd before r.1.store.db)
          × (committed → IsFlagged env sd r.1.store.db))
