-- ===== src/Datastore/Persist.antt =====
-- datastore/datastore.go: storing and loading the state data, with the count that breaks loops.
use mender.Prelude.{
  ℕ, ◌+◌, ◌≡◌, leb, str_eq, String, Bool, true, false, Option, none, some, [], ◌∷◌, Error,
  max_count_exceeded, other, wrap, zero, suc, Result, ok, err, if◌then◌else◌, is_not_exist,
}
use mender.Datastore.StateData.{
  MenderState, Provides, StateData, state_data_version, supported, unknown, custom,
}
use mender.Datastore.Db.{
  Key, Store, Faults, Txn, pure, throw, try, lift, ◌>>=◌, ◌>>◌, set_vars, read_all, write_all,
  remove, write_transaction, read_store,
}

-- encoding/json on the values that the client stores, and the conversions between strings and
-- bytes. `unmarshal_provides` adds to the entries of the map that it is given.
pub record Json (B : Type 0) : Type 0 where
  pub marshal_state : StateData → B
  pub unmarshal_state : B → Option StateData
  pub marshal_provides : Provides → B
  pub unmarshal_provides : B → Provides → Option Provides
  pub to_bytes : String → B
  pub to_string : B → String
  pub unmarshal-marshal : (sd : StateData) → unmarshal_state (marshal_state sd) ≡ some sd

abbrev pub maximum_state_data_store_count : ℕ
maximum_state_data_store_count = 30 + 40

abbrev pub with_count : StateData → ℕ → StateData
with_count sd n = record sd { update_info = record sd.update_info { state_data_store_count = n } }

abbrev pub store_count : StateData → ℕ
store_count sd = sd.update_info.state_data_store_count

-- The two tests that store and load share: `exceeded`, and the count that is written.
abbrev pub exceeded : StateData → Bool
exceeded sd = leb maximum_state_data_store_count (store_count sd)

abbrev pub bump_count : StateData → StateData
bump_count sd = with_count sd (if exceeded sd then 0 + 1 else store_count sd + 1)

-- "If the version is not filled in, use the current one."
abbrev pub fill_version : StateData → StateData
fill_version sd = if leb 1 sd.version then sd else record sd { version = state_data_version }

abbrev pub state_key : Bool → Key
state_key true = Key.state_data_uncommitted
state_key false = Key.state_data

-- provides[key] = value, on entries sorted by key or not: an old value is replaced in its place.
pub put_provide : String → String → Provides → Provides
put_provide k v [] = (k, v) ∷ []
put_provide k v ((j, w) ∷ m) = if str_eq j k then (k, v) ∷ m else (j, w) ∷ put_provide k v m

abbrev pub zero_state_data : StateData
zero_state_data = record {
  version = 0;
  name = MenderState.init;
  update_info = record {
    artifact = record {
      uri = "";
      expire = "";
      compatible_devices = [];
      payload_types = [];
      artifact_name = "";
      artifact_group = "";
      type_info_provides = [];
    };
    id = "";
    reboot_requested = [];
    supports_rollback = unknown;
    state_data_store_count = 0;
    has_db_schema_update = false;
  };
}

-- The variables of LoadStateData's closure.
pub record LoadVars : Type 0 where
  pub sd : StateData
  pub count_exceeded : Bool

module _ {B : Type 0} (json : Json B) (faults : Faults) where
  -- The count of the entry that is already there, if it can be read.
  unfoldable pub existing_count : StateData → Result B → StateData
  existing_count sd (err e) = sd
  existing_count sd (ok b) = elim (json.unmarshal_state b) [
    | none ↦ sd
    | some existing ↦ with_count sd (store_count existing)
  ]

  -- The closure of StoreStateDataAndTransaction; its variable is `storeCountExceeded`.
  unfoldable pub store_body : Txn Bool B (Unit {0}) → StateData → Txn Bool B (Unit {0})
  unfolding existing_count read_all write_all remove try set_vars pure
  store_body txn_func sd = do
    txn_func
    let schema = sd.update_info.has_db_schema_update
    existing ← try (read_all faults (state_key schema))
    let counted = existing_count sd existing
    set_vars (exceeded counted)
    if schema then pure tt else remove faults Key.state_data_uncommitted
    write_all faults (state_key schema) (json.marshal_state (bump_count counted))

  -- `if storeCountExceeded { return MaximumStateDataStoreCountExceeded }; return err`
  abbrev pub report : Bool → Option Error → Option Error
  report true e = some max_count_exceeded
  report false e = e

  unfoldable pub store_state_data_and_transaction :
      Txn Bool B (Unit {0}) → StateData → Store B → Option Error × Store B
  unfolding store_body write_transaction
  store_state_data_and_transaction txn_func sd s =
      let (e, r) = write_transaction faults false (store_body txn_func (fill_version sd)) s in
      (report r.vars e, r.store)

  unfoldable pub store_state_data : StateData → Store B → Option Error × Store B
  unfolding store_state_data_and_transaction pure
  store_state_data sd s = store_state_data_and_transaction (pure tt) sd s

  -- loadStateData
  unfoldable pub load_key : {L : Type 0} → Key → Txn L B StateData
  unfolding read_all lift throw
  load_key k = do
    b ← read_all faults k
    elim (json.unmarshal_state b) [ none ↦ throw (other "json") | some sd ↦ lift (ok sd) ]

  -- The upgrade of a database of version 0 or 1, behind the choice of the record.
  abbrev pub upgrade : StateData → StateData
  upgrade sd = record sd {
    update_info = record sd.update_info {
      artifact = record sd.update_info.artifact { payload_types = "rootfs-image" ∷ [] };
      reboot_requested = custom ∷ [];
      supports_rollback = supported;
      has_db_schema_update = true;
    };
  }

  -- The record that a new client may already have written, if it is of the same update.
  abbrev pub prefer_uncommitted : StateData → StateData → StateData
  prefer_uncommitted sd uncommitted =
      if str_eq sd.update_info.id uncommitted.update_info.id then uncommitted else sd

  unfoldable pub choose_uncommitted : StateData → Result StateData → Txn LoadVars B StateData
  unfolding pure throw
  choose_uncommitted sd (ok uncommitted) = pure (prefer_uncommitted sd uncommitted)
  choose_uncommitted sd (err e) = if is_not_exist e then pure sd else throw e

  unfoldable pub set_sd : StateData → Txn LoadVars B (Unit {0})
  set_sd sd r = (ok tt, record r { vars = record r.vars { sd = sd } })

  -- `switch sd.Version`
  unfoldable pub by_version : ℕ → StateData → Txn LoadVars B StateData
  unfolding choose_uncommitted set_sd try load_key throw pure
  by_version (suc (suc zero)) sd =
      pure (record sd { update_info = record sd.update_info { has_db_schema_update = false } })
  by_version (suc (suc (suc n))) sd = throw (other "unsupported state data version")
  by_version _ sd = do
    uncommitted ← try (load_key Key.state_data_uncommitted)
    chosen ← choose_uncommitted sd uncommitted
    pure (upgrade chosen)

  unfoldable pub load_body : Txn LoadVars B (Unit {0})
  unfolding load_key set_sd by_version set_vars write_all
  load_body = do
    sd ← load_key Key.state_data
    set_sd sd
    versioned ← by_version sd.version sd
    let current = record versioned { version = state_data_version }
    set_vars (record { sd = bump_count current; count_exceeded = exceeded current })
    write_all faults (state_key current.update_info.has_db_schema_update)
        (json.marshal_state (bump_count current))

  -- LoadStateData returns the state data beside the error.
  unfoldable pub load_state_data : Store B → StateData × Option Error × Store B
  unfolding load_body write_transaction
  load_state_data s =
      let (e, r) =
        write_transaction faults (record { sd = zero_state_data; count_exceeded = false }) load_body
          s in
      (r.vars.sd, report r.vars.count_exceeded e, r.store)

  -- One entry of LoadProvides: a missing key leaves the map as it is.
  abbrev pub add_entry : (B → Provides → Result Provides) → Result B → Provides → Result Provides
  add_entry f (ok b) provides = f b provides
  add_entry f (err e) provides = if is_not_exist e then ok provides else err (wrap e)

  abbrev pub add_text : String → B → Provides → Result Provides
  add_text k b provides = ok (put_provide k (json.to_string b) provides)

  abbrev pub add_json : B → Provides → Result Provides
  add_json b provides = elim (json.unmarshal_provides b provides) [
    | none ↦ err (other "json")
    | some p ↦ ok p
  ]

  load_type_info : Result Provides → Store B → Result Provides × Store B
  unfolding read_store
  load_type_info (err e) s = (err e, s)
  load_type_info (ok provides) s =
      let (b, s') = read_store faults Key.artifact_type_info_provides s in
      (add_entry add_json b provides, s')

  load_group : Result Provides → Store B → Result Provides × Store B
  unfolding read_store load_type_info
  load_group (err e) s = (err e, s)
  load_group (ok provides) s =
      let (b, s') = read_store faults Key.artifact_group s in
      load_type_info (add_entry (add_text "artifact_group") b provides) s'

  unfoldable pub load_provides : Store B → Result Provides × Store B
  unfolding load_group read_store
  load_provides s =
      let (b, s') = read_store faults Key.artifact_name s in
      load_group (add_entry (add_text "artifact_name") b []) s'
