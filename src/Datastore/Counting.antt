-- ===== src/Datastore/Counting.antt =====
-- The store count: its bounds, and that a loop of stores is detected.
use mender.Prelude.{
  ℕ, ◌+◌, ◌≡◌, ◌≤◌, ◌<◌, ◌⊎◌, refl, false, Option, none, some, List, [], ◌∷◌, Error,
  max_count_exceeded, arith, length,
}
use mender.Datastore.StateData.{StateData}
use mender.Datastore.Db.{Db, Store, Faults}
use mender.Datastore.Persist.{
  Json, bump_count, store_count, existing_count, store_state_data, load_state_data,
}
use mender.Datastore.Atomic.{
  no_faults, store_state_data_quiet, store_state_data_atomic, counted, counted_under,
  load_state_data_atomic,
}

pub bump_count_bounds :
    (sd : StateData) → (1 ≤ store_count (bump_count sd)) × (store_count (bump_count sd) ≤ 70)
bump_count_bounds sd = ground arith

module _ {B : Type 0} (json : Json B) where
  -- Every record that can be decoded has a count from 1 to the maximum.
  pub record IsCounted (d : Db B) : Type 0 where
    pub state_counted :
        (b : B) (sd : StateData)
        → d.state_entry ≡ some b
        → json.unmarshal_state b ≡ some sd
        → (1 ≤ store_count sd) × (store_count sd ≤ 70)
    pub uncommitted_counted :
        (b : B) (sd : StateData)
        → d.uncommitted_entry ≡ some b
        → json.unmarshal_state b ≡ some sd
        → (1 ≤ store_count sd) × (store_count sd ≤ 70)

  marshal_counted :
      (sd x : StateData) (b : B)
      → some (json.marshal_state (bump_count sd)) ≡ some b
      → json.unmarshal_state b ≡ some x
      → (1 ≤ store_count x) × (store_count x ≤ 70)
  marshal_counted sd x b e u =
      ground (arith, json.unmarshal-marshal (bump_count sd), bump_count_bounds sd)

  -- If every record of the database that can be decoded has a count from 1 to 70, then so it is after
  -- storing any record, whatever faults there are.
  pub store-IsCounted :
      (faults : Faults) (sd : StateData) (s : Store B)
      → IsCounted s.db
      → IsCounted (store_state_data json faults sd s).1.db
  store-IsCounted faults sd s c = record {
    state_counted = λ b x e u. ground (
      arith,
      store_state_data_atomic json faults sd s,
      marshal_counted (counted_under json faults sd s) x b,
      c.state_counted b x,
    );
    uncommitted_counted = λ b x e u. ground (
      arith,
      store_state_data_atomic json faults sd s,
      marshal_counted (counted_under json faults sd s) x b,
      c.uncommitted_counted b x,
    );
  }

  -- If every record of the database that can be decoded has a count from 1 to 70, then so it is after
  -- loading, whatever faults there are.
  load-IsCounted :
      (faults : Faults) (s : Store B)
      → IsCounted s.db
      → IsCounted (load_state_data json faults s).2.db
  load-IsCounted faults s c = record {
    state_counted = λ b x e u. ground (
      arith,
      load_state_data_atomic json faults s,
      json.unmarshal-marshal (load_state_data json faults s).0,
      c.state_counted b x,
    );
    uncommitted_counted = λ b x e u. ground (
      arith,
      load_state_data_atomic json faults s,
      json.unmarshal-marshal (load_state_data json faults s).0,
      c.uncommitted_counted b x,
    );
  }

  -- Storing one record after another, up to the first error.
  abbrev pub store_all : List StateData → Store B → Option Error
  store_all [] s = none
  store_all (sd ∷ sds) s =
      let (e, s') = store_state_data json no_faults sd s in
      let rest = store_all sds s' in elim e [ none ↦ rest | some x ↦ some x ]

  abbrev pub AreCurrent : List StateData → Type 0
  AreCurrent [] = Unit
  AreCurrent (sd ∷ sds) = (sd.update_info.has_db_schema_update ≡ false) × AreCurrent sds

  -- The count that the next store of a current record starts from.
  abbrev start_count : StateData → Store B → ℕ
  start_count sd s = store_count (counted json sd s.db)

  start_count-store :
      (sd next : StateData) (s : Store B)
      → sd.update_info.has_db_schema_update ≡ false
      → next.update_info.has_db_schema_update ≡ false
      → (store_state_data json no_faults sd s).0 ≡ none
      → (start_count sd s < 70)
        × (start_count next (store_state_data json no_faults sd s).1 ≡ start_count sd s + 1)
  unfolding store_state_data existing_count
  start_count-store sd next s c n e =
      ground (arith, json.unmarshal-marshal (bump_count (counted json sd s.db)))

  store_error :
      (sd : StateData) (s : Store B)
      → ((store_state_data json no_faults sd s).0 ≡ none)
        ⊎ ((store_state_data json no_faults sd s).0 ≡ some max_count_exceeded)
  store_error sd s = ground (arith, store_state_data_quiet json sd s)

  loop_detected_from :
      (k : ℕ) (sd : StateData) (sds : List StateData) (s : Store B)
      → AreCurrent (sd ∷ sds)
      → start_count sd s ≡ k
      → 70 < k + length (sd ∷ sds)
      → store_all (sd ∷ sds) s ≡ some max_count_exceeded
  loop_detected_from k sd [] s c e h =
      ground (arith, store_error sd s, start_count-store sd sd s c.0 c.0)
  loop_detected_from k sd (next ∷ sds) s c e h = ground (
    arith,
    store_error sd s,
    start_count-store sd next s c.0 c.1.0,
    loop_detected_from (k + 1) next sds (store_state_data json no_faults sd s).1 c.1,
  )

  -- Without faults, more than 70 stores of records of the current schema one after another, whatever the database holds at
  -- first: one of them reports the exceeded maximum, and it is the first error.
  pub loop_detected :
      (sds : List StateData) (s : Store B)
      → AreCurrent sds
      → 70 < length sds
      → store_all sds s ≡ some max_count_exceeded
  loop_detected [] s c h = absurd (omega arith)
  loop_detected (sd ∷ sds) s c h =
      loop_detected_from (start_count sd s) sd sds s c refl (omega arith)
