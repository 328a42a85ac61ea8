-- ===== src/Examples/Storing.antt =====
-- Runs of the datastore, and of the backoff of the client.
use mender.Prelude.{
  ℕ, ◌≡◌, ◌≢◌, ◌⊎◌, ◌≤◌, refl, some, none, List, [], ◌∷◌, max_count_exceeded, zero, suc, arith,
}
use mender.Datastore.StateData.{StateData}
use mender.Datastore.Db.{put}
use mender.Datastore.Persist.{
  exceeded, report, store_state_data, load_state_data, state_key, store_count,
}
use mender.Datastore.Atomic.{stored, counted_under, store_state_data_atomic, load_state_data_atomic}
use mender.Datastore.Counting.{IsCounted, AreCurrent, store_all, loop_detected, store-IsCounted}
use mender.Examples.{Stored, json, second_fails, install_data, old_data, store_of}

abbrev copies : ℕ → List StateData
copies zero = []
copies (suc n) = install_data ∷ copies n

copies_current : (n : ℕ) → AreCurrent json (copies n)
copies_current zero = tt
copies_current (suc n) = (refl, copies_current n)

loop_detected_example : store_all json (copies 71) (store_of none) ≡ some max_count_exceeded
loop_detected_example =
    loop_detected json (copies 71) (store_of none) (copies_current 71) (omega arith)

store_state_data_atomic_example :
    ((store_state_data json second_fails install_data (store_of none)).1.db ≡ (store_of none).db)
      × ((store_state_data json second_fails install_data (store_of none)).0 ≢ none)
    ⊎ ((store_state_data json second_fails install_data (store_of none)).1.db
        ≡ stored json
            (counted_under json second_fails install_data (store_of none))
            (store_of none).db)
      × ((store_state_data json second_fails install_data (store_of none)).0
          ≡ report json second_fails
              (exceeded (counted_under json second_fails install_data (store_of none)))
              none)
store_state_data_atomic_example =
    store_state_data_atomic json second_fails install_data (store_of none)

load_state_data_atomic_example :
    let loaded = load_state_data json second_fails (store_of (some old_data)) in
    (loaded.2.db ≡ (store_of (some old_data)).db) × (loaded.1 ≢ none)
    ⊎ (loaded.2.db
        ≡ put
            (store_of (some old_data)).db
            (state_key loaded.0.update_info.has_db_schema_update)
            (some (Stored.state loaded.0)))
      × (loaded.0.version ≡ 2)
      × (1 ≤ store_count loaded.0)
      × (store_count loaded.0 ≤ 70)
load_state_data_atomic_example = load_state_data_atomic json second_fails (store_of (some old_data))

empty-IsCounted : IsCounted json (store_of none).db
empty-IsCounted = record {
  state_counted = λ b sd e u. cc e;
  uncommitted_counted = λ b sd e u. cc e;
}

store-IsCounted_example :
    IsCounted json (store_state_data json second_fails install_data (store_of none)).1.db
store-IsCounted_example =
    store-IsCounted json second_fails install_data (store_of none) empty-IsCounted
