-- ===== src/App/Handle/Idle.antt =====
-- The handlers of app/state.go outside an update: idle, authorization, waiting, inventory, errors.
use mender.Prelude.{
  ℕ, ◌+◌, ◌-◌, ltb, ◌==◌, Bool, true, false, Option, none, some, Error, cause, if◌then◌else◌,
}
use mender.Datastore.StateData.{UpdateInfo}
use mender.App.Error.{MenderError, new_transient_error}
use mender.App.State.{Status, State, new_status_report}
use mender.App.World.{
  Call, Env, World, M, Next, panic, gets, ask, ◌>>=◌, ◌>>◌, modify, go, call, call_,
  remove_state_data,
}
use mender.App.Handle.Errors.{wait}

abbrev is_exist : Error → Bool
is_exist Error.exist = true
is_exist _ = false

abbrev is_no_artifact_name : Error → Bool
is_no_artifact_name Error.no_artifact_name = true
is_no_artifact_name _ = false

-- `if attempt.After(now) { wait = attempt.Sub(now) }`
abbrev pub time_until : ℕ → ℕ → ℕ
time_until when now = if ltb now when then when - now else 0

module _ {B : Type 0} (env : Env B) where
  unfoldable pub handle_idle : M B Next
  handle_idle = do
    call_ env Call.disable_log
    _ ← remove_state_data env
    authorized ← ask Call.is_authorized env.authorized
    go (if authorized then State.check_wait else State.authorize_wait)

  unfoldable pub handle_authorize_wait : M B Next
  unfolding wait
  handle_authorize_wait = do
    last ← gets (λ w. w.last_authorize_attempt)
    now ← ask Call.now env.time
    let attempt = last + env.retry_poll_interval
    let delay = time_until attempt now
    if delay == 0
        then (do modify (λ w. record w { last_authorize_attempt = now }); go State.authorize)
        else do
          modify (λ w. record w { last_authorize_attempt = attempt })
          wait env State.authorize State.authorize_wait delay

  after_authorize : Option MenderError → M B Next
  after_authorize none = go State.check_wait
  after_authorize (some e) = if e.is_fatal then go (State.error e) else go State.authorize_wait

  unfoldable pub handle_authorize : M B Next
  unfolding after_authorize
  handle_authorize = do
    call_ env Call.disable_log
    e ← ask Call.authorize env.authorize_reply
    after_authorize e

  -- The next check, an inventory update or an update check, and when it is due.
  unfoldable pub next_check : World B → Bool × ℕ
  next_check w =
      let update = w.last_update_check_attempt + env.update_poll_interval in
      let inventory =
        if w.last_inventory_update_attempt == 0
        then 0
        else w.last_inventory_update_attempt + env.inventory_poll_interval in
      if ltb inventory update then (true, inventory) else (false, update)

  -- "Set the last update/inventory check time to now", or to when it will be.
  abbrev pub set_last : Bool → ℕ → World B → World B
  set_last true t w = record w { last_inventory_update_attempt = t }
  set_last false t w = record w { last_update_check_attempt = t }

  unfoldable pub handle_check_wait : M B Next
  unfolding next_check wait
  handle_check_wait = do
    (inventory, when) ← gets next_check
    now ← ask Call.now env.time
    let delay = time_until when now
    let next = if inventory then State.inventory_update else State.update_check
    modify (set_last inventory (if delay == 0 then now else when))
    if delay == 0 then go next else wait env next State.check_wait delay

  unfoldable pub handle_inventory_update : M B Next
  handle_inventory_update = do
    e ← call env Call.inventory_refresh
    elim e [
      | none ↦ go State.check_wait
      | some x ↦
          if is_no_artifact_name (cause x)
          then go (State.error (new_transient_error x))
          else go State.check_wait
    ]

  -- The update that is already installed is dereferenced.
  already_installed : Option UpdateInfo → M B Next
  already_installed none = panic
  already_installed (some u) = go (new_status_report u Status.already_installed)

  checked : Option UpdateInfo → M B Next
  checked none = go State.check_wait
  checked (some u) = go (State.update_fetch u)

  unfoldable pub handle_update_check : M B Next
  unfolding already_installed checked
  handle_update_check = do
    (update, e) ← ask Call.check_update env.check_update_reply
    elim e [
      | none ↦ checked update
      | some x ↦ if is_exist x.cause then already_installed update else go (State.error x)
    ]

  unfoldable pub handle_error_state : MenderError → M B Next
  handle_error_state e = do
    call_ env Call.disable_log
    go (if e.is_fatal then State.final else State.idle)

  -- panic("reached final state")
  unfoldable pub handle_final : M B Next
  handle_final = panic
