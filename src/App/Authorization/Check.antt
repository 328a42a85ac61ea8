-- ===== src/App/Authorization/Check.antt =====
-- CheckUpdate of app/mender.go. Asking the server, GetScheduledUpdate, is a parameter that may change
-- what concerns authorization; the name of the current artifact is an answer of the device.
use mender.Prelude.{
  ℕ, ◌+◌, ◌≡◌, refl, arith, String, str_eq, Bool, true, false, Option, none, some, Error, other,
  cause, ok, err, Result, if◌then◌else◌,
}
use mender.Datastore.StateData.{UpdateInfo}
use mender.App.Error.{MenderError, new_transient_error}
use mender.App.Authorization.{AuthEnv, Auth, is_authorized, remove_auth_token}

-- What GetScheduledUpdate returns; an interface{} that holds no update is unexpected.
pub data Scheduled : Type 0 where
  failed : Error → Scheduled
  no_update unexpected : Scheduled
  scheduled : UpdateInfo → Scheduled

-- The update and the error.
abbrev pub Checked : Type 0
Checked = (Option UpdateInfo × Option MenderError) × Auth

abbrev pub is_not_authorized : Error → Bool
is_not_authorized Error.not_authorized = true
is_not_authorized _ = false

module _ (env : AuthEnv) (get_scheduled_update : String → Auth → Scheduled × Auth) where
  -- The token of a device that is not authorized is removed; an error of that is logged.
  abbrev pub drop_token : Bool → Auth → Auth
  drop_token true m = (remove_auth_token env m).1
  drop_token false m = m

  abbrev pub with_scheduled : String → Scheduled → Auth → Checked
  with_scheduled current (Scheduled.failed e) m =
      ((none, some (new_transient_error e)), drop_token (is_not_authorized (cause e)) m)
  with_scheduled current Scheduled.no_update m = ((none, none), m)
  with_scheduled current Scheduled.unexpected m =
      ((none, some (new_transient_error (other "not an update response?"))), m)
  with_scheduled current (Scheduled.scheduled u) m =
      if str_eq u.artifact.artifact_name current
      then ((some u, some (new_transient_error Error.exist)), m)
      else ((some u, none), m)

  -- What follows the name of the current artifact.
  unfoldable pub check_update : Result String → Auth → Checked
  unfolding remove_auth_token
  check_update (err e) m =
      ((none, some (new_transient_error (other "could not read the Artifact name"))), m)
  check_update (ok current) m =
      if str_eq current ""
      then ((none, some (new_transient_error (other "could not read the Artifact name"))), m)
      else let (s, m') = get_scheduled_update current m in with_scheduled current s m'

  module _ (quiet : (n : ℕ) → env.faults n ≡ none) where
    remove-unauthorized : (m : Auth) → (is_authorized env (remove_auth_token env m).1).0 ≡ false
    unfolding remove_auth_token
    remove-unauthorized m =
        ground (arith, quiet m.store.ops, quiet (m.store.ops + 1), quiet (m.store.ops + 1 + 1))

    with_scheduled-unauthorized :
        (current : String) (e : Error) (s : Scheduled) (m : Auth)
        → s ≡ Scheduled.failed e
        → is_not_authorized (cause e) ≡ true
        → let r = with_scheduled current s m in
          (r.0 ≡ (none, some (new_transient_error e))) × ((is_authorized env r.1).0 ≡ false)
    with_scheduled-unauthorized current e s m h k = rw (h, k) (refl, remove-unauthorized m)

    -- If the database works and the server refuses a check for an update because the device is not
    -- authorized, then the check returns no update and this error, and leaves no token, so that the
    -- device counts as unauthorized.
    pub refused_check :
        (current : String) (e : Error) (m : Auth)
        → str_eq current "" ≡ false
        → (get_scheduled_update current m).0 ≡ Scheduled.failed e
        → is_not_authorized (cause e) ≡ true
        → let r = check_update (ok current) m in
          (r.0 ≡ (none, some (new_transient_error e))) × ((is_authorized env r.1).0 ≡ false)
    unfolding check_update
    refused_check current e m n h k =
        rw (check_update, n)
          (with_scheduled-unauthorized current e (get_scheduled_update current m).0
            (get_scheduled_update current m).1 h k)
