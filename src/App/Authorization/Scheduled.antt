-- ===== src/App/Authorization/Scheduled.antt =====
-- CheckUpdate of app/mender.go over GetScheduledUpdate of client/client_update.go: what is made of the
-- answers of the server.
use mender.Prelude.{
  ℕ, ◌==◌, ◌≡◌, inl, inr, refl, sym, ap, ◌∙◌, arith, String, str_eq, Bool, Bool-cases, true, false,
  Option, Option-cases, none, some, List, Error, other, wrap, ok, err, Result, if◌then◌else◌,
}
use mathlib.Core.Path.{subst}
use mender.Datastore.StateData.{UpdateInfo}
use mender.App.Error.{MenderError, new_transient_error}
use mender.App.Authorization.{AuthEnv, Auth}
use mender.App.Authorization.Check.{Scheduled as Asked, Checked, with_scheduled, check_update}
use mender.Client.Update.{
  UpdateRequest, UpdateResponse, CurrentUpdate, UpdateEnv, make_update_check_request, no_devices,
  validate_get_update, validated, decoded, new_api_error, process_update_response, read_body,
  after_get, after_post, get_update_info, is_answer, is_error_code,
}

abbrev pub to_scheduled : Result (Option UpdateInfo) → Asked
to_scheduled (err e) = Asked.failed e
to_scheduled (ok none) = Asked.no_update
to_scheduled (ok (some u)) = Asked.scheduled u

-- The type of the device and its provides are answers of the device.
abbrev pub current_update : String → List (String × String) → String → CurrentUpdate
current_update device_type provides name = record {
  artifact = name;
  device_type = device_type;
  provides = provides;
}

-- GetScheduledUpdate as CheckUpdate calls it.
unfoldable pub get_scheduled_update :
    UpdateEnv Auth → String → List (String × String) → String → Auth → Asked × Auth
unfolding get_update_info
get_scheduled_update server device_type provides name m =
    let (r, m') = get_update_info server (current_update device_type provides name) m in
    (to_scheduled r, m')

-- An update that can be installed: none of its parameters is missing.
pub record IsComplete (u : UpdateInfo) : Type 0 where
  pub id : str_eq u.id "" ≡ false
  pub devices : no_devices u.artifact.compatible_devices ≡ false
  pub name : str_eq u.artifact.artifact_name "" ≡ false
  pub uri : str_eq u.artifact.uri "" ≡ false

-- A result that holds an update holds a complete one.
abbrev IsSound : Result (Option UpdateInfo) → Type 0
IsSound r = (u : UpdateInfo) → r ≡ ok (some u) → IsComplete u

validate-IsComplete : (u : UpdateInfo) → validate_get_update u ≡ none → IsComplete u
unfolding validate_get_update
validate-IsComplete u h = record {
  id = ground arith;
  devices = ground arith;
  name = ground arith;
  uri = ground arith;
}

ok_injective :
    (u u' : UpdateInfo) → ◌≡◌ {A = Result (Option UpdateInfo)} (ok (some u)) (ok (some u')) → u ≡ u'
ok_injective u u' h = ground arith

validated-IsSound :
    (u : UpdateInfo) (e : Option Error) → e ≡ validate_get_update u → IsSound (validated u e)
validated-IsSound u (some e) h v k = ground arith
validated-IsSound u none h v k =
    subst (λ (w : UpdateInfo). IsComplete w) (ok_injective u v k) (validate-IsComplete u (sym h))

decoded-IsSound : (d : Option UpdateInfo) → IsSound (decoded d)
unfolding validate_get_update
decoded-IsSound none v k = ground arith
decoded-IsSound (some u) v k = validated-IsSound u (validate_get_update u) refl v k

no_update_in :
    (a b : Bool) (u : UpdateInfo)
    → (if a
        then ok none
        else (if b
            then err Error.not_authorized
            else err (other "Invalid response received from server")))
      ≡ ok (some u)
    → ⊥
no_update_in a b u h = ground arith

err-IsSound : (e : Error) → IsSound (err e)
err-IsSound e u k = ground arith

api_error-IsSound : (r : Result (Option UpdateInfo)) → IsSound r → IsSound (new_api_error r)
api_error-IsSound (ok o) h = h
api_error-IsSound (err e) h = err-IsSound (wrap e)

module _ {S : Type 0} (server : UpdateEnv S) where
  process-IsSound : (code : ℕ) (body : String) → IsSound (process_update_response server code body)
  unfolding process_update_response validate_get_update
  process-IsSound code body = elim (Bool-cases (code == 200)) [
    | inl e ↦ rw e (decoded-IsSound (server.unmarshal body))
    | inr e ↦ rw e (λ u k. absurd (no_update_in (code == 204) (code == 401) u k))
  ]

  read_body-IsSound : (code : ℕ) (body : Result String) → IsSound (read_body server code body)
  unfolding process_update_response
  read_body-IsSound code (err e) = err-IsSound (wrap e)
  read_body-IsSound code (ok body) = λ u k.
      api_error-IsSound (process_update_response server code body) (process-IsSound code body) u k

  after_get-IsSound : (r : Result UpdateResponse) → IsSound (after_get server r)
  unfolding process_update_response
  after_get-IsSound (err e) = err-IsSound (wrap e)
  after_get-IsSound (ok r) = λ u k. read_body-IsSound r.status_code r.body u k

  after_post-IsSound :
      (req : UpdateRequest) (r : Result UpdateResponse) (s : S)
      → IsSound (after_post server req r s).0
  unfolding process_update_response
  after_post-IsSound req (err e) s = err-IsSound (wrap e)
  after_post-IsSound req (ok r) s = elim (Bool-cases (is_answer r.status_code)) [
    | inl a ↦ rw a (read_body-IsSound r.status_code r.body)
    | inr a ↦ rw a (elim (Bool-cases (is_error_code r.status_code)) [
      | inl e ↦ rw e (after_get-IsSound (server.api req s).0)
      | inr e ↦ rw e (err-IsSound (other "failed to post update info to the server"))
    ])
  ]

  get_update_info-IsSound : (c : CurrentUpdate) (s : S) → IsSound (get_update_info server c s).0
  unfolding get_update_info make_update_check_request
  get_update_info-IsSound c s = elim (Option-cases server.bad_url) [
    | inl n ↦
        let (post_req, get_req) = make_update_check_request c in
        let (r, s') = server.api post_req s in
        rw (get_update_info, n) (after_post-IsSound get_req r s')
    | inr (e, k) ↦ rw (get_update_info, k) (err-IsSound (wrap e))
  ]

-- An update that is returned is complete.
abbrev IsGood : Asked → Type 0
IsGood a = (u : UpdateInfo) → a ≡ Asked.scheduled u → IsComplete u

asked_injective : (u u' : UpdateInfo) → Asked.scheduled u ≡ Asked.scheduled u' → u ≡ u'
asked_injective u u' h = ground arith

to_scheduled-IsGood : (r : Result (Option UpdateInfo)) → IsSound r → IsGood (to_scheduled r)
to_scheduled-IsGood (err e) h u k = ground arith
to_scheduled-IsGood (ok none) h u k = ground arith
to_scheduled-IsGood (ok (some v)) h u k =
    subst (λ (w : UpdateInfo). IsComplete w) (asked_injective v u k) (h v refl)

some_injective : (u u' : UpdateInfo) → ◌≡◌ {A = Option UpdateInfo} (some u) (some u') → u ≡ u'
some_injective u u' h = ground arith

module _ (env : AuthEnv) (server : UpdateEnv Auth) (device_type : String)
    (provides : List (String × String)) where
  abbrev pub asks : String → Auth → Asked × Auth
  unfolding get_scheduled_update
  asks = get_scheduled_update server device_type provides

  abbrev chosen : Bool → UpdateInfo → Auth → Checked
  chosen b v m =
      if b then ((some v, some (new_transient_error Error.exist)), m) else ((some v, none), m)

  chosen-new :
      (b : Bool) (v u : UpdateInfo) (m : Auth)
      → (chosen b v m).0.0 ≡ some u
      → (v ≡ u) × ((chosen b v m).0.1 ≡ none → b ≡ false)
  chosen-new true v u m h = (some_injective v u h, λ k. (ground arith))
  chosen-new false v u m h = (some_injective v u h, λ k. refl)

  -- A checked update is complete, and if no error is reported its name is not the current one.
  with_scheduled-Good :
      (current : String) (a : Asked) (m : Auth) (u : UpdateInfo)
      → IsGood a
      → (with_scheduled env asks current a m).0.0 ≡ some u
      → IsComplete u
        × ((with_scheduled env asks current a m).0.1 ≡ none
            → str_eq u.artifact.artifact_name current ≡ false)
  with_scheduled-Good current (Asked.failed e) m u g h = ground arith
  with_scheduled-Good current Asked.no_update m u g h = ground arith
  with_scheduled-Good current Asked.unexpected m u g h = ground arith
  with_scheduled-Good current (Asked.scheduled v) m u g h =
      let (e, n) = chosen-new (str_eq v.artifact.artifact_name current) v u m h in
      (
        subst (λ (w : UpdateInfo). IsComplete w) e (g v refl),
        λ k. subst (λ (w : UpdateInfo). str_eq w.artifact.artifact_name current ≡ false) e (n k),
      )

  asks-IsGood : (current : String) (m : Auth) → IsGood (asks current m).0
  unfolding get_scheduled_update
  asks-IsGood current m =
      to_scheduled-IsGood (get_update_info server (current_update device_type provides current) m).0
        (get_update_info-IsSound server (current_update device_type provides current) m)

  abbrev unnamed : Auth → Checked
  unnamed m = ((none, some (new_transient_error (other "could not read the Artifact name"))), m)

  has_name :
      (b : Bool) (r : Checked) (m : Auth) (u : UpdateInfo)
      → (if b then unnamed m else r).0.0 ≡ some u
      → r.0 ≡ (if b then unnamed m else r).0
  has_name true r m u h = ground arith
  has_name false r m u h = refl

  -- Whatever the server answers: an update that CheckUpdate returns has an id, a device, a name and
  -- an URI; and if no error is reported, its name is not that of the current artifact.
  pub check_update-IsComplete :
      (current : String) (m : Auth) (u : UpdateInfo)
      → (check_update env asks (ok current) m).0.0 ≡ some u
      → IsComplete u
        × ((check_update env asks (ok current) m).0.1 ≡ none
            → str_eq u.artifact.artifact_name current ≡ false)
  unfolding check_update
  check_update-IsComplete current m u h =
      let r = with_scheduled env asks current (asks current m).0 (asks current m).1 in
      let same = has_name (str_eq current "") r m u h in
      subst
        (λ (c : Option UpdateInfo × Option MenderError).
          IsComplete u × (c.1 ≡ none → str_eq u.artifact.artifact_name current ≡ false))
        same
        (with_scheduled-Good current (asks current m).0 (asks current m).1 u (asks-IsGood current m)
          (ap (λ (c : Option UpdateInfo × Option MenderError). c.0) same ∙ h))
