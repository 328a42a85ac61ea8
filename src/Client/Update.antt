-- ===== src/Client/Update.antt =====
-- Asking the server for an update and fetching it: client/client_update.go. The server, and what else a
-- request changes, is a parameter, and so is the decoding of an update.
use mender.Prelude.{
  ℕ, ◌==◌, leb, ltb, ◌&&◌, ◌||◌, String, str_eq, Bool, true, false, Option, none, some, List, [],
  ◌∷◌, Error, other, wrap, Result, ok, err, if◌then◌else◌,
}
use mender.Text.{ℤ}
use mender.Datastore.StateData.{UpdateInfo}

pub data Method : Type 0 where
  get post : Method

-- A request by its method, its query and, for a POST, the fields of its body.
pub record UpdateRequest : Type 0 where
  pub method : Method
  pub query : List (String × String)
  pub body : Option (List (String × String))

-- A response, with what reading its body comes to.
pub record UpdateResponse : Type 0 where
  pub status_code : ℕ
  pub content_length : ℤ
  pub body : Result String

pub record CurrentUpdate : Type 0 where
  pub artifact : String
  pub device_type : String
  pub provides : List (String × String)

-- MarshalJSON: the current name and device type take the place of what the provides say of them.
abbrev pub without : List (String × String) → List (String × String)
without [] = []
without ((key, value) ∷ m) =
    let rest = without m in
    if str_eq key "artifact_name" || str_eq key "device_type" then rest else (key, value) ∷ rest

abbrev pub marshal_current : CurrentUpdate → List (String × String)
marshal_current c =
    ("device_type", c.device_type) ∷ (("artifact_name", c.artifact) ∷ without c.provides)

abbrev pub add_value : String → String → List (String × String) → List (String × String)
add_value key value vals = if str_eq value "" then vals else (key, value) ∷ vals

-- The POST request, and the GET request to fall back to.
unfoldable pub make_update_check_request : CurrentUpdate → UpdateRequest × UpdateRequest
make_update_check_request c = (
  record { method = Method.post; query = []; body = some (marshal_current c) },
  record {
    method = Method.get;
    query = add_value "artifact_name" c.artifact (add_value "device_type" c.device_type []);
    body = none;
  },
)

abbrev pub no_devices : List String → Bool
no_devices [] = true
no_devices (d ∷ ds) = false

unfoldable pub validate_get_update : UpdateInfo → Option Error
validate_get_update u =
    if str_eq u.id ""
      || (no_devices u.artifact.compatible_devices
          || (str_eq u.artifact.artifact_name "" || str_eq u.artifact.uri ""))
    then some (other "Missing parameters in encoded JSON update response")
    else none

abbrev pub validated : UpdateInfo → Option Error → Result (Option UpdateInfo)
validated u (some e) = err e
validated u none = ok (some u)

abbrev pub decoded : Option UpdateInfo → Result (Option UpdateInfo)
unfolding validate_get_update
decoded none = err (wrap (other "failed to parse response"))
decoded (some u) = validated u (validate_get_update u)

-- NewAPIError
abbrev pub new_api_error {ℓ} : {A : Type ℓ} → Result A → Result A
new_api_error (err e) = err (wrap e)
new_api_error (ok a) = ok a

abbrev pub is_answer : ℕ → Bool
is_answer code = code == 200 || code == 204

abbrev pub is_error_code : ℕ → Bool
is_error_code code = leb 400 code && ltb code 600

-- How updates are decoded, and the error of an URL that cannot be parsed.
pub record UpdateEnv (S : Type 0) : Type 0 where
  pub unmarshal : String → Option UpdateInfo
  pub bad_url : Option Error
  pub api : UpdateRequest → S → Result UpdateResponse × S

module _ {S : Type 0} (env : UpdateEnv S) where
  unfoldable pub process_update_response : ℕ → String → Result (Option UpdateInfo)
  unfolding validate_get_update
  process_update_response code body =
      if code == 200
      then decoded (env.unmarshal body)
      else if code == 204
      then ok none
      else if code == 401
      then err Error.not_authorized
      else err (other "Invalid response received from server")

  abbrev pub read_body : ℕ → Result String → Result (Option UpdateInfo)
  unfolding process_update_response
  read_body code (err e) = err (wrap e)
  read_body code (ok body) = new_api_error (process_update_response code body)

  abbrev pub after_get : Result UpdateResponse → Result (Option UpdateInfo)
  unfolding process_update_response
  after_get (err e) = err (wrap e)
  after_get (ok r) = read_body r.status_code r.body

  abbrev pub after_post : UpdateRequest → Result UpdateResponse → S → Result (Option UpdateInfo) × S
  unfolding process_update_response
  after_post get_req (err e) s = (err (wrap e), s)
  after_post get_req (ok r) s =
      if is_answer r.status_code
      then (read_body r.status_code r.body, s)
      else if is_error_code r.status_code
      then (let (r', s') = env.api get_req s in (after_get r', s'))
      else (err (other "failed to post update info to the server"), s)

  unfoldable pub get_update_info : CurrentUpdate → S → Result (Option UpdateInfo) × S
  unfolding make_update_check_request process_update_response
  get_update_info current s = elim env.bad_url [
    | some e ↦ (err (wrap e), s)
    | none ↦
        let (post_req, get_req) = make_update_check_request current in
        let (r, s') = env.api post_req s in after_post get_req r s'
  ]

-- The smallest image, in bytes.
abbrev pub minimum_image_size : ℕ
minimum_image_size = 4096

abbrev pub sized : ℤ → Result ℕ
sized (ℤ.negsuc n) = err (other "Will not continue with unknown image size.")
sized (ℤ.pos n) =
    if ltb n minimum_image_size
    then err (other "Image size is smaller than expected. Aborting.")
    else ok n

abbrev pub fetched : Result UpdateResponse → Result ℕ
fetched (err e) = err (wrap e)
fetched (ok r) =
    if r.status_code == 200
    then sized r.content_length
    else err (wrap (other "error receiving scheduled update information"))

-- FetchUpdate, up to the download that is resumed from then on: the length of the image.
unfoldable pub fetch_update : {S : Type 0} → UpdateEnv S → UpdateRequest → S → Result ℕ × S
fetch_update env req s = elim env.bad_url [
  | some e ↦ (err (wrap e), s)
  | none ↦ let (r, s') = env.api req s in (fetched r, s')
]
