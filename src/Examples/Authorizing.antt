-- ===== src/Examples/Authorizing.antt =====
-- A request whose token has expired: the first server refuses it, the second accepts the new token.
use mender.Prelude.{
  ℕ, ◌≡◌, refl, String, str_eq, true, false, Option, none, some, List, [], ◌∷◌, Error, ok, err,
  other, Result,
}
use mender.Datastore.Atomic.{no_faults}
use mender.App.Authorization.{Call, AuthReply, KeyResult, AuthEnv, Auth}
use mender.App.Authorization.Request.{ApiRequest, do_request, authorize, with_header}
use mender.App.Authorization.Authorized.{HasToken, authorize-HasToken}
use mender.Text.{ℤ}
use mender.Client.Update.{Method, UpdateResponse, UpdateEnv, make_update_check_request}
use mender.App.Authorization.Check.{check_update}
use mender.App.Authorization.Scheduled.{
  asks, get_scheduled_update, IsComplete, check_update-IsComplete,
}
use mender.Examples.{sample}
use mender.App.Authorization.Failover.{Outcome, visited, request_fails_over}

abbrev respond : List Call → Result ℕ
respond [] = err (other "no route to host")
respond (Call.auth_request url ∷ h) = ok 200
respond _ = ok 401

abbrev auth_env : AuthEnv
auth_env = record {
  faults = no_faults;
  has_key_reply = λ h. true;
  generate_reply = λ h. KeyResult.generated;
  auth_reply = λ h url. AuthReply.token "fresh";
  respond = λ h url token. respond h;
}

abbrev auth : Auth
auth = record {
  store = record {
    db = record {
      name_entry = none;
      group_entry = none;
      provides_entry = none;
      token_entry = some "expired";
      standalone_entry = none;
      state_entry = none;
      uncommitted_entry = none;
    };
    ops = 0;
  };
  auth_token = "expired";
  force_bootstrap = false;
  calls = [];
}

abbrev main_server : String
main_server = "https://mender.example"

abbrev fallback : String
fallback = "https://fallback.example"

abbrev request : ApiRequest
request = record { auth = "expired"; header = ""; left = main_server ∷ fallback ∷ [] }

request_fails_over_example :
    (q : Result ℕ × (ApiRequest × Auth)) × ((do_request auth_env
          (main_server ∷ fallback ∷ [])
          request
          auth
        ≡ some q)
      × (Outcome auth_env (main_server ∷ fallback ∷ []) [] (with_header auth_env request) auth q
          × (q.1.0.left ≡ main_server ∷ fallback ∷ [])))
request_fails_over_example =
    request_fails_over auth_env main_server (fallback ∷ []) request auth refl

abbrev asked : Option (Result ℕ × (ApiRequest × Auth)) → List String
asked none = []
asked (some q) = visited q.1.1.calls

-- Both servers are asked, the second once more with the new token.
both_asked :
    asked (do_request auth_env (main_server ∷ fallback ∷ []) request auth)
    ≡ fallback ∷ main_server ∷ []
unfolding do_request
both_asked = refl

-- Nothing is stored yet.
abbrev new_device : Auth
new_device = record auth {
  store = record auth.store { db = record auth.store.db { token_entry = none } };
  auth_token = "";
}

is_accepted : (authorize auth_env (main_server ∷ fallback ∷ []) new_device).0 ≡ none
unfolding authorize
is_accepted = refl

authorize-HasToken_example :
    HasToken auth_env (authorize auth_env (main_server ∷ fallback ∷ []) new_device).1
authorize-HasToken_example =
    authorize-HasToken auth_env (main_server ∷ fallback ∷ []) new_device is_accepted

-- A server that refuses every check.
-- A server that answers a request of either method with a code and a body.
abbrev answers : ℕ → ℕ → String → UpdateEnv Auth
answers posted got body = record {
  unmarshal = λ text. some sample;
  bad_url = none;
  api = λ req m. (
    ok (record {
      status_code = elim req.method [ Method.post ↦ posted | Method.get ↦ got ];
      content_length = ℤ.pos 0;
      body = ok body;
    }),
    m,
  );
}

abbrev refusal : UpdateResponse
refusal = record { status_code = 401; content_length = ℤ.pos 0; body = ok "" }

-- A server without the POST request.
check_update-IsComplete_example :
    IsComplete sample
    × ((check_update auth_env
            (asks auth_env (answers 404 200 "{}") "beaglebone" [])
            (ok "release-1")
            auth).0.1
          ≡ none
        → str_eq sample.artifact.artifact_name "release-1" ≡ false)
unfolding check_update get_scheduled_update make_update_check_request
check_update-IsComplete_example =
    check_update-IsComplete auth_env (answers 404 200 "{}") "beaglebone" [] "release-1" auth sample
      refl
