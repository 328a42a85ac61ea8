-- ===== src/App/Authorization/Request.antt =====
-- ApiRequest.Do with tryDo of client/client.go, and nextServerIterator, Authorize and IsAuthorized of
-- app/mender.go. An iterator is kept as the servers that are left.
use Prim.Native.String.{◌++◌ as concat}
use mender.Prelude.{
  ℕ, ◌==◌, ltb, String, str_eq, Bool, true, false, Option, none, some, List, [], ◌∷◌, Error, other,
  ok, err, Result, if◌then◌else◌,
}
use mender.App.Error.{MenderError, new_transient_error, new_fatal_error}
use mender.App.Authorization.{
  Call, AuthReply, AuthEnv, Auth, called, is_authorized, remove_auth_token, recv_auth_response,
  bootstrap, load_auth, request_token, reauthorize,
}

-- The closure of nextServerIterator: at the end it returns nil and starts again.
abbrev pub next : List String → List String → Option String × List String
next servers [] = (none, servers)
next servers (s ∷ left) = (some s, left)

-- The loop of Do that resets the iterator.
abbrev pub reset : List String → List String → List String
reset servers [] = servers
reset servers (s ∷ left) = reset servers left

-- An ApiRequest with the header "Authorization" of its request, which is empty at first.
pub record ApiRequest : Type 0 where
  pub auth : String
  pub header : String
  pub left : List String

abbrev pub is_success : Result ℕ → Bool
is_success (err e) = false
is_success (ok status) = ltb status 400

abbrev pub is_unauthorized : Result ℕ → Bool
is_unauthorized (err e) = false
is_unauthorized (ok status) = status == 401

abbrev pub is_reply : AuthReply → Bool
is_reply (AuthReply.token t) = true
is_reply _ = false

-- The value of the header for a token.
abbrev pub bearer : String → String
bearer auth = concat "Bearer " auth

module _ (env : AuthEnv) where
  abbrev pub send : String → ApiRequest → Auth → Result ℕ × Auth
  send url r m = (env.respond m.calls url r.header, called (Call.send url r.header) m)

  abbrev pub resend : String → ApiRequest → Auth → Result ℕ × Auth
  resend url r m = (env.respond m.calls url r.header, called (Call.resend url r.header) m)

  -- What follows the reauthorization; the first response stands if it has failed.
  abbrev pub retry_with :
      String → Result ℕ → Result String → ApiRequest → Auth → Result ℕ × (ApiRequest × Auth)
  retry_with url first (err e) r m = (first, (r, m))
  retry_with url first (ok jwt) r m =
      let r' = record r { auth = jwt; header = bearer jwt } in
      let (response, m') = resend url r' m in (response, (r', m'))

  abbrev pub unless_unauthorized :
      Bool → String → Result ℕ → ApiRequest → Auth → Result ℕ × (ApiRequest × Auth)
  unless_unauthorized false url first r m = (first, (r, m))
  unless_unauthorized true url first r m =
      let (t, m') = reauthorize env url m in retry_with url first t r m'

  unfoldable pub try_do : String → ApiRequest → Auth → Result ℕ × (ApiRequest × Auth)
  unfolding reauthorize
  try_do url r m =
      let (first, m') = send url r m in unless_unauthorized (is_unauthorized first) url first r m'

  -- The loop of Do, with the servers that are left; it ends with the iterator reset.
  unfoldable pub do_loop :
      List String → String → List String → ApiRequest → Auth → Result ℕ × (ApiRequest × Auth)
  unfolding try_do
  do_loop servers url [] r m =
      let (response, (r', m')) = try_do url r m in (response, (record r' { left = servers }, m'))
  do_loop servers url (s ∷ left) r m =
      let (response, (r', m')) = try_do url r m in
      let rest = do_loop servers s left r' m' in
      if is_success response
      then (response, (record r' { left = reset servers (s ∷ left) }, m'))
      else rest

  abbrev pub with_header : ApiRequest → ApiRequest
  with_header r = record r { header = if str_eq r.header "" then bearer r.auth else r.header }

  -- Do; a request whose iterator stands at its end dereferences nil.
  abbrev pub from_first :
      List String
      → Option String × List String
      → ApiRequest
      → Auth
      → Option (Result ℕ × (ApiRequest × Auth))
  from_first servers (none, left) r m = none
  from_first servers (some url, left) r m = some (do_loop servers url left r m)

  unfoldable pub do_request :
      List String → ApiRequest → Auth → Option (Result ℕ × (ApiRequest × Auth))
  unfolding do_loop
  do_request [] r m = some (err (other "Empty server list!"), (r, m))
  do_request (s ∷ servers) r m =
      from_first (s ∷ servers) (next (s ∷ servers) r.left) (with_header r) m

  -- IsAuthorized of the controller.
  abbrev pub if_loaded : Option MenderError → Bool
  if_loaded none = true
  if_loaded (some e) = false

  abbrev pub load_if : Bool → Auth → Bool × Auth
  load_if false m = (false, m)
  load_if true m = let (e, m') = load_auth env m in (if_loaded e, m')

  unfoldable pub controller_is_authorized : Auth → Bool × Auth
  unfolding is_authorized load_auth
  controller_is_authorized m = let (b, m') = is_authorized env m in load_if b m'

  -- The loop of Authorize over the servers, with the reply of the last one that was asked.
  unfoldable pub authorize_loop : String → List String → Auth → AuthReply × Auth
  authorize_loop url [] m = request_token env url m
  authorize_loop url (s ∷ left) m =
      let (r, m') = request_token env url m in
      let rest = authorize_loop s left m' in if is_reply r then (r, m') else rest

  abbrev pub after_response : Option Error → Auth → Option MenderError × Auth
  after_response (some e) m = (some (new_transient_error (Error.wrap e)), m)
  after_response none m = load_auth env m

  unfoldable pub with_last_reply : AuthReply → Auth → Option MenderError × Auth
  unfolding remove_auth_token recv_auth_response load_auth
  with_last_reply AuthReply.unauthorized m =
      let (_, m') = remove_auth_token env m in
      (some (new_transient_error (other "authorization request failed")), m')
  with_last_reply (AuthReply.failed e) m = (some (new_transient_error (Error.wrap e)), m)
  with_last_reply (AuthReply.token data') m =
      let (e, m') = recv_auth_response env data' m in after_response e m'

  abbrev pub ask_servers : List String → Auth → Option MenderError × Auth
  ask_servers [] m = (some (new_fatal_error (other "Empty server list in mender.conf!")), m)
  ask_servers (s ∷ left) m = let (r, m') = authorize_loop s left m in with_last_reply r m'

  abbrev pub unless_bootstrap_failed :
      List String → Option MenderError → Auth → Option MenderError × Auth
  unless_bootstrap_failed servers (some e) m = (some e, m)
  unless_bootstrap_failed servers none m = ask_servers servers (record m { auth_token = "" })

  abbrev pub unless_authorized : Bool → List String → Auth → Option MenderError × Auth
  unless_authorized true servers m = load_auth env m
  unless_authorized false servers m =
      let (e, m') = bootstrap env m in unless_bootstrap_failed servers e m'

  unfoldable pub authorize : List String → Auth → Option MenderError × Auth
  unfolding is_authorized bootstrap authorize_loop with_last_reply
  authorize servers m = let (b, m') = is_authorized env m in unless_authorized b servers m'
