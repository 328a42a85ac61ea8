-- ===== src/App/Authorization.antt =====
-- Authorization: MenderAuthManager of app/auth.go with its token in the store, and Bootstrap, loadAuth,
-- Authorize and reauthorize of app/mender.go. Keys and requests are calls of an environment.
use mender.Prelude.{
  ℕ, String, str_eq, Bool, true, false, Option, none, some, List, [], ◌∷◌, Error, other, ok, err,
  Result, if◌then◌else◌, is_not_exist, not, ◌||◌,
}
use mender.Datastore.Db.{Key, Store, Faults, put_store, read_store}
use mender.App.Error.{MenderError, new_transient_error, new_fatal_error}
pub mod Request
pub mod Token
pub mod Authorized
pub mod Check
pub mod Scheduled
pub mod Refused
pub mod Failover

-- The calls: of the key store, a request for authorization, and an API request with its token, sent
-- first or again.
pub data Call : Type 0 where
  has_key generate_key : Call
  auth_request : String → Call
  send resend : String → String → Call

-- The answer to a request for authorization: a token, AuthErrorUnauthorized, or another error.
pub data AuthReply : Type 0 where
  token : String → AuthReply
  unauthorized : AuthReply
  failed : Error → AuthReply

-- What generating a key reports.
pub data KeyResult : Type 0 where
  generated static_key : KeyResult
  key_error : Error → KeyResult

-- The environment answers each call, knowing all calls before it, the latest first.
pub record AuthEnv : Type 0 where
  pub faults : Faults
  pub has_key_reply : List Call → Bool
  pub generate_reply : List Call → KeyResult
  pub auth_reply : List Call → String → AuthReply
  -- the status code of a response
  pub respond : List Call → String → String → Result ℕ

-- The fields of Mender that concern authorization; the empty token is noAuthToken.
pub record Auth : Type 0 where
  pub store : Store String
  pub auth_token : String
  pub force_bootstrap : Bool
  pub calls : List Call

abbrev pub A : Type 0 → Type 0
A R = Auth → R × Auth

abbrev pub called : Call → Auth → Auth
called c m = record m { calls = c ∷ m.calls }

module _ (env : AuthEnv) where
  -- (*MenderAuthManager).AuthToken; errors are wrapped.
  abbrev pub token_of : Result String → Result String
  token_of (ok data') = ok data'
  token_of (err e) = if is_not_exist e then ok "" else err (Error.wrap e)

  unfoldable pub stored_token : A (Result String)
  unfolding read_store
  stored_token m =
      let (r, s) = read_store env.faults Key.auth_token m.store in
      (token_of r, record m { store = s })

  abbrev pub is_token : Result String → Bool
  is_token (err e) = false
  is_token (ok t) = not (str_eq t "")

  unfoldable pub is_authorized : A Bool
  unfolding stored_token
  is_authorized m = let (t, m') = stored_token m in (is_token t, m')

  abbrev pub write_token : Option String → A (Option Error)
  write_token v m =
      let (e, s) = put_store env.faults Key.auth_token v m.store in (e, record m { store = s })

  abbrev pub remove_if : Bool → A (Option Error)
  remove_if true m = write_token none m
  remove_if false m = (none, m)

  unfoldable pub remove_auth_token : A (Option Error)
  unfolding is_authorized put_store
  remove_auth_token m = let (b, m') = is_authorized m in remove_if b m'

  unfoldable pub recv_auth_response : String → A (Option Error)
  unfolding put_store
  recv_auth_response data' m =
      if str_eq data' ""
      then (some (other "empty auth response data"), m)
      else write_token (some data') m

  abbrev pub after_generate : KeyResult → A (Option MenderError)
  after_generate (KeyResult.key_error e) m = (some (new_fatal_error e), m)
  after_generate _ m = (none, record m { force_bootstrap = false })

  unfoldable pub do_bootstrap : A (Option MenderError)
  do_bootstrap m =
      if not (env.has_key_reply m.calls) || m.force_bootstrap
      then after_generate (env.generate_reply (Call.has_key ∷ m.calls))
          (called Call.generate_key (called Call.has_key m))
      else (none, record (called Call.has_key m) { force_bootstrap = false })

  unfoldable pub bootstrap : A (Option MenderError)
  unfolding do_bootstrap
  bootstrap m =
      if m.force_bootstrap
      then do_bootstrap m
      else if env.has_key_reply m.calls
      then (none, called Call.has_key m)
      else do_bootstrap (called Call.has_key m)

  abbrev pub cache : Result String → A (Option MenderError)
  cache (err e) m = (some (new_fatal_error (Error.wrap e)), m)
  cache (ok t) m = (none, record m { auth_token = t })

  unfoldable pub load_auth : A (Option MenderError)
  unfolding stored_token
  load_auth m =
      if str_eq m.auth_token "" then (let (t, m') = stored_token m in cache t m') else (none, m)

  -- The token of the store, or the error of caching it.
  abbrev pub token_after : Option MenderError → A (Result String)
  token_after (some e) m = (err (other "failed to cache authorization code"), m)
  token_after none m = stored_token m

  abbrev pub after_recv : Option Error → A (Result String)
  after_recv (some e) m = (err (Error.wrap e), m)
  after_recv none m = let (e, m') = load_auth m in token_after e m'

  -- What follows the reply of one server in reauthorize.
  abbrev pub with_reply : AuthReply → A (Result String)
  with_reply AuthReply.unauthorized m =
      let (_, m') = remove_auth_token m in (err (other "authorization request failed"), m')
  with_reply (AuthReply.failed e) m = (err (Error.wrap e), m)
  with_reply (AuthReply.token data') m = let (e, m') = recv_auth_response data' m in after_recv e m'

  abbrev pub request_token : String → A AuthReply
  request_token url m = (env.auth_reply m.calls url, called (Call.auth_request url) m)

  abbrev pub after_remove : String → Option Error → A (Result String)
  after_remove url (some e) m = (err (other "Failed to remove auth token"), m)
  after_remove url none m =
      let (r, m') = request_token url (record m { auth_token = "" }) in with_reply r m'

  abbrev pub after_bootstrap : String → Option MenderError → A (Result String)
  after_bootstrap url (some e) m = (err (other "Bootstrap failed"), m)
  after_bootstrap url none m = let (e, m') = remove_auth_token m in after_remove url e m'

  unfoldable pub reauthorize : String → A (Result String)
  unfolding bootstrap remove_auth_token recv_auth_response load_auth
  reauthorize url m = let (e, m') = bootstrap m in after_bootstrap url e m'
