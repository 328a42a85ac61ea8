-- ===== src/App/Authorization/Authorized.antt =====
-- A controller that is authorized has a token.
use mender.Prelude.{
  ◌≡◌, ◌≢◌, inl, inr, refl, sym, ap, ◌∙◌, arith, String, str_eq, Bool, Bool-cases, true, false,
  Option, Option-cases, none, some, List, [], ◌∷◌, Error, ok, err, Result, if◌then◌else◌,
}
use mathlib.Core.Path.{subst}
use mender.Datastore.Db.{Db}
use mender.App.Error.{MenderError}
use mender.App.Authorization.{
  AuthReply, AuthEnv, Auth, stored_token, is_authorized, cache, load_auth, bootstrap,
  recv_auth_response,
}
use mender.App.Authorization.Request.{
  authorize_loop, after_response, with_last_reply, ask_servers, unless_bootstrap_failed,
  unless_authorized, authorize,
}
use mender.App.Authorization.Token.{stored_token-Holds, stored_token-db, recv-Holds}

some-not_none : {A : Type 0} (x : A) → ◌≢◌ {A = Option A} (some x) none
some-not_none x = ground arith

module _ (env : AuthEnv) where
  abbrev pub HasToken : Auth → Type 0
  HasToken m = str_eq m.auth_token "" ≡ false

  cache-HasToken :
      (d : String) (r : Result String) (m : Auth)
      → ((t : String) → r ≡ ok t → t ≡ d)
      → str_eq d "" ≡ false
      → (cache env r m).0 ≡ none
      → HasToken (cache env r m).1
  cache-HasToken d (err e) m same n h = ground arith
  cache-HasToken d (ok t) m same n h = rw (same t refl) n

  -- What loadAuth does by whether no token is cached.
  abbrev loads : Auth → Bool → Option MenderError × Auth
  loads m b = if b then cache env (stored_token env m).0 (stored_token env m).1 else (none, m)

  abbrev Loads : Auth → Bool → Type 0
  Loads m b = (loads m b).0 ≡ none → HasToken (loads m b).1

  load_auth-HasToken :
      (d : String) (m : Auth)
      → m.store.db.token_entry ≡ some d
      → str_eq d "" ≡ false
      → (load_auth env m).0 ≡ none
      → HasToken (load_auth env m).1
  unfolding load_auth
  load_auth-HasToken d m e n = elim (Bool-cases (str_eq m.auth_token "")) [
    | inl c ↦ subst (Loads m) (sym c) (
        cache-HasToken d (stored_token env m).0 (stored_token env m).1
          (λ t k. stored_token-Holds env "" d t m e k) n)
    | inr c ↦ subst (Loads m) (sym c) (λ h. c)
  ]

  is_authorized-token :
      (m : Auth)
      → (is_authorized env m).0 ≡ true
      → (d : String) × ((m.store.db.token_entry ≡ some d) × (str_eq d "" ≡ false))
  unfolding is_authorized
  is_authorized-token m h = elim (Option-cases m.store.db.token_entry) [
    | inl e ↦ absurd (ground arith)
    | inr (d, e) ↦ (d, (e, ground arith))
  ]

  is_authorized-db : (m : Auth) → (is_authorized env m).1.store.db ≡ m.store.db
  unfolding is_authorized
  is_authorized-db m = stored_token-db env "" m

  recv-nonempty :
      (d : String) (m : Auth) → (recv_auth_response env d m).0 ≡ none → str_eq d "" ≡ false
  unfolding recv_auth_response
  recv-nonempty d m h = ground arith

  after_response-HasToken :
      (d : String) (o : Option Error) (m : Auth)
      → (o ≡ none → (m.store.db.token_entry ≡ some d) × (str_eq d "" ≡ false))
      → (after_response env o m).0 ≡ none
      → HasToken (after_response env o m).1
  after_response-HasToken d (some x) m e h = absurd (some-not_none _ h)
  after_response-HasToken d none m e h = let (a, b) = e refl in load_auth-HasToken d m a b h

  with_last_reply-HasToken :
      (r : AuthReply) (m : Auth)
      → (with_last_reply env r m).0 ≡ none
      → HasToken (with_last_reply env r m).1
  unfolding with_last_reply
  with_last_reply-HasToken AuthReply.unauthorized m h = absurd (some-not_none _ h)
  with_last_reply-HasToken (AuthReply.failed e) m h = absurd (some-not_none _ h)
  with_last_reply-HasToken (AuthReply.token d) m h =
      after_response-HasToken d (recv_auth_response env d m).0 (recv_auth_response env d m).1
        (λ k. ((recv-Holds env "" d m k).0, recv-nonempty d m k)) h

  ask_servers-HasToken :
      (servers : List String) (m : Auth)
      → (ask_servers env servers m).0 ≡ none
      → HasToken (ask_servers env servers m).1
  ask_servers-HasToken [] m h = absurd (some-not_none _ h)
  ask_servers-HasToken (s ∷ left) m h =
      with_last_reply-HasToken (authorize_loop env s left m).0 (authorize_loop env s left m).1 h

  unless_bootstrap_failed-HasToken :
      (servers : List String) (o : Option MenderError) (m : Auth)
      → (unless_bootstrap_failed env servers o m).0 ≡ none
      → HasToken (unless_bootstrap_failed env servers o m).1
  unless_bootstrap_failed-HasToken servers (some e) m h = absurd (some-not_none _ h)
  unless_bootstrap_failed-HasToken servers none m h =
      ask_servers-HasToken servers (record m { auth_token = "" }) h

  -- What the check of the stored token says to what follows it.
  abbrev Knows : Bool → Auth → Type 0
  Knows b m = b ≡ true → (d : String) × ((m.store.db.token_entry ≡ some d) × (str_eq d "" ≡ false))

  unless_authorized-HasToken :
      (b : Bool) (servers : List String) (m : Auth)
      → Knows b m
      → (unless_authorized env b servers m).0 ≡ none
      → HasToken (unless_authorized env b servers m).1
  unless_authorized-HasToken true servers m k h =
      let (d, (e, n)) = k refl in load_auth-HasToken d m e n h
  unless_authorized-HasToken false servers m k h =
      unless_bootstrap_failed-HasToken servers (bootstrap env m).0 (bootstrap env m).1 h

  is_authorized-Knows : (m : Auth) → Knows (is_authorized env m).0 (is_authorized env m).1
  is_authorized-Knows m b =
      let (d, (e, n)) = is_authorized-token m b in
      (d, (ap (λ (x : Db String). x.token_entry) (is_authorized-db m) ∙ e, n))

  -- Whatever faults the database has, and whatever the servers reply: if Authorize reports no error,
  -- then a token is cached that is not empty.
  pub authorize-HasToken :
      (servers : List String) (m : Auth)
      → (authorize env servers m).0 ≡ none
      → HasToken (authorize env servers m).1
  unfolding authorize
  authorize-HasToken servers m h =
      unless_authorized-HasToken (is_authorized env m).0 servers (is_authorized env m).1
        (is_authorized-Knows m) h
