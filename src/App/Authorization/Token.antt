-- ===== src/App/Authorization/Token.antt =====
-- The token that a reauthorization returns.
use mender.Prelude.{◌≡◌, arith, String, none, some, List, Error, ok}
use mender.Datastore.Db.{Db}
use mender.App.Authorization.{Call, AuthReply, AuthEnv, Auth, stored_token, recv_auth_response}

module _ (env : AuthEnv) (url : String) where
  -- The token is one that the server has sent, and it is stored and cached.
  pub record IsReceived (t : String) (m : Auth) : Type 0 where
    pub asked : List Call
    pub sent : env.auth_reply asked url ≡ AuthReply.token t
    pub stored : m.store.db.token_entry ≡ some t
    pub cached : m.auth_token ≡ t

  pub recv-Holds :
      (d : String) (m : Auth)
      → (recv_auth_response env d m).0 ≡ none
      → ((recv_auth_response env d m).1.store.db.token_entry ≡ some d)
        × ((recv_auth_response env d m).1.auth_token ≡ m.auth_token)
  unfolding recv_auth_response
  recv-Holds d m h = ground arith

  pub stored_token-Holds :
      (d t : String) (m : Auth)
      → m.store.db.token_entry ≡ some d
      → (stored_token env m).0 ≡ ok t
      → t ≡ d
  unfolding stored_token
  stored_token-Holds d t m e h = ground arith

  pub stored_token-db : (m : Auth) → (stored_token env m).1.store.db ≡ m.store.db
  unfolding stored_token
  stored_token-db m = ground arith
