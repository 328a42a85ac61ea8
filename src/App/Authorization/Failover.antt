-- ===== src/App/Authorization/Failover.antt =====
-- A request goes to one server after another, up to the first that serves it.
use mender.Prelude.{
  ℕ, ◌≡◌, ◌⊎◌, inl, inr, refl, sym, ap, ◌∙◌, arith, String, Bool, Bool-cases, true, false, Option,
  none, some, List, [], ◌∷◌, ◌++◌, Error, ok, err, Result,
}
use mathlib.Core.Path.{subst}
use mender.App.Error.{MenderError}
use mender.App.Authorization.{
  Call, AuthReply, AuthEnv, Auth, stored_token, remove_auth_token, recv_auth_response, bootstrap,
  load_auth, token_after, after_recv, with_reply, after_remove, after_bootstrap, reauthorize,
}
use mender.App.Authorization.Request.{
  ApiRequest, next, reset, is_success, is_unauthorized, send, retry_with, unless_unauthorized,
  try_do, do_loop, with_header, from_first, do_request,
}

-- The servers that a request was sent to first, the latest first.
abbrev pub visited : List Call → List String
visited [] = []
visited (Call.send url t ∷ cs) = url ∷ visited cs
visited (c ∷ cs) = visited cs

abbrev pub push_all : List String → List String → List String
push_all [] before = before
push_all (s ∷ ss) before = push_all ss (s ∷ before)

module _ (env : AuthEnv) where
  visited-bootstrap : (m : Auth) → visited (bootstrap env m).1.calls ≡ visited m.calls
  unfolding bootstrap
  visited-bootstrap m = ground arith

  visited-remove_auth_token :
      (m : Auth) → visited (remove_auth_token env m).1.calls ≡ visited m.calls
  unfolding remove_auth_token
  visited-remove_auth_token m = ground arith

  visited-recv_auth_response :
      (d : String) (m : Auth) → visited (recv_auth_response env d m).1.calls ≡ visited m.calls
  unfolding recv_auth_response
  visited-recv_auth_response d m = ground arith

  visited-load_auth : (m : Auth) → visited (load_auth env m).1.calls ≡ visited m.calls
  unfolding load_auth
  visited-load_auth m = ground arith

  visited-token_after :
      (o : Option MenderError) (m : Auth) → visited (token_after env o m).1.calls ≡ visited m.calls
  unfolding stored_token
  visited-token_after (some e) m = refl
  visited-token_after none m = refl

  visited-after_recv :
      (o : Option Error) (m : Auth) → visited (after_recv env o m).1.calls ≡ visited m.calls
  visited-after_recv (some e) m = refl
  visited-after_recv none m =
      visited-token_after (load_auth env m).0 (load_auth env m).1 ∙ visited-load_auth m

  visited-with_reply :
      (r : AuthReply) (m : Auth) → visited (with_reply env r m).1.calls ≡ visited m.calls
  visited-with_reply AuthReply.unauthorized m = visited-remove_auth_token m
  visited-with_reply (AuthReply.failed e) m = refl
  visited-with_reply (AuthReply.token d) m =
      visited-after_recv (recv_auth_response env d m).0 (recv_auth_response env d m).1
      ∙ visited-recv_auth_response d m

  visited-after_remove :
      (url : String) (o : Option Error) (m : Auth)
      → visited (after_remove env url o m).1.calls ≡ visited m.calls
  visited-after_remove url (some e) m = refl
  visited-after_remove url none m = visited-with_reply (env.auth_reply m.calls url) _

  visited-after_bootstrap :
      (url : String) (o : Option MenderError) (m : Auth)
      → visited (after_bootstrap env url o m).1.calls ≡ visited m.calls
  visited-after_bootstrap url (some e) m = refl
  visited-after_bootstrap url none m =
      visited-after_remove url (remove_auth_token env m).0 (remove_auth_token env m).1
      ∙ visited-remove_auth_token m

  visited-reauthorize :
      (url : String) (m : Auth) → visited (reauthorize env url m).1.calls ≡ visited m.calls
  unfolding reauthorize
  visited-reauthorize url m =
      visited-after_bootstrap url (bootstrap env m).0 (bootstrap env m).1 ∙ visited-bootstrap m

  visited-retry_with :
      (url : String) (first : Result ℕ) (t : Result String) (r : ApiRequest) (m : Auth)
      → visited (retry_with env url first t r m).1.1.calls ≡ visited m.calls
  visited-retry_with url first (err e) r m = refl
  visited-retry_with url first (ok jwt) r m = refl

  visited-unless_unauthorized :
      (b : Bool) (url : String) (first : Result ℕ) (r : ApiRequest) (m : Auth)
      → visited (unless_unauthorized env b url first r m).1.1.calls ≡ visited m.calls
  visited-unless_unauthorized false url first r m = refl
  visited-unless_unauthorized true url first r m =
      visited-retry_with url first (reauthorize env url m).0 r (reauthorize env url m).1
      ∙ visited-reauthorize url m

  visited-try_do :
      (url : String) (r : ApiRequest) (m : Auth)
      → visited (try_do env url r m).1.1.calls ≡ url ∷ visited m.calls
  unfolding try_do
  visited-try_do url r m =
      visited-unless_unauthorized (is_unauthorized (send env url r m).0) url (send env url r m).0 r
        (send env url r m).1

  -- The request and the manager behind the attempts at these servers.
  abbrev pub behind : List String → ApiRequest → Auth → ApiRequest × Auth
  behind [] q m = (q, m)
  behind (s ∷ ss) q m = let (_, (q', m')) = try_do env s q m in behind ss q' m'

  -- Each of these servers, asked in turn, does not serve the request.
  abbrev pub AllRefuse : List String → ApiRequest → Auth → Type 0
  AllRefuse [] q m = Unit
  AllRefuse (s ∷ ss) q m =
      (is_success (try_do env s q m).0 ≡ false)
      × AllRefuse ss (try_do env s q m).1.0 (try_do env s q m).1.1

  -- One of the servers serves the request, those before it were asked and did not; or none does,
  -- and all were asked.
  pub record Served (servers before : List String) (q : ApiRequest) (m : Auth)
      (r : Result ℕ × (ApiRequest × Auth)) : Type 0 where
    pub refusing : List String
    pub server : String
    pub rest : List String
    pub split : servers ≡ refusing ++ (server ∷ rest)
    pub refused : AllRefuse refusing q m
    pub answer : r.0 ≡ (try_do env server (behind refusing q m).0 (behind refusing q m).1).0
    pub served : is_success r.0 ≡ true
    pub asked : visited r.1.1.calls ≡ server ∷ push_all refusing before

  abbrev pub Refused :
      List String → List String → ApiRequest → Auth → Result ℕ × (ApiRequest × Auth) → Type 0
  Refused servers before q m r =
      AllRefuse servers q m
      × ((is_success r.0 ≡ false) × (visited r.1.1.calls ≡ push_all servers before))

  abbrev pub Outcome :
      List String → List String → ApiRequest → Auth → Result ℕ × (ApiRequest × Auth) → Type 0
  Outcome servers before q m r = Served servers before q m r ⊎ Refused servers before q m r

  reset-servers : (servers left : List String) → reset servers left ≡ servers
  reset-servers servers [] = refl
  reset-servers servers (s ∷ left) = reset-servers servers left

  Outcome-cons :
      (url : String) (left before : List String) (q : ApiRequest) (m : Auth)
      (r : Result ℕ × (ApiRequest × Auth))
      → is_success (try_do env url q m).0 ≡ false
      → Outcome left (url ∷ before) (try_do env url q m).1.0 (try_do env url q m).1.1 r
      → Outcome (url ∷ left) before q m r
  Outcome-cons url left before q m r n (inr h) = inr ((n, h.0), h.1)
  Outcome-cons url left before q m r n (inl s) = inl (record {
    refusing = url ∷ s.refusing;
    server = s.server;
    rest = s.rest;
    split = ap (λ (ss : List String). url ∷ ss) s.split;
    refused = (n, s.refused);
    answer = s.answer;
    served = s.served;
    asked = s.asked;
  })

  do_loop-goes :
      (servers : List String) (url s : String) (left : List String) (r : ApiRequest) (m : Auth)
      → is_success (try_do env url r m).0 ≡ false
      → do_loop env servers url (s ∷ left) r m
        ≡ do_loop env servers s left (try_do env url r m).1.0 (try_do env url r m).1.1
  unfolding do_loop
  do_loop-goes servers url s left r m h = rw h refl

  do_loop-Outcome :
      (servers : List String) (url : String) (left : List String) (r : ApiRequest) (m : Auth)
      → Outcome (url ∷ left) (visited m.calls) r m (do_loop env servers url left r m)
        × ((do_loop env servers url left r m).1.0.left ≡ servers)
  unfolding do_loop
  do_loop-Outcome servers url [] r m = elim (Bool-cases (is_success (try_do env url r m).0)) [
    | inl h ↦ (
      inl (record {
        refusing = [];
        server = url;
        rest = [];
        split = refl;
        refused = tt;
        answer = refl;
        served = h;
        asked = visited-try_do url r m;
      }),
      refl,
    )
    | inr h ↦ (inr ((h, tt), (h, visited-try_do url r m)), refl)
  ]
  do_loop-Outcome servers url (s ∷ left) r m =
      let (a, (r', m')) = try_do env url r m in
      elim (Bool-cases (is_success (try_do env url r m).0)) [
        | inl h ↦
            rw (do_loop, h)
              (
                inl (record {
                  refusing = [];
                  server = url;
                  rest = s ∷ left;
                  split = refl;
                  refused = tt;
                  answer = refl;
                  served = h;
                  asked = visited-try_do url r m;
                }),
                reset-servers servers (s ∷ left),
              )
        | inr h ↦
            let (o, e) = do_loop-Outcome servers s left r' m' in
            subst
              (λ (q : Result ℕ × (ApiRequest × Auth)).
                Outcome (url ∷ (s ∷ left)) (visited m.calls) r m q × (q.1.0.left ≡ servers))
              (sym (do_loop-goes servers url s left r m h))
              (
                Outcome-cons url (s ∷ left) (visited m.calls) r m (do_loop env servers s left r' m')
                    h
                    (subst
                      (λ (b : List String).
                        Outcome (s ∷ left) b r' m' (do_loop env servers s left r' m'))
                      (visited-try_do url r m) o),
                e,
              )
      ]

  -- A request whose iterator stands at the first server is sent to one server after another, up to the
  -- first that serves it, whose answer is returned: all servers before it were asked and did not.
  -- If none serves it, all were asked. The iterator is back at the first server
  -- when the request ends.
  pub request_fails_over :
      (s : String) (ss : List String) (r : ApiRequest) (m : Auth)
      → r.left ≡ s ∷ ss
      → (q : Result ℕ × (ApiRequest × Auth)) × ((do_request env (s ∷ ss) r m ≡ some q)
          × (Outcome (s ∷ ss) (visited m.calls) (with_header env r) m q × (q.1.0.left ≡ s ∷ ss)))
  unfolding do_request
  request_fails_over s ss r m h = (
    do_loop env (s ∷ ss) s ss (with_header env r) m,
    (
      ap
          (λ (left : List String).
            from_first env (s ∷ ss) (next (s ∷ ss) left) (with_header env r) m)
          h,
      do_loop-Outcome (s ∷ ss) s ss (with_header env r) m,
    ),
  )
