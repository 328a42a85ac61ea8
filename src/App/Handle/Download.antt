-- ===== src/App/Handle/Download.antt =====
-- The handlers of app/state.go that fetch and store an artifact.
use mender.Prelude.{
  ℕ, ◌+◌, String, str_eq, Bool, true, false, Option, none, some, List, [], ◌∷◌, Error, other,
  Result, ok, err, if◌then◌else◌,
}
use mender.Datastore.StateData.{
  MenderState, Provides, UpdateInfo, supported, not_supported, set_supports_rollback,
}
use mender.Datastore.Persist.{load_provides}
use mender.Client.Backoff.{get_exponential_backoff_time}
use mender.App.Error.{new_transient_error}
use mender.App.Depends.{Depend, lookup, elem, verify_artifact_dependencies}
use mender.App.State.{Status, State, new_status_report}
use mender.App.World.{
  Call, Env, Headers, M, Next, done, pure, gets, ask, ◌>>=◌, ◌>>◌, modify, set_current, go, call,
  call_, store_update,
}
use mender.App.Handle.Errors.{handle_state_data_error, report_update_status, is_fatal, wait}

-- A step of a handler that may already return.
pub data Step (A : Type 0) : Type 0 where
  proceed : A → Step A
  stop : Next → Step A

-- verifyUpdateResponseAndHeader's inner and outer loops.
unfoldable pub all_in : List String → List String → Bool
unfolding elem
all_in [] devices = true
all_in (d ∷ ds) devices = if elem d devices then all_in ds devices else false

unfoldable pub verify_update_response_and_header : UpdateInfo → Headers → Option Error
unfolding all_in
verify_update_response_and_header u h =
    if str_eq h.artifact_name u.artifact.artifact_name
    then (if all_in u.artifact.compatible_devices h.compatible_devices
        then none
        else some (other "Compatible devices in artifact is not what the server claims"))
    else some (other "Artifact name in artifact is not what the server claims")

-- delete(provides, key)
unfoldable pub delete : String → Provides → Provides
delete k [] = []
delete k ((j, v) ∷ m) = let rest = delete k m in if str_eq j k then rest else (j, v) ∷ rest

-- The update with the provides of its artifact: the group has a field of its own.
abbrev set_group : Option String → UpdateInfo → UpdateInfo
set_group none u = u
set_group (some g) u = record u { artifact = record u.artifact { artifact_group = g } }

abbrev pub set_provides : Provides → UpdateInfo → UpdateInfo
set_provides p u = record u { artifact = record u.artifact { type_info_provides = p } }

-- The second half of maybeVerifyArtifactDependsAndProvides. Without the entry "artifact_name" the
-- code logs an error and returns `err`, which is nil there: no error, and no provides.
unfoldable pub take_provides : UpdateInfo → Result (Option Provides) → Result UpdateInfo
unfolding delete lookup
take_provides u (err e) = err e
take_provides u (ok none) = ok u
take_provides u (ok (some p)) = elim (lookup "artifact_name" p) [
  | none ↦ ok u
  | some _ ↦
      let q = delete "artifact_name" p in
      ok (set_provides (delete "artifact_group" q) (set_group (lookup "artifact_group" q) u))
]

abbrev retry_cause : Option Error → Error → Error
retry_cause none e = e
retry_cause (some x) e = Error.wrap x

module _ {B : Type 0} (env : Env B) where
  unfoldable pub handle_update_fetch : UpdateInfo → M B Next
  handle_update_fetch u = do
    logging ← call env (Call.enable_log u.id)
    elim logging [
      | some _ ↦ go (new_status_report u Status.failure)
      | none ↦ do
        merr ← report_update_status env u Status.downloading
        if is_fatal env merr then go (new_status_report u Status.failure) else do
          fetched ← ask (Call.fetch_update u.artifact.uri) env.fetch_reply
          elim fetched [
            | err e ↦ go (State.fetch_store_retry (State.update_fetch u) u (some e))
            | ok stream ↦ go (State.update_store stream u)
          ]
    ]

  -- datastore.LoadProvides(ctx.Store)
  unfoldable pub load_installed : M B (Result Provides)
  load_installed w =
      let (p, s) = load_provides env.json env.faults w.store in done p (record w { store = s })

  -- The first half of maybeVerifyArtifactDependsAndProvides. Depends that cannot be read are
  -- passed over.
  unfoldable pub verify_depends : Result (Option (List (String × Depend))) → M B (Option Error)
  verify_depends (err e) = pure none
  verify_depends (ok none) = pure none
  verify_depends (ok (some depends)) = do
    provides ← load_installed
    elim provides [ err e ↦ pure (some e) | ok p ↦ pure (verify_artifact_dependencies depends p) ]

  unfoldable pub maybe_verify_artifact_depends_and_provides :
      UpdateInfo → Headers → M B (Result UpdateInfo)
  unfolding verify_depends
  maybe_verify_artifact_depends_and_provides u h = do
    e ← verify_depends h.depends
    elim e [ some x ↦ pure (err x) | none ↦ pure (take_provides u h.provides) ]

  -- The loop of handleSupportsRollback; the flag is written into the state.
  unfoldable pub supports_rollback_loop : ℕ → List String → ℕ → UpdateInfo → M B (Step UpdateInfo)
  supports_rollback_loop stream [] n u = pure (proceed u)
  supports_rollback_loop stream (t ∷ ts) n u = do
    answer ← ask (Call.supports_rollback n) (λ h. env.supports_rollback_reply h n)
    elim answer [
      | err e ↦ pure (stop (State.update_error (new_transient_error e) u, false))
      | ok b ↦
          elim (set_supports_rollback u.supports_rollback
            (if b then supported else not_supported)) [
              | err e ↦ pure (stop (State.update_error (new_transient_error e) u, false))
              | ok flag ↦ do
                set_current (State.update_store stream (record u { supports_rollback = flag }))
                supports_rollback_loop stream ts (n + 1) (record u { supports_rollback = flag })
            ]
    ]

  stopped : Next → M B (Step UpdateInfo)
  stopped next = pure (stop next)

  unfoldable pub handle_supports_rollback : ℕ → UpdateInfo → M B (Step UpdateInfo)
  unfolding stopped
  handle_supports_rollback stream u = do
    installers ← gets (λ w. w.installers)
    asked ← supports_rollback_loop stream installers 0 u
    elim asked [
      | stop next ↦ stopped next
      | proceed u' ↦ do
        e ← store_update env MenderState.update_store u'
        elim e [
          | none ↦ pure (proceed u')
          | some x ↦ do
            next ←
                handle_state_data_error env (State.update_error (new_transient_error x) u', false)
                  u' x
            stopped next
        ]
    ]

  -- The handler from StorePayloads on.
  unfoldable pub store_payloads : ℕ → UpdateInfo → M B Next
  store_payloads stream u = do
    e ← call env Call.store_payloads
    elim e [
      | some _ ↦ go (State.update_cleanup u Status.failure)
      | none ↦ do
        asked ← handle_supports_rollback stream u
        elim asked [
          | stop next ↦ pure next
          | proceed u' ↦ do
            modify (λ w. record w { fetch_install_attempts = 0 })
            merr ← report_update_status env u' Status.downloading
            elim merr [
              | none ↦ go (State.update_after_store u')
              | some m ↦
                  if m.is_fatal
                  then go (State.update_error m u')
                  else go (State.update_after_store u')
            ]
        ]
    ]

  -- The handler behind the check of the provides: the state is stored before any payload is.
  unfoldable pub store_verified : ℕ → UpdateInfo → Result UpdateInfo → M B Next
  store_verified stream u (err _) = go (new_status_report u Status.failure)
  store_verified stream u (ok u') = do
    set_current (State.update_store stream u')
    e ← store_update env MenderState.update_store u'
    elim e [
      | none ↦ store_payloads stream u'
      | some x ↦ handle_state_data_error env (State.update_cleanup u' Status.failure, false) u' x
    ]

  -- The handler once the headers are read and the payload types are recorded in the state.
  unfoldable pub check_headers : ℕ → UpdateInfo → Headers → M B Next
  check_headers stream u h = elim (verify_update_response_and_header u h) [
    | some _ ↦ go (new_status_report u Status.failure)
    | none ↦ do
      verified ← maybe_verify_artifact_depends_and_provides u h
      store_verified stream u verified
  ]

  abbrev with_types : UpdateInfo → List String → UpdateInfo
  with_types u types = record u { artifact = record u.artifact { payload_types = types } }

  unfoldable pub read_headers : ℕ → UpdateInfo → M B Next
  read_headers stream u = do
    (types, headers) ← ask (Call.read_headers stream) env.headers_reply
    modify (λ w. record w { installers = types })
    elim headers [
      | err e ↦ go (State.fetch_store_retry (State.update_store stream u) u (some e))
      | ok h ↦ do
        set_current (State.update_store stream (with_types u types))
        check_headers stream (with_types u types) h
    ]

  unfoldable pub update_store : ℕ → UpdateInfo → M B Next
  update_store stream u = do
    logging ← call env (Call.enable_log u.id)
    elim logging [
      | some _ ↦ go (new_status_report u Status.failure)
      | none ↦ do
        merr ← report_update_status env u Status.downloading
        if is_fatal env merr then go (new_status_report u Status.failure) else read_headers stream u
    ]

  -- updateStoreState.Handle: `defer u.imagein.Close()` closes the stream on every return.
  unfoldable pub handle_update_store : ℕ → UpdateInfo → M B Next
  handle_update_store stream u = do
    next ← update_store stream u
    call_ env (Call.close_stream stream)
    pure next

  unfoldable pub handle_fetch_store_retry : State → UpdateInfo → Option Error → M B Next
  handle_fetch_store_retry from u e = do
    tried ← gets (λ w. w.fetch_install_attempts)
    elim (get_exponential_backoff_time tried env.update_poll_interval) [
      | err x ↦ go (State.update_error (new_transient_error (retry_cause e x)) u)
      | ok interval ↦ do
        modify (λ w. record w { fetch_install_attempts = w.fetch_install_attempts + 1 })
        wait env (State.update_fetch u) (State.fetch_store_retry from u e) interval
    ]
