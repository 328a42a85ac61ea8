-- ===== src/App/Standalone/Finish.antt =====
-- The ends of an update in app/standalone.go: rollback, failure and cleanup.
use Prim.Native.String.{◌++◌ as concat}
use mender.Prelude.{
  ℕ, ◌+◌, String, str_eq, Bool, true, false, Option, none, some, List, [], ◌∷◌, Error, other, ok,
  err, Result, if◌then◌else◌, not, ◌&&◌, ◌||◌,
}
use mender.Datastore.StateData.{
  SupportsRollback, unknown, supported, not_supported, set_supports_rollback,
}
use mender.Datastore.Db.{Key, Txn, write_all, remove, write_transaction}
use mender.Datastore.Db
use mender.App.Transition.{Action}
use mender.App.World.{Operation}
use mender.App.Standalone.Device.{StandaloneData, Call, DeviceEnv, S, pure, ask, ◌>>=◌, call, call_}

-- `if firstErr == nil { firstErr = err }`
abbrev pub or_first : Option Error → Option Error → Option Error
or_first none e = e
or_first (some x) e = some x

abbrev pub is_some : Option Error → Bool
is_some none = false
is_some (some e) = true

-- The name with BrokenArtifactSuffix of conf/paths.go.
abbrev pub break_name : StandaloneData → StandaloneData
break_name sd = record sd { artifact_name = concat sd.artifact_name "_INCONSISTENT" }

-- "Means keep old name."
abbrev pub keep_name : StandaloneData → StandaloneData
keep_name sd = record sd { artifact_name = "" }

-- The `switch` behind the loop of determineRollbackSupport.
abbrev decide : SupportsRollback → Result Bool
decide supported = ok true
decide not_supported = ok false
decide _ = err (other "Rollback support could not be determined")

module _ {B : Type 0} (env : DeviceEnv B) where
  unfoldable pub rollback_support_loop : List String → ℕ → SupportsRollback → S B (Result Bool)
  unfolding set_supports_rollback
  rollback_support_loop [] n support = pure (decide support)
  rollback_support_loop (t ∷ ts) n support = do
    answer ← ask (Call.supports_rollback n) (λ h. env.supports_rollback_reply h n)
    elim answer [
      | err e ↦ pure (err e)
      | ok b ↦ elim (set_supports_rollback support (if b then supported else not_supported)) [
        | err e ↦ pure (err e)
        | ok support' ↦ rollback_support_loop ts (n + 1) support'
      ]
    ]

  unfoldable pub determine_rollback_support : List String → S B (Result Bool)
  unfolding rollback_support_loop
  determine_rollback_support installers = rollback_support_loop installers 0 unknown

  -- A loop over the installers that goes on after an error, and returns the first one.
  unfoldable pub for_all : Operation → List String → ℕ → S B (Option Error)
  for_all op [] n = pure none
  for_all op (t ∷ ts) n = do
    e ← call env (Call.installer n op)
    rest ← for_all op ts (n + 1)
    pure (or_first e rest)

  unfoldable pub do_standalone_rollback_state : StandaloneData → S B (Option Error)
  do_standalone_rollback_state sd = do
    e ← call env (Call.execute_all "ArtifactRollback" Action.enter false)
    e' ← for_all Operation.rollback sd.installers 0
    e'' ← call env (Call.execute_all "ArtifactRollback" Action.leave false)
    pure (or_first (or_first e e') e'')

  -- The support for rollback is false where it cannot be determined.
  unfoldable pub do_standalone_failure_states_rollback : StandaloneData → S B (Bool × Option Error)
  do_standalone_failure_states_rollback sd = do
    support ← determine_rollback_support sd.installers
    elim support [
      | err e ↦ pure (false, some e)
      | ok supports ↦
          if supports
          then (do e ← do_standalone_rollback_state sd; pure (true, e))
          else pure (false, none)
    ]

  unfoldable pub do_standalone_failure_states_failure : StandaloneData → S B (Option Error)
  do_standalone_failure_states_failure sd = do
    e ← call env (Call.execute_all "ArtifactFailure" Action.enter true)
    e' ← for_all Operation.failure sd.installers 0
    e'' ← call env (Call.execute_all "ArtifactFailure" Action.leave true)
    pure (or_first (or_first e e') e'')

  -- The closure of doStandaloneCleanup's transaction.
  unfoldable pub cleanup_body : StandaloneData → Txn (Unit {0}) B (Unit {0})
  unfolding write_all remove
  cleanup_body sd = Db.◌>>◌ (remove env.faults Key.standalone_state) (
      if str_eq sd.artifact_name ""
      then (λ r. (ok tt, r))
      else Db.◌>>◌ (write_all env.faults Key.artifact_name (env.json.to_bytes sd.artifact_name)) (
          Db.◌>>◌ (write_all env.faults Key.artifact_group (env.json.to_bytes sd.artifact_group)) (
            write_all env.faults Key.artifact_type_info_provides
              (env.json.marshal_provides sd.artifact_type_info_provides))))

  unfoldable pub write_cleanup : StandaloneData → S B (Option Error)
  unfolding cleanup_body write_transaction
  write_cleanup sd d =
      let (e, r) = write_transaction env.faults tt (cleanup_body sd) d.store in
      (e, record d { store = r.store })

  unfoldable pub do_standalone_cleanup : StandaloneData → S B (Option Error)
  unfolding write_cleanup
  do_standalone_cleanup sd = do
    e ← for_all Operation.cleanup sd.installers 0
    e' ← write_cleanup sd
    pure (or_first e e')

  -- The name of the artifact behind the failure states.
  abbrev pub failed_name : Bool → Bool → Bool → Option Error → StandaloneData → StandaloneData
  failed_name rollback failure rollback_support first_err sd =
      if is_some first_err || (failure && (not rollback || not rollback_support))
      then break_name sd
      else if rollback || not failure
      then keep_name sd
      else sd

  unfoldable pub maybe_rollback : Bool → StandaloneData → S B (Bool × Option Error)
  maybe_rollback rollback sd =
      if rollback then do_standalone_failure_states_rollback sd else pure (false, none)

  unfoldable pub maybe_failure : Bool → StandaloneData → S B (Option Error)
  maybe_failure failure sd = if failure then do_standalone_failure_states_failure sd else pure none

  unfoldable pub maybe_cleanup : Bool → StandaloneData → S B (Option Error)
  maybe_cleanup cleanup sd = if cleanup then do_standalone_cleanup sd else pure none

  -- doStandaloneFailureStates returns, beside the error, the data that it has changed.
  unfoldable pub do_standalone_failure_states :
      StandaloneData → Bool → Bool → Bool → S B (StandaloneData × Option Error)
  unfolding maybe_rollback maybe_failure maybe_cleanup
  do_standalone_failure_states sd rollback failure cleanup = do
    (support, e) ← maybe_rollback rollback sd
    e' ← maybe_failure failure sd
    let first_err = or_first e e'
    let sd' = failed_name rollback failure support first_err sd
    e'' ← maybe_cleanup cleanup sd'
    pure (sd', or_first first_err e'')

  abbrev pub call_error_script : String → S B (Unit {0})
  call_error_script state = call_ env (Call.execute_all state Action.error true)
