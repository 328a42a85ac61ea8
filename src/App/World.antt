-- ===== src/App/World.antt =====
-- What the handlers of app/state.go act on: the controller with its current state, the database, the
-- fields of StateContext, and the calls made so far, to which an environment answers.
use Prim.Native.String.{◌++◌ as concat}
use mender.Prelude.{ℕ, String, Bool, false, Option, none, some, List, ◌∷◌, Error, Result}
use mender.Datastore.StateData.{MenderState, Provides, UpdateInfo}
use mender.Datastore.Db.{Key, Store, Faults, put_store}
use mender.Datastore.Persist.{Json, store_state_data}
use mender.App.Error.{MenderError}
use mender.Text.{Text}
use mender.App.Transition.{Action}
use mender.App.State.{Status, State}
use mender.App.Depends.{Depend}

-- The methods of installer.PayloadUpdatePerformer that return an error and nothing else.
pub data Operation : Type 0 where
  commit_update install_update rollback verify_reboot reboot rollback_reboot : Operation
  verify_rollback_reboot failure cleanup : Operation

-- The answers to NeedsReboot: RebootAction is an int with three constants.
pub data RebootAction : Type 0 where
  no_reboot reboot_required automatic_reboot : RebootAction
  unknown : ℕ → RebootAction

-- A *StatusReportWrapper by its status: nil, or a status that may be empty.
abbrev pub Report : Type 0
Report = Option (Option Status)

-- The calls that leave the state machine. An installer is named by its index.
pub data Call : Type 0 where
  enable_log get_logs : String → Call
  disable_log : Call
  upload_log : String → Call
  report_status : String → Status → Call
  remove_auth_token check_scripts : Call
  installer : ℕ → Operation → Call
  needs_reboot supports_rollback : ℕ → Call
  restore_installers : List String → Call
  fetch_update : String → Call
  read_headers close_stream : ℕ → Call
  store_payloads host_reboot : Call
  execute_all : Text → Action → Bool → Report → Call
  is_authorized authorize check_update inventory_refresh now : Call
  wait : ℕ → Call

-- What ReadArtifactHeaders finds: the depends and provides are those of artifacts of version 3.
pub record Headers : Type 0 where
  pub artifact_name : String
  pub compatible_devices : List String
  pub depends : Result (Option (List (String × Depend)))
  pub provides : Result (Option Provides)

-- Why a Wait ended.
pub data WaitEnd : Type 0 where
  timer wakeup cancel : WaitEnd

-- The environment answers each call, knowing all calls before it, the latest first.
pub record Env (B : Type 0) : Type 0 where
  pub json : Json B
  pub faults : Faults
  pub fails : List Call → Call → Option Error
  pub authorized : List Call → Bool
  pub authorize_reply : List Call → Option MenderError
  pub check_update_reply : List Call → Option UpdateInfo × Option MenderError
  pub fetch_reply : List Call → Result ℕ
  -- the payload types of the installers that were created, and the headers
  pub headers_reply : List Call → List String × Result Headers
  pub supports_rollback_reply : List Call → ℕ → Result Bool
  pub needs_reboot_reply : List Call → ℕ → Result RebootAction
  -- Reboot() of system/system.go returns an error whenever it returns
  pub host_reboot_reply : List Call → Error
  pub time : List Call → ℕ
  pub wait_reply : List Call → WaitEnd
  -- GetUpdatePollInterval, GetInventoryPollInterval, GetRetryPollInterval
  pub update_poll_interval : ℕ
  pub inventory_poll_interval : ℕ
  pub retry_poll_interval : ℕ

-- Times are nanoseconds; 0 is the zero time.
pub record World (B : Type 0) : Type 0 where
  pub current : State
  pub store : Store B
  pub last_update_check_attempt : ℕ
  pub last_inventory_update_attempt : ℕ
  pub last_authorize_attempt : ℕ
  pub fetch_install_attempts : ℕ
  -- GetType() of each of GetInstallers()
  pub installers : List String
  pub calls : List Call

-- A Go panic ends the process.
pub data Outcome (B A : Type 0) : Type 0 where
  done : A → World B → Outcome B A
  panicked : World B → Outcome B A

abbrev pub M : Type 0 → Type 0 → Type 0
M B A = World B → Outcome B A

module _ {B A : Type 0} where
  abbrev pub pure : A → M B A
  pure a w = done a w

  abbrev pub panic : M B A
  panic w = panicked w

  abbrev pub gets : (World B → A) → M B A
  gets f w = done (f w) w

  -- A call, with the answer of the environment.
  abbrev pub ask : Call → (List Call → A) → M B A
  ask c f w = done (f w.calls) (record w { calls = c ∷ w.calls })

module _ {B A : Type 0} where
  -- What an action returns, if it returns, and the world that it leaves.
  abbrev pub result : Outcome B A → Option A
  result (done a w) = some a
  result (panicked w) = none

  abbrev pub world : Outcome B A → World B
  world (done a w) = w
  world (panicked w) = w

module _ {B A C : Type 0} where
  abbrev pub continue : Outcome B A → (A → M B C) → Outcome B C
  continue (done a w) f = f a w
  continue (panicked w) f = panicked w

  infixl 5 ◌>>=◌
  abbrev pub ◌>>=◌ : M B A → (A → M B C) → M B C
  ◌>>=◌ m f w = continue (m w) f

module _ {B A : Type 0} where
  infixl 5 ◌>>◌
  abbrev pub ◌>>◌ : M B (Unit {0}) → M B A → M B A
  m >> n = m >>= λ _. n

-- A handler's result: the next state, and whether the wait was cancelled.
abbrev pub Next : Type 0
Next = State × Bool

module _ {B : Type 0} where
  abbrev pub modify : (World B → World B) → M B (Unit {0})
  modify f w = done tt (f w)

  -- What a handler writes through its receiver, the current state of the controller.
  abbrev pub set_current : State → M B (Unit {0})
  set_current s = modify λ w. record w { current = s }

  -- The end of a handler that was not cancelled.
  abbrev pub go : State → M B Next
  go s = pure (s, false)

module _ {B : Type 0} (env : Env B) where
  abbrev pub call : Call → M B (Option Error)
  call c = ask c (λ h. env.fails h c)

  -- A call whose error is logged, at most.
  abbrev pub call_ : Call → M B (Unit {0})
  call_ c = ask c (λ h. tt)

  abbrev pub operate : ℕ → Operation → M B (Option Error)
  operate n op = call (Call.installer n op)

  -- datastore.StoreStateData(ctx.Store, …); the version is left to be filled in.
  unfoldable pub store_update : MenderState → UpdateInfo → M B (Option Error)
  store_update name u w =
      let (e, s) =
        store_state_data env.json env.faults (record { version = 0; name = name; update_info = u })
          w.store in
      done e (record w { store = s })

  -- RemoveStateData. The store of the daemon is never nil.
  unfoldable pub remove_state_data : M B (Option Error)
  remove_state_data w =
      let (e, s) = put_store env.faults Key.state_data none w.store in
      done e (record w { store = s })

  -- setBrokenArtifactFlag, with BrokenArtifactSuffix of conf/paths.go. The error is only logged.
  unfoldable pub flag_broken : String → World B → World B
  flag_broken name w = record w {
    store =
        (put_store env.faults Key.artifact_name
          (some (env.json.to_bytes (concat name "_INCONSISTENT"))) w.store).1;
  }

  abbrev pub set_broken_artifact_flag : String → M B (Unit {0})
  set_broken_artifact_flag name = modify (flag_broken name)
