-- ===== src/Datastore/StateData.antt =====
-- The structs of datastore/statedata.go that are saved in the database, and the methods of
-- SupportsRollbackType and RebootRequestedType.
use mender.Prelude.{
  ℕ, ◌==◌, String, str_eq, Bool, true, false, Option, none, some, List, [], ◌∷◌, ◌++◌, other,
  Result, ok, err, if◌then◌else◌, length, get_elem?,
}

pub data MenderState : Type 0 where
  init idle authorize authorize_wait inventory_update check_wait update_check : MenderState
  update_fetch update_store update_after_store update_install : MenderState
  fetch_store_retry_wait update_verify update_pre_commit_status_report_retry : MenderState
  update_commit update_after_first_commit update_after_commit : MenderState
  update_status_report status_report_retry report_status_error : MenderState
  reboot verify_reboot after_reboot : MenderState
  rollback rollback_reboot verify_rollback_reboot after_rollback_reboot : MenderState
  error update_error update_cleanup done : MenderState

-- The map `stateNames`, total on the states.
unfoldable pub state_name : MenderState → String
state_name MenderState.init = "init"
state_name MenderState.idle = "idle"
state_name MenderState.authorize = "authorize"
state_name MenderState.authorize_wait = "authorize-wait"
state_name MenderState.inventory_update = "inventory-update"
state_name MenderState.check_wait = "check-wait"
state_name MenderState.update_check = "update-check"
state_name MenderState.update_fetch = "update-fetch"
state_name MenderState.update_store = "update-store"
state_name MenderState.update_after_store = "update-after-store"
state_name MenderState.update_install = "update-install"
state_name MenderState.fetch_store_retry_wait = "fetch-install-retry-wait"
state_name MenderState.update_verify = "update-verify"
state_name MenderState.update_commit = "update-commit"
state_name MenderState.update_pre_commit_status_report_retry =
    "update-pre-commit-status-report-retry"
state_name MenderState.update_after_first_commit = "update-after-first-commit"
state_name MenderState.update_after_commit = "update-after-commit"
state_name MenderState.update_status_report = "update-status-report"
state_name MenderState.status_report_retry = "update-retry-report"
state_name MenderState.report_status_error = "status-report-error"
state_name MenderState.reboot = "reboot"
state_name MenderState.verify_reboot = "verify-reboot"
state_name MenderState.after_reboot = "after-reboot"
state_name MenderState.rollback = "rollback"
state_name MenderState.rollback_reboot = "rollback-reboot"
state_name MenderState.verify_rollback_reboot = "verify-rollback-reboot"
state_name MenderState.after_rollback_reboot = "after-rollback-reboot"
state_name MenderState.error = "error"
state_name MenderState.update_error = "update-error"
state_name MenderState.update_cleanup = "cleanup"
state_name MenderState.done = "finished"

-- The keys of `stateNames`, each once, for the loop of UnmarshalJSON.
abbrev pub all_states : List MenderState
all_states =
    MenderState.init ∷ MenderState.idle ∷ MenderState.authorize ∷ MenderState.authorize_wait
    ∷ MenderState.inventory_update ∷ MenderState.check_wait ∷ MenderState.update_check
    ∷ MenderState.update_fetch ∷ MenderState.update_store ∷ MenderState.update_after_store
    ∷ MenderState.update_install ∷ MenderState.fetch_store_retry_wait ∷ MenderState.update_verify
    ∷ MenderState.update_commit ∷ MenderState.update_pre_commit_status_report_retry
    ∷ MenderState.update_after_first_commit ∷ MenderState.update_after_commit
    ∷ MenderState.update_status_report ∷ MenderState.status_report_retry
    ∷ MenderState.report_status_error ∷ MenderState.reboot ∷ MenderState.verify_reboot
    ∷ MenderState.after_reboot ∷ MenderState.rollback ∷ MenderState.rollback_reboot
    ∷ MenderState.verify_rollback_reboot ∷ MenderState.after_rollback_reboot ∷ MenderState.error
    ∷ MenderState.update_error ∷ MenderState.update_cleanup ∷ MenderState.done ∷ []

find_state : String → List MenderState → Option MenderState
find_state s [] = none
find_state s (k ∷ ks) = if str_eq (state_name k) s then some k else find_state s ks

-- MenderState.UnmarshalJSON, behind the decoding of the JSON string. Go visits a map in any order;
-- the names are distinct, so the order does not show.
unfoldable pub unmarshal_state : String → Result MenderState
unfolding find_state state_name
unmarshal_state s = elim (find_state s all_states) [
  | none ↦ err (other "unmarshal error; unknown state")
  | some m ↦ ok m
]

-- Any string may come from the database: `corrupt` holds those that are none of the constants.
pub data SupportsRollback : Type 0 where
  unknown not_supported supported : SupportsRollback
  corrupt : String → SupportsRollback

abbrev pub support_eq : SupportsRollback → SupportsRollback → Bool
support_eq SupportsRollback.unknown SupportsRollback.unknown = true
support_eq SupportsRollback.not_supported SupportsRollback.not_supported = true
support_eq SupportsRollback.supported SupportsRollback.supported = true
support_eq (SupportsRollback.corrupt s) (SupportsRollback.corrupt t) = str_eq s t
support_eq _ _ = false

-- (*SupportsRollbackType).Set
unfoldable pub set_supports_rollback : SupportsRollback → SupportsRollback → Result SupportsRollback
set_supports_rollback s value =
    if support_eq s SupportsRollback.unknown
    then ok value
    else if support_eq s value
    then ok s
    else err (other "Conflicting rollback support")

pub data RebootType : Type 0 where
  no_reboot custom automatic : RebootType
  corrupt : String → RebootType

unfoldable pub known_reboot_type : RebootType → Result RebootType
known_reboot_type (RebootType.corrupt s) = err (other "Corrupt RebootRequested entry")
known_reboot_type t = ok t

known_entry : Option RebootType → Result RebootType
unfolding known_reboot_type
known_entry none = err (other "Reboot information missing for payload")
known_entry (some t) = known_reboot_type t

-- (*RebootRequestedType).Get
unfoldable pub get_reboot_requested : List RebootType → ℕ → Result RebootType
unfolding known_entry
get_reboot_requested r n = known_entry (get_elem? r n)

-- (*RebootRequestedType).Set
unfoldable pub set_reboot_requested : List RebootType → ℕ → RebootType → Result (List RebootType)
set_reboot_requested r n t =
    if n == length r then ok (r ++ t ∷ []) else err (other "RebootRequested not assigned in order")

-- map[string]string as its entries, sorted by key. A nil map and an empty one are not told apart.
abbrev pub Provides : Type 0
Provides = List (String × String)

pub record Artifact : Type 0 where
  pub uri : String
  pub expire : String
  pub compatible_devices : List String
  pub payload_types : List String
  pub artifact_name : String
  pub artifact_group : String
  pub type_info_provides : Provides

pub record UpdateInfo : Type 0 where
  pub artifact : Artifact
  pub id : String
  pub reboot_requested : List RebootType
  pub supports_rollback : SupportsRollback
  pub state_data_store_count : ℕ
  pub has_db_schema_update : Bool

pub record StateData : Type 0 where
  pub version : ℕ
  pub name : MenderState
  pub update_info : UpdateInfo

abbrev pub state_data_version : ℕ
state_data_version = 2
