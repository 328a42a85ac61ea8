-- ===== src/App/Diagram.antt =====
-- The state diagram: which states the handlers may lead to. The proof for each handler is below.
use mender.Prelude.{ℕ, ◌≡◌, Bool, true, false, ◌&&◌, ◌||◌, not, List}
use mender.App.Recovery.{claims_commit}
use mender.App.State.{Status, State}
use mender.App.World.{World, Next, Outcome, done, panicked}
use mender.App.Handle.Download.{Step, proceed, stop}
mod Rules
pub mod Early
pub mod Late
pub mod Total

-- The states without their data.
pub data Kind : Type 0 where
  init idle authorize authorize_wait check_wait inventory_update update_check final error : Kind
  update_fetch update_store update_after_store fetch_store_retry update_install : Kind
  update_commit pre_commit_retry update_after_first_commit update_after_commit : Kind
  update_error update_cleanup status_report status_report_retry report_error : Kind
  reboot verify_reboot after_reboot rollback rollback_reboot verify_rollback_reboot : Kind
  after_rollback_reboot : Kind

abbrev pub kind : State → Kind
kind State.init = Kind.init
kind State.idle = Kind.idle
kind State.authorize = Kind.authorize
kind State.authorize_wait = Kind.authorize_wait
kind State.check_wait = Kind.check_wait
kind State.inventory_update = Kind.inventory_update
kind State.update_check = Kind.update_check
kind State.final = Kind.final
kind (State.error e) = Kind.error
kind (State.update_fetch u) = Kind.update_fetch
kind (State.update_store s u) = Kind.update_store
kind (State.update_after_store u) = Kind.update_after_store
kind (State.fetch_store_retry r u e) = Kind.fetch_store_retry
kind (State.update_install u) = Kind.update_install
kind (State.update_commit u n) = Kind.update_commit
kind (State.pre_commit_retry r n) = Kind.pre_commit_retry
kind (State.update_after_first_commit u) = Kind.update_after_first_commit
kind (State.update_after_commit u) = Kind.update_after_commit
kind (State.update_error e u) = Kind.update_error
kind (State.update_cleanup u s) = Kind.update_cleanup
kind (State.status_report u s n m) = Kind.status_report
kind (State.status_report_retry r u s n) = Kind.status_report_retry
kind (State.report_error u s) = Kind.report_error
kind (State.reboot u) = Kind.reboot
kind (State.verify_reboot u) = Kind.verify_reboot
kind (State.after_reboot u) = Kind.after_reboot
kind (State.rollback u) = Kind.rollback
kind (State.rollback_reboot u) = Kind.rollback_reboot
kind (State.verify_rollback_reboot u) = Kind.verify_rollback_reboot
kind (State.after_rollback_reboot u) = Kind.after_rollback_reboot

-- The arrows of the diagram: the successors that a handler may choose.
abbrev pub leads_to : Kind → Kind → Bool
leads_to Kind.init Kind.idle = true
leads_to Kind.init Kind.update_error = true
leads_to Kind.init Kind.status_report = true
leads_to Kind.init Kind.update_cleanup = true
leads_to Kind.init Kind.verify_reboot = true
leads_to Kind.init Kind.verify_rollback_reboot = true
leads_to Kind.init Kind.update_after_first_commit = true
leads_to Kind.init Kind.update_after_commit = true
leads_to Kind.init Kind.rollback = true
leads_to Kind.init Kind.error = true
leads_to Kind.idle Kind.check_wait = true
leads_to Kind.idle Kind.authorize_wait = true
leads_to Kind.authorize Kind.check_wait = true
leads_to Kind.authorize Kind.authorize_wait = true
leads_to Kind.authorize Kind.error = true
leads_to Kind.authorize_wait Kind.authorize = true
leads_to Kind.authorize_wait Kind.authorize_wait = true
leads_to Kind.check_wait Kind.update_check = true
leads_to Kind.check_wait Kind.inventory_update = true
leads_to Kind.check_wait Kind.check_wait = true
leads_to Kind.inventory_update Kind.check_wait = true
leads_to Kind.inventory_update Kind.error = true
leads_to Kind.update_check Kind.check_wait = true
leads_to Kind.update_check Kind.update_fetch = true
leads_to Kind.update_check Kind.status_report = true
leads_to Kind.update_check Kind.error = true
leads_to Kind.error Kind.idle = true
leads_to Kind.error Kind.final = true
leads_to Kind.update_fetch Kind.update_store = true
leads_to Kind.update_fetch Kind.fetch_store_retry = true
leads_to Kind.update_fetch Kind.status_report = true
leads_to Kind.update_store Kind.update_after_store = true
leads_to Kind.update_store Kind.fetch_store_retry = true
leads_to Kind.update_store Kind.update_cleanup = true
leads_to Kind.update_store Kind.update_error = true
leads_to Kind.update_store Kind.status_report = true
leads_to Kind.update_after_store Kind.update_install = true
leads_to Kind.fetch_store_retry Kind.update_fetch = true
leads_to Kind.fetch_store_retry Kind.fetch_store_retry = true
leads_to Kind.fetch_store_retry Kind.update_error = true
leads_to Kind.update_install Kind.reboot = true
leads_to Kind.update_install Kind.update_commit = true
leads_to Kind.update_install Kind.rollback = true
leads_to Kind.update_install Kind.update_error = true
leads_to Kind.update_install Kind.status_report = true
leads_to Kind.update_commit Kind.update_after_first_commit = true
leads_to Kind.update_commit Kind.pre_commit_retry = true
leads_to Kind.update_commit Kind.rollback = true
leads_to Kind.update_commit Kind.update_error = true
leads_to Kind.update_commit Kind.status_report = true
leads_to Kind.pre_commit_retry Kind.update_commit = true
leads_to Kind.pre_commit_retry Kind.rollback = true
leads_to Kind.pre_commit_retry Kind.update_error = true
leads_to Kind.update_after_first_commit Kind.update_after_commit = true
leads_to Kind.update_after_first_commit Kind.update_cleanup = true
leads_to Kind.update_after_commit Kind.update_cleanup = true
leads_to Kind.update_error Kind.update_cleanup = true
leads_to Kind.update_cleanup Kind.status_report = true
leads_to Kind.status_report Kind.idle = true
leads_to Kind.status_report Kind.status_report_retry = true
leads_to Kind.status_report Kind.report_error = true
leads_to Kind.status_report_retry Kind.status_report = true
leads_to Kind.status_report_retry Kind.status_report_retry = true
leads_to Kind.status_report_retry Kind.report_error = true
leads_to Kind.report_error Kind.rollback = true
leads_to Kind.report_error Kind.idle = true
leads_to Kind.report_error Kind.final = true
leads_to Kind.reboot Kind.verify_reboot = true
leads_to Kind.reboot Kind.rollback = true
leads_to Kind.reboot Kind.update_error = true
leads_to Kind.verify_reboot Kind.after_reboot = true
leads_to Kind.verify_reboot Kind.rollback = true
leads_to Kind.verify_reboot Kind.update_error = true
leads_to Kind.after_reboot Kind.update_commit = true
leads_to Kind.rollback Kind.rollback_reboot = true
leads_to Kind.rollback Kind.update_error = true
leads_to Kind.rollback_reboot Kind.verify_rollback_reboot = true
leads_to Kind.verify_rollback_reboot Kind.after_rollback_reboot = true
leads_to Kind.verify_rollback_reboot Kind.rollback_reboot = true
leads_to Kind.after_rollback_reboot Kind.update_error = true
leads_to _ _ = false

-- The states that the retry states return to.
abbrev pub is_well_formed : State → Bool
is_well_formed (State.pre_commit_retry (State.update_commit u n) m) = true
is_well_formed (State.pre_commit_retry _ m) = false
is_well_formed (State.status_report_retry (State.status_report u s n m) v t k) = true
is_well_formed (State.status_report_retry _ v t k) = false
is_well_formed _ = true

-- The kinds of states whose handlers may lead to a state that claims a commit.
abbrev pub may_claim : Kind → Bool
may_claim Kind.init = true
may_claim Kind.update_commit = true
may_claim Kind.update_after_first_commit = true
may_claim Kind.update_after_commit = true
may_claim Kind.update_cleanup = true
may_claim Kind.status_report = true
may_claim Kind.status_report_retry = true
may_claim _ = false

-- An arrow of the diagram, to a well-formed state that claims a commit only where that may be.
abbrev pub is_arrow : Kind → State → Bool
is_arrow k s = leads_to k (kind s) && (is_well_formed s && (not (claims_commit s) || may_claim k))

-- The handlers with a Go panic: one slices the list of the installers, which may be empty, one uses
-- the update of a check that says that it is already installed, and the final state has no handler.
abbrev pub may_panic : Kind → Bool
may_panic Kind.update_after_first_commit = true
may_panic Kind.update_check = true
may_panic Kind.final = true
may_panic _ = false

-- A handler has followed an arrow from the kind, or panicked where that may be.
abbrev pub follows : {B : Type 0} → Kind → Outcome B Next → Bool
follows k (done n w) = is_arrow k n.0
follows k (panicked w) = may_panic k

-- The same of a part of a handler that may let it go on.
abbrev pub follows_step : {A B : Type 0} → Kind → Outcome B (Step A) → Bool
follows_step k (done (proceed a) w) = true
follows_step k (done (stop n) w) = is_arrow k n.0
follows_step k (panicked w) = may_panic k
