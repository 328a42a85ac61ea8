-- ===== src/App/Recovery.antt =====
-- The states behind a commit.
use mender.Prelude.{Bool, true, false}
use mender.App.State.{Status, State}

-- The states that are only reached once the first payload is committed, if nothing reports success
-- that did not happen.
abbrev pub claims_commit : State → Bool
claims_commit (State.update_after_first_commit u) = true
claims_commit (State.update_after_commit u) = true
claims_commit (State.update_cleanup u Status.success) = true
claims_commit (State.status_report u Status.success n m) = true
claims_commit (State.report_error u Status.success) = true
claims_commit (State.status_report_retry r u Status.success n) = true
claims_commit (State.status_report_retry r u s n) = claims_commit r
claims_commit _ = false
