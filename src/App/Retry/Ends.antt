-- ===== src/App/Retry/Ends.antt =====
-- That sending reports comes to an end.
use mender.Prelude.{ℕ, ◌+◌, ◌*◌, ◌-◌, ◌≡◌, true, false, Bool, ltb, ◌||◌, not, arith}
use mender.Datastore.StateData.{UpdateInfo}
use mender.App.State.{Status, State}
use mender.App.World.{Env, World, Next, Outcome, done, panicked}
use mender.App.Handle.Errors.{report_update_status, wait, handle_error, handle_state_data_error}
use mender.App.Handle.Commit.{
  max_try_sending, handle_update_commit, handle_pre_commit_retry, record_commit, store_commit,
}
use mender.App.Handle.Report.{
  handle_status_report, handle_status_report_retry, send_deployment_logs,
}
use mender.App.Diagram.{is_well_formed}
use mender.App.Transit.{handle}
use mender.App.Retry.{is_sending, is_bounded, limit_pos}

module _ {B : Type 0} (env : Env B) where
  -- A bound for the transitions that are left until no report is sent any more.
  abbrev pub left : State → ℕ
  left (State.status_report u s n m) = 1 + 2 * (3 * max_try_sending env - (n + m))
  left (State.status_report_retry (State.status_report u s n m) v t k) =
      2 + 2 * (3 * max_try_sending env - (n + m))
  left (State.update_commit u n) = 3 + 6 * max_try_sending env + 2 * (max_try_sending env - n)
  left (State.pre_commit_retry (State.update_commit u n) k) =
      4 + 6 * max_try_sending env + 2 * (max_try_sending env - n)
  left _ = 0

  -- The handler was cancelled, has left for a state that sends no report, or is nearer to the end.
  abbrev pub gets_on : ℕ → Outcome B Next → Bool
  gets_on k (done n w) = n.1 || (not (is_sending n.0) || ltb (left n.0) k)
  gets_on k (panicked w) = false

  status_report-gets_on :
      (u : UpdateInfo) (s : Status) (n m : ℕ) (w : World B)
      → is_bounded env (State.status_report u s n m) ≡ true
      → gets_on (left (State.status_report u s n m)) (handle_status_report env u s n m w) ≡ true
  unfolding handle_status_report send_deployment_logs report_update_status
  status_report-gets_on u s n m w h = ground (arith, limit_pos env)

  status_report_retry-gets_on :
      (r : State) (u : UpdateInfo) (s : Status) (k : ℕ) (w : World B)
      → is_well_formed (State.status_report_retry r u s k) ≡ true
      → gets_on
          (left (State.status_report_retry r u s k))
          (handle_status_report_retry env r u s k w)
        ≡ true
  unfolding handle_status_report_retry wait
  status_report_retry-gets_on r u s k w f = ground (arith, limit_pos env)

  update_commit-gets_on :
      (u : UpdateInfo) (n : ℕ) (w : World B)
      → is_bounded env (State.update_commit u n) ≡ true
      → gets_on (left (State.update_commit u n)) (handle_update_commit env u n w) ≡ true
  unfolding handle_update_commit record_commit handle_error handle_state_data_error
      report_update_status store_commit
  update_commit-gets_on u n w h = ground (arith, limit_pos env)

  pre_commit_retry-gets_on :
      (r : State) (k : ℕ) (w : World B)
      → is_well_formed (State.pre_commit_retry r k) ≡ true
      → gets_on (left (State.pre_commit_retry r k)) (handle_pre_commit_retry env r k w) ≡ true
  unfolding handle_pre_commit_retry handle_error
  pre_commit_retry-gets_on r k w f = ground (arith, limit_pos env)

  -- Sending reports comes to an end: from a state that sends them, within the bounds, the handler
  -- returns, and its wait was cancelled, or the next state sends none, or the bound for the
  -- transitions that are left has become smaller.
  pub reports_end :
      (s : State) (w : World B)
      → is_sending s ≡ true
      → is_bounded env s ≡ true
      → is_well_formed s ≡ true
      → gets_on (left s) (handle env s w) ≡ true
  unfolding handle
  reports_end (State.status_report u s n m) w i h f = status_report-gets_on u s n m w h
  reports_end (State.status_report_retry r u s k) w i h f = status_report_retry-gets_on r u s k w f
  reports_end (State.update_commit u n) w i h f = update_commit-gets_on u n w h
  reports_end (State.pre_commit_retry r k) w i h f = pre_commit_retry-gets_on r k w f
  reports_end _ w i h f = cc
