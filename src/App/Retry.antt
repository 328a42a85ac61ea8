-- ===== src/App/Retry.antt =====
-- How often a status report is sent.
pub mod Ends
use mender.Prelude.{
  ℕ, ◌+◌, ◌*◌, ◌/◌, ◌≡◌, ◌≤◌, ◌<◌, ◌⊎◌, arith, Bool, true, false, ltb, leb, ◌==◌, ◌&&◌, ◌||◌,
}
use mender.Datastore.StateData.{UpdateInfo}
use mender.App.State.{Status, State, new_status_report, new_update_commit}
use mender.App.World.{Env, World, Next, Outcome, done, panicked}
use mender.App.Handle.Errors.{wait, handle_error, handle_state_data_error}
use mender.App.Diagram.{is_well_formed}
use mender.App.Transit.{handle}
use mender.App.Handle.Commit.{
  max_sending_attempts, max_try_sending, handle_update_commit, handle_pre_commit_retry,
  record_commit,
}
use mender.App.Handle.Report.{
  handle_status_report, handle_status_report_retry, send_deployment_logs,
}

-- At least the minimum, at most ten or the minimum, and no more than twice as often as the retry
-- interval goes into the poll interval, unless that is the minimum.
max_sending_attempts_bounds :
    (upi rpi min_retries : ℕ)
    → (min_retries ≤ max_sending_attempts upi rpi min_retries
        ⊎ (10 ≡ max_sending_attempts upi rpi min_retries))
      × ((max_sending_attempts upi rpi min_retries ≤ 10)
          ⊎ (max_sending_attempts upi rpi min_retries ≡ min_retries))
      × ((max_sending_attempts upi rpi min_retries ≤ upi / rpi * 2)
          ⊎ (max_sending_attempts upi rpi min_retries ≡ min_retries))
unfolding max_sending_attempts
max_sending_attempts_bounds upi rpi m = (ground arith, ground arith, ground arith)

abbrev pub is_sending : State → Bool
is_sending (State.status_report u s n m) = true
is_sending (State.status_report_retry r u s k) = true
is_sending (State.update_commit u n) = true
is_sending (State.pre_commit_retry r k) = true
is_sending _ = false

module _ {B : Type 0} (env : Env B) where
  abbrev pub limit : ℕ
  limit = max_try_sending env

  -- The counters of a state that sends reports: the status report has been sent fewer than `limit`
  -- times more than the logs, and those fewer than `limit` times. In the retry state the counter
  -- that it tests may be at the limit.
  abbrev pub is_bounded : State → Bool
  is_bounded (State.status_report u s n m) = ltb n (m + limit) && ltb m limit
  is_bounded (State.status_report_retry (State.status_report u s n m) v t k) =
      leb n (m + limit)
      && (leb m limit && ((k == n && ltb m limit) || (k == m && ltb n (m + limit))))
  is_bounded (State.update_commit u n) = ltb n limit
  is_bounded (State.pre_commit_retry (State.update_commit u n) k) = leb n limit && k == n
  is_bounded _ = true

  abbrev pub ends_bounded : Outcome B Next → Bool
  ends_bounded (done n w) = is_bounded n.0
  ends_bounded (panicked w) = true

  pub limit_pos : 1 < max_try_sending env
  unfolding max_sending_attempts
  limit_pos = ground arith

  status_report-bounded :
      (u : UpdateInfo) (s : Status) (n m : ℕ) (w : World B)
      → is_bounded (State.status_report u s n m) ≡ true
      → ends_bounded (handle_status_report env u s n m w) ≡ true
  unfolding handle_status_report send_deployment_logs
  status_report-bounded u s n m w h = ground arith

  status_report_retry-bounded :
      (r : State) (u : UpdateInfo) (s : Status) (k : ℕ) (w : World B)
      → is_bounded (State.status_report_retry r u s k) ≡ true
      → is_well_formed (State.status_report_retry r u s k) ≡ true
      → ends_bounded (handle_status_report_retry env r u s k w) ≡ true
  unfolding handle_status_report_retry wait
  status_report_retry-bounded r u s k w h f = ground arith

  update_commit-bounded :
      (u : UpdateInfo) (n : ℕ) (w : World B)
      → is_bounded (State.update_commit u n) ≡ true
      → ends_bounded (handle_update_commit env u n w) ≡ true
  unfolding handle_update_commit record_commit handle_error handle_state_data_error
  update_commit-bounded u n w h = ground (arith, limit_pos)

  pre_commit_retry-bounded :
      (r : State) (k : ℕ) (w : World B)
      → is_bounded (State.pre_commit_retry r k) ≡ true
      → is_well_formed (State.pre_commit_retry r k) ≡ true
      → ends_bounded (handle_pre_commit_retry env r k w) ≡ true
  unfolding handle_pre_commit_retry handle_error
  pre_commit_retry-bounded r k w h f = ground arith

  -- The number of reports sent stays bounded: whatever the server answers, from a status report, a
  -- commit or one of their retries, whose counters are within the bounds, a handler leads to a
  -- state whose counters are within them too: `limit` sends of the logs, twice as many of the
  -- status, and `limit` of the report before a commit.
  reports_bounded :
      (s : State) (w : World B)
      → is_sending s ≡ true
      → is_bounded s ≡ true
      → is_well_formed s ≡ true
      → ends_bounded (handle env s w) ≡ true
  unfolding handle
  reports_bounded (State.status_report u s n m) w i h f = status_report-bounded u s n m w h
  reports_bounded (State.status_report_retry r u s k) w i h f =
      status_report_retry-bounded r u s k w h f
  reports_bounded (State.update_commit u n) w i h f = update_commit-bounded u n w h
  reports_bounded (State.pre_commit_retry r k) w i h f = pre_commit_retry-bounded r k w h f
  reports_bounded _ w i h f = cc

  -- A status report and a commit that have not been tried are within the bounds.
  pub new_bounded :
      (u : UpdateInfo) (s : Status)
      → (is_bounded (new_status_report u s) ≡ true) × (is_bounded (new_update_commit u) ≡ true)
  new_bounded u s = ground (arith, limit_pos)
