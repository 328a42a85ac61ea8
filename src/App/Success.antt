-- ===== src/App/Success.antt =====
-- Success is claimed only behind a commit: over one transition of the daemon.
use mender.Prelude.{
  ℕ, ◌≡◌, ◌⊎◌, inl, inr, refl, other, ◌∷◌, arith, Bool, true, false, not, if◌then◌else◌, Option,
  none, some, Error,
}
use mender.Datastore.StateData.{UpdateInfo}
use mender.App.Error.{MenderError, new_transient_error}
use mender.App.Transition.{Action, get_name, ignore_errors}
use mender.App.State.{Status, State, transition, should_transit}
use mender.App.World.{Call, Env, World, Next, Outcome, done, panicked, M, continue}
use mender.App.Handle.Errors.{handle_error, handle_state_data_error}
use mender.App.Handle.Report.{
  handle_update_cleanup, handle_status_report, handle_status_report_retry, send_deployment_logs,
}
use mender.App.Recovery.{claims_commit}
use mender.App.Diagram.{is_well_formed}
use mender.App.Diagram.Total.{handle-follows}
use mender.App.Committing.{Commits, Commits-update_commit}
use mender.App.Handle.Errors.{wait}
use mender.App.Transit.{
  handle, leave, report_of, leave_from, store_state, report_to, enter, enter_to, transition_state,
}

-- The state that a restart begins with.
abbrev pub is_init : State → Bool
is_init State.init = true
is_init _ = false

module _ {B : Type 0} where
  -- The next state claims no commit.
  abbrev pub unclaimed : Outcome B Next → Bool
  unclaimed (done n w) = not (claims_commit n.0)
  unclaimed (panicked w) = true

  -- The same of a part of a transition that may end it.
  abbrev unclaimed_part : Outcome B (Option Next) → Bool
  unclaimed_part (done (some n) w) = not (claims_commit n.0)
  unclaimed_part (done none w) = true
  unclaimed_part (panicked w) = true

module _ {B : Type 0} (env : Env B) where
  -- A commit has the new artifact in the database if it claims it; other states do not claim it.
  abbrev pub ClaimsInstalled : State → Outcome B Next → Type 0
  ClaimsInstalled (State.update_commit u k) o = Commits env u o ⊎ (unclaimed o ≡ true)
  ClaimsInstalled _ o = unclaimed o ≡ true

  unclaimed-ClaimsInstalled :
      (s : State) (o : Outcome B Next) → unclaimed o ≡ true → ClaimsInstalled s o
  unclaimed-ClaimsInstalled (State.update_commit u k) o h = inr h
  unclaimed-ClaimsInstalled _ o h = h

  unclaimed-handle_error :
      (s : State) (e : MenderError) (w : World B) → unclaimed (handle_error env s e w) ≡ true
  unfolding handle_error
  unclaimed-handle_error State.init e w = refl
  unclaimed-handle_error _ e w = ground arith

  unclaimed-handle_state_data_error :
      (n : Next) (u : UpdateInfo) (e : Error) (w : World B)
      → claims_commit n.0 ≡ false
      → unclaimed (handle_state_data_error env n u e w) ≡ true
  unfolding handle_state_data_error
  unclaimed-handle_state_data_error n u e w h = ground arith

  unclaimed-leave_from :
      (from to : State) (w : World B) → unclaimed_part (leave_from env from to w) ≡ true
  unfolding leave_from leave
  unclaimed-leave_from from to w = ground (
    arith,
    unclaimed-handle_error from (new_transient_error (other "error executing leave script"))
        (record w {
          calls =
              Call.execute_all (get_name (transition from) Action.leave) Action.leave
                (ignore_errors (transition from)) (report_of to)
              ∷ w.calls;
        }),
  )

  unclaimed-store_state : (to : State) (w : World B) → unclaimed_part (store_state env to w) ≡ true
  unfolding store_state
  unclaimed-store_state to w =
      grind (arith, unclaimed-handle_error to, unclaimed-handle_state_data_error)

  unclaimed-status_report_retry :
      (r : State) (u : UpdateInfo) (s : Status) (n : ℕ) (w : World B)
      → claims_commit (State.status_report_retry r u s n) ≡ false
      → unclaimed (handle env (State.status_report_retry r u s n) w) ≡ true
  unfolding handle handle_status_report_retry wait
  unclaimed-status_report_retry r u Status.success n w c = cc
  unclaimed-status_report_retry r u _ n w c = ground arith

  unclaimed-status_report :
      (u : UpdateInfo) (s : Status) (n m : ℕ) (w : World B)
      → claims_commit (State.status_report u s n m) ≡ false
      → unclaimed (handle env (State.status_report u s n m) w) ≡ true
  unfolding handle handle_status_report send_deployment_logs
  unclaimed-status_report u Status.success n m w c = cc
  unclaimed-status_report u _ n m w c = ground arith

  unclaimed-update_cleanup :
      (u : UpdateInfo) (s : Status) (w : World B)
      → claims_commit (State.update_cleanup u s) ≡ false
      → unclaimed (handle env (State.update_cleanup u s) w) ≡ true
  unfolding handle handle_update_cleanup
  unclaimed-update_cleanup u Status.success w c = cc
  unclaimed-update_cleanup u _ w c = ground arith

  Commits-handle :
      (u : UpdateInfo) (k : ℕ) (w : World B)
      → Commits env u (handle env (State.update_commit u k) w)
  unfolding handle
  Commits-handle u k w = Commits-update_commit env u k w

  handle-ClaimsInstalled :
      (s : State) (w : World B)
      → is_well_formed s ≡ true
      → is_init s ≡ false
      → claims_commit s ≡ false
      → ClaimsInstalled s (handle env s w)
  handle-ClaimsInstalled (State.update_commit u k) w f i c = inl (Commits-handle u k w)
  handle-ClaimsInstalled (State.update_cleanup u s) w f i c = unclaimed-update_cleanup u s w c
  handle-ClaimsInstalled (State.status_report u s n m) w f i c = unclaimed-status_report u s n m w c
  handle-ClaimsInstalled (State.status_report_retry r u s n) w f i c =
      unclaimed-status_report_retry r u s n w c
  handle-ClaimsInstalled State.init w f i c = cc
  handle-ClaimsInstalled s w f i c = ground (arith, handle-follows env s w f)

  module _ (s : State) where
    ClaimsInstalled-if :
        (b : Bool) (m n : M B Next) (w : World B)
        → ClaimsInstalled s (m w)
        → ClaimsInstalled s (n w)
        → ClaimsInstalled s ((if b then m else n) w)
    ClaimsInstalled-if true m n w h k = h
    ClaimsInstalled-if false m n w h k = k

    ClaimsInstalled-continue :
        {A : Type 0} (o : Outcome B A) (f : A → M B Next)
        → ((a : A) (w : World B) → ClaimsInstalled s (f a w))
        → ClaimsInstalled s (continue o f)
    ClaimsInstalled-continue (done a w) f h = h a w
    ClaimsInstalled-continue (panicked w) f h = unclaimed-ClaimsInstalled s (panicked w) refl

    ClaimsInstalled-continue_part :
        (o : Outcome B (Option Next)) (f : Option Next → M B Next)
        → unclaimed_part o ≡ true
        → ((n : Next) (w : World B) → f (some n) w ≡ done n w)
        → ((w : World B) → ClaimsInstalled s (f none w))
        → ClaimsInstalled s (continue o f)
    ClaimsInstalled-continue_part (done none w) f u e h = h w
    ClaimsInstalled-continue_part (done (some n) w) f u e h =
        unclaimed-ClaimsInstalled s (f (some n) w) (rw (e n w) u)
    ClaimsInstalled-continue_part (panicked w) f u e h =
        unclaimed-ClaimsInstalled s (panicked w) refl

  ClaimsInstalled-enter_to :
      (from to : State) (w : World B)
      → is_well_formed to ≡ true
      → is_init to ≡ false
      → claims_commit to ≡ false
      → ClaimsInstalled to (enter_to env from to w)
  unfolding enter_to report_to
  ClaimsInstalled-enter_to from to w f i c =
      ClaimsInstalled-if to (not (should_transit from to)) (handle env to) _ w
        (handle-ClaimsInstalled to w f i c)
        (ClaimsInstalled-continue to (enter env (transition to) (report_to env from to) w) _ (elim [
          | none ↦ λ w'. handle-ClaimsInstalled to w' f i c
          | some x ↦ λ w'. unclaimed-ClaimsInstalled to _ (
              unclaimed-handle_error to (new_transient_error (other "error calling enter script"))
                w')
        ]))

  -- From a well-formed state that claims no commit, and is not the one that a restart begins with, a transition
  -- leads to a state that claims none either, except from the commit itself: there the database says
  -- that the new artifact is installed, or no commit is claimed.
  pub success_needs_commit :
      (to : State) (w : World B)
      → is_well_formed to ≡ true
      → is_init to ≡ false
      → claims_commit to ≡ false
      → ClaimsInstalled to (transition_state env to w)
  unfolding transition_state
  success_needs_commit to w f i c =
      ClaimsInstalled-continue_part to (leave_from env w.current to w) _
        (unclaimed-leave_from w.current to w) (λ n w'. refl)
        (λ w'.
          ClaimsInstalled-continue_part to (store_state env to (record w' { current = to })) _
            (unclaimed-store_state to (record w' { current = to })) (λ n w''. refl)
            (λ w''. ClaimsInstalled-enter_to w.current to w'' f i c))
