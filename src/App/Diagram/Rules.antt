-- ===== src/App/Diagram/Rules.antt =====
-- How the arrows of a handler follow from those of its parts.
use mender.Prelude.{refl, ℕ, ◌+◌, String, List, [], ◌∷◌, arith, ◌≡◌, Bool, true, false}
use mender.Datastore.StateData.{MenderState, UpdateInfo}
use mender.App.State.{Status}
use mender.App.Handle.Errors.{report_update_status, until_failure, for_all}
use mender.App.World.{
  Call, Env, Operation, store_update, M, World, Next, Outcome, done, panicked, continue,
}
use mender.App.Handle.Download.{Step, proceed, stop}
use mender.App.Diagram.{Kind, follows, follows_step}

module _ {A B : Type 0} where
  abbrev pub returns : Outcome B A → Bool
  returns (done a w) = true
  returns (panicked w) = false

module _ {A B : Type 0} (k : Kind) where
  pub follows-continue :
      (o : Outcome B A) (f : A → M B Next)
      → returns o ≡ true
      → ((a : A) (w : World B) → follows k (f a w) ≡ true)
      → follows k (continue o f) ≡ true
  follows-continue (done a w) f r h = h a w
  follows-continue (panicked w) f r h = cc

  pub follows-continue_step :
      (o : Outcome B (Step A)) (f : Step A → M B Next)
      → follows_step k o ≡ true
      → ((n : Next) (w : World B) → f (stop n) w ≡ done n w)
      → ((a : A) (w : World B) → follows k (f (proceed a) w) ≡ true)
      → follows k (continue o f) ≡ true
  follows-continue_step (done (proceed a) w) f s e h = h a w
  follows-continue_step (done (stop n) w) f s e h = rw e s
  follows-continue_step (panicked w) f s e h = s

  pub follows_step-continue_step :
      (o : Outcome B (Step A)) (f : Step A → M B (Step A))
      → follows_step k o ≡ true
      → ((n : Next) (w : World B) → f (stop n) w ≡ done (stop n) w)
      → ((a : A) (w : World B) → follows_step k (f (proceed a) w) ≡ true)
      → follows_step k (continue o f) ≡ true
  follows_step-continue_step (done (proceed a) w) f s e h = h a w
  follows_step-continue_step (done (stop n) w) f s e h = rw e s
  follows_step-continue_step (panicked w) f s e h = s

module _ {B : Type 0} (env : Env B) where
  pub returns-store_update :
      (name : MenderState) (u : UpdateInfo) (w : World B)
      → returns (store_update env name u w) ≡ true
  unfolding store_update
  returns-store_update name u w = refl

  pub returns-report_update_status :
      (u : UpdateInfo) (s : Status) (w : World B) → returns (report_update_status env u s w) ≡ true
  unfolding report_update_status
  returns-report_update_status u s w = ground arith

  pub returns-until_failure :
      (op : Operation) (ts : List String) (n : ℕ) (w : World B)
      → returns (until_failure env op ts n w) ≡ true
  unfolding until_failure
  returns-until_failure op [] n w = refl
  returns-until_failure op (t ∷ ts) n w = ground (
    arith,
    returns-until_failure op ts (n + 1) (record w { calls = Call.installer n op ∷ w.calls }),
  )

  pub returns-for_all :
      (op : Operation) (ts : List String) (n : ℕ) (w : World B)
      → returns (for_all env op ts n w) ≡ true
  unfolding for_all
  returns-for_all op [] n w = refl
  returns-for_all op (t ∷ ts) n w = grind (arith, returns-for_all op ts (n + 1))
