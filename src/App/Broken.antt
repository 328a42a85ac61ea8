-- ===== src/App/Broken.antt =====
-- Giving up an update: the flag on the artifact's name, and the loop that is broken off.
use Prim.Native.String.{◌++◌ as concat}
use mender.Prelude.{ℕ, ◌≡◌, Bool, true, false, none, some, arith}
use mender.Datastore.StateData.{UpdateInfo}
use mender.Datastore.Db.{put_store}
use mender.App.Error.{MenderError}
use mender.App.State.{State, update?}
use mender.App.World.{Env, World, Next, done, flag_broken}
use mender.App.Handle.Errors.{handle_error}

-- The states that end an update as failed, without a rollback before them.
abbrev pub is_given_up : State → Bool
is_given_up (State.update_error e u) = true
is_given_up (State.update_cleanup u s) = true
is_given_up _ = false

-- While an artifact is only downloaded, nothing of it is installed.
abbrev pub is_download : State → Bool
is_download (State.update_fetch u) = true
is_download (State.update_store s u) = true
is_download (State.update_after_store u) = true
is_download _ = false

-- The entry with the name of the installed artifact says that it is inconsistent.
abbrev pub IsFlagged : {B : Type 0} → Env B → UpdateInfo → World B → Type 0
IsFlagged env u w =
    w.store.db.name_entry
    ≡ some (env.json.to_bytes (concat u.artifact.artifact_name "_INCONSISTENT"))

module _ {B : Type 0} (env : Env B) (quiet : (n : ℕ) → env.faults n ≡ none) where
  flag_broken-IsFlagged :
      (u : UpdateInfo) (w : World B) → IsFlagged env u (flag_broken env u.artifact.artifact_name w)
  unfolding flag_broken put_store
  flag_broken-IsFlagged u w = ground (arith, quiet w.store.ops)

  -- If HandleError of a state of an update whose installation has begun gives the update up, without
  -- a rollback, then the database flags the artifact as inconsistent, if the database has no faults.
  pub given_up-IsFlagged :
      (s : State) (e : MenderError) (w w' : World B) (n : Next) (u : UpdateInfo)
      → update? s ≡ some u
      → is_download s ≡ false
      → handle_error env s e w ≡ done n w'
      → is_given_up n.0 ≡ true
      → IsFlagged env u w'
  unfolding handle_error update?
  given_up-IsFlagged State.init e w w' n u us d h g = cc
  given_up-IsFlagged _ e w w' n u us d h g = grind (arith, flag_broken-IsFlagged u)
