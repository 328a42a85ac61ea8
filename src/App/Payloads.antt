-- ===== src/App/Payloads.antt =====
-- What the loops over the payloads compute from the payloads' answers.
use mender.Prelude.{
  ℕ, ◌+◌, ◌≡◌, ◌⊎◌, ◌↔◌, refl, Bool, true, false, ◌&&◌, none, some, List, [], ◌∷◌, String, str_eq,
  eq_iff, ok, arith, if◌then◌else◌, other,
}
use mender.Datastore.StateData.{
  Provides, UpdateInfo, SupportsRollback, supported, not_supported, RebootType,
  get_reboot_requested, set_supports_rollback,
}
use mender.App.Error.{new_transient_error}
use mender.App.Depends.{lookup}
use mender.App.State.{State, new_update_commit}
use mender.App.World.{Env, World, result, Call}
use mender.App.Handle.Errors.{handle_error}
use mender.App.Handle.Download.{proceed, stop, supports_rollback_loop, take_provides, delete}
use mender.App.Handle.Install.{choose_reboot}

-- No payload asked for a reboot.
abbrev pub NoneRequested : List RebootType → List String → ℕ → Type 0
NoneRequested r [] n = Unit
NoneRequested r (t ∷ ts) n =
    (get_reboot_requested r n ≡ ok RebootType.no_reboot) × NoneRequested r ts (n + 1)

module _ {B : Type 0} (env : Env B) where
  -- The installation goes on to the commit exactly if every payload's stored answer is that it
  -- needs no reboot.
  choose_reboot-commit :
      (ts : List String) (n : ℕ) (u : UpdateInfo) (w : World B)
      → (result (choose_reboot env ts n u w) ≡ some (new_update_commit u, false))
        ↔ NoneRequested u.reboot_requested ts n
  unfolding choose_reboot handle_error
  choose_reboot-commit [] n u w = (λ e. tt, λ h. refl)
  choose_reboot-commit (t ∷ ts) n u w = (
    ground (arith, choose_reboot-commit ts (n + 1) u w),
    ground (arith, choose_reboot-commit ts (n + 1) u w),
  )

  abbrev pub flag : Bool → SupportsRollback
  flag b = if b then supported else not_supported

  -- The payloads from the n-th on answer alike.
  abbrev pub agree : (ℕ → Bool) → Bool → List String → ℕ → Bool
  agree f true [] n = true
  agree f false [] n = true
  agree f true (t ∷ ts) n = f n && agree f true ts (n + 1)
  agree f false (t ∷ ts) n = if f n then false else agree f false ts (n + 1)

  abbrev asked : World B → ℕ → ℕ → UpdateInfo → World B
  asked w stream n u = record w {
    calls = Call.supports_rollback n ∷ w.calls;
    current = State.update_store stream u;
  }

  -- Payloads that answer f: the loop goes on, with the flag unchanged, exactly if all answer what
  -- the flag already says, and otherwise ends in the error state of the update.
  supports_rollback_agree :
      (f : ℕ → Bool)
      → ((h : List Call) (n : ℕ) → env.supports_rollback_reply h n ≡ ok (f n))
      → (b : Bool) (stream : ℕ) (ts : List String) (n : ℕ) (u : UpdateInfo) (w : World B)
      → u.supports_rollback ≡ flag b
      → result (supports_rollback_loop env stream ts n u w)
        ≡ some (
            if agree f b ts n
            then proceed u
            else stop (
              State.update_error (new_transient_error (other "Conflicting rollback support")) u,
              false,
            ))
  unfolding supports_rollback_loop set_supports_rollback
  supports_rollback_agree f a true stream [] n u w e = refl
  supports_rollback_agree f a false stream [] n u w e = refl
  supports_rollback_agree f a true stream (t ∷ ts) n u w e = ground (
    arith,
    a w.calls n,
    supports_rollback_agree f a true stream ts (n + 1) u (asked w stream n u) e,
  )
  supports_rollback_agree f a false stream (t ∷ ts) n u w e = ground (
    arith,
    a w.calls n,
    supports_rollback_agree f a false stream ts (n + 1) u (asked w stream n u) e,
  )

lookup-delete :
    (k j : String) (p : Provides)
    → lookup j (delete k p) ≡ (if str_eq k j then none else lookup j p)
unfolding lookup delete
lookup-delete k j [] = ground arith
lookup-delete k j ((i, v) ∷ p) =
    ground (arith, lookup-delete k j p, eq_iff i k, eq_iff i j, eq_iff k j)

-- The provides of an artifact with a name: the name and the group are taken out of the entries that
-- are kept, all others stay, and the group, if there is one, becomes that of the
-- update.
take_provides_lem :
    (u u' : UpdateInfo) (p : Provides) (name : String) (k : String)
    → lookup "artifact_name" p ≡ some name
    → take_provides u (ok (some p)) ≡ ok u'
    → (lookup k u'.artifact.type_info_provides ≡ (
        if str_eq "artifact_group" k
        then none
        else if str_eq "artifact_name" k
        then none
        else lookup k p))
      × ((lookup "artifact_group" p ≡ none)
          ⊎ (lookup "artifact_group" p ≡ some u'.artifact.artifact_group))
unfolding take_provides
take_provides_lem u u' p name k l e = (
  ground (
    arith,
    lookup-delete "artifact_group" k (delete "artifact_name" p),
    lookup-delete "artifact_name" k p,
  ),
  ground (arith, lookup-delete "artifact_name" "artifact_group" p),
)
