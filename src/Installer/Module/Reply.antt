-- ===== src/Installer/Module/Reply.antt =====
-- What the client makes of a module's replies, and how often it cleans up.
use mender.Prelude.{
  ◌≡◌, ◌⊎◌, inl, inr, refl, arith, Bool, Bool-cases, true, Option, none, some, [], ◌∷◌, ◌||◌, Error,
  other, if◌then◌else◌,
}
use mender.Text.{Text, text, text_eq, text_eq_sound, is_empty}
use mender.App.World.{RebootAction}
use mender.Installer.Module.Call.{
  ModuleInstaller, ModuleEnv, ModuleWorld, call_module, needs_reboot, reboot_reply, simple_call,
  cleanup,
}

empty_sound : (t : Text) → is_empty t ≡ true → t ≡ []
empty_sound [] h = refl
empty_sound (c ∷ t) h = ground arith

pub record Understood (output : Text) (a : RebootAction) : Type 0 where
  pub by_no : a ≡ RebootAction.no_reboot → (output ≡ []) ⊎ (output ≡ text "No")
  pub by_yes : a ≡ RebootAction.reboot_required → output ≡ text "Yes"
  pub by_automatic : a ≡ RebootAction.automatic_reboot → output ≡ text "Automatic"

abbrev unexpected : Error
unexpected = other "Unexpected reply from update module NeedsArtifactReboot query"

abbrev pick : Bool → Bool → Bool → RebootAction × Option Error
pick n y a =
    if n
    then (RebootAction.no_reboot, none)
    else if y
    then (RebootAction.reboot_required, none)
    else if a
    then (RebootAction.automatic_reboot, none)
    else (RebootAction.no_reboot, some unexpected)

choice :
    (n y a : Bool)
    → (pick n y a).1 ≡ none
    → ((pick n y a).0 ≡ RebootAction.no_reboot → n ≡ true)
      × (((pick n y a).0 ≡ RebootAction.reboot_required → y ≡ true)
          × ((pick n y a).0 ≡ RebootAction.automatic_reboot → a ≡ true))
choice n y a h = (λ k. (ground arith), (λ k. (ground arith), λ k. (ground arith)))

module _ (env : ModuleEnv) where
  empty_or_no :
      (t : Text) → (is_empty t || text_eq t (text "No")) ≡ true → (t ≡ []) ⊎ (t ≡ text "No")
  empty_or_no t h = elim (Bool-cases (is_empty t)) [
    | inl e ↦ inl (empty_sound t e)
    | inr e ↦ inr (text_eq_sound t (text "No") (ground arith))
  ]

  reboot_reply-Understood :
      (r : Text × Option Error)
      → (reboot_reply env r).1 ≡ none
      → (r.1 ≡ none) × Understood r.0 (reboot_reply env r).0
  reboot_reply-Understood (output, some e) h = ground arith
  reboot_reply-Understood (output, none) h =
      let (n, (y, a)) =
        choice (is_empty output || text_eq output (text "No")) (text_eq output (text "Yes"))
          (text_eq output (text "Automatic")) h in
      (
        refl,
        record {
          by_no = λ k. empty_or_no output (n k);
          by_yes = λ k. text_eq_sound output (text "Yes") (y k);
          by_automatic = λ k. text_eq_sound output (text "Automatic") (a k);
        },
      )

  -- NeedsReboot reports no error only if the module was called and reported none, and then the
  -- answer is the module's: no reboot if it wrote nothing or No, a reboot of its own if it wrote Yes,
  -- and a reboot of the host if it wrote Automatic, up to line ends.
  needs_reboot-Understood :
      (mod' : ModuleInstaller) (w : ModuleWorld)
      → (needs_reboot env mod' w).0.1 ≡ none
      → ((call_module env mod' (text "NeedsArtifactReboot") true w).0.1 ≡ none)
        × Understood
            (call_module env mod' (text "NeedsArtifactReboot") true w).0.0
            (needs_reboot env mod' w).0.0
  unfolding needs_reboot
  needs_reboot-Understood mod' w h =
      reboot_reply-Understood (call_module env mod' (text "NeedsArtifactReboot") true w).0 h

  -- Cleaning up again, after the tree has been removed, calls nothing and changes nothing.
  cleanup-once :
      (mod' : ModuleInstaller) (w : ModuleWorld)
      → env.remove_all (simple_call env (text "Cleanup") mod' w).1.calls ≡ none
      → cleanup env mod' (cleanup env mod' w).1 ≡ (none, (cleanup env mod' w).1)
  unfolding cleanup call_module
  cleanup-once mod' w h = elim (Bool-cases w.has_tree) [
    | inl t ↦ rw (t, h) refl
    | inr t ↦ rw t refl
  ]
