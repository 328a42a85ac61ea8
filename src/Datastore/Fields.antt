-- ===== src/Datastore/Fields.antt =====
-- The state names, the rollback flag and the list of requested reboots of datastore/statedata.go.
use mender.Prelude.{
  ℕ, zero, suc, ◌≡◌, refl, some, List, [], ◌∷◌, ◌++◌, ◌<◌, ◌≤◌, ◌⊎◌, ok, arith, length, get_elem?,
}
use mender.Datastore.StateData.{
  MenderState, state_name, unmarshal_state, RebootType, known_reboot_type, get_reboot_requested,
  set_reboot_requested,
}

-- The name under which a state is saved is read back as that state.
unmarshal-state_name : (m : MenderState) → unmarshal_state (state_name m) ≡ ok m
unfolding unmarshal_state
unmarshal-state_name MenderState.init = refl
unmarshal-state_name _ = refl

module _ {A : Type 0} where
  get_elem?-append_left :
      (xs ys : List A) (n : ℕ) → n < length xs → get_elem? (xs ++ ys) n ≡ get_elem? xs n
  get_elem?-append_left [] ys n h = elim h [ ]
  get_elem?-append_left (x ∷ xs) ys zero h = refl
  get_elem?-append_left (x ∷ xs) ys (suc n) h = get_elem?-append_left xs ys n (omega arith)

  get_elem?-append_length : (xs : List A) (y : A) → get_elem? (xs ++ y ∷ []) (length xs) ≡ some y
  get_elem?-append_length [] y = refl
  get_elem?-append_length (x ∷ xs) y = get_elem?-append_length xs y

-- `Set` accepts payload n exactly if the payloads before it, and no more, have been set. `Get` then
-- returns what was set for payload n (an error for a
-- value that is none of the constants), and for the payloads before it what it returned before.
get-set_reboot_requested :
    (r r' : List RebootType) (n k : ℕ) (t : RebootType)
    → set_reboot_requested r n t ≡ ok r'
    → (n ≡ length r)
      × (get_reboot_requested r' n ≡ known_reboot_type t)
      × ((n ≤ k) ⊎ (get_reboot_requested r' k ≡ get_reboot_requested r k))
unfolding set_reboot_requested get_reboot_requested
get-set_reboot_requested r r' n k t h = (
  ground arith,
  ground (arith, get_elem?-append_length r t),
  ground (arith, get_elem?-append_left r (t ∷ []) k),
)
