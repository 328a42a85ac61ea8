-- ===== src/App/Depends/Correct.antt =====
-- When the dependencies of an artifact are satisfied.
use mender.Prelude.{
  String, str_eq, eq_iff, true, Option, none, some, List, [], ◌∷◌, ◌≡◌, ◌↔◌, ◌⊎◌, inl, inr, refl,
  ap, ◌++◌, Bool, false, arith, Bool-cases, Option-cases,
}
use mender.Datastore.StateData.{Provides}
use mender.App.Depends.{
  Depend, lookup, elem, elem_in_slice, check_value, check_provided, check_depend, Found,
  verify_artifact_dependencies,
}

abbrev IsIn : String → List String → Type 0
IsIn p [] = ⊥
IsIn p (s ∷ ss) = (s ≡ p) ⊎ IsIn p ss

-- Elements that are all texts.
abbrev pub texts : List String → List (Option String)
texts [] = []
texts (s ∷ ss) = some s ∷ texts ss

-- The value stands in the list behind texts only.
abbrev IsInSlice : String → List (Option String) → Type 0
IsInSlice p es =
    (before : List String) × ((after : List (Option String)) × (es
        ≡ texts before ++ (some p ∷ after)))

empty_slice : (p : String) → IsInSlice p [] → ⊥
empty_slice p ([], (after, e)) = ground arith
empty_slice p (s ∷ before, (after, e)) = ground arith

none_first : (p : String) (es : List (Option String)) → IsInSlice p (none ∷ es) → ⊥
none_first p es ([], (after, e)) = ground arith
none_first p es (s ∷ before, (after, e)) = ground arith

text_first :
    (p s : String) (es : List (Option String))
    → IsInSlice p (some s ∷ es)
    → (s ≡ p) ⊎ IsInSlice p es
text_first p s es ([], (after, e)) = inl (ground arith)
text_first p s es (t ∷ before, (after, e)) = inr (before, (after, ground arith))

here_or_later :
    (p s : String) (es : List (Option String))
    → (s ≡ p) ⊎ IsInSlice p es
    → IsInSlice p (some s ∷ es)
here_or_later p s es (inl e) = ([], (es, rw e refl))
here_or_later p s es (inr (before, (after, e))) =
    (s ∷ before, (after, ap (λ (l : List (Option String)). some s ∷ l) e))

-- The value that is provided satisfies the dependency.
abbrev Satisfies : String → Depend → Type 0
Satisfies p (Depend.text d) = p ≡ d
Satisfies p (Depend.strings ds) = IsIn p ds
Satisfies p (Depend.interfaces es) = IsInSlice p es
Satisfies p Depend.invalid = ⊥

-- Each dependency but the device type is satisfied by the value provided under its name.
abbrev pub AllSatisfied : List (String × Depend) → Provides → Type 0
AllSatisfied [] provides = Unit
AllSatisfied ((key, d) ∷ rest) provides =
    ((key ≡ "device_type") ⊎ ((p : String) × (lookup key provides ≡ some p) × Satisfies p d))
    × AllSatisfied rest provides

elem_iff : (p : String) (ds : List String) → (elem p ds ≡ true) ↔ IsIn p ds
unfolding elem
elem_iff p [] = (λ e. cc, λ h. absurd h)
elem_iff p (s ∷ ss) =
    (ground (arith, eq_iff s p, elem_iff p ss), ground (arith, eq_iff s p, elem_iff p ss))

differ : (b : Bool) → b ≡ true → b ≡ false → ⊥
differ b h k = ground arith

elem_in_slice_iff :
    (p : String) (es : List (Option String)) → (elem_in_slice es p ≡ Found.found) ↔ IsInSlice p es
unfolding elem_in_slice
elem_in_slice_iff p [] = (λ e. cc, λ h. absurd (empty_slice p h))
elem_in_slice_iff p (none ∷ es) = (λ e. cc, λ h. absurd (none_first p es h))
elem_in_slice_iff p (some s ∷ es) =
    let i = elem_in_slice_iff p es in
    elim (Bool-cases (str_eq s p)) [
      | inl q ↦ (λ e. here_or_later p s es (inl ((eq_iff s p).0 q)), λ h. rw q refl)
      | inr q ↦ (
        rw q (λ e. here_or_later p s es (inr (i.0 e))),
        rw q (λ h. elim (text_first p s es h) [
          | inl e ↦ absurd (differ (str_eq s p) ((eq_iff s p).1 e) q)
          | inr k ↦ i.1 k
        ]),
      )
    ]

check_value_iff : (d : Depend) (p : String) → (check_value d p ≡ none) ↔ Satisfies p d
unfolding check_value
check_value_iff (Depend.text d) p = (ground (arith, eq_iff p d), ground (arith, eq_iff p d))
check_value_iff (Depend.strings ds) p =
    (ground (arith, elem_iff p ds), ground (arith, elem_iff p ds))
check_value_iff (Depend.interfaces es) p =
    (ground (arith, elem_in_slice_iff p es), ground (arith, elem_in_slice_iff p es))
check_value_iff Depend.invalid p = (λ e. cc, λ h. absurd h)

check_provided_iff :
    (d : Depend) (o : Option String)
    → (check_provided d o ≡ none) ↔ ((p : String) × (o ≡ some p) × Satisfies p d)
unfolding check_provided
check_provided_iff d none = (λ e. cc, λ h. cc (h.1))
check_provided_iff d (some p) = (
  λ e. (p, refl, (check_value_iff d p).0 e),
  λ h. ground (arith, check_value_iff d p, check_value_iff d h.0),
)

check_depend_iff :
    (key : String) (d : Depend) (provides : Provides)
    → (check_depend key d provides ≡ none)
      ↔ ((key ≡ "device_type") ⊎ ((p : String) × (lookup key provides ≡ some p) × Satisfies p d))
unfolding check_depend
check_depend_iff key d provides = elim (Bool-cases (str_eq key "device_type")) [
  | inl e ↦ (λ h. inl ((eq_iff key "device_type").0 e), λ h. rw e)
  | inr e ↦ (
    λ h. inr ((check_provided_iff d (lookup key provides)).0 (rw e at h)),
    λ h. elim h [
      | inl p ↦ cc (e, (eq_iff key "device_type").1 p)
      | inr q ↦ rw e ((check_provided_iff d (lookup key provides)).1 q)
    ],
  )
]

-- The check passes exactly if every dependency but the device type is satisfied by the value that
-- is provided under its name: equal to a text, among strings, or in a list behind texts only; a value
-- that stands behind an element of another kind does not satisfy it.
pub verify-iff-AllSatisfied :
    (depends : List (String × Depend)) (provides : Provides)
    → (verify_artifact_dependencies depends provides ≡ none) ↔ AllSatisfied depends provides
unfolding verify_artifact_dependencies
verify-iff-AllSatisfied [] provides = (λ _. tt, λ _. refl)
verify-iff-AllSatisfied ((key, d) ∷ rest) provides = (
  λ e. elim (Option-cases (check_depend key d provides)) [
    | inl q ↦ (
      (check_depend_iff key d provides).0 q,
      (verify-iff-AllSatisfied rest provides).0 (ground arith),
    )
    | inr x ↦ absurd (ground (arith, x.1))
  ],
  λ h.
      let q = (check_depend_iff key d provides).1 h.0 in
      let r = (verify-iff-AllSatisfied rest provides).1 h.1 in ground arith,
)
