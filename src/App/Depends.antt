-- ===== src/App/Depends.antt =====
-- verifyArtifactDependencies of app/mender.go, with ElemInSlice of utils/compare.go as it calls it.
use mender.Prelude.{
  String, str_eq, Bool, true, false, Option, none, some, List, [], ◌∷◌, Error, other, if◌then◌else◌,
}
use mender.Datastore.StateData.{Provides}
pub mod Correct

-- The values that an artifact may depend on: `interfaces` is a []interface{} as JSON decodes it,
-- whose elements that are no strings are `none`; `invalid` is any other type.
pub data Depend : Type 0 where
  text : String → Depend
  strings : List String → Depend
  interfaces : List (Option String) → Depend
  invalid : Depend

unfoldable pub lookup : String → Provides → Option String
lookup k [] = none
lookup k ((j, v) ∷ m) = if str_eq j k then some v else lookup k m

unfoldable pub elem : String → List String → Bool
elem p [] = false
elem p (s ∷ ss) = if str_eq s p then true else elem p ss

pub data Found : Type 0 where
  found missing invalid_type : Found

-- ElemInSlice on a []interface{} and a string: the kinds are compared at each element.
unfoldable pub elem_in_slice : List (Option String) → String → Found
elem_in_slice [] p = Found.missing
elem_in_slice (none ∷ es) p = Found.invalid_type
elem_in_slice (some s ∷ es) p = if str_eq s p then Found.found else elem_in_slice es p

abbrev pub not_satisfied : Error
not_satisfied = other "Artifact dependency not satisfied by currently installed artifact"

abbrev pub invalid_depends : Error
invalid_depends = other "invalid type for dependency"

of_found : Found → Option Error
of_found Found.found = none
of_found Found.missing = some not_satisfied
of_found Found.invalid_type = some invalid_depends

-- One dependency against the value that is provided under its name.
unfoldable pub check_value : Depend → String → Option Error
unfolding elem elem_in_slice of_found
check_value (Depend.text d) p = if str_eq p d then none else some not_satisfied
check_value (Depend.strings ds) p = if elem p ds then none else some not_satisfied
check_value (Depend.interfaces es) p = of_found (elem_in_slice es p)
check_value Depend.invalid p = some invalid_depends

unfoldable pub check_provided : Depend → Option String → Option Error
unfolding check_value
check_provided d none = some not_satisfied
check_provided d (some p) = check_value d p

-- "device_type" is handled elsewhere.
unfoldable pub check_depend : String → Depend → Provides → Option Error
unfolding check_provided lookup
check_depend key d provides =
    if str_eq key "device_type" then none else check_provided d (lookup key provides)

-- The first error in the order of the map's entries.
unfoldable pub verify_artifact_dependencies : List (String × Depend) → Provides → Option Error
unfolding check_depend
verify_artifact_dependencies [] provides = none
verify_artifact_dependencies ((key, d) ∷ rest) provides = elim (check_depend key d provides) [
  | none ↦ verify_artifact_dependencies rest provides
  | some e ↦ some e
]
