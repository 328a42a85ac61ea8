-- ===== src/Installer/Module/Factory.antt =====
-- Making installers for the payloads of an artifact: ModuleInstallerFactory of installer/modules.go.
use mender.Prelude.{
  ℕ, ◌+◌, ◌*◌, ◌/◌, ◌%◌, ◌≡◌, ◌≢◌, ◌-◌, ◌≤◌, ◌<◌, refl, sym, ap, ◌∙◌, arith, ltb, ◌==◌, Bool, true,
  false, List, [], ◌∷◌, String, Error, other, Result, ok, err, if◌then◌else◌,
}
use mender.Text.{Text, ℤ}
use mender.Statescript.Launcher.{FileInfo, is_executable}
use mender.Installer.Module.Call.{ModuleInstaller, padded_loop, index_of, digit}

-- ModuleInstallerFactory
pub record Factory : Type 0 where
  pub modules_path : Text
  pub modules_work_path : Text
  pub module_timeout_secs : ℕ

-- Four hours.
abbrev pub default_module_timeout_secs : ℕ
default_module_timeout_secs = 14400

-- The configured seconds, or the default if there are none.
abbrev pub timeout_secs : ℤ → ℕ
timeout_secs (ℤ.negsuc n) = default_module_timeout_secs
timeout_secs (ℤ.pos n) = if n == 0 then default_module_timeout_secs else n

abbrev pub new_module_installer_factory : Text → Text → ℤ → Factory
new_module_installer_factory modules_path modules_work_path secs = record {
  modules_path = modules_path;
  modules_work_path = modules_work_path;
  module_timeout_secs = timeout_secs secs;
}

abbrev pub out_of_range : Error
out_of_range = other "Payload index out of range 0-9999"

-- The join of paths is a parameter.
unfoldable pub new_update_storer : (List Text → Text) → Factory → Text → ℤ → Result ModuleInstaller
new_update_storer join mf update_type (ℤ.negsuc n) = err out_of_range
new_update_storer join mf update_type (ℤ.pos payload_num) =
    if ltb 9999 payload_num
    then err out_of_range
    else ok (record {
      modules_path = mf.modules_path;
      modules_work_path = mf.modules_work_path;
      program_path = join (mf.modules_path ∷ (update_type ∷ []));
      module_timeout_secs = mf.module_timeout_secs;
      payload_index = payload_num;
      update_type = update_type;
    })

-- An entry of the directory of the modules.
pub record DirEntry : Type 0 where
  pub info : FileInfo
  pub is_dir : Bool

abbrev pub is_module : DirEntry → Bool
is_module e = if e.is_dir then false else is_executable e.info

unfoldable pub module_list : List DirEntry → List String
module_list [] = []
module_list (e ∷ es) = let rest = module_list es in if is_module e then e.info.name ∷ rest else rest

abbrev pub get_module_types : Result (List DirEntry) → List String
unfolding module_list
get_module_types (err e) = []
get_module_types (ok entries) = module_list entries

timeout_secs-positive : (n : ℤ) → 1 ≤ timeout_secs n
timeout_secs-positive (ℤ.negsuc n) = omega arith
timeout_secs-positive (ℤ.pos n) = ground arith

accepted :
    (join : List Text → Text) (mf : Factory) (update_type : Text) (n : ℤ) (mod' : ModuleInstaller)
    → new_update_storer join mf update_type n ≡ ok mod'
    → 1 ≤ mf.module_timeout_secs
    → (n ≡ ℤ.pos mod'.payload_index)
      × ((mod'.payload_index < 10000) × (1 ≤ mod'.module_timeout_secs))
unfolding new_update_storer
accepted join mf update_type (ℤ.negsuc n) mod' h k = ground arith
accepted join mf update_type (ℤ.pos n) mod' h k = ground arith

one_digit : (n : ℕ) → n < 10000 → ltb (n / 10 / 10 / 10) 10 ≡ true
one_digit n h = ground arith

four_digits :
    (n : ℕ)
    → n < 10000
    → index_of n
      ≡ digit (n / 10 / 10 / 10)
        ∷ (digit (n / 10 / 10 % 10) ∷ (digit (n / 10 % 10) ∷ (digit (n % 10) ∷ [])))
unfolding padded_loop
four_digits n h = let small : ltb (n / 10 / 10 / 10) 10 ≡ true = one_digit n h in rw small refl

-- The number that digits stand for.
abbrev value : ℕ → Text → ℕ
value acc [] = acc
value acc (c ∷ t) = value (acc * 10 + (c - b'0')) t

value-index_of : (n : ℕ) → n < 10000 → value 0 (index_of n) ≡ n
unfolding padded_loop
value-index_of n h = ap (λ (t : Text). value 0 t) (four_digits n h) ∙ omega (arith, h)

-- Installers that are made for payloads of different numbers name different directories, so that no
-- two payloads of an artifact share a tree; and each has a timeout.
new_update_storer-Distinct :
    (join : List Text → Text) (path work : Text) (secs : ℤ) (t t' : Text) (n n' : ℤ)
    (mod' mod'' : ModuleInstaller)
    → new_update_storer join (new_module_installer_factory path work secs) t n ≡ ok mod'
    → new_update_storer join (new_module_installer_factory path work secs) t' n' ≡ ok mod''
    → n ≢ n'
    → (index_of mod'.payload_index ≢ index_of mod''.payload_index) × (1 ≤ mod'.module_timeout_secs)
new_update_storer-Distinct join path work secs t t' n n' mod' mod'' h h' differ =
    let mf = new_module_installer_factory path work secs in
    let (e, (small, positive)) = accepted join mf t n mod' h (timeout_secs-positive secs) in
    let (e', (small', positive')) = accepted join mf t' n' mod'' h' (timeout_secs-positive secs) in
    (
      λ same. differ (
          e
          ∙ ap ℤ.pos (
              sym (value-index_of mod'.payload_index small)
              ∙ ap (λ (s : Text). value 0 s) same
              ∙ value-index_of mod''.payload_index small')
          ∙ sym e'),
      positive,
    )
