-- ===== src/App/Standalone/Device.antt =====
-- What app/standalone.go acts on: the database of the device, and the calls of the installers, the
-- state scripts and the files of the device, to which an environment answers.
use mender.Prelude.{ℕ, ◌≡◌, String, Bool, Option, some, List, ◌∷◌, Error, Result}
use mender.Datastore.StateData.{Provides}
use mender.Datastore.Db.{Store, Faults}
use mender.Datastore.Persist.{Json}
use mender.App.Transition.{Action}
use mender.App.World.{Operation, RebootAction, Headers}

-- StandaloneStateData of datastore/standalone_data.go.
pub record StandaloneStateData : Type 0 where
  pub version : ℕ
  pub artifact_name : String
  pub artifact_group : String
  pub artifact_type_info_provides : Provides
  pub payload_types : List String

-- standaloneData: an installer is named by its index in the list of their types.
pub record StandaloneData : Type 0 where
  pub artifact_name : String
  pub artifact_group : String
  pub artifact_type_info_provides : Provides
  pub installers : List String

-- The calls that leave app/standalone.go.
pub data Call : Type 0 where
  new_client get_device_type store_payloads close_image dual_rootfs_verify_reboot : Call
  fetch_update fetch_update_from_file : String → Call
  read_headers get_manifest_data : Call
  execute_all : String → Action → Bool → Call
  installer : ℕ → Operation → Call
  supports_rollback needs_reboot : ℕ → Call
  create_installers : List String → Call

-- The environment answers each call, knowing all calls before it, the latest first.
pub record DeviceEnv (B : Type 0) : Type 0 where
  pub json : Json B
  pub marshal_standalone : StandaloneStateData → B
  pub unmarshal_standalone : B → Option StandaloneStateData
  pub unmarshal-marshal_standalone :
      (sd : StandaloneStateData) → unmarshal_standalone (marshal_standalone sd) ≡ some sd
  pub faults : Faults
  pub fails : List Call → Call → Option Error
  pub headers_reply : List Call → List String × Result Headers
  pub supports_rollback_reply : List Call → ℕ → Result Bool
  pub needs_reboot_reply : List Call → ℕ → Result RebootAction
  pub manifest_reply : List Call → Result String
  -- the factory of dual root file systems is configured
  pub has_dual_rootfs : Bool

pub record Device (B : Type 0) : Type 0 where
  pub store : Store B
  pub calls : List Call

abbrev pub S : Type 0 → Type 0 → Type 0
S B A = Device B → A × Device B

module _ {B A : Type 0} where
  abbrev pub pure : A → S B A
  pure a d = (a, d)

  -- A call, with the answer of the environment.
  abbrev pub ask : Call → (List Call → A) → S B A
  ask c f d = (f d.calls, record d { calls = c ∷ d.calls })

module _ {B A C : Type 0} where
  infixl 5 ◌>>=◌
  abbrev pub ◌>>=◌ : S B A → (A → S B C) → S B C
  ◌>>=◌ m f d = f (m d).0 (m d).1

module _ {B A : Type 0} where
  infixl 5 ◌>>◌
  abbrev pub ◌>>◌ : S B (Unit {0}) → S B A → S B A
  m >> n = m >>= λ _. n

module _ {B : Type 0} (env : DeviceEnv B) where
  abbrev pub call : Call → S B (Option Error)
  call c = ask c (λ h. env.fails h c)

  -- A call whose error is logged, at most.
  abbrev pub call_ : Call → S B (Unit {0})
  call_ c = ask c (λ h. tt)
