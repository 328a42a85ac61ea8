-- ===== src/Installer/Partitions.antt =====
-- The two partitions of installer/partitions.go: which one runs and which one does not. The system's
-- mounts, devices and links are parameters.
use mender.Prelude.{
  Bool, Option, none, some, List, [], ◌∷◌, Error, other, ok, err, Result, if◌then◌else◌, ◌&&◌, ◌||◌,
  not,
}
use mender.Text.{Text, text, text_eq, is_empty, split}
use mender.Installer.BootEnv.{BootEnv, value_of}

-- What the system answers while the process runs.
pub record System : Type 0 where
  -- the output of the command mount
  pub mount_output : Result Text
  pub can_stat_root : Bool
  -- whether a file is the device of the root directory
  pub is_mounted_root : Text → Bool
  pub mounted_devices : Result (List Text)
  -- filepath.EvalSymlinks and path.Dir
  pub eval_symlinks : Text → Result Text
  pub path_dir : Text → Text

-- The caches are empty where nothing is known.
pub record Partitions : Type 0 where
  pub rootfs_part_a : Text
  pub rootfs_part_b : Text
  pub active : Text
  pub inactive : Text

pub record Rootfs (E : Type 0) : Type 0 where
  pub parts : Partitions
  pub env : E

abbrev pub no_match_boot_part : Error
no_match_boot_part = other "No match between boot and root partitions."

-- strings.HasSuffix
unfoldable pub has_suffix : Text → Text → Bool
has_suffix [] p = is_empty p
has_suffix (c ∷ s) p = text_eq (c ∷ s) p || has_suffix s p

abbrev pub check_boot_env_and_root_partition_match : Text → Text → Bool
check_boot_env_and_root_partition_match boot_part_num root_part = has_suffix root_part boot_part_num

-- The first field of a line with a third field "/".
abbrev pub root_of_fields : List Text → Option Text
root_of_fields (device ∷ _ ∷ dir ∷ _) = if text_eq dir (text "/") then some device else none
root_of_fields _ = none

abbrev pub first_root : List Text → Text
first_root [] = []
first_root (line ∷ lines) = elim (root_of_fields (split b' ' line)) [
  | some device ↦ device
  | none ↦ first_root lines
]

unfoldable pub get_root_candidate_from_mount : Text → Text
unfolding split
get_root_candidate_from_mount data' = first_root (split 10 data')

module _ (sys : System) where
  abbrev pub get_root_from_mounted_devices : List Text → Option Text
  get_root_from_mounted_devices [] = none
  get_root_from_mounted_devices (d ∷ ds) =
      if sys.is_mounted_root d then some d else get_root_from_mounted_devices ds

  unfoldable pub maybe_resolve_link : Text → Text
  maybe_resolve_link unresolved = elim (sys.eval_symlinks unresolved) [
    | err e ↦ unresolved
    | ok resolved ↦
        if text_eq (sys.path_dir unresolved) (text "/dev/disk/by-partuuid")
        then resolved
        else unresolved
  ]

  -- The choice of the active partition, by the variable mender_boot_part.
  abbrev pub from_devices : Partitions → Text → Option Text → Result Text
  from_devices p boot_part none =
      if check_boot_env_and_root_partition_match boot_part p.rootfs_part_a
      then ok p.rootfs_part_a
      else if check_boot_env_and_root_partition_match boot_part p.rootfs_part_b
      then ok p.rootfs_part_b
      else err (other "Can not match active partition and any of mounted devices.")
  from_devices p boot_part (some active) =
      if check_boot_env_and_root_partition_match boot_part active
      then ok active
      else err no_match_boot_part

  abbrev pub search_devices : Partitions → Text → Result (List Text) → Result Text
  search_devices p boot_part (err e) = err e
  search_devices p boot_part (ok devices) =
      from_devices p boot_part (get_root_from_mounted_devices devices)

  unfoldable pub find_active : Partitions → Text → Text → Result Text
  unfolding has_suffix
  find_active p boot_part candidate =
      if not (is_empty candidate)
        && (sys.is_mounted_root candidate
            || check_boot_env_and_root_partition_match boot_part candidate)
      then ok candidate
      else search_devices p boot_part sys.mounted_devices

  module _ {E : Type 0} (boot : BootEnv E) where
    abbrev pub get_boot_env_active_partition : E → Result Text × E
    get_boot_env_active_partition e =
        let (vars, e') = boot.read_env ((text "mender_boot_part") ∷ []) e in
        (
          elim vars [
            | err x ↦ err (Error.wrap x)
            | ok vs ↦ ok (value_of (text "mender_boot_part") vs)
          ],
          e',
        )

    abbrev pub cache_active : Result Text → Rootfs E → Result Text × Rootfs E
    cache_active (err e) d = (err e, d)
    cache_active (ok active) d =
        (ok active, record d { parts = record d.parts { active = active } })

    -- What follows the reading of the boot environment.
    abbrev pub with_boot_part : Text → Result Text × E → Rootfs E → Result Text × Rootfs E
    with_boot_part mounts (err x, e) d = (err x, record d { env = e })
    with_boot_part mounts (ok boot_part, e) d =
        cache_active (find_active d.parts boot_part (get_root_candidate_from_mount mounts))
          (record d { env = e })

    -- What follows the command mount.
    abbrev pub with_mounts : Result Text → Rootfs E → Result Text × Rootfs E
    with_mounts (err x) d = (err x, d)
    with_mounts (ok mounts) d =
        if sys.can_stat_root
        then with_boot_part mounts (get_boot_env_active_partition d.env) d
        else (err (other "Can not find root device"), d)

    unfoldable pub get_and_cache_active_partition : Rootfs E → Result Text × Rootfs E
    unfolding find_active get_root_candidate_from_mount
    get_and_cache_active_partition d = with_mounts sys.mount_output d

    unfoldable pub get_active : Rootfs E → Result Text × Rootfs E
    get_active d =
        if is_empty d.parts.active then get_and_cache_active_partition d else (ok d.parts.active, d)

    abbrev pub cache_inactive : Text → Rootfs E → Result Text × Rootfs E
    cache_inactive inactive d =
        (ok inactive, record d { parts = record d.parts { inactive = inactive } })

    -- What follows the active partition.
    unfoldable pub other_than : Result Text → Rootfs E → Result Text × Rootfs E
    other_than (err x) d = (err x, d)
    other_than (ok active) d =
        if text_eq (maybe_resolve_link active) d.parts.rootfs_part_a
        then cache_inactive d.parts.rootfs_part_b d
        else if text_eq (maybe_resolve_link active) d.parts.rootfs_part_b
        then cache_inactive d.parts.rootfs_part_a d
        else (err (other "Active root partition matches neither RootfsPartA nor RootfsPartB."), d)

    unfoldable pub get_and_cache_inactive_partition : Rootfs E → Result Text × Rootfs E
    unfolding get_active other_than
    get_and_cache_inactive_partition d =
        if is_empty d.parts.rootfs_part_a || is_empty d.parts.rootfs_part_b
        then (err (other "RootfsPartA and RootfsPartB settings are not both set."), d)
        else if text_eq d.parts.rootfs_part_a d.parts.rootfs_part_b
        then (err (other "RootfsPartA and RootfsPartB cannot be set to the same value."), d)
        else let (active, d') = get_active d in other_than active d'

    unfoldable pub get_inactive : Rootfs E → Result Text × Rootfs E
    get_inactive d =
        if is_empty d.parts.inactive
        then get_and_cache_inactive_partition d
        else (ok d.parts.inactive, d)
