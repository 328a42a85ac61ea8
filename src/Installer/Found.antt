-- ===== src/Installer/Found.antt =====
-- Searching for the partition that runs.
use mender.Prelude.{
  ◌≡◌, ◌⊎◌, inl, inr, refl, Bool, Bool-cases, true, false, Option, none, some, List, [], ◌∷◌, Error,
  other, ok, err, Result, arith, if◌then◌else◌,
}
use mender.Text.{Text, is_empty}
use mender.Installer.BootEnv.{BootEnv}
use mender.Installer.Partitions.{
  System, Partitions, Rootfs, has_suffix, from_devices, search_devices,
  get_root_from_mounted_devices, get_boot_env_active_partition, get_root_candidate_from_mount,
  find_active, cache_active, with_boot_part, with_mounts, get_and_cache_active_partition,
  get_active,
}

-- A partition runs: it is mounted as the root, or the boot environment names it as its active one.
abbrev pub Runs : System → Text → Text → Type 0
Runs sys boot_part x = (sys.is_mounted_root x ≡ true) ⊎ (has_suffix x boot_part ≡ true)

module _ (sys : System) (no_device : sys.is_mounted_root [] ≡ false) where
  get_root_from_mounted_devices-nonempty :
      (ds : List Text) (x : Text)
      → get_root_from_mounted_devices sys ds ≡ some x
      → is_empty x ≡ false
  get_root_from_mounted_devices-nonempty [] x h = ground arith
  get_root_from_mounted_devices-nonempty ([] ∷ ds) x h =
      ground (arith, get_root_from_mounted_devices-nonempty ds x)
  get_root_from_mounted_devices-nonempty ((c ∷ d) ∷ ds) x h =
      ground (arith, get_root_from_mounted_devices-nonempty ds x)

  from_devices-nonempty :
      (p : Partitions) (boot_part : Text) (o : Option Text) (x : Text)
      → is_empty p.rootfs_part_a ≡ false
      → is_empty p.rootfs_part_b ≡ false
      → ((y : Text) → o ≡ some y → is_empty y ≡ false)
      → from_devices sys p boot_part o ≡ ok x
      → is_empty x ≡ false
  from_devices-nonempty p boot_part none x ha hb hy h = ground arith
  from_devices-nonempty p boot_part (some y) x ha hb hy h = ground (arith, hy y refl)

  search_devices-nonempty :
      (p : Partitions) (boot_part : Text) (ds : Result (List Text)) (x : Text)
      → is_empty p.rootfs_part_a ≡ false
      → is_empty p.rootfs_part_b ≡ false
      → search_devices sys p boot_part ds ≡ ok x
      → is_empty x ≡ false
  search_devices-nonempty p boot_part (err e) x ha hb h = ground arith
  search_devices-nonempty p boot_part (ok ds) x ha hb h =
      from_devices-nonempty p boot_part (get_root_from_mounted_devices sys ds) x ha hb
        (get_root_from_mounted_devices-nonempty ds) h

  find_active-nonempty :
      (p : Partitions) (boot_part candidate : Text) (x : Text)
      → is_empty p.rootfs_part_a ≡ false
      → is_empty p.rootfs_part_b ≡ false
      → find_active sys p boot_part candidate ≡ ok x
      → is_empty x ≡ false
  unfolding find_active
  find_active-nonempty p boot_part candidate x ha hb h =
      ground (arith, search_devices-nonempty p boot_part sys.mounted_devices x ha hb)

  from_devices-Runs :
      (p : Partitions) (boot_part : Text) (o : Option Text) (x : Text)
      → from_devices sys p boot_part o ≡ ok x
      → has_suffix x boot_part ≡ true
  from_devices-Runs p boot_part none x h = ground arith
  from_devices-Runs p boot_part (some y) x h = ground arith

  search_devices-Runs :
      (p : Partitions) (boot_part : Text) (ds : Result (List Text)) (x : Text)
      → search_devices sys p boot_part ds ≡ ok x
      → has_suffix x boot_part ≡ true
  search_devices-Runs p boot_part (err e) x h = ground arith
  search_devices-Runs p boot_part (ok ds) x h =
      from_devices-Runs p boot_part (get_root_from_mounted_devices sys ds) x h

  find_active-Runs :
      (p : Partitions) (boot_part candidate : Text) (x : Text)
      → find_active sys p boot_part candidate ≡ ok x
      → Runs sys boot_part x
  unfolding find_active
  find_active-Runs p boot_part candidate x h =
      ground (arith, search_devices-Runs p boot_part sys.mounted_devices x)

  module _ {E : Type 0} (boot : BootEnv E) (boot_part : Text) where
    -- The active partition was found, and is remembered, or nothing has changed.
    pub record IsFound (before : Partitions) (x : Text) (r : Result Text × Rootfs E) : Type 0 where
      pub found : r.0 ≡ ok x
      pub nonempty : is_empty x ≡ false
      pub runs : Runs sys boot_part x
      pub cached : r.1.parts ≡ record before { active = x }

    pub record IsLost (before : Partitions) (r : Result Text × Rootfs E) : Type 0 where
      pub error : Error
      pub lost : r.0 ≡ err error
      pub kept : r.1.parts ≡ before

    abbrev pub Search : Partitions → Result Text × Rootfs E → Type 0
    Search before r = IsLost before r ⊎ ((x : Text) × IsFound before x r)

    cache_active-Search :
        (t : Result Text) (d : Rootfs E)
        → ((x : Text) → t ≡ ok x → (is_empty x ≡ false) × Runs sys boot_part x)
        → Search d.parts (cache_active sys boot t d)
    cache_active-Search (err e) d h = inl (record { error = e; lost = refl; kept = refl })
    cache_active-Search (ok x) d h =
        inr
          (x, record { found = refl; nonempty = (h x refl).0; runs = (h x refl).1; cached = refl })

    -- The boot environment, if it can be read, names this partition.
    abbrev pub Names : E → Type 0
    Names e = (y : Text) → (get_boot_env_active_partition sys boot e).0 ≡ ok y → y ≡ boot_part

    remembered :
        (x : Text)
        → is_empty x ≡ false
        → (is_empty x ≡ true) ⊎ Runs sys boot_part x
        → Runs sys boot_part x
    remembered x h (inl e) = ground arith
    remembered x h (inr r) = r

    with_boot_part-Search :
        (mounts : Text) (t : Result Text × E) (d : Rootfs E)
        → is_empty d.parts.rootfs_part_a ≡ false
        → is_empty d.parts.rootfs_part_b ≡ false
        → ((y : Text) → t.0 ≡ ok y → y ≡ boot_part)
        → Search d.parts (with_boot_part sys boot mounts t d)
    with_boot_part-Search mounts (err e, s) d ha hb n =
        inl (record { error = e; lost = refl; kept = refl })
    with_boot_part-Search mounts (ok bp, s) d ha hb n =
        cache_active-Search (find_active sys d.parts bp (get_root_candidate_from_mount mounts))
          (record d { env = s })
          (λ x h. (
            find_active-nonempty d.parts bp (get_root_candidate_from_mount mounts) x ha hb h,
            rw (← n bp refl)
                (find_active-Runs d.parts bp (get_root_candidate_from_mount mounts) x h),
          ))

    either-Search :
        (p : Partitions) (b : Bool) (r s : Result Text × Rootfs E)
        → Search p r
        → Search p s
        → Search p (if b then r else s)
    either-Search p true r s h k = h
    either-Search p false r s h k = k

    with_mounts-Search :
        (mounts : Result Text) (d : Rootfs E)
        → is_empty d.parts.rootfs_part_a ≡ false
        → is_empty d.parts.rootfs_part_b ≡ false
        → Names d.env
        → Search d.parts (with_mounts sys boot mounts d)
    with_mounts-Search (err e) d ha hb n = inl (record { error = e; lost = refl; kept = refl })
    with_mounts-Search (ok mounts) d ha hb n =
        either-Search d.parts sys.can_stat_root _ _
          (with_boot_part-Search mounts (get_boot_env_active_partition sys boot d.env) d ha hb n)
          (inl (record { error = other "Can not find root device"; lost = refl; kept = refl }))

    pub get_active-Search :
        (d : Rootfs E)
        → is_empty d.parts.rootfs_part_a ≡ false
        → is_empty d.parts.rootfs_part_b ≡ false
        → Names d.env
        → (is_empty d.parts.active ≡ true) ⊎ Runs sys boot_part d.parts.active
        → Search d.parts (get_active sys boot d)
    unfolding get_active get_and_cache_active_partition
    get_active-Search d ha hb n known = elim (Bool-cases (is_empty d.parts.active)) [
      | inl h ↦ rw h (with_mounts-Search sys.mount_output d ha hb n)
      | inr h ↦ rw h (
          inr (
            d.parts.active,
            record {
              found = refl;
              nonempty = h;
              runs = remembered d.parts.active h known;
              cached = refl;
            },
          ))
    ]
