-- ===== src/Installer/DualRootfs.antt =====
-- The operations of dualRootfsDeviceImpl in installer/dual_rootfs_device.go on the boot environment.
-- Writing the image and the reboot itself are calls of the system.
use mender.Prelude.{
  ℕ, zero, suc, ◌+◌, ◌/◌, ◌%◌, ltb, Bool, true, false, Option, none, some, [], ◌∷◌, Error, other,
  ok, err, Result, if◌then◌else◌, ◌&&◌,
}
use mender.Text.{Text, text, text_eq, is_digit, atoi, ℤ}
use mender.Installer.BootEnv.{BootVars, BootEnv, lookup, value_of}
use mender.Installer.Partitions.{System, Rootfs, get_active, get_inactive}

abbrev all_digits : Text → Bool
all_digits [] = true
all_digits (c ∷ s) = is_digit c && all_digits s

-- partition[len(strings.TrimRight(partition, "0123456789")):]
unfoldable pub trailing_digits : Text → Text
trailing_digits [] = []
trailing_digits (c ∷ s) = let rest = trailing_digits s in if all_digits (c ∷ s) then c ∷ s else rest

abbrev hex_digit : ℕ → ℕ
hex_digit n = if ltb n 10 then n + b'0' else n + 55

unfoldable pub hex_loop : ℕ → ℕ → Text → Text
hex_loop zero n digits = digits
hex_loop (suc fuel) n digits =
    let rest = hex_loop fuel (n / 16) (hex_digit (n % 16) ∷ digits) in
    if ltb n 16 then hex_digit n ∷ digits else rest

-- fmt.Sprintf("%X", n): an int of 64 bits has 16 digits at most.
unfoldable pub to_hex : ℤ → Text
unfolding hex_loop
to_hex (ℤ.pos n) = hex_loop 16 n []
to_hex (ℤ.negsuc n) = b'-' ∷ hex_loop 16 (suc n) []

abbrev pub hex_of : Text → Option ℤ → Result (Text × Text)
hex_of dec none = err (other "Invalid partition")
hex_of dec (some n) = ok (dec, to_hex n)

-- The number of a partition, in decimal and hexadecimal digits.
unfoldable pub get_partition_impl : Text → Result (Text × Text)
unfolding trailing_digits
get_partition_impl partition = hex_of (trailing_digits partition) (atoi (trailing_digits partition))

abbrev number_of : Result Text → Result (Text × Text)
number_of (err e) = err (other "Error obtaining partition")
number_of (ok partition) = get_partition_impl partition

module _ (sys : System) {E : Type 0} (boot : BootEnv E) where
  unfoldable pub get_inactive_partition : Rootfs E → Result (Text × Text) × Rootfs E
  unfolding get_partition_impl
  get_inactive_partition d =
      let (partition, d') = get_inactive sys boot d in (number_of partition, d')

  unfoldable pub get_active_partition : Rootfs E → Result (Text × Text) × Rootfs E
  unfolding get_partition_impl
  get_active_partition d = let (partition, d') = get_active sys boot d in (number_of partition, d')

  abbrev pub read_env : Text → Rootfs E → Result BootVars × Rootfs E
  read_env name d = let (vars, e) = boot.read_env (name ∷ []) d.env in (vars, record d { env = e })

  abbrev pub write_env : BootVars → Rootfs E → Option Error × Rootfs E
  write_env vars d = let (x, e) = boot.write_env vars d.env in (x, record d { env = e })

  abbrev pub is_available : Result BootVars → Result Bool
  is_available (err x) = err (Error.wrap x)
  is_available (ok vars) = ok (text_eq (value_of (text "upgrade_available") vars) (text "1"))

  unfoldable pub has_update : Rootfs E → Result Bool × Rootfs E
  has_update d = let (vars, d') = read_env (text "upgrade_available") d in (is_available vars, d')

  abbrev pub install_vars : Text × Text → BootVars
  install_vars (part, hex) =
      (text "upgrade_available", text "1")
      ∷ (text "mender_boot_part", part)
      ∷ (text "mender_boot_part_hex", hex)
      ∷ (text "bootcount", text "0")
      ∷ []

  -- What follows the number of the inactive partition.
  abbrev pub install_to : Result (Text × Text) → Rootfs E → Option Error × Rootfs E
  install_to (err x) d = (some x, d)
  install_to (ok number) d = write_env (install_vars number) d

  unfoldable pub install_update : Rootfs E → Option Error × Rootfs E
  unfolding get_inactive_partition
  install_update d = let (number, d') = get_inactive_partition d in install_to number d'

  abbrev pub verify_reboot_error : Error
  verify_reboot_error = other "Reboot to the new update failed."

  abbrev pub commit_if : Result Bool → Rootfs E → Option Error × Rootfs E
  commit_if (err x) d = (some x, d)
  commit_if (ok true) d = write_env ((text "upgrade_available", text "0") ∷ []) d
  commit_if (ok false) d = (some verify_reboot_error, d)

  unfoldable pub commit_update : Rootfs E → Option Error × Rootfs E
  unfolding has_update
  commit_update d = let (has, d') = has_update d in commit_if has d'

  abbrev pub unless_updated : Result Bool → Option Error
  unless_updated (err x) = some x
  unless_updated (ok true) = none
  unless_updated (ok false) = some verify_reboot_error

  unfoldable pub verify_reboot : Rootfs E → Option Error × Rootfs E
  unfolding has_update
  verify_reboot d = let (has, d') = has_update d in (unless_updated has, d')

  abbrev pub if_updated : Result Bool → Option Error
  if_updated (err x) = some x
  if_updated (ok true) = some (other "Reboot to the old update failed.")
  if_updated (ok false) = none

  unfoldable pub verify_rollback_reboot : Rootfs E → Option Error × Rootfs E
  unfolding has_update
  verify_rollback_reboot d = let (has, d') = has_update d in (if_updated has, d')

  abbrev pub rollback_vars : Text × Text → BootVars
  rollback_vars (part, hex) =
      (text "mender_boot_part", part)
      ∷ (text "mender_boot_part_hex", hex)
      ∷ (text "upgrade_available", text "0")
      ∷ []

  abbrev pub roll_back_to : Result (Text × Text) → Rootfs E → Option Error × Rootfs E
  roll_back_to (err x) d = (some x, d)
  roll_back_to (ok number) d = write_env (rollback_vars number) d

  -- Before the reboot the boot loader points to the other partition than the one that runs.
  abbrev pub choose_partition : Text → Result (Text × Text) → Rootfs E → Option Error × Rootfs E
  choose_partition value (err x) d = (some x, d)
  choose_partition value (ok number) d =
      if text_eq value number.0
      then (let (number', d') = get_inactive_partition d in roll_back_to number' d')
      else roll_back_to (ok number) d

  abbrev pub with_value : Option Text → Rootfs E → Option Error × Rootfs E
  with_value none d =
      (some (other "The bootloader environment does not have the 'mender_boot_part' set."), d)
  with_value (some value) d =
      let (number, d') = get_active_partition d in choose_partition value number d'

  abbrev pub roll_back : Result BootVars → Rootfs E → Option Error × Rootfs E
  roll_back (err x) d = (some x, d)
  roll_back (ok vars) d = with_value (lookup (text "mender_boot_part") vars) d

  abbrev pub rollback_if : Result Bool → Rootfs E → Option Error × Rootfs E
  rollback_if (err x) d = (some (Error.wrap x), d)
  rollback_if (ok false) d = (none, d)
  rollback_if (ok true) d =
      let (vars, d') = read_env (text "mender_boot_part") d in roll_back vars d'

  unfoldable pub rollback : Rootfs E → Option Error × Rootfs E
  unfolding has_update get_active_partition get_inactive_partition
  rollback d = let (has, d') = has_update d in rollback_if has d'
