-- ===== src/Examples/Rootfs.antt =====
-- Updates of two root file systems, with a boot environment that keeps what is written to it.
use mender.Prelude.{ℕ, ◌≡◌, inl, refl, true, false, none, List, [], ◌∷◌, ◌++◌, ◌+◌, ok, arith}
use mender.Text.{atoi, Text, text, text_eq}
use mender.Installer.BootEnv.{BootVars, BootEnv}
use mender.Installer.Partitions.{
  System, Rootfs, maybe_resolve_link, get_inactive, get_and_cache_inactive_partition,
  get_and_cache_active_partition,
}
use mender.Installer.DualRootfs.{get_partition_impl, to_hex, install_update, rollback}
use mender.Installer.UBoot.{Tools, Printed, write_env}
use mender.Installer.Found.{Runs, Names}
use mender.Installer.Inactive.{IsConsistent, inactive_does_not_run}

abbrev boot_env : BootEnv BootVars
boot_env = record { read_env = λ names e. (ok e, e); write_env = λ vars e. (none, vars ++ e) }

abbrev part_a : Text
part_a = text "/dev/mmcblk0p2"

abbrev part_b : Text
part_b = text "/dev/mmcblk0p10"

abbrev system : System
system = record {
  mount_output = ok (text "/dev/mmcblk0p2 on / type ext4");
  can_stat_root = true;
  is_mounted_root = λ d. text_eq d part_a;
  mounted_devices = ok (part_a ∷ part_b ∷ []);
  eval_symlinks = λ p. ok p;
  path_dir = λ p. text "/dev";
}

number_a : get_partition_impl part_a ≡ ok (text "2", text "2")
unfolding get_partition_impl atoi to_hex
number_a = refl

number_b : get_partition_impl part_b ≡ ok (text "10", text "A")
unfolding get_partition_impl atoi to_hex
number_b = refl

abbrev start : BootVars
start = (text "mender_boot_part", text "2") ∷ (text "upgrade_available", text "0") ∷ []

abbrev updated : BootVars
updated =
    (text "mender_boot_part", text "10")
    ∷ (text "mender_boot_part_hex", text "A")
    ∷ (text "upgrade_available", text "1")
    ∷ []

-- Nothing is remembered yet.
abbrev fresh : Rootfs BootVars
fresh = record {
  parts = record { rootfs_part_a = part_a; rootfs_part_b = part_b; active = []; inactive = [] };
  env = start;
}

start-Names : Names system refl boot_env (text "2") start
start-Names y h = ground arith

inactive_does_not_run_example :
    IsConsistent system refl boot_env (text "2") (get_inactive system boot_env fresh).1.parts
    × ((x : Text)
        → (get_inactive system boot_env fresh).0 ≡ ok x
        → Runs system (text "2") (get_inactive system boot_env fresh).1.parts.active
          × (text_eq
                (maybe_resolve_link system (get_inactive system boot_env fresh).1.parts.active)
                x
              ≡ false))
inactive_does_not_run_example =
    inactive_does_not_run system refl boot_env (text "2") fresh
      (record { active = inl refl; inactive = inl refl }) start-Names

-- An environment of which every variable, and so the canary, is read as "1".
abbrev printed : List Text → Printed
printed (name ∷ []) = record {
  start_error = none;
  lines = (name ++ text "=1") ∷ [];
  wait_error = none;
}
printed _ = record { start_error = none; lines = []; wait_error = none }

abbrev tools : Tools ℕ
tools = record {
  fw_printenv = λ names e. printed names;
  start_error = λ e. none;
  print_error = λ e n. none;
  fw_setenv = λ lines e. (none, e + 1);
  is_root = true;
}

-- The update is installed from the first partition, and rolled back before the reboot.
is_installed : (install_update system boot_env fresh).0 ≡ none
unfolding install_update get_inactive get_and_cache_inactive_partition
    get_and_cache_active_partition maybe_resolve_link atoi
is_installed = refl

is_rolled_back : (rollback system boot_env (install_update system boot_env fresh).1).0 ≡ none
unfolding install_update rollback get_inactive get_and_cache_inactive_partition
    get_and_cache_active_partition maybe_resolve_link atoi
is_rolled_back = refl
