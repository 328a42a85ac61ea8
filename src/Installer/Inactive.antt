-- ===== src/Installer/Inactive.antt =====
-- The partition that an update is written to is not the one that runs.
use mender.Prelude.{
  ◌≡◌, ◌≢◌, sym, ◌⊎◌, inl, inr, refl, Bool-cases, true, false, [], ◌∷◌, Error, other, ok, err,
  Result, arith, ap, ◌∙◌,
}
use mender.Text.{text_eq_sound, Text, text_eq, is_empty}
use mender.Installer.BootEnv.{BootEnv}
use mender.Installer.Partitions.{
  System, Partitions, Rootfs, maybe_resolve_link, get_active, other_than,
  get_and_cache_inactive_partition, get_inactive,
}
use mender.Installer.Found.{Runs, Names, Search, get_active-Search}

text_eq-other : (r s t : Text) → text_eq r s ≡ true → text_eq s t ≡ false → text_eq r t ≡ false
text_eq-other r s t h k = rw (text_eq_sound r s h) k

text_eq-sym : (s t : Text) → text_eq s t ≡ text_eq t s
text_eq-sym [] [] = refl
text_eq-sym [] (y ∷ t) = refl
text_eq-sym (x ∷ s) [] = refl
text_eq-sym (x ∷ s) (y ∷ t) = ground (arith, text_eq-sym s t)

ok-injective : (x y : Text) → ◌≡◌ {A = Result Text} (ok x) (ok y) → x ≡ y
ok-injective x y h = ground arith

ok-not_err : (x : Text) (e : Error) → ◌≢◌ {A = Result Text} (ok x) (err e)
ok-not_err x e = ground arith

module _ (sys : System) (no_device : sys.is_mounted_root [] ≡ false) where
  -- The partition that is remembered as inactive is the configured one that does not run.
  pub record Other (p : Partitions) : Type 0 where
    pub known : is_empty p.active ≡ false
    pub runs :
        ((text_eq (maybe_resolve_link sys p.active) p.rootfs_part_a ≡ true)
          × (p.inactive ≡ p.rootfs_part_b))
        ⊎ ((text_eq (maybe_resolve_link sys p.active) p.rootfs_part_b ≡ true)
            × (p.inactive ≡ p.rootfs_part_a))
    pub differ : text_eq p.rootfs_part_a p.rootfs_part_b ≡ false

  Other-differs :
      (p : Partitions) → Other p → text_eq (maybe_resolve_link sys p.active) p.inactive ≡ false
  Other-differs p o = elim (o.runs) [
    | inl (r, e) ↦
        rw e (
          text_eq-other (maybe_resolve_link sys p.active) p.rootfs_part_a p.rootfs_part_b r
            o.differ)
    | inr (r, e) ↦ rw e (
        text_eq-other (maybe_resolve_link sys p.active) p.rootfs_part_b p.rootfs_part_a r
          (text_eq-sym p.rootfs_part_b p.rootfs_part_a ∙ o.differ))
  ]

  module _ {E : Type 0} (boot : BootEnv E) (boot_part : Text) where
    -- Nothing is remembered as the active partition, or one that runs; and nothing is remembered as
    -- the inactive one, or the other one.
    pub record IsConsistent (p : Partitions) : Type 0 where
      pub active : (is_empty p.active ≡ true) ⊎ Runs sys boot_part p.active
      pub inactive : (is_empty p.inactive ≡ true) ⊎ (Runs sys boot_part p.active × Other p)

    -- Finding an inactive partition remembers it, and it is the other one; otherwise the caches
    -- remain consistent.
    abbrev Chosen : Result Text × Rootfs E → Type 0
    Chosen r =
        ((x : Text) × ((r.0 ≡ ok x)
            × ((r.1.parts.inactive ≡ x) × (Runs sys boot_part r.1.parts.active × Other r.1.parts))))
        ⊎ (((e : Error) × (r.0 ≡ err e)) × IsConsistent r.1.parts)

    other_than-Chosen :
        (active : Text) (d : Rootfs E)
        → d.parts.active ≡ active
        → is_empty active ≡ false
        → Runs sys boot_part active
        → text_eq d.parts.rootfs_part_a d.parts.rootfs_part_b ≡ false
        → is_empty d.parts.inactive ≡ true
        → Chosen (other_than sys boot (ok active) d)
    unfolding other_than
    other_than-Chosen active d h n run differ i =
        elim (Bool-cases (text_eq (maybe_resolve_link sys active) d.parts.rootfs_part_a)) [
          | inl r ↦ rw r (
              inl (
                d.parts.rootfs_part_b,
                (
                  refl,
                  (
                    refl,
                    (
                      rw h run,
                      record { known = rw h n; runs = inl (rw h r, refl); differ = differ },
                    ),
                  ),
                ),
              ))
          | inr r ↦
              elim (Bool-cases (text_eq (maybe_resolve_link sys active) d.parts.rootfs_part_b)) [
                | inl q ↦
                    rw (r, q)
                      (inl (
                        d.parts.rootfs_part_a,
                        (
                          refl,
                          (
                            refl,
                            (
                              rw h run,
                              record { known = rw h n; runs = inr (rw h q, refl); differ = differ },
                            ),
                          ),
                        ),
                      ))
                | inr q ↦
                    rw (r, q)
                      (inr (
                        (
                          other
                              "Active root partition matches neither RootfsPartA nor RootfsPartB.",
                          refl,
                        ),
                        record { active = inr (rw h run); inactive = inl i },
                      ))
              ]
        ]

    other_than-Search :
        (p : Partitions) (t : Result Text) (d : Rootfs E)
        → Search sys no_device boot boot_part p (t, d)
        → (is_empty p.active ≡ true) ⊎ Runs sys boot_part p.active
        → text_eq p.rootfs_part_a p.rootfs_part_b ≡ false
        → is_empty p.inactive ≡ true
        → Chosen (other_than sys boot t d)
    unfolding other_than
    other_than-Search p t d (inl l) known differ i = rw (l.lost) (
        inr
          ((l.error, refl), record { active = rw (l.kept) known; inactive = inl (rw (l.kept) i) }))
    other_than-Search p t d (inr (x, f)) known differ i = rw (f.found) (
        other_than-Chosen x d (ap (λ (q : Partitions). q.active) f.cached) f.nonempty f.runs
          (rw (f.cached) differ) (rw (f.cached) i))

    set_up :
        (d : Rootfs E)
        → (is_empty d.parts.active ≡ true) ⊎ Runs sys boot_part d.parts.active
        → Names sys no_device boot boot_part d.env
        → is_empty d.parts.inactive ≡ true
        → Chosen (get_and_cache_inactive_partition sys boot d)
    unfolding get_and_cache_inactive_partition
    set_up d known names i = elim (Bool-cases (is_empty d.parts.rootfs_part_a)) [
      | inl h ↦
          rw (get_and_cache_inactive_partition, h)
            (inr (
              (other "RootfsPartA and RootfsPartB settings are not both set.", refl),
              record { active = known; inactive = inl i },
            ))
      | inr ha ↦ elim (Bool-cases (is_empty d.parts.rootfs_part_b)) [
        | inl h ↦
            rw (get_and_cache_inactive_partition, ha, h)
              (inr (
                (other "RootfsPartA and RootfsPartB settings are not both set.", refl),
                record { active = known; inactive = inl i },
              ))
        | inr hb ↦ elim (Bool-cases (text_eq d.parts.rootfs_part_a d.parts.rootfs_part_b)) [
          | inl h ↦
              rw (get_and_cache_inactive_partition, ha, hb, h)
                (inr (
                  (other "RootfsPartA and RootfsPartB cannot be set to the same value.", refl),
                  record { active = known; inactive = inl i },
                ))
          | inr differ ↦
              let (t, d') = get_active sys boot d in
              rw (get_and_cache_inactive_partition, ha, hb, differ)
                (other_than-Search d.parts t d'
                  (get_active-Search sys no_device boot boot_part d ha hb names known) known differ
                  i)
        ]
      ]
    ]

    get_inactive-Chosen :
        (d : Rootfs E)
        → IsConsistent d.parts
        → Names sys no_device boot boot_part d.env
        → Chosen (get_inactive sys boot d)
    unfolding get_inactive
    get_inactive-Chosen d c n = elim (c.inactive) [
      | inl i ↦ rw i (set_up d (c.active) n i)
      | inr o ↦ elim (Bool-cases (is_empty d.parts.inactive)) [
        | inl h ↦ rw h (set_up d (c.active) n h)
        | inr h ↦ rw h (inl (d.parts.inactive, (refl, (refl, o))))
      ]
    ]

    -- Let no file with an empty name be a device, the partitions that are remembered be consistent,
    -- and the boot environment, if it can be read, name a partition. Then the partitions remain
    -- consistent when the inactive one is asked for; and if one is returned, it is not the
    -- remembered active one, which runs: it is mounted as the root, or its name ends with what the
    -- boot environment names.
    pub inactive_does_not_run :
        (d : Rootfs E)
        → IsConsistent d.parts
        → Names sys no_device boot boot_part d.env
        → let r = get_inactive sys boot d in
          IsConsistent r.1.parts
          × ((x : Text)
              → r.0 ≡ ok x
              → Runs sys boot_part r.1.parts.active
                × (text_eq (maybe_resolve_link sys r.1.parts.active) x ≡ false))
    inactive_does_not_run d c n = elim (get_inactive-Chosen d c n) [
      | inl (x, (h, (e, (run, o)))) ↦ (
        record { active = inr run; inactive = inr (run, o) },
        λ y k. (
          run,
          rw (← (e ∙ ok-injective x y (sym h ∙ k)))
              (Other-differs (get_inactive sys boot d).1.parts o),
        ),
      )
      | inr (e, c') ↦ (c', λ y k. absurd (ok-not_err y e.0 (sym k ∙ e.1)))
    ]
