-- ===== src/Installer/BlockDevice/Open.antt =====
-- Opening a block device for an image: Open of installer/block_device.go, and StoreUpdate of
-- installer/dual_rootfs_device.go behind it. The partition is a parameter: what the system replies
-- about it, and its bytes.
use mender.Prelude.{
  ℕ, zero, suc, ◌*◌, ◌≡◌, ◌≤◌, ◌<◌, inl, inr, refl, ap, ◌∙◌, arith, ltb, length, Bool, Bool-cases,
  true, false, Option, none, some, List, [], ◌++◌, Error, other, Result, ok, err, if◌then◌else◌,
}
use mathlib.Core.Path.{subst}
use mender.Bytes.{drop}
use mender.Text.{ℤ}
use mender.Installer.BlockDevice.{DiskError, Disk, Faults, LimitedWriter, store_image}
use mender.Installer.BlockDevice.Image.{join, store_image_refines}

pub record Partition : Type 0 where
  pub mounted : Bool
  pub unmount_error : Option Error
  pub is_ubi : Bool
  pub size : Result ℕ
  pub sector_size : Result ℕ
  pub open_error : Option Error
  pub set_volume_error : Option Error
  pub contents : List ℕ

-- The writer that Open returns: the chain of writers, or on UBI the file itself with a limit.
pub data Opened : Type 0 where
  hangs : Opened
  refused : Error → Opened
  framed : LimitedWriter → Opened
  direct : Disk → ℕ → Opened

-- The loop that doubles the sector size up to a mebibyte, and none when it has not ended.
unfoldable pub chunk_loop : ℕ → ℕ → Option ℕ
chunk_loop zero c = if ltb c 1048576 then none else some c
chunk_loop (suc fuel) c =
    let rest = chunk_loop fuel (c * 2) in if ltb c 1048576 then rest else some c

abbrev pub new_disk : List ℕ → Disk
new_disk contents = record { before = []; after = contents; ops = [] }

abbrev pub attach : ℕ → ℕ → ℕ → Partition → Opened
attach size sector chunk part = elim part.open_error [
  | some e ↦ Opened.refused e
  | none ↦
      if part.is_ubi
      then elim part.set_volume_error [
        | some e ↦ Opened.refused e
        | none ↦ Opened.direct (new_disk part.contents) size
      ]
      else Opened.framed (record {
        w = record {
          buf = [];
          frame_size = chunk;
          w = record {
            block_device = record {
              disk = new_disk part.contents;
              flush_interval_bytes = sector;
              unflushed_bytes_written = 0;
            };
            total_frames = 0;
            dirty_frames = 0;
          };
        };
        n = size;
      })
]

abbrev pub with_chunk : ℕ → ℕ → Option ℕ → Partition → Opened
with_chunk size sector none part = Opened.hangs
with_chunk size sector (some chunk) part = attach size sector chunk part

abbrev pub with_sector : ℕ → Result ℕ → Partition → Opened
unfolding chunk_loop
with_sector size (err e) part = Opened.refused e
with_sector size (ok sector) part = with_chunk size sector (chunk_loop 20 sector) part

abbrev pub with_size : ℕ → Result ℕ → Partition → Opened
with_size size (err e) part = Opened.refused e
with_size size (ok bsz) part =
    if ltb bsz size
    then Opened.refused (other "no space left on device")
    else with_sector size part.sector_size part

unfoldable pub open_device : ℤ → Partition → Opened
open_device (ℤ.negsuc n) part = Opened.refused (other "Have invalid update. Aborting.")
open_device (ℤ.pos size) part =
    if part.mounted
    then elim part.unmount_error [
      | some e ↦ Opened.refused e
      | none ↦ with_size size part.size part
    ]
    else with_size size part.size part

-- Twice a number, some times over.
abbrev pub doubled : ℕ → ℕ → ℕ
doubled zero c = c
doubled (suc k) c = doubled k (c * 2)

-- The loop ends, with the sector size doubled some times over and at least a mebibyte.
pub record Chunked (c : ℕ) (r : Option ℕ) : Type 0 where
  pub chunk : ℕ
  pub times : ℕ
  pub ends : r ≡ some chunk
  pub multiple : chunk ≡ doubled times c
  pub large : 1048576 ≤ chunk
  pub bounded : c < 2097152 → chunk < 2097152

large_enough : (c : ℕ) → ltb c 1048576 ≡ false → 1048576 ≤ c
large_enough c h = ground arith

small : (c : ℕ) → ltb c 1048576 ≡ true → c < 1048576
small c h = ground arith

too_small : (c : ℕ) → ltb c 1048576 ≡ true → 1048576 ≤ c → ⊥
too_small c h k = ground arith

Chunked-now : (c : ℕ) → 1048576 ≤ c → Chunked c (some c)
Chunked-now c h = record {
  chunk = c;
  times = 0;
  ends = refl;
  multiple = refl;
  large = h;
  bounded = λ k. k;
}

Chunked-later : (c : ℕ) (r : Option ℕ) → c < 1048576 → Chunked (c * 2) r → Chunked c r
Chunked-later c r h i = record {
  chunk = i.chunk;
  times = suc i.times;
  ends = i.ends;
  multiple = i.multiple;
  large = i.large;
  bounded = λ k. i.bounded (omega (arith, h));
}

chunk_loop-Chunked : (fuel c : ℕ) → 1048576 ≤ doubled fuel c → Chunked c (chunk_loop fuel c)
unfolding chunk_loop
chunk_loop-Chunked zero c h = elim (Bool-cases (ltb c 1048576)) [
  | inl e ↦ absurd (too_small c e h)
  | inr e ↦ rw e (Chunked-now c h)
]
chunk_loop-Chunked (suc fuel) c h = elim (Bool-cases (ltb c 1048576)) [
  | inl e ↦
      rw e
        (Chunked-later c (chunk_loop fuel (c * 2)) (small c e) (chunk_loop-Chunked fuel (c * 2) h))
  | inr e ↦ rw e (Chunked-now c (large_enough c e))
]

-- A sector size of at least one byte: the loop ends within twenty steps.
chunk_size-Chunked : (c : ℕ) → 1 ≤ c → Chunked c (chunk_loop 20 c)
chunk_size-Chunked c h = chunk_loop-Chunked 20 c (omega (arith, h))

attach-framed :
    (size sector chunk : ℕ) (part : Partition) (lw : LimitedWriter)
    → attach size sector chunk part ≡ Opened.framed lw
    → (lw.w.buf ≡ []) × ((lw.w.w.block_device.disk ≡ new_disk part.contents) × (lw.n ≡ size))
attach-framed size sector chunk part lw h = ground arith

with_chunk-framed :
    (size sector : ℕ) (c : Option ℕ) (part : Partition) (lw : LimitedWriter)
    → with_chunk size sector c part ≡ Opened.framed lw
    → (lw.w.buf ≡ []) × ((lw.w.w.block_device.disk ≡ new_disk part.contents) × (lw.n ≡ size))
with_chunk-framed size sector none part lw h = ground arith
with_chunk-framed size sector (some c) part lw h = attach-framed size sector c part lw h

with_sector-framed :
    (size : ℕ) (sector : Result ℕ) (part : Partition) (lw : LimitedWriter)
    → with_sector size sector part ≡ Opened.framed lw
    → (lw.w.buf ≡ []) × ((lw.w.w.block_device.disk ≡ new_disk part.contents) × (lw.n ≡ size))
unfolding chunk_loop with_sector
with_sector-framed size (err e) part lw h = ground arith
with_sector-framed size (ok s) part lw h = with_chunk-framed size s (chunk_loop 20 s) part lw h

-- The device is as large as the image.
room-framed :
    (size n : ℕ) (part : Partition) (lw : LimitedWriter)
    → with_size size (ok n) part ≡ Opened.framed lw
    → (size ≤ n) × (with_sector size part.sector_size part ≡ Opened.framed lw)
room-framed size n part lw h = ground arith

with_size-framed :
    (size n : ℕ) (bsz : Result ℕ) (part : Partition) (lw : LimitedWriter)
    → bsz ≡ ok n
    → with_size size bsz part ≡ Opened.framed lw
    → (size ≤ n)
      × ((lw.w.buf ≡ []) × ((lw.w.w.block_device.disk ≡ new_disk part.contents) × (lw.n ≡ size)))
with_size-framed size n bsz part lw e h =
    let (le, k) =
      room-framed size n part lw
        (subst (λ (r : Result ℕ). with_size size r part ≡ Opened.framed lw) e h) in
    (le, with_sector-framed size part.sector_size part lw k)

reach-framed :
    (size : ℕ) (part : Partition) (lw : LimitedWriter)
    → open_device (ℤ.pos size) part ≡ Opened.framed lw
    → with_size size part.size part ≡ Opened.framed lw
unfolding open_device
reach-framed size part lw h = ground arith

-- An image of a size, stored on a partition whose size the system reports: whatever operations of the
-- file fail, and however the image is cut into chunks, if the partition is opened through the chain
-- of writers and storing the image reports no error, then the partition holds the image, followed by
-- what stood behind it, and nothing else of it has changed.
pub store_image_refines_overwriting :
    (faults : Faults) (end : Option DiskError) (chunks : List (List ℕ)) (size : ℕ)
    (part : Partition) (lw : LimitedWriter)
    → part.size ≡ ok (length part.contents)
    → open_device (ℤ.pos size) part ≡ Opened.framed lw
    → (store_image faults end chunks lw).0 ≡ none
    → let d = (store_image faults end chunks lw).1.w.w.block_device.disk in
      (d.before ≡ join chunks) × (d.after ≡ drop (length (join chunks)) part.contents)
store_image_refines_overwriting faults end chunks size part lw reported opened stored =
    let (le, (empty, (fresh, limit))) =
      with_size-framed size (length part.contents) part.size part lw reported
        (reach-framed size part lw opened) in
    let bytes = ap (λ (d : Disk). d.after) fresh in
    let (b, a) =
      store_image_refines faults end chunks lw empty
        (omega (arith, le, limit, ap (λ (xs : List ℕ). length xs) bytes)) stored in
    (
      b ∙ ap (λ (d : Disk). d.before ++ join chunks) fresh,
      a ∙ ap (λ (xs : List ℕ). drop (length (join chunks)) xs) bytes,
    )
