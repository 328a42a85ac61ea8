-- ===== src/Installer/BlockDevice/Succeeds.antt =====
-- Storing an image when no operation of the file fails: an image that fits is stored.
use mender.Prelude.{
  ℕ, zero, suc, ◌+◌, ◌-◌, ◌/◌, ◌≡◌, ◌≤◌, inl, inr, refl, sym, ap, ◌∙◌, arith, ltb, min, length,
  Bool, Bool-cases, false, Option, none, some, List, [], ◌∷◌, ◌++◌, if◌then◌else◌,
}
use mathlib.Core.Path.{subst}
use mender.Bytes.{take, drop, length-drop, length-append, length-take, take-length}
use mender.Text.{text_eq}
use mender.Installer.BlockDevice.{
  DiskError, Disk, Faults, read_full, seek_back, write_file, FlushingWriter, OptimizedWriter,
  BlockFrameWriter, LimitedWriter, with_disk, sync_file, write_flushing, after_seek, after_read,
  write_frame, frames_loop, reported, write_buffered, close_error, close_buffered, or_self,
  write_limited, copy, store_image,
}
use mender.Installer.BlockDevice.Refines.{
  Holds, Inv, flushed, flushed-Holds, frames_loop-goes, buffered-Holds, write_limited-Inv,
}
use mender.Installer.BlockDevice.Image.{join, copy-goes, copy-Inv, empty-Inv}

abbrev pub no_faults : Faults
no_faults ops = none

length-take_min : (n : ℕ) (xs : List ℕ) → length (take n xs) ≤ length xs
length-take_min zero xs = ground arith
length-take_min (suc n) [] = ground arith
length-take_min (suc n) (x ∷ xs) = let i = length-take_min n xs in omega (arith, i)

read_full-reads :
    (n : ℕ) (d : Disk)
    → n ≤ length d.after
    → ((read_full no_faults n d).0.0 ≡ none)
      × (((read_full no_faults n d).1.before ≡ d.before ++ take n d.after)
          × ((read_full no_faults n d).1.after ≡ drop n d.after))
unfolding read_full
read_full-reads n d h = ground arith

seek_back-seeks :
    (n : ℕ) (d : Disk)
    → n ≤ length d.before
    → ((seek_back no_faults n d).0 ≡ none)
      × ((seek_back no_faults n d).1.after ≡ drop (length d.before - n) d.before ++ d.after)
unfolding seek_back
seek_back-seeks n d h = ground arith

write_flushing-writes :
    (p : List ℕ) (f : FlushingWriter)
    → length p ≤ length f.disk.after
    → (write_flushing no_faults p f).0.1 ≡ none
unfolding write_flushing write_file sync_file
write_flushing-writes p f h = ground arith

after_seek-writes :
    (b : List ℕ) (e : Option DiskError) (o : OptimizedWriter)
    → e ≡ none
    → length b ≤ length o.block_device.disk.after
    → (after_seek no_faults b e o).0.1 ≡ none
after_seek-writes b (some x) o h = ground arith
after_seek-writes b none o h = λ k. write_flushing-writes b o.block_device k

length-after_seek :
    (b : List ℕ) (n : ℕ) (d : Disk)
    → n ≤ length d.before
    → n ≤ length (drop (length d.before - n) d.before ++ d.after)
length-after_seek b n d h = omega (
  arith,
  h,
  length-drop (length d.before - n) d.before,
  length-append (drop (length d.before - n) d.before) d.after,
)

after_read-writes :
    (b : List ℕ) (r : Option DiskError × List ℕ) (o : OptimizedWriter)
    → r.0 ≡ none
    → length b ≤ length o.block_device.disk.before
    → (after_read no_faults b r o).0.1 ≡ none
after_read-writes b (some x, payload) o e h = ground arith
after_read-writes b (none, payload) o e h =
    let d = o.block_device.disk in
    elim (Bool-cases (text_eq payload b)) [
      | inl same ↦ rw same refl
      | inr differ ↦
          let (ok, after) = seek_back-seeks (length b) d h in
          rw differ (
            after_seek-writes b (seek_back no_faults (length b) d).0
              (with_disk o (seek_back no_faults (length b) d).1) ok
              (subst (λ (xs : List ℕ). length b ≤ length xs) (sym after)
                (length-after_seek b (length b) d h)))
    ]

write_frame-writes :
    (b : List ℕ) (o : OptimizedWriter)
    → length b ≤ length o.block_device.disk.after
    → (write_frame no_faults b o).0.1 ≡ none
unfolding write_frame
write_frame-writes b o h =
    let d = o.block_device.disk in
    let (ok, (before, after)) = read_full-reads (length b) d h in
    after_read-writes b (read_full no_faults (length b) d).0
      (with_disk o (read_full no_faults (length b) d).1) ok
      (omega (
        arith,
        h,
        length-take (length b) d.after h,
        length-append d.before (take (length b) d.after),
        ap (λ (xs : List ℕ). length xs) before,
      ))

frames_loop-writes :
    (before after : List ℕ) (more count : ℕ) (bw : BlockFrameWriter)
    → Holds before after more bw
    → (frames_loop no_faults count bw).0 ≡ none
unfolding frames_loop
frames_loop-writes before after more zero bw h = refl
frames_loop-writes before after more (suc count) bw h =
    let frame = take bw.frame_size bw.buf in
    let ok : (write_frame no_faults frame bw.w).0.1 ≡ none =
      write_frame-writes frame bw.w (omega (arith, h.room, length-take_min bw.frame_size bw.buf)) in
    ap (λ (x : Option DiskError × BlockFrameWriter). x.0) (frames_loop-goes no_faults count bw ok)
    ∙ frames_loop-writes before after more count (flushed no_faults bw)
        (flushed-Holds no_faults before after more bw h ok)

write_buffered-writes :
    (before after b : List ℕ) (more : ℕ) (bw : BlockFrameWriter)
    → Holds before after (more + length b) bw
    → (write_buffered no_faults b bw).0.1 ≡ none
unfolding write_buffered
write_buffered-writes before after b more bw h =
    let bw' = record bw { buf = bw.buf ++ b } in
    elim (Bool-cases (ltb (length bw'.buf) bw.frame_size)) [
      | inl s ↦ rw s refl
      | inr s ↦ rw s (
          ap (λ (e : Option DiskError). (reported no_faults (length b) e).1)
            (frames_loop-writes (before ++ b) (drop (length b) after) more
              (length bw'.buf / bw.frame_size) bw'
              (buffered-Holds no_faults before after b more bw h)))
    ]

within : (n m : ℕ) → m ≤ n → (ltb n m ≡ false) × (min n m ≡ m)
within n m h = ground arith

write_limited-writes :
    (before after p : List ℕ) (lw : LimitedWriter)
    → Inv no_faults before after lw
    → length p ≤ lw.n
    → (write_limited no_faults p lw).0.1 ≡ none
unfolding write_limited
write_limited-writes before after p lw h le =
    let (lt, m) = within lw.n (length p) le in
    let whole = ap (λ (k : ℕ). take k p) m ∙ take-length p in
    let e =
      write_buffered-writes before after p (lw.n - length p) lw.w
        (subst (λ (k : ℕ). Holds before after k lw.w) (omega (arith, le)) h) in
    subst
      (λ (b : Bool).
        or_self no_faults (write_buffered no_faults (take (min lw.n (length p)) p) lw.w).0.1
          (if b then some DiskError.no_space else none)
        ≡ none)
      (sym lt)
      (subst (λ (q : List ℕ). or_self no_faults (write_buffered no_faults q lw.w).0.1 none ≡ none)
        (sym whole) (ap (λ (x : Option DiskError). or_self no_faults x none) e))

limit-left :
    (p : List ℕ) (ps : List (List ℕ)) (lw : LimitedWriter)
    → (write_limited no_faults p lw).0.0 ≡ length p
    → length p + length (join ps) ≤ lw.n
    → length (join ps) ≤ (write_limited no_faults p lw).1.n
unfolding write_limited
limit-left p ps lw n h = omega (arith, n, h)

copy-writes :
    (before after : List ℕ) (ps : List (List ℕ)) (lw : LimitedWriter)
    → Inv no_faults before after lw
    → length (join ps) ≤ lw.n
    → (copy no_faults none ps lw).0 ≡ none
unfolding copy
copy-writes before after [] lw h le = refl
copy-writes before after (p ∷ ps) lw h le =
    let lw' = (write_limited no_faults p lw).1 in
    let sum = length-append p (join ps) in
    let e = write_limited-writes before after p lw h (omega (arith, le, sum)) in
    let (n, i) = write_limited-Inv no_faults before after p lw h e in
    ap (λ (x : Option DiskError × LimitedWriter). x.0) (copy-goes no_faults none p ps lw e n)
    ∙ copy-writes (before ++ p) (drop (length p) after) ps lw' i
        (limit-left p ps lw n (omega (arith, le, sum)))

close_buffered-writes :
    (before after : List ℕ) (more : ℕ) (bw : BlockFrameWriter)
    → Holds before after more bw
    → (close_buffered no_faults bw).0 ≡ none
unfolding close_buffered
close_buffered-writes before after more bw h =
    ap (λ (e : Option DiskError). close_error no_faults e none)
      (write_frame-writes bw.buf bw.w (omega (arith, h.room)))

-- When no operation of the file fails and the reader of the image ends without an error, an image of
-- any chunks that is no longer than the limit of the writer, and for whose limit there is room
-- behind the position, is stored without an error.
pub store_image-succeeds :
    (chunks : List (List ℕ)) (lw : LimitedWriter)
    → lw.w.buf ≡ []
    → length (join chunks) ≤ lw.n
    → lw.n ≤ length lw.w.w.block_device.disk.after
    → (store_image no_faults none chunks lw).0 ≡ none
unfolding store_image
store_image-succeeds chunks lw empty fits room =
    let old = lw.w.w.block_device.disk in
    let i = empty-Inv no_faults lw empty room in
    let c = copy no_faults none chunks lw in
    let e = copy-writes old.before old.after chunks lw i fits in
    ap (λ (x : Option DiskError). or_self no_faults x (close_buffered no_faults c.1.w).0) e
    ∙ close_buffered-writes (old.before ++ join chunks) (drop (length (join chunks)) old.after)
        c.1.n c.1.w (copy-Inv no_faults old.before old.after none chunks lw i e)
