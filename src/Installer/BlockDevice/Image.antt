-- ===== src/Installer/BlockDevice/Image.antt =====
-- Storing an image: without an error the device holds it, and is unchanged behind it.
use mender.Prelude.{
  ℕ, ◌==◌, ◌≡◌, ◌≢◌, ◌≤◌, inl, inr, refl, sym, ap, ◌∙◌, arith, length, Bool-cases, true, Option,
  Option-cases, none, some, List, [], ◌∷◌, ◌++◌,
}
use mathlib.Core.Path.{subst}
use mender.Bytes.{drop, length-append, append_assoc, append-nil, drop-drop}
use mender.Text.{text_eq}
use mender.Installer.BlockDevice.{
  DiskError, DiskOp, Disk, Faults, read_full, seek_back, simple, FlushingWriter, OptimizedWriter,
  BlockFrameWriter, LimitedWriter, with_disk, write_flushing, after_seek, after_read, write_frame,
  close_error, close_buffered, write_limited, copy, store_image,
}
use mender.Installer.BlockDevice.Frame.{file, write_frame-Appended, some-not_none}
use mender.Installer.BlockDevice.Refines.{Holds, Inv, or_self-none, write_limited-Inv}

-- The bytes of an image.
abbrev pub join : List (List ℕ) → List ℕ
join [] = []
join (p ∷ ps) = p ++ join ps

module _ (faults : Faults) where
  copy-fails :
      (end : Option DiskError) (p : List ℕ) (ps : List (List ℕ)) (lw : LimitedWriter)
      (x : DiskError)
      → (write_limited faults p lw).0.1 ≡ some x
      → copy faults end (p ∷ ps) lw ≡ (some x, (write_limited faults p lw).1)
  unfolding copy
  copy-fails end p ps lw x h = rw (copy, h) refl

  eq_self : (n : ℕ) → (n == n) ≡ true
  eq_self n = ground arith

  pub copy-goes :
      (end : Option DiskError) (p : List ℕ) (ps : List (List ℕ)) (lw : LimitedWriter)
      → (write_limited faults p lw).0.1 ≡ none
      → (write_limited faults p lw).0.0 ≡ length p
      → copy faults end (p ∷ ps) lw ≡ copy faults end ps (write_limited faults p lw).1
  unfolding copy
  copy-goes end p ps lw h n =
      let same = ap (λ (k : ℕ). k == length p) n ∙ eq_self (length p) in rw (copy, h, same) refl

  pub copy-Inv :
      (before after : List ℕ) (end : Option DiskError) (ps : List (List ℕ)) (lw : LimitedWriter)
      → Inv faults before after lw
      → (copy faults end ps lw).0 ≡ none
      → Inv faults (before ++ join ps) (drop (length (join ps)) after) (copy faults end ps lw).1
  unfolding copy
  copy-Inv before after end [] lw h =
      λ ok. subst (λ (xs : List ℕ). Inv faults xs after lw) (sym (append-nil before)) h
  copy-Inv before after end (p ∷ ps) lw h = elim (Option-cases (write_limited faults p lw).0.1) [
    | inr (x, e) ↦ rw (copy-fails end p ps lw x e) (λ ok. absurd (some-not_none faults x ok))
    | inl e ↦
        let lw' = (write_limited faults p lw).1 in
        let (n, i) = write_limited-Inv faults before after p lw h e in
        rw (copy-goes end p ps lw e n) (λ ok.
          subst
            (λ (xs : List ℕ).
              Inv faults xs (drop (length (p ++ join ps)) after) (copy faults end ps lw').1)
            (append_assoc before p (join ps))
            (subst
              (λ (xs : List ℕ). Inv faults ((before ++ p) ++ join ps) xs (copy faults end ps lw').1)
              (drop-drop (length (join ps)) (length p) (length (p ++ join ps)) after
                (length-append p (join ps)))
              (copy-Inv (before ++ p) (drop (length p) after) end ps lw' i ok)))
  ]

  write_flushing-not_eof :
      (p : List ℕ) (f : FlushingWriter) → (write_flushing faults p f).0.1 ≢ some DiskError.eof
  unfolding write_flushing
  write_flushing-not_eof p f = ground arith

  read_full-eof :
      (n : ℕ) (d : Disk) → n ≤ length d.after → (read_full faults n d).0.0 ≢ some DiskError.eof
  unfolding read_full
  read_full-eof n d h = ground arith

  seek_back-not_eof : (n : ℕ) (d : Disk) → (seek_back faults n d).0 ≢ some DiskError.eof
  unfolding seek_back
  seek_back-not_eof n d = ground arith

  after_seek-not_eof :
      (b : List ℕ) (e : Option DiskError) (o : OptimizedWriter)
      → e ≢ some DiskError.eof
      → (after_seek faults b e o).0.1 ≢ some DiskError.eof
  after_seek-not_eof b (some x) o h = h
  after_seek-not_eof b none o h = write_flushing-not_eof b o.block_device

  after_read-not_eof :
      (b : List ℕ) (r : Option DiskError × List ℕ) (o : OptimizedWriter)
      → r.0 ≢ some DiskError.eof
      → (after_read faults b r o).0.1 ≢ some DiskError.eof
  after_read-not_eof b (some x, payload) o h = h
  after_read-not_eof b (none, payload) o h = elim (Bool-cases (text_eq payload b)) [
    | inl same ↦ rw same (λ k. h k)
    | inr differ ↦ rw differ (
        after_seek-not_eof b (seek_back faults (length b) (file faults o)).0
          (with_disk o (seek_back faults (length b) (file faults o)).1)
          (seek_back-not_eof (length b) (file faults o)))
  ]

  write_frame-not_eof :
      (b : List ℕ) (o : OptimizedWriter)
      → length b ≤ length (file faults o).after
      → (write_frame faults b o).0.1 ≢ some DiskError.eof
  unfolding write_frame
  write_frame-not_eof b o h =
      after_read-not_eof b (read_full faults (length b) (file faults o)).0
        (with_disk o (read_full faults (length b) (file faults o)).1)
        (read_full-eof (length b) (file faults o) h)

  close_error-none :
      (e c : Option DiskError) → e ≢ some DiskError.eof → close_error faults e c ≡ none → e ≡ none
  close_error-none e (some x) h k = absurd (some-not_none faults x k)
  close_error-none none none h k = refl
  close_error-none (some DiskError.eof) none h k = absurd (h refl)
  close_error-none (some DiskError.unexpected_eof) none h k = k
  close_error-none (some DiskError.no_space) none h k = k
  close_error-none (some DiskError.short_write) none h k = k
  close_error-none (some DiskError.invalid) none h k = k
  close_error-none (some (DiskError.failed x)) none h k = k

  close_op-keeps :
      (d : Disk)
      → ((simple faults DiskOp.close d).1.before ≡ d.before)
        × ((simple faults DiskOp.close d).1.after ≡ d.after)
  close_op-keeps d = ground arith

  -- A writer that has just been opened.
  pub empty-Inv :
      (lw : LimitedWriter)
      → lw.w.buf ≡ []
      → lw.n ≤ length (file faults lw.w.w).after
      → Inv faults (file faults lw.w.w).before (file faults lw.w.w).after lw
  empty-Inv lw empty room =
      let old = file faults lw.w.w in
      record {
        written = ap (λ (xs : List ℕ). old.before ++ xs) empty ∙ append-nil old.before;
        behind = ap (λ (xs : List ℕ). drop (length xs) old.after) empty;
        room = omega (arith, room, ap (λ (xs : List ℕ). length xs) empty);
      }

  -- What is left in the buffer goes to the device when it is closed.
  close_buffered-writes :
      (before after : List ℕ) (more : ℕ) (bw : BlockFrameWriter)
      → Holds before after more bw
      → (close_buffered faults bw).0 ≡ none
      → ((file faults (close_buffered faults bw).1.w).before ≡ before)
        × ((file faults (close_buffered faults bw).1.w).after ≡ after)
  unfolding close_buffered
  close_buffered-writes before after more bw h ok =
      let old = file faults bw.w in
      let new = file faults (write_frame faults bw.buf bw.w).1 in
      let fits : length bw.buf ≤ length old.after = omega (arith, h.room) in
      let c = (simple faults DiskOp.close new).0 in
      let e =
        close_error-none (write_frame faults bw.buf bw.w).0.1 c
          (write_frame-not_eof bw.buf bw.w fits) ok in
      let (kb, ka) = close_op-keeps new in
      let w = write_frame-Appended faults bw.buf bw.w e in
      (kb ∙ w.before ∙ h.written, ka ∙ w.after ∙ h.behind)

  -- Whatever operations of the file fail, and however the image is cut into chunks and the device
  -- into frames: if storing an image on a device with enough bytes behind the position reports no
  -- error, then the bytes behind the position are the image's, the bytes before it are unchanged, and
  -- so are those behind the image.
  pub store_image_refines :
      (end : Option DiskError) (chunks : List (List ℕ)) (lw : LimitedWriter)
      → lw.w.buf ≡ []
      → lw.n ≤ length (file faults lw.w.w).after
      → (store_image faults end chunks lw).0 ≡ none
      → ((file faults (store_image faults end chunks lw).1.w.w).before
          ≡ (file faults lw.w.w).before ++ join chunks)
        × ((file faults (store_image faults end chunks lw).1.w.w).after
            ≡ drop (length (join chunks)) (file faults lw.w.w).after)
  unfolding store_image
  store_image_refines end chunks lw empty room ok =
      let old = file faults lw.w.w in
      let (e, c) =
        or_self-none faults (copy faults end chunks lw).0
          (close_buffered faults (copy faults end chunks lw).1.w).0 ok in
      let start = empty-Inv lw empty room in
      let i = copy-Inv old.before old.after end chunks lw start e in
      close_buffered-writes (old.before ++ join chunks) (drop (length (join chunks)) old.after)
        (copy faults end chunks lw).1.n (copy faults end chunks lw).1.w i c
