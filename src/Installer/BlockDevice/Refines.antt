-- ===== src/Installer/BlockDevice/Refines.antt =====
-- The chain of writers refines a plain write: what it reports as written is written, in its place.
use mender.Prelude.{
  ℕ, zero, suc, ◌+◌, ◌-◌, ◌/◌, ◌≡◌, ◌≤◌, inl, inr, refl, sym, ap, ◌∙◌, arith, ltb, min, length,
  Bool-cases, Option, Option-cases, none, some, List, ◌++◌, if◌then◌else◌,
}
use mathlib.Core.Path.{subst}
use mender.Bytes.{
  take, drop, take-drop, length-append, append_assoc, drop-drop, length-drop, take-length,
}
use mender.Installer.BlockDevice.{
  DiskError, Faults, Written, BlockFrameWriter, LimitedWriter, write_frame, frames_loop, reported,
  write_buffered, or_self, write_limited,
}
use mender.Installer.BlockDevice.Frame.{write_frame-Appended, some-not_none}

-- With what is in the buffer, the file reads as it would behind plain writes; and there is room for
-- the buffer and some more bytes.
pub record Holds (before after : List ℕ) (more : ℕ) (bw : BlockFrameWriter) : Type 0 where
  pub written : bw.w.block_device.disk.before ++ bw.buf ≡ before
  pub behind : drop (length bw.buf) bw.w.block_device.disk.after ≡ after
  pub room : length bw.buf + more ≤ length bw.w.block_device.disk.after

length-split : (n : ℕ) (xs : List ℕ) → length (take n xs) + length (drop n xs) ≡ length xs
length-split n xs =
    sym (length-append (take n xs) (drop n xs)) ∙ ap (λ (ys : List ℕ). length ys) (take-drop n xs)

module _ (faults : Faults) where
  abbrev pub flushed : BlockFrameWriter → BlockFrameWriter
  flushed bw = record bw {
    buf = drop bw.frame_size bw.buf;
    w = (write_frame faults (take bw.frame_size bw.buf) bw.w).1;
  }

  pub flushed-Holds :
      (before after : List ℕ) (more : ℕ) (bw : BlockFrameWriter)
      → Holds before after more bw
      → (write_frame faults (take bw.frame_size bw.buf) bw.w).0.1 ≡ none
      → Holds before after more (flushed bw)
  flushed-Holds before after more bw h ok =
      let frame = take bw.frame_size bw.buf in
      let rest = drop bw.frame_size bw.buf in
      let old = bw.w.block_device.disk in
      let a = write_frame-Appended faults frame bw.w ok in
      record {
        written =
            ap (λ (xs : List ℕ). xs ++ rest) a.before
            ∙ append_assoc old.before frame rest
            ∙ ap (λ (xs : List ℕ). old.before ++ xs) (take-drop bw.frame_size bw.buf)
            ∙ h.written;
        behind =
            ap (λ (xs : List ℕ). drop (length rest) xs) a.after
            ∙ drop-drop (length rest) (length frame) (length bw.buf) old.after
                (sym (length-split bw.frame_size bw.buf))
            ∙ h.behind;
        room = omega (
          arith,
          h.room,
          length-split bw.frame_size bw.buf,
          ap (λ (xs : List ℕ). length xs) a.after,
          length-drop (length frame) old.after,
        );
      }

  frames_loop-stops :
      (count : ℕ) (bw : BlockFrameWriter) (e : DiskError)
      → (write_frame faults (take bw.frame_size bw.buf) bw.w).0.1 ≡ some e
      → frames_loop faults (suc count) bw ≡ (some e, flushed bw)
  unfolding frames_loop
  frames_loop-stops count bw e h = rw (frames_loop, h) refl

  pub frames_loop-goes :
      (count : ℕ) (bw : BlockFrameWriter)
      → (write_frame faults (take bw.frame_size bw.buf) bw.w).0.1 ≡ none
      → frames_loop faults (suc count) bw ≡ frames_loop faults count (flushed bw)
  unfolding frames_loop
  frames_loop-goes count bw h = rw (frames_loop, h) refl

  frames_loop-Holds :
      (before after : List ℕ) (more count : ℕ) (bw : BlockFrameWriter)
      → Holds before after more bw
      → (frames_loop faults count bw).0 ≡ none
      → Holds before after more (frames_loop faults count bw).1
  unfolding frames_loop
  frames_loop-Holds before after more zero bw h = λ ok. h
  frames_loop-Holds before after more (suc count) bw h =
      elim (Option-cases (write_frame faults (take bw.frame_size bw.buf) bw.w).0.1) [
        | inl e ↦ rw (frames_loop-goes count bw e) (
            frames_loop-Holds before after more count (flushed bw)
              (flushed-Holds before after more bw h e))
        | inr (x, e) ↦
            rw (frames_loop-stops count bw x e) (λ ok. absurd (some-not_none faults x ok))
      ]

  pub buffered-Holds :
      (before after b : List ℕ) (more : ℕ) (bw : BlockFrameWriter)
      → Holds before after (more + length b) bw
      → Holds (before ++ b) (drop (length b) after) more (record bw { buf = bw.buf ++ b })
  buffered-Holds before after b more bw h =
      let disk = bw.w.block_device.disk in
      record {
        written = sym (append_assoc disk.before bw.buf b) ∙ ap (λ (xs : List ℕ). xs ++ b) h.written;
        behind =
            sym (
              drop-drop (length b) (length bw.buf) (length (bw.buf ++ b)) disk.after
                (length-append bw.buf b))
            ∙ ap (λ (xs : List ℕ). drop (length b) xs) h.behind;
        room = omega (arith, h.room, length-append bw.buf b);
      }

  reported-none :
      (n : ℕ) (e : Option DiskError)
      → (reported faults n e).1 ≡ none
      → (e ≡ none) × (reported faults n e ≡ (n, none))
  reported-none n (some x) h = absurd (some-not_none faults x h)
  reported-none n none h = (refl, refl)

  write_buffered-Holds :
      (before after b : List ℕ) (more : ℕ) (bw : BlockFrameWriter)
      → Holds before after (more + length b) bw
      → (write_buffered faults b bw).0.1 ≡ none
      → ((write_buffered faults b bw).0.0 ≡ length b)
        × Holds (before ++ b) (drop (length b) after) more (write_buffered faults b bw).1
  unfolding write_buffered
  write_buffered-Holds before after b more bw h =
      let bw' = record bw { buf = bw.buf ++ b } in
      elim (Bool-cases (ltb (length bw'.buf) bw.frame_size)) [
        | inl s ↦ rw s (λ ok. (refl, buffered-Holds before after b more bw h))
        | inr s ↦ rw s (λ ok.
            let count = length bw'.buf / bw.frame_size in
            let (e, r) = reported-none (length b) (frames_loop faults count bw').0 ok in
            (
              ap (λ (w : Written). w.0) r,
              frames_loop-Holds (before ++ b) (drop (length b) after) more count bw'
                  (buffered-Holds before after b more bw h) e,
            ))
      ]

  abbrev pub Inv : List ℕ → List ℕ → LimitedWriter → Type 0
  Inv before after lw = Holds before after lw.n lw.w

  pub or_self-none :
      (e own : Option DiskError) → or_self faults e own ≡ none → (e ≡ none) × (own ≡ none)
  or_self-none (some x) own h = absurd (some-not_none faults x h)
  or_self-none none own h = (refl, h)

  within :
      (p : List ℕ) (n : ℕ)
      → (if ltb n (length p) then some DiskError.no_space else none) ≡ none
      → (length p ≤ n) × (min n (length p) ≡ length p)
  within p n h = ground arith

  pub write_limited-Inv :
      (before after p : List ℕ) (lw : LimitedWriter)
      → Inv before after lw
      → (write_limited faults p lw).0.1 ≡ none
      → ((write_limited faults p lw).0.0 ≡ length p)
        × Inv (before ++ p) (drop (length p) after) (write_limited faults p lw).1
  unfolding write_limited
  write_limited-Inv before after p lw h ok =
      let q = take (min lw.n (length p)) p in
      let (e, own) =
        or_self-none (write_buffered faults q lw.w).0.1
          (if ltb lw.n (length p) then some DiskError.no_space else none) ok in
      let (le, m) = within p lw.n own in
      let whole = ap (λ (k : ℕ). take k p) m ∙ take-length p in
      let (n, i) =
        write_buffered-Holds before after q (lw.n - length p) lw.w
          (subst (λ (k : ℕ). Holds before after k lw.w)
            (omega (arith, le, ap (λ (xs : List ℕ). length xs) whole)) h)
          e in
      let count = n ∙ ap (λ (xs : List ℕ). length xs) whole in
      (
        count,
        subst
            (λ (k : ℕ).
              Holds (before ++ p) (drop (length p) after) k (write_buffered faults q lw.w).1)
            (ap (λ (k : ℕ). lw.n - k) (sym count))
            (subst
              (λ (xs : List ℕ).
                Holds (before ++ xs) (drop (length xs) after) (lw.n - length p)
                  (write_buffered faults q lw.w).1)
              whole i),
      )
