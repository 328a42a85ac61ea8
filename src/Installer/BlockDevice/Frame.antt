-- ===== src/Installer/BlockDevice/Frame.antt =====
-- A frame that is written behind the position: read, compared, and written if it is dirty.
use mender.Prelude.{
  ℕ, ◌-◌, ◌≡◌, ◌≢◌, ◌≤◌, inl, inr, refl, sym, ap, ◌∙◌, arith, length, Bool, Bool-cases, Option,
  none, some, List, ◌++◌, if◌then◌else◌,
}
use mathlib.Core.Path.{subst}
use mender.Bytes.{take, drop, take-drop, length-take, length-append, take-append, drop-append}
use mender.Text.{text_eq, text_eq_sound}
use mender.Installer.BlockDevice.{
  DiskError, Disk, Faults, read_full, seek_back, write_file, FlushingWriter, OptimizedWriter,
  with_disk, counted, write_flushing, after_seek, after_read, write_frame,
}

-- The bytes are written at the position, and nothing else is.
pub record Appended (p : List ℕ) (d d' : Disk) : Type 0 where
  pub before : d'.before ≡ d.before ++ p
  pub after : d'.after ≡ drop (length p) d.after
  pub fits : length p ≤ length d.after

module _ (faults : Faults) where
  write_file-Appended :
      (p : List ℕ) (d : Disk)
      → (write_file faults p d).0.1 ≡ none
      → ((write_file faults p d).1.before ≡ d.before ++ p)
        × (((write_file faults p d).1.after ≡ drop (length p) d.after)
            × (length p ≤ length d.after))
  unfolding write_file
  write_file-Appended p d h = ground arith

  write_flushing-disk :
      (p : List ℕ) (f : FlushingWriter)
      → (write_flushing faults p f).0.1 ≡ none
      → ((write_file faults p f.disk).0.1 ≡ none)
        × (((write_flushing faults p f).1.disk.before ≡ (write_file faults p f.disk).1.before)
            × ((write_flushing faults p f).1.disk.after ≡ (write_file faults p f.disk).1.after))
  unfolding write_flushing
  write_flushing-disk p f h = ground arith

  read_full-moves :
      (n : ℕ) (d : Disk)
      → (read_full faults n d).0.0 ≡ none
      → (n ≤ length d.after)
        × (((read_full faults n d).0.1 ≡ take n d.after)
            × (((read_full faults n d).1.before ≡ d.before ++ take n d.after)
                × ((read_full faults n d).1.after ≡ drop n d.after)))
  unfolding read_full
  read_full-moves n d h = ground arith

  seek_back-moves :
      (n : ℕ) (d : Disk)
      → (seek_back faults n d).0 ≡ none
      → ((seek_back faults n d).1.before ≡ take (length d.before - n) d.before)
        × ((seek_back faults n d).1.after ≡ drop (length d.before - n) d.before ++ d.after)
  unfolding seek_back
  seek_back-moves n d h = ground arith

  -- The disk behind a chain of writers.
  abbrev pub file : OptimizedWriter → Disk
  file o = o.block_device.disk

  write_flushing-Appended :
      (p : List ℕ) (f : FlushingWriter)
      → (write_flushing faults p f).0.1 ≡ none
      → Appended p f.disk (write_flushing faults p f).1.disk
  write_flushing-Appended p f h =
      let (ok, (b, a)) = write_flushing-disk p f h in
      let (b', (a', n)) = write_file-Appended p f.disk ok in
      record { before = b ∙ b'; after = a ∙ a'; fits = n }

  pub some-not_none : (e : DiskError) → ◌≢◌ {A = Option DiskError} (some e) none
  some-not_none e = ground arith

  after_seek-Appended :
      (b : List ℕ) (e : Option DiskError) (o : OptimizedWriter)
      → (after_seek faults b e o).0.1 ≡ none
      → Appended b (file o) (file (after_seek faults b e o).1)
  after_seek-Appended b (some x) o h = absurd (some-not_none x h)
  after_seek-Appended b none o h = write_flushing-Appended b o.block_device h

  length-behind :
      (b : List ℕ) (d d' : Disk)
      → length b ≤ length d.after
      → d'.before ≡ d.before ++ take (length b) d.after
      → length d'.before - length b ≡ length d.before
  length-behind b d d' n eb = omega (
    arith,
    ap (λ (xs : List ℕ). length xs) eb,
    length-append d.before (take (length b) d.after),
    length-take (length b) d.after n,
  )

  -- Reading a frame and seeking back by as much leaves the position where it was.
  seek-undoes_read :
      (b : List ℕ) (d d' : Disk)
      → length b ≤ length d.after
      → d'.before ≡ d.before ++ take (length b) d.after
      → d'.after ≡ drop (length b) d.after
      → (seek_back faults (length b) d').0 ≡ none
      → ((seek_back faults (length b) d').1.before ≡ d.before)
        × ((seek_back faults (length b) d').1.after ≡ d.after)
  seek-undoes_read b d d' n eb ea h =
      let (sb, sa) = seek_back-moves (length b) d' h in
      let frame = take (length b) d.after in
      let same = length-behind b d d' n eb in
      (
        sb
            ∙ ap (λ (k : ℕ). take k d'.before) same
            ∙ ap (λ (xs : List ℕ). take (length d.before) xs) eb
            ∙ take-append d.before frame,
        sa
            ∙ ap (λ (k : ℕ). drop k d'.before ++ d'.after) same
            ∙ ap (λ (xs : List ℕ). drop (length d.before) xs ++ d'.after) eb
            ∙ ap (λ (xs : List ℕ). xs ++ d'.after) (drop-append d.before frame)
            ∙ ap (λ (xs : List ℕ). frame ++ xs) ea
            ∙ take-drop (length b) d.after,
      )

  sought-Appended :
      (b : List ℕ) (e : Option DiskError) (d d' : Disk) (o : OptimizedWriter)
      → (e ≡ none → (d'.before ≡ d.before) × (d'.after ≡ d.after))
      → (after_seek faults b e (with_disk o d')).0.1 ≡ none
      → Appended b d (file (after_seek faults b e (with_disk o d')).1)
  sought-Appended b (some x) d d' o back h = absurd (some-not_none x h)
  sought-Appended b none d d' o back h =
      let (eb, ea) = back refl in
      let w = after_seek-Appended b none (with_disk o d') h in
      record {
        before = w.before ∙ ap (λ (xs : List ℕ). xs ++ b) eb;
        after = w.after ∙ ap (λ (xs : List ℕ). drop (length b) xs) ea;
        fits = subst (λ (xs : List ℕ). length b ≤ length xs) ea w.fits;
      }

  after_read-Appended :
      (b : List ℕ) (d : Disk) (r : Option DiskError × List ℕ) (o : OptimizedWriter)
      → (r.0 ≡ none
          → (length b ≤ length d.after)
            × ((r.1 ≡ take (length b) d.after)
                × (((file o).before ≡ d.before ++ take (length b) d.after)
                    × ((file o).after ≡ drop (length b) d.after))))
      → (after_read faults b r o).0.1 ≡ none
      → Appended b d (file (after_read faults b r o).1)
  after_read-Appended b d (some e, payload) o read h = absurd (some-not_none e h)
  after_read-Appended b d (none, payload) o read h =
      let (n, (ep, (eb, ea))) = read refl in
      let branch = λ (q : Bool).
        if q
        then ((length b, none), counted 0 o)
        else (after_seek faults b (seek_back faults (length b) (file o)).0
            (with_disk o (seek_back faults (length b) (file o)).1)) in
      elim (Bool-cases (text_eq payload b)) [
        | inl same ↦
            subst (λ (q : Bool). Appended b d (file (branch q).1)) (sym same)
              (record {
                before =
                    eb
                    ∙ ap (λ (xs : List ℕ). d.before ++ xs) (sym ep ∙ text_eq_sound payload b same);
                after = ea;
                fits = n;
              })
        | inr differ ↦
            subst (λ (q : Bool). Appended b d (file (branch q).1)) (sym differ)
              (sought-Appended b (seek_back faults (length b) (file o)).0 d
                (seek_back faults (length b) (file o)).1 o
                (λ k. seek-undoes_read b d (file o) n eb ea k)
                (subst (λ (q : Bool). (branch q).0.1 ≡ none) differ h))
      ]

  pub write_frame-Appended :
      (b : List ℕ) (o : OptimizedWriter)
      → (write_frame faults b o).0.1 ≡ none
      → Appended b (file o) (file (write_frame faults b o).1)
  unfolding write_frame
  write_frame-Appended b o h =
      let (r, d) = read_full faults (length b) (file o) in
      after_read-Appended b (file o) r (with_disk o d) (λ k. read_full-moves (length b) (file o) k)
        h
