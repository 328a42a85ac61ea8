-- ===== src/Installer/BlockDevice.antt =====
-- Writing an image to a block device: the writers of installer/block_device.go, and
-- LimitedWriteCloser of utils/limited_writer.go. The open file of the device is a parameter: it has a
-- fixed size, and each of its operations may fail.
use mender.Prelude.{
  ℕ, zero, suc, ◌+◌, ◌-◌, ◌*◌, ◌/◌, ◌==◌, leb, ltb, min, length, Bool, true, false, Option, none,
  some, List, [], ◌∷◌, ◌++◌, Error, Result, if◌then◌else◌, not,
}
use mender.Bytes.{take, drop}
use mender.Text.{text_eq}
pub mod Frame
pub mod Refines
pub mod Image
pub mod Open
pub mod Succeeds

-- io.EOF, io.ErrUnexpectedEOF, ENOSPC, io.ErrShortWrite, and what the system reports.
pub data DiskError : Type 0 where
  eof unexpected_eof no_space short_write invalid : DiskError
  failed : Error → DiskError

pub data DiskOp : Type 0 where
  read seek wrote : ℕ → DiskOp
  sync close : DiskOp

-- The bytes before and behind the position of the file, and the operations so far, the latest first.
pub record Disk : Type 0 where
  pub before : List ℕ
  pub after : List ℕ
  pub ops : List DiskOp

-- The fault of the next operation, if it has one, and how many bytes it handled before.
abbrev pub Faults : Type 0
Faults = List DiskOp → Option (ℕ × Error)

-- An operation reports a number of bytes and an error.
abbrev pub Written : Type 0
Written = ℕ × Option DiskError

-- The next bytes are passed over.
abbrev pub moved : DiskOp → ℕ → Disk → Disk
moved op n d = record {
  before = d.before ++ take n d.after;
  after = drop n d.after;
  ops = op ∷ d.ops;
}

-- The next bytes are replaced.
abbrev pub overwrite : DiskOp → List ℕ → Disk → Disk
overwrite op p d = record {
  before = d.before ++ p;
  after = drop (length p) d.after;
  ops = op ∷ d.ops;
}

abbrev pub noted : DiskOp → Disk → Disk
noted op d = record d { ops = op ∷ d.ops }

module _ (faults : Faults) where
  -- io.ReadFull on the file, and how it ends when there are too few bytes.
  abbrev pub missing : ℕ → DiskError
  missing zero = DiskError.eof
  missing (suc n) = DiskError.unexpected_eof

  unfoldable pub read_full : ℕ → Disk → (Option DiskError × List ℕ) × Disk
  read_full n d = elim (faults d.ops) [
    | some (k, e) ↦ ((some (DiskError.failed e), []), moved (DiskOp.read n) (min k n) d)
    | none ↦
        if leb n (length d.after)
        then ((none, take n d.after), moved (DiskOp.read n) n d)
        else ((some (missing (length d.after)), []), moved (DiskOp.read n) (length d.after) d)
  ]

  -- Seek by a negative number of bytes from the position.
  unfoldable pub seek_back : ℕ → Disk → Option DiskError × Disk
  seek_back n d = elim (faults d.ops) [
    | some (k, e) ↦ (some (DiskError.failed e), noted (DiskOp.seek n) d)
    | none ↦
        if leb n (length d.before)
        then (
          none,
          record {
            before = take (length d.before - n) d.before;
            after = drop (length d.before - n) d.before ++ d.after;
            ops = DiskOp.seek n ∷ d.ops;
          },
        )
        else (some DiskError.invalid, noted (DiskOp.seek n) d)
  ]

  unfoldable pub write_file : List ℕ → Disk → Written × Disk
  write_file p d = elim (faults d.ops) [
    | some (k, e) ↦
        let n = min k (min (length p) (length d.after)) in
        ((n, some (DiskError.failed e)), overwrite (DiskOp.wrote (length p)) (take n p) d)
    | none ↦
        if leb (length p) (length d.after)
        then ((length p, none), overwrite (DiskOp.wrote (length p)) p d)
        else (
          (length d.after, some DiskError.no_space),
          overwrite (DiskOp.wrote (length p)) (take (length d.after) p) d,
        )
  ]

  abbrev pub simple : DiskOp → Disk → Option DiskError × Disk
  simple op d = elim (faults d.ops) [
    | some (k, e) ↦ (some (DiskError.failed e), noted op d)
    | none ↦ (none, noted op d)
  ]

-- FlushingWriter, which embeds the file.
pub record FlushingWriter : Type 0 where
  pub disk : Disk
  pub flush_interval_bytes : ℕ
  pub unflushed_bytes_written : ℕ

-- OptimizedBlockDeviceWriter
pub record OptimizedWriter : Type 0 where
  pub block_device : FlushingWriter
  pub total_frames : ℕ
  pub dirty_frames : ℕ

pub record BlockFrameWriter : Type 0 where
  pub buf : List ℕ
  pub frame_size : ℕ
  pub w : OptimizedWriter

-- LimitedWriteCloser
pub record LimitedWriter : Type 0 where
  pub w : BlockFrameWriter
  pub n : ℕ

abbrev pub with_disk : OptimizedWriter → Disk → OptimizedWriter
with_disk o d = record o { block_device = record o.block_device { disk = d } }

abbrev pub counted : ℕ → OptimizedWriter → OptimizedWriter
counted dirty o = record o {
  total_frames = o.total_frames + 1;
  dirty_frames = o.dirty_frames + dirty;
}

module _ (faults : Faults) where
  unfoldable pub sync_file : FlushingWriter → Option DiskError × FlushingWriter
  sync_file f =
      let (e, d) = simple faults DiskOp.sync f.disk in
      (e, record f { disk = d; unflushed_bytes_written = 0 })

  abbrev pub flush : ℕ → FlushingWriter → Written × FlushingWriter
  flush rv f =
      if leb f.flush_interval_bytes f.unflushed_bytes_written
      then (let (e, f') = sync_file f in ((rv, e), f'))
      else ((rv, none), f)

  -- What follows the write to the file.
  abbrev pub after_write : Written → FlushingWriter → Written × FlushingWriter
  after_write (rv, some e) f = ((rv, some e), f)
  after_write (rv, none) f = flush rv f

  unfoldable pub write_flushing : List ℕ → FlushingWriter → Written × FlushingWriter
  unfolding write_file sync_file
  write_flushing p f =
      let (r, d) = write_file faults p f.disk in
      after_write r
        (record f { disk = d; unflushed_bytes_written = f.unflushed_bytes_written + r.0 })

  -- The dirty frame is written where it was read.
  abbrev pub after_seek : List ℕ → Option DiskError → OptimizedWriter → Written × OptimizedWriter
  after_seek b (some e) o = ((0, some e), o)
  after_seek b none o =
      let (r, f) = write_flushing b o.block_device in (r, counted 1 (record o { block_device = f }))

  abbrev pub after_read :
      List ℕ → Option DiskError × List ℕ → OptimizedWriter → Written × OptimizedWriter
  after_read b (some e, payload) o = ((0, some e), o)
  after_read b (none, payload) o =
      if text_eq payload b
      then ((length b, none), counted 0 o)
      else let (e, d) = seek_back faults (length b) o.block_device.disk in
        after_seek b e (with_disk o d)

  unfoldable pub write_frame : List ℕ → OptimizedWriter → Written × OptimizedWriter
  unfolding read_full seek_back write_flushing
  write_frame b o =
      let (r, d) = read_full faults (length b) o.block_device.disk in after_read b r (with_disk o d)

  -- The loop over the full frames of the buffer, up to the first error.
  unfoldable pub frames_loop : ℕ → BlockFrameWriter → Option DiskError × BlockFrameWriter
  unfolding write_frame
  frames_loop zero bw = (none, bw)
  frames_loop (suc count) bw =
      let (r, o) = write_frame (take bw.frame_size bw.buf) bw.w in
      let bw' = record bw { buf = drop bw.frame_size bw.buf; w = o } in
      elim r.1 [ some e ↦ (some e, bw') | none ↦ frames_loop count bw' ]

  abbrev pub reported : ℕ → Option DiskError → Written
  reported n (some e) = (0, some e)
  reported n none = (n, none)

  unfoldable pub write_buffered : List ℕ → BlockFrameWriter → Written × BlockFrameWriter
  unfolding frames_loop
  write_buffered b bw =
      let bw' = record bw { buf = bw.buf ++ b } in
      if ltb (length bw'.buf) bw.frame_size
      then ((length b, none), bw')
      else let (e, bw'') = frames_loop (length bw'.buf / bw.frame_size) bw' in
        (reported (length b) e, bw'')

  -- The errors of Close: that of closing first, and the end of the file is none.
  abbrev pub close_error : Option DiskError → Option DiskError → Option DiskError
  close_error e (some c) = some c
  close_error (some DiskError.eof) none = none
  close_error e none = e

  unfoldable pub close_buffered : BlockFrameWriter → Option DiskError × BlockFrameWriter
  unfolding write_frame
  close_buffered bw =
      let (r, o) = write_frame bw.buf bw.w in
      let (c, d) = simple faults DiskOp.close o.block_device.disk in
      (close_error r.1 c, record bw { w = with_disk o d })

  abbrev pub or_self : Option DiskError → Option DiskError → Option DiskError
  or_self (some e) own = some e
  or_self none own = own

  unfoldable pub write_limited : List ℕ → LimitedWriter → Written × LimitedWriter
  unfolding write_buffered
  write_limited p lw =
      let own = if ltb lw.n (length p) then some DiskError.no_space else none in
      let ((n, e), bw) = write_buffered (take (min lw.n (length p)) p) lw.w in
      ((n, or_self e own), record { w = bw; n = lw.n - n })

  -- io.Copy of an image that is read in chunks, and whose reader ends with an error or without.
  unfoldable pub copy :
      Option DiskError → List (List ℕ) → LimitedWriter → Option DiskError × LimitedWriter
  unfolding write_limited
  copy end [] lw = (end, lw)
  copy end (p ∷ ps) lw =
      let ((n, e), lw') = write_limited p lw in
      elim e [
        | some x ↦ (some x, lw')
        | none ↦ elim (n == length p) [
          | true ↦ copy end ps lw'
          | false ↦ (some DiskError.short_write, lw')
        ]
      ]

  -- What StoreUpdate does with an open device.
  unfoldable pub store_image :
      Option DiskError → List (List ℕ) → LimitedWriter → Option DiskError × LimitedWriter
  unfolding copy close_buffered
  store_image end chunks lw =
      let (e, lw') = copy end chunks lw in
      let (c, bw) = close_buffered lw'.w in (or_self e c, record lw' { w = bw })
