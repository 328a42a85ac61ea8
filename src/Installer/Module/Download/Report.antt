-- ===== src/Installer/Module/Download/Report.antt =====
-- A download that the client has been told no error of.
use mender.Prelude.{
  true, false, Option, none, some, List, ◌∷◌, String, str_eq, eq_iff, Bool, Bool-cases, ap, Error,
  ◌≡◌, ◌⊎◌, inl, inr, refl, arith, if◌then◌else◌,
}
use mender.Installer.Module.Download.{Download, Target, FileOp, FileFaults, Phase}
use mender.Installer.Module.Download.System.{Client, Downloading, start_download, Reach}
use mender.Installer.Module.Download.Told.{
  failed, pending, is_none, same_name, name_of, end_published, settled_type, busy, finishing_ok,
  fine, told, Reach-told,
}

module _ (faults : FileFaults) where
  fine-done :
      (d : Download) (p : Phase) (rs : List (Option Error)) (x : Option (Option Error))
      → failed rs ≡ false
      → told (Downloading.downloading d p Client.done rs x) ≡ true
      → (p ≡ Phase.stopped) × (x ≡ some none)
  fine-done d Phase.stopped rs x f h = ground arith
  fine-done d Phase.selecting rs x f h = ground arith
  fine-done d Phase.panicked rs x f h = ground arith
  fine-done d (Phase.sending (some e) es exits) rs x f h = ground arith
  fine-done d (Phase.sending none es exits) rs x f h = ground arith

  fine-told :
      (d : Download) (p : Phase) (c : Client) (rs : List (Option Error)) (x : Option (Option Error))
      → failed rs ≡ false
      → pending p c ≡ false
      → told (Downloading.downloading d p c rs x) ≡ true
      → fine d p c x ≡ true
  fine-told d p c rs x f q h = ground arith

  -- The loop sends a status.
  abbrev pub IsSending : Phase → Type 0
  IsSending p =
      (e : Option Error) × ((es : List (Option Error)) × ((exits : Bool) × (p
            ≡ Phase.sending e es exits)))

  -- The name of the current stream is being handed to the process, which runs; or the stream is on
  -- its way, into the file that the process reads, or into a file of the payload.
  abbrev pub IsServed : Download → Type 0
  IsServed d =
      (name : String) × ((d.current_stream ≡ some name)
        × (((d.stream_next ≡ some name) × (d.proc ≡ true))
            ⊎ ((d.stream ≡ some (Target.in_streams name))
                ⊎ (d.stream ≡ some (Target.in_files name)))))

  -- What a client waits for, and how it will come.
  abbrev pub IsComing : Download → Phase → Client → Type 0
  IsComing d p Client.ready = p ≡ Phase.selecting
  IsComing d p (Client.offering name) = p ≡ Phase.selecting
  IsComing d p Client.offering_finish = p ≡ Phase.selecting
  IsComing d p Client.waiting = IsSending p ⊎ ((p ≡ Phase.selecting) × IsServed d)
  IsComing d p Client.finishing =
      IsSending p
      ⊎ ((p ≡ Phase.selecting)
          × ((d.proc ≡ true) × ((ops : List FileOp) × (d.ops ≡ FileOp.open_stream_next "" ∷ ops))))
  IsComing d p Client.done = p ≡ Phase.stopped

  served-cases :
      (current next : Option String) (s : Option Target) (proc settled : Bool)
      → (if is_none s
          then (if same_name next current then proc else false)
          else (if is_none next
              then (if same_name (name_of s) current then settled else false)
              else false))
        ≡ true
      → (name : String) × ((current ≡ some name)
          × (((next ≡ some name) × (proc ≡ true))
              ⊎ ((s ≡ some (Target.in_streams name)) ⊎ (s ≡ some (Target.in_files name)))))
  served-cases (some n) (some m) none true settled h = elim (Bool-cases (str_eq m n)) [
    | inl e ↦ (n, (refl, inl (ap (λ (t : String). some t) ((eq_iff m n).0 e), refl)))
    | inr e ↦ ground arith
  ]
  served-cases (some n) next (some (Target.in_streams m)) proc settled h =
      elim (Bool-cases (str_eq m n)) [
        | inl e ↦ (
          n,
          (refl, inr (inl (ap (λ (t : String). some (Target.in_streams t)) ((eq_iff m n).0 e)))),
        )
        | inr e ↦ ground arith
      ]
  served-cases (some n) next (some (Target.in_files m)) proc settled h =
      elim (Bool-cases (str_eq m n)) [
        | inl e ↦ (
          n,
          (refl, inr (inr (ap (λ (t : String). some (Target.in_files t)) ((eq_iff m n).0 e)))),
        )
        | inr e ↦ ground arith
      ]
  served-cases none next s proc settled h = ground arith
  served-cases (some n) none none proc settled h = ground arith
  served-cases (some n) (some m) none false settled h = ground arith

  busy-IsServed : (d : Download) (x : Option (Option Error)) → busy d x ≡ true → IsServed d
  busy-IsServed d x h =
      served-cases d.current_stream d.stream_next d.stream d.proc (settled_type d.downloader_type)
        (ground arith)

  end-published :
      (ops : List FileOp)
      → end_published ops ≡ true
      → (rest : List FileOp) × (ops ≡ FileOp.open_stream_next "" ∷ rest)
  end-published (FileOp.open_stream_next String.[] ∷ ops) h = (ops, refl)
  end-published _ h = ground arith

  finishing-goes :
      (d : Download) (x : Option (Option Error))
      → finishing_ok d x ≡ true
      → (d.proc ≡ true) × (end_published d.ops ≡ true)
  finishing-goes d x h = ground arith

  fine-IsComing :
      (d : Download) (p : Phase) (c : Client) (x : Option (Option Error))
      → fine d p c x ≡ true
      → IsComing d p c
  fine-IsComing d Phase.selecting Client.ready x h = refl
  fine-IsComing d Phase.selecting (Client.offering name) x h = refl
  fine-IsComing d Phase.selecting Client.offering_finish x h = refl
  fine-IsComing d Phase.selecting Client.waiting x h = inr (refl, busy-IsServed d x h)
  fine-IsComing d Phase.selecting Client.finishing x h =
      let (runs, e) = finishing-goes d x h in inr (refl, (runs, end-published d.ops e))
  fine-IsComing d Phase.selecting Client.done x h = ground arith
  fine-IsComing d Phase.stopped Client.done x h = refl
  fine-IsComing d Phase.stopped _ x h = ground arith
  fine-IsComing d Phase.panicked c x h = ground arith
  fine-IsComing d (Phase.sending e es exits) Client.waiting x h = inl (e, (es, (exits, refl)))
  fine-IsComing d (Phase.sending e es exits) Client.finishing x h = inl (e, (es, (exits, refl)))
  fine-IsComing d (Phase.sending e es exits) _ x h = ground arith

  -- If FinishStoreUpdate has returned, and no status of the whole download was an error, then the
  -- loop has been left, and the process of the module has ended without an error.
  pub success-EndedWell :
      (d : Download) (p : Phase) (rs : List (Option Error)) (x : Option (Option Error))
      → Reach faults start_download (Downloading.downloading d p Client.done rs x)
      → failed rs ≡ false
      → (p ≡ Phase.stopped) × (x ≡ some none)
  success-EndedWell d p rs x r f = fine-done d p rs x f (Reach-told faults r)

  -- As long as no error has been reported or is being reported, what the client waits for is on its
  -- way. Before and while it calls, the loop is selecting. If it waits for the status of a stream,
  -- that is being sent; or the name of this stream is being handed to the process, which runs; or
  -- this stream is on its way, to the process or into a file. If it waits for the end, the status
  -- is being sent; or the process runs and the end of the streams was the last that was published
  -- to it. If it is done, the loop has been left.
  pub download-progresses :
      (d : Download) (p : Phase) (c : Client) (rs : List (Option Error)) (x : Option (Option Error))
      → Reach faults start_download (Downloading.downloading d p c rs x)
      → failed rs ≡ false
      → pending p c ≡ false
      → IsComing d p c
  download-progresses d p c rs x r f q =
      fine-IsComing d p c x (fine-told d p c rs x f q (Reach-told faults r))
