-- ===== src/Installer/Module/Download/Blocked.antt =====
-- An error of the download loop while the client is not waiting for a status.
use mender.Prelude.{Bool, true, false, Option, none, some, List, [], Error, wrap, ◌≡◌, refl, arith}
use mathlib.Core.Path.{subst}
use mender.Installer.Module.Download.{Download, FileFaults, Phase, handle_cmd_err, conclude}
use mender.Installer.Module.Download.System.{Client, Downloading, after, Step, Reach}

-- The client sends a stream or the end.
abbrev pub offers : Client → Bool
offers (Client.offering name) = true
offers Client.offering_finish = true
offers _ = false

abbrev blocked : Downloading → Bool
blocked (Downloading.downloading d (Phase.sending e es exits) c rs x) = offers c
blocked _ = false

module _ (faults : FileFaults) where
  Step-not_blocked : {s t : Downloading} → Step faults s t → blocked s ≡ false
  Step-not_blocked (Step.download_stream name d Phase.selecting rs x) = refl
  Step-not_blocked (Step.download_stream name d Phase.stopped rs x) = refl
  Step-not_blocked (Step.download_stream name d Phase.panicked rs x) = refl
  Step-not_blocked (Step.download_stream name d (Phase.sending e es exits) rs x) = refl
  Step-not_blocked (Step.finish_download_process d Phase.selecting rs x) = refl
  Step-not_blocked (Step.finish_download_process d Phase.stopped rs x) = refl
  Step-not_blocked (Step.finish_download_process d Phase.panicked rs x) = refl
  Step-not_blocked (Step.finish_download_process d (Phase.sending e es exits) rs x) = refl
  Step-not_blocked (Step.next_artifact_stream name d rs x) = refl
  Step-not_blocked (Step.finish_channel d rs x) = refl
  Step-not_blocked (Step.cmd_err e d c rs x running) = refl
  Step-not_blocked (Step.stream_next_channel e name d c rs x published) = refl
  Step-not_blocked (Step.stream_channel e t d c rs x started) = refl
  Step-not_blocked (Step.stream_status e es exits d rs x) = refl
  Step-not_blocked (Step.finish_status e es exits d rs x) = refl

  not_both : (b : Bool) → b ≡ true → b ≡ false → ⊥
  not_both b h k = ground arith

  blocked-stuck : (s : Downloading) → blocked s ≡ true → (t : Downloading) → ¬ Step faults s t
  blocked-stuck s h t st = not_both (blocked s) h (Step-not_blocked st)

  -- The state in which the error of the process is about to be sent.
  abbrev pub reporting : Error → Download → Client → List (Option Error) → Downloading
  reporting e d c rs =
      Downloading.downloading (record d { proc = false }) (Phase.sending (some (wrap e)) [] false) c
        rs (some (some e))

  after-reporting :
      (e : Error) (d : Download) (c : Client) (rs : List (Option Error))
      → d.finish_flag ≡ false
      → after (handle_cmd_err faults (some e) d) d c rs (some (some e)) ≡ reporting e d c rs
  unfolding handle_cmd_err conclude
  after-reporting e d c rs h = rw h refl

  call :
      (c : Client) (d : Download) (p : Phase) (rs : List (Option Error)) (x : Option (Option Error))
      → offers c ≡ true
      → Step faults
          (Downloading.downloading d p Client.ready rs x)
          (Downloading.downloading d p c rs x)
  call (Client.offering name) d p rs x h = Step.download_stream name d p rs x
  call Client.offering_finish d p rs x h = Step.finish_download_process d p rs x
  call Client.ready d p rs x h = ground arith
  call Client.waiting d p rs x h = ground arith
  call Client.finishing d p rs x h = ground arith
  call Client.done d p rs x h = ground arith

  -- The module may end abnormally while the client is between two calls, before the end of the
  -- streams: then, if the client goes on to the next stream, or to the end of the streams, the loop
  -- waits for the client to take the error and the client waits for the loop to take the stream or
  -- the end, and neither ever goes on.
  pub abnormal_end-blocks :
      (e : Error) (d : Download) (rs : List (Option Error)) (c : Client)
      → offers c ≡ true
      → d.proc ≡ true
      → d.finish_flag ≡ false
      → (s : Downloading) × (Reach faults
            (Downloading.downloading d Phase.selecting Client.ready rs none)
            s
          × ((s ≡ reporting e d c rs) × ((t : Downloading) → ¬ Step faults s t)))
  abnormal_end-blocks e d rs c o running open_end =
      let died =
        subst
          (λ (t : Downloading).
            Step faults (Downloading.downloading d Phase.selecting Client.ready rs none) t)
          (after-reporting e d Client.ready rs open_end)
          (Step.cmd_err (some e) d Client.ready rs none running) in
      let called =
        call c (record d { proc = false }) (Phase.sending (some (wrap e)) [] false) rs
          (some (some e)) o in
      (
        reporting e d c rs,
        (
          Reach.later (Reach.later Reach.here died) called,
          (refl, blocked-stuck (reporting e d c rs) o),
        ),
      )
