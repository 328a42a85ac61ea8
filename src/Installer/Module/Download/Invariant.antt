-- ===== src/Installer/Module/Download/Invariant.antt =====
-- What holds of the download loop in every state that it reaches.
use mender.Prelude.{
  Bool, Bool-cases, true, false, Option, none, some, List, [], ◌∷◌, ◌++◌, String, Error, ◌≡◌, ◌≢◌,
  inl, inr, refl, arith, if◌then◌else◌, not,
}
use mender.Installer.Module.Download.{
  Download, Downloader, FileFaults, Handled, Phase, initialize_mender_download, handle_cmd_err,
  publish_name_in_stream_next, offered, handle_next_artifact_stream, handle_stream_next_channel,
  handle_stream_channel, handle_finish_channel, send_all, conclude, leaves, cancelled, is_error,
}
use mender.Installer.Module.Download.System.{
  Client, Downloading, start_download, after, Step, Reach,
}

abbrev known : Option String → Option String → Bool → Bool
known none current finish = true
known (some name) (some current) finish = true
known (some name) none finish = finish

-- Mender's own downloader runs only when the process has ended.
abbrev after_process : Downloader → Bool → Bool
after_process Downloader.mender_downloader proc = not proc
after_process _ proc = true

abbrev same_end : Bool → Option (Option Error) → Bool
same_end true none = true
same_end false (some e) = true
same_end _ _ = false

abbrev state_ok : Download → Option (Option Error) → Bool
state_ok d x =
    if known d.stream_next d.current_stream d.finish_flag
    then (if after_process d.downloader_type d.proc then same_end d.proc x else false)
    else false

abbrev phase_ok : Phase → Download → Bool
phase_ok Phase.selecting d = not (leaves d)
phase_ok Phase.stopped d = leaves d
phase_ok Phase.panicked d = false
phase_ok (Phase.sending e es exits) d = if exits then leaves d else not (leaves d)

abbrev sound : Downloading → Bool
sound (Downloading.downloading d p c rs x) = if state_ok d x then phase_ok p d else false

abbrev handled_ok : Handled → Option (Option Error) → Bool
handled_ok Handled.panics x = false
handled_ok (Handled.handled sent e d) x = state_ok d x

send_all-ok :
    (es : List (Option Error)) (exits : Bool) (d : Download)
    → leaves d ≡ exits
    → phase_ok (send_all es exits) d ≡ true
send_all-ok [] true d h = h
send_all-ok [] false d h = ground arith
send_all-ok (e ∷ es) true d h = h
send_all-ok (e ∷ es) false d h = ground arith

state_ok-cancelled :
    (d : Download) (x : Option (Option Error))
    → state_ok d x ≡ true
    → state_ok (cancelled d) x ≡ true
state_ok-cancelled d x h = ground arith

after-sound :
    (h : Handled) (d : Download) (c : Client) (rs : List (Option Error)) (x : Option (Option Error))
    → handled_ok h x ≡ true
    → sound (after h d c rs x) ≡ true
unfolding conclude
after-sound Handled.panics d c rs x h = ground arith
after-sound (Handled.handled sent e d') d c rs x h = elim (Bool-cases (leaves d')) [
  | inl l ↦ rw (l, state_ok-cancelled d' x h) (send_all-ok (sent ++ (e ∷ [])) true (cancelled d') l)
  | inr l ↦ rw (l, h) (send_all-ok (sent ++ is_error e) false d' l)
]

handle_finish-ok :
    (faults : FileFaults) (d : Download) (x : Option (Option Error))
    → state_ok d x ≡ true
    → handled_ok (handle_finish_channel faults d) x ≡ true
unfolding handle_finish_channel publish_name_in_stream_next
handle_finish-ok faults d x h = ground arith

handle_stream-ok :
    (faults : FileFaults) (e : Option Error) (d : Download) (x : Option (Option Error))
    → state_ok d x ≡ true
    → handled_ok (handle_stream_channel e d) x ≡ true
unfolding handle_stream_channel
handle_stream-ok faults none d x h = h
handle_stream-ok faults (some e) d x h = h

handle_stream_next-ok :
    (faults : FileFaults) (e : Option Error) (name : String) (d : Download)
    (x : Option (Option Error))
    → state_ok d x ≡ true
    → d.stream_next ≡ some name
    → handled_ok (handle_stream_next_channel e d) x ≡ true
unfolding handle_stream_next_channel
handle_stream_next-ok faults e name d x h k = ground arith

offered-ok :
    (faults : FileFaults) (name : String) (d : Download) (x : Option (Option Error))
    → state_ok d x ≡ true
    → handled_ok (offered faults d.downloader_type name (record d { current_stream = some name })) x
      ≡ true
unfolding publish_name_in_stream_next
offered-ok faults String.[] d x h = ground arith
offered-ok faults (String.◌∷◌ c name) d x h = ground arith

handle_next-ok :
    (faults : FileFaults) (name : String) (d : Download) (x : Option (Option Error))
    → state_ok d x ≡ true
    → handled_ok (handle_next_artifact_stream faults name d) x ≡ true
unfolding handle_next_artifact_stream
handle_next-ok faults name d x h = offered-ok faults name d x h

handle_cmd_err-ok :
    (faults : FileFaults) (e : Option Error) (d : Download)
    → state_ok d none ≡ true
    → handled_ok (handle_cmd_err faults e d) (some e) ≡ true
unfolding handle_cmd_err initialize_mender_download
handle_cmd_err-ok faults e d h = ground arith

sound-state :
    (d : Download) (p : Phase) (c : Client) (rs : List (Option Error)) (x : Option (Option Error))
    → sound (Downloading.downloading d p c rs x) ≡ true
    → (state_ok d x ≡ true) × (phase_ok p d ≡ true)
sound-state d p c rs x h = ground arith

sent-ok :
    (es : List (Option Error)) (exits : Bool) (d : Download)
    → (if exits then leaves d else not (leaves d)) ≡ true
    → phase_ok (send_all es exits) d ≡ true
sent-ok es true d h = send_all-ok es true d h
sent-ok es false d h = send_all-ok es false d (ground arith)

status-sound :
    (e : Option Error) (es : List (Option Error)) (exits : Bool) (d : Download) (c c' : Client)
    (rs : List (Option Error)) (x : Option (Option Error))
    → sound (Downloading.downloading d (Phase.sending e es exits) c rs x) ≡ true
    → sound (Downloading.downloading d (send_all es exits) c' (e ∷ rs) x) ≡ true
status-sound e es exits d c c' rs x h =
    let (s, p) = sound-state d (Phase.sending e es exits) c rs x h in rw s (sent-ok es exits d p)

still-running :
    (d : Download) (x : Option (Option Error))
    → state_ok d x ≡ true
    → d.proc ≡ true
    → state_ok d none ≡ true
still-running d x h k = ground arith

module _ (faults : FileFaults) where
  pub Step-sound : {s t : Downloading} → Step faults s t → sound s ≡ true → sound t ≡ true
  Step-sound (Step.download_stream name d p rs x) h = h
  Step-sound (Step.finish_download_process d p rs x) h = h
  Step-sound (Step.next_artifact_stream name d rs x) h =
      let (s, p) = sound-state d Phase.selecting (Client.offering name) rs x h in
      after-sound (handle_next_artifact_stream faults name d) d Client.waiting rs x
        (handle_next-ok faults name d x s)
  Step-sound (Step.finish_channel d rs x) h =
      let (s, p) = sound-state d Phase.selecting Client.offering_finish rs x h in
      after-sound (handle_finish_channel faults d) d Client.finishing rs x
        (handle_finish-ok faults d x s)
  Step-sound (Step.cmd_err e d c rs x running) h =
      let (s, p) = sound-state d Phase.selecting c rs x h in
      after-sound (handle_cmd_err faults e d) d c rs (some e)
        (handle_cmd_err-ok faults e d (still-running d x s running))
  Step-sound (Step.stream_next_channel e name d c rs x some_name) h =
      let (s, p) = sound-state d Phase.selecting c rs x h in
      after-sound (handle_stream_next_channel e d) d c rs x
        (handle_stream_next-ok faults e name d x s some_name)
  Step-sound (Step.stream_channel e t d c rs x some_stream) h =
      let (s, p) = sound-state d Phase.selecting c rs x h in
      after-sound (handle_stream_channel e d) d c rs x (handle_stream-ok faults e d x s)
  Step-sound (Step.stream_status e es exits d rs x) h =
      status-sound e es exits d Client.waiting Client.ready rs x h
  Step-sound (Step.finish_status e es exits d rs x) h =
      status-sound e es exits d Client.finishing Client.done rs x h

  pub Reach-sound : {s : Downloading} → Reach faults start_download s → sound s ≡ true
  Reach-sound Reach.here = refl
  Reach-sound (Reach.later r st) = Step-sound st (Reach-sound r)

  -- Whatever fails, and in whatever order the client, the module and the streams get on: the loop
  -- never uses a current stream that it does not have; Mender's own downloader is at work only when
  -- the process of the module has ended; and the loop has been left only when the client has said
  -- that the streams are finished and the process has ended.
  pub download-IsSound :
      (d : Download) (p : Phase) (c : Client) (rs : List (Option Error)) (x : Option (Option Error))
      → Reach faults start_download (Downloading.downloading d p c rs x)
      → (p ≢ Phase.panicked)
        × ((d.downloader_type ≡ Downloader.mender_downloader → d.proc ≡ false)
            × (p ≡ Phase.stopped → (d.finish_flag ≡ true) × (d.proc ≡ false)))
  download-IsSound d p c rs x r =
      let (s, q) = sound-state d p c rs x (Reach-sound r) in
      (λ (e : p ≡ Phase.panicked). (ground arith), (λ e. (ground arith), λ e. (ground arith)))
