-- ===== src/Installer/Module/Download/System.antt =====
-- The download loop and the client that it serves over unbuffered channels: a send and its receive
-- are one step. The client is detachedDownloadProcess's counterpart in installer/modules.go:
-- downloadStream and finishDownloadProcess. The module and the streaming routines end as they like.
use mender.Prelude.{Bool, true, Option, none, some, List, [], ◌∷◌, String, Error, ◌≡◌}
use mender.Installer.Module.Download.{
  Download, Target, FileFaults, Handled, Phase, new_module_download, handle_cmd_err,
  handle_next_artifact_stream, handle_stream_next_channel, handle_stream_channel,
  handle_finish_channel, send_all, conclude,
}

-- Between two calls; sending a stream, and waiting for its status; the same for the end.
pub data Client : Type 0 where
  ready waiting offering_finish finishing done : Client
  offering : String → Client

-- The statuses that the client has received, the latest first, and how the process has ended.
pub data Downloading : Type 0 where
  downloading :
      Download → Phase → Client → List (Option Error) → Option (Option Error) → Downloading

-- PrepareStoreUpdate has started the module.
abbrev pub start_download : Downloading
start_download = Downloading.downloading new_module_download Phase.selecting Client.ready [] none

abbrev pub after :
    Handled → Download → Client → List (Option Error) → Option (Option Error) → Downloading
unfolding conclude
after h d c rs x = let (p, d') = conclude h d in Downloading.downloading d' p c rs x

pub data Step (faults : FileFaults) : Downloading → Downloading → Type 0 where
  download_stream :
      (name : String) (d : Download) (p : Phase) (rs : List (Option Error))
      (x : Option (Option Error))
      → Step faults
          (Downloading.downloading d p Client.ready rs x)
          (Downloading.downloading d p (Client.offering name) rs x)
  finish_download_process :
      (d : Download) (p : Phase) (rs : List (Option Error)) (x : Option (Option Error))
      → Step faults
          (Downloading.downloading d p Client.ready rs x)
          (Downloading.downloading d p Client.offering_finish rs x)
  next_artifact_stream :
      (name : String) (d : Download) (rs : List (Option Error)) (x : Option (Option Error))
      → Step faults
          (Downloading.downloading d Phase.selecting (Client.offering name) rs x)
          (after (handle_next_artifact_stream faults name d) d Client.waiting rs x)
  finish_channel :
      (d : Download) (rs : List (Option Error)) (x : Option (Option Error))
      → Step faults
          (Downloading.downloading d Phase.selecting Client.offering_finish rs x)
          (after (handle_finish_channel faults d) d Client.finishing rs x)
  cmd_err :
      (e : Option Error) (d : Download) (c : Client) (rs : List (Option Error))
      (x : Option (Option Error))
      → d.proc ≡ true
      → Step faults
          (Downloading.downloading d Phase.selecting c rs x)
          (after (handle_cmd_err faults e d) d c rs (some e))
  stream_next_channel :
      (e : Option Error) (name : String) (d : Download) (c : Client) (rs : List (Option Error))
      (x : Option (Option Error))
      → d.stream_next ≡ some name
      → Step faults
          (Downloading.downloading d Phase.selecting c rs x)
          (after (handle_stream_next_channel e d) d c rs x)
  stream_channel :
      (e : Option Error) (t : Target) (d : Download) (c : Client) (rs : List (Option Error))
      (x : Option (Option Error))
      → d.stream ≡ some t
      → Step faults
          (Downloading.downloading d Phase.selecting c rs x)
          (after (handle_stream_channel e d) d c rs x)
  stream_status :
      (e : Option Error) (es : List (Option Error)) (exits : Bool) (d : Download)
      (rs : List (Option Error)) (x : Option (Option Error))
      → Step faults
          (Downloading.downloading d (Phase.sending e es exits) Client.waiting rs x)
          (Downloading.downloading d (send_all es exits) Client.ready (e ∷ rs) x)
  finish_status :
      (e : Option Error) (es : List (Option Error)) (exits : Bool) (d : Download)
      (rs : List (Option Error)) (x : Option (Option Error))
      → Step faults
          (Downloading.downloading d (Phase.sending e es exits) Client.finishing rs x)
          (Downloading.downloading d (send_all es exits) Client.done (e ∷ rs) x)

pub data Reach (faults : FileFaults) (s : Downloading) : Downloading → Type 0 where
  here : Reach faults s s
  later : {t u : Downloading} → Reach faults s t → Step faults t u → Reach faults s u
