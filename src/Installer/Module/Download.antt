-- ===== src/Installer/Module/Download.antt =====
-- The download loop of an update module: moduleDownload of installer/modules.go. The file operations are a
-- parameter: each of them may fail.
use mender.Prelude.{
  Bool, true, false, Option, none, some, List, [], ◌∷◌, ◌++◌, String, Error, other, wrap,
  if◌then◌else◌, not,
}
pub mod System
pub mod Invariant
pub mod Told
pub mod Report
pub mod Blocked

pub data Downloader : Type 0 where
  unknown_downloader module_downloader mender_downloader : Downloader

-- What is done to the files; a name is handed on through stream-next, or none for the end.
pub data FileOp : Type 0 where
  remove_streams remove_stream_next make_files : FileOp
  make_fifo open_stream_next : String → FileOp

-- The file that a payload file is streamed into.
pub data Target : Type 0 where
  in_streams in_files : String → Target

abbrev pub FileFaults : Type 0
FileFaults = List FileOp → Option Error

-- moduleDownload: whether the process runs, the variables of the loop, and the file operations so
-- far, the latest first. stream_next holds the name that is being published, empty for the end of
-- the streams.
pub record Download : Type 0 where
  pub proc : Bool
  pub downloader_type : Downloader
  pub current_stream : Option String
  pub finish_flag : Bool
  pub stream_next : Option String
  pub stream : Option Target
  pub ops : List FileOp

abbrev pub new_module_download : Download
new_module_download = record {
  proc = true;
  downloader_type = Downloader.unknown_downloader;
  current_stream = none;
  finish_flag = false;
  stream_next = none;
  stream = none;
  ops = [];
}

-- What handling an event comes to: a nil dereference, or the statuses sent on the way, the error that is
-- returned, and the state.
pub data Handled : Type 0 where
  panics : Handled
  handled : List (Option Error) → Option Error → Download → Handled

abbrev pub in_the_middle : Error
in_the_middle = other "Update module terminated in the middle of the download"

abbrev pub settled : Downloader → Downloader
settled Downloader.unknown_downloader = Downloader.module_downloader
settled t = t

abbrev pub is_mender : Downloader → Bool
is_mender Downloader.mender_downloader = true
is_mender _ = false

abbrev pub start_files : Option String → Download → Download
start_files none d = d
start_files (some name) d = record d { stream = some (Target.in_files name) }

abbrev pub after_initialize : Option Error × Download → Handled
after_initialize (some e, d) = Handled.handled [] (some e) d
after_initialize (none, d) = Handled.handled [] none (start_files d.current_stream d)

-- A stream that is not returned leaves the variable nil.
abbrev pub published : String → Option Error × Download → Handled
published name (some e, d) = Handled.handled [] (some (wrap e)) (record d { stream_next = none })
published name (none, d) =
    Handled.handled [] none
      (record d { stream_next = some name; ops = FileOp.open_stream_next name ∷ d.ops })

abbrev pub stream_current : Option String → Download → Handled
stream_current none d = Handled.panics
stream_current (some name) d =
    Handled.handled [] none (record d { stream = some (Target.in_streams name) })

abbrev pub name_published : Option Error → Download → Handled
name_published (some e) d = Handled.handled [] (some e) d
name_published none d =
    let d' = record d { downloader_type = settled d.downloader_type } in
    if d.finish_flag then Handled.handled [] none d' else stream_current d.current_stream d'

unfoldable pub handle_stream_next_channel : Option Error → Download → Handled
handle_stream_next_channel e d =
    if is_mender d.downloader_type
    then Handled.handled [] none (record d { stream_next = none })
    else name_published e (record d { stream_next = none })

unfoldable pub handle_stream_channel : Option Error → Download → Handled
handle_stream_channel (some e) d = Handled.handled [] (some e) (record d { stream = none })
handle_stream_channel none d = Handled.handled (none ∷ []) none (record d { stream = none })

module _ (faults : FileFaults) where
  abbrev pub perform : FileOp → Download → Option Error × Download
  perform op d = (faults d.ops, record d { ops = op ∷ d.ops })

  -- Another operation when there has been no error.
  abbrev pub and_then : FileOp → Option Error × Download → Option Error × Download
  and_then op (some e, d) = (some e, d)
  and_then op (none, d) = perform op d

  unfoldable pub initialize_mender_download : Download → Option Error × Download
  initialize_mender_download d =
      and_then FileOp.make_files
        (and_then FileOp.remove_stream_next (perform FileOp.remove_streams d))

  abbrev pub process_ended : Downloader → Download → Handled
  unfolding initialize_mender_download
  process_ended Downloader.unknown_downloader d = after_initialize (
      initialize_mender_download
        (record d { downloader_type = Downloader.mender_downloader; stream_next = none }))
  process_ended Downloader.module_downloader d = Handled.handled [] (some in_the_middle) d
  process_ended Downloader.mender_downloader d = Handled.handled [] none d

  unfoldable pub handle_cmd_err : Option Error → Download → Handled
  unfolding initialize_mender_download
  handle_cmd_err (some e) d = Handled.handled [] (some (wrap e)) (record d { proc = false })
  handle_cmd_err none d =
      if d.finish_flag
      then Handled.handled [] none (record d { proc = false })
      else process_ended d.downloader_type (record d { proc = false })

  unfoldable pub publish_name_in_stream_next : String → Download → Handled
  publish_name_in_stream_next String.[] d = published String.[] (none, d)
  publish_name_in_stream_next (String.◌∷◌ c name) d =
      published (String.◌∷◌ c name) (perform (FileOp.make_fifo (String.◌∷◌ c name)) d)

  abbrev pub offered : Downloader → String → Download → Handled
  unfolding publish_name_in_stream_next
  offered Downloader.mender_downloader name d =
      Handled.handled [] none (record d { stream = some (Target.in_files name) })
  offered _ name d = publish_name_in_stream_next name d

  -- The name has been received as the current stream.
  unfoldable pub handle_next_artifact_stream : String → Download → Handled
  unfolding publish_name_in_stream_next
  handle_next_artifact_stream name d =
      offered d.downloader_type name (record d { current_stream = some name })

  unfoldable pub handle_finish_channel : Download → Handled
  unfolding publish_name_in_stream_next
  handle_finish_channel d =
      let d' = record d { finish_flag = true } in
      if is_mender d.downloader_type
      then Handled.handled [] none d'
      else publish_name_in_stream_next String.[] d'

-- What the loop does next: select an event, send statuses and then select or leave, and it has left, or panicked.
pub data Phase : Type 0 where
  selecting stopped panicked : Phase
  sending : Option Error → List (Option Error) → Bool → Phase

abbrev pub send_all : List (Option Error) → Bool → Phase
send_all [] true = Phase.stopped
send_all [] false = Phase.selecting
send_all (e ∷ es) leaves = Phase.sending e es leaves

-- The deferred cancelling of the streams.
abbrev pub cancelled : Download → Download
cancelled d = record d { stream_next = none; stream = none }

abbrev pub is_error : Option Error → List (Option Error)
is_error none = []
is_error (some e) = some e ∷ []

-- The streams have finished, and so has the process.
abbrev pub leaves : Download → Bool
leaves d = if d.finish_flag then not d.proc else false

-- The end of an iteration of downloadProcessLoop, and of detachedDownloadProcess when the loop is left.
unfoldable pub conclude : Handled → Download → Phase × Download
conclude Handled.panics d = (Phase.panicked, d)
conclude (Handled.handled sent e d') d =
    if leaves d'
    then (send_all (sent ++ (e ∷ [])) true, cancelled d')
    else (send_all (sent ++ is_error e) false, d')
