-- ===== src/Examples/Payload.antt =====
-- Tests and witnesses: storing an image on a partition, and update modules.
use mender.Prelude.{
  ℕ, ◌≡◌, ◌≢◌, ◌⊎◌, refl, arith, true, false, Option, none, some, List, [], ◌∷◌, Error, other, ok,
}
use mender.Text.{text, ℤ}
use mender.Installer.BlockDevice.{Disk, LimitedWriter, store_image, write_file, sync_file}
use mender.Installer.BlockDevice.Open.{
  Partition, Opened, open_device, chunk_loop, store_image_refines_overwriting,
}
use mender.Installer.BlockDevice.Succeeds.{no_faults, store_image-succeeds}
use mender.Installer.Module.Download.{
  Download, Downloader, Target, FileFaults, Phase, new_module_download, conclude,
  handle_next_artifact_stream, handle_stream_next_channel, handle_stream_channel,
  handle_finish_channel, handle_cmd_err, publish_name_in_stream_next, FileOp,
}
use mender.Installer.Module.Download.System.{Client, Downloading, start_download, Step, Reach}
use mender.Installer.Module.Download.Invariant.{download-IsSound}
use mender.Installer.Module.Download.Report.{
  IsSending, IsServed, success-EndedWell, download-progresses,
}
use mender.Installer.Module.Download.Blocked.{reporting, abnormal_end-blocks}
use mender.Installer.Module.Tree.{TreeFaults, TreeInfo, build_streams_tree}
use mender.Installer.Module.Built.{FileTree, replay, IsFilled, build_streams_tree-IsFilled}

-- A partition of six bytes with the sectors of a disk.
abbrev partition : Partition
partition = record {
  mounted = true;
  unmount_error = none;
  is_ubi = false;
  size = ok 6;
  sector_size = ok 512;
  open_error = none;
  set_volume_error = none;
  contents = 9 ∷ (9 ∷ (9 ∷ (9 ∷ (9 ∷ (9 ∷ [])))));
}

abbrev image : List (List ℕ)
image = (1 ∷ (2 ∷ [])) ∷ ((3 ∷ []) ∷ [])

abbrev writer : ℕ → LimitedWriter
writer frame_size = record {
  w = record {
    buf = [];
    frame_size = frame_size;
    w = record {
      block_device = record {
        disk = record { before = []; after = partition.contents; ops = [] };
        flush_interval_bytes = 512;
        unflushed_bytes_written = 0;
      };
      total_frames = 0;
      dirty_frames = 0;
    };
  };
  n = 3;
}

opened : open_device (ℤ.pos 3) partition ≡ Opened.framed (writer 1048576)
unfolding open_device chunk_loop
opened = refl

abbrev disk_of : LimitedWriter → Disk
disk_of lw = lw.w.w.block_device.disk

stored : (store_image no_faults none image (writer 1048576)).0 ≡ none
unfolding store_image write_file sync_file
stored = refl

store_image_refines_overwriting_example :
    let d = disk_of (store_image no_faults none image (writer 1048576)).1 in
    (d.before ≡ 1 ∷ (2 ∷ (3 ∷ []))) × (d.after ≡ 9 ∷ (9 ∷ (9 ∷ [])))
store_image_refines_overwriting_example =
    store_image_refines_overwriting no_faults none image 3 partition (writer 1048576) refl opened
      stored

store_image-succeeds_example : (store_image no_faults none image (writer 2)).0 ≡ none
store_image-succeeds_example =
    store_image-succeeds image (writer 2) refl (omega arith) (omega arith)

abbrev no_file_faults : FileFaults
no_file_faults ops = none

-- A module takes one file and the end of the streams, and ends.
abbrev published : Download
published = record new_module_download {
  current_stream = some "image";
  stream_next = some "image";
  ops = FileOp.open_stream_next "image" ∷ (FileOp.make_fifo "image" ∷ []);
}

abbrev streaming : Download
streaming = record published {
  downloader_type = Downloader.module_downloader;
  stream_next = none;
  stream = some (Target.in_streams "image");
}

abbrev streamed : Download
streamed = record streaming { stream = none }

abbrev ending : Download
ending = record streamed {
  finish_flag = true;
  stream_next = some "";
  ops = FileOp.open_stream_next "" ∷ streamed.ops;
}

abbrev read_end : Download
read_end = record ending { stream_next = none }

abbrev ended : Download
ended = record read_end { proc = false }

abbrev finished : Downloading
finished = Downloading.downloading ended Phase.stopped Client.done (none ∷ (none ∷ [])) (some none)

stream_sent :
    Reach no_file_faults start_download
      (Downloading.downloading streamed (Phase.sending none [] false) Client.waiting [] none)
unfolding conclude publish_name_in_stream_next handle_next_artifact_stream
    handle_stream_next_channel handle_stream_channel
stream_sent =
    Reach.later
      (Reach.later
        (Reach.later
          (Reach.later Reach.here
            (Step.download_stream "image" new_module_download Phase.selecting [] none))
          (Step.next_artifact_stream "image" new_module_download [] none))
        (Step.stream_next_channel none "image" published Client.waiting [] none refl))
      (Step.stream_channel none (Target.in_streams "image") streaming Client.waiting [] none refl)

whole_download : Reach no_file_faults start_download finished
unfolding conclude publish_name_in_stream_next handle_stream_next_channel handle_finish_channel
    handle_cmd_err
whole_download =
    Reach.later
      (Reach.later
        (Reach.later
          (Reach.later
            (Reach.later
              (Reach.later stream_sent (Step.stream_status none [] false streamed [] none))
              (Step.finish_download_process streamed Phase.selecting (none ∷ []) none))
            (Step.finish_channel streamed (none ∷ []) none))
          (Step.stream_next_channel none "" ending Client.finishing (none ∷ []) none refl))
        (Step.cmd_err none read_end Client.finishing (none ∷ []) none refl))
      (Step.finish_status none [] true ended (none ∷ []) (some none))

download-IsSound_example :
    (Phase.stopped ≢ Phase.panicked)
    × ((ended.downloader_type ≡ Downloader.mender_downloader → ended.proc ≡ false)
        × (Phase.stopped ≡ Phase.stopped → (ended.finish_flag ≡ true) × (ended.proc ≡ false)))
download-IsSound_example =
    download-IsSound no_file_faults ended Phase.stopped Client.done (none ∷ (none ∷ [])) (some none)
      whole_download

success-EndedWell_example :
    (Phase.stopped ≡ Phase.stopped) × (◌≡◌ {A = Option (Option Error)} (some none) (some none))
success-EndedWell_example =
    success-EndedWell no_file_faults ended Phase.stopped (none ∷ (none ∷ [])) (some none)
      whole_download refl

-- The module has been told the name of the file, and has not yet asked for it.
name_published :
    Reach no_file_faults start_download
      (Downloading.downloading published Phase.selecting Client.waiting [] none)
unfolding conclude publish_name_in_stream_next handle_next_artifact_stream
name_published =
    Reach.later
      (Reach.later Reach.here
        (Step.download_stream "image" new_module_download Phase.selecting [] none))
      (Step.next_artifact_stream "image" new_module_download [] none)

download-progresses_example :
    IsSending no_file_faults Phase.selecting
    ⊎ ((Phase.selecting ≡ Phase.selecting) × IsServed no_file_faults published)
download-progresses_example =
    download-progresses no_file_faults published Phase.selecting Client.waiting [] none
      name_published refl refl

-- The module crashes before the first file.
abnormal_end-blocks_example :
    (s : Downloading) × (Reach no_file_faults start_download s
      × ((s
            ≡ reporting no_file_faults
                (other "exit status 1")
                new_module_download
                (Client.offering "image")
                [])
          × ((t : Downloading) → ¬ Step no_file_faults s t)))
abnormal_end-blocks_example =
    abnormal_end-blocks no_file_faults (other "exit status 1") new_module_download []
      (Client.offering "image") refl refl refl

abbrev tree_faults : TreeFaults
tree_faults = record { fails = λ ops. none; short = λ ops. false }

abbrev tree_info : TreeInfo
tree_info = record {
  current_artifact_name = ok (text "release-1");
  current_artifact_group = ok [];
  device_type = ok (text "beaglebone");
  header_info_json = ok (text "{}");
  type_info = ok (text "{}");
  meta_data = ok [];
  version = text "3";
  artifact_group = [];
  artifact_name = text "release-2";
}

-- A tree that is left from another payload.
abbrev old_tree : FileTree
old_tree = record {
  dirs = text "files" ∷ [];
  files = (text "left", []) ∷ [];
  fifos = [];
  synced = false;
}

tree_is_built : (build_streams_tree tree_faults tree_info (text "single-file") []).0 ≡ none
unfolding build_streams_tree
tree_is_built = refl

build_streams_tree-IsFilled_example :
    IsFilled tree_info
      (text "single-file")
      (replay old_tree (build_streams_tree tree_faults tree_info (text "single-file") []).1)
build_streams_tree-IsFilled_example =
    build_streams_tree-IsFilled tree_faults tree_info (text "single-file") old_tree tree_is_built
