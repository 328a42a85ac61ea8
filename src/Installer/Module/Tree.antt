-- ===== src/Installer/Module/Tree.antt =====
-- The tree that an update module finds its payload in: buildStreamsTree of installer/modules.go, and
-- the guards of Initialize, StoreUpdate and FinishStoreUpdate. The file system is a parameter: each operation
-- may fail, and a write may be short.
use mender.Prelude.{
  Bool, true, false, Option, none, some, List, [], ◌∷◌, ◌++◌, Error, other, Result, ok, err,
  if◌then◌else◌,
}
use mender.Text.{Text, text}

-- Operations below the path of the payload; a write goes to the file that has been opened last.
pub data TreeOp : Type 0 where
  remove_tree sync_all : TreeOp
  make_dir open_file write_content make_fifo : Text → TreeOp

-- The failure of the next operation, and whether it writes less than it should.
pub record TreeFaults : Type 0 where
  pub fails : List TreeOp → Option Error
  pub short : List TreeOp → Bool

-- What the tree is filled from.
pub record TreeInfo : Type 0 where
  pub current_artifact_name : Result Text
  pub current_artifact_group : Result Text
  pub device_type : Result Text
  pub header_info_json : Result Text
  pub type_info : Result Text
  pub meta_data : Result Text
  pub version : Text
  pub artifact_group : Text
  pub artifact_name : Text

-- fileNameAndContent
abbrev pub FileNameAndContent : Type 0
FileNameAndContent = Text × Text

abbrev pub with_value {ℓ ℓ'} : {A : Type ℓ} {B : Type ℓ'} → Result A → (A → Result B) → Result B
with_value (err e) k = err e
with_value (ok a) k = k a

abbrev pub short_write : Bool → Option Error
short_write true = some (other "Write returned short")
short_write false = none

abbrev pub write_reply : Option Error → Bool → Option Error
write_reply (some e) short = some e
write_reply none short = short_write short

-- syscall.Sync has no error.
abbrev pub reply : TreeFaults → TreeOp → List TreeOp → Option Error
reply f TreeOp.sync_all ops = none
reply f (TreeOp.write_content c) ops = write_reply (f.fails ops) (f.short ops)
reply f op ops = f.fails ops

-- Operations in order, up to the first error; the operations so far are the latest first.
unfoldable pub run_ops : TreeFaults → List TreeOp → List TreeOp → Option Error × List TreeOp
run_ops f [] ops = (none, ops)
run_ops f (op ∷ todo) ops =
    let rest = run_ops f todo (op ∷ ops) in
    elim (reply f op ops) [ some e ↦ (some e, op ∷ ops) | none ↦ rest ]

abbrev pub make_dirs : List TreeOp
make_dirs =
    TreeOp.remove_tree
    ∷ (TreeOp.make_dir (text "header")
        ∷ (TreeOp.make_dir (text "tmp") ∷ (TreeOp.make_dir (text "streams") ∷ [])))

abbrev pub files_and_content :
    TreeInfo → Text → Text → Text → Text → Text → Text → Text → List FileNameAndContent
files_and_content info update_type name group device header types meta =
    (text "version", info.version)
    ∷ ((text "current_artifact_name", name)
        ∷ ((text "current_artifact_group", group)
            ∷ ((text "current_device_type", device)
                ∷ ((text "header/artifact_group", info.artifact_group)
                    ∷ ((text "header/artifact_name", info.artifact_name)
                        ∷ ((text "header/payload_type", update_type)
                            ∷ ((text "header/header-info", header)
                                ∷ ((text "header/type-info", types)
                                    ∷ ((text "header/meta-data", meta) ∷ [])))))))))

abbrev pub gather : TreeInfo → Text → Result (List FileNameAndContent)
gather info update_type = with_value info.current_artifact_name (λ name.
    with_value info.current_artifact_group (λ group. with_value info.device_type (λ device.
      with_value info.header_info_json (λ header. with_value info.type_info (λ types.
        with_value info.meta_data
          (λ meta. ok (files_and_content info update_type name group device header types meta)))))))

abbrev pub write_files : List FileNameAndContent → List TreeOp
write_files [] = []
write_files ((name, content) ∷ files) =
    TreeOp.open_file name ∷ (TreeOp.write_content content ∷ write_files files)

abbrev pub fill :
    TreeFaults → Result (List FileNameAndContent) → List TreeOp → Option Error × List TreeOp
unfolding run_ops
fill f (err e) ops = (some e, ops)
fill f (ok files) ops =
    run_ops f
      (write_files files ++ (TreeOp.make_fifo (text "stream-next") ∷ (TreeOp.sync_all ∷ []))) ops

abbrev pub after_dirs :
    TreeFaults → TreeInfo → Text → Option Error × List TreeOp → Option Error × List TreeOp
unfolding run_ops
after_dirs f info update_type (some e, ops) = (some e, ops)
after_dirs f info update_type (none, ops) = fill f (gather info update_type) ops

unfoldable pub build_streams_tree :
    TreeFaults → TreeInfo → Text → List TreeOp → Option Error × List TreeOp
unfolding run_ops
build_streams_tree f info update_type ops = after_dirs f info update_type (run_ops f make_dirs ops)

-- Whether a download is active, and whether the artifact has augmented headers.
unfoldable pub initialize :
    TreeFaults → TreeInfo → Text → Bool → Bool → List TreeOp → Option Error × List TreeOp
unfolding build_streams_tree
initialize f info update_type active augmented ops =
    if active
    then (some (other "Internal error: Initialize() called when download is already active"), ops)
    else if augmented
    then (some (other "Augmented artifacts are not supported yet"), ops)
    else build_streams_tree f info update_type ops
