-- ===== src/Installer/Module/Built.antt =====
-- The tree of a payload that has been built without an error.
use mender.Prelude.{
  ◌≡◌, ◌≢◌, inl, inr, refl, sym, ap, ◌∙◌, arith, Bool, true, false, Option, Option-cases, none,
  some, List, [], ◌∷◌, ◌++◌, Error, Result, ok, err,
}
use mender.Text.{Text, text}
use mender.Installer.Module.Tree.{
  with_value, TreeOp, TreeFaults, TreeInfo, FileNameAndContent, reply, run_ops, make_dirs, gather,
  write_files, fill, after_dirs, build_streams_tree,
}

-- What is below the path of the payload, the latest first, and whether it has been synced since.
pub record FileTree : Type 0 where
  pub dirs : List Text
  pub files : List FileNameAndContent
  pub fifos : List Text
  pub synced : Bool

-- The last file that has been opened has this content.
abbrev pub set_content : Text → List FileNameAndContent → List FileNameAndContent
set_content c [] = []
set_content c ((name, old) ∷ files) = (name, c) ∷ files

abbrev pub apply : TreeOp → FileTree → FileTree
apply TreeOp.remove_tree t = record { dirs = []; files = []; fifos = []; synced = false }
apply TreeOp.sync_all t = record t { synced = true }
apply (TreeOp.make_dir name) t = record t { dirs = name ∷ t.dirs; synced = false }
apply (TreeOp.open_file name) t = record t { files = (name, []) ∷ t.files; synced = false }
apply (TreeOp.write_content c) t = record t { files = set_content c t.files; synced = false }
apply (TreeOp.make_fifo name) t = record t { fifos = name ∷ t.fifos; synced = false }

-- The tree after operations, which are the latest first.
abbrev pub replay : FileTree → List TreeOp → FileTree
replay t [] = t
replay t (op ∷ ops) = apply op (replay t ops)

abbrev replay_all : List TreeOp → FileTree → FileTree
replay_all [] t = t
replay_all (op ∷ ops) t = replay_all ops (apply op t)

some-not_none : (e : Error) → ◌≢◌ {A = Option Error} (some e) none
some-not_none e = ground arith

run_ops-stops :
    (f : TreeFaults) (op : TreeOp) (todo ops : List TreeOp) (e : Error)
    → reply f op ops ≡ some e
    → run_ops f (op ∷ todo) ops ≡ (some e, op ∷ ops)
unfolding run_ops
run_ops-stops f op todo ops e h = rw (run_ops, h) refl

run_ops-goes :
    (f : TreeFaults) (op : TreeOp) (todo ops : List TreeOp)
    → reply f op ops ≡ none
    → run_ops f (op ∷ todo) ops ≡ run_ops f todo (op ∷ ops)
unfolding run_ops
run_ops-goes f op todo ops h = rw (run_ops, h) refl

-- Without an error, all operations have been done.
run_ops-replays :
    (f : TreeFaults) (todo ops : List TreeOp) (t : FileTree)
    → (run_ops f todo ops).0 ≡ none
    → replay t (run_ops f todo ops).1 ≡ replay_all todo (replay t ops)
unfolding run_ops
run_ops-replays f [] ops t = λ h. refl
run_ops-replays f (op ∷ todo) ops t = elim (Option-cases (reply f op ops)) [
  | inl n ↦ rw (run_ops-goes f op todo ops n) (run_ops-replays f todo (op ∷ ops) t)
  | inr (e, k) ↦ rw (run_ops-stops f op todo ops e k) (λ h. absurd (some-not_none e h))
]

abbrev pub fifo_ops : List TreeOp
fifo_ops = TreeOp.make_fifo (text "stream-next") ∷ (TreeOp.sync_all ∷ [])

-- The tree with these files, the latest first.
abbrev pub tree_of : List FileNameAndContent → FileTree
tree_of files = record {
  dirs = text "streams" ∷ (text "tmp" ∷ (text "header" ∷ []));
  files = files;
  fifos = text "stream-next" ∷ [];
  synced = true;
}

abbrev pub onto : List FileNameAndContent → List FileNameAndContent → List FileNameAndContent
onto [] files = files
onto (f ∷ fs) files = onto fs (f ∷ files)

replay-files :
    (files : List FileNameAndContent) (t : FileTree)
    → replay_all (write_files files ++ fifo_ops) t
      ≡ record t { files = onto files t.files; fifos = text "stream-next" ∷ t.fifos; synced = true }
replay-files [] t = refl
replay-files ((name, content) ∷ files) t =
    replay-files files (record t { files = (name, content) ∷ t.files; synced = false })

fill-Tree :
    (f : TreeFaults) (r : Result (List FileNameAndContent)) (ops : List TreeOp) (t : FileTree)
    → replay t ops ≡ replay_all make_dirs t
    → (fill f r ops).0 ≡ none
    → (files : List FileNameAndContent) × ((r ≡ ok files)
        × (replay t (fill f r ops).1 ≡ tree_of (onto files [])))
unfolding run_ops
fill-Tree f (err e) ops t d h = absurd (some-not_none e h)
fill-Tree f (ok files) ops t d h = (
  files,
  (
    refl,
    run_ops-replays f (write_files files ++ fifo_ops) ops t h
        ∙ ap (λ (t' : FileTree). replay_all (write_files files ++ fifo_ops) t') d
        ∙ replay-files files (replay_all make_dirs t),
  ),
)

after_dirs-Tree :
    (f : TreeFaults) (info : TreeInfo) (update_type : Text) (r : Option Error × List TreeOp)
    (t : FileTree)
    → (r.0 ≡ none → replay t r.1 ≡ replay_all make_dirs t)
    → (after_dirs f info update_type r).0 ≡ none
    → (files : List FileNameAndContent) × ((gather info update_type ≡ ok files)
        × (replay t (after_dirs f info update_type r).1 ≡ tree_of (onto files [])))
unfolding run_ops
after_dirs-Tree f info update_type (some e, ops) t d h = absurd (some-not_none e h)
after_dirs-Tree f info update_type (none, ops) t d h =
    fill-Tree f (gather info update_type) ops t (d refl) h

-- What the files of the tree hold, the latest first, if these could be read for them.
abbrev pub expected :
    TreeInfo → Text → Text → Text → Text → Text → Text → Text → List FileNameAndContent
expected info payload_type meta_data type_info header_info device_type group name =
    (text "header/meta-data", meta_data)
    ∷ (text "header/type-info", type_info)
    ∷ (text "header/header-info", header_info)
    ∷ (text "header/payload_type", payload_type)
    ∷ (text "header/artifact_name", info.artifact_name)
    ∷ (text "header/artifact_group", info.artifact_group)
    ∷ (text "current_device_type", device_type)
    ∷ (text "current_artifact_group", group)
    ∷ (text "current_artifact_name", name)
    ∷ (text "version", info.version)
    ∷ []

-- All that the tree is filled from has been read, and the tree is filled with it.
pub record IsFilled (info : TreeInfo) (payload_type : Text) (t : FileTree) : Type 0 where
  pub name : Text
  pub group : Text
  pub device_type : Text
  pub header_info : Text
  pub types : Text
  pub meta : Text
  pub name_read : info.current_artifact_name ≡ ok name
  pub group_read : info.current_artifact_group ≡ ok group
  pub device_type_read : info.device_type ≡ ok device_type
  pub header_info_read : info.header_info_json ≡ ok header_info
  pub types_read : info.type_info ≡ ok types
  pub meta_read : info.meta_data ≡ ok meta
  pub filled :
      t ≡ tree_of (expected info payload_type meta types header_info device_type group name)

-- A value that has been read, and what follows from it.
with_value-ok :
    {A : Type 0} {B : Type 0} (r : Result A) (k : A → Result B) (b : B)
    → with_value r k ≡ ok b
    → (a : A) × ((r ≡ ok a) × (k a ≡ ok b))
with_value-ok (err e) k b h = ground arith
with_value-ok (ok a) k b h = (a, (refl, h))

content : Result (List FileNameAndContent) → List FileNameAndContent
content (err e) = []
content (ok files) = files

gather-IsFilled :
    (info : TreeInfo) (payload_type : Text) (files : List FileNameAndContent) (t : FileTree)
    → gather info payload_type ≡ ok files
    → t ≡ tree_of (onto files [])
    → IsFilled info payload_type t
unfolding content
gather-IsFilled info payload_type files t h e =
    let (name, (r1, h1)) = with_value-ok info.current_artifact_name _ files h in
    let (group, (r2, h2)) = with_value-ok info.current_artifact_group _ files h1 in
    let (device, (r3, h3)) = with_value-ok info.device_type _ files h2 in
    let (header, (r4, h4)) = with_value-ok info.header_info_json _ files h3 in
    let (types, (r5, h5)) = with_value-ok info.type_info _ files h4 in
    let (meta, (r6, h6)) = with_value-ok info.meta_data _ files h5 in
    record {
      name = name;
      group = group;
      device_type = device;
      header_info = header;
      types = types;
      meta = meta;
      name_read = r1;
      group_read = r2;
      device_type_read = r3;
      header_info_read = r4;
      types_read = r5;
      meta_read = r6;
      filled =
          e ∙ ap (λ (r : Result (List FileNameAndContent)). tree_of (onto (content r) [])) (sym h6);
    }

-- If building the tree of a payload reports no error, whatever stood there before and whatever
-- operations have failed, then all that the tree is filled from could be read, and the tree holds the
-- three directories, the ten files, each with the content of its name, the FIFO for the streams,
-- and nothing else; and it has been synced.
pub build_streams_tree-IsFilled :
    (f : TreeFaults) (info : TreeInfo) (update_type : Text) (t : FileTree)
    → (build_streams_tree f info update_type []).0 ≡ none
    → IsFilled info update_type (replay t (build_streams_tree f info update_type []).1)
unfolding build_streams_tree
build_streams_tree-IsFilled f info update_type t h =
    let (files, (r, e)) =
      after_dirs-Tree f info update_type (run_ops f make_dirs []) t
        (λ done. run_ops-replays f make_dirs [] t done) h in
    gather-IsFilled info update_type files (replay t (build_streams_tree f info update_type []).1) r
      e
