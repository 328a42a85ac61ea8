-- ===== src/Installer/Module/Download/Told.antt =====
-- An error of a download is reported to the client, or all is well.
use mender.Prelude.{
  Bool, Bool-cases, true, false, Option, none, some, List, [], ◌∷◌, String, str_eq, eq_iff, Error,
  ◌≡◌, ◌⊎◌, inl, inr, refl, arith, if◌then◌else◌, not,
}
use mender.Installer.Module.Download.{
  Download, Downloader, Target, FileOp, FileFaults, Handled, Phase, initialize_mender_download,
  handle_cmd_err, published, publish_name_in_stream_next, handle_next_artifact_stream, is_mender,
  handle_stream_next_channel, handle_stream_channel, handle_finish_channel, send_all, conclude,
}
use mender.Installer.Module.Download.System.{
  Client, Downloading, start_download, after, Step, Reach,
}

-- One of the statuses is an error.
abbrev pub failed : List (Option Error) → Bool
failed [] = false
failed (some e ∷ es) = true
failed (none ∷ es) = failed es

-- The next status is an error, and the client is still there.
abbrev pub pending : Phase → Client → Bool
pending p Client.done = false
pending (Phase.sending (some e) es exits) c = true
pending p c = false

abbrev pub is_none : {A : Type 0} → Option A → Bool
is_none none = true
is_none (some a) = false

-- The process runs, or it has ended without an error and Mender downloads.
abbrev pub normal : Bool → Option (Option Error) → Downloader → Bool
normal true none t = not (is_mender t)
normal false (some none) t = is_mender t
normal _ _ t = false

abbrev pub settled_type : Downloader → Bool
settled_type Downloader.unknown_downloader = false
settled_type _ = true

-- No stream is on its way.
abbrev pub idle : Download → Option (Option Error) → Bool
idle d x =
    if d.finish_flag
    then false
    else if normal d.proc x d.downloader_type
    then (if is_none d.stream_next then is_none d.stream else false)
    else false

-- A stream has been heard of only if the downloader is known.
abbrev pub fresh : Download → Bool
fresh d = if is_none d.current_stream then true else settled_type d.downloader_type

abbrev pub same_name : Option String → Option String → Bool
same_name (some s) (some t) = str_eq s t
same_name _ _ = false

abbrev pub name_of : Option Target → Option String
name_of none = none
name_of (some (Target.in_streams name)) = some name
name_of (some (Target.in_files name)) = some name

-- The last that was handed on through stream-next is the end of the streams.
abbrev pub end_published : List FileOp → Bool
end_published (FileOp.open_stream_next String.[] ∷ ops) = true
end_published _ = false

str_eq_refl : (s : String) → str_eq s s ≡ true
str_eq_refl s = (eq_iff s s).1 refl

same_name_refl : (o : Option String) → (is_none o ≡ true) ⊎ (same_name o o ≡ true)
same_name_refl none = inl refl
same_name_refl (some s) = inr (str_eq_refl s)

-- The name of the stream is being published, or the stream is on its way.
abbrev pub busy : Download → Option (Option Error) → Bool
busy d x =
    if d.finish_flag
    then false
    else if normal d.proc x d.downloader_type
    then (if is_none d.stream
        then (if same_name d.stream_next d.current_stream then d.proc else false)
        else (if is_none d.stream_next
            then (if same_name (name_of d.stream) d.current_stream
                then settled_type d.downloader_type
                else false)
            else false))
    else false

abbrev pub finishing_ok : Download → Option (Option Error) → Bool
finishing_ok d x =
    if d.finish_flag
    then (if normal d.proc x d.downloader_type
        then (if d.proc then (if is_none d.stream then end_published d.ops else false) else false)
        else false)
    else false

abbrev pub ended_well : Option (Option Error) → Bool
ended_well (some none) = true
ended_well _ = false

abbrev pub fine_selecting : Download → Client → Option (Option Error) → Bool
fine_selecting d Client.waiting x = busy d x
fine_selecting d Client.finishing x = finishing_ok d x
fine_selecting d Client.done x = false
fine_selecting d _ x = if idle d x then fresh d else false

abbrev pub fine_sending : Bool → Download → Client → Option (Option Error) → Bool
fine_sending false d Client.waiting x = if idle d x then settled_type d.downloader_type else false
fine_sending true d Client.finishing x = ended_well x
fine_sending _ d c x = false

abbrev pub fine : Download → Phase → Client → Option (Option Error) → Bool
fine d Phase.selecting c x = fine_selecting d c x
fine d (Phase.sending none [] exits) c x = fine_sending exits d c x
fine d Phase.stopped Client.done x = ended_well x
fine d p c x = false

-- An error has been reported, or is being reported; or all is well.
abbrev pub told : Downloading → Bool
told (Downloading.downloading d p c rs x) =
    if failed rs then true else (if pending p c then true else fine d p c x)

module _ (faults : FileFaults) where
  next-told :
      (name : String) (d : Download) (rs : List (Option Error)) (x : Option (Option Error))
      → (if idle d x then fresh d else false) ≡ true
      → told (after (handle_next_artifact_stream faults name d) d Client.waiting rs x) ≡ true
  unfolding handle_next_artifact_stream publish_name_in_stream_next conclude
  next-told String.[] d rs x h = ground (arith, str_eq_refl String.[])
  next-told (String.◌∷◌ c name) d rs x h = ground (arith, str_eq_refl (String.◌∷◌ c name))

  finish-told :
      (d : Download) (rs : List (Option Error)) (x : Option (Option Error))
      → (if idle d x then fresh d else false) ≡ true
      → told (after (handle_finish_channel faults d) d Client.finishing rs x) ≡ true
  unfolding handle_finish_channel publish_name_in_stream_next conclude
  finish-told d rs x h = ground arith

  cmd_err-told :
      (e : Option Error) (d : Download) (c : Client) (rs : List (Option Error))
      (x : Option (Option Error))
      → fine_selecting d c x ≡ true
      → d.proc ≡ true
      → told (after (handle_cmd_err faults e d) d c rs (some e)) ≡ true
  unfolding handle_cmd_err initialize_mender_download conclude
  cmd_err-told e d c rs x h k = ground (arith, same_name_refl d.current_stream)

  stream_next-told :
      (e : Option Error) (name : String) (d : Download) (c : Client) (rs : List (Option Error))
      (x : Option (Option Error))
      → fine_selecting d c x ≡ true
      → d.stream_next ≡ some name
      → told (after (handle_stream_next_channel e d) d c rs x) ≡ true
  unfolding handle_stream_next_channel conclude
  stream_next-told e name d c rs x h k = ground (arith, same_name_refl d.current_stream)

  stream-told :
      (e : Option Error) (t : Target) (d : Download) (c : Client) (rs : List (Option Error))
      (x : Option (Option Error))
      → fine_selecting d c x ≡ true
      → d.stream ≡ some t
      → told (after (handle_stream_channel e d) d c rs x) ≡ true
  unfolding handle_stream_channel conclude
  stream-told e t d c rs x h k = ground arith

  -- An error that has been reported stays so.
  told-failed :
      (d : Download) (p : Phase) (c : Client) (rs : List (Option Error)) (x : Option (Option Error))
      → failed rs ≡ true
      → told (Downloading.downloading d p c rs x) ≡ true
  told-failed d p c rs x f = ground arith

  after-failed :
      (h : Handled) (d : Download) (c : Client) (rs : List (Option Error))
      (x : Option (Option Error))
      → failed rs ≡ true
      → told (after h d c rs x) ≡ true
  unfolding conclude
  after-failed h d c rs x f = told-failed (conclude h d).1 (conclude h d).0 c rs x f

  -- The loop selects: an error has been received, or all is well.
  told-selecting :
      (d : Download) (c : Client) (rs : List (Option Error)) (x : Option (Option Error))
      → told (Downloading.downloading d Phase.selecting c rs x) ≡ true
      → (failed rs ≡ true) ⊎ (fine_selecting d c x ≡ true)
  told-selecting d c rs x h = elim (Bool-cases (failed rs)) [
    | inl f ↦ inl f
    | inr f ↦ inr (ground arith)
  ]

  received-told :
      (e : Option Error) (es : List (Option Error)) (exits : Bool) (d : Download)
      (rs : List (Option Error)) (x : Option (Option Error))
      → told (Downloading.downloading d (Phase.sending e es exits) Client.waiting rs x) ≡ true
      → told (Downloading.downloading d (send_all es exits) Client.ready (e ∷ rs) x) ≡ true
  received-told (some e) es exits d rs x h = refl
  received-told none (none ∷ es) exits d rs x h = ground arith
  received-told none (some e ∷ es) exits d rs x h = ground arith
  received-told none [] true d rs x h = ground arith
  received-told none [] false d rs x h = ground arith

  finished-told :
      (e : Option Error) (es : List (Option Error)) (exits : Bool) (d : Download)
      (rs : List (Option Error)) (x : Option (Option Error))
      → told (Downloading.downloading d (Phase.sending e es exits) Client.finishing rs x) ≡ true
      → told (Downloading.downloading d (send_all es exits) Client.done (e ∷ rs) x) ≡ true
  finished-told (some e) es exits d rs x h = refl
  finished-told none (none ∷ es) exits d rs x h = ground arith
  finished-told none (some e ∷ es) exits d rs x h = ground arith
  finished-told none [] true d rs x h = ground arith
  finished-told none [] false d rs x h = ground arith

  offer-told :
      (name : String) (d : Download) (p : Phase) (rs : List (Option Error))
      (x : Option (Option Error))
      → told (Downloading.downloading d p Client.ready rs x) ≡ true
      → told (Downloading.downloading d p (Client.offering name) rs x) ≡ true
  offer-told name d Phase.selecting rs x h = h
  offer-told name d Phase.stopped rs x h = h
  offer-told name d Phase.panicked rs x h = h
  offer-told name d (Phase.sending e es exits) rs x h = ground arith

  end-told :
      (d : Download) (p : Phase) (rs : List (Option Error)) (x : Option (Option Error))
      → told (Downloading.downloading d p Client.ready rs x) ≡ true
      → told (Downloading.downloading d p Client.offering_finish rs x) ≡ true
  end-told d Phase.selecting rs x h = h
  end-told d Phase.stopped rs x h = h
  end-told d Phase.panicked rs x h = h
  end-told d (Phase.sending e es exits) rs x h = ground arith

  Step-told : {s t : Downloading} → Step faults s t → told s ≡ true → told t ≡ true
  Step-told (Step.download_stream name d p rs x) h = offer-told name d p rs x h
  Step-told (Step.finish_download_process d p rs x) h = end-told d p rs x h
  Step-told (Step.next_artifact_stream name d rs x) h =
      elim (told-selecting d (Client.offering name) rs x h) [
        | inl f ↦ after-failed (handle_next_artifact_stream faults name d) d Client.waiting rs x f
        | inr k ↦ next-told name d rs x k
      ]
  Step-told (Step.finish_channel d rs x) h = elim (told-selecting d Client.offering_finish rs x h) [
    | inl f ↦ after-failed (handle_finish_channel faults d) d Client.finishing rs x f
    | inr k ↦ finish-told d rs x k
  ]
  Step-told (Step.cmd_err e d c rs x running) h = elim (told-selecting d c rs x h) [
    | inl f ↦ after-failed (handle_cmd_err faults e d) d c rs (some e) f
    | inr k ↦ cmd_err-told e d c rs x k running
  ]
  Step-told (Step.stream_next_channel e name d c rs x published) h =
      elim (told-selecting d c rs x h) [
        | inl f ↦ after-failed (handle_stream_next_channel e d) d c rs x f
        | inr k ↦ stream_next-told e name d c rs x k published
      ]
  Step-told (Step.stream_channel e t d c rs x started) h = elim (told-selecting d c rs x h) [
    | inl f ↦ after-failed (handle_stream_channel e d) d c rs x f
    | inr k ↦ stream-told e t d c rs x k started
  ]
  Step-told (Step.stream_status e es exits d rs x) h = received-told e es exits d rs x h
  Step-told (Step.finish_status e es exits d rs x) h = finished-told e es exits d rs x h

  pub Reach-told : {s : Downloading} → Reach faults start_download s → told s ≡ true
  Reach-told Reach.here = refl
  Reach-told (Reach.later r st) = Step-told st (Reach-told r)
