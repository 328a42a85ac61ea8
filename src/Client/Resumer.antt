-- ===== src/Client/Resumer.antt =====
-- UpdateResumer of client/update_resumer.go: a download whose connection may break at any time.
use mender.Prelude.{
  ℕ, zero, suc, ◌+◌, ◌-◌, ◌==◌, leb, ltb, min, length, String, Bool, true, false, Option, none,
  some, List, [], ◌∷◌, ◌++◌, Error, other, ok, err, Result, if◌then◌else◌, not, ◌&&◌, ◌||◌,
}
use mender.Text.{Text, text, ℤ, ◌==ℤ◌, atoi, split, has_prefix, drop_prefix, trim_space}
use mender.Bytes.{take, drop}
use mender.Client.Backoff.{get_exponential_backoff_time}
pub mod Step
pub mod Content
pub mod Delivery
pub mod End

-- What a read of the stream reports beside its bytes, or the end of the retries.
pub data ReadError : Type 0 where
  eof unexpected_eof : ReadError
  broken cannot_resume : Error → ReadError

pub record Response : Type 0 where
  pub status_code : ℕ
  pub content_range : Text
  -- the bytes of the body before its connection ends
  pub body : List ℕ

-- A read of so many bytes, a wait, and a request with the header "Range: bytes=n-".
pub data Event : Type 0 where
  read waited requested : ℕ → Event

-- The environment answers, knowing all events before, the latest first: how many bytes are there to
-- read at once and the error beside them, and the response to a request.
pub record Network : Type 0 where
  pub chunk : List Event → ℕ
  pub read_error : List Event → Option ReadError
  pub respond : List Event → Result Response

pub record UpdateResumer : Type 0 where
  pub stream : List ℕ
  pub offset : ℕ
  pub content_length : ℕ
  pub retry_attempts : ℕ
  pub max_wait : ℕ
  pub events : List Event

-- NewUpdateResumer
abbrev pub new_update_resumer : List ℕ → ℕ → ℕ → UpdateResumer
new_update_resumer stream content_length max_wait = record {
  stream = stream;
  offset = 0;
  content_length = content_length;
  retry_attempts = 0;
  max_wait = max_wait;
  events = [];
}

-- io.CopyN into ioutil.Discard
abbrev pub skip : ℕ → List ℕ → Result (List ℕ)
skip n body = if leb n (length body) then ok (drop n body) else err (other "EOF")

-- The body from the offset on, by the start of the range that the server sent.
abbrev pub catch_up : ℕ → List ℕ → Option ℤ → Result (List ℕ)
catch_up offset body none = err (other "HTTP server returned garbled range")
catch_up offset body (some (ℤ.pos new_offset)) =
    if ltb offset new_offset
    then err (other "HTTP server did not return expected range")
    else skip (offset - new_offset) body
catch_up offset body (some (ℤ.negsuc n)) = skip (offset + suc n) body

-- "Response does not have to contain the total size after '/'."
abbrev pub size_error : ℕ → List Text → Option Error
size_error content_length (r ∷ []) = none
size_error content_length (r ∷ size ∷ []) = elim (atoi size) [
  | none ↦ some (other "HTTP server returned garbled or missing range")
  | some n ↦
      if n ==ℤ ℤ.pos content_length
      then none
      else some (other "Size of artifact changed after download was resumed")
]
size_error content_length _ = some (other "Unexpected Content-Range received from server")

-- The start of the range: strings.Split(…, "-") has two parts.
abbrev pub start_of : List Text → Option Text
start_of (start ∷ end ∷ []) = some start
start_of _ = none

abbrev pub first : List Text → Text
first [] = []
first (t ∷ ts) = t

abbrev pub with_start : ℕ → List ℕ → Option Text → Result (List ℕ)
with_start offset body none = err (other "Invalid Content-Range returned by server")
with_start offset body (some start) = catch_up offset body (atoi start)

abbrev pub range_of : Text → Text
range_of header = trim_space (drop_prefix header (text "bytes "))

unfoldable pub get_stream_from_partial_content : ℕ → ℕ → Response → Result (List ℕ)
get_stream_from_partial_content offset content_length res =
    if ltb 0 offset && not (res.status_code == 206)
    then err (other "Could not resume download")
    else if not (has_prefix res.content_range (text "bytes "))
    then err (other "HTTP server returned garbled or missing range")
    else elim (size_error content_length (split b'/' (range_of res.content_range))) [
      | some e ↦ err e
      | none ↦
          with_start offset res.body
            (start_of (split b'-' (first (split b'/' (range_of res.content_range)))))
    ]

abbrev pub is_eof : ReadError → Bool
is_eof ReadError.eof = true
is_eof _ = false

-- Whether Read returns: no error, nothing downloaded yet, or the expected end.
abbrev pub returns : ℕ → ℕ → Option ReadError → Bool
returns offset content_length none = true
returns offset content_length (some e) = offset == 0 || (is_eof e && leb content_length offset)

module _ (net : Network) where
  -- A read into the rest of the buffer: io.Reader returns at most what there is room for.
  abbrev pub read_stream : ℕ → UpdateResumer → List ℕ × UpdateResumer
  read_stream room h =
      let n = min (net.chunk h.events) (min room (length h.stream)) in
      (
        take n h.stream,
        record h {
          stream = drop n h.stream;
          offset = h.offset + n;
          events = Event.read n ∷ h.events;
        },
      )

  -- The request for the rest, behind the wait.
  abbrev pub after_wait : ℕ → UpdateResumer → UpdateResumer
  after_wait time h = record h {
    retry_attempts = h.retry_attempts + 1;
    events = Event.requested h.offset ∷ Event.waited time ∷ h.events;
  }

  abbrev pub resumed : UpdateResumer → Result Response → Result (List ℕ)
  resumed h (err e) = err e
  resumed h (ok res) = get_stream_from_partial_content h.offset h.content_length res

  -- The two loops of Read, on fuel: reading from the stream, or trying to resume it. It has filled
  -- the buffer, of a given size, with the bytes so far.
  unfoldable pub read_loop :
      ℕ → ℕ → List ℕ → Bool → UpdateResumer → Option (List ℕ × Option ReadError) × UpdateResumer
  unfolding get_stream_from_partial_content
  read_loop size zero bytes reading h = (none, h)
  read_loop size (suc fuel) bytes true h =
      let (read', h') = read_stream (size - length bytes) h in
      let e = net.read_error h.events in
      elim (returns h'.offset h'.content_length e) [
        | true ↦ (some (bytes ++ read', e), h')
        | false ↦ read_loop size fuel (bytes ++ read') false h'
      ]
  read_loop size (suc fuel) bytes false h =
      elim (get_exponential_backoff_time h.retry_attempts h.max_wait) [
        | err e ↦ (some (bytes, some (ReadError.cannot_resume e)), h)
        | ok time ↦ elim (resumed (after_wait time h) (net.respond (after_wait time h).events)) [
          | err e ↦ read_loop size fuel bytes false (after_wait time h)
          | ok stream ↦
              read_loop size fuel bytes true (record (after_wait time h) { stream = stream })
        ]
      ]
