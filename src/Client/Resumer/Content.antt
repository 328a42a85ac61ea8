-- ===== src/Client/Resumer/Content.antt =====
-- A resumed download delivers the bytes of the content in their order.
use mender.Prelude.{
  ℕ, ◌+◌, ◌-◌, ◌≡◌, ◌≢◌, ◌≤◌, ◌⊎◌, refl, sym, ap, ◌∙◌, arith, length, List, ◌++◌, true, Option,
  some, none, Error, ok, err, Result,
}
use mender.Text.{Text, ℤ, atoi, split}
use mender.Client.Resumer.{
  catch_up, with_start, start_of, first, range_of, ReadError, Response, Event, Network,
  UpdateResumer, returns, resumed, get_stream_from_partial_content,
}
use mender.Bytes.{take, drop, take-drop, length-take, length-append, append_assoc, prefix_unique}

-- The start of the range that a response names.
abbrev pub range_start : Response → Option Text
range_start res = start_of (split b'-' (first (split b'/' (range_of res.content_range))))

module _ (content : List ℕ) where
  -- The stream goes on where these bytes of the content end.
  pub record IsAt (done stream : List ℕ) (offset : ℕ) : Type 0 where
    pub rest : List ℕ
    pub splits : content ≡ done ++ (stream ++ rest)
    pub position : length done ≡ offset

  -- The body of a response is the content from the position on that its range names.
  pub record Honest (res : Response) (n : ℤ) : Type 0 where
    pub before : List ℕ
    pub at : IsAt before res.body (length before)
    pub named : n ≡ ℤ.pos (length before)

  pub IsAt-read :
      (done stream : List ℕ) (offset n : ℕ)
      → IsAt done stream offset
      → n ≤ length stream
      → IsAt (done ++ take n stream) (drop n stream) (offset + n)
  IsAt-read done stream offset n a h = record {
    rest = a.rest;
    splits =
        a.splits
        ∙ ap (λ (s : List ℕ). done ++ (s ++ a.rest)) (sym (take-drop n stream))
        ∙ ap (λ (s : List ℕ). done ++ s) (append_assoc (take n stream) (drop n stream) a.rest)
        ∙ sym (append_assoc done (take n stream) (drop n stream ++ a.rest));
    position =
        omega (arith, length-append done (take n stream), length-take n stream h, a.position);
  }

  catch_up-ok :
      (offset n : ℕ) (body stream : List ℕ)
      → catch_up offset body (some (ℤ.pos n)) ≡ ok stream
      → (n ≤ offset) × ((offset - n ≤ length body) × (stream ≡ drop (offset - n) body))
  catch_up-ok offset n body stream h = ground arith

  pos-injective : (m n : ℕ) → ℤ.pos m ≡ ℤ.pos n → m ≡ n
  pos-injective m n h = ground arith

  negsuc-not_pos : (m n : ℕ) → ℤ.negsuc m ≢ ℤ.pos n
  negsuc-not_pos m n = ground arith

  not_caught_up :
      (offset : ℕ) (body stream : List ℕ)
      → ◌≢◌ {A = Result (List ℕ)} (catch_up offset body none) (ok stream)
  not_caught_up offset body stream = ground arith

  not_started :
      (offset : ℕ) (body stream : List ℕ)
      → ◌≢◌ {A = Result (List ℕ)} (with_start offset body none) (ok stream)
  not_started offset body stream = ground arith

  err-not_ok : (e : Error) (stream : List ℕ) → ◌≢◌ {A = Result (List ℕ)} (err e) (ok stream)
  err-not_ok e stream = ground arith

  -- Behind the bytes that it skips, the stream is where the download was broken.
  catch_up-IsAt :
      (done old stream : List ℕ) (offset : ℕ) (res : Response) (start : Option ℤ)
      → IsAt done old offset
      → ((n : ℤ) → start ≡ some n → Honest res n)
      → catch_up offset res.body start ≡ ok stream
      → IsAt done stream offset
  catch_up-IsAt done old stream offset res none a honest h =
      absurd (not_caught_up offset res.body stream h)
  catch_up-IsAt done old stream offset res (some (ℤ.negsuc k)) a honest h =
      let o = honest (ℤ.negsuc k) refl in absurd (negsuc-not_pos k (length o.before) o.named)
  catch_up-IsAt done old stream offset res (some (ℤ.pos n)) a honest h =
      let o = honest (ℤ.pos n) refl in
      let m = pos-injective n (length o.before) o.named in
      let (below, (enough, e)) = catch_up-ok offset n res.body stream h in
      let b = IsAt-read o.before res.body (length o.before) (offset - n) o.at enough in
      let same =
        prefix_unique done (o.before ++ take (offset - n) res.body) (old ++ a.rest)
          (drop (offset - n) res.body ++ b.rest) (sym a.splits ∙ b.splits)
          (omega (arith, a.position, b.position, m)) in
      record {
        rest = b.rest;
        splits =
            b.splits
            ∙ ap (λ (d : List ℕ). d ++ (drop (offset - n) res.body ++ b.rest)) (sym same)
            ∙ ap (λ (s : List ℕ). done ++ (s ++ b.rest)) (sym e);
        position = a.position;
      }

  with_start-IsAt :
      (done old stream : List ℕ) (offset : ℕ) (res : Response) (start : Option Text)
      → IsAt done old offset
      → ((s : Text) (n : ℤ) → start ≡ some s → atoi s ≡ some n → Honest res n)
      → with_start offset res.body start ≡ ok stream
      → IsAt done stream offset
  with_start-IsAt done old stream offset res none a honest h =
      absurd (not_started offset res.body stream h)
  with_start-IsAt done old stream offset res (some s) a honest h =
      catch_up-IsAt done old stream offset res (atoi s) a (λ n e. honest s n refl e) h

  get_stream-with_start :
      (offset content_length : ℕ) (res : Response) (stream : List ℕ)
      → get_stream_from_partial_content offset content_length res ≡ ok stream
      → with_start offset res.body (range_start res) ≡ ok stream
  unfolding get_stream_from_partial_content
  get_stream-with_start offset content_length res stream h = ground arith

  -- A server that sends the content, whatever its responses say otherwise.
  abbrev pub IsServer : Network → Type 0
  IsServer net =
      (h : List Event) (res : Response) (start : Text) (n : ℤ)
      → net.respond h ≡ ok res
      → range_start res ≡ some start
      → atoi start ≡ some n
      → Honest res n

  module _ (net : Network) (server : IsServer net) where
    pub resumed-IsAt :
        (done stream : List ℕ) (h : UpdateResumer) (r : Result Response)
        → IsAt done h.stream h.offset
        → ((res : Response) (start : Text) (n : ℤ)
            → r ≡ ok res
            → range_start res ≡ some start
            → atoi start ≡ some n
            → Honest res n)
        → resumed net h r ≡ ok stream
        → IsAt done stream h.offset
    resumed-IsAt done stream h (err e) a honest k = absurd (err-not_ok e stream k)
    resumed-IsAt done stream h (ok res) a honest k =
        with_start-IsAt done h.stream stream h.offset res (range_start res) a
          (λ s n. honest res s n refl)
          (get_stream-with_start h.offset h.content_length res stream k)

    -- What a result says: its bytes are those of the content behind the base, and the end of the
    -- file is reported where nothing was downloaded, or all of it.
    pub record IsGood (base : List ℕ) (r : Option (List ℕ × Option ReadError) × UpdateResumer)
        (bytes : List ℕ) (e : Option ReadError) : Type 0 where
      pub at : IsAt (base ++ bytes) r.1.stream r.1.offset
      pub end : e ≡ some ReadError.eof → (r.1.offset ≡ 0) ⊎ (r.1.content_length ≤ r.1.offset)

    abbrev pub AllGood : List ℕ → Option (List ℕ × Option ReadError) × UpdateResumer → Type 0
    AllGood base r =
        (bytes : List ℕ) (e : Option ReadError) → r.0 ≡ some (bytes, e) → IsGood base r bytes e

    pub returned :
        (bytes out : List ℕ) (e e' : Option ReadError)
        → ◌≡◌ {A = Option (List ℕ × Option ReadError)} (some (bytes, e)) (some (out, e'))
        → (bytes ≡ out) × (e ≡ e')
    returned bytes out e e' h = ground arith

    pub returns-eof :
        (offset content_length : ℕ) (e : Option ReadError)
        → returns offset content_length e ≡ true
        → e ≡ some ReadError.eof
        → (offset ≡ 0) ⊎ (content_length ≤ offset)
    returns-eof offset content_length e h k = ground arith
