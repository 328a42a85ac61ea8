-- ===== src/Client/Resumer/Step.antt =====
-- The steps of the reader.
use mender.Prelude.{
  ℕ, suc, ◌-◌, ◌≡◌, refl, length, List, ◌++◌, Bool, true, false, some, Error, ok, err, Result,
}
use mender.Client.Backoff.{get_exponential_backoff_time}
use mender.Client.Resumer.{
  ReadError, Network, UpdateResumer, returns, read_stream, after_wait, resumed, read_loop,
}

module _ (net : Network) (size fuel : ℕ) (bytes : List ℕ) (h : UpdateResumer) where
  abbrev pub chunk_read : List ℕ
  chunk_read = (read_stream net (size - length bytes) h).0

  abbrev pub behind_read : UpdateResumer
  behind_read = (read_stream net (size - length bytes) h).1

  abbrev pub stops : Bool
  stops = returns behind_read.offset behind_read.content_length (net.read_error h.events)

  pub read_loop-returns :
      stops ≡ true
      → read_loop net size (suc fuel) bytes true h
        ≡ (some (bytes ++ chunk_read, net.read_error h.events), behind_read)
  unfolding read_loop
  read_loop-returns s = rw (read_loop, s) refl

  pub read_loop-breaks :
      stops ≡ false
      → read_loop net size (suc fuel) bytes true h
        ≡ read_loop net size fuel (bytes ++ chunk_read) false behind_read
  unfolding read_loop
  read_loop-breaks s = rw (read_loop, s) refl

  pub read_loop-gives_up :
      (e : Error)
      → get_exponential_backoff_time h.retry_attempts h.max_wait ≡ err e
      → read_loop net size (suc fuel) bytes false h
        ≡ (some (bytes, some (ReadError.cannot_resume e)), h)
  unfolding read_loop
  read_loop-gives_up e s = rw (read_loop, s) refl

  abbrev pub answer : ℕ → Result (List ℕ)
  answer time = resumed net (after_wait net time h) (net.respond (after_wait net time h).events)

  pub read_loop-refused :
      (time : ℕ) (e : Error)
      → get_exponential_backoff_time h.retry_attempts h.max_wait ≡ ok time
      → answer time ≡ err e
      → read_loop net size (suc fuel) bytes false h
        ≡ read_loop net size fuel bytes false (after_wait net time h)
  unfolding read_loop
  read_loop-refused time e s a = rw (read_loop, s, a) refl

  pub read_loop-resumes :
      (time : ℕ) (stream : List ℕ)
      → get_exponential_backoff_time h.retry_attempts h.max_wait ≡ ok time
      → answer time ≡ ok stream
      → read_loop net size (suc fuel) bytes false h
        ≡ read_loop net size fuel bytes true (record (after_wait net time h) { stream = stream })
  unfolding read_loop
  read_loop-resumes time stream s a = rw (read_loop, s, a) refl
