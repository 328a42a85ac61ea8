-- ===== src/Client/Resumer/Delivery.antt =====
-- Read of the resumer delivers the content, whatever the connection does.
use mender.Prelude.{
  ℕ, zero, suc, ◌+◌, ◌-◌, ◌≡◌, ◌≢◌, ◌≤◌, ◌⊎◌, inl, inr, refl, sym, ◌∙◌, arith, length, List, ◌++◌,
  min, Bool, Bool-cases, true, false, Option, some, none, Error, ok, err, Result,
}
use mathlib.Core.Path.{subst}
use mender.Client.Backoff.{get_exponential_backoff_time}
use mender.Client.Resumer.{ReadError, Network, UpdateResumer, after_wait, read_loop}
use mender.Client.Resumer.Step.{
  chunk_read, behind_read, stops, answer, read_loop-returns, read_loop-breaks, read_loop-gives_up,
  read_loop-refused, read_loop-resumes,
}
use mender.Bytes.{take, drop, append_assoc}
use mender.Client.Resumer.Content.{
  IsAt, IsAt-read, IsServer, AllGood, returned, returns-eof, resumed-IsAt,
}

pub Result-cases :
    {A : Type 0} (r : Result A) → ((e : Error) × (r ≡ err e)) ⊎ ((a : A) × (r ≡ ok a))
Result-cases (err e) = inl (e, refl)
Result-cases (ok a) = inr (a, refl)

none-not_some :
    (bytes : List ℕ) (e : Option ReadError)
    → ◌≢◌ {A = Option (List ℕ × Option ReadError)} none (some (bytes, e))
none-not_some bytes e = ground arith

not_eof : (x : Error) → some (ReadError.cannot_resume x) ≢ some ReadError.eof
not_eof x = ground arith

min-le : (a b c : ℕ) → min a (min b c) ≤ c
min-le a b c = omega arith

module _ (content : List ℕ) (net : Network) (server : IsServer content net) where
  read-IsAt :
      (base bytes : List ℕ) (size fuel : ℕ) (h : UpdateResumer)
      → IsAt content (base ++ bytes) h.stream h.offset
      → IsAt content
          (base ++ (bytes ++ chunk_read net size fuel bytes h))
          (behind_read net size fuel bytes h).stream
          (behind_read net size fuel bytes h).offset
  read-IsAt base bytes size fuel h a =
      let n = min (net.chunk h.events) (min (size - length bytes) (length h.stream)) in
      subst (λ (done : List ℕ). IsAt content done (drop n h.stream) (h.offset + n))
        (append_assoc base bytes (take n h.stream))
        (IsAt-read content (base ++ bytes) h.stream h.offset n a
          (min-le (net.chunk h.events) (size - length bytes) (length h.stream)))

  pub read_loop-AllGood :
      (base bytes : List ℕ) (size fuel : ℕ) (reading : Bool) (h : UpdateResumer)
      → IsAt content (base ++ bytes) h.stream h.offset
      → AllGood content net server base (read_loop net size fuel bytes reading h)
  unfolding read_loop
  read_loop-AllGood base bytes size zero reading h a = λ out e k. absurd (none-not_some out e k)
  read_loop-AllGood base bytes size (suc fuel) true h a =
      let h' = behind_read net size fuel bytes h in
      let read' = chunk_read net size fuel bytes h in
      let a' = read-IsAt base bytes size fuel h a in
      elim (Bool-cases (stops net size fuel bytes h)) [
        | inl s ↦
            subst (AllGood content net server base)
              (sym (read_loop-returns net size fuel bytes h s))
              (λ out e k.
                let (b, c) =
                  returned content net server (bytes ++ read') out (net.read_error h.events) e k in
                record {
                  at = subst (λ (o : List ℕ). IsAt content (base ++ o) h'.stream h'.offset) b a';
                  end = λ eof.
                      returns-eof content net server h'.offset h'.content_length
                        (net.read_error h.events) s (c ∙ eof);
                })
        | inr s ↦
            subst (AllGood content net server base) (sym (read_loop-breaks net size fuel bytes h s))
              (read_loop-AllGood base (bytes ++ read') size fuel false h' a')
      ]
  read_loop-AllGood base bytes size (suc fuel) false h a =
      elim (Result-cases (get_exponential_backoff_time h.retry_attempts h.max_wait)) [
        | inl (x, w) ↦
            subst (AllGood content net server base)
              (sym (read_loop-gives_up net size fuel bytes h x w))
              (λ out e k.
                let (b, c) =
                  returned content net server bytes out (some (ReadError.cannot_resume x)) e k in
                record {
                  at = subst (λ (o : List ℕ). IsAt content (base ++ o) h.stream h.offset) b a;
                  end = λ eof. absurd (not_eof x (c ∙ eof));
                })
        | inr (time, w) ↦
            let later = after_wait net time h in
            elim (Result-cases (answer net size fuel bytes h time)) [
              | inl (x, r) ↦
                  subst (AllGood content net server base)
                    (sym (read_loop-refused net size fuel bytes h time x w r))
                    (read_loop-AllGood base bytes size fuel false later a)
              | inr (stream, r) ↦
                  subst (AllGood content net server base)
                    (sym (read_loop-resumes net size fuel bytes h time stream w r))
                    (read_loop-AllGood base bytes size fuel true (record later { stream = stream })
                      (resumed-IsAt content net server (base ++ bytes) stream later
                        (net.respond later.events) a
                        (λ res start n. server later.events res start n) r))
            ]
      ]
