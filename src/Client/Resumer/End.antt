-- ===== src/Client/Resumer/End.antt =====
-- Read of the resumer returns: the retries are limited over the whole download.
use mender.Prelude.{
  ℕ, zero, suc, ◌+◌, ◌*◌, ◌^◌, ◌≡◌, ◌≢◌, ◌≤◌, ◌<◌, ◌⊎◌, inl, inr, refl, sym, ◌∙◌, arith, List, [],
  ◌++◌, Bool, Bool-cases, true, false, Option, some, Error, ok, err, Result,
}
use mathlib.Core.Path.{subst}
use mender.Bytes.{append-nil}
use mender.Client.Backoff.{get_exponential_backoff_time, smallest_unit, backoff_gives_up}
use mender.Client.Resumer.{ReadError, Network, UpdateResumer, after_wait, read_loop}
use mender.Client.Resumer.Step.{
  chunk_read, behind_read, stops, answer, read_loop-returns, read_loop-breaks, read_loop-gives_up,
  read_loop-refused, read_loop-resumes,
}
use mender.Client.Resumer.Content.{IsAt, IsServer, IsGood}
use mender.Client.Resumer.Delivery.{Result-cases, read_loop-AllGood}

le_or_lt : (a b : ℕ) → (a ≤ b) ⊎ (b < a)
le_or_lt a b = omega arith

err-not_ok : (e : Error) (n : ℕ) → ◌≢◌ {A = Result ℕ} (err e) (ok n)
err-not_ok e n = ground arith

-- A wait is only granted to a try below the limit.
granted :
    (k tried max_wait time : ℕ)
    → max_wait ≤ smallest_unit * 2 ^ k
    → get_exponential_backoff_time tried max_wait ≡ ok time
    → tried < 3 * k + 3
granted k tried max_wait time m w = elim (le_or_lt (3 * k + 3) tried) [
  | inl l ↦ absurd (err-not_ok _ time (sym (backoff_gives_up k tried max_wait m l) ∙ w))
  | inr l ↦ l
]

module _ (net : Network) (size k : ℕ) where
  abbrev Returned : Option (List ℕ × Option ReadError) × UpdateResumer → Type 0
  Returned r = (x : List ℕ × Option ReadError) × (r.0 ≡ some x)

  -- The fuel that reading needs, and one less for resuming.
  abbrev need : Bool → ℕ
  need true = 2
  need false = 1

  read_loop-Returned :
      (fuel : ℕ) (bytes : List ℕ) (reading : Bool) (h : UpdateResumer)
      → h.max_wait ≤ smallest_unit * 2 ^ k
      → 6 * k + 6 + need reading ≤ fuel + 2 * h.retry_attempts
      → need reading ≤ fuel
      → Returned (read_loop net size fuel bytes reading h)
  read_loop-Returned zero bytes true h m l p = absurd (omega arith)
  read_loop-Returned zero bytes false h m l p = absurd (omega arith)
  read_loop-Returned (suc fuel) bytes true h m l p =
      elim (Bool-cases (stops net size fuel bytes h)) [
        | inl s ↦ subst Returned (sym (read_loop-returns net size fuel bytes h s)) (_, refl)
        | inr s ↦ subst Returned (sym (read_loop-breaks net size fuel bytes h s)) (
            read_loop-Returned fuel (bytes ++ chunk_read net size fuel bytes h) false
              (behind_read net size fuel bytes h) m (omega arith) (omega arith))
      ]
  read_loop-Returned (suc fuel) bytes false h m l p =
      elim (Result-cases (get_exponential_backoff_time h.retry_attempts h.max_wait)) [
        | inl (x, w) ↦ subst Returned (sym (read_loop-gives_up net size fuel bytes h x w)) (_, refl)
        | inr (time, w) ↦
            let g = granted k h.retry_attempts h.max_wait time m w in
            elim (Result-cases (answer net size fuel bytes h time)) [
              | inl (x, r) ↦
                  subst Returned (sym (read_loop-refused net size fuel bytes h time x w r)) (
                    read_loop-Returned fuel bytes false (after_wait net time h) m (omega arith)
                      (omega arith))
              | inr (stream, r) ↦
                  subst Returned (sym (read_loop-resumes net size fuel bytes h time stream w r)) (
                    read_loop-Returned fuel bytes true
                      (record (after_wait net time h) { stream = stream }) m (omega arith)
                      (omega arith))
            ]
      ]

module _ (content : List ℕ) (net : Network) (server : IsServer content net) where
  -- If every response that names the start of a range has the content from there on as its body, and
  -- the stream goes on behind a base of the content, then Read returns, whatever breaks: its bytes
  -- follow the base in the content, the stream goes on behind them, and the end of the file is
  -- reported only if nothing or all of the content's length was downloaded. The fuel is that of a
  -- maximal wait that k doublings of the smallest unit reach.
  pub read_delivers :
      (base : List ℕ) (size k : ℕ) (h : UpdateResumer)
      → IsAt content base h.stream h.offset
      → h.max_wait ≤ smallest_unit * 2 ^ k
      → (x : List ℕ × Option ReadError) × (((read_loop net size (6 * k + 8) [] true h).0 ≡ some x)
          × IsGood content net server base (read_loop net size (6 * k + 8) [] true h) x.0 x.1)
  read_delivers base size k h a m =
      let (x, r) =
        read_loop-Returned net size k (6 * k + 8) [] true h m (omega arith) (omega arith) in
      (
        x,
        (
          r,
          read_loop-AllGood content net server base [] size (6 * k + 8) true h
              (subst (λ (b : List ℕ). IsAt content b h.stream h.offset) (sym (append-nil base)) a)
              x.0 x.1 r,
        ),
      )
