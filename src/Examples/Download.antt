-- ===== src/Examples/Download.antt =====
-- A download of five bytes that breaks after two, and is resumed a byte before.
use mender.Prelude.{
  ℕ, ◌+◌, ◌*◌, ◌^◌, ◌≡◌, refl, sym, ap, ◌∙◌, arith, true, Option, none, some, List, [], ◌∷◌, ok,
  Result,
}
use mathlib.Core.Path.{subst}
use mender.Text.{Text, text, ℤ, atoi, trim_space, split}
use mender.Client.Backoff.{get_exponential_backoff_time}
use mender.Client.Resumer.{
  ReadError, Response, Event, Network, UpdateResumer, new_update_resumer, read_loop,
}
use mender.Client.Resumer.Content.{IsServer, IsGood, Honest, range_start}
use mender.Client.Resumer.End.{read_delivers}

abbrev content : List ℕ
content = 10 ∷ 20 ∷ 30 ∷ 40 ∷ 50 ∷ []

abbrev response : Response
response = record {
  status_code = 206;
  content_range = text "bytes 1-4/5";
  body = 20 ∷ 30 ∷ 40 ∷ 50 ∷ [];
}

-- The first read breaks, all others give four bytes.
abbrev error_of : List Event → Option ReadError
error_of [] = some ReadError.unexpected_eof
error_of (e ∷ es) = none

abbrev network : Network
network = record { chunk = λ h. 4; read_error = error_of; respond = λ h. ok response }

range_start_one : range_start response ≡ some (text "1")
unfolding trim_space split
range_start_one = refl

atoi_one : atoi (text "1") ≡ some (ℤ.pos 1)
unfolding atoi
atoi_one = refl

ok-injective : (q r : Response) → ◌≡◌ {A = Result Response} (ok q) (ok r) → q ≡ r
ok-injective q r h = ground arith

some-injective : (s t : Text) → ◌≡◌ {A = Option Text} (some s) (some t) → s ≡ t
some-injective s t h = ground arith

some_int-injective : (m n : ℤ) → ◌≡◌ {A = Option ℤ} (some m) (some n) → m ≡ n
some_int-injective m n h = ground arith

server : IsServer content network
server h res start n r s a =
    let same = ok-injective response res r in
    let one =
      some-injective (text "1") start
        (sym range_start_one ∙ (ap (λ (q : Response). range_start q) same ∙ s)) in
    let named =
      some_int-injective n (ℤ.pos 1) (sym a ∙ (ap (λ (t : Text). atoi t) (sym one) ∙ atoi_one)) in
    subst (λ (q : Response). Honest content q n) same
      (record {
        before = 10 ∷ [];
        at = record { rest = []; splits = refl; position = refl };
        named = named;
      })

abbrev broken_download : UpdateResumer
broken_download = new_update_resumer (10 ∷ 20 ∷ []) 5 (600 * 10 ^ 9)

read_delivers_example :
    (x : List ℕ × Option ReadError) × (((read_loop network 5 (6 * 4 + 8) [] true broken_download).0
        ≡ some x)
      × IsGood content network server []
          (read_loop network 5 (6 * 4 + 8) [] true broken_download)
          x.0
          x.1)
read_delivers_example =
    read_delivers content network server [] 5 4 broken_download
      (record { rest = 30 ∷ 40 ∷ 50 ∷ []; splits = refl; position = refl }) (omega arith)

-- All bytes come in order, behind one break.
whole_content : (read_loop network 5 32 [] true broken_download).0 ≡ some (content, none)
unfolding read_loop get_exponential_backoff_time split trim_space atoi
whole_content = refl
