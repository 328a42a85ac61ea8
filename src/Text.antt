-- ===== src/Text.antt =====
-- Texts where the code looks at their characters: lists of code points, with the functions of Go's
-- strings and strconv packages that the client uses.
use Prim.Native.Char.{code}
use mender.Prelude.{
  ◌≡◌, refl, arith, ℕ, zero, suc, ◌+◌, ◌*◌, ◌-◌, ◌^◌, String, ◌==◌, leb, ltb, ◌&&◌, ◌||◌, Bool,
  true, false, List, [], ◌∷◌, Option, none, some, if◌then◌else◌,
}

-- A text as its code points.
abbrev pub Text : Type 0
Text = List ℕ

abbrev pub text : String → Text
text String.[] = []
text (String.◌∷◌ c s) = code c ∷ text s

abbrev pub text_eq : Text → Text → Bool
text_eq [] [] = true
text_eq (a ∷ as') (b ∷ bs) = a == b && text_eq as' bs
text_eq _ _ = false

abbrev pub is_empty : Text → Bool
is_empty [] = true
is_empty (_ ∷ _) = false

cons_head : ℕ → List Text → List Text
cons_head c [] = (c ∷ []) ∷ []
cons_head c (t ∷ ts) = (c ∷ t) ∷ ts

-- strings.Split by one character.
unfoldable pub split : ℕ → Text → List Text
unfolding cons_head
split sep [] = [] ∷ []
split sep (c ∷ cs) = let rest = split sep cs in if c == sep then [] ∷ rest else cons_head c rest

-- strings.HasPrefix
abbrev pub has_prefix : Text → Text → Bool
has_prefix s [] = true
has_prefix [] (p ∷ ps) = false
has_prefix (c ∷ s) (p ∷ ps) = c == p && has_prefix s ps

-- s[len(prefix):], where the text has the prefix.
abbrev pub drop_prefix : Text → Text → Text
drop_prefix s [] = s
drop_prefix [] (p ∷ ps) = []
drop_prefix (c ∷ s) (p ∷ ps) = drop_prefix s ps

-- strings.TrimSpace: the white space of ASCII, and of Latin-1 (U+0085, U+00A0).
abbrev pub is_space : ℕ → Bool
is_space c = (leb 9 c && leb c 13) || (c == 32 || (c == 0x85 || c == 0xA0))

unfoldable pub trim_left : Text → Text
trim_left [] = []
trim_left (c ∷ s) = let rest = trim_left s in if is_space c then rest else c ∷ s

unfoldable pub trim_right : Text → Text
trim_right [] = []
trim_right (c ∷ s) = let rest = trim_right s in if is_space c && is_empty rest then [] else c ∷ rest

unfoldable pub trim_space : Text → Text
unfolding trim_left trim_right
trim_space s = trim_left (trim_right s)

abbrev pub is_digit : ℕ → Bool
is_digit c = leb b'0' c && leb c b'9'

-- The decimal digits of a number that is already read as far as `n`.
unfoldable pub digits_value : ℕ → Text → Option ℕ
digits_value n [] = some n
digits_value n (c ∷ s) =
    let rest = digits_value (n * 10 + (c - b'0')) s in if is_digit c then rest else none

-- Go's int, by the sign; the library's ℤ is over another ℕ.
pub data ℤ : Type 0 where
  pos negsuc : ℕ → ℤ

abbrev pub negate : ℕ → ℤ
negate zero = ℤ.pos 0
negate (suc n) = ℤ.negsuc n

infix 50 ◌==ℤ◌
abbrev pub ◌==ℤ◌ : ℤ → ℤ → Bool
ℤ.pos m ==ℤ ℤ.pos n = m == n
ℤ.negsuc m ==ℤ ℤ.negsuc n = m == n
_ ==ℤ _ = false

-- The digits of an int, of which there is at least one.
unfoldable pub digits : Text → Option ℕ
unfolding digits_value
digits [] = none
digits (c ∷ s) = digits_value 0 (c ∷ s)

abbrev in_range : (ℕ → ℤ) → ℕ → Option ℕ → Option ℤ
in_range sign bound none = none
in_range sign bound (some n) = if ltb n bound then some (sign n) else none

-- strconv.Atoi with an int of 64 bits.
unfoldable pub atoi : Text → Option ℤ
unfolding digits
atoi [] = none
atoi (c ∷ s) =
    if c == b'-'
    then in_range negate (2 ^ 63 + 1) (digits s)
    else if c == b'+'
    then in_range ℤ.pos (2 ^ 63) (digits s)
    else in_range ℤ.pos (2 ^ 63) (digits (c ∷ s))

-- strings.Contains
unfoldable pub contains : Text → Text → Bool
contains [] p = is_empty p
contains (c ∷ s) p = has_prefix (c ∷ s) p || contains s p

-- The test decides equality.
pub text_eq_sound : (s t : Text) → text_eq s t ≡ true → s ≡ t
text_eq_sound [] [] h = refl
text_eq_sound [] (y ∷ t) h = ground arith
text_eq_sound (x ∷ s) [] h = ground arith
text_eq_sound (x ∷ s) (y ∷ t) h = let k = text_eq_sound s t in ground arith

pub text_eq_refl : (s : Text) → text_eq s s ≡ true
text_eq_refl [] = refl
text_eq_refl (c ∷ s) = ground (arith, text_eq_refl s)
