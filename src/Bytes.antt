-- ===== src/Bytes.antt =====
-- Lists of bytes, with the parts of a list and their lemmas.
use mender.Prelude.{ℕ, zero, suc, ◌+◌, ◌-◌, ◌≡◌, ◌≤◌, refl, ap, arith, length, List, [], ◌∷◌, ◌++◌}

abbrev pub take : ℕ → List ℕ → List ℕ
take zero xs = []
take (suc n) [] = []
take (suc n) (x ∷ xs) = x ∷ take n xs

abbrev pub drop : ℕ → List ℕ → List ℕ
drop zero xs = xs
drop (suc n) [] = []
drop (suc n) (x ∷ xs) = drop n xs

pub take-drop : (n : ℕ) (xs : List ℕ) → take n xs ++ drop n xs ≡ xs
take-drop zero xs = refl
take-drop (suc n) [] = refl
take-drop (suc n) (x ∷ xs) = ap (λ (ys : List ℕ). x ∷ ys) (take-drop n xs)

pub length-take : (n : ℕ) (xs : List ℕ) → n ≤ length xs → length (take n xs) ≡ n
length-take zero xs h = refl
length-take (suc n) [] h = absurd (omega arith)
length-take (suc n) (x ∷ xs) h = ap suc (length-take n xs (omega arith))

pub length-append : (xs ys : List ℕ) → length (xs ++ ys) ≡ length xs + length ys
length-append [] ys = omega arith
length-append (x ∷ xs) ys = omega (arith, length-append xs ys)

pub append_assoc : (xs ys zs : List ℕ) → (xs ++ ys) ++ zs ≡ xs ++ (ys ++ zs)
append_assoc [] ys zs = refl
append_assoc (x ∷ xs) ys zs = ap (λ (l : List ℕ). x ∷ l) (append_assoc xs ys zs)

cons-injective : (x y : ℕ) (xs ys : List ℕ) → x ∷ xs ≡ y ∷ ys → (x ≡ y) × (xs ≡ ys)
cons-injective x y xs ys h = ground arith

-- Two parts of the same length at the start of a list are the same.
pub prefix_unique : (xs ys us vs : List ℕ) → xs ++ us ≡ ys ++ vs → length xs ≡ length ys → xs ≡ ys
prefix_unique [] [] us vs h l = refl
prefix_unique [] (y ∷ ys) us vs h l = absurd (omega arith)
prefix_unique (x ∷ xs) [] us vs h l = absurd (omega arith)
prefix_unique (x ∷ xs) (y ∷ ys) us vs h l =
    let (a, b) = cons-injective x y (xs ++ us) (ys ++ vs) h in
    let e = prefix_unique xs ys us vs b (omega arith) in rw (a, e) refl

pub append-nil : (xs : List ℕ) → xs ++ [] ≡ xs
append-nil [] = refl
append-nil (x ∷ xs) = ap (λ (ys : List ℕ). x ∷ ys) (append-nil xs)

pub drop-nil : (n : ℕ) → drop n [] ≡ []
drop-nil zero = refl
drop-nil (suc n) = refl

pub drop-drop : (m n k : ℕ) (xs : List ℕ) → k ≡ n + m → drop m (drop n xs) ≡ drop k xs
drop-drop m zero k xs e = ap (λ (i : ℕ). drop i xs) (omega arith)
drop-drop m (suc n) zero xs e = absurd (omega arith)
drop-drop m (suc n) (suc k) [] e = drop-nil m
drop-drop m (suc n) (suc k) (x ∷ xs) e = drop-drop m n k xs (omega arith)

pub length-drop : (n : ℕ) (xs : List ℕ) → length (drop n xs) ≡ length xs - n
length-drop zero xs = omega arith
length-drop (suc n) [] = omega arith
length-drop (suc n) (x ∷ xs) = omega (arith, length-drop n xs)

pub take-append : (xs ys : List ℕ) → take (length xs) (xs ++ ys) ≡ xs
take-append [] ys = refl
take-append (x ∷ xs) ys = ap (λ (zs : List ℕ). x ∷ zs) (take-append xs ys)

pub drop-append : (xs ys : List ℕ) → drop (length xs) (xs ++ ys) ≡ ys
drop-append [] ys = refl
drop-append (x ∷ xs) ys = drop-append xs ys

pub take-length : (xs : List ℕ) → take (length xs) xs ≡ xs
take-length [] = refl
take-length (x ∷ xs) = ap (λ (zs : List ℕ). x ∷ zs) (take-length xs)
