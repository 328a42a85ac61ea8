-- ===== src/App/DeploymentLogger/Rotation.antt =====
-- Which log files are kept when they are rotated.
use mender.Prelude.{
  map, ℕ, suc, ◌+◌, ◌-◌, ◌≡◌, ◌≤◌, inl, inr, refl, sym, ap, ◌∙◌, arith, ltb, min, length, Bool,
  Bool-cases, true, false, Option, some, List, [], ◌∷◌, ◌++◌, if◌then◌else◌,
}
use mathlib.Core.Path.{subst}
use mender.Text.{Text, contains}
use mender.App.DeploymentLogger.{
  rotate_log_file_name, LogManager, LogOp, trim, last_of, path_of, remove_all, rename_all,
  rotate_rest, rotate,
}

length_append : (xs ys : List Text) → length (xs ++ ys) ≡ length xs + length ys
length_append [] ys = omega arith
length_append (x ∷ xs) ys = omega (arith, length_append xs ys)

enough : (max n : ℕ) → ltb max n ≡ false → n ≡ min max n
enough max n h = ground arith

too_many : (max n : ℕ) → ltb max (suc n) ≡ true → min max n ≡ min max (suc n)
too_many max n h = ground arith

-- The files are the old ones and the kept ones, of which there are as many as may be.
record Trimmed (max : ℕ) (fs : List Text) : Type 0 where
  parts : fs ≡ (trim max fs).0 ++ (trim max fs).1
  count : length (trim max fs).1 ≡ min max (length fs)

trim-Trimmed : (max : ℕ) (fs : List Text) → Trimmed max fs
unfolding trim
trim-Trimmed max [] = record { parts = refl; count = ground arith }
trim-Trimmed max (f ∷ fs) =
    let i = trim-Trimmed max fs in
    elim (Bool-cases (ltb max (suc (length fs)))) [
      | inl e ↦ record {
        parts = rw e (ap (λ (xs : List Text). f ∷ xs) i.parts);
        count = rw e (i.count ∙ too_many max (length fs) e);
      }
      | inr e ↦ record { parts = rw e refl; count = rw e (enough max (suc (length fs)) e) }
    ]

last_of-append :
    (d : Text) (old : List Text) (g : Text) (gs : List Text)
    → last_of d (old ++ (g ∷ gs)) ≡ last_of g gs
last_of-append d [] g gs = refl
last_of-append d (f ∷ old) g gs = last_of-append f old g gs

append_assoc : {A : Type 0} (xs ys zs : List A) → (xs ++ ys) ++ zs ≡ xs ++ (ys ++ zs)
append_assoc [] ys zs = refl
append_assoc {A} (x ∷ xs) ys zs = ap (λ (l : List A). x ∷ l) (append_assoc xs ys zs)

append-nil : {A : Type 0} (xs : List A) → xs ++ [] ≡ xs
append-nil [] = refl
append-nil {A} (x ∷ xs) = ap (λ (l : List A). x ∷ l) (append-nil xs)

remove_all-append : (xs ys : List Text) → remove_all (xs ++ ys) ≡ remove_all xs ++ remove_all ys
remove_all-append [] ys = refl
remove_all-append (x ∷ xs) ys =
    ap (λ (l : List LogOp). LogOp.removed x ∷ l) (remove_all-append xs ys)

min-min : (max n : ℕ) → min (max - 1) (min max n) ≡ min (max - 1) n
min-min max n = ground arith

none_kept : (max n : ℕ) → 1 ≤ max → 0 ≡ min max (suc n) → ⊥
none_kept max n h k = ground arith

remove_all-map : (fs : List Text) → remove_all fs ≡ map LogOp.removed fs
remove_all-map [] = refl
remove_all-map (f ∷ fs) = ap (λ (l : List LogOp). LogOp.removed f ∷ l) (remove_all-map fs)

abbrev pub renaming : Text → LogOp
unfolding rotate_log_file_name
renaming f = LogOp.renamed f (rotate_log_file_name f)

rename_all-map : (fs : List Text) → rename_all fs ≡ map renaming fs
unfolding rotate_log_file_name
rename_all-map [] = refl
rename_all-map (f ∷ fs) = ap (λ (l : List LogOp). renaming f ∷ l) (rename_all-map fs)

mapped :
    (old kept : List Text) (b : Bool)
    → ◌≡◌ {A = Option (List LogOp)}
        (some (remove_all old ++ (if b then [] else rename_all kept)))
        (some (map LogOp.removed old ++ (if b then [] else map renaming kept)))
unfolding rotate_log_file_name
mapped old kept b = rw (remove_all-map old, rename_all-map kept) refl

-- Files are split into old ones, which are removed, and kept ones, which are renamed in order unless
-- the newest is of the current deployment; and as many are kept as may be, with room for a new file
-- unless there is one.
pub record Rotated (max : ℕ) (files : List Text) (current : Bool) (r : Option (List LogOp))
    : Type 0 where
  pub old : List Text
  pub kept : List Text
  pub parts : files ≡ old ++ kept
  pub ops : r ≡ some (map LogOp.removed old ++ (if current then [] else map renaming kept))
  pub count : length kept ≡ min (if current then max else max - 1) (length files)

abbrev pub is_current : LogManager → Text → List Text → Bool
is_current m f fs = contains (path_of m.log_location (last_of f fs)) m.deployment_id

rest-Rotated :
    (m : LogManager) (files old : List Text) (g : Text) (gs : List Text)
    → files ≡ old ++ (g ∷ gs)
    → length (g ∷ gs) ≡ min m.max_log_files (length files)
    → Rotated m.max_log_files files (is_current m g gs) (rotate_rest m (remove_all old) (g ∷ gs))
unfolding rotate_rest
rest-Rotated m files old g gs parts count = elim (Bool-cases (is_current m g gs)) [
  | inl e ↦ rw e (record {
    old = old;
    kept = g ∷ gs;
    parts = parts;
    ops = ap some (sym (append-nil (remove_all old))) ∙ mapped old (g ∷ gs) true;
    count = count;
  })
  | inr e ↦
      let less = m.max_log_files - 1 in
      let (old', kept) = trim less (g ∷ gs) in
      let t = trim-Trimmed less (g ∷ gs) in
      rw e (record {
        old = old ++ old';
        kept = kept;
        parts = parts ∙ ap (λ (l : List Text). old ++ l) t.parts ∙ sym (append_assoc old old' kept);
        ops =
            ap some (
              sym (append_assoc (remove_all old) (remove_all old') (rename_all kept))
              ∙ ap (λ (l : List LogOp). l ++ rename_all kept) (sym (remove_all-append old old')))
            ∙ mapped (old ++ old') kept false;
        count = t.count ∙ ap (λ (n : ℕ). min less n) count ∙ min-min m.max_log_files (length files);
      })
]

kept-Rotated :
    (m : LogManager) (f : Text) (fs old kept : List Text)
    → 1 ≤ m.max_log_files
    → f ∷ fs ≡ old ++ kept
    → length kept ≡ min m.max_log_files (length (f ∷ fs))
    → Rotated m.max_log_files (f ∷ fs) (is_current m f fs) (rotate_rest m (remove_all old) kept)
kept-Rotated m f fs old [] max parts count =
    absurd (none_kept m.max_log_files (length fs) max count)
kept-Rotated m f fs old (g ∷ gs) max parts count =
    subst
      (λ (n : Text).
        Rotated m.max_log_files (f ∷ fs) (contains (path_of m.log_location n) m.deployment_id)
          (rotate_rest m (remove_all old) (g ∷ gs)))
      (sym (ap (λ (l : List Text). last_of f l) parts ∙ last_of-append f old g gs))
      (rest-Rotated m (f ∷ fs) old g gs parts count)

-- Whatever log files there are: rotating them removes the oldest and keeps the others in order, as many as
-- may be if the newest is of the current deployment, and otherwise one less, to leave room for a new
-- file; then each kept file is renamed, the oldest first. It never runs out of range.
pub rotate-Rotated :
    (m : LogManager) (f : Text) (fs : List Text)
    → 1 ≤ m.max_log_files
    → Rotated m.max_log_files (f ∷ fs) (is_current m f fs) (rotate m (f ∷ fs))
unfolding rotate
rotate-Rotated m f fs max =
    let (old, kept) = trim m.max_log_files (f ∷ fs) in
    let t = trim-Trimmed m.max_log_files (f ∷ fs) in
    kept-Rotated m f fs old kept max t.parts t.count
