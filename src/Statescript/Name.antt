-- ===== src/Statescript/Name.antt =====
-- The names of the scripts, by the regular expression of Launcher.get in statescript/executor.go.
use mender.Prelude.{ℕ, leb, ◌==◌, ◌&&◌, ◌||◌, Bool, true, false, [], ◌∷◌, not, if◌then◌else◌}
use mender.Text.{Text, text, is_digit, is_empty, has_prefix, drop_prefix}

-- [A-Za-z]
abbrev pub is_letter : ℕ → Bool
is_letter c = (leb b'A' c && leb c b'Z') || (leb b'a' c && leb c b'z')

-- \S
abbrev pub is_non_space : ℕ → Bool
is_non_space c = not (c == 32 || (c == 9 || (c == 10 || (c == 12 || c == 13))))

abbrev pub all : (ℕ → Bool) → Text → Bool
all p [] = true
all p (c ∷ s) = p c && all p s

-- (_\S+)? up to the end
abbrev pub is_suffix : Text → Bool
is_suffix [] = true
is_suffix (c ∷ s) = c == b'_' && (not (is_empty s) && all is_non_space s)

-- _[0-9][0-9](_\S+)?
abbrev pub is_number_suffix : Text → Bool
is_number_suffix (u ∷ a ∷ b ∷ s) = u == b'_' && (is_digit a && (is_digit b && is_suffix s))
is_number_suffix _ = false

-- (Enter|Leave|Error), each of five letters, and what follows
abbrev pub is_action_suffix : Text → Bool
is_action_suffix s =
    (has_prefix s (text "Enter") || (has_prefix s (text "Leave") || has_prefix s (text "Error")))
    && is_number_suffix (drop_prefix s (text "Enter"))

-- What follows the first letter: [A-Za-z]*_ and the rest.
unfoldable pub is_state_suffix : Text → Bool
is_state_suffix [] = false
is_state_suffix (c ∷ s) =
    let rest = is_state_suffix s in if c == b'_' then is_action_suffix s else is_letter c && rest

-- The name is matched as a whole.
unfoldable pub is_script_name : Text → Bool
unfolding is_state_suffix
is_script_name [] = false
is_script_name (c ∷ s) = is_letter c && is_state_suffix s
