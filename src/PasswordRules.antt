-- ===== src/PasswordRules.antt =====
-- dto/validator/password/*.decorator.ts: the rules for a password's characters. A password is the
-- list of its UTF-16 code units; `lower` stands for toLowerCase on it. Each validator is given its
-- setting.
pub mod Texts
pub mod Runs
pub mod Keyboard
pub mod Email
pub mod Breach
use authora.Prelude.{
  ℕ, ◌+◌, Bool, true, false, not, ◌&&◌, ◌||◌, List, [], ◌∷◌, if◌then◌else◌, leb, eqb, length, any,
}

-- `c >= 'a' && c <= 'z'`, and the like
abbrev pub is_lowercase : ℕ → Bool
is_lowercase c = leb 97 c && leb c 122

abbrev pub is_uppercase : ℕ → Bool
is_uppercase c = leb 65 c && leb c 90

abbrev pub is_digit : ℕ → Bool
is_digit c = leb 48 c && leb c 57

-- the characters of SPECIAL_CHARS: all ASCII punctuation
abbrev pub is_special : ℕ → Bool
is_special c =
    leb 33 c && leb c 47 || leb 58 c && leb c 64 || leb 91 c && leb c 96 || leb 123 c && leb c 126

unfoldable pub has_min_length : ℕ → List ℕ → Bool
has_min_length min_length value = leb min_length (length value)

unfoldable pub has_digit : Bool → List ℕ → Bool
has_digit enabled value = if not enabled then true else any is_digit value

unfoldable pub has_lowercase : Bool → List ℕ → Bool
has_lowercase enabled value = if not enabled then true else any is_lowercase value

unfoldable pub has_uppercase : Bool → List ℕ → Bool
has_uppercase enabled value = if not enabled then true else any is_uppercase value

unfoldable pub has_special_char : Bool → List ℕ → Bool
has_special_char enabled value = if not enabled then true else any is_special value

-- the loop of `noRepeatedChars`, at a run that ends with the character before the rest
unfoldable pub scan_repeats : ℕ → ℕ → List ℕ → Bool
scan_repeats run previous [] = true
scan_repeats run previous (c ∷ rest) =
    let longer = scan_repeats (run + 1) c rest in
    let fresh = scan_repeats 1 c rest in
    if eqb c previous then (if leb 3 (run + 1) then false else longer) else fresh

-- `dir`, which the source keeps as 0, 1 or -1
pub data Direction : Type 0 where
  still up down : Direction

abbrev pub same_direction : Direction → Direction → Bool
same_direction still still = true
same_direction up up = true
same_direction down down = true
same_direction _ _ = false

abbrev pub is_still : Direction → Bool
is_still d = same_direction d still

-- both letters, or both digits
abbrev pub same_class : ℕ → ℕ → Bool
same_class a b = is_lowercase a && is_lowercase b || is_digit a && is_digit b

-- `diff` of neighbours of one class, where it is 1 or -1
abbrev pub step : ℕ → ℕ → Direction
step a b =
    if same_class a b && eqb b (a + 1)
    then up
    else if same_class a b && eqb a (b + 1)
    then down
    else still

-- the loop of `noSequentialChars`
unfoldable pub scan_sequences : ℕ → Direction → ℕ → List ℕ → Bool
scan_sequences run dir previous [] = true
scan_sequences run dir previous (c ∷ rest) =
    let diff = step previous c in
    let longer = scan_sequences (run + 1) diff c rest in
    let turned = scan_sequences 2 diff c rest in
    let fresh = scan_sequences 1 still c rest in
    if not (is_still diff)
    then (if is_still dir || same_direction dir diff
        then (if leb 4 (run + 1) then false else longer)
        else turned)
    else fresh

-- The first character has no neighbour before it.
abbrev pub from_second : (ℕ → List ℕ → Bool) → List ℕ → Bool
from_second scan [] = true
from_second scan (c ∷ rest) = scan c rest

unfoldable pub no_repeated_chars : Bool → (List ℕ → List ℕ) → List ℕ → Bool
unfolding scan_repeats
no_repeated_chars enabled lower value =
    if not enabled then true else from_second (scan_repeats 1) (lower value)

unfoldable pub no_sequential_chars : Bool → (List ℕ → List ℕ) → List ℕ → Bool
unfolding scan_sequences
no_sequential_chars enabled lower value =
    if not enabled then true else from_second (scan_sequences 1 still) (lower value)
