-- ===== src/PasswordRules/Keyboard.antt =====
-- dto/validator/password/no-keyboard-sequence.decorator.ts.
pub mod Windows
use authora.Prelude.{
  ℕ, Bool, true, false, not, List, [], ◌∷◌, if◌then◌else◌, leb, length, any, ◌&&◌, ◌||◌,
}
use authora.PasswordRules.Texts.{includes, take, same_text, reversed}

-- the rows in the order of the source: digits, QWERTY, AZERTY, QWERTZ
abbrev listed_rows : List (List ℕ)
listed_rows =
    (49 ∷ 50 ∷ 51 ∷ 52 ∷ 53 ∷ 54 ∷ 55 ∷ 56 ∷ 57 ∷ 48 ∷ [])
    ∷ (113 ∷ 119 ∷ 101 ∷ 114 ∷ 116 ∷ 121 ∷ 117 ∷ 105 ∷ 111 ∷ 112 ∷ [])
    ∷ (97 ∷ 115 ∷ 100 ∷ 102 ∷ 103 ∷ 104 ∷ 106 ∷ 107 ∷ 108 ∷ [])
    ∷ (122 ∷ 120 ∷ 99 ∷ 118 ∷ 98 ∷ 110 ∷ 109 ∷ [])
    ∷ (97 ∷ 122 ∷ 101 ∷ 114 ∷ 116 ∷ 121 ∷ 117 ∷ 105 ∷ 111 ∷ 112 ∷ [])
    ∷ (113 ∷ 115 ∷ 100 ∷ 102 ∷ 103 ∷ 104 ∷ 106 ∷ 107 ∷ 108 ∷ 109 ∷ [])
    ∷ (119 ∷ 120 ∷ 99 ∷ 118 ∷ 98 ∷ 110 ∷ [])
    ∷ (113 ∷ 119 ∷ 101 ∷ 114 ∷ 116 ∷ 122 ∷ 117 ∷ 105 ∷ 111 ∷ 112 ∷ [])
    ∷ (97 ∷ 115 ∷ 100 ∷ 102 ∷ 103 ∷ 104 ∷ 106 ∷ 107 ∷ 108 ∷ [])
    ∷ (121 ∷ 120 ∷ 99 ∷ 118 ∷ 98 ∷ 110 ∷ 109 ∷ [])
    ∷ []

-- `.filter((row, index, self) => self.indexOf(row) === index)`, after the rows that were seen
abbrev first_of_each : List (List ℕ) → List (List ℕ) → List (List ℕ)
first_of_each seen [] = []
first_of_each seen (row ∷ rows) =
    let rest = first_of_each (row ∷ seen) rows in
    if any (same_text row) seen then rest else row ∷ rest

abbrev pub keyboard_rows : List (List ℕ)
keyboard_rows = first_of_each [] listed_rows

-- the innermost loop: some four characters in a row of the text are in the sequence
unfoldable pub scan_windows : List ℕ → List ℕ → Bool
scan_windows seq [] = false
scan_windows seq (c ∷ rest) =
    let later = scan_windows seq rest in
    leb 4 (length (c ∷ rest)) && (includes seq (take 4 (c ∷ rest)) || later)

unfoldable pub no_keyboard_sequence : Bool → (List ℕ → List ℕ) → List ℕ → Bool
unfolding scan_windows
no_keyboard_sequence enabled lower value =
    if not enabled
    then true
    else not (
        any (λ row. any (λ seq. scan_windows seq (lower value)) (row ∷ reversed row ∷ []))
          keyboard_rows)
