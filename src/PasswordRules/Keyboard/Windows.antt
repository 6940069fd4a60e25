-- ===== src/PasswordRules/Keyboard/Windows.antt =====
-- The nested loops of the keyboard rule against a description without positions.
use authora.Prelude.{
  ℕ, zero, suc, ◌≤◌, Bool, true, false, not, ◌≡◌, refl, ap, sym, ◌↔◌, ◌⊎◌, inl, inr, List, [], ◌∷◌,
  ◌++◌, leb, length, any, any-eq-true, any-Member, Member, Bool-cases, arith, subst,
}
use authora.PasswordRules.Texts.{includes, take, drop, reversed, includes-eq-true, includes-append}
use authora.PasswordRules.Keyboard.{keyboard_rows, scan_windows, no_keyboard_sequence}

abbrev pub IsPart : List ℕ → List ℕ → Type 0
IsPart part text = (before after : List ℕ) × (text ≡ before ++ (part ++ after))

-- four neighbours of the text stand in the row in this order, or in its reverse
abbrev pub IsTyped : List ℕ → List ℕ → Type 0
IsTyped row text =
    (part : List ℕ) × (length part ≡ 4)
    × IsPart part text
    × (IsPart part row ⊎ IsPart part (reversed row))

length-take : (n : ℕ) (text : List ℕ) → leb n (length text) ≡ true → length (take n text) ≡ n
length-take zero text h = refl
length-take (suc n) [] h = absurd (ground arith)
length-take (suc n) (c ∷ text) h = ap suc (length-take n text (ground arith))

take-drop : (n : ℕ) (text : List ℕ) → text ≡ take n text ++ drop n text
take-drop zero text = refl
take-drop (suc n) [] = refl
take-drop (suc n) (c ∷ text) = ap (◌∷◌ c) (take-drop n text)

take-append : (part after : List ℕ) → take (length part) (part ++ after) ≡ part
take-append [] after = refl
take-append (c ∷ part) after = ap (◌∷◌ c) (take-append part after)

length-append_at_least : (part after : List ℕ) → length part ≤ length (part ++ after)
length-append_at_least [] after = omega arith
length-append_at_least (c ∷ part) after =
    let rest = length-append_at_least part after in omega arith

length_after : (before text : List ℕ) → length text ≤ length (before ++ text)
length_after [] text = omega arith
length_after (c ∷ before) text = let rest = length_after before text in omega arith

scan_windows-eq-true :
    (seq text : List ℕ)
    → scan_windows seq text ≡ true
    → (part : List ℕ) × (length part ≡ 4) × IsPart part text × IsPart part seq
unfolding scan_windows
scan_windows-eq-true seq [] h = absurd (ground arith)
scan_windows-eq-true seq (c ∷ rest) h =
    let long : leb 4 (length (c ∷ rest)) ≡ true = ground arith in
    elim (Bool-cases (includes seq (take 4 (c ∷ rest)))) [
      | inl here ↦ (
        take 4 (c ∷ rest),
        length-take 4 (c ∷ rest) long,
        ([], drop 4 (c ∷ rest), take-drop 4 (c ∷ rest)),
        includes-eq-true seq (take 4 (c ∷ rest)) here,
      )
      | inr later ↦
          let (part, four, (before, after, same), in_seq) =
            scan_windows-eq-true seq rest (ground arith) in
          (part, four, (c ∷ before, after, ap (◌∷◌ c) same), in_seq)
    ]

scan_windows_first :
    (seq : List ℕ) (c : ℕ) (rest : List ℕ)
    → leb 4 (length (c ∷ rest)) ≡ true
    → includes seq (take 4 (c ∷ rest)) ≡ true
    → scan_windows seq (c ∷ rest) ≡ true
unfolding scan_windows
scan_windows_first seq c rest long here = rw (long, here) refl

scan_windows_later :
    (seq : List ℕ) (c : ℕ) (rest : List ℕ)
    → leb 4 (length (c ∷ rest)) ≡ true
    → scan_windows seq rest ≡ true
    → scan_windows seq (c ∷ rest) ≡ true
unfolding scan_windows
scan_windows_later seq c rest long later = ground arith

scan_windows-append :
    (seq before part after : List ℕ)
    → length part ≡ 4
    → includes seq part ≡ true
    → scan_windows seq (before ++ (part ++ after)) ≡ true
scan_windows-append seq [] [] after four h = absurd (ground arith)
scan_windows-append seq [] (c ∷ part) after four h =
    let at_least = length-append_at_least (c ∷ part) after in
    scan_windows_first seq c (part ++ after) (ground arith) (
      subst (λ w. includes seq w ≡ true)
        (sym
          (subst (λ n. take n (c ∷ part ++ after) ≡ c ∷ part) four (take-append (c ∷ part) after)))
        h)
scan_windows-append seq (c ∷ before) part after four h =
    let inner = length-append_at_least part after in
    let outer = length_after before (part ++ after) in
    scan_windows_later seq c (before ++ (part ++ after)) (ground arith)
      (scan_windows-append seq before part after four h)

scan_windows-part :
    (seq text part : List ℕ)
    → length part ≡ 4
    → IsPart part text
    → IsPart part seq
    → scan_windows seq text ≡ true
scan_windows-part seq text part four (before, after, same) (b, a, in_seq) =
    subst (λ t. scan_windows seq t ≡ true) (sym same)
      (scan_windows-append seq before part after four
        (subst (λ s. includes s part ≡ true) (sym in_seq) (includes-append b part a)))

abbrev either_way : List ℕ → List ℕ → Bool
either_way text row = any (λ seq. scan_windows seq text) (row ∷ reversed row ∷ [])

either_way-IsTyped : (row text : List ℕ) → either_way text row ≡ true → IsTyped row text
either_way-IsTyped row text h = elim (Bool-cases (scan_windows row text)) [
  | inl forwards ↦
      let (part, four, there, in_row) = scan_windows-eq-true row text forwards in
      (part, four, there, inl in_row)
  | inr other ↦
      let (part, four, there, in_row) = scan_windows-eq-true (reversed row) text (ground arith) in
      (part, four, there, inr in_row)
]

IsTyped-either_way : (row text : List ℕ) → IsTyped row text → either_way text row ≡ true
IsTyped-either_way row text (part, four, there, inl in_row) =
    let found = scan_windows-part row text part four there in_row in ground arith
IsTyped-either_way row text (part, four, there, inr in_row) =
    let found = scan_windows-part (reversed row) text part four there in_row in ground arith

-- Where the rule is on, the loops of `noKeyboardSequence` refuse a text exactly if its lower-case
-- form has four neighbours that stand in this order in one of the keyboard rows, or in the
-- reverse of one.
pub no_keyboard_sequence_lem :
    (lower : List ℕ → List ℕ) (value : List ℕ)
    → (no_keyboard_sequence true lower value ≡ false)
      ↔ ((row : List ℕ) × Member row keyboard_rows × IsTyped row (lower value))
unfolding no_keyboard_sequence
no_keyboard_sequence_lem lower value = (
  λ refused.
      let (row, listed, typed) =
        any-eq-true (either_way (lower value)) keyboard_rows (ground arith) in
      (row, listed, either_way-IsTyped row (lower value) typed),
  λ (row, listed, typed). ap not (
      any-Member (either_way (lower value)) keyboard_rows listed
        (IsTyped-either_way row (lower value) typed)),
)
