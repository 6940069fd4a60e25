-- ===== src/PasswordRules/Texts.antt =====
-- The methods of JavaScript's strings that the password rules use, on lists of code units.
use authora.Prelude.{
  ℕ, zero, suc, Bool, true, false, ◌&&◌, ◌||◌, ◌≡◌, refl, ap, Option, none, some, List, [], ◌∷◌,
  ◌++◌, if◌then◌else◌, eqb, arith, Bool-cases, inl, inr,
}

-- `text.startsWith(prefix)`
abbrev pub starts_with : List ℕ → List ℕ → Bool
starts_with text [] = true
starts_with [] (p ∷ prefix) = false
starts_with (c ∷ text) (p ∷ prefix) = eqb c p && starts_with text prefix

-- `text.includes(part)`
abbrev pub includes : List ℕ → List ℕ → Bool
includes [] part = starts_with [] part
includes (c ∷ text) part = starts_with (c ∷ text) part || includes text part

-- `text.substring(0, n)`
abbrev pub take : ℕ → List ℕ → List ℕ
take zero text = []
take (suc n) [] = []
take (suc n) (c ∷ text) = c ∷ take n text

-- `text.substring(n)`
abbrev pub drop : ℕ → List ℕ → List ℕ
drop zero text = text
drop (suc n) [] = []
drop (suc n) (c ∷ text) = drop n text

abbrev pub push : ℕ → List (List ℕ) → List (List ℕ)
push c [] = (c ∷ []) ∷ []
push c (part ∷ parts) = (c ∷ part) ∷ parts

-- `text.split(separator)`, for a separator of one character
abbrev pub split : (ℕ → Bool) → List ℕ → List (List ℕ)
split separates [] = [] ∷ []
split separates (c ∷ text) =
    let parts = split separates text in if separates c then [] ∷ parts else push c parts

-- the text before and after the first such character, `none` if `indexOf` is -1
abbrev pub split_at : ℕ → List ℕ → Option (List ℕ × List ℕ)
split_at separator [] = none
split_at separator (c ∷ text) =
    let later = split_at separator text in
    if eqb c separator
    then some ([], text)
    else elim later [ none ↦ none | some (before, after) ↦ some (c ∷ before, after) ]

-- `a === b`
abbrev pub same_text : List ℕ → List ℕ → Bool
same_text [] [] = true
same_text [] (d ∷ b) = false
same_text (c ∷ a) [] = false
same_text (c ∷ a) (d ∷ b) = eqb c d && same_text a b

abbrev pub reversed_onto : List ℕ → List ℕ → List ℕ
reversed_onto [] done = done
reversed_onto (c ∷ text) done = reversed_onto text (c ∷ done)

-- `[...text].reverse().join('')`
abbrev pub reversed : List ℕ → List ℕ
reversed text = reversed_onto text []

pub starts_with-eq-true :
    (text part : List ℕ) → starts_with text part ≡ true → (rest : List ℕ) × (text ≡ part ++ rest)
starts_with-eq-true text [] h = (text, refl)
starts_with-eq-true [] (p ∷ part) h = absurd (ground arith)
starts_with-eq-true (c ∷ text) (p ∷ part) h =
    let (rest, same) = starts_with-eq-true text part (ground arith) in
    let here : c ≡ p = ground arith in (rest, rw (here, same) refl)

pub starts_with-append : (part rest : List ℕ) → starts_with (part ++ rest) part ≡ true
starts_with-append [] rest = refl
starts_with-append (p ∷ part) rest = let later = starts_with-append part rest in ground arith

-- `includes` finds the parts of a text.
pub includes-eq-true :
    (text part : List ℕ)
    → includes text part ≡ true
    → (before after : List ℕ) × (text ≡ before ++ (part ++ after))
includes-eq-true [] part h = let (rest, same) = starts_with-eq-true [] part h in ([], rest, same)
includes-eq-true (c ∷ text) part h = elim (Bool-cases (starts_with (c ∷ text) part)) [
  | inl here ↦ let (rest, same) = starts_with-eq-true (c ∷ text) part here in ([], rest, same)
  | inr later ↦
      let (before, after, same) = includes-eq-true text part (ground arith) in
      (c ∷ before, after, ap (◌∷◌ c) same)
]

includes_here : (text part : List ℕ) → starts_with text part ≡ true → includes text part ≡ true
includes_here [] part h = h
includes_here (c ∷ text) part h = ground arith

pub includes-append :
    (before part after : List ℕ) → includes (before ++ (part ++ after)) part ≡ true
includes-append [] part after = includes_here (part ++ after) part (starts_with-append part after)
includes-append (c ∷ before) part after =
    let later = includes-append before part after in ground arith
