-- ===== src/Config/Decimal.antt =====
-- `String(n)` and `Number(text)` for the integers of the settings. `none` stands for NaN; the other
-- forms that `Number` reads (signs, fractions, exponents, blanks) are never written by the cache.
use Prim.Native.Char.{Char, code}
use Prim.Native.String.{[], ◌∷◌}
use authora.Prelude.{
  ℕ, zero, suc, ◌+◌, ◌-◌, ◌*◌, ◌/◌, ◌%◌, ◌<◌, String, ◌≡◌, refl, ◌∙◌, Bool, true, false, ◌&&◌,
  Option, none, some, arith, leb, eqb, if◌then◌else◌, Bool-cases, inl, inr,
}

-- the character of a digit
abbrev figure : ℕ → Char
figure zero = "0"
figure (suc zero) = "1"
figure (suc (suc zero)) = "2"
figure (suc (suc (suc zero))) = "3"
figure (suc (suc (suc (suc zero)))) = "4"
figure (suc (suc (suc (suc (suc zero))))) = "5"
figure (suc (suc (suc (suc (suc (suc zero)))))) = "6"
figure (suc (suc (suc (suc (suc (suc (suc zero))))))) = "7"
figure (suc (suc (suc (suc (suc (suc (suc (suc zero)))))))) = "8"
figure _ = "9"

figure-code : (d : ℕ) → d < 10 → code (figure d) ≡ 48 + d
figure-code zero below = refl
figure-code (suc zero) below = refl
figure-code (suc (suc zero)) below = refl
figure-code (suc (suc (suc zero))) below = refl
figure-code (suc (suc (suc (suc zero)))) below = refl
figure-code (suc (suc (suc (suc (suc zero))))) below = refl
figure-code (suc (suc (suc (suc (suc (suc zero)))))) below = refl
figure-code (suc (suc (suc (suc (suc (suc (suc zero))))))) below = refl
figure-code (suc (suc (suc (suc (suc (suc (suc (suc zero)))))))) below = refl
figure-code (suc (suc (suc (suc (suc (suc (suc (suc (suc d))))))))) below = ground arith

-- the second text is only computed if it is asked for
abbrev stop_or : Bool → String → (Unit {0} → String) → String
stop_or true s more = s
stop_or false s more = more tt

-- The figures of `n` before a text. The fuel bounds the number of figures: more than `n` is enough.
figures : (fuel n : ℕ) → String → String
figures zero n rest = rest
figures (suc fuel) n rest =
    let longer = figure (n % 10) ∷ rest in
    stop_or (eqb (n / 10) 0) longer (λ more. figures fuel (n / 10) longer)

unfoldable pub to_text : ℕ → String
unfolding figures
to_text n = figures (suc n) n []

abbrev is_figure : Char → Bool
is_figure c = leb 48 (code c) && leb (code c) 57

-- the number that goes on with the figures of a text
read_on : ℕ → String → Option ℕ
read_on n [] = some n
read_on n (c ∷ s) =
    let rest = read_on (10 * n + (code c - 48)) s in if is_figure c then rest else none

unfoldable pub to_number : String → Option ℕ
unfolding read_on
to_number s = read_on 0 s

read_on-figure :
    (m d : ℕ) (rest : String) → d < 10 → read_on m (figure d ∷ rest) ≡ read_on (10 * m + d) rest
unfolding read_on
read_on-figure m d rest below =
    let number : code (figure d) ≡ 48 + d = figure-code d below in
    let value : 10 * m + (48 + d - 48) ≡ 10 * m + d = omega arith in
    let low : leb 48 (48 + d) ≡ true = ground arith in
    let high : leb (48 + d) 57 ≡ true = ground arith in rw (number, value, low, high) refl

figures_step :
    (fuel n : ℕ) (rest : String)
    → figures (suc fuel) n rest
      ≡ stop_or
          (eqb (n / 10) 0)
          (figure (n % 10) ∷ rest)
          (λ more. figures fuel (n / 10) (figure (n % 10) ∷ rest))
unfolding figures
figures_step fuel n rest = refl

-- Enough fuel: the figures of `n` are read as `n`, before whatever follows them.
read_on-figures :
    (fuel n : ℕ) (rest : String) → n < fuel → read_on 0 (figures fuel n rest) ≡ read_on n rest
read_on-figures zero n rest enough = absurd (omega arith)
read_on-figures (suc fuel) n rest enough = elim (Bool-cases (eqb (n / 10) 0)) [
  | inl short ↦
      let alone : 10 * 0 + n % 10 ≡ n = ground arith in
      rw (figures_step fuel n rest, short)
        (read_on-figure 0 (n % 10) rest (omega arith) ∙ rw alone refl)
  | inr long ↦
      let whole : 10 * (n / 10) + n % 10 ≡ n = omega arith in
      let fewer : n / 10 < fuel = ground arith in
      rw (figures_step fuel n rest, long)
        (read_on-figures fuel (n / 10) (figure (n % 10) ∷ rest) fewer
          ∙ (read_on-figure (n / 10) (n % 10) rest (omega arith) ∙ rw whole refl))
]

-- Every number is read back from its text.
pub to_number-to_text : (n : ℕ) → to_number (to_text n) ≡ some n
unfolding to_number to_text read_on
to_number-to_text n = read_on-figures (suc n) n [] (omega arith)

samples : (to_text 0 ≡ "0") × (to_text 3600 ≡ "3600") × (to_number "12x" ≡ none)
unfolding to_text to_number
samples = (refl, refl, refl)

pub to_number_nan : to_number "NaN" ≡ none
unfolding to_number
to_number_nan = refl
