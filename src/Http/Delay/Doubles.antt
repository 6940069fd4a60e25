-- ===== src/Http/Delay/Doubles.antt =====
-- Rounding to a double does not pass a multiple of 2^53 units, a whole number of milliseconds.
use native.Mathlib.Nat.{
  div-add-mod, mod-lt, mul-le-mul_right, mul_left_comm, mul_assoc, mul_comm, mul-zero, add-mul,
  lt_of_mul-lt-mul_right, one-mul,
}
use authora.Prelude.{
  ℕ, zero, suc, ◌+◌, ◌*◌, ◌/◌, ◌%◌, ◌≤◌, ◌<◌, ◌≡◌, refl, sym, ◌∙◌, ap, subst, arith, ltb, eqb,
  Bool-cases, inl, inr, ◌⊎◌,
}
use authora.Http.Delay.{unit, spacing, round_to, to_double}

abbrev power : ℕ → ℕ
power zero = 1
power (suc n) = 2 * power n

-- With as many doublings left as lead to 2^53, the spacing divides 2^53.
spacing_divides : (fuel p n : ℕ) → power fuel * p ≡ unit → (k : ℕ) × (k * spacing fuel p n ≡ unit)
unfolding spacing
spacing_divides zero p n h = (1, h)
spacing_divides (suc fuel) p n h =
    let (k, wider) =
      spacing_divides fuel (2 * p) n
        (mul_left_comm (power fuel) 2 p ∙ sym (mul_assoc 2 (power fuel) p) ∙ h) in
    elim (Bool-cases (ltb n (unit * p))) [
      | inl fits ↦ (power (suc fuel), rw fits h)
      | inr over ↦ (k, rw over wider)
    ]

-- The doublings are enough: below 2^106 units the 53 bits reach.
spacing_fits : (fuel p n : ℕ) → n < unit * (power fuel * p) → n < unit * spacing fuel p n
unfolding spacing
spacing_fits zero p n h = subst (λ x. n < unit * x) (one-mul p) h
spacing_fits (suc fuel) p n h =
    let doubled : power fuel * (2 * p) ≡ power (suc fuel) * p =
      mul_left_comm (power fuel) 2 p ∙ sym (mul_assoc 2 (power fuel) p) in
    let wider = spacing_fits fuel (2 * p) n (subst (λ x. n < unit * x) (sym doubled) h) in
    elim (Bool-cases (ltb n (unit * p))) [
      | inl fits ↦ rw fits (ground arith)
      | inr over ↦ rw over wider
    ]

spacing_enough : (n : ℕ) → n < unit * unit → n < unit * spacing 53 1 n
spacing_enough n h = spacing_fits 53 1 n h

-- one of the two neighbours, the upper one only if there is a rest
round_to_cases :
    (p n : ℕ)
    → 0 < p
    → (round_to p n ≡ n / p * p) ⊎ ((round_to p n ≡ (n / p + 1) * p) × (0 < n % p))
unfolding round_to
round_to_cases p n h = elim (Bool-cases (ltb (2 * (n % p)) p)) [
  | inl below ↦ inl (rw below refl)
  | inr not_below ↦
      let rest : 0 < n % p = ground arith in
      elim (Bool-cases (ltb p (2 * (n % p)))) [
        | inl above ↦ inr (rw (not_below, above) refl, rest)
        | inr tie ↦ elim (Bool-cases (eqb (n / p % 2) 0)) [
          | inl even ↦ inl (rw (not_below, tie, even) refl)
          | inr odd ↦ inr (rw (not_below, tie, odd) refl, rest)
        ]
      ]
]

positive_factor : (k q : ℕ) → k * q ≡ unit → 0 < q
positive_factor k zero h = let none = mul-zero k in absurd (omega arith)
positive_factor k (suc q) h = omega arith

-- the quotient's multiple and the rest
divided : (p n : ℕ) → 0 < p → (n / p * p + n % p ≡ n) × (n % p < p)
divided p n h =
    let whole = div-add-mod n p in let turned = mul_comm p (n / p) in (omega arith, mod-lt n h)

next_multiple : (q p : ℕ) → (q + 1) * p ≡ q * p + p
next_multiple q p = add-mul q 1 p ∙ ap (λ x. q * p + x) (one-mul p)

round_to_upper : (p n k : ℕ) → 0 < p → n ≤ k * p → round_to p n ≤ k * p
round_to_upper p n k h below = elim (round_to_cases p n h) [
  | inl low ↦ let (whole, rest) = divided p n h in omega arith
  | inr (high, rest) ↦
      let (whole, small) = divided p n h in
      let before : n / p < k = lt_of_mul-lt-mul_right p (omega arith) in
      let step : n / p + 1 ≤ k = omega arith in let bound = mul-le-mul_right p step in omega arith
]

round_to_lower : (p n k : ℕ) → 0 < p → k * p ≤ n → k * p ≤ round_to p n
round_to_lower p n k h above =
    let (whole, small) = divided p n h in
    let next = next_multiple (n / p) p in
    let before : k < n / p + 1 = lt_of_mul-lt-mul_right p (omega arith) in
    let step : k ≤ n / p = omega arith in
    let bound = mul-le-mul_right p step in
    elim (round_to_cases p n h) [ inl low ↦ omega arith | inr (high, rest) ↦ omega arith ]

pub to_double_upper : (n m : ℕ) → n ≤ m * unit → to_double n ≤ m * unit
unfolding to_double
to_double_upper n m below =
    let (k, divides) = spacing_divides 53 1 n refl in
    let p = spacing 53 1 n in
    let same : m * k * p ≡ m * unit = mul_assoc m k p ∙ ap (λ x. m * x) divides in
    let bound =
      round_to_upper p n (m * k) (positive_factor k p divides)
        (subst (λ x. n ≤ x) (sym same) below) in
    subst (λ x. round_to p n ≤ x) same bound

pub to_double_lower : (n m : ℕ) → m * unit ≤ n → m * unit ≤ to_double n
unfolding to_double
to_double_lower n m above =
    let (k, divides) = spacing_divides 53 1 n refl in
    let p = spacing 53 1 n in
    let same : m * k * p ≡ m * unit = mul_assoc m k p ∙ ap (λ x. m * x) divides in
    let bound =
      round_to_lower p n (m * k) (positive_factor k p divides)
        (subst (λ x. x ≤ n) (sym same) above) in
    subst (λ x. x ≤ round_to p n) same bound
