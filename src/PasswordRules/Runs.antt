-- ===== src/PasswordRules/Runs.antt =====
-- no-repeated-chars.decorator.ts and no-sequential-chars.decorator.ts: the counting loops against
-- descriptions without a counter.
use authora.Prelude.{
  ℕ, ◌+◌, leb, ◌≡◌, refl, ap, ◌∙◌, Bool-cases, Bool, true, false, not, ◌&&◌, ◌||◌, List, [], ◌∷◌,
  arith, ◌⊎◌, eqb, inl, inr,
}
use authora.PasswordRules.{
  Direction, still, up, down, same_direction, same_class, step, scan_repeats, scan_sequences,
  from_second, no_repeated_chars, no_sequential_chars,
}

-- the character is followed by itself, and by itself twice
abbrev pub repeats_once : ℕ → List ℕ → Bool
repeats_once a [] = false
repeats_once a (b ∷ rest) = eqb b a

abbrev pub repeats_twice : ℕ → List ℕ → Bool
repeats_twice a [] = false
repeats_twice a (b ∷ rest) = eqb b a && repeats_once b rest

-- some character stands three times in a row
abbrev pub has_triple : List ℕ → Bool
has_triple [] = false
has_triple (a ∷ rest) = repeats_twice a rest || has_triple rest

scan_repeats_lem :
    (a : ℕ) (rest : List ℕ)
    → (scan_repeats 1 a rest ≡ not (has_triple (a ∷ rest)))
      × (scan_repeats 2 a rest ≡ not (repeats_once a rest || has_triple (a ∷ rest)))
unfolding scan_repeats
scan_repeats_lem a [] = (refl, refl)
scan_repeats_lem a (b ∷ rest) =
    let (one, two) = scan_repeats_lem b rest in (ground arith, ground arith)

-- the next steps all go one way
abbrev pub goes_on : Direction → ℕ → List ℕ → Bool
goes_on d a [] = false
goes_on d a (b ∷ rest) = same_direction (step a b) d

abbrev pub goes_on_twice : Direction → ℕ → List ℕ → Bool
goes_on_twice d a [] = false
goes_on_twice d a (b ∷ rest) = same_direction (step a b) d && goes_on d b rest

abbrev pub goes_on_thrice : Direction → ℕ → List ℕ → Bool
goes_on_thrice d a [] = false
goes_on_thrice d a (b ∷ rest) = same_direction (step a b) d && goes_on_twice d b rest

-- four neighbours, all letters or all digits, each the successor of the one before or each its
-- predecessor
abbrev pub has_sequence : List ℕ → Bool
has_sequence [] = false
has_sequence (a ∷ rest) =
    goes_on_thrice up a rest || goes_on_thrice down a rest || has_sequence rest

goes_on_once :
    (d : Direction) (a : ℕ) (rest : List ℕ)
    → goes_on_twice d a rest ≡ true
    → goes_on d a rest ≡ true
goes_on_once d a [] h = h
goes_on_once d a (b ∷ rest) h = at_once (same_direction (step a b) d) (goes_on d b rest) h
  where
    at_once : (x y : Bool) → (x && y) ≡ true → x ≡ true
    at_once true y h = refl
    at_once false y h = h

drop_false : (s t z : Bool) → s ≡ not (t || z) → s ≡ not (t || false || z)
drop_false s t z h = ground arith

drop_weaker : (s o t z : Bool) → (t ≡ true → o ≡ true) → s ≡ not (o || z) → s ≡ not (o || (t || z))
drop_weaker s true t z weaker h = h
drop_weaker s false true z weaker h = absurd (ground (arith, weaker refl))
drop_weaker s false false z weaker h = h

Direction-cases : (d : Direction) → (d ≡ still) ⊎ ((d ≡ up) ⊎ (d ≡ down))
Direction-cases still = inl refl
Direction-cases up = inr (inl refl)
Direction-cases down = inr (inr refl)

scan_sequences_lem :
    (a : ℕ) (rest : List ℕ)
    → (scan_sequences 1 still a rest ≡ not (has_sequence (a ∷ rest)))
      × (scan_sequences 2 up a rest ≡ not (goes_on_twice up a rest || has_sequence (a ∷ rest)))
      × (scan_sequences 2 down a rest ≡ not (goes_on_twice down a rest || has_sequence (a ∷ rest)))
      × (scan_sequences 3 up a rest ≡ not (goes_on up a rest || has_sequence (a ∷ rest)))
      × (scan_sequences 3 down a rest ≡ not (goes_on down a rest || has_sequence (a ∷ rest)))
unfolding scan_sequences
scan_sequences_lem a [] = (refl, refl, refl, refl, refl)
scan_sequences_lem a (b ∷ rest) =
    let (fresh, up_twice, down_twice, up_thrice, down_thrice) = scan_sequences_lem b rest in
    let ups = goes_on_once up b rest in
    let downs = goes_on_once down b rest in
    elim (Direction-cases (step a b)) [
      | inl e ↦ rw e (fresh, fresh, fresh, fresh, fresh)
      | inr (inl e) ↦
          let turned = drop_false _ (goes_on_twice up b rest) (has_sequence (b ∷ rest)) up_twice in
          rw e (
            turned,
            drop_weaker _ (goes_on up b rest) (goes_on_twice up b rest || false)
                (has_sequence (b ∷ rest)) (λ h. ups (ground arith)) up_thrice,
            turned,
            refl,
            turned,
          )
      | inr (inr e) ↦ rw e (
        down_twice,
        down_twice,
        drop_weaker _ (goes_on down b rest) (goes_on_twice down b rest) (has_sequence (b ∷ rest))
            downs down_thrice,
        down_twice,
        refl,
      )
    ]

-- Where the rule is on, the loop of `noRepeatedChars` accepts exactly the texts whose lower-case
-- form nowhere has the same character three times in a row.
pub no_repeated_chars_lem :
    (lower : List ℕ → List ℕ) (value : List ℕ)
    → no_repeated_chars true lower value ≡ not (has_triple (lower value))
unfolding no_repeated_chars
no_repeated_chars_lem lower value = scanned (lower value)
  where
    scanned : (cs : List ℕ) → from_second (scan_repeats 1) cs ≡ not (has_triple cs)
    scanned [] = refl
    scanned (c ∷ rest) = (scan_repeats_lem c rest).0

-- The description of a sequence, on the codes of 'a' to 'z' and of '0' to '9'.
abbrev pub all_within : (low high a b c d : ℕ) → Bool
all_within low high a b c d =
    (leb low a && leb a high)
    && (leb low b && leb b high)
    && (leb low c && leb c high)
    && (leb low d && leb d high)

-- four letters or four digits, each the successor of the one before, or each its predecessor
abbrev pub is_sequence : (a b c d : ℕ) → Bool
is_sequence a b c d =
    (all_within 97 122 a b c d || all_within 48 57 a b c d)
    && (eqb b (a + 1) && eqb c (a + 2) && eqb d (a + 3)
        || eqb a (d + 3) && eqb b (d + 2) && eqb c (d + 1))

abbrev pub starts_sequence : ℕ → List ℕ → Bool
starts_sequence a (b ∷ c ∷ d ∷ rest) = is_sequence a b c d
starts_sequence a _ = false

abbrev pub has_sequence_of_four : List ℕ → Bool
has_sequence_of_four [] = false
has_sequence_of_four (a ∷ rest) = starts_sequence a rest || has_sequence_of_four rest

step_up : (a b : ℕ) → same_direction (step a b) up ≡ same_class a b && eqb b (a + 1)
step_up a b = ground arith

step_down : (a b : ℕ) → same_direction (step a b) down ≡ same_class a b && eqb a (b + 1)
step_down a b = ground arith

same_letters :
    (a b c d : ℕ)
    → all_within 97 122 a b c d ≡ true
    → (same_class a b ≡ true) × (same_class b c ≡ true) × (same_class c d ≡ true)
same_letters a b c d h = ground arith

same_digits :
    (a b c d : ℕ)
    → all_within 48 57 a b c d ≡ true
    → (same_class a b ≡ true) × (same_class b c ≡ true) × (same_class c d ≡ true)
same_digits a b c d h = ground arith

one_class :
    (a b c d : ℕ)
    → same_class a b ≡ true
    → same_class b c ≡ true
    → same_class c d ≡ true
    → (all_within 97 122 a b c d || all_within 48 57 a b c d) ≡ true
one_class a b c d x y z = ground arith

classes_agree :
    (a b c d : ℕ)
    → (same_class a b && same_class b c && same_class c d)
      ≡ (all_within 97 122 a b c d || all_within 48 57 a b c d)
classes_agree a b c d = elim (Bool-cases (all_within 97 122 a b c d)) [
  | inl letters ↦ let (x, y, z) = same_letters a b c d letters in rw (letters, x, y, z) refl
  | inr other ↦ elim (Bool-cases (all_within 48 57 a b c d)) [
    | inl digits ↦ let (x, y, z) = same_digits a b c d digits in rw (other, digits, x, y, z) refl
    | inr neither ↦ rw (other, neither) (mixed a b c d other neither)
  ]
]
  where
    mixed :
        (a b c d : ℕ)
        → all_within 97 122 a b c d ≡ false
        → all_within 48 57 a b c d ≡ false
        → (same_class a b && same_class b c && same_class c d) ≡ false
    mixed a b c d other neither = elim (Bool-cases (same_class a b)) [
      | inr e ↦ rw e refl
      | inl x ↦ elim (Bool-cases (same_class b c)) [
        | inr e ↦ rw (x, e) refl
        | inl y ↦ elim (Bool-cases (same_class c d)) [
          | inr e ↦ rw (x, y, e) refl
          | inl z ↦ let one = one_class a b c d x y z in absurd (ground arith)
        ]
      ]
    ]

rises_agree :
    (a b c d : ℕ)
    → (eqb b (a + 1) && eqb c (b + 1) && eqb d (c + 1))
      ≡ (eqb b (a + 1) && eqb c (a + 2) && eqb d (a + 3))
rises_agree a b c d = ground arith

falls_agree :
    (a b c d : ℕ)
    → (eqb a (b + 1) && eqb b (c + 1) && eqb c (d + 1))
      ≡ (eqb a (d + 3) && eqb b (d + 2) && eqb c (d + 1))
falls_agree a b c d = ground arith

regroup :
    (x y z e f g e' f' g' : Bool)
    → ((x && e) && ((y && f) && (z && g)) || (x && e') && ((y && f') && (z && g')))
      ≡ ((x && y && z) && (e && f && g || e' && f' && g'))
regroup x y z e f g e' f' g' = ground arith

goes_on-starts :
    (a : ℕ) (rest : List ℕ)
    → (goes_on_thrice up a rest || goes_on_thrice down a rest) ≡ starts_sequence a rest
goes_on-starts a [] = refl
goes_on-starts a (b ∷ []) = ground arith
goes_on-starts a (b ∷ c ∷ []) = ground arith
goes_on-starts a (b ∷ c ∷ d ∷ rest) =
    rw (step_up a b, step_up b c, step_up c d, step_down a b, step_down b c, step_down c d)
      (regroup (same_class a b) (same_class b c) (same_class c d) (eqb b (a + 1)) (eqb c (b + 1))
          (eqb d (c + 1)) (eqb a (b + 1)) (eqb b (c + 1)) (eqb c (d + 1))
        ∙ rw (classes_agree a b c d, rises_agree a b c d, falls_agree a b c d) refl)

has_sequence_lem : (cs : List ℕ) → has_sequence cs ≡ has_sequence_of_four cs
has_sequence_lem [] = refl
has_sequence_lem (a ∷ rest) =
    let here = goes_on-starts a rest in let later = has_sequence_lem rest in rw (here, later) refl

-- Where the rule is on, the loop of `noSequentialChars` accepts exactly the texts whose
-- lower-case form nowhere has four neighbours, all from "a" to "z" or all from "0" to "9", each
-- the successor of the one before, or each its predecessor.
pub no_sequential_chars_lem :
    (lower : List ℕ → List ℕ) (value : List ℕ)
    → no_sequential_chars true lower value ≡ not (has_sequence_of_four (lower value))
unfolding no_sequential_chars
no_sequential_chars_lem lower value = scanned (lower value)
  where
    scanned :
        (cs : List ℕ) → from_second (scan_sequences 1 still) cs ≡ not (has_sequence_of_four cs)
    scanned [] = refl
    scanned (c ∷ rest) = (scan_sequences_lem c rest).0 ∙ ap not (has_sequence_lem (c ∷ rest))
