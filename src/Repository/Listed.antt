-- ===== src/Repository/Listed.antt =====
-- A repository that keeps its rows in a list: the parameter `Repository` can be met. It serves the
-- examples only.
use authora.Prelude.{
  ℕ, ◌≡◌, refl, ◌↔◌, ◌⊎◌, inl, inr, Bool, true, false, not, Option, none, some, List, [], ◌∷◌, map,
  arith, if◌then◌else◌, leb, Bool-cases, Member, All, select,
}
use authora.Repository.{Repository}

module _ {E : Type 0} where
  unfoldable pub first : (E → Bool) → List E → Option E
  first p [] = none
  first p (e ∷ es) = let rest = first p es in if p e then some e else rest

  pub first-some :
      (p : E → Bool) (es : List E) (e : E) → first p es ≡ some e → (p e ≡ true) × Member e es
  unfolding first
  first-some p [] e h = cc
  first-some p (x ∷ es) e h = elim (Bool-cases (p x)) [
    | inl hit ↦ let same : x ≡ e = ground arith in rw (← same) (hit, inl refl)
    | inr miss ↦ let (holds, there) = first-some p es e (ground arith) in (holds, inr there)
  ]

  pub first-none : (p : E → Bool) (es : List E) → first p es ≡ none → All (λ e. p e ≡ false) es
  unfolding first
  first-none p [] h = tt
  first-none p (x ∷ es) h = ground (arith, first-none p es)

  unfoldable pub place : (E → ℕ) → E → List E → List E
  place key e [] = e ∷ []
  place key e (x ∷ es) =
      let rest = place key e es in if leb (key x) (key e) then e ∷ x ∷ es else x ∷ rest

  unfoldable pub sort_desc : (E → ℕ) → List E → List E
  unfolding place
  sort_desc key [] = []
  sort_desc key (e ∷ es) = place key e (sort_desc key es)

  Member-place :
      (key : E → ℕ) (e : E) (es : List E) (a : E) → Member a (place key e es) ↔ Member a (e ∷ es)
  unfolding place
  Member-place key e [] a = ground arith
  Member-place key e (x ∷ es) a = elim (Bool-cases (leb (key x) (key e))) [
    | inl before ↦ rw before (λ m. m, λ m. m)
    | inr after ↦
        let ih = Member-place key e es a in
        rw after (ground (arith, ih.0, ih.1), ground (arith, ih.0, ih.1))
  ]

  Member-sort_desc : (key : E → ℕ) (es : List E) (a : E) → Member a (sort_desc key es) ↔ Member a es
  unfolding sort_desc
  Member-sort_desc key [] a = (λ m. m, λ m. m)
  Member-sort_desc key (e ∷ es) a =
      let placed = Member-place key e (sort_desc key es) a in
      let sorted = Member-sort_desc key es a in
      (λ m. keep_head sorted.0 (placed.0 m), λ m. placed.1 (keep_head sorted.1 m))
    where
      keep_head : {P Q R : Type 0} → (Q → R) → P ⊎ Q → P ⊎ R
      keep_head f (inl p) = inl p
      keep_head f (inr q) = inr (f q)

  Member-select :
      (p : E → Bool) (es : List E) (a : E) → Member a (select p es) ↔ ((p a ≡ true) × Member a es)
  Member-select p [] a = (λ m. absurd m, λ m. m.1)
  Member-select p (x ∷ es) a =
      let ih = Member-select p es a in
      elim (Bool-cases (p x)) [
        | inl hit ↦ rw hit (ground (arith, ih.0), ground (arith, ih.1))
        | inr miss ↦ rw miss (ground (arith, ih.0), ground (arith, ih.1))
      ]

  pub sorted_select :
      (p : E → Bool) (key : E → ℕ) (es : List E) (e : E)
      → Member e (sort_desc key (select p es)) ↔ ((p e ≡ true) × Member e es)
  sorted_select p key es e = (
    (λ m. (Member-select p es e).0 ((Member-sort_desc key (select p es) e).0 m)),
    (λ h. (Member-sort_desc key (select p es) e).1 ((Member-select p es e).1 h)),
  )

unfoldable pub listed : (E : Type 0) → Repository E
unfolding first sort_desc
listed E = record {
  Table = List E;
  rows = λ t. t;
  find_one = first;
  find = λ p key t. sort_desc key (select p t);
  insert = λ e t. e ∷ t;
  update = λ p f t. map (λ e. if p e then f e else e) t;
  remove = λ p t. select (λ e. not (p e)) t;
  find_one-some = first-some;
  find_one-none = first-none;
  find_lem = sorted_select;
  rows-insert = λ e t. refl;
  rows-update = λ p f t. refl;
  rows-remove = λ p t. refl;
}
