-- ===== src/Repository/Rows.antt =====
-- What the laws of `Repository` say of the rows that are left, and of a row that is the only one to
-- match.
use authora.Prelude.{
  ◌≡◌, refl, ◌∙◌, ap, subst, Bool, true, false, some, List, [], ◌∷◌, map, inl, inr, arith,
  if◌then◌else◌, Bool-cases, Option-cases, Member, All, All-select-not, select, select_none,
}
use authora.Repository.{Repository}

module _ {E : Type 0} where
  Member_select :
      (p : E → Bool) (xs : List E) (e : E) → Member e xs → p e ≡ true → Member e (select p xs)
  Member_select p [] e m h = m
  Member_select p (x ∷ xs) e (inl same) h = rw (← same, h) (inl refl)
  Member_select p (x ∷ xs) e (inr m) h =
      let rest = Member_select p xs e m h in
      elim (Bool-cases (p x)) [ inl hit ↦ rw hit (inr rest) | inr miss ↦ rw miss rest ]

  -- A patch that keeps the test patches the rows that match.
  select-update :
      (p : E → Bool) (f : E → E) (xs : List E)
      → ((x : E) → p (f x) ≡ p x)
      → select p (map (λ x. if p x then f x else x) xs) ≡ map f (select p xs)
  select-update p f [] kept = refl
  select-update p f (x ∷ xs) kept =
      let rest = select-update p f xs kept in
      elim (Bool-cases (p x)) [
        | inl hit ↦ rw (hit, kept x, hit) (ap (λ ys. f x ∷ ys) rest)
        | inr miss ↦ rw (miss, miss) rest
      ]

module _ {E : Type 0} (r : Repository E) where
  pub none_removed : (p : E → Bool) (t : r.Table) → All (λ e. p e ≡ false) (r.rows (r.remove p t))
  none_removed p t = rw (r.rows-remove p t) (All-select-not p (r.rows t))

  -- A row that matches and was inserted is found, or another one is.
  pub find_one-insert :
      (p : E → Bool) (e : E) (t : r.Table)
      → p e ≡ true
      → (x : E) × (r.find_one p (r.insert e t) ≡ some x)
  find_one-insert p e t holds = elim (Option-cases (r.find_one p (r.insert e t))) [
    | inr found ↦ found
    | inl missing ↦
        let fails =
          subst (All (λ x. p x ≡ false)) (r.rows-insert e t)
            (r.find_one-none p (r.insert e t) missing) in
        absurd (ground arith)
  ]

  -- The only row that matches is the one that is found,
  pub find_one_only :
      (p : E → Bool) (t : r.Table) (e : E) → select p (r.rows t) ≡ e ∷ [] → r.find_one p t ≡ some e
  find_one_only p t e only = elim (Option-cases (r.find_one p t)) [
    | inl missing ↦
        let empty = select_none p (r.rows t) (r.find_one-none p t missing) in absurd (ground arith)
    | inr (x, hit) ↦
        let (holds, there) = r.find_one-some p t x hit in
        let listed = subst (Member x) only (Member_select p (r.rows t) x there holds) in
        hit ∙ ap some (sole x listed)
  ]
    where
      sole : (x : E) → Member x (e ∷ []) → x ≡ e
      sole x (inl same) = same
      sole x (inr m) = absurd m

  -- and it still is when it was patched.
  pub find_one-update :
      (p : E → Bool) (f : E → E) (t : r.Table) (e : E)
      → select p (r.rows t) ≡ e ∷ []
      → ((x : E) → p (f x) ≡ p x)
      → r.find_one p (r.update p f t) ≡ some (f e)
  find_one-update p f t e only kept =
      find_one_only p (r.update p f t) (f e) (
        ap (select p) (r.rows-update p f t) ∙ (select-update p f (r.rows t) kept ∙ ap (map f) only))
