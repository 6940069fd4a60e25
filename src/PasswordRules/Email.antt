-- ===== src/PasswordRules/Email.antt =====
-- dto/validator/password/no-user-info.decorator.ts.
use authora.Prelude.{
  ℕ, Bool, true, not, ◌&&◌, ◌||◌, Option, none, some, List, [], ◌∷◌, ◌++◌, if◌then◌else◌, leb, eqb,
  length, any,
}
use authora.PasswordRules.Texts.{includes, split, split_at}

-- `/[.\-_+]/`
abbrev pub is_separator : ℕ → Bool
is_separator c = eqb c 46 || eqb c 45 || eqb c 95 || eqb c 43

-- `pop()`, where the list is longer than one
abbrev pub without_last : List (List ℕ) → List (List ℕ)
without_last [] = []
without_last (part ∷ []) = []
without_last (part ∷ next ∷ parts) = part ∷ without_last (next ∷ parts)

-- the parts of an email, from its text before and after the first '@'
abbrev pub parts_of : (List ℕ → List ℕ) → List ℕ × List ℕ → List (List ℕ)
parts_of lower (local, domain) =
    split is_separator (lower local) ++ without_last (split (eqb 46) (lower domain))

abbrev pub mentions : List ℕ → List (List ℕ) → Bool
mentions text parts = any (λ part. leb 3 (length part) && includes text part) parts

unfoldable pub no_user_info : Bool → (List ℕ → List ℕ) → Option (List ℕ) → List ℕ → Bool
no_user_info enabled lower none value = true
no_user_info enabled lower (some email) value =
    if not enabled then true else elim (split_at 64 email) [
      | none ↦ true
      | some halves ↦ not (mentions (lower value) (parts_of lower halves))
    ]
