-- ===== src/Prelude/Lists.antt =====
-- Lists over the native numbers, and predicates on lists by recursion, which compute to tuples.
use Prim.Native.Nat.{ℕ, zero, suc}
use mathlib.Core.Path.{◌≡◌, refl, sym, ap}
use mathlib.Core.Logic.{◌⊎◌, inl, inr}
use mathlib.Core.Bool.{Bool, true, false, ◌||◌, not}
use mathlib.Core.Option.{Option, none, some}
use mathlib.Core.List.{List, [], ◌∷◌, map}
use native.Mathlib.Omega.{arith}
use authora.Prelude.Tests.{if◌then◌else◌, Bool-cases}

module _ {ℓ} {A : Type ℓ} where
  abbrev pub length : List A → ℕ
  length [] = 0
  length (x ∷ xs) = suc (length xs)

  -- `xs.some(p)`
  abbrev pub any : (A → Bool) → List A → Bool
  any p [] = false
  any p (x ∷ xs) = p x || any p xs

  -- `xs.filter(p)`, with a Boolean test
  abbrev pub select : (A → Bool) → List A → List A
  select p [] = []
  select p (x ∷ xs) = let rest = select p xs in if p x then x ∷ rest else rest

-- `xs[i]`
abbrev pub get_elem? : {A : Type 0} → List A → ℕ → Option A
get_elem? [] i = none
get_elem? (x ∷ xs) zero = some x
get_elem? (x ∷ xs) (suc i) = get_elem? xs i

-- `a` is an element of the list
abbrev pub Member : {A : Type 0} → A → List A → Type 0
Member a [] = ⊥
Member a (x ∷ xs) = (a ≡ x) ⊎ Member a xs

module _ {ℓ κ} {A : Type ℓ} where
  abbrev pub All : (A → Type κ) → List A → Type κ
  All P [] = Unit
  All P (x ∷ xs) = P x × All P xs

  pub All-map :
      (P : A → Type κ) (f : A → A) (xs : List A)
      → ((a : A) → P a → P (f a))
      → All P xs
      → All P (map f xs)
  All-map P f [] step h = tt
  All-map P f (x ∷ xs) step (p, h) = (step x p, All-map P f xs step h)

  -- A map that makes `P` true makes it true of all.
  pub All-map_each :
      (P : A → Type κ) (f : A → A) (xs : List A) → ((a : A) → P (f a)) → All P (map f xs)
  All-map_each P f [] step = tt
  All-map_each P f (x ∷ xs) step = (step x, All-map_each P f xs step)

  pub All-select : (P : A → Type κ) (q : A → Bool) (xs : List A) → All P xs → All P (select q xs)
  All-select P q [] h = tt
  All-select P q (x ∷ xs) (p, h) = let rest = All-select P q xs h in ground (arith, rest)

-- What holds of all elements holds of each.
pub All-Member : {A : Type 0} (P : A → Type 0) (xs : List A) {a : A} → All P xs → Member a xs → P a
All-Member P [] h m = absurd m
All-Member P (x ∷ xs) (p, h) (inl e) = rw e p
All-Member P (x ∷ xs) (p, h) (inr m) = All-Member P xs h m

-- Nothing is selected by a test that fails on every element.
pub select_none :
    {A : Type 0} (p : A → Bool) (xs : List A) → All (λ a. p a ≡ false) xs → select p xs ≡ []
select_none p [] h = refl
select_none p (x ∷ xs) (fails, h) = rw fails (select_none p xs h)

-- A removed element is not among those that stay.
pub All-select-not :
    {A : Type 0} (p : A → Bool) (xs : List A) → All (λ a. p a ≡ false) (select (λ a. not (p a)) xs)
All-select-not p [] = tt
All-select-not p (x ∷ xs) = let rest = All-select-not p xs in ground (arith, rest)

pub some_inj : {A : Type 0} {a b : A} → some a ≡ some b → a ≡ b
some_inj h = cc

pub none-ne-some : {A : Type 0} {a : A} → ¬ (◌≡◌ {A = Option A} none (some a))
none-ne-some h = cc

pub Member-get_elem? :
    {A : Type 0} (xs : List A) (i : ℕ) {a : A} → get_elem? xs i ≡ some a → Member a xs
Member-get_elem? [] i h = absurd (cc)
Member-get_elem? (x ∷ xs) zero h = inl (sym (some_inj h))
Member-get_elem? (x ∷ xs) (suc i) h = inr (Member-get_elem? xs i h)

-- The elements of a mapped list.
pub Member-map :
    {A B : Type 0} (f : A → B) (xs : List A) {b : B}
    → Member b (map f xs)
    → (a : A) × Member a xs × (b ≡ f a)
Member-map f [] m = absurd m
Member-map f (x ∷ xs) (inl same) = (x, inl refl, same)
Member-map f (x ∷ xs) (inr m) = let (a, there, same) = Member-map f xs m in (a, inr there, same)

pub map-Member :
    {A B : Type 0} (f : A → B) (xs : List A) (a : A) → Member a xs → Member (f a) (map f xs)
map-Member f [] a m = absurd m
map-Member f (x ∷ xs) a (inl same) = inl (ap f same)
map-Member f (x ∷ xs) a (inr m) = inr (map-Member f xs a m)

pub any-eq-true :
    {A : Type 0} (p : A → Bool) (xs : List A)
    → any p xs ≡ true
    → (x : A) × Member x xs × (p x ≡ true)
any-eq-true p [] h = absurd (ground arith)
any-eq-true p (x ∷ xs) h = elim (Bool-cases (p x)) [
  | inl here ↦ (x, inl refl, here)
  | inr other ↦ let (y, there, found) = any-eq-true p xs (ground arith) in (y, inr there, found)
]

pub any-Member :
    {A : Type 0} (p : A → Bool) (xs : List A) {x : A} → Member x xs → p x ≡ true → any p xs ≡ true
any-Member p [] nothing h = absurd nothing
any-Member p (y ∷ xs) (inl same) h = let here : p y ≡ true = rw (sym same) h in ground arith
any-Member p (y ∷ xs) (inr there) h = let later = any-Member p xs there h in ground arith
