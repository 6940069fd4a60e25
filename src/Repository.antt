-- ===== src/Repository.antt =====
-- The database, which is no code of the repository: a TypeORM `Repository` for each entity, taken
-- as a parameter. `rows` is the table's contents, in some enumeration; `find` may list the rows
-- that match in any order. Criteria and patches are the programs' own functions on a row.
pub mod Listed
pub mod Rows
use authora.Prelude.{
  ℕ, ◌≡◌, ◌↔◌, Bool, true, false, not, Option, none, some, List, ◌∷◌, map, if◌then◌else◌, Member,
  All, select,
}

pub record Repository (E : Type 0) : Type 1 where
  pub Table : Type 0
  pub rows : Table → List E
  -- `findOne({ where })`
  pub find_one : (E → Bool) → Table → Option E
  -- `find({ where, order: { key: 'DESC' } })`
  pub find : (E → Bool) → (E → ℕ) → Table → List E
  -- `save(create(entity))`, an insertion
  pub insert : E → Table → Table
  -- `update(where, patch)`
  pub update : (E → Bool) → (E → E) → Table → Table
  -- `delete(where)`, `remove(entity)`
  pub remove : (E → Bool) → Table → Table
  pub find_one-some :
      (p : E → Bool) (t : Table) (e : E) → find_one p t ≡ some e → (p e ≡ true) × Member e (rows t)
  pub find_one-none :
      (p : E → Bool) (t : Table) → find_one p t ≡ none → All (λ e. p e ≡ false) (rows t)
  pub find_lem :
      (p : E → Bool) (key : E → ℕ) (t : Table) (e : E)
      → Member e (find p key t) ↔ ((p e ≡ true) × Member e (rows t))
  pub rows-insert : (e : E) (t : Table) → rows (insert e t) ≡ e ∷ rows t
  pub rows-update :
      (p : E → Bool) (f : E → E) (t : Table)
      → rows (update p f t) ≡ map (λ e. if p e then f e else e) (rows t)
  pub rows-remove :
      (p : E → Bool) (t : Table) → rows (remove p t) ≡ select (λ e. not (p e)) (rows t)
