-- ===== src/Base/Table.antt =====
-- A table of the database, which is not part of this repository. What the code relies on is the
-- documented effect of each statement on the rows: `updateMany` rewrites those that its `where`
-- selects, and `create` adds a row unless a unique constraint is violated (Prisma's P2002).
use mathlib.Core.Path.{◌≡◌, refl}
use mathlib.Core.Bool.{Bool, true, false}
use mathlib.Core.Logic.{◌⊎◌}
use mathlib.Core.Option
use mathlib.Core.Option.{Option, none, some}
use mathlib.Core.List.{List, [], ◌∷◌, ◌++◌}
use native.Mathlib.Omega.{arith}
use abhishek_bhat2005_reachi.Base.Tests.{if◌then◌else◌}
use abhishek_bhat2005_reachi.Base.Lists.{any, update_where}

-- Adds a row to a list of rows in which it violates no constraint.
abbrev pub insert_row {ℓ} : {Row : Type ℓ} → (Row → Row → Bool) → Row → List Row → Option (List Row)
insert_row conflicts r rs = if any (conflicts r) rs then none else some (rs ++ r ∷ [])

-- `conflicts r s` says that the new row `r` cannot stand beside the row `s`.
pub record Table (Row : Type 0) (conflicts : Row → Row → Bool) : Type 1 where
  pub State : Type 0
  pub rows : State → List Row
  pub update_many : (Row → Bool) → (Row → Row) → State → State
  pub create : Row → State → Option State
  pub rows-update_many :
      (p : Row → Bool) (f : Row → Row) (s : State)
      → rows (update_many p f s) ≡ update_where p f (rows s)
  pub rows-create :
      (r : Row) (s : State) → Option.map rows (create r s) ≡ insert_row conflicts r (rows s)

pub map-id {ℓ} : {A : Type ℓ} (o : Option A) → Option.map (λ a. a) o ≡ o
map-id none = refl
map-id (some a) = refl

-- A table whose state is the list of its rows.
abbrev pub list_table : (Row : Type 0) (conflicts : Row → Row → Bool) → Table Row conflicts
list_table Row conflicts = record {
  State = List Row;
  rows = λ rs. rs;
  update_many = update_where;
  create = insert_row conflicts;
  rows-update_many = λ p f rs. refl;
  rows-create = λ r rs. map-id (insert_row conflicts r rs);
}

module _ {Row : Type 0} {conflicts : Row → Row → Bool} (T : Table Row conflicts) where
  abbrev Creates : Row → T.State → Option T.State → List Row → Type 0
  Creates r s o rs =
      ((o ≡ none) × (any (conflicts r) rs ≡ true))
      ⊎ ((t : T.State) × (o ≡ some t) × (T.rows t ≡ rs ++ r ∷ []) × (any (conflicts r) rs ≡ false))

  Creates-of :
      (r : Row) (s : T.State) (rs : List Row) (o : Option T.State)
      → Option.map T.rows o ≡ insert_row conflicts r rs
      → Creates r s o rs
  Creates-of r s rs none e = ground arith
  Creates-of r s rs (some t) e = ground arith

  -- A row is added at the end, or refused because it violates a constraint.
  pub create-cases :
      (r : Row) (s : T.State)
      → ((T.create r s ≡ none) × (any (conflicts r) (T.rows s) ≡ true))
        ⊎ ((t : T.State) × (T.create r s ≡ some t)
            × (T.rows t ≡ T.rows s ++ r ∷ [])
            × (any (conflicts r) (T.rows s) ≡ false))
  create-cases r s = Creates-of r s (T.rows s) (T.create r s) (T.rows-create r s)
