-- ===== src/Store/Tables.antt =====
-- The SQL statements that internal/store/sqlite issues, as functions on the list of a table's rows.
pub mod Rows
pub mod Keyed
pub mod Queries
use holler.Prelude.{ℕ, suc, Bool, false, ◌||◌, Option, none, some, List, [], ◌∷◌, if◌then◌else◌}

module _ {ℓ} {A : Type ℓ} where
  -- SELECT EXISTS(SELECT 1 … WHERE test)
  abbrev pub exists_row : (A → Bool) → List A → Bool
  exists_row test [] = false
  exists_row test (r ∷ rs) = let rest = exists_row test rs in test r || rest

  -- The row of a query that fits one row at most.
  abbrev pub find_row : (A → Bool) → List A → Option A
  find_row test [] = none
  find_row test (r ∷ rs) = let rest = find_row test rs in if test r then some r else rest

  -- WHERE test
  abbrev pub select_rows : (A → Bool) → List A → List A
  select_rows test [] = []
  select_rows test (r ∷ rs) = let rest = select_rows test rs in if test r then r ∷ rest else rest

  -- DELETE … WHERE test
  abbrev pub delete_rows : (A → Bool) → List A → List A
  delete_rows test [] = []
  delete_rows test (r ∷ rs) = let rest = delete_rows test rs in if test r then rest else r ∷ rest

  -- UPDATE … SET change WHERE test
  abbrev pub update_rows : (A → Bool) → (A → A) → List A → List A
  update_rows test change [] = []
  update_rows test change (r ∷ rs) =
      let rest = update_rows test change rs in (if test r then change r else r) ∷ rest

  -- SELECT COUNT(*) … WHERE test, and RowsAffected
  abbrev pub count_rows : (A → Bool) → List A → ℕ
  count_rows test [] = 0
  count_rows test (r ∷ rs) = let rest = count_rows test rs in if test r then suc rest else rest

  -- ORDER BY le LIMIT 1
  abbrev pub prefer : (A → A → Bool) → A → Option A → A
  prefer le a none = a
  prefer le a (some b) = if le a b then a else b

  abbrev pub first_row : (A → A → Bool) → List A → Option A
  first_row le [] = none
  first_row le (r ∷ rs) = some (prefer le r (first_row le rs))

  -- ORDER BY le
  abbrev pub insert_row : (A → A → Bool) → A → List A → List A
  insert_row le a [] = a ∷ []
  insert_row le a (r ∷ rs) =
      let rest = insert_row le a rs in if le a r then a ∷ r ∷ rs else r ∷ rest

  abbrev pub order_rows : (A → A → Bool) → List A → List A
  order_rows le [] = []
  order_rows le (r ∷ rs) = insert_row le r (order_rows le rs)

  -- LIMIT n
  abbrev pub take : ℕ → List A → List A
  take Prim.Native.Nat.zero rs = []
  take (suc n) [] = []
  take (suc n) (r ∷ rs) = r ∷ take n rs
