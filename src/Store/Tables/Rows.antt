-- ===== src/Store/Tables/Rows.antt =====
-- What the statements on a table do to its rows.
use holler.Prelude.{
  ◌≡◌, refl, ap, Bool, true, false, ◌||◌, Option, none, some, List, [], ◌∷◌, ◌++◌, inl, inr, arith,
  if◌then◌else◌, Bool-cases,
}
use mathlib.Core.Option
use holler.Store.Tables.{exists_row, find_row, select_rows, update_rows, prefer, first_row}

module _ {ℓ κ} {A : Type ℓ} (P : A → Type κ) where
  -- Each row has the property.
  abbrev pub AllRows : List A → Type κ
  AllRows [] = Unit
  AllRows (r ∷ rs) = P r × AllRows rs

module _ {ℓ κ} {A : Type ℓ} (P : A → Type κ) where
  pub AllRows-append : (xs ys : List A) → AllRows P xs → AllRows P ys → AllRows P (xs ++ ys)
  AllRows-append [] ys hx hy = hy
  AllRows-append (x ∷ xs) ys hx hy = (hx.0, AllRows-append xs ys hx.1 hy)

  pub AllRows-update :
      (test : A → Bool) (change : A → A) (xs : List A)
      → ((a : A) → test a ≡ true → P a → P (change a))
      → AllRows P xs
      → AllRows P (update_rows test change xs)
  AllRows-update test change [] keep h = tt
  AllRows-update test change (x ∷ xs) keep h = elim (Bool-cases (test x)) [
    | inl e ↦ rw e (keep x e h.0, AllRows-update test change xs keep h.1)
    | inr e ↦ rw e (h.0, AllRows-update test change xs keep h.1)
  ]

  pub AllRows-find :
      (test : A → Bool) (xs : List A) (a : A) → AllRows P xs → find_row test xs ≡ some a → P a
  AllRows-find test [] a h e = cc
  AllRows-find test (x ∷ xs) a h e = ground (arith, AllRows-find test xs a h.1)

module _ {ℓ} {A : Type ℓ} where
  pub find-holds :
      (test : A → Bool) (xs : List A) (a : A) → find_row test xs ≡ some a → test a ≡ true
  find-holds test [] a e = cc
  find-holds test (x ∷ xs) a e = ground (arith, find-holds test xs a)

  pub find-append :
      (test : A → Bool) (xs ys : List A)
      → find_row test (xs ++ ys)
        ≡ (elim (find_row test xs) [ some a ↦ some a | none ↦ find_row test ys ])
  find-append test [] ys = refl
  find-append test (x ∷ xs) ys = ground (arith, find-append test xs ys)

  pub exists-find :
      (test : A → Bool) (xs : List A) → exists_row test xs ≡ false → find_row test xs ≡ none
  exists-find test [] h = refl
  exists-find test (x ∷ xs) h = ground (arith, exists-find test xs)

  pub exists-append :
      (test : A → Bool) (xs ys : List A)
      → exists_row test (xs ++ ys) ≡ (exists_row test xs || exists_row test ys)
  exists-append test [] ys = refl
  exists-append test (x ∷ xs) ys = ground (arith, exists-append test xs ys)

  pub exists-find_some :
      (test : A → Bool) (xs : List A)
      → exists_row test xs ≡ true
      → (a : A) × (find_row test xs ≡ some a)
  exists-find_some test [] h = cc
  exists-find_some test (x ∷ xs) h = elim (Bool-cases (test x)) [
    | inl e ↦ (x, rw e)
    | inr e ↦ rw e (exists-find_some test xs (ground arith))
  ]

  pub first-select :
      (test : A → Bool) (le : A → A → Bool) (xs : List A) (a : A)
      → first_row le (select_rows test xs) ≡ some a
      → test a ≡ true
  first-select test le [] a h = cc
  first-select test le (x ∷ xs) a h = ground (arith, first-select test le xs a)

-- A change that neither the test nor the order can see changes the row that is found.
module _ {ℓ} {A : Type ℓ} (seen : A → Bool) (change : A → A) where
  abbrev pub changed : A → A
  changed a = if seen a then change a else a

  pub find-update :
      (test : A → Bool) (xs : List A)
      → ((a : A) → test (changed a) ≡ test a)
      → find_row test (update_rows seen change xs) ≡ Option.map changed (find_row test xs)
  find-update test [] same = refl
  find-update test (x ∷ xs) same = ground (arith, same x, find-update test xs same)

  prefer-changed :
      (le : A → A → Bool)
      → ((a b : A) → le (changed a) (changed b) ≡ le a b)
      → (x : A) (o : Option A)
      → prefer le (changed x) (Option.map changed o) ≡ changed (prefer le x o)
  prefer-changed le order x none = refl
  prefer-changed le order x (some b) = ground (arith, order x b)

  pub first-update :
      (test : A → Bool) (le : A → A → Bool) (xs : List A)
      → ((a : A) → test (changed a) ≡ test a)
      → ((a b : A) → le (changed a) (changed b) ≡ le a b)
      → first_row le (select_rows test (update_rows seen change xs))
        ≡ Option.map changed (first_row le (select_rows test xs))
  first-update test le [] same order = refl
  first-update test le (x ∷ xs) same order = elim (Bool-cases (test x)) [
    | inl e ↦
        rw (same x, e, first-update test le xs same order)
          (ap some (prefer-changed le order x (first_row le (select_rows test xs))))
    | inr e ↦ rw (same x, e) (first-update test le xs same order)
  ]
