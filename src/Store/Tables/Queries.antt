-- ===== src/Store/Tables/Queries.antt =====
-- What the queries of internal/store/sqlite keep of a property that each row of a table has.
use holler.Prelude.{
  ℕ, suc, ◌≡◌, refl, Bool, true, false, some, List, [], ◌∷◌, inl, inr, arith, Bool-cases, is_some,
  ◌⊎◌,
}
use holler.Store.Tables.{exists_row, find_row, select_rows, first_row, insert_row, order_rows, take}
use holler.Store.Tables.Rows.{AllRows}

module _ {ℓ κ} {A : Type ℓ} (P : A → Type κ) where
  pub AllRows-select :
      (test : A → Bool) (xs : List A)
      → AllRows P xs
      → AllRows (λ a. (test a ≡ true) × P a) (select_rows test xs)
  AllRows-select test [] h = tt
  AllRows-select test (x ∷ xs) h = elim (Bool-cases (test x)) [
    | inl e ↦ rw e ((e, h.0), AllRows-select test xs h.1)
    | inr e ↦ rw e (AllRows-select test xs h.1)
  ]

  AllRows-insert :
      (le : A → A → Bool) (a : A) (xs : List A)
      → P a
      → AllRows P xs
      → AllRows P (insert_row le a xs)
  AllRows-insert le a [] ha h = (ha, tt)
  AllRows-insert le a (x ∷ xs) ha h = elim (Bool-cases (le a x)) [
    | inl e ↦ rw e (ha, h)
    | inr e ↦ rw e (h.0, AllRows-insert le a xs ha h.1)
  ]

  pub AllRows-order :
      (le : A → A → Bool) (xs : List A) → AllRows P xs → AllRows P (order_rows le xs)
  AllRows-order le [] h = tt
  AllRows-order le (x ∷ xs) h = AllRows-insert le x (order_rows le xs) h.0 (AllRows-order le xs h.1)

  pub AllRows-take : (n : ℕ) (xs : List A) → AllRows P xs → AllRows P (take n xs)
  AllRows-take Prim.Native.Nat.zero xs h = tt
  AllRows-take (suc n) [] h = tt
  AllRows-take (suc n) (x ∷ xs) h = (h.0, AllRows-take n xs h.1)

module _ {ℓ κ μ} {A : Type ℓ} (P : A → Type κ) (Q : A → Type μ) where
  pub AllRows-map : (xs : List A) → ((a : A) → P a → Q a) → AllRows P xs → AllRows Q xs
  AllRows-map [] keep h = tt
  AllRows-map (x ∷ xs) keep h = (keep x h.0, AllRows-map xs keep h.1)

module _ {ℓ} {A : Type ℓ} where
  -- A test that the row passes finds a row of the list.
  abbrev pub Occurs : List A → A → Type ℓ
  Occurs xs a = (test : A → Bool) → test a ≡ true → exists_row test xs ≡ true

  pub AllRows-Occurs : (xs : List A) → AllRows (Occurs xs) xs
  AllRows-Occurs [] = tt
  AllRows-Occurs (x ∷ xs) = (
    λ test e. rw e refl,
    AllRows-map (Occurs xs) (Occurs (x ∷ xs)) xs
        (λ a occurs test e. let there = occurs test e in ground arith) (AllRows-Occurs xs),
  )

  pub exists-false :
      (test : A → Bool) (xs : List A) → ((a : A) → test a ≡ false) → exists_row test xs ≡ false
  exists-false test [] h = refl
  exists-false test (x ∷ xs) h = rw (h x, exists-false test xs h) refl

  pub first-exists :
      (test : A → Bool) (le : A → A → Bool) (xs : List A)
      → is_some (first_row le (select_rows test xs)) ≡ exists_row test xs
  first-exists test le [] = refl
  first-exists test le (x ∷ xs) = elim (Bool-cases (test x)) [
    | inl e ↦ rw e refl
    | inr e ↦ rw e (first-exists test le xs)
  ]

  pub find-first :
      (test : A → Bool) (x : A) (xs : List A) (a : A)
      → find_row test (x ∷ xs) ≡ some a
      → (x ≡ a) ⊎ (find_row test xs ≡ some a)
  find-first test x xs a h = elim (Bool-cases (test x)) [
    | inl e ↦ inl (ground arith)
    | inr e ↦ inr (ground arith)
  ]
