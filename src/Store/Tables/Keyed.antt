-- ===== src/Store/Tables/Keyed.antt =====
-- The primary key of a table, as a test for two rows of one key.
use holler.Prelude.{
  ◌≡◌, refl, Bool, true, false, ◌&&◌, not, none, some, List, [], ◌∷◌, ◌++◌, inl, inr, arith,
  Bool-cases, eqb,
}
use holler.Store.Tables.{exists_row, find_row, update_rows, count_rows}
use holler.Store.Tables.Rows.{exists-append}

module _ {ℓ} {A : Type ℓ} where
  -- No two rows have the same key.
  abbrev pub KeyedBy : (A → A → Bool) → List A → Type 0
  KeyedBy same [] = Unit
  KeyedBy same (x ∷ xs) = (exists_row (same x) xs ≡ false) × KeyedBy same xs

  pub append-KeyedBy :
      (same : A → A → Bool) (xs : List A) (a : A)
      → ((x : A) → same x a ≡ same a x)
      → KeyedBy same xs
      → exists_row (same a) xs ≡ false
      → KeyedBy same (xs ++ (a ∷ []))
  append-KeyedBy same [] a swap k h = (refl, tt)
  append-KeyedBy same (x ∷ xs) a swap k h = (
    ground (arith, exists-append (same x) xs (a ∷ []), swap x),
    append-KeyedBy same xs a swap k.1 (ground arith),
  )

  pub exists-update :
      (test seen : A → Bool) (change : A → A) (xs : List A)
      → ((x : A) → seen x ≡ true → test (change x) ≡ test x)
      → exists_row test (update_rows seen change xs) ≡ exists_row test xs
  exists-update test seen change [] keep = refl
  exists-update test seen change (x ∷ xs) keep =
      ground (arith, keep x, exists-update test seen change xs keep)

  pub count-update :
      (test seen : A → Bool) (change : A → A) (xs : List A)
      → ((x : A) → seen x ≡ true → test (change x) ≡ test x)
      → count_rows test (update_rows seen change xs) ≡ count_rows test xs
  count-update test seen change [] keep = refl
  count-update test seen change (x ∷ xs) keep =
      ground (arith, keep x, count-update test seen change xs keep)

  exists-same :
      (p q : A → Bool) (xs : List A) → ((x : A) → p x ≡ q x) → exists_row p xs ≡ exists_row q xs
  exists-same p q [] same = refl
  exists-same p q (x ∷ xs) same = ground (arith, same x, exists-same p q xs same)

  -- A change that keeps the key keeps keys apart.
  pub update-KeyedBy :
      (same : A → A → Bool) (seen : A → Bool) (change : A → A)
      → ((x y : A) → same (change x) y ≡ same x y)
      → ((x y : A) → same x (change y) ≡ same x y)
      → (xs : List A) → KeyedBy same xs
      → KeyedBy same (update_rows seen change xs)
  update-KeyedBy same seen change left right [] k = tt
  update-KeyedBy same seen change left right (x ∷ xs) k = (
    ground (
      arith,
      left x,
      exists-update (same x) seen change xs (λ y _. right x y),
      exists-update (same (change x)) seen change xs (λ y _. right (change x) y),
      exists-same (same (change x)) (same x) xs (left x),
      k.0,
    ),
    update-KeyedBy same seen change left right xs k.1,
  )

  -- A test that implies one that no row passes.
  pub exists-weaken :
      (p q : A → Bool) (xs : List A)
      → ((x : A) → p x ≡ true → q x ≡ true)
      → exists_row q xs ≡ false
      → exists_row p xs ≡ false
  exists-weaken p q [] imp h = refl
  exists-weaken p q (x ∷ xs) imp h = ground (arith, imp x, exists-weaken p q xs imp)

  pub count-none : (p : A → Bool) (xs : List A) → exists_row p xs ≡ false → count_rows p xs ≡ 0
  count-none p [] h = refl
  count-none p (x ∷ xs) h = ground (arith, count-none p xs)

  -- A key that some row has, one row has.
  pub count-key :
      (same : A → A → Bool) (p : A → Bool)
      → ((x y : A) → p x ≡ true → p y ≡ true → same x y ≡ true)
      → (xs : List A) → KeyedBy same xs
      → exists_row p xs ≡ true
      → count_rows p xs ≡ 1
  count-key same p agree [] k h = cc
  count-key same p agree (x ∷ xs) k h = elim (Bool-cases (p x)) [
    | inr e ↦ ground (arith, count-key same p agree xs k.1)
    | inl e ↦
        let rest = count-none p xs (exists-weaken p (same x) xs (λ y f. agree x y e f) k.0) in
        ground arith
  ]

  -- The row of that key is the one that is found.
  pub exists-key :
      (same : A → A → Bool) (p q : A → Bool)
      → ((x y : A) → p x ≡ true → p y ≡ true → same x y ≡ true)
      → (xs : List A) (a : A) → KeyedBy same xs
      → find_row p xs ≡ some a
      → q a ≡ false
      → exists_row (λ x. p x && q x) xs ≡ false
  exists-key same p q agree [] a k f h = refl
  exists-key same p q agree (x ∷ xs) a k f h = elim (Bool-cases (p x)) [
    | inr e ↦ ground (arith, exists-key same p q agree xs a k.1)
    | inl e ↦
        let rest =
          exists-weaken (λ y. p y && q y) (same x) xs (λ y g. agree x y e (ground arith)) k.0 in
        ground arith
  ]

  count-zero :
      (p q : A → Bool) (xs : List A)
      → exists_row (λ x. p x && not (q x)) xs ≡ false
      → count_rows q xs ≡ 0
      → exists_row p xs ≡ false
  count-zero p q [] only none_row = refl
  count-zero p q (x ∷ xs) only none_row = ground (arith, count-zero p q xs)

  -- If each row that passes p passes q, and q passes one row, then so does p, unless it passes none.
  pub count-only :
      (p q : A → Bool) (xs : List A)
      → exists_row (λ x. p x && not (q x)) xs ≡ false
      → exists_row p xs ≡ true
      → count_rows q xs ≡ 1
      → count_rows p xs ≡ 1
  count-only p q [] only some_row one = cc
  count-only p q (x ∷ xs) only some_row one = elim (Bool-cases (q x)) [
    | inr e ↦ ground (arith, count-only p q xs)
    | inl e ↦ ground (arith, count-zero p q xs, count-none p xs)
  ]

  pub find-exists :
      (p q : A → Bool) (xs : List A) (a : A)
      → find_row q xs ≡ some a
      → p a ≡ true
      → exists_row p xs ≡ true
  find-exists p q [] a f h = cc
  find-exists p q (x ∷ xs) a f h = ground (arith, find-exists p q xs a)

  pub update-none :
      (p : A → Bool) (change : A → A) (xs : List A)
      → exists_row p xs ≡ false
      → update_rows p change xs ≡ xs
  update-none p change [] h = refl
  update-none p change (x ∷ xs) h = ground (arith, update-none p change xs)

  -- An update of one key changes the row that is found, and no other.
  pub update-found :
      (same : A → A → Bool) (p : A → Bool) (change other : A → A)
      → ((x y : A) → p x ≡ true → p y ≡ true → same x y ≡ true)
      → (xs : List A) (a : A) → KeyedBy same xs
      → find_row p xs ≡ some a
      → change a ≡ other a
      → update_rows p change xs ≡ update_rows p other xs
  update-found same p change other agree [] a k f e = refl
  update-found same p change other agree (x ∷ xs) a k f e = elim (Bool-cases (p x)) [
    | inr out ↦ ground (arith, update-found same p change other agree xs a k.1)
    | inl hit ↦
        let rest = exists-weaken p (same x) xs (λ y g. agree x y hit g) k.0 in
        let same_row : change x ≡ other x = ground (arith, e) in
        rw (hit, same_row, update-none p change xs rest, update-none p other xs rest) refl
  ]

  -- Of the rows of a key, only the one that passes.
  pub exists-only :
      (same : A → A → Bool) (k p : A → Bool)
      → ((x y : A) → k x ≡ true → k y ≡ true → same x y ≡ true)
      → ((x : A) → p x ≡ true → k x ≡ true)
      → (xs : List A) → KeyedBy same xs
      → exists_row p xs ≡ true
      → exists_row (λ x. k x && not (p x)) xs ≡ false
  exists-only same k p agree imp [] keyed h = cc
  exists-only same k p agree imp (x ∷ xs) keyed h = elim (Bool-cases (k x)) [
    | inr out ↦ ground (arith, imp x, exists-only same k p agree imp xs keyed.1)
    | inl hit ↦
        let rest = exists-weaken k (same x) xs (λ y g. agree x y hit g) keyed.0 in
        ground (
          arith,
          exists-weaken p k xs imp rest,
          exists-weaken (λ y. k y && not (p y)) k xs (λ y g. ground arith) rest,
        )
  ]

  -- No row passes a test after an update that takes each row of the key out of it.
  pub exists-taken :
      (k p t : A → Bool) (change : A → A)
      → ((x : A) → p x ≡ true → t (change x) ≡ false)
      → ((x : A) → k x ≡ false → t x ≡ false)
      → (xs : List A) → exists_row (λ x. k x && not (p x)) xs ≡ false
      → exists_row t (update_rows p change xs) ≡ false
  exists-taken k p t change taken out [] h = refl
  exists-taken k p t change taken out (x ∷ xs) h =
      ground (arith, taken x, out x, exists-taken k p t change taken out xs)

  pub exists-count :
      (p : A → Bool) (xs : List A) → eqb (count_rows p xs) 0 ≡ false → exists_row p xs ≡ true
  exists-count p [] h = cc
  exists-count p (x ∷ xs) h = ground (arith, exists-count p xs)

  pub exists-count_one :
      (p : A → Bool) (xs : List A) → eqb (count_rows p xs) 1 ≡ true → exists_row p xs ≡ true
  exists-count_one p [] h = cc
  exists-count_one p (x ∷ xs) h = ground (arith, exists-count p xs)

  pub find-none : (p : A → Bool) (xs : List A) → find_row p xs ≡ none → exists_row p xs ≡ false
  find-none p [] h = refl
  find-none p (x ∷ xs) h = ground (arith, find-none p xs)

  -- A test that no row passes fails for the row that is found.
  pub find-fails :
      (p q : A → Bool) (xs : List A) (a : A)
      → find_row q xs ≡ some a
      → exists_row p xs ≡ false
      → p a ≡ false
  find-fails p q [] a f h = cc
  find-fails p q (x ∷ xs) a f h = ground (arith, find-fails p q xs a)

  -- A change of rows that do not pass one test makes none pass another.
  pub exists-kept :
      (seen p t : A → Bool) (change : A → A) (xs : List A)
      → ((x : A) → seen x ≡ true → p x ≡ false → t (change x) ≡ false)
      → exists_row p xs ≡ false
      → exists_row t xs ≡ false
      → exists_row t (update_rows seen change xs) ≡ false
  exists-kept seen p t change [] keep h k = refl
  exists-kept seen p t change (x ∷ xs) keep h k =
      ground (arith, keep x, exists-kept seen p t change xs keep)
