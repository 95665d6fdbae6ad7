-- ===== src/Store/Recipients/Keys.antt =====
-- internal/store/sqlite/schema.sql: the primary key of `deliveries`, and the row that it finds.
use holler.Prelude.{
  ◌≡◌, refl, String, Bool, true, false, some, List, [], ◌∷◌, ◌++◌, ◌⊎◌, inl, inr, arith, Bool-cases,
  Option-cases,
}
use holler.Store.Tables.{exists_row, find_row, select_rows, update_rows, first_row}
use holler.Store.Tables.Rows.{exists-append}
use holler.Store.Tables.Keyed.{KeyedBy}
use holler.Store.Db.{DeliveryRow}
use holler.Store.Recipients.{is_delivery}

-- No two rows have the same message and recipient.
abbrev pub IsKeyed : List DeliveryRow → Type 0
IsKeyed [] = Unit
IsKeyed (d ∷ ds) = (exists_row (is_delivery d.message_id d.recipient_actor) ds ≡ false) × IsKeyed ds

abbrev pub InRows : DeliveryRow → List DeliveryRow → Type 0
InRows a [] = ⊥
InRows a (x ∷ xs) = (a ≡ x) ⊎ InRows a xs

pub first-InRows :
    (le : DeliveryRow → DeliveryRow → Bool) (test : DeliveryRow → Bool) (xs : List DeliveryRow)
    (a : DeliveryRow)
    → first_row le (select_rows test xs) ≡ some a
    → InRows a xs
first-InRows le test [] a h = cc
first-InRows le test (x ∷ xs) a h = elim (Bool-cases (test x)) [
  | inr e ↦ inr (first-InRows le test xs a (ground arith))
  | inl e ↦ elim (Option-cases (first_row le (select_rows test xs))) [
    | inl f ↦ inl (ground arith)
    | inr (b, f) ↦ elim (Bool-cases (le x b)) [
      | inl g ↦ inl (ground arith)
      | inr g ↦ inr (first-InRows le test xs a (ground arith))
    ]
  ]
]

pub exists-InRows :
    (test : DeliveryRow → Bool) (xs : List DeliveryRow) (a : DeliveryRow)
    → InRows a xs
    → exists_row test xs ≡ false
    → test a ≡ false
exists-InRows test [] a i h = elim i [ ]
exists-InRows test (x ∷ xs) a (inl e) h = ground arith
exists-InRows test (x ∷ xs) a (inr i) h = exists-InRows test xs a i (ground arith)

-- The key of a row finds that row.
pub find-InRows :
    (ds : List DeliveryRow) (d : DeliveryRow)
    → IsKeyed ds
    → InRows d ds
    → find_row (is_delivery d.message_id d.recipient_actor) ds ≡ some d
find-InRows [] d k i = elim i [ ]
find-InRows (x ∷ ds) d k (inl e) = ground arith
find-InRows (x ∷ ds) d k (inr i) = ground (
  arith,
  exists-InRows (is_delivery x.message_id x.recipient_actor) ds d i k.0,
  find-InRows ds d k.1 i,
)

-- The key as a test of two rows.
abbrev pub same_delivery : DeliveryRow → DeliveryRow → Bool
same_delivery d e = is_delivery d.message_id d.recipient_actor e

pub IsKeyed-KeyedBy : (ds : List DeliveryRow) → IsKeyed ds → KeyedBy same_delivery ds
IsKeyed-KeyedBy [] k = tt
IsKeyed-KeyedBy (d ∷ ds) k = (k.0, IsKeyed-KeyedBy ds k.1)

pub is_delivery-agree :
    (m r : String) (d e : DeliveryRow)
    → is_delivery m r d ≡ true
    → is_delivery m r e ≡ true
    → same_delivery d e ≡ true
is_delivery-agree m r d e h k = ground arith

-- Changing rows, but not their keys, keeps the keys apart.
module _ (seen : DeliveryRow → Bool) (change : DeliveryRow → DeliveryRow)
    (same_message : (d : DeliveryRow) → (change d).message_id ≡ d.message_id)
    (same_recipient : (d : DeliveryRow) → (change d).recipient_actor ≡ d.recipient_actor) where
  exists-update :
      (m r : String) (ds : List DeliveryRow)
      → exists_row (is_delivery m r) (update_rows seen change ds) ≡ exists_row (is_delivery m r) ds
  exists-update m r [] = refl
  exists-update m r (d ∷ ds) =
      ground (arith, same_message d, same_recipient d, exists-update m r ds)

  pub update-IsKeyed : (ds : List DeliveryRow) → IsKeyed ds → IsKeyed (update_rows seen change ds)
  update-IsKeyed [] k = tt
  update-IsKeyed (d ∷ ds) k = elim (Bool-cases (seen d)) [
    | inl e ↦
        rw (e, same_message d, same_recipient d, exists-update d.message_id d.recipient_actor ds)
          (k.0, update-IsKeyed ds k.1)
    | inr e ↦ rw (e, exists-update d.message_id d.recipient_actor ds) (k.0, update-IsKeyed ds k.1)
  ]

-- A row under a new key may be added.
pub append-IsKeyed :
    (ds : List DeliveryRow) (d : DeliveryRow)
    → IsKeyed ds
    → exists_row (is_delivery d.message_id d.recipient_actor) ds ≡ false
    → IsKeyed (ds ++ (d ∷ []))
append-IsKeyed [] d k h = (refl, tt)
append-IsKeyed (x ∷ ds) d k h = (
  ground (arith, exists-append (is_delivery x.message_id x.recipient_actor) ds (d ∷ [])),
  append-IsKeyed ds d k.1 (ground arith),
)
