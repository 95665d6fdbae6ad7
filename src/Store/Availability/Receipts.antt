-- ===== src/Store/Availability/Receipts.antt =====
-- internal/store/sqlite/availability.go: what the receipts of a message say.
use holler.Prelude.{
  ◌≡◌, refl, sym, ap, ◌∙◌, String, false, some, List, [], ◌∷◌, map, ◌==◌, Bool-cases, Option-cases,
  inl, inr, arith,
}
use holler.Bus.Result.{ok, >>=-eq-ok, ok-injective}
use holler.Bus.Types.{Route, Message, Registration, DeliveryReceipt, non_blocking}
use holler.Store.Db.{Db, Env}
use holler.Store.Tables.{find_row}
use holler.Store.Tables.Rows.{find-holds}
use holler.Store.Tables.Queries.{find-first}
use holler.Bus.Text.{same_text-equal}
use holler.Store.Sessions.{live_registrations}
use holler.Store.Availability.{
  delivery_receipts, receipts_of, attention_receipt, new_receipt, route_for, by_registrations,
  apply_attention_condition, requested_routes_by_actor, is_enabled, attended, startup_only,
  disconnected,
}

-- What a receipt says of the recipient's sessions.
abbrev pub presence : List Registration → String
presence [] = "disconnected"
presence (r ∷ rs) = "connected"

-- The recipient and the presence of a receipt.
abbrev facts : DeliveryReceipt → String × String
facts r = (r.canonical_recipient, r.control_presence)

apply-facts :
    (r : DeliveryReceipt) (reason summary : String)
    → facts (apply_attention_condition r reason summary) ≡ facts r
unfolding apply_attention_condition
apply-facts r reason summary = elim (Bool-cases (reason == "")) [
  | inl e ↦ rw e refl
  | inr e ↦ rw e refl
]

attended-facts :
    (enabled : Registration) (r : DeliveryReceipt)
    → facts (attended enabled r) ≡ (r.canonical_recipient, "connected")
unfolding attended
attended-facts enabled r = ground arith

by_registrations-facts :
    (rs : List Registration) (r : DeliveryReceipt)
    → facts (by_registrations rs r) ≡ (r.canonical_recipient, presence rs)
unfolding by_registrations disconnected startup_only
by_registrations-facts [] r = refl
by_registrations-facts (reg ∷ rs) r = elim (Option-cases (find_row is_enabled (reg ∷ rs))) [
  | inl e ↦ rw (by_registrations, e) refl
  | inr (enabled, e) ↦ rw (by_registrations, e) (attended-facts enabled r)
]

attention_inv :
    (env : Env) (receipt : DeliveryReceipt) (db : Db) (r : DeliveryReceipt)
    → attention_receipt env receipt db ≡ ok r
    → (rs : List Registration) × (live_registrations env receipt.canonical_recipient db ≡ ok rs)
      × (facts r ≡ (receipt.canonical_recipient, presence rs))
unfolding attention_receipt
attention_inv env receipt db r h =
    let (rs, live, h1) = >>=-eq-ok (live_registrations env receipt.canonical_recipient db) _ h in
    (
      rs,
      live,
      ap facts (sym (ok-injective h1))
          ∙ apply-facts (by_registrations rs receipt) _ _
          ∙ by_registrations-facts rs receipt,
    )

-- A receipt for each recipient, in their order.
recipients-same :
    (env : Env) (request : String) (requested : List (String × Route)) (actors : List String)
    (db : Db) (rs : List DeliveryReceipt)
    → (request == non_blocking) ≡ false
    → receipts_of env request requested actors db ≡ ok rs
    → map (λ r. r.canonical_recipient) rs ≡ actors
unfolding receipts_of new_receipt
recipients-same env request requested [] db rs asked h = rw (sym (ok-injective h)) refl
recipients-same env request requested (actor ∷ rest) db rs asked h =
    let fresh = new_receipt (route_for requested actor) actor in
    let (r, first, h1) =
      >>=-eq-ok (attention_receipt env fresh db) _ (rw (receipts_of, asked) at h) in
    let (others, after, h2) = >>=-eq-ok (receipts_of env request requested rest db) _ h1 in
    let (_, _, told) = attention_inv env fresh db r first in
    rw (sym (ok-injective h2)) (
      ap (λ p. p.0 ∷ map (λ x. x.canonical_recipient) others) told
      ∙ ap (λ xs. actor ∷ xs) (recipients-same env request requested rest db others asked after))

receipts-present :
    (env : Env) (request : String) (requested : List (String × Route)) (actors : List String)
    (db : Db) (rs : List DeliveryReceipt) (actor : String) (r : DeliveryReceipt)
    (regs : List Registration)
    → (request == non_blocking) ≡ false
    → receipts_of env request requested actors db ≡ ok rs
    → find_row (λ x. x.canonical_recipient == actor) rs ≡ some r
    → live_registrations env actor db ≡ ok regs
    → r.control_presence ≡ presence regs
unfolding receipts_of new_receipt
receipts-present env request requested [] db rs actor r regs asked h found live =
    let empty = ap (find_row (λ x. x.canonical_recipient == actor)) (ok-injective h) ∙ found in cc
receipts-present env request requested (a ∷ rest) db rs actor r regs asked h found live =
    let fresh = new_receipt (route_for requested a) a in
    let (r1, first, h1) =
      >>=-eq-ok (attention_receipt env fresh db) _ (rw (receipts_of, asked) at h) in
    let (others, after, h2) = >>=-eq-ok (receipts_of env request requested rest db) _ h1 in
    let (regs1, live1, told) = attention_inv env fresh db r1 first in
    elim (find-first (λ x. x.canonical_recipient == actor) r1 others r
      (ap (find_row (λ x. x.canonical_recipient == actor)) (ok-injective h2) ∙ found)) [
        | inl same ↦
            let shown : r.canonical_recipient ≡ actor =
              same_text-equal r.canonical_recipient actor (find-holds _ rs r found) in
            let named : a ≡ actor =
              sym (ap (λ p. p.0) told) ∙ ap (λ x. x.canonical_recipient) same ∙ shown in
            let sessions : regs1 ≡ regs =
              ok-injective (sym live1 ∙ ap (λ who. live_registrations env who db) named ∙ live) in
            ap (λ x. x.control_presence) (sym same) ∙ ap (λ p. p.1) told ∙ ap presence sessions
        | inr there ↦
            receipts-present env request requested rest db others actor r regs asked after there
              live
      ]

-- Where a message asks for attention, `DeliveryReceipts` gives a receipt for each of its recipients, in
-- their order, and the receipt of an actor calls it connected exactly when a session of it is live.
pub delivery_receipts-present :
    (env : Env) (m : Message) (db : Db) (rs : List DeliveryReceipt) (actor : String)
    (r : DeliveryReceipt) (regs : List Registration)
    → delivery_receipts env m db ≡ ok rs
    → (m.delivery_request == non_blocking) ≡ false
    → find_row (λ x. x.canonical_recipient == actor) rs ≡ some r
    → live_registrations env actor db ≡ ok regs
    → (map (λ x. x.canonical_recipient) rs ≡ m.to_actors) × (r.control_presence ≡ presence regs)
unfolding delivery_receipts
delivery_receipts-present env m db rs actor r regs h asked found live =
    let (requested, _, h1) = >>=-eq-ok (requested_routes_by_actor db m) _ h in
    (
      recipients-same env m.delivery_request requested m.to_actors db rs asked h1,
      receipts-present env m.delivery_request requested m.to_actors db rs actor r regs asked h1
          found live,
    )
