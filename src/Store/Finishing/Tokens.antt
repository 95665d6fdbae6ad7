-- ===== src/Store/Finishing/Tokens.antt =====
-- internal/store/sqlite/store.go: lease tokens fence `Ack` and `Nack`, and a final transition stays.
use holler.Prelude.{
  ℕ, ◌≡◌, refl, sym, ap, subst, ◌∙◌, Bool, true, false, ◌||◌, inl, inr, String, some, arith, ◌==◌,
  Bool-cases,
}
use mathlib.Core.Option
use holler.Bus.Result.{Result, ok, err, lease_token_mismatch}
use holler.Bus.Text.{trim_space}
use holler.Store.Tables.{find_row}
use holler.Store.Tables.Rows.{changed, find-update, find-holds, first-select}
use holler.Store.Db.{Db, Env, DeliveryRow}
use holler.Store.Recipients.{
  effective_delivery, effective_delivery_recipient, is_delivery, is_candidate, preferred,
}
use holler.Store.Recipients.Keys.{IsKeyed, first-InRows, find-InRows}
use holler.Store.Recipients.Updates.{effective_delivery-update}
use holler.Store.Transition.{finish_delivery_state}
use holler.Store.Claiming.{is_claimable}
use holler.Store.Finishing.{finish, finish_selected, finished}
use holler.Store.Finishing.Inversion.{Finished, finish_selected_inv}

-- The row that an actor handles is the row under its key.
pub effective_delivery-find :
    (db : Db) (actor m : String) (d : DeliveryRow)
    → IsKeyed db.deliveries
    → effective_delivery db actor m ≡ some d
    → find_row (is_delivery m d.recipient_actor) db.deliveries ≡ some d
unfolding effective_delivery
effective_delivery-find db actor m d keyed h =
    let mine =
      first-select (is_candidate db.adoptions actor m) (preferred db.adoptions actor) db.deliveries
        d h in
    let at : d.message_id ≡ m = ground arith in
    subst (λ (x : String). find_row (is_delivery x d.recipient_actor) db.deliveries ≡ some d) at
      (find-InRows db.deliveries d keyed (
        first-InRows (preferred db.adoptions actor) (is_candidate db.adoptions actor m)
          db.deliveries d h))

-- `finish` goes by the transition table on the row that it reads.
module _ (env : Env) (actor m token original : String) (ack final : Bool) (reason : String)
    (db : Db) (d row : DeliveryRow) (eff : effective_delivery db actor m ≡ some d)
    (own : d.recipient_actor ≡ original)
    (found : find_row (is_delivery m original) db.deliveries ≡ some row) where
  pub finish_selected-refused :
      finish_delivery_state row.state row.lease_token row.terminal_lease_token token ack final
        ≡ err lease_token_mismatch
      → finish_selected env actor m token ack final reason db ≡ err lease_token_mismatch
  unfolding finish_selected effective_delivery_recipient
  finish_selected-refused verdict = rw (eff, own, found, verdict) refl

  finish_selected-repeated :
      finish_delivery_state row.state row.lease_token row.terminal_lease_token token ack final
        ≡ ok true
      → finish_selected env actor m token ack final reason db ≡ ok db
  unfolding finish_selected effective_delivery_recipient
  finish_selected-repeated verdict = rw (eff, own, found, verdict) refl

module _ (now : ℕ) (m original token : String) (ack final : Bool) (reason : String) where
  abbrev pub after_finish : DeliveryRow → DeliveryRow
  after_finish = changed (is_delivery m original) (finished now token ack final reason)

  -- The row of a final transition holds the token that made it.
  after_finish-repeated :
      (row : DeliveryRow)
      → is_delivery m original row ≡ true
      → (ack || final) ≡ true
      → finish_delivery_state
          (after_finish row).state
          (after_finish row).lease_token
          (after_finish row).terminal_lease_token
          token
          ack
          final
        ≡ ok true
  unfolding finished finish_delivery_state
  after_finish-repeated row key over = ground arith

  pub after_finish-unclaimable :
      (row : DeliveryRow) (now2 : ℕ)
      → is_delivery m original row ≡ true
      → (ack || final) ≡ true
      → is_claimable now2 (after_finish row) ≡ false
  unfolding finished
  after_finish-unclaimable row now2 key over = ground arith

  module _ (db db' : Db) (did : Finished now m original token ack final reason db db') where
    pub finished-effective :
        (actor : String)
        → effective_delivery db' actor m ≡ Option.map after_finish (effective_delivery db actor m)
    finished-effective actor =
        effective_delivery-update (is_delivery m original) (finished now token ack final reason)
          (λ _. unfold finished in refl) (λ _. unfold finished in refl) db db' did.deliveries
          did.adoptions actor m

    pub finished-found :
        find_row (is_delivery m original) db'.deliveries
        ≡ Option.map after_finish (find_row (is_delivery m original) db.deliveries)
    finished-found = rw did.deliveries (
        find-update (is_delivery m original) (finished now token ack final reason)
          (is_delivery m original) db.deliveries (λ a. unfold finished in ground arith))

finish_selected-again :
    (env env2 : Env) (actor m token : String) (ack final : Bool) (reason reason2 : String)
    (db db' : Db)
    → finish_selected env actor m token ack final reason db ≡ ok db'
    → (ack || final) ≡ true
    → finish_selected env2 actor m token ack final reason2 db' ≡ ok db'
finish_selected-again env env2 actor m token ack final reason reason2 db db' h over =
    let (d, row, eff, found, cases) =
      finish_selected_inv env actor m token ack final reason db db' h in
    let original = d.recipient_actor in
    elim cases [
      | inl (verdict, same) ↦
          subst (λ (x : Db). finish_selected env2 actor m token ack final reason2 x ≡ ok x)
            (sym same)
            (finish_selected-repeated env2 actor m token original ack final reason2 db d row eff
              refl found verdict)
      | inr (_, did) ↦
          finish_selected-repeated env2 actor m token original ack final reason2 db'
            (after_finish env.now m original token ack final reason d)
            (after_finish env.now m original token ack final reason row)
            (finished-effective env.now m original token ack final reason db db' did actor
              ∙ ap (Option.map (after_finish env.now m original token ack final reason)) eff)
            (unfold finished in ground arith)
            (finished-found env.now m original token ack final reason db db' did
              ∙ ap (Option.map (after_finish env.now m original token ack final reason)) found)
            (after_finish-repeated env.now m original token ack final reason row
              (find-holds (is_delivery m original) db.deliveries row found) over)
    ]

pub finish-selected :
    (env : Env) (actor m token : String) (ack final : Bool) (reason : String) (db db' : Db)
    → finish env actor m token ack final reason db ≡ ok db'
    → ((trim_space actor == "" || trim_space m == "" || trim_space token == "") ≡ false)
      × (finish_selected env
            (trim_space actor)
            (trim_space m)
            (trim_space token)
            ack
            final
            reason
            db
          ≡ ok db')
unfolding finish
finish-selected env actor m token ack final reason db db' h =
    elim (Bool-cases (trim_space actor == "" || trim_space m == "" || trim_space token == "")) [
      | inl e ↦ absurd (ground arith)
      | inr e ↦ (e, ground arith)
    ]

pub finish-of_selected :
    (env : Env) (actor m token : String) (ack final : Bool) (reason : String) (db : Db)
    (r : Result Db)
    → (trim_space actor == "" || trim_space m == "" || trim_space token == "") ≡ false
    → finish_selected env (trim_space actor) (trim_space m) (trim_space token) ack final reason db
      ≡ r
    → finish env actor m token ack final reason db ≡ r
unfolding finish
finish-of_selected env actor m token ack final reason db r named h = rw named h

-- A transition that ends the delivery, by `Ack` or by a final `Nack`, may be repeated: the same call
-- with any reason, at any later time, succeeds and changes nothing.
pub finish_again :
    (env env2 : Env) (actor m token : String) (ack final : Bool) (reason reason2 : String)
    (db db' : Db)
    → finish env actor m token ack final reason db ≡ ok db'
    → (ack || final) ≡ true
    → finish env2 actor m token ack final reason2 db' ≡ ok db'
finish_again env env2 actor m token ack final reason reason2 db db' h over =
    let (named, did) = finish-selected env actor m token ack final reason db db' h in
    finish-of_selected env2 actor m token ack final reason2 db' (ok db') named (
      finish_selected-again env env2 (trim_space actor) (trim_space m) (trim_space token) ack final
        reason reason2 db db' did over)
