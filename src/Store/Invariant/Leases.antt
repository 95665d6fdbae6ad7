-- ===== src/Store/Invariant/Leases.antt =====
-- internal/store/sqlite/store.go: what `Claim`, `Extend`, `Ack` and `Nack` keep.
use holler.Prelude.{
  ℕ, ◌+◌, ◌≡◌, refl, true, false, List, Bool-cases, ◌&&◌, arith, ap, Bool, String, not, ◌||◌, ◌==◌,
  ◌∷◌, ◌++◌, [], some, inl, inr,
}
use holler.Bus.Result.{
  ok, >>=-eq-ok, reject, or_fail, not_found, lease_token_mismatch, lease_expired, validation,
  ok-injective,
}
use holler.Bus.Caller.{event_provenance, number}
use holler.Bus.Text.{trim_space}
use holler.Bus.Types.{Claim, LeaseExtension}
use holler.Store.Tables.{exists_row, find_row, update_rows}
use holler.Store.Db.{Db, Env, DeliveryRow}
use holler.Store.Events.{append_event}
use holler.Store.Messages.{get_message_by_id}
use holler.Store.Recipients.{effective_delivery_recipient, is_delivery}
use holler.Store.Recipients.Keys.{
  IsKeyed, update-IsKeyed, same_delivery, IsKeyed-KeyedBy, is_delivery-agree,
}
use holler.Store.Tables.Keyed.{exists-key}
use holler.Store.Tables.Queries.{exists-false}
use holler.Store.Events.Frame.{KeepsNumbers, KeepsNumbers-same}
use holler.Store.Transition.{is_claimed, holds_token, finish_delivery_state}
use holler.Store.Claiming.{
  claim, claims_row, leased, extend, extend_selected, extend_lease, holds_lease, is_bad_lease,
  is_over, original_field,
}
use holler.Store.Claiming.Inversion.{claim_inv}
use holler.Store.Finishing.{finish, finished}
use holler.Store.Finishing.Inversion.{finish_selected_inv}
use holler.Store.Finishing.Tokens.{finish-selected}
use holler.Store.Tables.Rows.{AllRows-update}
use holler.Store.Transition.States.{FitsState, leased-FitsState, finished-FitsState}
use mathlib.Core.Bool.{and-false}
use holler.Store.Invariant.{
  is_ended, HasEndedRow, same-Keeps, Keeps, Keeps-trans, append_event-Keeps,
}

-- A row that is over stays as it is, unless it is updated.
pub update-ended :
    (seen : DeliveryRow → Bool) (change : DeliveryRow → DeliveryRow) (m r : String)
    (ds : List DeliveryRow)
    → exists_row (λ d. seen d && is_ended d) ds ≡ false
    → HasEndedRow m r ds
    → HasEndedRow m r (update_rows seen change ds)
update-ended seen change m r [] apart h = cc
update-ended seen change m r (d ∷ ds) apart h = elim (Bool-cases (seen d)) [
  | inl e ↦
      let open_row : is_ended d ≡ false = ground arith in
      let rest =
        update-ended seen change m r ds (ground arith)
          (rw (open_row, and-false (is_delivery m r d)) at h) in
      rw (e, rest) (ground arith)
  | inr e ↦ elim (Bool-cases (is_delivery m r d && is_ended d)) [
    | inl here ↦ rw (e, here) refl
    | inr other ↦ rw (e, other) (update-ended seen change m r ds (rw e at apart) (rw other at h))
  ]
]

-- A statement that changes deliveries that are not over, but not their keys.
pub update-Keeps :
    (seen : DeliveryRow → Bool) (change : DeliveryRow → DeliveryRow) (db db' : Db)
    → ((d : DeliveryRow) → (change d).message_id ≡ d.message_id)
    → ((d : DeliveryRow) → (change d).recipient_actor ≡ d.recipient_actor)
    → ((d : DeliveryRow) → seen d ≡ true → FitsState d → FitsState (change d))
    → (IsKeyed db.deliveries → exists_row (λ d. seen d && is_ended d) db.deliveries ≡ false)
    → db'.deliveries ≡ update_rows seen change db.deliveries
    → db'.adoptions ≡ db.adoptions
    → KeepsNumbers db db'
    → Keeps db db'
update-Keeps seen change db db' message recipient fits apart deliveries adoptions numbers = record {
  fitting = λ u h. rw deliveries (AllRows-update FitsState seen change db.deliveries fits h);
  keyed = λ h. rw deliveries (update-IsKeyed seen change message recipient db.deliveries h);
  numbers = numbers;
  unchained = λ h. rw adoptions h;
  sourced = λ h. rw adoptions h;
  ended = λ u m r h. rw deliveries (update-ended seen change m r db.deliveries (apart u) h);
}

pub claim-Keeps :
    (env : Env) (actor wanted : String) (lease : ℕ) (db : Db) (c : Claim) (db' : Db)
    → claim env actor wanted lease db ≡ ok (c, db')
    → Keeps db db'
claim-Keeps env actor wanted lease db c db' h =
    let (m, d, _, _, _, did) = claim_inv env actor wanted lease db c db' h in
    update-Keeps (claims_row env.now m.message_id d.recipient_actor)
      (leased env.now c.lease_token (env.now + lease)) db db' (λ _. unfold leased in refl)
      (λ _. unfold leased in refl)
      (λ x able. leased-FitsState env.now (env.now + lease) c.lease_token x (ground arith))
      (λ _. exists-false _ db.deliveries (λ x. ground arith)) did.deliveries did.adoptions
      did.numbers

-- What is finished now was not over.
finishing-open :
    (d : DeliveryRow) (token : String) (ack final : Bool)
    → finish_delivery_state d.state d.lease_token d.terminal_lease_token token ack final ≡ ok false
    → is_ended d ≡ false
unfolding finish_delivery_state
finishing-open d token ack final h = ground arith

pub finish-Keeps :
    (env : Env) (actor m token : String) (ack final : Bool) (reason : String) (db db' : Db)
    → finish env actor m token ack final reason db ≡ ok db'
    → Keeps db db'
finish-Keeps env actor m token ack final reason db db' h =
    let (_, went) = finish-selected env actor m token ack final reason db db' h in
    let (d, row, _, found, cases) =
      finish_selected_inv env (trim_space actor) (trim_space m) (trim_space token) ack final reason
        db db' went in
    elim cases [
      | inl (_, same) ↦ rw same (same-Keeps db db refl refl refl refl)
      | inr (verdict, did) ↦
          update-Keeps (is_delivery (trim_space m) d.recipient_actor)
            (finished env.now (trim_space token) ack final reason) db db'
            (λ _. unfold finished in refl) (λ _. unfold finished in refl)
            (λ x _ _. finished-FitsState env.now (trim_space token) ack final reason x)
            (λ u.
              exists-key same_delivery (is_delivery (trim_space m) d.recipient_actor) is_ended
                (is_delivery-agree (trim_space m) d.recipient_actor) db.deliveries row
                (IsKeyed-KeyedBy db.deliveries u) found
                (finishing-open row (trim_space token) ack final verdict))
            did.deliveries did.adoptions did.numbers
    ]

extend_selected-Keeps :
    (env : Env) (actor m token : String) (lease : ℕ) (db : Db) (r : LeaseExtension × Db)
    → extend_selected env actor m token lease db ≡ ok r
    → Keeps db r.1
unfolding extend_selected
extend_selected-Keeps env actor m token lease db r h =
    let (original, _, h1) = >>=-eq-ok (effective_delivery_recipient db actor m) _ h in
    let (d, _, h2) =
      >>=-eq-ok (or_fail (find_row (is_delivery m original) db.deliveries) not_found) _ h1 in
    let (_, _, h3) =
      >>=-eq-ok
        (reject (not (is_claimed d.state) || not (holds_token d.lease_token token))
          lease_token_mismatch)
        _ h2 in
    let (_, _, h4) = >>=-eq-ok (reject (is_over env.now d.lease_expires_at) lease_expired) _ h3 in
    let marked : Db = record db {
      deliveries = extend_lease m original token (env.now + lease) db.deliveries;
    } in
    let (msg, _, h5) = >>=-eq-ok (get_message_by_id marked m) _ h4 in
    let payload = some (
      event_provenance env.caller ""
      ++ (("lease_expires_at", number (env.now + lease)) ∷ [])
      ++ original_field actor original) in
    let (noted, ee, h6) =
      >>=-eq-ok
        (append_event env msg.project_id "operational" "delivery.extended" m actor payload marked) _
        h5 in
    let at_end : noted ≡ r.1 = ap (λ (x : LeaseExtension × Db). x.1) (ok-injective h6) in
    rw (← at_end) (
      Keeps-trans db marked noted
        (update-Keeps (holds_lease m original token)
          (λ (x : DeliveryRow). record x { lease_expires_at = some (env.now + lease) }) db marked
          (λ _. refl) (λ _. refl) (λ x claimed fits. ground arith)
          (λ _. exists-false _ db.deliveries (λ x. ground arith)) (unfold extend_lease in refl) refl
          (KeepsNumbers-same db marked refl refl))
        (append_event-Keeps env msg.project_id "operational" "delivery.extended" m actor payload
          marked noted ee))

pub extend-Keeps :
    (env : Env) (actor m token : String) (lease : ℕ) (db : Db) (r : LeaseExtension × Db)
    → extend env actor m token lease db ≡ ok r
    → Keeps db r.1
unfolding extend
extend-Keeps env actor m token lease db r h =
    let (_, _, h1) =
      >>=-eq-ok
        (reject (trim_space actor == "" || trim_space m == "" || trim_space token == "")
          (validation "delivery" "actor, message_id, and lease_token are required"))
        _ h in
    let (_, _, h2) =
      >>=-eq-ok (reject (is_bad_lease lease) (validation "lease" "must be between 0 and 24h")) _
        h1 in
    extend_selected-Keeps env (trim_space actor) (trim_space m) (trim_space token) lease db r h2
