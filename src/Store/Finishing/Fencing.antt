-- ===== src/Store/Finishing/Fencing.antt =====
-- internal/store/sqlite/store.go: a claim fences the tokens before it.
use holler.Prelude.{ℕ, ◌+◌, ◌≡◌, ◌≢◌, ap, ◌∙◌, Bool, true, false, ◌||◌, String, List, arith, ◌==◌}
use mathlib.Core.Option
use holler.Bus.Result.{ok, err, lease_token_mismatch}
use holler.Bus.Text.{trim_space}
use holler.Bus.Types.{Claim}
use holler.Store.Tables.Rows.{changed, find-update}
use holler.Store.Db.{Db, Env, DeliveryRow, AdoptionRow}
use holler.Store.Recipients.{is_delivery, is_candidate}
use holler.Store.Recipients.Keys.{IsKeyed}
use holler.Store.Transition.{finish_delivery_state}
use holler.Store.Claiming.{claim, claims_row, leased, is_claimable}
use holler.Store.Claiming.Inversion.{claim_inv}
use holler.Store.Claiming.Exclusion.{effective_delivery-Claimed, offered-inv}
use holler.Store.Finishing.{finish}
use holler.Store.Finishing.Tokens.{
  effective_delivery-find, finish_selected-refused, finish-of_selected,
}

-- The row that a claim marked refuses every other token.
marked-refuses :
    (now expires : ℕ) (m lease_token token : String) (ack final : Bool) (as' : List AdoptionRow)
    (actor : String) (d : DeliveryRow)
    → is_claimable now d ≡ true
    → is_candidate as' actor m d ≡ true
    → lease_token ≢ token
    → (let row = changed (claims_row now m d.recipient_actor) (leased now lease_token expires) d in
        finish_delivery_state row.state row.lease_token row.terminal_lease_token token ack final)
      ≡ err lease_token_mismatch
unfolding leased finish_delivery_state
marked-refuses now expires m lease_token token ack final as' actor d able mine other = ground arith

pub marked-same :
    (now expires : ℕ) (m original lease_token : String) (d : DeliveryRow)
    → (changed (claims_row now m original) (leased now lease_token expires) d).recipient_actor
      ≡ d.recipient_actor
unfolding leased
marked-same now expires m original lease_token d = ground arith

pub marked-key :
    (now expires : ℕ) (m original lease_token : String) (d : DeliveryRow)
    → is_delivery m original
        (changed (claims_row now m original) (leased now lease_token expires) d)
      ≡ is_delivery m original d
unfolding leased
marked-key now expires m original lease_token d = ground arith

-- After a claim, `Ack` and `Nack` of the message by its actor refuse every token but the one that
-- the claim gave, so a claim that was lost to another cannot be finished. The actor, the message and
-- the token are not blank, and no two deliveries have one message and recipient.
pub claim-fences :
    (env env2 : Env) (actor wanted m token reason : String) (lease : ℕ) (ack final : Bool) (db : Db)
    (c : Claim) (db' : Db)
    → claim env actor wanted lease db ≡ ok (c, db')
    → IsKeyed db.deliveries
    → trim_space m ≡ c.message.id
    → (trim_space actor == "" || trim_space m == "" || trim_space token == "") ≡ false
    → c.lease_token ≢ trim_space token
    → finish env2 actor m token ack final reason db' ≡ err lease_token_mismatch
claim-fences env env2 actor wanted m token reason lease ack final db c db' h keyed at named other =
    let (row, d, cand, eff, _, did) = claim_inv env actor wanted lease db c db' h in
    let id = row.message_id in
    let who = trim_space actor in
    let (able, mine) = offered-inv db who (trim_space wanted) env.now row d cand eff in
    let mark =
      changed (claims_row env.now id d.recipient_actor)
        (leased env.now c.lease_token (env.now + lease)) in
    let after =
      effective_delivery-Claimed env who id d.recipient_actor (env.now + lease) db c db' did who
        id in
    let same : trim_space m ≡ id = at ∙ did.message in
    finish-of_selected env2 actor m token ack final reason db' (err lease_token_mismatch) named (
      rw same (
        finish_selected-refused env2 who id (trim_space token) d.recipient_actor ack final reason
          db' (mark d) (mark d) (after ∙ ap (Option.map mark) eff)
          (marked-same env.now (env.now + lease) id d.recipient_actor c.lease_token d)
          (rw did.deliveries (
            find-update (claims_row env.now id d.recipient_actor)
              (leased env.now c.lease_token (env.now + lease)) (is_delivery id d.recipient_actor)
              db.deliveries
              (marked-key env.now (env.now + lease) id d.recipient_actor c.lease_token)
            ∙ ap (Option.map mark) (effective_delivery-find db who id d keyed eff)))
          (marked-refuses env.now (env.now + lease) id c.lease_token (trim_space token) ack final
            db.adoptions who d able mine other)))
