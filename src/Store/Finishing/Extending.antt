-- ===== src/Store/Finishing/Extending.antt =====
-- internal/store/sqlite/store.go: `Extend` after a claim.
use holler.Prelude.{ℕ, ◌+◌, ◌≡◌, ◌≢◌, ◌≤◌, ap, ◌∙◌, true, false, ◌||◌, String, some, arith, ◌==◌}
use mathlib.Core.Option
use holler.Bus.Result.{ok, err, lease_token_mismatch, lease_expired}
use holler.Bus.Text.{trim_space}
use holler.Bus.Types.{Claim}
use holler.Store.Tables.{find_row}
use holler.Store.Tables.Rows.{changed, find-update}
use holler.Store.Db.{Db, Env, DeliveryRow}
use holler.Store.Transition.{is_claimed}
use holler.Store.Recipients.{effective_delivery_recipient, is_delivery}
use holler.Store.Recipients.Keys.{IsKeyed}
use holler.Store.Claiming.{claim, claims_row, leased, is_bad_lease, extend, extend_selected}
use holler.Store.Claiming.Inversion.{claim_inv}
use holler.Store.Claiming.Exclusion.{effective_delivery-Claimed, offered-inv}
use holler.Store.Finishing.Tokens.{effective_delivery-find}
use holler.Store.Finishing.Fencing.{marked-same, marked-key}

-- What a claim leaves for the next call of its actor: the row of the delivery.
claim-row :
    (env : Env) (actor wanted : String) (lease : ℕ) (db : Db) (c : Claim) (db' : Db)
    → claim env actor wanted lease db ≡ ok (c, db')
    → IsKeyed db.deliveries
    → (original : String) × (row : DeliveryRow) × (effective_delivery_recipient db'
          (trim_space actor)
          c.message.id
        ≡ ok original)
      × (find_row (is_delivery c.message.id original) db'.deliveries ≡ some row)
      × (is_claimed row.state ≡ true)
      × (row.lease_token ≡ some c.lease_token)
      × (row.lease_expires_at ≡ some c.lease_expires_at)
unfolding effective_delivery_recipient
claim-row env actor wanted lease db c db' h keyed =
    let (m, d, cand, eff, _, did) = claim_inv env actor wanted lease db c db' h in
    let id = m.message_id in
    let who = trim_space actor in
    let (able, mine) = offered-inv db who (trim_space wanted) env.now m d cand eff in
    let mark =
      changed (claims_row env.now id d.recipient_actor)
        (leased env.now c.lease_token (env.now + lease)) in
    let after =
      effective_delivery-Claimed env who id d.recipient_actor (env.now + lease) db c db' did who
        id in
    (
      d.recipient_actor,
      mark d,
      rw (did.message, after, eff)
          (ap ok (marked-same env.now (env.now + lease) id d.recipient_actor c.lease_token d)),
      rw (did.message, did.deliveries)
          (find-update (claims_row env.now id d.recipient_actor)
              (leased env.now c.lease_token (env.now + lease)) (is_delivery id d.recipient_actor)
              db.deliveries
              (marked-key env.now (env.now + lease) id d.recipient_actor c.lease_token)
            ∙ ap (Option.map mark) (effective_delivery-find db who id d keyed eff)),
      unfold leased in ground arith,
      unfold leased in ground arith,
      unfold leased in ground (arith, did.lease_end),
    )

module _ (env env2 : Env) (actor wanted m token : String) (lease lease2 : ℕ) (db : Db) (c : Claim)
    (db' : Db) (claimed : claim env actor wanted lease db ≡ ok (c, db'))
    (keyed : IsKeyed db.deliveries) (at : trim_space m ≡ c.message.id)
    (named : (trim_space actor == "" || trim_space m == "" || trim_space token == "") ≡ false)
    (fine : is_bad_lease lease2 ≡ false) where
  -- After a claim, `Extend` refuses every token but the one that the claim gave. The lease asked for
  -- is a valid one, the actor, the message and the token are not blank, and no two deliveries have
  -- one message and recipient.
  pub extend-fenced :
      c.lease_token ≢ trim_space token
      → extend env2 actor m token lease2 db' ≡ err lease_token_mismatch
  unfolding extend extend_selected
  extend-fenced other =
      let (original, row, eff, found, state, held, ends) =
        claim-row env actor wanted lease db c db' claimed keyed in
      rw (named, fine, at, eff, found, state, held) (ground arith)

  -- After a claim, `Extend` under its token does not revive a lease that has ended. The lease asked for
  -- is a valid one, the actor, the message and the token are not blank, and no two deliveries have
  -- one message and recipient.
  pub extend-over :
      c.lease_token ≡ trim_space token
      → c.lease_expires_at ≤ env2.now
      → extend env2 actor m token lease2 db' ≡ err lease_expired
  unfolding extend extend_selected
  extend-over holder late =
      let (original, row, eff, found, state, held, ends) =
        claim-row env actor wanted lease db c db' claimed keyed in
      rw (named, fine, at, eff, found, state, held, ends) (ground arith)
