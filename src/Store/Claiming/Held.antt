-- ===== src/Store/Claiming/Held.antt =====
-- internal/store/sqlite/store.go: a lease keeps its delivery from every other claim until it ends.
use holler.Prelude.{
  ℕ, ◌+◌, ◌<◌, ◌≡◌, refl, sym, ap, ◌∙◌, Bool, true, false, ◌&&◌, String, some, List, arith,
}
use mathlib.Core.Option.{some-injective}
use holler.Bus.Result.{ok}
use holler.Bus.Text.{trim_space}
use holler.Bus.Types.{Claim}
use holler.Store.Tables.{exists_row, update_rows}
use holler.Store.Tables.Keyed.{exists-only, exists-taken, find-exists, exists-kept}
use holler.Store.Tables.Rows.{find-holds}
use holler.Store.Db.{Db, Env, DeliveryRow}
use holler.Store.Recipients.{effective_delivery, is_delivery}
use holler.Store.Recipients.Keys.{IsKeyed, IsKeyed-KeyedBy, same_delivery, is_delivery-agree}
use holler.Store.Claiming.{claim, claims_row, leased, is_claimable}
use holler.Store.Claiming.Inversion.{claim_inv}
use holler.Store.Claiming.Exclusion.{offered-inv, claim-misses}
use holler.Store.Finishing.Tokens.{effective_delivery-find}

-- What may happen while a lease runs that ends at `until`: claims by anyone, and whatever leaves the
-- deliveries alone, such as a registration, an alias or an adoption.
pub data LeaseStep (until : ℕ) (db db' : Db) : Type 0 where
  claims :
      (env : Env) (actor wanted : String) (lease : ℕ) (c : Claim)
      → env.now < until
      → claim env actor wanted lease db ≡ ok (c, db')
      → LeaseStep until db db'
  elsewhere : db'.deliveries ≡ db.deliveries → LeaseStep until db db'

pub data LeasePath (until : ℕ) (db : Db) : Db → Type 0 where
  here : LeasePath until db db
  after : {db1 db2 : Db} → LeasePath until db db1 → LeaseStep until db1 db2 → LeasePath until db db2

module _ (m r : String) where
  abbrev is_open : ℕ → DeliveryRow → Bool
  is_open t d = is_delivery m r d && is_claimable t d

  -- No row of the delivery can be claimed before the time.
  abbrev Held : ℕ → List DeliveryRow → Type 0
  Held until ds = (t : ℕ) → t < until → exists_row (is_open t) ds ≡ false

  -- A claim at a time when the delivery is held changes no row of it.
  leased-open :
      (now t expires : ℕ) (id original token : String) (ds : List DeliveryRow)
      → exists_row (is_open now) ds ≡ false
      → exists_row (is_open t) ds ≡ false
      → exists_row
          (is_open t)
          (update_rows (claims_row now id original) (leased now token expires) ds)
        ≡ false
  unfolding leased
  leased-open now t expires id original token ds =
      exists-kept (claims_row now id original) (is_open now) (is_open t) (leased now token expires)
        ds (λ d hit out. let apart : is_delivery m r d ≡ false = ground arith in rw apart refl)

  LeasePath-Held :
      (until : ℕ) (db db' : Db)
      → LeasePath until db db'
      → Held until db.deliveries
      → Held until db'.deliveries
  LeasePath-Held until db db' here held = held
  LeasePath-Held until db db' (after {db1} past (claims env actor wanted lease c early h)) held =
      let before = LeasePath-Held until db db1 past held in
      let (row, d, _, _, _, did) = claim_inv env actor wanted lease db1 c db' h in
      λ t soon. rw did.deliveries (
        leased-open env.now t (env.now + lease) row.message_id d.recipient_actor c.lease_token
          db1.deliveries (before env.now early) (before t soon))
  LeasePath-Held until db db' (after {db1} past (elsewhere same)) held =
      rw same (LeasePath-Held until db db1 past held)

  -- A claim of the delivery holds it until the lease ends.
  claimed-Held :
      (now expires : ℕ) (token : String) (ds : List DeliveryRow)
      → IsKeyed ds
      → exists_row (claims_row now m r) ds ≡ true
      → Held expires (update_rows (claims_row now m r) (leased now token expires) ds)
  unfolding leased
  claimed-Held now expires token ds keyed some_row t early =
      exists-taken (is_delivery m r) (claims_row now m r) (is_open t) (leased now token expires)
        (λ d e. ground arith) (λ d e. ground arith) ds
        (exists-only same_delivery (is_delivery m r) (claims_row now m r) (is_delivery-agree m r)
          (λ d e. ground arith) ds (IsKeyed-KeyedBy ds keyed) some_row)

-- After a claim took a delivery, whatever claims are made and whatever else is done that leaves the
-- deliveries alone, a claim by any actor, named or not, that is made before the lease's end takes
-- another delivery, if it takes one. No two deliveries have one message and recipient.
pub claim_excludes :
    (env env2 : Env) (actor wanted who wanted2 : String) (lease lease2 : ℕ) (db db1 db2 db3 : Db)
    (c c2 : Claim) (d e : DeliveryRow)
    → IsKeyed db.deliveries
    → claim env actor wanted lease db ≡ ok (c, db1)
    → effective_delivery db (trim_space actor) c.message.id ≡ some d
    → LeasePath c.lease_expires_at db1 db2
    → env2.now < c.lease_expires_at
    → claim env2 who wanted2 lease2 db2 ≡ ok (c2, db3)
    → effective_delivery db2 (trim_space who) c2.message.id ≡ some e
    → is_delivery c.message.id d.recipient_actor e ≡ false
claim_excludes env env2 actor wanted who wanted2 lease lease2 db db1 db2 db3 c c2 d e keyed h eff
      path early again eff2 =
    let (row, own, cand, at, _, did) = claim_inv env actor wanted lease db c db1 h in
    let (able, _) = offered-inv db (trim_space actor) (trim_space wanted) env.now row own cand at in
    let same : own ≡ d =
      some-injective _ _
        (sym (ap (effective_delivery db (trim_space actor)) did.message ∙ at) ∙ eff) in
    let found = effective_delivery-find db (trim_space actor) row.message_id own keyed at in
    let mine =
      find-holds (is_delivery row.message_id own.recipient_actor) db.deliveries own found in
    let held : Held row.message_id own.recipient_actor (env.now + lease) db1.deliveries =
      rw did.deliveries (
        claimed-Held row.message_id own.recipient_actor env.now (env.now + lease) c.lease_token
          db.deliveries keyed
          (find-exists (claims_row env.now row.message_id own.recipient_actor) _ db.deliveries own
            found (ground arith))) in
    let first : Held c.message.id d.recipient_actor c.lease_expires_at db1.deliveries =
      rw (did.message, did.lease_end, ← same) held in
    claim-misses env2 who wanted2 c.message.id d.recipient_actor lease2 db2 c2 db3 e again eff2 (
      LeasePath-Held c.message.id d.recipient_actor c.lease_expires_at db1 db2 path first env2.now
        early)
