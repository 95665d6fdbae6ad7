-- ===== src/Store/Claiming/Exclusion.antt =====
-- internal/store/sqlite/store.go: what a claim makes of the deliveries that an actor handles, and
-- what it cannot take.
use holler.Store.Tables.{exists_row}
use holler.Store.Recipients.{is_delivery}
use holler.Store.Recipients.Keys.{first-InRows, exists-InRows}
use holler.Prelude.{
  sym, ap, ◌&&◌, ℕ, ◌≡◌, refl, ◌∙◌, Bool, true, false, String, none, some, List, [], ◌∷◌, arith,
  Bool-cases, inl, inr,
}
use mathlib.Core.Option
use mathlib.Core.Option.{some-injective}
use holler.Bus.Result.{ok}
use holler.Bus.Text.{trim_space}
use holler.Bus.Types.{Claim}
use holler.Store.Tables.{select_rows, first_row}
use holler.Store.Tables.Rows.{changed, first-update, first-select}
use holler.Store.Db.{Db, Env, MessageRow, DeliveryRow, AdoptionRow}
use holler.Store.Messages.{legacy_messages}
use holler.Store.Recipients.{effective_delivery, preferred, is_candidate}
use holler.Store.Claiming.{
  claim, claim_candidate, claims_row, leased, is_offered, is_claimable, is_older,
}
use holler.Store.Claiming.Inversion.{Claimed, claim_inv}

module _ (env : Env) (message_id original token : String) (expires : ℕ) where
  leased-same :
      (as' : List AdoptionRow) (actor m : String) (d : DeliveryRow)
      → is_candidate as' actor m
          (changed (claims_row env.now message_id original) (leased env.now token expires) d)
        ≡ is_candidate as' actor m d
  unfolding leased
  leased-same as' actor m d = ground arith

  leased-order :
      (as' : List AdoptionRow) (actor : String) (d e : DeliveryRow)
      → preferred as' actor
          (changed (claims_row env.now message_id original) (leased env.now token expires) d)
          (changed (claims_row env.now message_id original) (leased env.now token expires) e)
        ≡ preferred as' actor d e
  unfolding leased preferred
  leased-order as' actor d e = elim (Bool-cases (claims_row env.now message_id original d)) [
    | inl p ↦ elim (Bool-cases (claims_row env.now message_id original e)) [
      | inl q ↦ rw (p, q)
      | inr q ↦ rw (p, q)
    ]
    | inr p ↦ elim (Bool-cases (claims_row env.now message_id original e)) [
      | inl q ↦ rw (p, q)
      | inr q ↦ rw (p, q)
    ]
  ]

-- After a claim an actor handles the same deliveries, the claimed one among them marked.
pub effective_delivery-Claimed :
    (env : Env) (actor message_id original : String) (expires : ℕ) (db : Db) (c : Claim) (db' : Db)
    → Claimed env actor message_id original expires db c db'
    → (who m : String)
    → effective_delivery db' who m
      ≡ Option.map
          (changed (claims_row env.now message_id original) (leased env.now c.lease_token expires))
          (effective_delivery db who m)
unfolding effective_delivery
effective_delivery-Claimed env actor message_id original expires db c db' d who m =
    rw (d.deliveries, d.adoptions)
      (first-update (claims_row env.now message_id original) (leased env.now c.lease_token expires)
        (is_candidate db.adoptions who m) (preferred db.adoptions who) db.deliveries
        (leased-same env message_id original c.lease_token expires db.adoptions who m)
        (leased-order env message_id original c.lease_token expires db.adoptions who))

pub select-none :
    (test : MessageRow → Bool) (ms : List MessageRow)
    → ((m : MessageRow) → test m ≡ false)
    → first_row is_older (select_rows test ms) ≡ none
select-none test [] h = refl
select-none test (m ∷ ms) h = ground (arith, h m, select-none test ms h)

pub offered-inv :
    (db : Db) (actor wanted : String) (now : ℕ) (m : MessageRow) (d : DeliveryRow)
    → claim_candidate db actor wanted now ≡ some m
    → effective_delivery db actor m.message_id ≡ some d
    → (is_claimable now d ≡ true) × (is_candidate db.adoptions actor m.message_id d ≡ true)
unfolding claim_candidate
offered-inv db actor wanted now m d h e =
    let offered = first-select (is_offered db actor wanted now) is_older (legacy_messages db) m h in
    (
      unfold is_offered in ground (arith, offered, e),
      unfold effective_delivery in
          first-select (is_candidate db.adoptions actor m.message_id) (preferred db.adoptions actor)
            db.deliveries d e,
    )

-- A claim takes no delivery of which no row can be claimed.
pub claim-misses :
    (env : Env) (who wanted m r : String) (lease : ℕ) (db : Db) (c : Claim) (db' : Db)
    (e : DeliveryRow)
    → claim env who wanted lease db ≡ ok (c, db')
    → effective_delivery db (trim_space who) c.message.id ≡ some e
    → exists_row (λ x. is_delivery m r x && is_claimable env.now x) db.deliveries ≡ false
    → is_delivery m r e ≡ false
claim-misses env who wanted m r lease db c db' e h eff none_open =
    let (row, d, cand, at, _, did) = claim_inv env who wanted lease db c db' h in
    let (able, mine) = offered-inv db (trim_space who) (trim_space wanted) env.now row d cand at in
    let here = ap (effective_delivery db (trim_space who)) did.message ∙ at in
    let same : d ≡ e = some-injective _ _ (sym here ∙ eff) in
    let among =
      first-InRows (preferred db.adoptions (trim_space who))
        (is_candidate db.adoptions (trim_space who) c.message.id) db.deliveries e
        (unfold effective_delivery in eff) in
    let stuck = exists-InRows _ db.deliveries e among none_open in
    let open_row : is_claimable env.now e ≡ true = ap (is_claimable env.now) (sym same) ∙ able in
    ground arith
