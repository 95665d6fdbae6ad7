-- ===== src/Store/Lifecycle/Revoked.antt =====
-- internal/store/sqlite/lifecycle.go: what `RevokeDeliveryLease` leaves of the delivery.
use holler.Prelude.{
  ℕ, ◌+◌, ◌≡◌, refl, sym, ap, subst, ◌∙◌, String, Bool, true, false, ◌||◌, some, arith, ltb, eqb,
  ◌==◌,
}
use mathlib.Core.Option
use holler.Bus.Result.{
  ok, err, >>=-eq-ok, ok-injective, reject, reject-eq-ok, or_fail, or_fail-eq-ok, not_found,
  actor_live, failure, delivery_terminal,
}
use holler.Bus.Text.{trim_space}
use holler.Store.Tables.{find_row}
use holler.Store.Tables.Rows.{changed, find-update, find-holds}
use holler.Store.Db.{Db, Env, DeliveryRow, MessageRow}
use holler.Store.Recipients.{effective_delivery, effective_delivery_recipient, is_delivery}
use holler.Store.Recipients.Keys.{IsKeyed}
use holler.Store.Recipients.Updates.{effective_delivery-update}
use holler.Store.Transition.{finish_delivery_state}
use holler.Store.Adoption.{actor_has_live_presence}
use holler.Store.Claiming.{is_claimable, claim_candidate, is_offered, is_older}
use holler.Store.Messages.{has_id, legacy_messages, is_unexpired}
use holler.Store.Reading.Offers.{offers}
use holler.Store.Tables.Queries.{first-exists}
use holler.Store.Tables.Keyed.{find-exists}
use holler.Bus.Text.{same_text-equal}
use holler.Prelude.{is_some}
use holler.Store.Finishing.{finish, finish_selected}
use holler.Store.Finishing.Tokens.{effective_delivery-find, finish-of_selected}
use holler.Store.Lifecycle.Revoking.{is_revocable, revoked_row, revoked_db, revoke_delivery_lease}

-- The delivery that was revoked.
pub record Revoked (env : Env) (actor message_id : String) (grace : ℕ) (db db' : Db) : Type 0 where
  pub row : DeliveryRow
  pub token : String
  pub claimed_at : ℕ
  pub found : find_row (is_revocable env.now message_id actor) db.deliveries ≡ some row
  pub held : row.lease_token ≡ some token
  pub since : row.claimed_at ≡ some claimed_at
  pub absent : actor_has_live_presence db actor env.now ≡ false
  pub waited : ltb env.now (claimed_at + grace) ≡ false
  pub tables : db' ≡ revoked_db env.now message_id actor db

pub revoke_inv :
    (env : Env) (actor message_id : String) (grace : ℕ) (db db' : Db)
    → revoke_delivery_lease env actor message_id grace db ≡ ok db'
    → Revoked env actor message_id grace db db'
unfolding revoke_delivery_lease
revoke_inv env actor message_id grace db db' h =
    let (_, _, h1) = >>=-eq-ok (reject (eqb grace 0) _) _ h in
    let (_, absent, h2) =
      >>=-eq-ok (reject (actor_has_live_presence db actor env.now) actor_live) _ h1 in
    let (d, found, h3) =
      >>=-eq-ok (or_fail (find_row (is_revocable env.now message_id actor) db.deliveries) not_found)
        _ h2 in
    let (token, held, h4) = >>=-eq-ok (or_fail d.lease_token (failure "scan lease token")) _ h3 in
    let (since, at, h5) = >>=-eq-ok (or_fail d.claimed_at (failure "scan claim time")) _ h4 in
    let (_, waited, h6) = >>=-eq-ok (reject (ltb env.now (since + grace)) _) _ h5 in
    record {
      row = d;
      token = token;
      claimed_at = since;
      found = or_fail-eq-ok _ not_found found;
      held = or_fail-eq-ok d.lease_token (failure "scan lease token") held;
      since = or_fail-eq-ok d.claimed_at (failure "scan claim time") at;
      absent = reject-eq-ok (actor_has_live_presence db actor env.now) actor_live absent;
      waited = reject-eq-ok (ltb env.now (since + grace)) _ waited;
      tables = sym (ok-injective h6);
    }

-- The transition table refuses the token of a row that was revoked.
revoked-terminal :
    (d : DeliveryRow) (token : String) (ack final : Bool)
    → d.lease_token ≡ some token
    → (let row = revoked_row d in
        finish_delivery_state row.state row.lease_token row.terminal_lease_token token ack final)
      ≡ err delivery_terminal
unfolding revoked_row finish_delivery_state
revoked-terminal d token ack final held = ground arith

revoked-claimable : (d : DeliveryRow) (now : ℕ) → is_claimable now (revoked_row d) ≡ true
unfolding revoked_row
revoked-claimable d now = refl

module _ (db : Db) (actor m : String) (now : ℕ) (d : DeliveryRow) (keyed : IsKeyed db.deliveries)
    (own : d.recipient_actor ≡ actor) where
  abbrev after_revoke : DeliveryRow → DeliveryRow
  after_revoke = changed (is_delivery m actor) revoked_row

  module _ (who : String) (eff : effective_delivery db who m ≡ some d) where
    found-before : find_row (is_delivery m actor) db.deliveries ≡ some d
    found-before =
        subst (λ (x : String). find_row (is_delivery m x) db.deliveries ≡ some d) own
          (effective_delivery-find db who m d keyed eff)

    after-same : after_revoke d ≡ revoked_row d
    after-same =
        let mine = find-holds (is_delivery m actor) db.deliveries d found-before in ground arith

    revoked-effective : effective_delivery (revoked_db now m actor db) who m ≡ some (revoked_row d)
    unfolding revoked_db revoked_row
    revoked-effective =
        effective_delivery-update (is_delivery m actor) revoked_row (λ _. refl) (λ _. refl) db
          (revoked_db now m actor db) refl refl who m
        ∙ ap (Option.map after_revoke) eff
        ∙ ap some after-same

    revoked-found :
        find_row (is_delivery m actor) (revoked_db now m actor db).deliveries ≡ some (revoked_row d)
    unfolding revoked_db revoked_row
    revoked-found =
        find-update (is_delivery m actor) revoked_row (is_delivery m actor) db.deliveries
          (λ a. ground arith)
        ∙ ap (Option.map after_revoke) found-before
        ∙ ap some after-same

-- The message of an operator's revocation is on offer again, if it has not expired.
revoked-offered :
    (db : Db) (actor who m : String) (now later : ℕ) (d : DeliveryRow) (row : MessageRow)
    → effective_delivery (revoked_db now m actor db) who m ≡ some (revoked_row d)
    → find_row (has_id m) (legacy_messages db) ≡ some row
    → is_unexpired later row ≡ true
    → (m == "") ≡ false
    → is_some (claim_candidate (revoked_db now m actor db) who m later) ≡ true
unfolding claim_candidate
revoked-offered db actor who m now later d row eff found fresh named =
    let db' = revoked_db now m actor db in
    let here : find_row (has_id m) (legacy_messages db') ≡ some row = unfold revoked_db in found in
    let same =
      same_text-equal row.message_id m (find-holds (has_id m) (legacy_messages db') row here) in
    first-exists (is_offered db' who m later) is_older (legacy_messages db')
    ∙ offers db' who m later row (revoked_row d)
        (fresh, λ test e. find-exists test (has_id m) (legacy_messages db') row here e)
        (ap (effective_delivery db' who) same ∙ eff) same named
    ∙ revoked-claimable d later

-- An operator revokes the lease of a delivery only while no session of its recipient is live. Right after
-- it, Ack and Nack by whoever handles the delivery refuse the token of the lease that was revoked, as
-- ended, and Claim finds the message again at every time before it expires. The actor, the message and
-- the token are not blank, the message is a legacy one, and no two deliveries have one message and
-- recipient.
pub revoke-fences :
    (env env2 : Env) (actor who message token reason : String) (grace later : ℕ) (ack final : Bool)
    (db db' : Db) (d : DeliveryRow) (row : MessageRow)
    → revoke_delivery_lease env actor (trim_space message) grace db ≡ ok db'
    → IsKeyed db.deliveries
    → (trim_space who == "" || trim_space message == "" || trim_space token == "") ≡ false
    → effective_delivery db (trim_space who) (trim_space message) ≡ some d
    → d.recipient_actor ≡ actor
    → d.lease_token ≡ some (trim_space token)
    → find_row (has_id (trim_space message)) (legacy_messages db) ≡ some row
    → is_unexpired later row ≡ true
    → (actor_has_live_presence db actor env.now ≡ false)
      × (finish env2 who message token ack final reason db' ≡ err delivery_terminal)
      × (is_some (claim_candidate db' (trim_space who) (trim_space message) later) ≡ true)
unfolding finish_selected effective_delivery_recipient
revoke-fences env env2 actor who message token reason grace later ack final db db' d row h keyed
      named eff own held stored fresh =
    let did = revoke_inv env actor (trim_space message) grace db db' h in
    let m = trim_space message in
    let after = revoked-effective db actor m env.now d keyed own (trim_space who) eff in
    let there = revoked-found db actor m env.now d keyed own (trim_space who) eff in
    let same : (revoked_row d).recipient_actor ≡ actor = unfold revoked_row in own in
    (
      did.absent,
      rw did.tables (
          finish-of_selected env2 who message token ack final reason (revoked_db env.now m actor db)
            (err delivery_terminal) named
            (rw (after, same, there, revoked-terminal d (trim_space token) ack final held) refl)),
      rw did.tables (
          revoked-offered db actor (trim_space who) m env.now later d row after stored fresh
            (ground arith)),
    )
