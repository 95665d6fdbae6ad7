-- ===== src/Store/Invariant/Endings.antt =====
-- internal/store/sqlite: when a delivery can be claimed, and when it never can again, whatever the
-- store does between.
use holler.Prelude.{
  ℕ, ◌≡◌, refl, sym, ap, subst, ◌∙◌, String, Bool, true, false, ◌&&◌, ◌||◌, not, some, List, arith,
  ◌==◌, inl, inr, is_some,
}
use mathlib.Core.Option
use mathlib.Core.Option.{some-injective}
use holler.Bus.Result.{ok}
use holler.Bus.Text.{trim_space, same_text-equal}
use holler.Bus.Types.{Claim}
use holler.Store.Db.{Db, Env, MessageRow, DeliveryRow}
use holler.Store.Tables.{find_row, exists_row}
use holler.Store.Tables.Rows.{AllRows-find, find-holds}
use holler.Store.Tables.Keyed.{exists-only, exists-weaken, find-exists}
use holler.Store.Tables.Queries.{first-exists}
use holler.Store.Messages.{has_id, legacy_messages, is_unexpired}
use holler.Store.Recipients.{effective_delivery, is_delivery}
use holler.Store.Recipients.Keys.{IsKeyed, same_delivery, IsKeyed-KeyedBy, is_delivery-agree}
use holler.Store.Adoption.{is_running}
use holler.Store.Transition.{finish_delivery_state}
use holler.Store.Transition.States.{FitsState}
use holler.Store.Claiming.{claim, claim_candidate, is_claimable, is_offered, is_older}
use holler.Store.Claiming.Exclusion.{claim-misses}
use holler.Store.Finishing.{finish, finish_selected, finished}
use holler.Store.Finishing.Inversion.{finish_selected_inv}
use holler.Store.Finishing.Tokens.{
  effective_delivery-find, finish-selected, after_finish, finished-found,
}
use holler.Store.Reading.Offers.{offers}
use holler.Store.Invariant.{is_ended, HasEndedRow}
use holler.Store.Invariant.Histories.{
  History, History-IsSound, StorePath, StorePath-History, StorePath-ended, then_step, finishes,
}

rested-claimable :
    (now : ℕ) (d : DeliveryRow)
    → FitsState d
    → is_ended d ≡ false
    → is_running now d.lease_expires_at ≡ false
    → is_claimable now d ≡ true
rested-claimable now d fits open_row idle = ground arith

-- After any sequence of the operations from the empty database on, Claim finds a message that the actor
-- asks for, as soon as the delivery of it that the actor handles is neither over nor under a lease that
-- runs: none is stuck. The message is a legacy one that has not expired, and its identifier is not empty.
pub History-claimable :
    (now : ℕ) (actor id : String) (db : Db) (m : MessageRow) (d : DeliveryRow)
    → History db
    → find_row (has_id id) (legacy_messages db) ≡ some m
    → is_unexpired now m ≡ true
    → (id == "") ≡ false
    → effective_delivery db actor id ≡ some d
    → is_ended d ≡ false
    → is_running now d.lease_expires_at ≡ false
    → is_some (claim_candidate db actor id now) ≡ true
unfolding claim_candidate
History-claimable now actor id db m d past found fresh named eff open_row idle =
    let sound = History-IsSound past in
    let at = effective_delivery-find db actor id d sound.keyed eff in
    let fits =
      AllRows-find FitsState (is_delivery id d.recipient_actor) db.deliveries d sound.fitting at in
    let same : m.message_id ≡ id =
      same_text-equal m.message_id id (find-holds (has_id id) (legacy_messages db) m found) in
    first-exists (is_offered db actor id now) is_older (legacy_messages db)
    ∙ offers db actor id now m d
        (fresh, λ test e. find-exists test (has_id id) (legacy_messages db) m found e)
        (ap (effective_delivery db actor) same ∙ eff) same named
    ∙ rested-claimable now d fits open_row idle

-- What the transition table takes for made already is over.
repeated-ended :
    (d : DeliveryRow) (token : String) (ack final : Bool)
    → finish_delivery_state d.state d.lease_token d.terminal_lease_token token ack final ≡ ok true
    → is_ended d ≡ true
unfolding finish_delivery_state
repeated-ended d token ack final h = ground arith

after_finish-ended :
    (now : ℕ) (m r token : String) (ack final : Bool) (reason : String) (d : DeliveryRow)
    → is_delivery m r d ≡ true
    → (ack || final) ≡ true
    → is_ended (after_finish now m r token ack final reason d) ≡ true
unfolding finished
after_finish-ended now m r token ack final reason d mine over = ground arith

after_finish-key :
    (now : ℕ) (m r token : String) (ack final : Bool) (reason : String) (d : DeliveryRow)
    → is_delivery m r (after_finish now m r token ack final reason d) ≡ is_delivery m r d
unfolding finished
after_finish-key now m r token ack final reason d = ground arith

-- A transition that ends the delivery has its row ended.
finish-HasEndedRow :
    (env : Env) (actor m token : String) (ack final : Bool) (reason : String) (db db' : Db)
    (d : DeliveryRow)
    → finish_selected env actor m token ack final reason db ≡ ok db'
    → (ack || final) ≡ true
    → effective_delivery db actor m ≡ some d
    → HasEndedRow m d.recipient_actor db'.deliveries
finish-HasEndedRow env actor m token ack final reason db db' d h over eff =
    let (own, row, at, found, cases) =
      finish_selected_inv env actor m token ack final reason db db' h in
    let r = own.recipient_actor in
    let same : own ≡ d = some-injective _ _ (sym at ∙ eff) in
    let mine = find-holds (is_delivery m r) db.deliveries row found in
    let ended = λ (x : DeliveryRow). is_delivery m r x && is_ended x in
    subst (λ (x : DeliveryRow). HasEndedRow m x.recipient_actor db'.deliveries) same
      (elim cases [
        | inl (verdict, unchanged) ↦
            let over_row = repeated-ended row token ack final verdict in
            rw unchanged (
              find-exists ended (is_delivery m r) db.deliveries row found
                (rw (mine, over_row) refl))
        | inr (_, did) ↦
            let last = after_finish env.now m r token ack final reason row in
            let at_end : find_row (is_delivery m r) db'.deliveries ≡ some last =
              finished-found env.now m r token ack final reason db db' did
              ∙ ap (Option.map (after_finish env.now m r token ack final reason)) found in
            let key = after_finish-key env.now m r token ack final reason row ∙ mine in
            let over_row = after_finish-ended env.now m r token ack final reason row mine over in
            find-exists ended (is_delivery m r) db'.deliveries last at_end (rw (key, over_row) refl)
      ])

-- No row of a delivery that is over can be claimed, at any time.
ended-unclaimable :
    (now : ℕ) (m r : String) (ds : List DeliveryRow)
    → IsKeyed ds
    → HasEndedRow m r ds
    → exists_row (λ x. is_delivery m r x && is_claimable now x) ds ≡ false
ended-unclaimable now m r ds keyed h =
    let ended = λ (x : DeliveryRow). is_delivery m r x && is_ended x in
    exists-weaken (λ x. is_delivery m r x && is_claimable now x)
      (λ x. is_delivery m r x && not (ended x)) ds (λ x e. ground arith)
      (exists-only same_delivery (is_delivery m r) ended (is_delivery-agree m r)
        (λ x e. ground arith) ds (IsKeyed-KeyedBy ds keyed) h)

-- A delivery that was acknowledged or finally refused is over: after any further sequence of the
-- operations, a claim by any actor, named or not, at any time and with any lease takes another delivery,
-- if it takes one.
pub finish-ends :
    (env env2 : Env) (actor m token : String) (ack final : Bool) (reason who wanted : String)
    (lease : ℕ) (db db1 db2 db3 : Db) (c : Claim) (d e : DeliveryRow)
    → History db
    → finish env actor m token ack final reason db ≡ ok db1
    → (ack || final) ≡ true
    → effective_delivery db (trim_space actor) (trim_space m) ≡ some d
    → StorePath db1 db2
    → claim env2 who wanted lease db2 ≡ ok (c, db3)
    → effective_delivery db2 (trim_space who) c.message.id ≡ some e
    → is_delivery (trim_space m) d.recipient_actor e ≡ false
finish-ends env env2 actor m token ack final reason who wanted lease db db1 db2 db3 c d e past h
      over eff path again eff2 =
    let (_, went) = finish-selected env actor m token ack final reason db db1 h in
    let past1 = then_step past (finishes env actor m token ack final reason h) in
    let id = trim_space m in
    let over1 =
      finish-HasEndedRow env (trim_space actor) id (trim_space token) ack final reason db db1 d went
        over eff in
    let over2 = StorePath-ended db1 db2 id d.recipient_actor past1 path over1 in
    let keyed = (History-IsSound (StorePath-History past1 path)).keyed in
    claim-misses env2 who wanted id d.recipient_actor lease db2 c db3 e again eff2
      (ended-unclaimable env2.now id d.recipient_actor db2.deliveries keyed over2)
