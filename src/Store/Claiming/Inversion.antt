-- ===== src/Store/Claiming/Inversion.antt =====
-- internal/store/sqlite/store.go: what a successful `Claim` has done.
use holler.Prelude.{
  ℕ, ◌+◌, ◌≡◌, refl, sym, ap, ◌∙◌, false, String, some, eqb, arith, ◌==◌, Option-cases, inl, inr,
  not,
}
use holler.Bus.Result.{
  ok, >>=-eq-ok, reject-eq-ok, or_fail-eq-ok, validation, no_message, ok-injective, or_fail,
  not_found, reject,
}
use holler.Bus.Text.{trim_space}
use holler.Bus.Types.{Claim, Message}
use holler.Store.Tables.{find_row, update_rows, count_rows}
use holler.Store.Tables.Rows.{find-holds}
use holler.Store.Db.{Db, Env, MessageRow, DeliveryRow, mint}
use holler.Store.Messages.{get_message_by_id, has_id, legacy_messages}
use holler.Store.Recipients.{effective_delivery, effective_delivery_recipient, is_delivery}
use holler.Store.Events.{append_event}
use holler.Store.Recipients.{adoption_provenance}
use holler.Store.Events.Numbering.{append_event-IsNumbered}
use holler.Store.Events.Frame.{
  KeepsNumbers, KeepsNumbers-same, mint-SameTables, mint-KeepsNumbers, append_event-SameTables,
}
use holler.Store.Claiming.{
  claim, claim_selected, claim_candidate, claims_row, leased, close_job, is_bad_lease, report_claim,
  mark_claimed, claim_payload,
}

pub get_message-id :
    (db : Db) (id : String) (m : Message) → get_message_by_id db id ≡ ok m → m.id ≡ id
unfolding get_message_by_id
get_message-id db id m h = elim (Option-cases (find_row (has_id id) (legacy_messages db))) [
  | inl e ↦ absurd (ground arith)
  | inr (r, e) ↦ ground (arith, find-holds (has_id id) (legacy_messages db) r e)
]

pub effective_delivery_recipient_inv :
    (db : Db) (actor message_id original : String)
    → effective_delivery_recipient db actor message_id ≡ ok original
    → (d : DeliveryRow) × (effective_delivery db actor message_id ≡ some d)
      × (d.recipient_actor ≡ original)
unfolding effective_delivery_recipient
effective_delivery_recipient_inv db actor message_id original h =
    elim (Option-cases (effective_delivery db actor message_id)) [
      | inl e ↦ absurd (ground arith)
      | inr (d, e) ↦ (d, e, ground arith)
    ]

-- The effect of a claim of one delivery.
pub record Claimed (env : Env) (actor message_id original : String) (expires : ℕ) (db : Db)
    (c : Claim) (db' : Db) : Type 0 where
  pub message : c.message.id ≡ message_id
  pub recipient : c.recipient_actor ≡ actor
  pub lease_end : c.lease_expires_at ≡ expires
  pub deliveries :
      db'.deliveries
      ≡ update_rows
          (claims_row env.now message_id original)
          (leased env.now c.lease_token expires)
          db.deliveries
  pub messages : db'.messages ≡ db.messages
  pub adoptions : db'.adoptions ≡ db.adoptions
  pub outbox : db'.outbox ≡ close_job env.now message_id actor db.outbox
  pub numbers : KeepsNumbers db db'

-- The last record of `report_claim`.
module _ (env : Env) (actor message_id original token : String) (expires : ℕ) (db db3 : Db)
    (m : Message) (row : DeliveryRow) where
  abbrev reported : Claim × Db
  reported = (
    record {
      message = m;
      recipient_actor = actor;
      original_recipient_actor = adoption_provenance actor original;
      attempt = row.attempt;
      lease_token = token;
      lease_expires_at = expires;
    },
    record db3 { outbox = close_job env.now m.id actor db3.outbox },
  )

-- What `report_claim` went through.
report_claim_inv :
    (env : Env) (actor message_id original token : String) (expires : ℕ) (db : Db) (r : Claim × Db)
    → report_claim env actor message_id original token expires db ≡ ok r
    → (m : Message) × (row : DeliveryRow) × (db3 : Db) × (get_message_by_id db message_id ≡ ok m)
      × (append_event env m.project_id "operational" "delivery.claimed" m.id actor
            (some (claim_payload env actor original row.attempt))
            db
          ≡ ok db3)
      × (reported env actor message_id original token expires db db3 m row ≡ r)
unfolding report_claim
report_claim_inv env actor message_id original token expires db r h =
    let (m, em, h1) = >>=-eq-ok (get_message_by_id db message_id) _ h in
    let (row, ef, h2) =
      >>=-eq-ok (or_fail (find_row (is_delivery message_id original) db.deliveries) not_found) _
        h1 in
    let (db3, ee, h3) =
      >>=-eq-ok
        (append_event env m.project_id "operational" "delivery.claimed" m.id actor
          (some (claim_payload env actor original row.attempt)) db)
        _ h2 in
    (m, row, db3, em, ee, ok-injective h3)

-- The effect of the part after the mark.
report_claim-Claimed :
    (env : Env) (actor message_id original token : String) (expires : ℕ) (db1 : Db) (c : Claim)
    (db' : Db)
    → report_claim env actor message_id original token expires
        (mark_claimed env.now message_id original token expires db1)
      ≡ ok (c, db')
    → Claimed env actor message_id original expires db1 c db' × (c.lease_token ≡ token)
report_claim-Claimed env actor message_id original token expires db1 c db' h =
    let marked = mark_claimed env.now message_id original token expires db1 in
    let (m, row, db3, em, ee, e) =
      report_claim_inv env actor message_id original token expires marked (c, db') h in
    let same =
      append_event-SameTables env m.project_id "operational" "delivery.claimed" m.id actor
        (some (claim_payload env actor original row.attempt)) marked db3 ee in
    let id = get_message-id marked message_id m em in
    let at_token : c.lease_token ≡ token = sym (ap (λ (r : Claim × Db). r.0.lease_token) e) in
    (
      record {
        message = sym (ap (λ (r : Claim × Db). r.0.message.id) e) ∙ id;
        recipient = sym (ap (λ (r : Claim × Db). r.0.recipient_actor) e);
        lease_end = sym (ap (λ (r : Claim × Db). r.0.lease_expires_at) e);
        deliveries = rw at_token (
            sym (ap (λ (r : Claim × Db). r.1.deliveries) e)
            ∙ (same.deliveries ∙ unfold mark_claimed in refl));
        messages =
            sym (ap (λ (r : Claim × Db). r.1.messages) e)
            ∙ (same.messages ∙ unfold mark_claimed in refl);
        adoptions =
            sym (ap (λ (r : Claim × Db). r.1.adoptions) e)
            ∙ (same.adoptions ∙ unfold mark_claimed in refl);
        outbox =
            sym (ap (λ (r : Claim × Db). r.1.outbox) e)
            ∙ (rw (id, same.outbox) (unfold mark_claimed in refl));
        numbers = λ p s n.
            KeepsNumbers-same db3 db' (sym (ap (λ (r : Claim × Db). r.1.events) e))
              (sym (ap (λ (r : Claim × Db). r.1.counters) e)) p s
              (append_event-IsNumbered env m.project_id "operational" "delivery.claimed" m.id actor
                (some (claim_payload env actor original row.attempt)) marked db3 p s ee
                (KeepsNumbers-same db1 marked (unfold mark_claimed in refl)
                  (unfold mark_claimed in refl) p s n));
      },
      at_token,
    )

pub claim_selected_inv :
    (env : Env) (actor message_id original : String) (lease : ℕ) (db : Db) (c : Claim) (db' : Db)
    → claim_selected env actor message_id original lease db ≡ ok (c, db')
    → Claimed env actor message_id original (env.now + lease) db c db'
unfolding claim_selected
claim_selected_inv env actor message_id original lease db c db' h0 =
    let (minted, em, h1) = >>=-eq-ok (mint env "lease" db) _ h0 in
    let (_, er, h2) =
      >>=-eq-ok
        (reject
          (not (eqb (count_rows (claims_row env.now message_id original) minted.1.deliveries) 1))
          no_message)
        _ h1 in
    let same = mint-SameTables env "lease" db minted.1 minted.0 em in
    let (d, _) =
      report_claim-Claimed env actor message_id original minted.0 (env.now + lease) minted.1 c db'
        h2 in
    record {
      message = d.message;
      recipient = d.recipient;
      lease_end = d.lease_end;
      deliveries = rw (← same.deliveries) d.deliveries;
      messages = d.messages ∙ same.messages;
      adoptions = d.adoptions ∙ same.adoptions;
      outbox = rw (← same.outbox) d.outbox;
      numbers =
          λ p s n. d.numbers p s (mint-KeepsNumbers env "lease" db minted.1 minted.0 em p s n);
    }

-- A successful `Claim` marked the delivery that the actor handles for the oldest message on offer.
pub claim_inv :
    (env : Env) (actor wanted : String) (lease : ℕ) (db : Db) (c : Claim) (db' : Db)
    → claim env actor wanted lease db ≡ ok (c, db')
    → (m : MessageRow) × (d : DeliveryRow) × (claim_candidate db
          (trim_space actor)
          (trim_space wanted)
          env.now
        ≡ some m)
      × (effective_delivery db (trim_space actor) m.message_id ≡ some d)
      × (is_bad_lease lease ≡ false)
      × Claimed env (trim_space actor) m.message_id d.recipient_actor (env.now + lease) db c db'
unfolding claim
claim_inv env actor wanted lease db c db' h0 =
    let (_, e1, h1) =
      >>=-eq-ok (reject (trim_space actor == "") (validation "actor" "is required")) _ h0 in
    let (_, e2, h2) =
      >>=-eq-ok (reject (is_bad_lease lease) (validation "lease" "must be between 0 and 24h")) _
        h1 in
    let (m, e3, h3) =
      >>=-eq-ok
        (or_fail (claim_candidate db (trim_space actor) (trim_space wanted) env.now) no_message) _
        h2 in
    let (original, e4, h4) =
      >>=-eq-ok (effective_delivery_recipient db (trim_space actor) m.message_id) _ h3 in
    let (d, ed, er) =
      effective_delivery_recipient_inv db (trim_space actor) m.message_id original e4 in
    (
      m,
      d,
      or_fail-eq-ok (claim_candidate db (trim_space actor) (trim_space wanted) env.now) no_message
          e3,
      ed,
      reject-eq-ok (is_bad_lease lease) _ e2,
      rw er (claim_selected_inv env (trim_space actor) m.message_id original lease db c db' h4),
    )
