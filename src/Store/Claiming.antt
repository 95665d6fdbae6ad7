-- ===== src/Store/Claiming.antt =====
-- internal/store/sqlite/store.go: `Claim` and `Extend`, the leases on deliveries. A `time.Duration` is
-- its nanoseconds, and one that is not positive is 0.
pub mod Inversion
pub mod Exclusion
pub mod Held
use holler.Prelude.{
  ℕ, ◌+◌, ◌*◌, String, Bool, true, false, ◌&&◌, ◌||◌, not, Option, none, some, List, [], ◌∷◌, ◌++◌,
  eqb, ltb, leb, ◌==◌, if◌then◌else◌,
}
use holler.Bus.Result.{
  Result, ok, reject, or_fail, not_found, no_message, lease_token_mismatch, lease_expired,
  validation, ◌>>=◌, ◌>>◌,
}
use holler.Bus.Caller.{Payload, text, number, event_provenance}
use holler.Bus.Text.{trim_space}
use holler.Bus.Types.{Claim, LeaseExtension, claimed}
use holler.Bus.Normalize.{text_le}
use holler.Store.Tables.{find_row, select_rows, update_rows, count_rows, first_row}
use holler.Store.Db.{Db, Env, MessageRow, DeliveryRow, OutboxRow, OutboxState, done, mint}
use holler.Store.Events.{append_event}
use holler.Store.Messages.{get_message_by_id, legacy_messages, is_unexpired}
use holler.Store.Recipients.{
  effective_delivery, effective_delivery_recipient, adoption_provenance, is_delivery,
}
use holler.Store.Transition.{is_queued, is_claimed, holds_token}

abbrev pub day : ℕ
day = 24 * 3600 * 1000000000

-- `lease <= 0 || lease > 24*time.Hour`
abbrev pub is_bad_lease : ℕ → Bool
is_bad_lease lease = eqb lease 0 || ltb day lease

-- `lease_expires_at_ns <= now`, which is not true of NULL.
abbrev pub has_lapsed : ℕ → Option ℕ → Bool
has_lapsed now none = false
has_lapsed now (some t) = leb t now

-- state = queued OR (state = claimed AND lease_expires_at_ns <= now)
abbrev pub is_claimable : ℕ → DeliveryRow → Bool
is_claimable now d = is_queued d.state || (is_claimed d.state && has_lapsed now d.lease_expires_at)

-- The message's preferred candidate can be claimed, and it is the message that was asked for.
unfoldable pub is_offered : Db → String → String → ℕ → MessageRow → Bool
is_offered db actor wanted now m =
    is_unexpired now m
    && (wanted == "" || m.message_id == wanted)
    && (elim (effective_delivery db actor m.message_id) [
      | none ↦ false
      | some d ↦ is_claimable now d
    ])

-- ORDER BY m.created_at_ns, m.message_id
abbrev pub is_older : MessageRow → MessageRow → Bool
is_older m n =
    ltb m.created_at n.created_at
    || (eqb m.created_at n.created_at && text_le m.message_id n.message_id)

unfoldable pub claim_candidate : Db → String → String → ℕ → Option MessageRow
unfolding is_offered
claim_candidate db actor wanted now =
    first_row is_older (select_rows (is_offered db actor wanted now) (legacy_messages db))

-- SET state = claimed, attempt = attempt + 1, …
unfoldable pub leased : ℕ → String → ℕ → DeliveryRow → DeliveryRow
leased now token expires d = record d {
  state = claimed;
  attempt = d.attempt + 1;
  lease_token = some token;
  lease_expires_at = some expires;
  claimed_at = some now;
  acked_at = none;
}

abbrev pub is_done : OutboxState → Bool
is_done done = true
is_done _ = false

abbrev pub is_job : String → String → OutboxRow → Bool
is_job message_id recipient o = o.message_id == message_id && o.recipient_actor == recipient

-- A successful claim closes the actor's notification job for the message.
unfoldable pub close_job : ℕ → String → String → List OutboxRow → List OutboxRow
close_job now message_id actor =
    update_rows (λ o. is_job message_id actor o && not (is_done o.state))
      λ o. record o { state = done; available_at = now }

-- `payload["original_recipient_actor"] = original` where that is another.
abbrev pub original_field : String → String → Payload
original_field actor original =
    if original == actor then [] else ("original_recipient_actor", text original) ∷ []

abbrev pub claims_row : ℕ → String → String → DeliveryRow → Bool
claims_row now message_id recipient d = is_delivery message_id recipient d && is_claimable now d

unfoldable pub mark_claimed : ℕ → String → String → String → ℕ → Db → Db
unfolding leased
mark_claimed now message_id original token expires db = record db {
  deliveries =
      update_rows (claims_row now message_id original) (leased now token expires) db.deliveries;
}

unfoldable pub claim_payload : Env → String → String → ℕ → Payload
claim_payload env actor original attempt =
    event_provenance env.caller ""
    ++ (("attempt", number attempt) ∷ [])
    ++ original_field actor original

-- The rest of the transaction of `Claim`, once the delivery is marked.
unfoldable pub report_claim : Env → String → String → String → String → ℕ → Db → Result (Claim × Db)
unfolding claim_payload close_job adoption_provenance
report_claim env actor message_id original token expires db = do
  message ← get_message_by_id db message_id
  row ← or_fail (find_row (is_delivery message_id original) db.deliveries) not_found
  noted ←
      append_event env message.project_id "operational" "delivery.claimed" message.id actor
        (some (claim_payload env actor original row.attempt)) db
  ok (
    record {
      message = message;
      recipient_actor = actor;
      original_recipient_actor = adoption_provenance actor original;
      attempt = row.attempt;
      lease_token = token;
      lease_expires_at = expires;
    },
    record noted { outbox = close_job env.now message.id actor noted.outbox },
  )

-- The transaction of `Claim` from the selected delivery on.
unfoldable pub claim_selected : Env → String → String → String → ℕ → Db → Result (Claim × Db)
unfolding mark_claimed report_claim mint
claim_selected env actor message_id original lease db = do
  (token, minted) ← mint env "lease" db
  reject (not (eqb (count_rows (claims_row env.now message_id original) minted.deliveries) 1))
      no_message
  report_claim env actor message_id original token (env.now + lease)
      (mark_claimed env.now message_id original token (env.now + lease) minted)

unfoldable pub claim : Env → String → String → ℕ → Db → Result (Claim × Db)
unfolding claim_candidate claim_selected
claim env actor message_id lease db = do
  reject (trim_space actor == "") (validation "actor" "is required")
  reject (is_bad_lease lease) (validation "lease" "must be between 0 and 24h")
  m ← or_fail (claim_candidate db (trim_space actor) (trim_space message_id) env.now) no_message
  original ← effective_delivery_recipient db (trim_space actor) m.message_id
  claim_selected env (trim_space actor) m.message_id original lease db

-- `!leaseExpires.Valid || leaseExpires.Int64 <= now`
abbrev pub is_over : ℕ → Option ℕ → Bool
is_over now none = true
is_over now (some t) = leb t now

abbrev pub holds_lease : String → String → String → DeliveryRow → Bool
holds_lease message_id recipient token d =
    is_delivery message_id recipient d && is_claimed d.state && holds_token d.lease_token token

unfoldable pub extend_lease : String → String → String → ℕ → List DeliveryRow → List DeliveryRow
extend_lease message_id recipient token expires =
    update_rows (holds_lease message_id recipient token)
      λ d. record d { lease_expires_at = some expires }

-- The transaction of `Extend`.
unfoldable pub extend_selected :
    Env → String → String → String → ℕ → Db → Result (LeaseExtension × Db)
unfolding extend_lease
extend_selected env actor message_id token lease db = do
  original ← effective_delivery_recipient db actor message_id
  d ← or_fail (find_row (is_delivery message_id original) db.deliveries) not_found
  reject (not (is_claimed d.state) || not (holds_token d.lease_token token)) lease_token_mismatch
  reject (is_over env.now d.lease_expires_at) lease_expired
  let expires = env.now + lease
  let db1 = record db { deliveries = extend_lease message_id original token expires db.deliveries }
  message ← get_message_by_id db1 message_id
  db2 ←
      append_event env message.project_id "operational" "delivery.extended" message_id actor
        (some (
          event_provenance env.caller ""
          ++ (("lease_expires_at", number expires) ∷ [])
          ++ original_field actor original))
        db1
  ok (record { message_id = message_id; recipient_actor = actor; lease_expires_at = expires }, db2)

unfoldable pub extend : Env → String → String → String → ℕ → Db → Result (LeaseExtension × Db)
unfolding extend_selected
extend env actor message_id token lease db = do
  reject (trim_space actor == "" || trim_space message_id == "" || trim_space token == "")
      (validation "delivery" "actor, message_id, and lease_token are required")
  reject (is_bad_lease lease) (validation "lease" "must be between 0 and 24h")
  extend_selected env (trim_space actor) (trim_space message_id) (trim_space token) lease db
