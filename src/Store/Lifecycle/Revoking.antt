-- ===== src/Store/Lifecycle/Revoking.antt =====
-- internal/store/sqlite/lifecycle.go: `RevokeDeliveryLease`, by which an operator takes the lease of a
-- crashed recipient back.
use holler.Prelude.{
  ℕ, ◌+◌, String, Bool, ◌&&◌, not, none, some, List, [], ◌∷◌, ◌++◌, eqb, ltb, ◌==◌, if◌then◌else◌,
}
use holler.Bus.Result.{
  Result, ok, reject, or_fail, actor_live, not_found, validation, failure, ◌>>=◌, ◌>>◌,
}
use holler.Bus.Types.{queued, non_blocking}
use holler.Store.Tables.{exists_row, find_row, update_rows}
use holler.Store.Db.{Db, Env, DeliveryRow, OutboxRow, pending}
use holler.Store.Messages.{legacy_messages, has_id}
use holler.Store.Recipients.{is_delivery}
use holler.Store.Transition.{is_claimed}
use holler.Store.Adoption.{actor_has_live_presence, is_running}
use holler.Store.Claiming.{is_job}
use holler.Store.Sending.{new_job}

-- The delivery is claimed and its lease runs.
abbrev pub is_revocable : ℕ → String → String → DeliveryRow → Bool
is_revocable now message_id actor d =
    is_delivery message_id actor d && is_claimed d.state && is_running now d.lease_expires_at

unfoldable pub revoked_row : DeliveryRow → DeliveryRow
revoked_row d = record d {
  state = queued;
  terminal_lease_token = d.lease_token;
  lease_token = none;
  lease_expires_at = none;
  claimed_at = none;
  last_error = some "operator revoked lease after crash grace";
}

-- INSERT … ON CONFLICT(message_id, recipient_actor) DO UPDATE
unfoldable pub requeue_job : ℕ → String → String → List OutboxRow → List OutboxRow
unfolding new_job
requeue_job now message_id actor os =
    if exists_row (is_job message_id actor) os
    then update_rows (is_job message_id actor)
        (λ o. record o { state = pending; available_at = now; last_error = none }) os
    else os ++ (new_job now message_id actor ∷ [])

-- The message asks for attention.
abbrev pub asks_attention : Db → String → Bool
asks_attention db message_id =
    exists_row (λ m. has_id message_id m && not (m.delivery_request == non_blocking))
      (legacy_messages db)

-- What the transaction writes.
unfoldable pub revoked_db : ℕ → String → String → Db → Db
unfolding revoked_row requeue_job
revoked_db now message_id actor db = record db {
  deliveries = update_rows (is_delivery message_id actor) revoked_row db.deliveries;
  outbox =
      if asks_attention db message_id
      then requeue_job now message_id actor db.outbox
      else db.outbox;
}

unfoldable pub revoke_delivery_lease : Env → String → String → ℕ → Db → Result Db
unfolding revoked_db
revoke_delivery_lease env actor message_id grace db = do
  reject (eqb grace 0) (validation "crash_grace" "must be positive")
  reject (actor_has_live_presence db actor env.now) actor_live
  d ← or_fail (find_row (is_revocable env.now message_id actor) db.deliveries) not_found
  token ← or_fail d.lease_token (failure "scan lease token")
  claimed ← or_fail d.claimed_at (failure "scan claim time")
  reject (ltb env.now (claimed + grace))
      (validation "crash_grace" "has not elapsed since the claim")
  ok (revoked_db env.now message_id actor db)
