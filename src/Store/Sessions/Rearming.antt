-- ===== src/Store/Sessions/Rearming.antt =====
-- internal/store/sqlite/registration.go: `RearmAcceptedNotifications`, once an actor is present again.
use holler.Prelude.{ℕ, String, Bool, true, false, ◌&&◌, none, some, List, ltb, leb, ◌==◌}
use holler.Bus.Result.{Result, ok, reject, validation, ◌>>◌}
use holler.Bus.Text.{trim_space}
use holler.Store.Tables.{exists_row, update_rows}
use holler.Store.Db.{Db, Env, MessageRow, OutboxRow, OutboxState, accepted, pending, done}
use holler.Store.Messages.{legacy_messages, has_id, is_unexpired}
use holler.Store.Outbox.{has_expired, max_attempts}

abbrev pub is_accepted : OutboxState → Bool
is_accepted accepted = true
is_accepted _ = false

-- A job of the actor whose wake the harness accepted.
abbrev pub awaits_claim : String → OutboxRow → Bool
awaits_claim actor o = o.recipient_actor == actor && is_accepted o.state

unfoldable pub close_expired_accepted :
    ℕ → String → List MessageRow → List OutboxRow → List OutboxRow
close_expired_accepted now actor ms =
    update_rows (λ o. awaits_claim actor o && has_expired now ms o)
      λ o. record o {
        state = done;
        available_at = now;
        last_error = some "message expired before recipient claim";
      }

unfoldable pub bound_rearm : ℕ → String → List OutboxRow → List OutboxRow
bound_rearm now actor =
    update_rows (λ o. awaits_claim actor o && leb max_attempts o.attempt)
      λ o. record o {
        state = done;
        available_at = now;
        last_error = some "accepted wake rearm limit reached";
      }

unfoldable pub rearm_jobs : ℕ → String → List MessageRow → List OutboxRow → List OutboxRow
rearm_jobs now actor ms =
    update_rows
      (λ o.
        awaits_claim actor o
        && ltb o.attempt max_attempts
        && exists_row (λ m. has_id o.message_id m && is_unexpired now m) ms)
      λ o. record o { state = pending; available_at = now; last_error = none }

unfoldable pub rearm_accepted_notifications : Env → String → Db → Result Db
unfolding close_expired_accepted bound_rearm rearm_jobs
rearm_accepted_notifications env actor db = do
  reject (trim_space actor == "") (validation "actor" "is required")
  let ms = legacy_messages db
  ok (record db {
    outbox = rearm_jobs env.now (trim_space actor) ms (
        bound_rearm env.now (trim_space actor)
          (close_expired_accepted env.now (trim_space actor) ms db.outbox));
  })
