-- ===== src/Store/Sessions/Rearmed.antt =====
-- internal/store/sqlite/registration.go: what `RearmAcceptedNotifications` leaves of the jobs.
use holler.Prelude.{
  ℕ, ◌≡◌, refl, sym, ap, String, Bool, true, false, ◌&&◌, ◌||◌, not, List, [], ◌∷◌, arith, leb,
  ◌==◌,
}
use holler.Bus.Result.{ok, >>=-eq-ok, ok-injective, reject}
use holler.Bus.Text.{trim_space}
use holler.Store.Tables.{exists_row}
use holler.Store.Db.{Db, Env, MessageRow, OutboxRow, OutboxState, pending}
use holler.Store.Messages.{legacy_messages, has_id, is_unexpired}
use holler.Store.Outbox.{max_attempts}
use holler.Store.Sessions.Rearming.{
  awaits_claim, close_expired_accepted, bound_rearm, rearm_jobs, rearm_accepted_notifications,
}

abbrev is_pending : OutboxState → Bool
is_pending pending = true
is_pending _ = false

-- A job that may be claimed again, though it was tried as often as it may be.
abbrev pub is_overtried : OutboxRow → Bool
is_overtried o = is_pending o.state && leb max_attempts o.attempt

abbrev is_open : ℕ → List MessageRow → OutboxRow → Bool
is_open now ms o = exists_row (λ m. has_id o.message_id m && is_unexpired now m) ms

-- The job is about a legacy message that is there.
abbrev pub is_known : List MessageRow → OutboxRow → Bool
is_known ms o = exists_row (has_id o.message_id) ms

known-or :
    (now : ℕ) (ms : List MessageRow) (id : String)
    → exists_row (has_id id) ms ≡ (
        exists_row (λ m. has_id id m && not (is_unexpired now m)) ms
        || exists_row (λ m. has_id id m && is_unexpired now m) ms)
known-or now [] id = refl
known-or now (m ∷ ms) id = ground (arith, known-or now ms id)

module _ (now : ℕ) (who : String) (ms : List MessageRow) where
  abbrev rearmed : List OutboxRow → List OutboxRow
  rearmed os = rearm_jobs now who ms (bound_rearm now who (close_expired_accepted now who ms os))

  rearmed-overtried :
      (os : List OutboxRow) → exists_row is_overtried (rearmed os) ≡ exists_row is_overtried os
  unfolding rearm_jobs bound_rearm close_expired_accepted
  rearmed-overtried [] = refl
  rearmed-overtried (o ∷ os) = ground (arith, rearmed-overtried os)

  rearmed-settled :
      (os : List OutboxRow)
      → exists_row (λ o. awaits_claim who o && is_known ms o) (rearmed os) ≡ false
  unfolding rearm_jobs bound_rearm close_expired_accepted
  rearmed-settled [] = refl
  rearmed-settled (o ∷ os) = ground (arith, rearmed-settled os, known-or now ms o.message_id)

-- After `RearmAcceptedNotifications` for an actor, none of its jobs that are about a legacy message waits
-- for that message to be claimed: each is due again, or done. It makes no job pending that was tried as
-- often as a job may be: there is one after it only if there was one before.
pub rearm-bounded :
    (env : Env) (actor : String) (db db' : Db)
    → rearm_accepted_notifications env actor db ≡ ok db'
    → (exists_row
          (λ o. awaits_claim (trim_space actor) o && is_known (legacy_messages db) o)
          db'.outbox
        ≡ false)
      × (exists_row is_overtried db'.outbox ≡ exists_row is_overtried db.outbox)
unfolding rearm_accepted_notifications
rearm-bounded env actor db db' h =
    let (_, _, h1) = >>=-eq-ok (reject (trim_space actor == "") _) _ h in
    let rows = ap (λ d. d.outbox) (sym (ok-injective h1)) in
    let ms = legacy_messages db in
    (
      rw rows (rearmed-settled env.now (trim_space actor) ms db.outbox),
      rw rows (rearmed-overtried env.now (trim_space actor) ms db.outbox),
    )
