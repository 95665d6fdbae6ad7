-- ===== src/Store/Outbox.antt =====
-- internal/store/sqlite/notification_outbox.go: the jobs that wake an actor's harness.
use Prim.Native.String.{len, slice}
use holler.Prelude.{
  ℕ, ◌+◌, ◌*◌, String, Bool, true, false, ◌&&◌, ◌||◌, not, none, some, List, [], ◌∷◌, ◌++◌, eqb,
  ltb, leb, ◌==◌, if◌then◌else◌,
}
use holler.Bus.Result.{
  Result, ok, err, reject, or_fail, no_message, not_found, failure, ◌>>=◌, ◌>>◌,
}
use holler.Bus.Caller.{text, number, event_provenance}
use holler.Bus.Text.{trim_space}
use holler.Bus.Types.{NotificationJob, NotificationDisposition, complete, retry, accepted, other}
use holler.Bus.Normalize.{text_le}
use holler.Store.Tables.{find_row, select_rows, update_rows, exists_row, count_rows, first_row}
use holler.Store.Db.{
  Db, Env, MessageRow, OutboxRow, OutboxState, pending, processing, done, null_if_empty,
}
use holler.Store.Events.{append_event}
use holler.Store.Messages.{get_message_by_id, legacy_messages, is_unexpired, has_id}
use holler.Store.Claiming.{is_done, is_job}

abbrev pub second : ℕ
second = 1000000000

-- state = 'pending' OR state = 'processing'
abbrev pub is_waiting : OutboxState → Bool
is_waiting pending = true
is_waiting processing = true
is_waiting _ = false

abbrev pub is_processing : OutboxState → Bool
is_processing processing = true
is_processing _ = false

-- The message of the job is a legacy message that has expired.
abbrev pub has_expired : ℕ → List MessageRow → OutboxRow → Bool
has_expired now ms o = exists_row (λ m. has_id o.message_id m && not (is_unexpired now m)) ms

-- The first UPDATE of `ClaimNotification`.
unfoldable pub expire_jobs : ℕ → List MessageRow → List OutboxRow → List OutboxRow
expire_jobs now ms =
    update_rows (λ o. not (is_done o.state) && has_expired now ms o)
      λ o. record o {
        state = done;
        available_at = now;
        last_error = some "message expired before notification";
      }

-- The job waits, its time has come, and its message is a legacy message that has not expired.
abbrev pub is_due : ℕ → List MessageRow → OutboxRow → Bool
is_due now ms o =
    is_waiting o.state
    && leb o.available_at now
    && exists_row (λ m. has_id o.message_id m && is_unexpired now m) ms

-- ORDER BY o.created_at_ns, o.message_id, o.recipient_actor
abbrev pub job_le : OutboxRow → OutboxRow → Bool
job_le o p =
    ltb o.created_at p.created_at
    || (eqb o.created_at p.created_at
        && (if o.message_id == p.message_id
            then text_le o.recipient_actor p.recipient_actor
            else text_le o.message_id p.message_id))

abbrev pub takes_job : ℕ → String → String → OutboxRow → Bool
takes_job now message_id recipient o =
    is_job message_id recipient o && is_waiting o.state && leb o.available_at now

-- SET state = 'processing', attempt = attempt + 1, available_at_ns = now + 30s
unfoldable pub taken : ℕ → OutboxRow → OutboxRow
taken now o = record o {
  state = processing;
  attempt = o.attempt + 1;
  available_at = now + 30 * second;
}

unfoldable pub claim_notification : Env → Db → Result (NotificationJob × Db)
unfolding expire_jobs taken
claim_notification env db = do
  let jobs = expire_jobs env.now (legacy_messages db) db.outbox
  o ← or_fail (first_row job_le (select_rows (is_due env.now (legacy_messages db)) jobs)) no_message
  reject (not (eqb (count_rows (takes_job env.now o.message_id o.recipient_actor) jobs) 1))
      no_message
  let db1 = record db {
    outbox = update_rows (takes_job env.now o.message_id o.recipient_actor) (taken env.now) jobs;
  }
  message ← get_message_by_id db1 o.message_id
  row ← or_fail (find_row (is_job o.message_id o.recipient_actor) db1.outbox) not_found
  ok (record { message = message; recipient_actor = o.recipient_actor; attempt = row.attempt }, db1)

abbrev pub max_attempts : ℕ
max_attempts = 5

-- The switch on the disposition: the new state, and when the job is next due.
unfoldable pub settle : NotificationDisposition → ℕ → ℕ → Result (OutboxState × ℕ)
settle accepted attempt now = ok (OutboxState.accepted, now)
settle retry attempt now =
    if leb max_attempts attempt
    then ok (done, now)
    else ok (pending, now + attempt * attempt * second)
settle complete attempt now = ok (done, now)
settle (other name) attempt now = err (failure "unsupported notification disposition")

-- `detail[:4096]`, where a character that the bound would cut is left out.
abbrev pub bounded_detail : String → String
bounded_detail detail = if ltb 4096 (len detail) then slice detail 0 4096 else detail

abbrev pub finishes_job : String → String → OutboxRow → Bool
finishes_job message_id recipient o = is_job message_id recipient o && is_processing o.state

unfoldable pub settled : OutboxState → ℕ → String → OutboxRow → OutboxRow
settled state available detail o = record o {
  state = state;
  available_at = available;
  last_error = null_if_empty detail;
}

-- A claim may have completed the job while the adapter was called.
unfoldable pub already_done : Db → String → String → Result Db
already_done db message_id recipient = elim (find_row (is_job message_id recipient) db.outbox) [
  | none ↦ err (failure "notification job is not processing")
  | some o ↦ if is_done o.state then ok db else err (failure "notification job is not processing")
]

abbrev pub is_retry : NotificationDisposition → Bool
is_retry retry = true
is_retry _ = false

-- The event of a job that is given up.
unfoldable pub note_abandoned :
    Env → NotificationJob → NotificationDisposition → String → Db → Result Db
note_abandoned env job disposition detail db =
    if is_retry disposition && leb max_attempts job.attempt
    then append_event env job.message.project_id "operational" "delivery.notification_abandoned"
        job.message.id job.recipient_actor
        (some (
          event_provenance env.caller ""
          ++ (("attempts", number job.attempt) ∷ [])
          ++ (("detail", text detail) ∷ [])))
        db
    else ok db

unfoldable pub finish_notification :
    Env → NotificationJob → NotificationDisposition → String → Db → Result Db
unfolding settle settled already_done note_abandoned
finish_notification env job disposition detail db = do
  (state, available) ← settle disposition job.attempt env.now
  let note = bounded_detail (trim_space detail)
  (if eqb (count_rows (finishes_job job.message.id job.recipient_actor) db.outbox) 1
      then note_abandoned env job disposition note (record db {
        outbox =
            update_rows (finishes_job job.message.id job.recipient_actor)
              (settled state available note) db.outbox;
      })
      else already_done db job.message.id job.recipient_actor)
