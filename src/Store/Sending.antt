-- ===== src/Store/Sending.antt =====
-- internal/store/sqlite/store.go: `Send`. The map `resolutions` is a list of pairs, and a value that is
-- written twice for one alias is the same value.
pub mod Stored
pub mod Retries
use holler.Prelude.{
  ℕ, String, Bool, true, false, ◌&&◌, ◌||◌, not, Option, none, some, List, [], ◌∷◌, ◌++◌, leb, ltb,
  ◌%◌, ◌^◌, ◌==◌, if◌then◌else◌,
}
use mathlib.Core.Option
use holler.Bus.Result.{
  Result, ok, err, reject, channel_capability, idempotency_conflict, actor_archived, not_found,
  validation, failure, ◌>>=◌, ◌>>◌,
}
use holler.Bus.Caller.{Payload, text, texts, table, event_provenance}
use holler.Bus.Text.{is_human_actor}
use holler.Bus.Types.{queued, Message, SendRequest, SendResult, route_reply, non_blocking}
use holler.Bus.Normalize.{null, has_text, normalize_send_request}
use holler.Bus.Equivalent.{equivalent_request}
use holler.Store.Tables.{exists_row}
use holler.Store.Db.{
  Db, Env, MessageRow, DeliveryRow, OutboxRow, pending, typed, AdoptionRow, mint, unix_nano,
}
use holler.Store.Events.{append_event}
use holler.Store.Messages.{get_message_by_id, get_message_by_idempotency, has_id, sent_with}
use holler.Store.Recipients.{adoption_of, is_delivery}
use holler.Store.Routes.{
  assert_actor_not_adopted, is_adopted, is_archived, classify_legacy_routes, resolve_routes,
}
use holler.Store.Claiming.{is_job}
use holler.Store.Addressing.{
  is_past, stamp_routes, parent_of, stamp_reply, stamp, is_only, resolve_recipients, reserve_names,
  any_human, refuses_mail,
}

unfoldable pub new_message : ℕ → String → SendRequest → Message
new_message now id req = record {
  id = id;
  idempotency_key = req.idempotency_key;
  project_id = req.project_id;
  channel_id = req.channel_id;
  thread_id = req.thread_id;
  from_actor = req.from_actor;
  from_run = req.from_run;
  from_role = req.from_role;
  to_actors = req.to_actors;
  requested_routes = req.requested_routes;
  message_type = req.message_type;
  delivery_request = req.delivery_request;
  in_reply_to = req.in_reply_to;
  body = req.body;
  created_at = now;
  expires_at = req.expires_at;
  requested_to_actors = req.requested_to_actors;
}

unfoldable pub message_row : Message → MessageRow
unfolding unix_nano
message_row m = record {
  message_id = m.id;
  idempotency_key = m.idempotency_key;
  project_id = m.project_id;
  channel_id = m.channel_id;
  thread_id = m.thread_id;
  from_actor = m.from_actor;
  from_run = m.from_run;
  from_role = m.from_role;
  message_type = m.message_type;
  delivery_request = m.delivery_request;
  in_reply_to = m.in_reply_to;
  body = m.body;
  created_at = m.created_at;
  expires_at = Option.map unix_nano m.expires_at;
  recipients = typed m.requested_routes;
  conversation_id = none;
}

-- INSERT INTO messages, with the primary key and UNIQUE (from_actor, idempotency_key).
unfoldable pub insert_message : Message → Db → Result Db
unfolding message_row
insert_message m db = do
  reject (exists_row (λ r. has_id m.id r || sent_with m.from_actor m.idempotency_key r) db.messages)
      (failure "insert message")
  ok (record db { messages = db.messages ++ (message_row m ∷ []) })

unfoldable pub new_delivery : String → String → DeliveryRow
new_delivery message_id recipient = record {
  message_id = message_id;
  recipient_actor = recipient;
  state = queued;
  attempt = 0;
  lease_token = none;
  terminal_lease_token = none;
  lease_expires_at = none;
  claimed_at = none;
  acked_at = none;
  last_error = none;
}

unfoldable pub new_job : ℕ → String → String → OutboxRow
new_job now message_id recipient = record {
  message_id = message_id;
  recipient_actor = recipient;
  state = pending;
  attempt = 0;
  available_at = now;
  last_error = none;
  created_at = now;
  source = "legacy";
}

-- INSERT OR IGNORE INTO notification_outbox
unfoldable pub enqueue_job : ℕ → String → String → List OutboxRow → List OutboxRow
unfolding new_job
enqueue_job now message_id recipient os =
    if exists_row (is_job message_id recipient) os
    then os
    else os ++ (new_job now message_id recipient ∷ [])

-- The actor that is woken: the one that adopted the recipient's inbox, if there is one.
unfoldable pub notification_actor : List AdoptionRow → String → String
notification_actor as' recipient = elim (adoption_of as' recipient) [
  | none ↦ recipient
  | some a ↦ a.adopting_actor
]

unfoldable pub insert_delivery : ℕ → Message → String → Db → Result Db
unfolding new_delivery enqueue_job notification_actor
insert_delivery now m recipient db = do
  reject (exists_row (is_delivery m.id recipient) db.deliveries) (failure "insert delivery")
  ok (record db {
    deliveries = db.deliveries ++ (new_delivery m.id recipient ∷ []);
    outbox =
        if m.delivery_request == non_blocking
        then db.outbox
        else enqueue_job now m.id (notification_actor db.adoptions recipient) db.outbox;
  })

unfoldable pub insert_deliveries : ℕ → Message → List String → Db → Result Db
unfolding insert_delivery
insert_deliveries now m [] db = ok db
insert_deliveries now m (a ∷ rest) db = do
  db1 ← insert_delivery now m a db
  insert_deliveries now m rest db1

unfoldable pub note_queued : Env → Message → List String → Db → Result Db
note_queued env m [] db = ok db
note_queued env m (a ∷ rest) db = do
  db1 ← append_event env m.project_id "operational" "delivery.queued" m.id a none db
  note_queued env m rest db1

abbrev pub resolution_field : List (String × String) → Payload
resolution_field [] = []
resolution_field (r ∷ rs) = ("alias_resolution", table (r ∷ rs)) ∷ []

unfoldable pub sent_payload : Env → Message → List (String × String) → Payload
sent_payload env m resolutions =
    event_provenance env.caller m.from_run
    ++ (("from_run", text m.from_run) ∷ [])
    ++ (("type", text m.message_type) ∷ [])
    ++ (("recipients", texts m.to_actors) ∷ [])
    ++ resolution_field resolutions

-- From the recipients on: the names, the guard on archived recipients, the rows and the events.
unfoldable pub store_message :
    Env → SendRequest → List (String × String) → Db → Result (SendResult × Db)
unfolding reserve_names new_message insert_message insert_deliveries note_queued sent_payload mint
store_message env req resolutions db = do
  let named = record db { names = reserve_names env.now (req.from_actor ∷ req.to_actors) db.names }
  reject (refuses_mail named req.to_actors) actor_archived
  (id, minted) ← mint env "msg" named
  let m = new_message env.now id req
  inserted ← insert_message m minted
  delivered ← insert_deliveries env.now m m.to_actors inserted
  noted ←
      append_event env m.project_id "durable" "message.sent" m.id m.from_actor
        (some (sent_payload env m resolutions)) delivered
  final ← note_queued env m m.to_actors noted
  ok (
    record {
      message = m;
      duplicate = false;
      notification_state = if m.delivery_request == non_blocking then "" else "pending";
    },
    final,
  )

-- The message that was sent before under the same key, if it asks for the same.
unfoldable pub answer_duplicate : Message → SendRequest → Db → Result (SendResult × Db)
answer_duplicate existing req db = do
  reject (not (equivalent_request existing req)) idempotency_conflict
  ok (record { message = existing; duplicate = true; notification_state = "" }, db)

-- A request whose key is new.
unfoldable pub send_new : Env → Option Message → SendRequest → Db → Result (SendResult × Db)
unfolding resolve_recipients store_message
send_new env parent req db = do
  (resolved, resolutions) ← resolve_recipients db parent req
  reject (any_human resolved) channel_capability
  store_message env (record req { to_actors = resolved }) resolutions db

-- What the lookup under the idempotency key leads to.
unfoldable pub send_keyed :
    Env → Option Message → SendRequest → Db → Result Message → Result (SendResult × Db)
unfolding send_new answer_duplicate
send_keyed env parent req db (ok existing) = answer_duplicate existing req db
send_keyed env parent req db (err not_found) = send_new env parent req db
send_keyed env parent req db (err e) = err e

unfoldable pub send_normalized : Env → SendRequest → Db → Result (SendResult × Db)
unfolding stamp send_keyed assert_actor_not_adopted
send_normalized env req db = do
  reject (is_human_actor req.from_actor) channel_capability
  reject (is_past env.now req.expires_at) (validation "expires_at" "must be in the future")
  assert_actor_not_adopted db req.from_actor
  (parent, stamped) ← stamp db req
  send_keyed env parent stamped db
      (get_message_by_idempotency db stamped.from_actor stamped.idempotency_key)

unfoldable pub send : (String → Bool) → Env → SendRequest → Db → Result (SendResult × Db)
unfolding send_normalized
send json_valid env request db = do
  req ← normalize_send_request json_valid request
  send_normalized env req db
