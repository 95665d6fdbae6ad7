-- ===== src/Store/Messages.antt =====
-- internal/store/sqlite/store.go: how a message is read back. legacy_messages is the view of the
-- messages that belong to no managed conversation.
use holler.Prelude.{ℕ, String, Bool, true, false, ◌&&◌, none, some, List, [], map, ltb, ◌==◌}
use holler.Bus.Result.{Result, ok, err, or_fail, not_found, idempotency_conflict, ◌>>=◌}
use holler.Bus.Types.{Route, Message}
use holler.Bus.Normalize.{sort_texts}
use holler.Store.Tables.{find_row, select_rows}
use holler.Store.Db.{Db, MessageRow, DeliveryRow, Recipients, absent, legacy, typed}

abbrev pub is_legacy : MessageRow → Bool
is_legacy m = elim m.conversation_id [ none ↦ true | some _ ↦ false ]

abbrev pub legacy_messages : Db → List MessageRow
legacy_messages db = select_rows is_legacy db.messages

abbrev pub has_id : String → MessageRow → Bool
has_id id m = m.message_id == id

-- (m.expires_at_ns IS NULL OR m.expires_at_ns > now)
abbrev pub is_unexpired : ℕ → MessageRow → Bool
is_unexpired now m = elim m.expires_at [ none ↦ true | some t ↦ ltb now t ]

-- The recipients of the message's deliveries, in order.
unfoldable pub recipients_of : String → List DeliveryRow → List String
unfolding sort_texts
recipients_of id ds =
    sort_texts (map (λ d. d.recipient_actor) (select_rows (λ d. d.message_id == id) ds))

-- What the JSON column says: the typed routes, and the texts.
abbrev pub decoded_routes : Recipients → List Route
decoded_routes absent = []
decoded_routes (legacy texts) = []
decoded_routes (typed routes) = routes

abbrev pub decoded_texts : Recipients → List String
decoded_texts absent = []
decoded_texts (legacy texts) = texts
decoded_texts (typed routes) = map (λ r. r.value) routes

unfoldable pub read_message : MessageRow → List DeliveryRow → Message
unfolding recipients_of
read_message m ds = record {
  id = m.message_id;
  idempotency_key = m.idempotency_key;
  project_id = m.project_id;
  channel_id = m.channel_id;
  thread_id = m.thread_id;
  from_actor = m.from_actor;
  from_run = m.from_run;
  from_role = m.from_role;
  to_actors = recipients_of m.message_id ds;
  requested_routes = decoded_routes m.recipients;
  message_type = m.message_type;
  delivery_request = m.delivery_request;
  in_reply_to = m.in_reply_to;
  body = m.body;
  created_at = m.created_at;
  expires_at = m.expires_at;
  requested_to_actors = decoded_texts m.recipients;
}

unfoldable pub get_message_by_id : Db → String → Result Message
unfolding read_message
get_message_by_id db id = do
  m ← or_fail (find_row (has_id id) (legacy_messages db)) not_found
  ok (read_message m db.deliveries)

abbrev pub sent_with : String → String → MessageRow → Bool
sent_with actor key m = m.from_actor == actor && m.idempotency_key == key

unfoldable pub get_message_by_idempotency : Db → String → String → Result Message
unfolding get_message_by_id
get_message_by_idempotency db actor key = do
  m ← or_fail (find_row (sent_with actor key) db.messages) not_found
  elim m.conversation_id [
    | some c ↦ err idempotency_conflict
    | none ↦ get_message_by_id db m.message_id
  ]
