-- ===== src/Examples/Sending.antt =====
-- A run of the store: alice sends bob a message, who claims it.
use holler.Prelude.{◌≡◌, refl, is_some, true, false, none, some, [], ◌∷◌}
use holler.Prelude.Tests.{same_text}
use holler.Bus.Result.{ok}
use holler.Bus.Text.{trim_space, validate_text_identifier, has_control, is_human_actor}
use holler.Bus.Normalize.{normalize_send_request}
use holler.Store.Messages.{has_id, legacy_messages, read_message, get_message_by_idempotency}
use holler.Store.Routes.{is_adopted, resolve_routes, classify_legacy_routes}
use holler.Store.Tables.{find_row}
use holler.Bus.Types.{SendRequest, SendResult, route_actor}
use holler.Store.Db.{Db, MessageRow, DeliveryRow, empty_db, typed}
use holler.Store.Events.{append_event}
use holler.Store.Sending.{send, message_row}
use holler.Store.Sending.Retries.{send-retry}
use holler.Store.Claiming.{claim_candidate}
use holler.Store.Invariant.Endings.{History-claimable}
use holler.Store.Invariant.Inboxes.{joins, History-handlers}
use holler.Store.Recipients.{is_delivery, effective_delivery, handles}
use holler.Store.Invariant.{IsSound}
use holler.Store.Invariant.Histories.{History, sends, empty, then_step, History-IsSound}
use holler.Examples.World.{bob, at_time, from_ok, to_bob, hello}

abbrev pub request : SendRequest
request = record {
  idempotency_key = "key-1";
  project_id = "p";
  channel_id = "general";
  thread_id = "t";
  from_actor = "alice";
  from_run = "run-a";
  from_role = "";
  to_actors = "bob" ∷ [];
  destinations = [];
  message_type = "question";
  delivery_request = "";
  in_reply_to = "";
  body = "{}";
  expires_at = none;
  requested_to_actors = [];
  requested_routes = [];
}

abbrev pub no_send : SendResult × Db
unfolding read_message
no_send = (
  record { message = read_message hello []; duplicate = false; notification_state = "" },
  empty_db,
)

unfoldable sent : SendResult × Db
unfolding send
sent = from_ok no_send (send (λ b. true) (at_time 10) request empty_db)

send_runs : send (λ b. true) (at_time 10) request empty_db ≡ ok (sent.0, sent.1)
unfolding send sent same_text trim_space append_event normalize_send_request
    validate_text_identifier has_control is_human_actor get_message_by_idempotency resolve_routes
    classify_legacy_routes
send_runs = refl

sent-History : History sent.1
sent-History = then_step empty (sends (λ b. true) (at_time 10) request sent.0 send_runs)

History-IsSound_example : IsSound sent.1
History-IsSound_example = History-IsSound sent-History

abbrev queued_for_bob : DeliveryRow
queued_for_bob = record to_bob { message_id = "id-0" }

sent_delivery : find_row (is_delivery "id-0" "bob") sent.1.deliveries ≡ some queued_for_bob
unfolding send sent same_text trim_space append_event normalize_send_request
    validate_text_identifier has_control is_human_actor get_message_by_idempotency resolve_routes
    classify_legacy_routes
sent_delivery = refl

abbrev sent_row : MessageRow
sent_row = record hello {
  message_id = "id-0";
  delivery_request = "non-blocking";
  created_at = 10;
  recipients = typed (record { kind = "actor"; value = "bob" } ∷ []);
}

sent_message : find_row (has_id "id-0") (legacy_messages sent.1) ≡ some sent_row
unfolding send sent same_text trim_space append_event normalize_send_request
    validate_text_identifier has_control is_human_actor get_message_by_idempotency resolve_routes
    classify_legacy_routes
sent_message = refl

sent_effective : effective_delivery sent.1 "bob" "id-0" ≡ some queued_for_bob
unfolding send sent same_text trim_space append_event normalize_send_request
    validate_text_identifier has_control is_human_actor get_message_by_idempotency resolve_routes
    classify_legacy_routes effective_delivery
sent_effective = refl

History-claimable_example : is_some (claim_candidate sent.1 "bob" "id-0" 50) ≡ true
History-claimable_example =
    History-claimable 50 "bob" "id-0" sent.1 sent_row queued_for_bob sent-History sent_message refl
      (unfold same_text in refl) sent_effective refl refl

sent_handled : joins sent.1.adoptions "bob" "bob" ≡ true
unfolding send sent same_text trim_space append_event normalize_send_request
    validate_text_identifier has_control is_human_actor get_message_by_idempotency resolve_routes
    classify_legacy_routes joins
sent_handled = refl

History-handlers_example : (bob ≡ bob) × (handles sent.1.adoptions bob bob ≡ true)
History-handlers_example =
    History-handlers sent.1 bob bob bob sent-History sent_handled sent_handled

-- The request by a destination, and as Send normalizes it.
abbrev addressed : SendRequest
addressed = record request {
  to_actors = [];
  destinations = record { kind = route_actor; value = "bob" } ∷ [];
  expires_at = some 500;
}

abbrev normalized : SendRequest
normalized = record addressed { delivery_request = "non-blocking" }

addressed_runs : normalize_send_request (λ b. true) addressed ≡ ok normalized
unfolding normalize_send_request same_text trim_space validate_text_identifier has_control
addressed_runs = refl

unfoldable posted : SendResult × Db
unfolding send
posted = from_ok no_send (send (λ b. true) (at_time 10) addressed empty_db)

post_runs : send (λ b. true) (at_time 10) addressed empty_db ≡ ok (posted.0, posted.1)
unfolding send posted same_text trim_space append_event normalize_send_request
    validate_text_identifier has_control is_human_actor get_message_by_idempotency resolve_routes
post_runs = refl

posted_state : (posted.0.duplicate ≡ false) × (is_adopted posted.1 "alice" ≡ false)
unfolding send posted same_text trim_space append_event normalize_send_request
    validate_text_identifier has_control is_human_actor get_message_by_idempotency resolve_routes
posted_state = (refl, refl)

send-retry_example :
    send (λ b. true) (at_time 99) addressed posted.1
    ≡ ok (
      record {
        message = read_message (message_row posted.0.message) posted.1.deliveries;
        duplicate = true;
        notification_state = "";
      },
      posted.1,
    )
send-retry_example =
    send-retry (λ b. true) (at_time 10) (at_time 99) addressed normalized empty_db posted.0 posted.1
      addressed_runs refl (unfold same_text in refl) refl refl posted_state.1 post_runs
      posted_state.0
