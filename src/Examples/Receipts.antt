-- ===== src/Examples/Receipts.antt =====
-- A run of internal/store/sqlite/availability.go: bob, whose session of Claude was registered at time 10,
-- is the recipient of a message that asks for attention.
use holler.Prelude.{◌≡◌, refl, some, none, List, [], ◌∷◌, map, ◌==◌}
use holler.Prelude.Tests.{same_text}
use holler.Bus.Text.{trim_space}
use holler.Bus.Result.{ok}
use holler.Bus.Types.{DeliveryReceipt, Message, Registration}
use holler.Store.Tables.{find_row}
use holler.Store.Db.{Db}
use holler.Store.Sessions.{live_registrations}
use holler.Store.Availability.{delivery_receipts, actor_route}
use holler.Store.Availability.Receipts.{presence, delivery_receipts-present}
use holler.Examples.Presence.{own_row}
use holler.Examples.World.{at_time, from_ok, one_message}

abbrev with_session : Db
with_session = record one_message { registrations = own_row ∷ [] }

abbrev waking : Message
waking = record {
  id = "msg-1";
  idempotency_key = "key-1";
  project_id = "p";
  channel_id = "general";
  thread_id = "";
  from_actor = "alice";
  from_run = "run-a";
  from_role = "";
  to_actors = "bob" ∷ [];
  requested_routes = [];
  message_type = "note";
  delivery_request = "wake-requested";
  in_reply_to = "";
  body = "{}";
  created_at = 1;
  expires_at = none;
  requested_to_actors = "bob" ∷ [];
}

unfoldable sessions : List Registration
unfolding live_registrations
sessions = from_ok [] (live_registrations (at_time 20) "bob" with_session)

sessions_run : live_registrations (at_time 20) "bob" with_session ≡ ok sessions
unfolding sessions live_registrations same_text trim_space
sessions_run = refl

unfoldable told : List DeliveryReceipt
unfolding delivery_receipts
told = from_ok [] (delivery_receipts (at_time 20) waking with_session)

told_runs : delivery_receipts (at_time 20) waking with_session ≡ ok told
unfolding told delivery_receipts same_text trim_space
told_runs = refl

abbrev bobs_receipt : DeliveryReceipt
bobs_receipt = record {
  message_state = "committed";
  requested_route = actor_route "bob";
  canonical_recipient = "bob";
  route_kind = "actor";
  durable_delivery = "available";
  control_presence = "connected";
  attention_capability = "enabled";
  attention_attachment = "reconnecting";
  attention_reason = "monitor_reconnecting";
  attention_detail =
      "Claude attention is configured; the active monitor attachment is checked by the daemon";
  sender_action = "none";
}

bobs_told : find_row (λ r. r.canonical_recipient == "bob") told ≡ some bobs_receipt
unfolding told delivery_receipts same_text trim_space
bobs_told = refl

delivery_receipts-present_example :
    (map (λ r. r.canonical_recipient) told ≡ "bob" ∷ []) × ("connected" ≡ presence sessions)
delivery_receipts-present_example =
    delivery_receipts-present (at_time 20) waking with_session told "bob" bobs_receipt sessions
      told_runs (unfold same_text in refl) bobs_told sessions_run
