-- ===== src/Examples/Retiring.antt =====
-- Runs of internal/store/sqlite/lifecycle.go: bob, who has an unread message, is archived at time 20 and
-- restored, and the lease of his crashed session is revoked.
use holler.Prelude.{◌≡◌, refl, String, Bool, true, false, is_some, some, none, [], ◌∷◌}
use holler.Prelude.Tests.{same_text}
use holler.Bus.Result.{ok, err, actor_archived, delivery_terminal}
use holler.Bus.Text.{trim_space, validate_text_identifier, has_control, is_human_actor}
use holler.Bus.Types.{ActorArchiveResult, SendRequest, claimed}
use holler.Store.Tables.{find_row}
use holler.Store.Db.{Db, DeliveryRow, empty_db}
use holler.Store.Recipients.{effective_delivery, handles}
use holler.Store.Routes.{is_archived}
use holler.Store.Adoption.{actor_has_live_presence}
use holler.Store.Claiming.{claim_candidate}
use holler.Store.Messages.{has_id, legacy_messages}
use holler.Store.Finishing.{finish}
use holler.Store.Sending.{store_message}
use holler.Store.Lifecycle.Archiving.{archive_actor, restore_actor}
use holler.Store.Lifecycle.Archived.{archive_actor-closes, archive_actor-restore}
use holler.Store.Lifecycle.Revoking.{revoke_delivery_lease}
use holler.Store.Lifecycle.Revoked.{revoke-fences}
use holler.Examples.World.{at_time, from_ok, one_message, to_bob, hello}

abbrev known_bob : Db
known_bob = record one_message { names = record { actor = "bob"; first_seen_at = 1 } ∷ [] }

abbrev no_result : ActorArchiveResult × Db
no_result = (record { actor = ""; archived = false; with_unread = false; changed_at = 0 }, empty_db)

abbrev any_text : String → Bool
any_text s = true

unfoldable retired : ActorArchiveResult × Db
unfolding archive_actor
retired =
    from_ok no_result
      (archive_actor any_text (at_time 19) (at_time 20) (at_time 21) "bob" "alice" true known_bob)

retired_runs :
    archive_actor any_text (at_time 19) (at_time 20) (at_time 21) "bob" "alice" true known_bob
    ≡ ok (retired.0, retired.1)
unfolding retired archive_actor same_text trim_space validate_text_identifier has_control
    is_human_actor handles
retired_runs = refl

abbrev to_retired : SendRequest
to_retired = record {
  idempotency_key = "key-9";
  project_id = "p";
  channel_id = "general";
  thread_id = "";
  from_actor = "alice";
  from_run = "run-a";
  from_role = "";
  to_actors = "bob" ∷ [];
  destinations = [];
  message_type = "note";
  delivery_request = "non-blocking";
  in_reply_to = "";
  body = "{}";
  expires_at = none;
  requested_to_actors = [];
  requested_routes = [];
}

archive_actor-closes_example :
    (is_archived retired.1 "bob" ≡ true)
    × (store_message (at_time 30) to_retired [] retired.1 ≡ err actor_archived)
archive_actor-closes_example =
    archive_actor-closes any_text (at_time 19) (at_time 20) (at_time 21) (at_time 30) "bob" "alice"
      true known_bob retired.0 retired.1 to_retired [] retired_runs refl (unfold same_text in refl)

archive_actor-restore_example :
    (back : ActorArchiveResult) × (db2 : Db) × (restore_actor (at_time 40) "bob" "alice" retired.1
      ≡ ok (back, db2))
    × (is_archived db2 "bob" ≡ false)
archive_actor-restore_example =
    archive_actor-restore any_text (at_time 19) (at_time 20) (at_time 21) (at_time 40) "bob" "alice"
      "alice" true known_bob retired.0 retired.1 retired_runs

abbrev leased_row : DeliveryRow
leased_row = record to_bob {
  state = claimed;
  attempt = 1;
  lease_token = some "lease-1";
  lease_expires_at = some 100;
  claimed_at = some 10;
}

abbrev crashed : Db
crashed = record one_message { deliveries = leased_row ∷ [] }

unfoldable freed : Db
unfolding revoke_delivery_lease
freed = from_ok empty_db (revoke_delivery_lease (at_time 60) "bob" (trim_space "msg-1") 30 crashed)

freed_runs : revoke_delivery_lease (at_time 60) "bob" (trim_space "msg-1") 30 crashed ≡ ok freed
unfolding freed revoke_delivery_lease same_text trim_space
freed_runs = refl

crashed_delivery :
    effective_delivery crashed (trim_space "bob") (trim_space "msg-1") ≡ some leased_row
unfolding effective_delivery same_text trim_space
crashed_delivery = refl

crashed_message : find_row (has_id (trim_space "msg-1")) (legacy_messages crashed) ≡ some hello
unfolding same_text trim_space
crashed_message = refl

revoke-fences_example :
    (actor_has_live_presence crashed "bob" 60 ≡ false)
    × (finish (at_time 70) "bob" "msg-1" "lease-1" true false "" freed ≡ err delivery_terminal)
    × (is_some (claim_candidate freed (trim_space "bob") (trim_space "msg-1") 80) ≡ true)
revoke-fences_example =
    revoke-fences (at_time 60) (at_time 70) "bob" "bob" "msg-1" "lease-1" "" 30 80 true false
      crashed freed leased_row hello freed_runs (refl, tt) (unfold same_text trim_space in refl)
      crashed_delivery refl (unfold trim_space in refl) crashed_message refl
