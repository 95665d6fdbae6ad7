-- ===== src/Examples/Ending.antt =====
-- A run of the store: alice sends bob and carol a message, bob claims and acknowledges his delivery, and
-- carol claims hers.
use holler.Prelude.{◌≡◌, refl, true, false, some, [], ◌∷◌}
use holler.Prelude.Tests.{same_text}
use holler.Bus.Result.{ok}
use holler.Bus.Text.{trim_space, validate_text_identifier, has_control, is_human_actor}
use holler.Bus.Normalize.{normalize_send_request}
use holler.Bus.Types.{Claim, SendRequest, SendResult, claimed}
use holler.Store.Messages.{get_message_by_id, get_message_by_idempotency}
use holler.Store.Routes.{resolve_routes, classify_legacy_routes}
use holler.Store.Db.{Db, DeliveryRow, empty_db}
use holler.Store.Events.{append_event}
use holler.Store.Recipients.{effective_delivery, effective_delivery_recipient, is_delivery}
use holler.Store.Transition.{finish_delivery_state}
use holler.Store.Sending.{send}
use holler.Store.Claiming.{claim}
use holler.Store.Finishing.{finish}
use holler.Store.Invariant.Histories.{History, empty, claims, sends, then_step, here}
use holler.Store.Invariant.Endings.{finish-ends}
use holler.Examples.Sending.{request, no_send}
use holler.Examples.Leases.{no_claim}
use holler.Examples.World.{at_time, from_ok, ran, from_ok-ran, to_bob}

abbrev to_both : SendRequest
to_both = record request { to_actors = "bob" ∷ "carol" ∷ [] }

unfoldable posted : SendResult × Db
unfolding send
posted = from_ok no_send (send (λ b. true) (at_time 10) to_both empty_db)

posted_runs : send (λ b. true) (at_time 10) to_both empty_db ≡ ok (posted.0, posted.1)
unfolding posted send same_text trim_space append_event normalize_send_request
    validate_text_identifier has_control is_human_actor get_message_by_idempotency resolve_routes
    classify_legacy_routes
posted_runs = refl

unfoldable taken : Claim × Db
unfolding claim
taken = from_ok no_claim (claim (at_time 20) "bob" "" 100 posted.1)

taken_runs : claim (at_time 20) "bob" "" 100 posted.1 ≡ ok (taken.0, taken.1)
unfolding taken claim send posted same_text trim_space append_event normalize_send_request
    validate_text_identifier has_control is_human_actor get_message_by_idempotency resolve_routes
    classify_legacy_routes effective_delivery effective_delivery_recipient get_message_by_id
taken_runs = refl

abbrev taken_row : DeliveryRow
taken_row = record to_bob {
  message_id = "id-0";
  state = claimed;
  attempt = 1;
  lease_token = some "id-4";
  lease_expires_at = some 120;
  claimed_at = some 20;
}

taken_effective : effective_delivery taken.1 (trim_space "bob") (trim_space "id-0") ≡ some taken_row
unfolding taken claim send posted same_text trim_space append_event normalize_send_request
    validate_text_identifier has_control is_human_actor get_message_by_idempotency resolve_routes
    classify_legacy_routes effective_delivery effective_delivery_recipient get_message_by_id
taken_effective = refl

unfoldable over : Db
unfolding finish
over = from_ok empty_db (finish (at_time 30) "bob" "id-0" "id-4" true false "" taken.1)

over_runs : finish (at_time 30) "bob" "id-0" "id-4" true false "" taken.1 ≡ ok over
unfolding over finish finish_delivery_state taken claim send posted same_text trim_space
    append_event normalize_send_request validate_text_identifier has_control is_human_actor
    get_message_by_idempotency resolve_routes classify_legacy_routes effective_delivery
    effective_delivery_recipient get_message_by_id
over_runs = refl

unfoldable next : Claim × Db
unfolding claim
next = from_ok no_claim (claim (at_time 500) "carol" "" 30 over)

next_ran : ran (claim (at_time 500) "carol" "" 30 over) ≡ true
unfolding over finish finish_delivery_state taken claim send posted same_text trim_space
    append_event normalize_send_request validate_text_identifier has_control is_human_actor
    get_message_by_idempotency resolve_routes classify_legacy_routes effective_delivery
    effective_delivery_recipient get_message_by_id
next_ran = refl

next_runs : claim (at_time 500) "carol" "" 30 over ≡ ok (next.0, next.1)
unfolding next
next_runs = from_ok-ran no_claim (claim (at_time 500) "carol" "" 30 over) next_ran

abbrev next_row : DeliveryRow
next_row = record to_bob { message_id = "id-0"; recipient_actor = "carol" }

next_effective : effective_delivery over (trim_space "carol") next.0.message.id ≡ some next_row
unfolding next over finish finish_delivery_state taken claim send posted same_text trim_space
    append_event normalize_send_request validate_text_identifier has_control is_human_actor
    get_message_by_idempotency resolve_routes classify_legacy_routes effective_delivery
    effective_delivery_recipient get_message_by_id
next_effective = refl

taken-History : History taken.1
taken-History =
    then_step (then_step empty (sends (λ b. true) (at_time 10) to_both posted.0 posted_runs))
      (claims (at_time 20) "bob" "" 100 taken.0 taken_runs)

finish-ends_example : is_delivery (trim_space "id-0") "bob" next_row ≡ false
finish-ends_example =
    finish-ends (at_time 30) (at_time 500) "bob" "id-0" "id-4" true false "" "carol" "" 30 taken.1
      over over next.1 next.0 taken_row next_row taken-History over_runs refl taken_effective here
      next_runs next_effective
