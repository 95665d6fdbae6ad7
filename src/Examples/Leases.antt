-- ===== src/Examples/Leases.antt =====
-- Runs of the store's claims and acknowledgements: bob claims the message at time 10 for 100, and
-- acknowledges it at time 20.
use holler.Prelude.{◌≡◌, ◌↔◌, ◌⊎◌, refl, true, false, none, some, [], ◌∷◌, arith}
use holler.Prelude.Tests.{same_text}
use holler.Bus.Text.{trim_space}
use holler.Bus.Result.{ok, err, lease_token_mismatch, lease_expired}
use holler.Bus.Types.{Claim, claimed, acked, dead_lettered}
use holler.Store.Db.{Db, MessageRow, DeliveryRow, empty_db}
use holler.Store.Events.{append_event}
use holler.Store.Events.Numbering.{IsNumbered, append_event-IsNumbered, next_of}
use holler.Store.Messages.{read_message, get_message_by_id}
use holler.Store.Recipients.{effective_delivery, effective_delivery_recipient, is_delivery}
use holler.Store.Recipients.Keys.{IsKeyed}
use holler.Store.Transition.{finish_delivery_state}
use holler.Store.Transition.Outcomes.{finish-allowed, finish-repeated}
use holler.Store.Claiming.{claim}
use holler.Store.Claiming.Held.{claim_excludes, here}
use holler.Store.Finishing.{finish}
use holler.Store.Finishing.Tokens.{finish_again}
use holler.Store.Finishing.Extending.{extend-fenced, extend-over}
use holler.Store.Claiming.{extend}
use holler.Store.Finishing.Fencing.{claim-fences}
use holler.Examples.World.{at_time, one_message, to_bob, from_ok, hello, apart, bob}

abbrev pub no_claim : Claim × Db
unfolding read_message
no_claim = (
  record {
    message = read_message hello one_message.deliveries;
    recipient_actor = "";
    original_recipient_actor = "";
    attempt = 0;
    lease_token = "";
    lease_expires_at = 0;
  },
  empty_db,
)

unfoldable bobs : Claim × Db
unfolding claim
bobs = from_ok no_claim (claim (at_time 10) "bob" "" 100 one_message)

claim_runs : claim (at_time 10) "bob" "" 100 one_message ≡ ok (bobs.0, bobs.1)
unfolding bobs claim same_text effective_delivery trim_space effective_delivery_recipient
    get_message_by_id append_event
claim_runs = refl

bobs_id : bobs.0.message.id ≡ "msg-1"
unfolding bobs claim same_text effective_delivery trim_space effective_delivery_recipient
    get_message_by_id append_event
bobs_id = refl

bobs_token : bobs.0.lease_token ≡ "id-0"
unfolding bobs claim same_text effective_delivery trim_space effective_delivery_recipient
    get_message_by_id append_event
bobs_token = refl

bobs_end : bobs.0.lease_expires_at ≡ 110
unfolding bobs claim same_text effective_delivery trim_space effective_delivery_recipient
    get_message_by_id append_event
bobs_end = refl

bobs-IsKeyed : IsKeyed bobs.1.deliveries
unfolding bobs claim same_text effective_delivery trim_space effective_delivery_recipient
    get_message_by_id append_event
bobs-IsKeyed = (refl, tt)

trim_id : trim_space "msg-1" ≡ "msg-1"
unfolding trim_space
trim_id = refl

unfoldable acknowledged : Db
unfolding finish
acknowledged = from_ok empty_db (finish (at_time 20) "bob" "msg-1" "id-0" true false "" bobs.1)

finish_runs : finish (at_time 20) "bob" "msg-1" "id-0" true false "" bobs.1 ≡ ok acknowledged
unfolding acknowledged finish finish_delivery_state bobs claim same_text effective_delivery
    trim_space effective_delivery_recipient get_message_by_id append_event
finish_runs = refl

abbrev second : MessageRow
second = record hello { message_id = "msg-2"; idempotency_key = "key-2"; created_at = 6 }

abbrev also_to_bob : DeliveryRow
also_to_bob = record to_bob { message_id = "msg-2" }

abbrev two_messages : Db
two_messages = record one_message {
  messages = hello ∷ second ∷ [];
  deliveries = to_bob ∷ also_to_bob ∷ [];
}

unfoldable first_claim : Claim × Db
unfolding claim
first_claim = from_ok no_claim (claim (at_time 10) "bob" "" 100 two_messages)

first_runs : claim (at_time 10) "bob" "" 100 two_messages ≡ ok (first_claim.0, first_claim.1)
unfolding first_claim claim same_text effective_delivery trim_space effective_delivery_recipient
    get_message_by_id append_event
first_runs = refl

first_effective :
    effective_delivery two_messages (trim_space "bob") first_claim.0.message.id ≡ some to_bob
unfolding first_claim claim same_text effective_delivery trim_space effective_delivery_recipient
    get_message_by_id append_event
first_effective = refl

first_end : first_claim.0.lease_expires_at ≡ 110
unfolding first_claim claim same_text effective_delivery trim_space effective_delivery_recipient
    get_message_by_id append_event
first_end = refl

unfoldable second_claim : Claim × Db
unfolding claim
second_claim = from_ok no_claim (claim (at_time 50) "bob" "" 30 first_claim.1)

second_runs : claim (at_time 50) "bob" "" 30 first_claim.1 ≡ ok (second_claim.0, second_claim.1)
unfolding second_claim first_claim claim same_text effective_delivery trim_space
    effective_delivery_recipient get_message_by_id append_event
second_runs = refl

second_effective :
    effective_delivery first_claim.1 (trim_space "bob") second_claim.0.message.id ≡ some also_to_bob
unfolding second_claim first_claim claim same_text effective_delivery trim_space
    effective_delivery_recipient get_message_by_id append_event
second_effective = refl

claim_excludes_example : is_delivery first_claim.0.message.id "bob" also_to_bob ≡ false
claim_excludes_example =
    claim_excludes (at_time 10) (at_time 50) "bob" "" "bob" "" 100 30 two_messages first_claim.1
      first_claim.1 second_claim.1 first_claim.0 second_claim.0 to_bob also_to_bob
      (unfold same_text in (refl, (refl, tt))) first_runs first_effective here
      (omega (arith, first_end)) second_runs second_effective

claim-fences_example :
    finish (at_time 50) "bob" "msg-1" "stale" true false "" bobs.1 ≡ err lease_token_mismatch
claim-fences_example =
    claim-fences (at_time 10) (at_time 50) "bob" "" "msg-1" "stale" "" 100 true false one_message
      bobs.0 bobs.1 claim_runs (refl, tt) (rw bobs_id trim_id) (unfold same_text trim_space in refl)
      (rw bobs_token (apart "id-0" (trim_space "stale") (unfold same_text trim_space in refl)))

finish_again_example :
    finish (at_time 90) "bob" "msg-1" "id-0" true false "" acknowledged ≡ ok acknowledged
finish_again_example =
    finish_again (at_time 20) (at_time 90) "bob" "msg-1" "id-0" true false "" "" bobs.1 acknowledged
      finish_runs refl

finish-allowed_example :
    (finish_delivery_state claimed (some bob) none bob true false ≡ ok false)
    ↔ ((claimed ≡ claimed) × (some bob ≡ some bob))
finish-allowed_example = finish-allowed claimed (some bob) none bob true false

finish-repeated_example : (finish_delivery_state acked none (some bob) bob true false ≡ ok true) ↔ (
    (some bob ≡ some bob)
    × (((acked ≡ acked) × (true ≡ true))
        ⊎ ((acked ≡ dead_lettered) × (true ≡ false) × (false ≡ true))))
finish-repeated_example = finish-repeated acked none (some bob) bob true false

unfoldable one_event : Db
unfolding append_event
one_event = from_ok empty_db (append_event (at_time 10) "p" "durable" "k" "m" "a" none one_message)

event_runs : append_event (at_time 10) "p" "durable" "k" "m" "a" none one_message ≡ ok one_event
unfolding one_event append_event same_text
event_runs = refl

append_event-IsNumbered_example : IsNumbered "p" "durable" one_event
append_event-IsNumbered_example =
    append_event-IsNumbered (at_time 10) "p" "durable" "k" "m" "a" none one_message one_event "p"
      "durable" event_runs (record { positions = tt; counter = unfold next_of in refl })

extend-fenced_example :
    extend (at_time 50) "bob" "msg-1" "stale" 30 bobs.1 ≡ err lease_token_mismatch
extend-fenced_example =
    extend-fenced (at_time 10) (at_time 50) "bob" "" "msg-1" "stale" 100 30 one_message bobs.0
      bobs.1 claim_runs (refl, tt) (rw bobs_id trim_id) (unfold same_text trim_space in refl) refl
      (rw bobs_token (apart "id-0" (trim_space "stale") (unfold same_text trim_space in refl)))

extend-over_example : extend (at_time 110) "bob" "msg-1" "id-0" 30 bobs.1 ≡ err lease_expired
extend-over_example =
    extend-over (at_time 10) (at_time 110) "bob" "" "msg-1" "id-0" 100 30 one_message bobs.0 bobs.1
      claim_runs (refl, tt) (rw bobs_id trim_id) (unfold same_text trim_space in refl) refl
      (rw bobs_token (unfold trim_space in refl)) (omega (arith, bobs_end))
