-- ===== src/Store/Availability.antt =====
-- internal/store/sqlite/availability.go: what a sender is told of each recipient of its message.
pub mod Receipts
use holler.Prelude.{
  ℕ, String, Bool, true, false, ◌&&◌, ◌||◌, not, Option, none, some, List, [], ◌∷◌, map, length,
  eqb, leb, ◌==◌, if◌then◌else◌,
}
use holler.Bus.Result.{Result, ok, err, reject, or_fail, failure, ◌>>=◌, ◌>>◌}
use holler.Bus.Caller.{Value, text, number, texts, table, Payload}
use holler.Bus.Types.{
  Route, Message, Registration, DeliveryReceipt, non_blocking, route_alias, route_actor,
  route_reply,
}
use holler.Store.Tables.{exists_row, find_row, select_rows, first_row}
use holler.Store.Db.{Db, Env, EventRow, ConditionRow}
use holler.Store.Conditions.{is_condition, is_resolved}
use holler.Store.Sessions.{live_registrations}

abbrev pub actor_route : String → Route
actor_route actor = record { kind = route_actor; value = actor }

abbrev pub is_sent_event : String → EventRow → Bool
is_sent_event id e =
    (elim e.message_id [ none ↦ false | some m ↦ m == id ])
    && e.stream == "durable"
    && e.kind == "message.sent"

-- The field of the payload, none where it has none.
abbrev pub alias_resolution : Payload → Result (List (String × String))
alias_resolution [] = ok []
alias_resolution ((key, value) ∷ rest) =
    let others = alias_resolution rest in
    if key == "alias_resolution"
    then (elim value [
      | table entries ↦ ok entries
      | text s ↦ err (failure "decode immutable route resolution")
      | number n ↦ err (failure "decode immutable route resolution")
      | texts ss ↦ err (failure "decode immutable route resolution")
    ])
    else others

unfoldable pub immutable_resolution : Db → String → Result (List (String × String))
immutable_resolution db id = do
  e ←
      or_fail
        (first_row (λ e f. leb e.position f.position) (select_rows (is_sent_event id) db.events))
        (failure "read immutable route resolution")
  payload ← or_fail e.payload (failure "decode immutable route resolution")
  alias_resolution payload

-- A missing key is the empty text.
abbrev pub canonical_of : String → List (String × String) → String
canonical_of alias resolutions = elim (find_row (λ p. p.0 == alias) resolutions) [
  | none ↦ ""
  | some p ↦ p.1
]

-- `if _, exists := result[actor]; !exists { result[actor] = route }`
abbrev pub keep_first : String → Route → List (String × Route) → List (String × Route)
keep_first actor route found =
    if exists_row (λ p. p.0 == actor) found then found else (actor, route) ∷ found

unfoldable pub route_target : Message → List (String × String) → Route → Result String
route_target m resolutions route =
    if route.kind == route_alias
    then (if canonical_of route.value resolutions == ""
        then err (failure "immutable resolution is unavailable")
        else ok (canonical_of route.value resolutions))
    else if route.kind == route_reply
    then (elim m.to_actors [
      | [] ↦ err (failure "reply message has no canonical recipient")
      | actor ∷ others ↦ elim others [
        | [] ↦ ok actor
        | _ ∷ _ ↦ err (failure "reply message has several canonical recipients")
      ]
    ])
    else ok route.value

unfoldable pub add_routes :
    Message
    → List (String × String)
    → List Route
    → List (String × Route)
    → Result (List (String × Route))
unfolding route_target
add_routes m resolutions [] found = ok found
add_routes m resolutions (route ∷ rest) found = do
  actor ← route_target m resolutions route
  add_routes m resolutions rest (keep_first actor route found)

-- The resolutions are read where an alias needs them.
unfoldable pub resolve_requested : Bool → Db → Message → List Route → Result (List (String × Route))
unfolding immutable_resolution add_routes
resolve_requested false db m routes = add_routes m [] routes []
resolve_requested true db m routes = do
  resolutions ← immutable_resolution db m.id
  add_routes m resolutions routes []

unfoldable pub requested_routes_by_actor : Db → Message → Result (List (String × Route))
unfolding resolve_requested
requested_routes_by_actor db m = elim m.requested_routes [
  | [] ↦ ok (map (λ actor. (actor, actor_route actor)) m.to_actors)
  | route ∷ routes ↦
      resolve_requested (exists_row (λ r. r.kind == route_alias) (route ∷ routes)) db m
        (route ∷ routes)
]

-- The reason and the summary, empty where no condition is active.
unfoldable pub active_attention_condition : Db → String → String × String
active_attention_condition db actor =
    elim (find_row (λ c. is_condition "attention_unavailable" actor c && not (is_resolved c.state))
      db.conditions) [ none ↦ ("", "") | some c ↦ (c.reason_code, c.summary) ]

unfoldable pub apply_attention_condition : DeliveryReceipt → String → String → DeliveryReceipt
apply_attention_condition receipt reason summary =
    if reason == "" then receipt else record receipt {
      attention_capability =
          if reason == "startup_only_selected"
          then "disabled_by_config"
          else if reason == "harness_wake_unsupported"
          then "version_blocked"
          else "integration_missing";
      attention_attachment = if reason == "host_not_attached" then "unavailable" else "detached";
      attention_reason = reason;
      attention_detail = summary;
      sender_action = "inform_operator";
    }

unfoldable pub new_receipt : Route → String → DeliveryReceipt
new_receipt route actor = record {
  message_state = "committed";
  requested_route = route;
  canonical_recipient = actor;
  route_kind = route.kind;
  durable_delivery = "available";
  control_presence = "";
  attention_capability = "";
  attention_attachment = "";
  attention_reason = "";
  attention_detail = "";
  sender_action = "none";
}

unfoldable pub not_requested : DeliveryReceipt → DeliveryReceipt
not_requested receipt = record receipt {
  control_presence = "unknown";
  attention_capability = "unknown";
  attention_attachment = "unknown";
  attention_reason = "not_requested";
}

unfoldable pub disconnected : DeliveryReceipt → DeliveryReceipt
disconnected receipt = record receipt {
  control_presence = "disconnected";
  attention_capability = "unknown";
  attention_attachment = "detached";
  attention_reason = "session_not_registered";
  attention_detail = "message is durable; no live recipient session is registered";
}

unfoldable pub startup_only : DeliveryReceipt → DeliveryReceipt
startup_only receipt = record receipt {
  control_presence = "connected";
  attention_capability = "disabled_by_config";
  attention_attachment = "detached";
  attention_reason = "startup_only_selected";
  attention_detail =
      "recipient selected startup-only attention and will hydrate this message on its next start";
  sender_action = "inform_operator";
}

unfoldable pub attended : Registration → DeliveryReceipt → DeliveryReceipt
attended enabled receipt =
    let attached = record receipt {
      control_presence = "connected";
      attention_capability = "enabled";
      attention_attachment = "attached";
    } in
    if enabled.harness == "claude" && enabled.attention_mode == "host-injected"
    then (if enabled.host_attention_admitted
        then record attached {
          attention_attachment = "reconnecting";
          attention_reason = "host_reconnecting";
          attention_detail =
              "Claude host attention is configured; the admitted host attachment is checked by the daemon";
        }
        else record attached {
          attention_capability = "integration_missing";
          attention_attachment = "unavailable";
          attention_reason = "host_not_attached";
          attention_detail =
              "experimental Claude host attention has never admitted its host; the message remains durable";
          sender_action = "inform_operator";
        })
    else if enabled.harness == "claude" && enabled.attention_mode == "hook-long-poll"
    then record attached {
      attention_attachment = "reconnecting";
      attention_reason = "monitor_reconnecting";
      attention_detail =
          "Claude attention is configured; the active monitor attachment is checked by the daemon";
    }
    else attached

abbrev pub is_enabled : Registration → Bool
is_enabled r = not (r.attention_mode == "startup-only")

-- The receipt by the live registrations of its recipient, before the condition of its attention.
unfoldable pub by_registrations : List Registration → DeliveryReceipt → DeliveryReceipt
unfolding disconnected startup_only attended
by_registrations [] receipt = disconnected receipt
by_registrations (r ∷ rs) receipt = elim (find_row is_enabled (r ∷ rs)) [
  | none ↦ startup_only receipt
  | some enabled ↦ attended enabled receipt
]

unfoldable pub route_for : List (String × Route) → String → Route
route_for requested actor = elim (find_row (λ p. p.0 == actor) requested) [
  | none ↦ actor_route actor
  | some p ↦ p.1
]

unfoldable pub attention_receipt : Env → DeliveryReceipt → Db → Result DeliveryReceipt
unfolding live_registrations active_attention_condition apply_attention_condition by_registrations
attention_receipt env receipt db = do
  registrations ← live_registrations env receipt.canonical_recipient db
  let (reason, summary) = active_attention_condition db receipt.canonical_recipient
  ok (apply_attention_condition (by_registrations registrations receipt) reason summary)

unfoldable pub receipts_of :
    Env → String → List (String × Route) → List String → Db → Result (List DeliveryReceipt)
unfolding not_requested attention_receipt new_receipt route_for
receipts_of env delivery_request requested [] db = ok []
receipts_of env delivery_request requested (actor ∷ rest) db = do
  let fresh = new_receipt (route_for requested actor) actor
  receipt ←
      if delivery_request == non_blocking
      then ok (not_requested fresh)
      else attention_receipt env fresh db
  receipts ← receipts_of env delivery_request requested rest db
  ok (receipt ∷ receipts)

unfoldable pub delivery_receipts : Env → Message → Db → Result (List DeliveryReceipt)
unfolding requested_routes_by_actor receipts_of
delivery_receipts env m db = do
  requested ← requested_routes_by_actor db m
  receipts_of env m.delivery_request requested m.to_actors db
