-- ===== src/Bus/Normalize.antt =====
-- internal/bus/model.go: `NormalizeSendRequest`, which trims, checks and orders what a sender wrote.
-- `json_valid` stands for `json.Valid` of encoding/json.
use Prim.Native.String.{len, compare}
use Prim.Native.Nat.{Ordering}
use holler.Prelude.{
  ℕ, Bool, true, false, ◌&&◌, ◌||◌, not, String, List, [], ◌∷◌, ◌++◌, ltb, ◌==◌, if◌then◌else◌,
}
use holler.Bus.Result.{Result, ok, reject, validation, ◌>>=◌, ◌>>◌}
use holler.Bus.Types.{
  Route, SendRequest, non_blocking, blocking_requested, wake_requested, route_alias, route_actor,
  route_reply, max_body_bytes,
}
use holler.Bus.Text.{trim_space, validate_text_identifier}

abbrev pub null {ℓ} : {A : Type ℓ} → List A → Bool
null [] = true
null (x ∷ xs) = false

-- The order of Go's `<` on strings, as a test for "not after".
abbrev pub text_le : String → String → Bool
text_le s t = elim (compare s t) [ Ordering.gt ↦ false | _ ↦ true ]

abbrev pub has_text : String → List String → Bool
has_text a [] = false
has_text a (x ∷ xs) = let rest = has_text a xs in x == a || rest

-- sort.Strings, by insertion.
unfoldable pub insert_text : String → List String → List String
insert_text a [] = a ∷ []
insert_text a (x ∷ xs) = let rest = insert_text a xs in if text_le a x then a ∷ x ∷ xs else x ∷ rest

unfoldable pub sort_texts : List String → List String
unfolding insert_text
sort_texts [] = []
sort_texts (x ∷ xs) = insert_text x (sort_texts xs)

-- Two destinations with the same key.
abbrev pub same_route : Route → Route → Bool
same_route r s = r.kind == s.kind && r.value == s.value

abbrev pub has_route : Route → List Route → Bool
has_route a [] = false
has_route a (x ∷ xs) = let rest = has_route a xs in same_route x a || rest

-- The order of `sort.Slice`: by kind, then by value.
abbrev pub route_le : Route → Route → Bool
route_le r s = if r.kind == s.kind then text_le r.value s.value else text_le r.kind s.kind

unfoldable pub insert_route : Route → List Route → List Route
insert_route a [] = a ∷ []
insert_route a (x ∷ xs) =
    let rest = insert_route a xs in if route_le a x then a ∷ x ∷ xs else x ∷ rest

unfoldable pub sort_routes : List Route → List Route
unfolding insert_route
sort_routes [] = []
sort_routes (x ∷ xs) = insert_route x (sort_routes xs)

unfoldable pub trim_fields : SendRequest → SendRequest
trim_fields req = record req {
  idempotency_key = trim_space req.idempotency_key;
  project_id = trim_space req.project_id;
  channel_id = trim_space req.channel_id;
  thread_id = trim_space req.thread_id;
  from_actor = trim_space req.from_actor;
  from_run = trim_space req.from_run;
  from_role = trim_space req.from_role;
  message_type = trim_space req.message_type;
  in_reply_to = trim_space req.in_reply_to;
}

-- The loop over `required`.
unfoldable pub check_required : List (String × String) → Result (Unit {0})
check_required [] = ok tt
check_required ((name, value) ∷ rest) = do
  reject (value == "") (validation name "is required")
  check_required rest

-- The loop over the fields with a bound.
unfoldable pub check_identifiers : List (String × String × ℕ) → Result (Unit {0})
check_identifiers [] = ok tt
check_identifiers ((name, value, max) ∷ rest) = do
  validate_text_identifier name value max
  check_identifiers rest

abbrev pub required_fields : SendRequest → List (String × String)
required_fields req =
    ("idempotency_key", req.idempotency_key)
    ∷ ("project_id", req.project_id)
    ∷ ("channel_id", req.channel_id)
    ∷ ("from_actor", req.from_actor)
    ∷ ("from_run", req.from_run)
    ∷ ("type", req.message_type)
    ∷ []

abbrev pub bounded_fields : SendRequest → List (String × String × ℕ)
bounded_fields req =
    ("project_id", req.project_id, 256)
    ∷ ("channel_id", req.channel_id, 128)
    ∷ ("thread_id", req.thread_id, 256)
    ∷ ("from_actor", req.from_actor, 128)
    ∷ ("from_run", req.from_run, 256)
    ∷ ("from_role", req.from_role, 128)
    ∷ ("type", req.message_type, 64)
    ∷ ("in_reply_to", req.in_reply_to, 128)
    ∷ []

abbrev pub default_text : String → String → String
default_text value fallback = if value == "" then fallback else value

unfoldable pub check_body : (String → Bool) → String → Result (Unit {0})
check_body json_valid body = do
  reject (trim_space body == "null") (validation "body" "must not be null")
  reject (ltb max_body_bytes (len body)) (validation "body" "exceeds 1 MiB")
  reject (not (json_valid body)) (validation "body" "must be valid JSON")

unfoldable pub check_delivery : String → Result (Unit {0})
check_delivery request =
    reject
      (not (request == non_blocking || request == blocking_requested || request == wake_requested))
      (validation "delivery_request" "is not supported")

-- The switch on the kind, and the checks of the value.
unfoldable pub check_route : Route → Result (Unit {0})
check_route r = do
  reject (r.kind == route_reply)
      (validation "destinations.kind" "reply routes must use in_reply_to")
  reject (not (r.kind == route_alias || r.kind == route_actor))
      (validation "destinations.kind" "must be alias or actor")
  reject (r.value == "") (validation "destinations.value" "is required")
  validate_text_identifier "destinations.value" r.value 128

abbrev pub trim_route : Route → Route
trim_route r = record r { value = trim_space r.value }

-- The loop over `req.Destinations`: `routes` holds what was kept, and so what `routeSeen` knows.
unfoldable pub collect_routes : List Route → List Route → Result (List Route)
unfolding check_route
collect_routes routes [] = ok routes
collect_routes routes (r ∷ rest) = do
  check_route (trim_route r)
  collect_routes (if has_route (trim_route r) routes then routes else routes ++ (trim_route r ∷ []))
      rest

-- The loop over `req.ToActors`.
unfoldable pub collect_recipients : List String → List String → Result (List String)
collect_recipients recipients [] = ok recipients
collect_recipients recipients (a ∷ rest) = do
  (if trim_space a == "" then ok tt else validate_text_identifier "to_actors" (trim_space a) 128)
  collect_recipients
      (if trim_space a == "" || has_text (trim_space a) recipients
        then recipients
        else recipients ++ (trim_space a ∷ []))
      rest

unfoldable pub normalize_send_request : (String → Bool) → SendRequest → Result SendRequest
unfolding trim_fields check_required check_identifiers check_body check_delivery collect_routes
    collect_recipients sort_routes sort_texts
normalize_send_request json_valid request = do
  let req = trim_fields request
  check_required (required_fields req)
  reject (ltb 256 (len req.idempotency_key)) (validation "idempotency_key" "exceeds 256 bytes")
  let body = default_text req.body "{}"
  check_body json_valid body
  check_identifiers (bounded_fields req)
  let delivery = default_text req.delivery_request non_blocking
  check_delivery delivery
  reject (not (null req.destinations) && not (null req.to_actors))
      (validation "destinations" "cannot be combined with legacy to_actors")
  reject (not (null req.destinations) && not (req.in_reply_to == ""))
      (validation "destinations" "cannot be combined with in_reply_to")
  routes ← collect_routes [] req.destinations
  recipients ← collect_recipients [] req.to_actors
  reject (null recipients && null (sort_routes routes) && req.in_reply_to == "")
      (validation "destinations" "requires an alias, actor, or in_reply_to")
  ok (record req {
    body = body;
    delivery_request = delivery;
    destinations = sort_routes routes;
    to_actors = sort_texts recipients;
  })
