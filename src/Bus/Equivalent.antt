-- ===== src/Bus/Equivalent.antt =====
-- internal/bus/model.go: `EquivalentRequest`, by which the store tells a retry from a reused key.
use holler.Prelude.{
  ℕ, Bool, true, false, ◌&&◌, ◌||◌, String, Option, none, some, List, [], ◌∷◌, map, eqb, ◌==◌,
}
use holler.Bus.Types.{Route, Message, SendRequest}

-- An older row recorded only the text: its kind is unknown, and empty.
abbrev pub legacy_routes : List String → List Route
legacy_routes = map λ value. record { kind = ""; value = value }

abbrev pub equal_kinds : String → String → Bool
equal_kinds a b = a == "" || b == "" || a == b

unfoldable pub equal_routes : List Route → List Route → Bool
equal_routes [] [] = true
equal_routes (a ∷ as') (b ∷ bs) =
    let rest = equal_routes as' bs in a.value == b.value && equal_kinds a.kind b.kind && rest
equal_routes _ _ = false

-- `if len(xs) == 0 { xs = ys }`
abbrev pub or_else {ℓ} : {A : Type ℓ} → List A → List A → List A
or_else [] ys = ys
or_else (x ∷ xs) ys = x ∷ xs

unfoldable pub message_routes : Message → List Route
message_routes m =
    or_else m.requested_routes
      (or_else (legacy_routes m.requested_to_actors) (legacy_routes m.to_actors))

unfoldable pub request_routes : SendRequest → List Route
request_routes r = or_else r.requested_routes (
    or_else r.destinations
      (or_else (legacy_routes r.requested_to_actors) (legacy_routes r.to_actors)))

-- The comparison of two `*time.Time`.
abbrev pub equal_times : Option ℕ → Option ℕ → Bool
equal_times none none = true
equal_times (some a) (some b) = eqb a b
equal_times _ _ = false

unfoldable pub equivalent_request : Message → SendRequest → Bool
unfolding equal_routes message_routes request_routes
equivalent_request m r =
    m.idempotency_key == r.idempotency_key
    && m.project_id == r.project_id
    && m.channel_id == r.channel_id
    && m.thread_id == r.thread_id
    && m.from_actor == r.from_actor
    && m.from_run == r.from_run
    && m.from_role == r.from_role
    && m.message_type == r.message_type
    && m.delivery_request == r.delivery_request
    && m.in_reply_to == r.in_reply_to
    && m.body == r.body
    && equal_routes (message_routes m) (request_routes r)
    && equal_times m.expires_at r.expires_at
