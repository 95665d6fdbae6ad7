-- ===== src/Examples/Binding.antt =====
-- A run of `normalizeActorBindRequest` of internal/store/sqlite/identity.go: a request for an allocated
-- name, whose handle is repeated.
use holler.Prelude.{◌≡◌, ◌≤◌, refl, false, ◌&&◌, not, [], ◌∷◌, length, ◌==◌}
use holler.Prelude.Tests.{same_text}
use holler.Bus.Result.{ok}
use holler.Bus.Text.{trim_space, validate_text_identifier, has_control}
use holler.Bus.Types.{ActorBindRequest}
use holler.Store.Adoption.{check_fields}
use holler.Store.Identity.{continuity_handle_kind}
use holler.Store.Identity.Requests.{
  normalize_actor_bind_request, normalize_actor_bind_request-bounded,
}

abbrev asked : ActorBindRequest
asked = record {
  requested_actor = " worker";
  run_id = "run-1";
  name_mode = "allocate";
  continuity_handles = "session:1" ∷ " session:1" ∷ [];
  project_id = "";
  takeover = false;
}

abbrev normal : ActorBindRequest
normal = record {
  requested_actor = "worker";
  run_id = "run-1";
  name_mode = "allocate";
  continuity_handles = "session:1" ∷ [];
  project_id = "default";
  takeover = false;
}

normal_runs : normalize_actor_bind_request asked ≡ ok normal
unfolding normalize_actor_bind_request same_text trim_space validate_text_identifier has_control
    continuity_handle_kind check_fields
normal_runs = refl

normalize_actor_bind_request-bounded_example :
    ((not (normal.name_mode == "exact") && not (normal.name_mode == "allocate")) ≡ false)
    × ((normal.requested_actor == "") ≡ false)
    × (length normal.continuity_handles ≤ 8)
normalize_actor_bind_request-bounded_example =
    normalize_actor_bind_request-bounded asked normal normal_runs
