-- ===== src/Store/AliasRequests.antt =====
-- internal/store/sqlite/alias.go: the requests of a mutation, trimmed and checked.
use holler.Prelude.{ℕ, String, List, [], ◌∷◌, ◌==◌}
use holler.Bus.Result.{Result, ok, reject, validation, ◌>>=◌, ◌>>◌}
use holler.Bus.Text.{trim_space, validate_text_identifier}
use holler.Store.Adoption.{check_fields}

pub record AliasSetRequest : Type 0 where
  pub alias : String
  pub actor : String
  pub updated_by_actor : String
  pub updated_by_run : String
  pub project_id : String
  pub idempotency_key : String

pub record AliasRemoveRequest : Type 0 where
  pub alias : String
  pub updated_by_actor : String
  pub updated_by_run : String
  pub project_id : String
  pub idempotency_key : String

unfoldable pub normalize_alias : String → String → Result String
normalize_alias field value = do
  reject (trim_space value == "") (validation field "is required")
  validate_text_identifier field (trim_space value) 128
  ok (trim_space value)

-- The fields that the two requests share, and the target of a set.
abbrev pub request_fields : String → String → String → String → List (String × String × ℕ)
request_fields updated_by_actor updated_by_run project_id idempotency_key =
    ("updated_by_actor", updated_by_actor, 128)
    ∷ ("updated_by_run", updated_by_run, 256)
    ∷ ("project_id", project_id, 256)
    ∷ ("idempotency_key", idempotency_key, 256)
    ∷ []

unfoldable pub trim_set_request : String → AliasSetRequest → AliasSetRequest
trim_set_request alias request = record {
  alias = alias;
  actor = trim_space request.actor;
  updated_by_actor = trim_space request.updated_by_actor;
  updated_by_run = trim_space request.updated_by_run;
  project_id = trim_space request.project_id;
  idempotency_key = trim_space request.idempotency_key;
}

abbrev pub set_fields : AliasSetRequest → List (String × String × ℕ)
set_fields req =
    ("actor", req.actor, 128)
    ∷ request_fields req.updated_by_actor req.updated_by_run req.project_id req.idempotency_key

unfoldable pub normalize_alias_set_request : AliasSetRequest → Result AliasSetRequest
unfolding normalize_alias check_fields trim_set_request
normalize_alias_set_request request = do
  alias ← normalize_alias "alias" request.alias
  check_fields (set_fields (trim_set_request alias request))
  ok (trim_set_request alias request)

unfoldable pub trim_remove_request : String → AliasRemoveRequest → AliasRemoveRequest
trim_remove_request alias request = record {
  alias = alias;
  updated_by_actor = trim_space request.updated_by_actor;
  updated_by_run = trim_space request.updated_by_run;
  project_id = trim_space request.project_id;
  idempotency_key = trim_space request.idempotency_key;
}

abbrev pub remove_fields : AliasRemoveRequest → List (String × String × ℕ)
remove_fields req =
    request_fields req.updated_by_actor req.updated_by_run req.project_id req.idempotency_key

unfoldable pub normalize_alias_remove_request : AliasRemoveRequest → Result AliasRemoveRequest
unfolding normalize_alias check_fields trim_remove_request
normalize_alias_remove_request request = do
  alias ← normalize_alias "alias" request.alias
  check_fields (remove_fields (trim_remove_request alias request))
  ok (trim_remove_request alias request)
