-- ===== src/Examples/Naming.antt =====
-- A run of the aliases: alice points a name to bob, and removes it.
use holler.Prelude.{◌≡◌, refl, false, [], ◌∷◌}
use holler.Prelude.Tests.{same_text}
use holler.Bus.Result.{ok, err, alias_not_found, alias_tombstoned, alias_conflict}
use holler.Bus.Text.{trim_space, validate_text_identifier, has_control, is_human_actor}
use holler.Bus.Types.{route_alias, route_actor}
use holler.Store.Db.{Db, empty_db}
use holler.Store.Events.{append_event}
use holler.Store.Routes.{resolve_route, actor_identity_exists}
use holler.Store.Aliases.{AliasMutationResult, set_alias, remove_alias, resolve_alias}
use holler.Store.AliasRequests.{AliasSetRequest, AliasRemoveRequest, normalize_alias}
use holler.Store.Aliases.Resolving.{set_alias-resolve, remove_alias-reserves}
use holler.Examples.World.{at_time, from_ok}

abbrev known_bob : Db
known_bob = record empty_db {
  names =
      record { actor = "alice"; first_seen_at = 1 }
      ∷ record { actor = "bob"; first_seen_at = 1 }
      ∷ [];
}

abbrev set_request : AliasSetRequest
set_request = record {
  alias = "helper";
  actor = "bob";
  updated_by_actor = "alice";
  updated_by_run = "run-a";
  project_id = "p";
  idempotency_key = "key-1";
}

abbrev remove_request : AliasRemoveRequest
remove_request = record {
  alias = "helper";
  updated_by_actor = "alice";
  updated_by_run = "run-a";
  project_id = "p";
  idempotency_key = "key-2";
}

abbrev no_mutation : AliasMutationResult × Db
no_mutation = (
  record {
    alias = record {
      alias = "";
      actor = "";
      revision = 0;
      updated_by_actor = "";
      updated_by_run = "";
      project_id = "";
      updated_at = 0;
    };
    removed = false;
    duplicate_request = false;
  },
  empty_db,
)

unfoldable pointed : AliasMutationResult × Db
unfolding set_alias
pointed = from_ok no_mutation (set_alias (at_time 10) set_request known_bob)

set_runs : set_alias (at_time 10) set_request known_bob ≡ ok (pointed.0, pointed.1)
unfolding set_alias pointed same_text trim_space validate_text_identifier has_control is_human_actor
    append_event actor_identity_exists
set_runs = refl

set_alias-resolve_example : resolve_alias pointed.1 "helper" ≡ ok pointed.0.alias
set_alias-resolve_example =
    set_alias-resolve (at_time 10) set_request known_bob pointed.0 pointed.1 set_runs (
      unfold set_alias pointed same_text trim_space validate_text_identifier has_control
        is_human_actor append_event actor_identity_exists in
      refl)

unfoldable retired_helper : AliasMutationResult × Db
unfolding remove_alias
retired_helper = from_ok no_mutation (remove_alias (at_time 20) remove_request pointed.1)

remove_runs :
    remove_alias (at_time 20) remove_request pointed.1 ≡ ok (retired_helper.0, retired_helper.1)
unfolding remove_alias retired_helper set_alias pointed same_text trim_space
    validate_text_identifier has_control is_human_actor append_event actor_identity_exists
remove_runs = refl

remove_fresh : retired_helper.0.duplicate_request ≡ false
unfolding remove_alias retired_helper set_alias pointed same_text trim_space
    validate_text_identifier has_control is_human_actor append_event actor_identity_exists
remove_fresh = refl

helper_normal : normalize_alias "alias" "helper" ≡ ok "helper"
unfolding normalize_alias same_text trim_space validate_text_identifier has_control
helper_normal = refl

remove_alias-reserves_example :
    (resolve_alias retired_helper.1 "helper" ≡ err alias_not_found)
    × (resolve_route retired_helper.1 (record { kind = route_alias; value = "helper" })
        ≡ err alias_tombstoned)
    × (resolve_route retired_helper.1 (record { kind = route_actor; value = "helper" })
        ≡ err alias_conflict)
remove_alias-reserves_example =
    remove_alias-reserves (at_time 20) remove_request pointed.1 retired_helper.0 retired_helper.1
      "helper" remove_runs remove_fresh helper_normal
