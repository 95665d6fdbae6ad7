-- ===== src/Examples/Setup.antt =====
-- Runs of `ClaimAliasIfAbsent` of internal/store/sqlite/alias.go: alice's setup names bob p-claude, while
-- the name helper is there.
use holler.Prelude.{◌≡◌, refl, true, false, some, [], ◌∷◌}
use holler.Prelude.Tests.{same_text}
use holler.Bus.Result.{ok}
use holler.Bus.Text.{trim_space, validate_text_identifier, has_control, is_human_actor}
use holler.Bus.Types.{AliasClaimRequest, AliasClaimResult}
use holler.Store.Db.{Db, AliasRow, empty_db}
use holler.Store.Events.{append_event}
use holler.Store.Routes.{find_alias, actor_identity_exists}
use holler.Store.AliasClaims.{claim_alias_if_absent}
use holler.Store.AliasClaims.Keeping.{claim_alias-keeps, claim_alias-again}
use holler.Examples.World.{at_time, from_ok}

abbrev helper : AliasRow
helper = record {
  alias = "helper";
  actor = "alice";
  revision = 1;
  updated_by_actor = "alice";
  updated_by_run = "run-a";
  project_id = "p";
  idempotency_key = "key-0";
  updated_at = 1;
}

abbrev with_helper : Db
with_helper = record empty_db {
  names = record { actor = "bob"; first_seen_at = 1 } ∷ [];
  aliases = helper ∷ [];
}

abbrev claim_request : AliasClaimRequest
claim_request = record {
  alias = "p-claude";
  actor = "bob";
  policy_id = "setup:default-workstream-alias";
  harness = "Claude";
  updated_by_actor = "alice";
  updated_by_run = "run-a";
  project_id = "p";
  idempotency_key = "key-1";
}

abbrev no_claim : AliasClaimResult × Db
no_claim = (
  record {
    alias = record {
      alias = "";
      actor = "";
      revision = 0;
      updated_by_actor = "";
      updated_by_run = "";
      project_id = "";
      updated_at = 0;
    };
    claimed = false;
    policy_id = "";
    duplicate_request = false;
  },
  empty_db,
)

unfoldable named : AliasClaimResult × Db
unfolding claim_alias_if_absent
named = from_ok no_claim (claim_alias_if_absent (at_time 10) claim_request with_helper)

named_runs : claim_alias_if_absent (at_time 10) claim_request with_helper ≡ ok (named.0, named.1)
unfolding named claim_alias_if_absent same_text trim_space validate_text_identifier has_control
    is_human_actor append_event actor_identity_exists
named_runs = refl

named_claimed : named.0.claimed ≡ true
unfolding named claim_alias_if_absent same_text trim_space validate_text_identifier has_control
    is_human_actor append_event actor_identity_exists
named_claimed = refl

helper_found : find_alias with_helper "helper" ≡ some helper
unfolding same_text
helper_found = refl

claim_alias-keeps_example : find_alias named.1 "helper" ≡ some helper
claim_alias-keeps_example =
    claim_alias-keeps (at_time 10) claim_request with_helper named.0 named.1 "helper" helper
      named_runs helper_found

claim_alias-again_example :
    claim_alias_if_absent (at_time 50) claim_request named.1
    ≡ ok (record named.0 { duplicate_request = true }, named.1)
claim_alias-again_example =
    claim_alias-again (at_time 10) (at_time 50) claim_request with_helper named.0 named.1 named_runs
