-- ===== src/Store/AliasClaims.antt =====
-- internal/store/sqlite/alias.go: `ClaimAliasIfAbsent`, by which the setup of a project names its agents,
-- and the listings of aliases.
pub mod Keeping
use Prim.Native.String.{◌++◌ as append}
use holler.Prelude.{
  is_some, ℕ, ◌+◌, ◌*◌, String, Char, Bool, true, false, ◌&&◌, ◌||◌, not, Option, none, some, List,
  [], ◌∷◌, ◌++◌, map, code, leb, ◌==◌, if◌then◌else◌,
}
use holler.Bus.Result.{
  Result, ok, err, reject, or_fail, channel_capability, idempotency_conflict, alias_conflict,
  alias_tombstoned, alias_target_unknown, actor_archived, validation, failure, ◌>>=◌, ◌>>◌,
}
use holler.Bus.Caller.{text, number}
use holler.Bus.Text.{trim_space, is_human_actor, lower_is}
use holler.Bus.Types.{ActorAlias, AliasClaimRequest, AliasClaimResult}
use holler.Bus.Normalize.{text_le}
use holler.Store.Tables.{exists_row, find_row, select_rows, order_rows}
use holler.Store.Db.{Db, Env, AliasRow, AliasHistoryRow, AliasClaimRow}
use holler.Store.Events.{append_event}
use holler.Store.Routes.{find_alias, was_alias, is_archived, actor_identity_exists}
use holler.Store.Adoption.{check_fields}
use holler.Store.AliasRequests.{normalize_alias}
use holler.Store.Aliases.{alias_request_by_idempotency, of_row, has_alias, history_clash}

abbrev pub claim_policy : String
claim_policy = "setup:default-workstream-alias"

unfoldable pub trim_claim_request : String → AliasClaimRequest → AliasClaimRequest
trim_claim_request alias request = record {
  alias = alias;
  actor = trim_space request.actor;
  policy_id = trim_space request.policy_id;
  harness = trim_space request.harness;
  updated_by_actor = trim_space request.updated_by_actor;
  updated_by_run = trim_space request.updated_by_run;
  project_id = trim_space request.project_id;
  idempotency_key = trim_space request.idempotency_key;
}

abbrev pub claim_fields : AliasClaimRequest → List (String × String × ℕ)
claim_fields req =
    ("actor", req.actor, 128)
    ∷ ("policy_id", req.policy_id, 256)
    ∷ ("harness", req.harness, 64)
    ∷ ("updated_by_actor", req.updated_by_actor, 128)
    ∷ ("updated_by_run", req.updated_by_run, 256)
    ∷ ("project_id", req.project_id, 256)
    ∷ ("idempotency_key", req.idempotency_key, 256)
    ∷ []

-- strings.ToLower(value) == word, for a word of small ASCII letters
unfoldable pub lowers_to : String → String → Bool
lowers_to String.[] String.[] = true
lowers_to (String.◌∷◌ c word) (String.◌∷◌ d value) =
    let rest = lowers_to word value in lower_is (code c) d && rest
lowers_to _ _ = false

-- The harness in small letters, if it is one of the three.
unfoldable pub lower_harness : String → Option String
unfolding lowers_to
lower_harness harness =
    if lowers_to "claude" harness
    then some "claude"
    else if lowers_to "codex" harness
    then some "codex"
    else if lowers_to "opencode" harness
    then some "opencode"
    else none

abbrev pub policy_alias : String → String → String
policy_alias project_id harness = append project_id (append "-" harness)

unfoldable pub normalize_alias_claim_request : AliasClaimRequest → Result AliasClaimRequest
unfolding normalize_alias check_fields trim_claim_request lower_harness
normalize_alias_claim_request request = do
  alias ← normalize_alias "alias" request.alias
  let req = trim_claim_request alias request
  check_fields (claim_fields req)
  reject (not (req.policy_id == claim_policy))
      (validation "policy_id" "is not an installed naming policy")
  harness ←
      or_fail (lower_harness req.harness)
        (validation "harness" "must be claude, codex, or opencode")
  reject (not (alias == policy_alias req.project_id harness))
      (validation "alias" "is not the one that the policy permits")
  ok (record req { harness = harness })

abbrev pub is_claim_request : String → String → AliasClaimRow → Bool
is_claim_request actor key c = c.updated_by_actor == actor && c.idempotency_key == key

abbrev pub claim_differs : AliasClaimRequest → AliasClaimRow → Bool
claim_differs req c =
    not (c.alias == req.alias)
    || not (c.actor == req.actor)
    || not (c.policy_id == req.policy_id)
    || not (c.harness == req.harness)
    || not (c.project_id == req.project_id)

-- The request was made before: it has the same answer.
unfoldable pub answer_claimed :
    AliasClaimRow → AliasClaimRequest → Db → Result (AliasClaimResult × Db)
answer_claimed c req db = do
  reject (claim_differs req c) idempotency_conflict
  ok (record c.claim_result { duplicate_request = true }, db)

-- The rows of an alias that is claimed.
abbrev pub claimed_row : ℕ → AliasClaimRequest → AliasRow
claimed_row now req = record {
  alias = req.alias;
  actor = req.actor;
  revision = 1;
  updated_by_actor = req.updated_by_actor;
  updated_by_run = req.updated_by_run;
  project_id = req.project_id;
  idempotency_key = req.idempotency_key;
  updated_at = now;
}

abbrev pub claimed_history : ℕ → AliasClaimRequest → AliasHistoryRow
claimed_history now req = record {
  alias = req.alias;
  revision = 1;
  actor = req.actor;
  action = "claim";
  updated_by_actor = req.updated_by_actor;
  updated_by_run = req.updated_by_run;
  project_id = req.project_id;
  idempotency_key = req.idempotency_key;
  updated_at = now;
}

-- The name is free: neither an alias, nor one that was, nor an actor.
unfoldable pub claim_free_alias : Env → AliasClaimRequest → Db → Result (AliasClaimResult × Db)
claim_free_alias env req db = do
  reject (was_alias db req.alias) alias_tombstoned
  reject (actor_identity_exists db req.alias) alias_conflict
  reject (exists_row (history_clash (claimed_history env.now req)) db.alias_history)
      (failure "record alias claim")
  db' ←
      append_event env req.project_id "durable" "actor.alias_claim" "" req.updated_by_actor
        (some (
          ("alias", text req.alias)
          ∷ ("actor", text req.actor)
          ∷ ("policy_id", text req.policy_id)
          ∷ ("revision", number 1)
          ∷ []))
        (record db {
          alias_history = db.alias_history ++ (claimed_history env.now req ∷ []);
          aliases = db.aliases ++ (claimed_row env.now req ∷ []);
        })
  ok (
    record {
      alias = of_row (claimed_row env.now req);
      claimed = true;
      policy_id = req.policy_id;
      duplicate_request = false;
    },
    db',
  )

-- An alias that is there is left as it is.
unfoldable pub claim_or_keep : Env → AliasClaimRequest → Db → Result (AliasClaimResult × Db)
unfolding claim_free_alias
claim_or_keep env req db = elim (find_alias db req.alias) [
  | some a ↦ ok (
    record {
      alias = of_row a;
      claimed = false;
      policy_id = req.policy_id;
      duplicate_request = false;
    },
    db,
  )
  | none ↦ claim_free_alias env req db
]

abbrev pub claim_row : ℕ → AliasClaimRequest → AliasClaimResult → AliasClaimRow
claim_row now req answer = record {
  updated_by_actor = req.updated_by_actor;
  idempotency_key = req.idempotency_key;
  alias = req.alias;
  actor = req.actor;
  policy_id = req.policy_id;
  harness = req.harness;
  project_id = req.project_id;
  claim_result = answer;
  created_at = now;
}

unfoldable pub claim_alias_new : Env → AliasClaimRequest → Db → Result (AliasClaimResult × Db)
unfolding claim_or_keep
claim_alias_new env req db = do
  reject (is_some (alias_request_by_idempotency db req.updated_by_actor req.idempotency_key))
      idempotency_conflict
  reject (not (actor_identity_exists db req.actor)) alias_target_unknown
  reject (is_archived db req.actor) actor_archived
  (answer, db1) ← claim_or_keep env req db
  ok (answer, record db1 { alias_claims = db1.alias_claims ++ (claim_row env.now req answer ∷ []) })

unfoldable pub claim_alias_normalized :
    Env → AliasClaimRequest → Db → Result (AliasClaimResult × Db)
unfolding answer_claimed claim_alias_new
claim_alias_normalized env req db =
    elim (find_row (is_claim_request req.updated_by_actor req.idempotency_key) db.alias_claims) [
      | some c ↦ answer_claimed c req db
      | none ↦ claim_alias_new env req db
    ]

unfoldable pub claim_alias_if_absent : Env → AliasClaimRequest → Db → Result (AliasClaimResult × Db)
unfolding normalize_alias_claim_request claim_alias_normalized
claim_alias_if_absent env request db = do
  req ← normalize_alias_claim_request request
  reject (is_human_actor req.alias || is_human_actor req.actor) channel_capability
  claim_alias_normalized env req db

abbrev pub alias_le : AliasRow → AliasRow → Bool
alias_le a b = text_le a.alias b.alias

unfoldable pub list_aliases : Db → List ActorAlias
list_aliases db = map of_row (order_rows alias_le db.aliases)

unfoldable pub aliases_for_actor : String → Db → List String
aliases_for_actor actor db =
    map (λ a. a.alias) (order_rows alias_le (select_rows (λ a. a.actor == actor) db.aliases))
