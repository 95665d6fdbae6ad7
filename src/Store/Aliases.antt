-- ===== src/Store/Aliases.antt =====
-- internal/store/sqlite/alias.go: the names that point to actors, and their history.
pub mod Resolving
use holler.Prelude.{
  ℕ, ◌+◌, String, Bool, true, false, ◌&&◌, ◌||◌, not, Option, none, some, List, [], ◌∷◌, ◌++◌, ltb,
  eqb, ◌==◌, if◌then◌else◌,
}
use holler.Bus.Result.{
  Result, ok, err, reject, or_fail, channel_capability, idempotency_conflict, alias_conflict,
  alias_not_found, alias_target_unknown, actor_archived, validation, failure, ◌>>=◌, ◌>>◌,
}
use holler.Bus.Caller.{Payload, text, number}
use holler.Bus.Types.{ActorAlias}
use holler.Bus.Text.{trim_space, validate_text_identifier, is_human_actor}
use holler.Store.Tables.{exists_row, find_row, update_rows, delete_rows}
use holler.Store.Db.{Db, Env, AliasRow, AliasHistoryRow}
use holler.Store.Events.{append_event}
use holler.Store.Routes.{find_alias, is_archived, actor_identity_exists}
use holler.Store.Adoption.{check_fields}
use holler.Store.AliasRequests.{
  AliasSetRequest, AliasRemoveRequest, normalize_alias, normalize_alias_set_request,
  normalize_alias_remove_request, request_fields, trim_set_request, set_fields, trim_remove_request,
  remove_fields,
}

pub record AliasMutationResult : Type 0 where
  pub alias : ActorAlias
  pub removed : Bool
  pub duplicate_request : Bool

-- The two actions of a mutation; a set names its target.
pub data Action : Type 0 where
  sets : String → Action
  removes : Action

abbrev pub action_name : Action → String
action_name (sets actor) = "set"
action_name removes = "remove"

abbrev pub is_removal : Action → Bool
is_removal (sets actor) = false
is_removal removes = true

-- The request of a mutation, its fields trimmed and checked.
pub record Mutation : Type 0 where
  pub alias : String
  pub action : Action
  pub updated_by_actor : String
  pub updated_by_run : String
  pub project_id : String
  pub idempotency_key : String

abbrev pub asked_with : String → String → AliasHistoryRow → Bool
asked_with actor key h = h.updated_by_actor == actor && h.idempotency_key == key

-- aliasRequestByIdempotencyTx
abbrev pub alias_request_by_idempotency : Db → String → String → Option AliasHistoryRow
alias_request_by_idempotency db actor key = find_row (asked_with actor key) db.alias_history

-- aliasClaimRequestExistsTx
abbrev pub alias_claim_request_exists : Db → String → String → Bool
alias_claim_request_exists db actor key =
    exists_row (λ c. c.updated_by_actor == actor && c.idempotency_key == key) db.alias_claims

-- SELECT COALESCE(MAX(revision), 0) … WHERE alias = ?
unfoldable pub max_revision : String → List AliasHistoryRow → ℕ
max_revision alias [] = 0
max_revision alias (h ∷ hs) =
    let rest = max_revision alias hs in
    if h.alias == alias && ltb rest h.revision then h.revision else rest

abbrev pub differs : Mutation → AliasHistoryRow → Bool
differs m h =
    not (h.alias == m.alias)
    || (elim m.action [ removes ↦ false | sets actor ↦ not (h.actor == actor) ])
    || not (h.action == action_name m.action)
    || not (h.project_id == m.project_id)

abbrev pub of_history : AliasHistoryRow → ActorAlias
of_history h = record {
  alias = h.alias;
  actor = h.actor;
  revision = h.revision;
  updated_by_actor = h.updated_by_actor;
  updated_by_run = h.updated_by_run;
  project_id = h.project_id;
  updated_at = h.updated_at;
}

unfoldable pub answer_repeated : AliasHistoryRow → Mutation → Db → Result (AliasMutationResult × Db)
answer_repeated h m db = do
  reject (differs m h) idempotency_conflict
  ok (record { alias = of_history h; removed = is_removal m.action; duplicate_request = true }, db)

-- The guards of an action; what is recorded as the actor of the mutation.
unfoldable pub check_action : Mutation → Action → Db → Result String
check_action m (sets actor) db = do
  reject (m.alias == m.updated_by_actor) alias_conflict
  reject (not (actor_identity_exists db actor)) alias_target_unknown
  reject (is_archived db actor) actor_archived
  reject (actor_identity_exists db m.alias) alias_conflict
  ok actor
check_action m removes db = elim (find_alias db m.alias) [
  | none ↦ err alias_not_found
  | some a ↦ ok a.actor
]

abbrev pub has_alias : String → AliasRow → Bool
has_alias name a = a.alias == name

-- INSERT … ON CONFLICT(alias) DO UPDATE
unfoldable pub put_alias : AliasRow → List AliasRow → List AliasRow
put_alias row as' =
    if exists_row (has_alias row.alias) as'
    then update_rows (has_alias row.alias) (λ a. row) as'
    else as' ++ (row ∷ [])

unfoldable pub apply_action : Action → AliasRow → List AliasRow → List AliasRow
unfolding put_alias
apply_action (sets actor) row as' = put_alias row as'
apply_action removes row as' = delete_rows (has_alias row.alias) as'

abbrev pub history_clash : AliasHistoryRow → AliasHistoryRow → Bool
history_clash h g =
    (g.alias == h.alias && eqb g.revision h.revision)
    || asked_with h.updated_by_actor h.idempotency_key g

-- The rows that a mutation of the next revision writes.
abbrev pub history_row : Env → Mutation → String → Db → AliasHistoryRow
history_row env m actor db = record {
  alias = m.alias;
  revision = max_revision m.alias db.alias_history + 1;
  actor = actor;
  action = action_name m.action;
  updated_by_actor = m.updated_by_actor;
  updated_by_run = m.updated_by_run;
  project_id = m.project_id;
  idempotency_key = m.idempotency_key;
  updated_at = env.now;
}

abbrev pub alias_row : Env → Mutation → String → Db → AliasRow
alias_row env m actor db = record {
  alias = m.alias;
  actor = actor;
  revision = max_revision m.alias db.alias_history + 1;
  updated_by_actor = m.updated_by_actor;
  updated_by_run = m.updated_by_run;
  project_id = m.project_id;
  idempotency_key = m.idempotency_key;
  updated_at = env.now;
}

abbrev pub mutation_kind : Mutation → String
mutation_kind m = if is_removal m.action then "actor.alias_remove" else "actor.alias_set"

abbrev pub mutation_payload : Mutation → String → ℕ → Payload
mutation_payload m actor revision =
    ("alias", text m.alias)
    ∷ ("revision", number revision)
    ∷ ("action", text (action_name m.action))
    ∷ (if actor == "" then [] else ("actor", text actor) ∷ [])

-- The tables with the history and the alias written.
unfoldable pub written : Env → Mutation → String → Db → Db
unfolding apply_action max_revision
written env m actor db = record db {
  alias_history = db.alias_history ++ (history_row env m actor db ∷ []);
  aliases = apply_action m.action (alias_row env m actor db) db.aliases;
}

unfoldable pub record_mutation : Env → Mutation → String → Db → Result (AliasMutationResult × Db)
unfolding written max_revision
record_mutation env m actor db = do
  reject (exists_row (history_clash (history_row env m actor db)) db.alias_history)
      (failure "record alias history")
  db' ←
      append_event env m.project_id "durable" (mutation_kind m) "" m.updated_by_actor
        (some (mutation_payload m actor (max_revision m.alias db.alias_history + 1)))
        (written env m actor db)
  ok (
    record {
      alias = of_history (history_row env m actor db);
      removed = is_removal m.action;
      duplicate_request = false;
    },
    db',
  )

unfoldable pub mutate_alias : Env → Mutation → Db → Result (AliasMutationResult × Db)
unfolding answer_repeated check_action record_mutation
mutate_alias env m db =
    elim (alias_request_by_idempotency db m.updated_by_actor m.idempotency_key) [
      | some h ↦ answer_repeated h m db
      | none ↦ do
        reject (alias_claim_request_exists db m.updated_by_actor m.idempotency_key)
            idempotency_conflict
        actor ← check_action m m.action db
        record_mutation env m actor db
    ]

abbrev pub set_mutation : AliasSetRequest → Mutation
set_mutation req = record {
  alias = req.alias;
  action = sets req.actor;
  updated_by_actor = req.updated_by_actor;
  updated_by_run = req.updated_by_run;
  project_id = req.project_id;
  idempotency_key = req.idempotency_key;
}

abbrev pub remove_mutation : AliasRemoveRequest → Mutation
remove_mutation req = record {
  alias = req.alias;
  action = removes;
  updated_by_actor = req.updated_by_actor;
  updated_by_run = req.updated_by_run;
  project_id = req.project_id;
  idempotency_key = req.idempotency_key;
}

unfoldable pub set_alias : Env → AliasSetRequest → Db → Result (AliasMutationResult × Db)
unfolding normalize_alias_set_request mutate_alias
set_alias env request db = do
  req ← normalize_alias_set_request request
  reject (is_human_actor req.alias || is_human_actor req.actor) channel_capability
  mutate_alias env (set_mutation req) db

unfoldable pub remove_alias : Env → AliasRemoveRequest → Db → Result (AliasMutationResult × Db)
unfolding normalize_alias_remove_request mutate_alias
remove_alias env request db = do
  req ← normalize_alias_remove_request request
  mutate_alias env (remove_mutation req) db

abbrev pub of_row : AliasRow → ActorAlias
of_row a = record {
  alias = a.alias;
  actor = a.actor;
  revision = a.revision;
  updated_by_actor = a.updated_by_actor;
  updated_by_run = a.updated_by_run;
  project_id = a.project_id;
  updated_at = a.updated_at;
}

unfoldable pub resolve_alias : Db → String → Result ActorAlias
unfolding normalize_alias
resolve_alias db name = do
  alias ← normalize_alias "alias" name
  a ← or_fail (find_alias db alias) alias_not_found
  ok (of_row a)
