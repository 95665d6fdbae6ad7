-- ===== src/Store/Lifecycle/Predecessors.antt =====
-- internal/store/sqlite/alias.go: `AliasPreflight`, what an operator reviews before a name is pointed to
-- another actor.
use holler.Prelude.{String, true, false, ◌&&◌, ◌||◌, not, none, some, [], ◌==◌, if◌then◌else◌}
use holler.Bus.Result.{Result, ok, reject, alias_target_unknown, ◌>>=◌, ◌>>◌}
use holler.Bus.Text.{trim_space}
use holler.Bus.Types.{AliasPreflight}
use holler.Store.Tables.{exists_row}
use holler.Store.Db.{Db, Env}
use holler.Store.Routes.{find_alias, was_alias}
use holler.Store.AliasRequests.{normalize_alias}
use holler.Store.AliasClaims.{aliases_for_actor}
use holler.Store.Lifecycle.{archive_preflight}

-- The name as `ResolveAlias` has it, and whether it was an alias. `ResolveAlias` normalizes the name once
-- more, which changes nothing.
unfoldable pub standing : Db → String → String → AliasPreflight
standing db name proposed =
    let resolved = find_alias db name in
    record {
      alias = name;
      state = elim resolved [
        | some a ↦ "resolved_alias"
        | none ↦ if was_alias db name then "tombstoned_alias" else "missing"
      ];
      current_target = elim resolved [ some a ↦ a.actor | none ↦ "" ];
      current_revision = elim resolved [ some a ↦ a.revision | none ↦ 0 ];
      proposed_target = proposed;
      aliases_on_predecessor = [];
      aliases_on_proposed = [];
      predecessor = none;
      whole_actor_adoption = false;
    }

-- The actor that is proposed has been seen before.
unfoldable pub with_proposed : String → AliasPreflight → Db → Result AliasPreflight
unfolding aliases_for_actor
with_proposed proposed p db = do
  reject (not (proposed == "") && not (exists_row (λ n. n.actor == proposed) db.names))
      alias_target_unknown
  ok (record p {
    aliases_on_proposed = if proposed == "" then [] else aliases_for_actor proposed db;
  })

unfoldable pub with_predecessor : Env → AliasPreflight → Db → Result AliasPreflight
unfolding aliases_for_actor archive_preflight
with_predecessor env p db = do
  predecessor ← archive_preflight env p.current_target 25 db
  ok (record p {
    aliases_on_predecessor = aliases_for_actor p.current_target db;
    predecessor = some predecessor;
    whole_actor_adoption = true;
  })

unfoldable pub alias_preflight : Env → String → String → Db → Result AliasPreflight
unfolding normalize_alias standing with_proposed with_predecessor
alias_preflight env name proposed db = do
  alias ← normalize_alias "alias" name
  let who = trim_space proposed
  p ← with_proposed who (standing db alias who) db
  if p.current_target == "" || p.current_target == who then ok p else with_predecessor env p db
