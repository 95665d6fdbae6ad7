-- ===== src/Store/Aliases/Resolving.antt =====
-- internal/store/sqlite/alias.go: what a name means after a mutation.
use holler.Prelude.{
  ◌+◌, ◌≡◌, refl, sym, ap, ◌∙◌, true, false, String, List, [], ◌∷◌, ◌++◌, none, some, ◌||◌, ◌==◌,
  Option-cases, inl, inr, arith,
}
use holler.Bus.Result.{
  ◌>>◌, ok, err, >>=-eq-ok, reject, failure, idempotency_conflict, channel_capability, ok-injective,
  alias_not_found, alias_tombstoned, alias_conflict,
}
use holler.Bus.Text.{is_human_actor}
use holler.Store.Tables.{exists_row, find_row, delete_rows}
use holler.Store.Db.{Db, Env, AliasRow, AliasHistoryRow}
use holler.Store.Events.{append_event}
use holler.Store.Events.Frame.{append_event-SameTables}
use holler.Prelude.Tests.{same_text}
use holler.Bus.Types.{Route, route_alias, route_actor}
use holler.Store.Routes.{resolve_route, was_alias, alias_target, assert_actor_name_not_alias}
use holler.Store.Tables.Rows.{exists-append}
use holler.Store.Adoption.{check_fields}
use holler.Store.Aliases.{
  AliasMutationResult, Mutation, mutate_alias, record_mutation, answer_repeated, check_action,
  set_alias, remove_alias, alias_request_by_idempotency, alias_claim_request_exists, history_row,
  history_clash, mutation_payload, mutation_kind, max_revision, written, alias_row, set_mutation,
  remove_mutation, resolve_alias, has_alias, put_alias, of_history, apply_action,
}
use holler.Store.AliasRequests.{
  set_fields, remove_fields, trim_set_request, trim_remove_request, AliasSetRequest,
  AliasRemoveRequest, normalize_alias_set_request, normalize_alias_remove_request, normalize_alias,
}

-- A row that is put is the one that its name finds.
find-put :
    (row : AliasRow) (rows : List AliasRow)
    → find_row (has_alias row.alias) (put_alias row rows) ≡ some row
unfolding put_alias
find-put row [] = ground arith
find-put row (a ∷ rows) = ground (arith, find-put row rows)

find-delete :
    (name : String) (rows : List AliasRow)
    → find_row (has_alias name) (delete_rows (has_alias name) rows) ≡ none
find-delete name [] = refl
find-delete name (a ∷ rows) = ground (arith, find-delete name rows)

record_mutation_inv :
    (env : Env) (m : Mutation) (actor : String) (db : Db) (r : AliasMutationResult) (db' : Db)
    → record_mutation env m actor db ≡ ok (r, db')
    → (of_history (history_row env m actor db) ≡ r.alias)
      × (db'.aliases ≡ apply_action m.action (alias_row env m actor db) db.aliases)
      × (db'.alias_history ≡ db.alias_history ++ (history_row env m actor db ∷ []))
unfolding record_mutation
record_mutation_inv env m actor db r db' h =
    let (_, _, h1) =
      >>=-eq-ok
        (reject (exists_row (history_clash (history_row env m actor db)) db.alias_history)
          (failure "record alias history"))
        _ h in
    let payload = some (mutation_payload m actor (max_revision m.alias db.alias_history + 1)) in
    let (noted, e, h2) =
      >>=-eq-ok
        (append_event env m.project_id "durable" (mutation_kind m) "" m.updated_by_actor payload
          (written env m actor db))
        _ h1 in
    let same =
      append_event-SameTables env m.project_id "durable" (mutation_kind m) "" m.updated_by_actor
        payload (written env m actor db) noted e in
    let done = ok-injective h2 in
    (
      ap (λ (x : AliasMutationResult × Db). x.0.alias) done,
      sym (ap (λ (x : AliasMutationResult × Db). x.1.aliases) done)
          ∙ (same.aliases ∙ unfold written in refl),
      sym (ap (λ (x : AliasMutationResult × Db). x.1.alias_history) done)
          ∙ (same.alias_history ∙ unfold written in refl),
    )

mutate_alias_inv :
    (env : Env) (m : Mutation) (db : Db) (r : AliasMutationResult) (db' : Db)
    → mutate_alias env m db ≡ ok (r, db')
    → r.duplicate_request ≡ false
    → (actor : String) × (record_mutation env m actor db ≡ ok (r, db'))
unfolding mutate_alias
mutate_alias_inv env m db r db' h fresh =
    elim (Option-cases (alias_request_by_idempotency db m.updated_by_actor m.idempotency_key)) [
      | inr (old, e) ↦
          let same : r.duplicate_request ≡ true = unfold answer_repeated in ground arith in
          absurd cc
      | inl e ↦
          let (_, _, h1) =
            >>=-eq-ok
              (reject (alias_claim_request_exists db m.updated_by_actor m.idempotency_key)
                idempotency_conflict)
              _ (rw (mutate_alias, e) at h) in
          let (actor, _, h2) = >>=-eq-ok (check_action m m.action db) _ h1 in (actor, h2)
    ]

set_alias_inv :
    (env : Env) (request : AliasSetRequest) (db : Db) (r : AliasMutationResult) (db' : Db)
    → set_alias env request db ≡ ok (r, db')
    → (req : AliasSetRequest) × (normalize_alias "alias" request.alias ≡ ok req.alias)
      × (mutate_alias env (set_mutation req) db ≡ ok (r, db'))
unfolding set_alias normalize_alias_set_request
set_alias_inv env request db r db' h =
    let (req, e, h1) = >>=-eq-ok (normalize_alias_set_request request) _ h in
    let (_, _, h2) =
      >>=-eq-ok (reject (is_human_actor req.alias || is_human_actor req.actor) channel_capability) _
        h1 in
    let (name, e1, g1) = >>=-eq-ok (normalize_alias "alias" request.alias) _ e in
    let (_, _, g2) = >>=-eq-ok (check_fields (set_fields (trim_set_request name request))) _ g1 in
    let same : name ≡ req.alias =
      unfold trim_set_request in ap (λ (x : AliasSetRequest). x.alias) (ok-injective g2) in
    (req, e1 ∙ ap ok same, h2)

-- After `SetAlias` made a mutation, `ResolveAlias` of the same name gives the alias that it reported,
-- with the target, the revision and the origin.
pub set_alias-resolve :
    (env : Env) (request : AliasSetRequest) (db : Db) (r : AliasMutationResult) (db' : Db)
    → set_alias env request db ≡ ok (r, db')
    → r.duplicate_request ≡ false
    → resolve_alias db' request.alias ≡ ok r.alias
unfolding resolve_alias apply_action
set_alias-resolve env request db r db' h fresh =
    let (req, named, went) = set_alias_inv env request db r db' h in
    let (actor, wrote) = mutate_alias_inv env (set_mutation req) db r db' went fresh in
    let (reported, rows, _) = record_mutation_inv env (set_mutation req) actor db r db' wrote in
    rw (named, rows, find-put (alias_row env (set_mutation req) actor db) db.aliases)
      (ap ok reported)

remove_alias_inv :
    (env : Env) (request : AliasRemoveRequest) (db : Db) (r : AliasMutationResult) (db' : Db)
    → remove_alias env request db ≡ ok (r, db')
    → (req : AliasRemoveRequest) × (normalize_alias "alias" request.alias ≡ ok req.alias)
      × (mutate_alias env (remove_mutation req) db ≡ ok (r, db'))
unfolding remove_alias normalize_alias_remove_request
remove_alias_inv env request db r db' h =
    let (req, e, h1) = >>=-eq-ok (normalize_alias_remove_request request) _ h in
    let (name, e1, g1) = >>=-eq-ok (normalize_alias "alias" request.alias) _ e in
    let (_, _, g2) =
      >>=-eq-ok (check_fields (remove_fields (trim_remove_request name request))) _ g1 in
    let same : name ≡ req.alias =
      unfold trim_remove_request in ap (λ (x : AliasRemoveRequest). x.alias) (ok-injective g2) in
    (req, e1 ∙ ap ok same, h1)

abbrev alias_route : String → Route
alias_route name = record { kind = route_alias; value = name }

abbrev actor_route : String → Route
actor_route name = record { kind = route_actor; value = name }

route-alias : (db : Db) (name : String) → resolve_route db (alias_route name) ≡ alias_target db name
unfolding resolve_route same_text
route-alias db name = refl

route-actor :
    (db : Db) (name : String)
    → resolve_route db (actor_route name) ≡ (assert_actor_name_not_alias db name >> ok name)
unfolding resolve_route same_text
route-actor db name = refl

-- A name without a target that the history knows.
retired :
    (db : Db) (name : String)
    → find_row (has_alias name) db.aliases ≡ none
    → was_alias db name ≡ true
    → (resolve_route db (alias_route name) ≡ err alias_tombstoned)
      × (resolve_route db (actor_route name) ≡ err alias_conflict)
unfolding assert_actor_name_not_alias
retired db name gone known =
    (route-alias db name ∙ rw (alias_target, gone, known) refl, route-actor db name ∙ rw known refl)

-- After `RemoveAlias` made a mutation, `ResolveAlias` of the same name finds no alias, a message to
-- the name as an alias is refused as retired, and a message to it as an actor is refused as
-- reserved.
pub remove_alias-reserves :
    (env : Env) (request : AliasRemoveRequest) (db : Db) (r : AliasMutationResult) (db' : Db)
    (name : String)
    → remove_alias env request db ≡ ok (r, db')
    → r.duplicate_request ≡ false
    → normalize_alias "alias" request.alias ≡ ok name
    → (resolve_alias db' request.alias ≡ err alias_not_found)
      × (resolve_route db' (record { kind = route_alias; value = name }) ≡ err alias_tombstoned)
      × (resolve_route db' (record { kind = route_actor; value = name }) ≡ err alias_conflict)
unfolding resolve_alias apply_action
remove_alias-reserves env request db r db' name h fresh given =
    let (req, named, went) = remove_alias_inv env request db r db' h in
    let (actor, wrote) = mutate_alias_inv env (remove_mutation req) db r db' went fresh in
    let (_, rows, past) = record_mutation_inv env (remove_mutation req) actor db r db' wrote in
    let same : req.alias ≡ name = ok-injective (sym named ∙ given) in
    let gone : find_row (has_alias name) db'.aliases ≡ none =
      rw (rows, same) (find-delete name db.aliases) in
    let known : was_alias db' name ≡ true =
      rw
        (
          past,
          exists-append (λ (x : AliasHistoryRow). x.alias == name) db.alias_history
              (history_row env (remove_mutation req) actor db ∷ []),
        )
        (ground arith) in
    let (no_alias, no_actor) = retired db' name gone known in
    (rw (given, gone) refl, no_alias, no_actor)
